-- ===== src/Quiz/Play.antt =====
-- firmware/src/quiz.rs, `Quiz::key`: only right answers count, and eight of them pass.
use cold_snap.Prelude.{
  ℕ, ◌+◌, ◌≤◌, ◌<◌, ◌≡◌, ◌≢◌, ◌↔◌, inl, inr, refl, sym, ap, ◌∙◌, subst, Bool, true, false, List, [],
  ◌∷◌, none, some, Bool-cases, leb, Option-cases, length, get_elem?, get_elem?-lt, lt-of-get_elem?,
  arith, ◌==◌, ==_iff, sat_add32,
}
use native.Mathlib.Decide.{dec_lt}
use cold_snap.Prelude.Bytes.{bytes_eq, eq_of_bytes_eq}
use cold_snap.Wordentry.{key_position}
use cold_snap.Wordentry.Laws.{Among}
use cold_snap.Quiz.{
  Quiz, Step, unchanged, redraw, abort, passed, position, truth, contains, asked_again, ask, answer,
  chosen_by, key,
}
use cold_snap.Quiz.Counts.{one}
use cold_snap.Quiz.Draw.{Offers, draw_options-Offers, options_total}

-- What a quiz needs of its surroundings: a generator of words of 32 bits, and a list of words that holds
-- one besides any two.
pub record Supply {S : Type 0} (next_u32 : S → ℕ × S) (bip39_words : List (List ℕ)) : Type 0 where
  pub word32 : (s : S) → (next_u32 s).0 < 4294967296
  pub large : length bip39_words < 4294967296
  pub third :
      (a b : List ℕ) → (v : List ℕ) × Among v bip39_words × (contains (a ∷ b ∷ []) v ≡ false)

-- Whether a key picks the right word.
unfoldable pub answers :
    {S : Type 0} (next_u32 : S → ℕ × S) (bip39_words : List (List ℕ))
    (words_with_prefix : List ℕ → List (List ℕ))
    → ℕ
    → Quiz
    → Bool
answers next_u32 bip39_words words_with_prefix k q = elim (truth q) [
  | none ↦ false
  | some right ↦ elim (chosen_by next_u32 bip39_words words_with_prefix k q) [
    | none ↦ false
    | some chosen ↦ bytes_eq chosen right
  ]
]

module _ {S : Type 0} (next_u32 : S → ℕ × S) (bip39_words : List (List ℕ))
    (words_with_prefix : List ℕ → List (List ℕ)) (supply : Supply next_u32 bip39_words) where
  -- Eight places for positions of the 25 words, of which two are different.
  pub record IsBase (q : Quiz) : Type 0 where
    pub count : length q.words ≡ 25
    pub places : length q.order ≡ 8
    pub inside : (i p : ℕ) → get_elem? q.order i ≡ some p → p < 25
    pub varied :
        (a : List ℕ) × ((b : List ℕ) × Among a q.words × Among b q.words × (bytes_eq a b ≡ false))

  pub record IsQuiz (q : Quiz) : Type 0 where
    pub base : IsBase q
    pub capped : q.asked ≤ 8
    pub offers : q.asked < 8 → Offers next_u32 bip39_words words_with_prefix q

  -- The rest of the quiz is free.
  IsBase-kept :
      (q : Quiz) (asked : ℕ) (options : List (List ℕ)) (wrong : Bool)
      → IsBase q
      → IsBase (record q { asked = asked; options = options; wrong = wrong })
  IsBase-kept q asked options wrong b = record {
    count = b.count;
    places = b.places;
    inside = b.inside;
    varied = b.varied;
  }

  truth_known : (q : Quiz) → IsBase q → q.asked < 8 → (right : List ℕ) × (truth q ≡ some right)
  unfolding truth position
  truth_known q b h =
      let (p, at) = get_elem?-lt q.order q.asked (omega (arith, b.places)) in
      let (right, there) = get_elem?-lt q.words p (omega (arith, b.inside q.asked p at, b.count)) in
      (right, rw (at, truth) there)

  truth_over : (q : Quiz) → IsBase q → truth q ≡ none → 8 ≤ q.asked
  truth_over q b out = elim (dec_lt q.asked 8) [
    | yes h ↦ let (right, asks) = truth_known q b h in absurd (cc (asks, out))
    | no h ↦ omega arith
  ]

  another :
      (q : Quiz) (right : List ℕ)
      → IsBase q
      → (v : List ℕ) × Among v q.words × (contains (right ∷ []) v ≡ false)
  unfolding contains
  another q right b =
      let (x, (y, mx, my, apart)) = b.varied in
      elim (Bool-cases (bytes_eq right x)) [
        | inr other ↦ (x, mx, rw other refl)
        | inl same ↦ (
          y,
          my,
          rw (subst (λ z. bytes_eq z y ≡ false) (sym (eq_of_bytes_eq right x same)) apart) refl,
        )
      ]

  -- A question can always be put.
  ask_lem :
      (q : Quiz) (s : S)
      → IsBase q
      → q.asked < 8
      → ((ask next_u32 bip39_words words_with_prefix q s).0 ≡ redraw)
        × ((ask next_u32 bip39_words words_with_prefix q s).1.asked ≡ q.asked)
        × IsQuiz (ask next_u32 bip39_words words_with_prefix q s).1
  unfolding ask asked_again
  ask_lem q s b h =
      let (right, asks) = truth_known q b h in
      let (q', drawn) =
        options_total next_u32 bip39_words words_with_prefix q right s asks supply.word32
          (omega (arith, b.count)) supply.large (another q right b) (supply.third right) in
      let (offers, same) =
        draw_options-Offers next_u32 bip39_words words_with_prefix q q' s drawn in
      rw (drawn, asked_again)
        (
          refl,
          ap (λ (r : Quiz). r.asked) same,
          record {
            base = subst IsBase (sym same) (IsBase-kept q q.asked q'.options q.wrong b);
            capped = omega (arith, ap (λ (r : Quiz). r.asked) same);
            offers = λ _. offers;
          },
        )

  -- What is promised of an answer to a key.
  abbrev Promised : ℕ → Quiz → Step × Quiz × S → Type 0
  Promised k q r =
      let right = answers next_u32 bip39_words words_with_prefix k q in
      (r.1.asked ≡ q.asked + one right)
      × IsQuiz r.1
      × ((r.0 ≡ passed) ↔ ((right ≡ true) × (r.1.asked ≡ 8)))

  still :
      (k : ℕ) (q : Quiz) (step : Step) (s : S)
      → IsQuiz q
      → step ≢ passed
      → answers next_u32 bip39_words words_with_prefix k q ≡ false
      → Promised k q (step, q, s)
  still k q step s v other none_right =
      rw none_right (omega arith, v, (λ e. absurd (other e), λ e. absurd (cc (e.0))))

  wrong_again :
      (k : ℕ) (q : Quiz) (s : S)
      → IsQuiz q
      → q.asked < 8
      → answers next_u32 bip39_words words_with_prefix k q ≡ false
      → Promised k q (ask next_u32 bip39_words words_with_prefix (record q { wrong = true }) s)
  wrong_again k q s v h none_right =
      let (step, asked, after) =
        ask_lem (record q { wrong = true }) s (IsBase-kept q q.asked q.options true v.base) h in
      rw none_right
        (omega (arith, asked), after, (λ e. absurd (cc (step, e)), λ e. absurd (cc (e.0))))

  right_next :
      (k : ℕ) (q : Quiz) (s : S)
      → IsQuiz q
      → q.asked < 7
      → answers next_u32 bip39_words words_with_prefix k q ≡ true
      → Promised k q (
          ask next_u32 bip39_words words_with_prefix
            (record q { wrong = false; asked = sat_add32 q.asked 1 })
            s)
  right_next k q s v h one_right =
      let q' : Quiz = record q { wrong = false; asked = sat_add32 q.asked 1 } in
      let (step, asked, after) =
        ask_lem q' s (IsBase-kept q (sat_add32 q.asked 1) q.options false v.base) (omega arith) in
      rw one_right (
        omega (arith, asked),
        after,
        (λ e. absurd (cc (step, e)), λ e. absurd (omega (arith, e.1, asked))),
      )

  answer_lem :
      (k : ℕ) (right chosen : List ℕ) (q : Quiz) (s : S)
      → IsQuiz q
      → q.asked < 8
      → answers next_u32 bip39_words words_with_prefix k q ≡ bytes_eq chosen right
      → Promised k q (answer next_u32 bip39_words words_with_prefix right chosen q s)
  unfolding answer
  answer_lem k right chosen q s v h e = elim (Bool-cases (bytes_eq chosen right)) [
    | inr other ↦ rw other (wrong_again k q s v h (e ∙ other))
    | inl same ↦ rw same (elim (Bool-cases (leb 8 (sat_add32 q.asked 1))) [
      | inr more ↦ rw more (right_next k q s v (ground (arith, more, h)) (e ∙ same))
      | inl last ↦
          let eight : sat_add32 q.asked 1 ≡ 8 = ground (arith, last, h) in
          rw last (
            rw (e ∙ same) (
              omega (arith, eight, h),
              record {
                base = IsBase-kept q (sat_add32 q.asked 1) q.options false v.base;
                capped = omega (arith, eight);
                offers = λ less. absurd (omega (arith, eight, less));
              },
              (λ _. (refl, eight), λ _. refl),
            ))
    ])
  ]

  truth_within : (q : Quiz) (right : List ℕ) → IsBase q → truth q ≡ some right → q.asked < 8
  unfolding truth position
  truth_within q right b asks = elim (Option-cases (get_elem? q.order q.asked)) [
    | inl out ↦ let gone : truth q ≡ none = rw (out, truth) refl in absurd (cc (gone, asks))
    | inr (p, at) ↦ omega (arith, lt-of-get_elem? q.order q.asked p at, b.places)
  ]

  -- With a supply of 32-bit words and of words to draw, a key leaves a sound quiz sound, adds one to
  -- the count exactly for the right answer, and passes exactly where that answer is the eighth.
  pub key_lem :
      (k : ℕ) (q : Quiz) (s : S)
      → IsQuiz q
      → Promised k q (key next_u32 bip39_words words_with_prefix k q s)
  unfolding key
  key_lem k q s v =
      let chosen = chosen_by next_u32 bip39_words words_with_prefix k q in
      elim (Option-cases (truth q)) [
        | inl out ↦
            rw (out, key)
              (still k q unchanged s v (λ e. cc e) (unfold answers in rw (out, answers) refl))
        | inr (right, asks) ↦
            rw (asks, key)
              (elim (Bool-cases (k == 120)) [
                | inl cancel ↦
                    let nothing : chosen_by next_u32 bip39_words words_with_prefix k q ≡ none =
                      subst (λ n. chosen_by next_u32 bip39_words words_with_prefix n q ≡ none)
                        (sym ((==_iff k 120).0 cancel)) (unfold chosen_by key_position in refl) in
                    rw cancel (
                      still k q abort s v (λ e. cc e)
                        (unfold answers in rw (asks, answers) (rw (nothing, answers) refl)))
                | inr other ↦ rw other (elim (Option-cases chosen) [
                  | inl nothing ↦
                      rw (nothing, key)
                        (still k q unchanged s v (λ e. cc e)
                          (unfold answers in rw (asks, answers) (rw (nothing, answers) refl)))
                  | inr (word, picked) ↦
                      rw (picked, key)
                        (answer_lem k right word q s v (truth_within q right v.base asks)
                          (unfold answers in rw (asks, answers) (rw (picked, answers) refl)))
                ])
              ])
      ]
