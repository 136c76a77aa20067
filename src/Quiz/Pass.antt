-- ===== src/Quiz/Pass.antt =====
-- firmware/src/quiz.rs: a quiz can be passed, and only by eight right answers.
use cold_snap.Prelude.{
  ℕ, zero, suc, ◌+◌, ◌≤◌, ◌<◌, ◌≡◌, inl, inr, refl, sym, ap, ◌∙◌, Bool, true, false, List, [], ◌∷◌,
  ◌++◌, none, some, ok, err, Bool-cases, leb, Option-cases, length, get_elem?, replicate,
  lt-of-get_elem?, arith,
}
use native.Mathlib.Decide.{dec_lt}
use cold_snap.Prelude.Bytes.{bytes_eq, bytes_eq_self}
use cold_snap.Wordentry.{key_position}
use cold_snap.Wordentry.Laws.{Among}
use cold_snap.Quiz.{
  Quiz, Step, passed, position, truth, contains, draw_options, chosen_by, key, press, quiz_keys,
}
use cold_snap.Quiz.Counts.{count_if, one}
use cold_snap.Quiz.Draw.{Offers, draw_options-Offers}
use cold_snap.Quiz.{new, all_bip39, draw_order, quiz_keys}
use cold_snap.Quiz.Counts.{draw_order-IsOrder, count_if-true}
use cold_snap.Quiz.Play.{Supply, answers, IsQuiz, key_lem}

count_if-at :
    (p : ℕ → Bool) (xs : List ℕ) (i x : ℕ)
    → get_elem? xs i ≡ some x
    → p x ≡ true
    → 1 ≤ count_if p xs
count_if-at p [] i x h e = absurd (cc h)
count_if-at p (y ∷ xs) zero x h e =
    let same : y ≡ x = cc h in let here : p y ≡ true = ap p same ∙ e in omega (arith, ap one here)
count_if-at p (y ∷ xs) (suc i) x h e = omega (arith, count_if-at p xs i x h e)

count_if-some :
    {A : Type 0} (p : A → Bool) (xs : List A)
    → 1 ≤ count_if p xs
    → (i : ℕ) × (x : A) × (get_elem? xs i ≡ some x) × (p x ≡ true)
count_if-some p [] h = absurd (omega arith)
count_if-some p (x ∷ xs) h = elim (Bool-cases (p x)) [
  | inl here ↦ (0, x, refl, here)
  | inr other ↦
      let (i, y, at, good) = count_if-some p xs (omega (arith, h, ap one other)) in
      (suc i, y, at, good)
]

key_position-option : (i : ℕ) → i < 3 → key_position (49 + i) 0 quiz_keys ≡ some i
unfolding key_position
key_position-option i h = ground arith

module _ {S : Type 0} (next_u32 : S → ℕ × S) (bip39_words : List (List ℕ))
    (words_with_prefix : List ℕ → List (List ℕ)) where
  -- The right answers among the keys.
  pub score : List ℕ → Quiz → S → ℕ
  score [] q s = 0
  score (k ∷ ks) q s =
      let r = key next_u32 bip39_words words_with_prefix k q s in
      one (answers next_u32 bip39_words words_with_prefix k q) + score ks r.1 r.2

  -- How the last of some keys is answered.
  pub last_step : List ℕ → ℕ → Quiz → S → Step
  last_step ks k q s =
      let r = press next_u32 bip39_words words_with_prefix ks q s in
      (key next_u32 bip39_words words_with_prefix k r.0 r.1).0

  module _ (supply : Supply next_u32 bip39_words) where
    press_lem :
        (ks : List ℕ) (q : Quiz) (s : S)
        → IsQuiz next_u32 bip39_words words_with_prefix supply q
        → IsQuiz next_u32 bip39_words words_with_prefix supply
            (press next_u32 bip39_words words_with_prefix ks q s).0
          × ((press next_u32 bip39_words words_with_prefix ks q s).0.asked ≡ q.asked + score ks q s)
    unfolding press score
    press_lem [] q s v = (v, omega arith)
    press_lem (k ∷ ks) q s v =
        let r = key next_u32 bip39_words words_with_prefix k q s in
        let one_key = key_lem next_u32 bip39_words words_with_prefix supply k q s v in
        let rest = press_lem ks r.1 r.2 one_key.1 in (rest.0, omega (arith, rest.1, one_key.0))

    score-snoc :
        (ks : List ℕ) (k : ℕ) (q : Quiz) (s : S)
        → score (ks ++ k ∷ []) q s
          ≡ score ks q s
            + one (
                answers next_u32 bip39_words words_with_prefix k
                  (press next_u32 bip39_words words_with_prefix ks q s).0)
    unfolding press score
    score-snoc [] k q s = omega arith
    score-snoc (j ∷ ks) k q s =
        let r = key next_u32 bip39_words words_with_prefix j q s in
        omega (arith, score-snoc ks k r.1 r.2)

    -- From a fresh quiz that is sound, the keys up to one that passes have eight right answers.
    passed-score :
        (ks : List ℕ) (k : ℕ) (q : Quiz) (s : S)
        → IsQuiz next_u32 bip39_words words_with_prefix supply q
        → q.asked ≡ 0
        → last_step ks k q s ≡ passed
        → score (ks ++ k ∷ []) q s ≡ 8
    unfolding last_step
    passed-score ks k q s v none_yet e =
        let r = press next_u32 bip39_words words_with_prefix ks q s in
        let (after, asked) = press_lem ks q s v in
        let last = key_lem next_u32 bip39_words words_with_prefix supply k r.0 r.1 after in
        let (right, eight) = last.2.0 e in
        omega (arith, score-snoc ks k q s, asked, last.0, eight, none_yet, ap one right)

    -- One of the three keys picks the right word.
    right_key :
        (q : Quiz)
        → Offers next_u32 bip39_words words_with_prefix q
        → (k : ℕ) × (answers next_u32 bip39_words words_with_prefix k q ≡ true)
    unfolding answers chosen_by
    right_key q o =
        let p = λ (x : List ℕ). bytes_eq x o.right in
        let self : p o.right ≡ true = bytes_eq_self o.right in
        let (i, x, at, good) = count_if-some p q.options (omega (arith, o.mixed p, ap one self)) in
        let three : length q.options ≡ 3 = sym (count_if-true q.options) ∙ o.mixed (λ _. true) in
        let small : i < 3 = omega (arith, three, lt-of-get_elem? q.options i x at) in
        (
          49 + i,
          rw (o.asks, answers) (rw (key_position-option i small, answers) (rw (at, answers) good)),
        )

    -- A sound quiz can be passed, whatever the generator draws, by as many keys as there are questions
    -- left.
    passable :
        (left : ℕ) (q : Quiz) (s : S)
        → IsQuiz next_u32 bip39_words words_with_prefix supply q
        → q.asked + suc left ≡ 8
        → (ks : List ℕ) × (k : ℕ) × (length ks ≡ left) × (last_step ks k q s ≡ passed)
    unfolding last_step press
    passable zero q s v total =
        let (k, right) = right_key q (v.offers (omega arith)) in
        let last = key_lem next_u32 bip39_words words_with_prefix supply k q s v in
        ([], k, refl, last.2.1 (right, omega (arith, last.0, ap one right)))
    passable (suc left) q s v total =
        let (k, right) = right_key q (v.offers (omega arith)) in
        let r = key next_u32 bip39_words words_with_prefix k q s in
        let next = key_lem next_u32 bip39_words words_with_prefix supply k q s v in
        let (ks, j, count, done) =
          passable left r.1 r.2 next.1 (omega (arith, next.0, ap one right)) in
        (k ∷ ks, j, ap suc count, done)

    inside_order : (s : S) (i p : ℕ) → get_elem? (draw_order next_u32 s).0 i ≡ some p → p < 25
    inside_order s i p at = elim (dec_lt p 25) [
      | yes h ↦ h
      | no h ↦
          let past : leb 25 p ≡ true = ground (arith, h) in
          let drawn = draw_order-IsOrder next_u32 s in
          absurd (
            omega
              (arith, count_if-at (λ y. leb 25 y) (draw_order next_u32 s).0 i p at past, drawn.3))
    ]

    truth_word : (q : Quiz) (right : List ℕ) → truth q ≡ some right → Among right q.words
    unfolding truth
    truth_word q right asks = elim (Option-cases (position q)) [
      | inl out ↦ let gone : truth q ≡ none = rw (out, truth) refl in absurd (cc (gone, asks))
      | inr (p, at) ↦ (p, sym (rw (at, truth) refl) ∙ asks)
    ]

    -- A quiz that is made is sound, and no question of it is answered.
    new-IsQuiz :
        (words : List (List ℕ)) (q : Quiz) (s : S)
        → length words ≡ 25
        → (new next_u32 bip39_words words_with_prefix words s).0 ≡ ok q
        → IsQuiz next_u32 bip39_words words_with_prefix supply q × (q.asked ≡ 0)
    unfolding new contains
    new-IsQuiz words q s count h =
        elim (Bool-cases (all_bip39 next_u32 bip39_words words_with_prefix words)) [
          | inr other ↦
              let refused : (new next_u32 bip39_words words_with_prefix words s).0 ≡ err tt =
                rw other refl in
              absurd (cc (refused, h))
          | inl good ↦
              let drawn = draw_order next_u32 s in
              let start : Quiz = record {
                words = words;
                order = drawn.0;
                asked = 0;
                options = replicate 3 [];
                wrong = false;
              } in
              let run : (new next_u32 bip39_words words_with_prefix words s).0
                  ≡ (draw_options next_u32 bip39_words words_with_prefix start drawn.1).0 =
                rw good refl in
              let (offers, same) =
                draw_options-Offers next_u32 bip39_words words_with_prefix start q drawn.1
                  (sym run ∙ h) in
              let order : q.order ≡ drawn.0 = ap (λ (r : Quiz). r.order) same in
              (
                record {
                  base = record {
                    count = ap (λ (r : Quiz). length r.words) same ∙ count;
                    places =
                        ap length order
                        ∙ sym (count_if-true drawn.0)
                        ∙ (draw_order-IsOrder next_u32 s).0;
                    inside =
                        λ i p at. inside_order s i p (ap (λ xs. get_elem? xs i) (sym order) ∙ at);
                    varied = (
                      offers.right,
                      (
                        offers.own,
                        truth_word q offers.right offers.asks,
                        offers.own_in,
                        ground (arith, offers.own_other),
                      ),
                    );
                  };
                  capped = omega (arith, ap (λ (r : Quiz). r.asked) same);
                  offers = λ _. offers;
                },
                ap (λ (r : Quiz). r.asked) same,
              )
        ]

    -- A quiz that is made of 25 words passes at none but the eighth right answer.
    pub new-score :
        (words : List (List ℕ)) (ks : List ℕ) (k : ℕ) (q : Quiz) (s s' : S)
        → length words ≡ 25
        → (new next_u32 bip39_words words_with_prefix words s).0 ≡ ok q
        → last_step ks k q s' ≡ passed
        → score (ks ++ k ∷ []) q s' ≡ 8
    new-score words ks k q s s' count h e =
        let (v, none_yet) = new-IsQuiz words q s count h in passed-score ks k q s' v none_yet e

    -- A quiz that is made of 25 words can be passed by eight keys, whatever the generator draws.
    pub new-passable :
        (words : List (List ℕ)) (q : Quiz) (s s' : S)
        → length words ≡ 25
        → (new next_u32 bip39_words words_with_prefix words s).0 ≡ ok q
        → (ks : List ℕ) × (k : ℕ) × (length ks ≡ 7) × (last_step ks k q s' ≡ passed)
    new-passable words q s s' count h =
        let (v, none_yet) = new-IsQuiz words q s count h in
        passable 7 q s' v (omega (arith, none_yet))
