-- ===== src/Quiz/Draw.antt =====
-- firmware/src/quiz.rs, `draw_distinct` and `draw_options`: three words, one of them the right one.
use cold_snap.Prelude.{
  ℕ, zero, suc, ◌<◌, ◌≡◌, inl, inr, refl, sym, ap, ◌∙◌, subst, Bool, true, false, List, [], ◌∷◌,
  none, some, Result, ok, err, Result-cases, Bool-cases, Option-cases, length, get_elem?,
  get_elem?-lt, lt-of-get_elem?, arith, if◌then◌else◌,
}
use cold_snap.Prelude.Exec.{continue}
use cold_snap.Wordentry.Laws.{Among}
use cold_snap.Quiz.{
  Quiz, position, truth, contains, find_free, known, below, shuffle, draw_loop, draw_distinct, mix,
  draw_options,
}
use cold_snap.Quiz.Counts.{count_if, count_if-shuffle, below-lt}

Among-tail : {A : Type 0} (x y : A) (xs : List A) → Among x xs → Among x (y ∷ xs)
Among-tail x y xs (i, h) = (suc i, h)

find_free-ok :
    (taken pool : List (List ℕ)) (w : List ℕ)
    → find_free taken pool ≡ ok w
    → Among w pool × (contains taken w ≡ false)
unfolding find_free
find_free-ok taken [] w h = absurd (cc h)
find_free-ok taken (v ∷ pool) w h = step (contains taken v) refl h (find_free-ok taken pool w)
  where
    step :
        (b : Bool)
        → contains taken v ≡ b
        → (if b then find_free taken pool else ok v) ≡ ok w
        → (find_free taken pool ≡ ok w → Among w pool × (contains taken w ≡ false))
        → Among w (v ∷ pool) × (contains taken w ≡ false)
    step true e h ih = (Among-tail w v pool (ih h).0, (ih h).1)
    step false e h ih =
        let same : v ≡ w = cc h in ((0, ap some same), subst (λ x. contains taken x ≡ false) same e)

find_free-total :
    (taken pool : List (List ℕ)) (v : List ℕ)
    → Among v pool
    → contains taken v ≡ false
    → (w : List ℕ) × (find_free taken pool ≡ ok w)
unfolding find_free
find_free-total taken [] v (i, h) free = absurd (cc h)
find_free-total taken (x ∷ pool) v (zero, h) free =
    let same : x ≡ v = cc h in
    let test : contains taken x ≡ false = subst (λ y. contains taken y ≡ false) (sym same) free in
    (x, rw test refl)
find_free-total taken (x ∷ pool) v (suc i, h) free =
    let rest = find_free-total taken pool v (i, h) free in
    elim (Bool-cases (contains taken x)) [
      | inl used ↦ (rest.0, rw used rest.1)
      | inr open_one ↦ (x, rw open_one refl)
    ]

module _ {S : Type 0} (next_u32 : S → ℕ × S) where
  -- One try, by what stands at the place that was drawn.
  try_none :
      (tries : ℕ) (pool taken : List (List ℕ)) (s : S)
      → get_elem? pool (below next_u32 (length pool) s).0 ≡ none
      → (draw_loop next_u32 (suc tries) pool taken s).0 ≡ err tt
  unfolding draw_loop
  try_none tries pool taken s e = rw (e, draw_loop) refl

  try_free :
      (tries : ℕ) (pool taken : List (List ℕ)) (pick : List ℕ) (s : S)
      → get_elem? pool (below next_u32 (length pool) s).0 ≡ some pick
      → contains taken pick ≡ false
      → (draw_loop next_u32 (suc tries) pool taken s).0 ≡ ok pick
  unfolding draw_loop
  try_free tries pool taken pick s e free = rw (e, draw_loop) (rw free refl)

  try_taken :
      (tries : ℕ) (pool taken : List (List ℕ)) (pick : List ℕ) (s : S)
      → get_elem? pool (below next_u32 (length pool) s).0 ≡ some pick
      → contains taken pick ≡ true
      → draw_loop next_u32 (suc tries) pool taken s
        ≡ draw_loop next_u32 tries pool taken (below next_u32 (length pool) s).1
  unfolding draw_loop
  try_taken tries pool taken pick s e used = rw (e, draw_loop) (rw used refl)

  draw_loop-ok :
      (tries : ℕ) (pool taken : List (List ℕ)) (w : List ℕ) (s : S)
      → (draw_loop next_u32 tries pool taken s).0 ≡ ok w
      → Among w pool × (contains taken w ≡ false)
  draw_loop-ok zero pool taken w s h = unfold draw_loop in find_free-ok taken pool w h
  draw_loop-ok (suc tries) pool taken w s h =
      let ih = draw_loop-ok tries pool taken w (below next_u32 (length pool) s).1 in
      elim (Option-cases (get_elem? pool (below next_u32 (length pool) s).0)) [
        | inl e ↦ absurd (cc (try_none tries pool taken s e, h))
        | inr (pick, e) ↦ elim (Bool-cases (contains taken pick)) [
          | inl used ↦ ih (sym (ap (λ r. r.0) (try_taken tries pool taken pick s e used)) ∙ h)
          | inr free ↦
              let same : pick ≡ w = cc (try_free tries pool taken pick s e free, h) in
              (
                ((below next_u32 (length pool) s).0, e ∙ ap some same),
                subst (λ x. contains taken x ≡ false) same free,
              )
        ]
      ]

  draw_loop-total :
      (tries : ℕ) (pool taken : List (List ℕ)) (v : List ℕ) (s : S)
      → ((s : S) → (next_u32 s).0 < 4294967296)
      → length pool < 4294967296
      → Among v pool
      → contains taken v ≡ false
      → (w : List ℕ) × ((draw_loop next_u32 tries pool taken s).0 ≡ ok w)
  draw_loop-total zero pool taken v s word small m free =
      unfold draw_loop in find_free-total taken pool v m free
  draw_loop-total (suc tries) pool taken v s word small m free =
      let inside = lt-of-get_elem? pool m.0 v m.1 in
      let (pick, e) =
        get_elem?-lt pool (below next_u32 (length pool) s).0
          (below-lt next_u32 (length pool) s word (omega (arith, inside)) small) in
      let (w, rest) =
        draw_loop-total tries pool taken v (below next_u32 (length pool) s).1 word small m free in
      elim (Bool-cases (contains taken pick)) [
        | inl used ↦ (w, ap (λ r. r.0) (try_taken tries pool taken pick s e used) ∙ rest)
        | inr other ↦ (pick, try_free tries pool taken pick s e other)
      ]

module _ {S : Type 0} (next_u32 : S → ℕ × S) (bip39_words : List (List ℕ))
    (words_with_prefix : List ℕ → List (List ℕ)) where
  -- The options of a question: the right word, another of the backup, and a third of the list, each
  -- of them once, in an order that was shuffled.
  pub record Offers (q : Quiz) : Type 0 where
    pub right : List ℕ
    pub own : List ℕ
    pub any : List ℕ
    pub asks : truth q ≡ some right
    pub own_in : Among own q.words
    pub own_other : contains (right ∷ []) own ≡ false
    pub any_in : Among any bip39_words
    pub any_other : contains (right ∷ own ∷ []) any ≡ false
    pub mixed : (p : List ℕ → Bool) → count_if p q.options ≡ count_if p (right ∷ own ∷ any ∷ [])

  -- `draw_options` by its steps.
  no_truth :
      (q : Quiz) (s : S)
      → truth q ≡ none
      → (draw_options next_u32 bip39_words words_with_prefix q s).0 ≡ err tt
  unfolding draw_options known
  no_truth q s out = rw (out, known) refl

  module _ (q : Quiz) (right : List ℕ) (s : S) (asks : truth q ≡ some right) where
    first_draw : Result (List ℕ) (Unit {0}) × S
    first_draw = draw_distinct next_u32 q.words (right ∷ []) s

    second_draw : List ℕ → Result (List ℕ) (Unit {0}) × S
    second_draw own = draw_distinct next_u32 bip39_words (right ∷ own ∷ []) first_draw.1

    no_own :
        first_draw.0 ≡ err tt → (draw_options next_u32 bip39_words words_with_prefix q s).0 ≡ err tt
    unfolding draw_options known first_draw
    no_own e = rw (asks, known) (rw (e, continue) refl)

    no_any :
        (own : List ℕ)
        → first_draw.0 ≡ ok own
        → (second_draw own).0 ≡ err tt
        → (draw_options next_u32 bip39_words words_with_prefix q s).0 ≡ err tt
    unfolding draw_options known first_draw second_draw
    no_any own e f = rw (asks, known) (rw (e, continue) (rw (f, continue) refl))

    all_three :
        (own any : List ℕ)
        → first_draw.0 ≡ ok own
        → (second_draw own).0 ≡ ok any
        → (draw_options next_u32 bip39_words words_with_prefix q s).0
          ≡ ok (record q {
            options = (shuffle next_u32 (right ∷ own ∷ any ∷ []) (second_draw own).1).0;
          })
    unfolding draw_options known first_draw second_draw mix
    all_three own any e f = rw (asks, known) (rw (e, continue) (rw (f, continue) refl))

    options_Offers :
        (q' : Quiz)
        → (draw_options next_u32 bip39_words words_with_prefix q s).0 ≡ ok q'
        → Offers q' × (q' ≡ record q { options = q'.options })
    unfolding first_draw second_draw draw_distinct truth position
    options_Offers q' h = elim (Result-cases first_draw.0) [
      | inr (u, e) ↦ absurd (cc (no_own e, h))
      | inl (own, e) ↦ elim (Result-cases (second_draw own).0) [
        | inr (u, f) ↦ absurd (cc (no_any own e f, h))
        | inl (any, f) ↦
            let three : List (List ℕ) = right ∷ own ∷ any ∷ [] in
            let mixed = (shuffle next_u32 three (second_draw own).1).0 in
            let result : Quiz = record q { options = mixed } in
            let same : result ≡ q' = cc (all_three own any e f, h) in
            let one_drawn = draw_loop-ok next_u32 32 q.words (right ∷ []) own s e in
            let two_drawn =
              draw_loop-ok next_u32 32 bip39_words (right ∷ own ∷ []) any first_draw.1 f in
            let offers : Offers result = record {
              right = right;
              own = own;
              any = any;
              asks = asks;
              own_in = one_drawn.0;
              own_other = one_drawn.1;
              any_in = two_drawn.0;
              any_other = two_drawn.1;
              mixed = λ p. count_if-shuffle next_u32 p three (second_draw own).1;
            } in
            (
              subst Offers same offers,
              sym same ∙ ap (λ (r : Quiz). record q { options = r.options }) same,
            )
      ]
    ]

    -- Options are drawn, where the backup and the list have words to draw.
    pub options_total :
        ((s : S) → (next_u32 s).0 < 4294967296)
        → length q.words < 4294967296
        → length bip39_words < 4294967296
        → ((v : List ℕ) × Among v q.words × (contains (right ∷ []) v ≡ false))
        → ((own : List ℕ)
            → (v : List ℕ) × Among v bip39_words × (contains (right ∷ own ∷ []) v ≡ false))
        → (q' : Quiz) × ((draw_options next_u32 bip39_words words_with_prefix q s).0 ≡ ok q')
    unfolding first_draw second_draw draw_distinct
    options_total word small large (v, m, free) third =
        let (own, e) = draw_loop-total next_u32 32 q.words (right ∷ []) v s word small m free in
        let (v', m', free') = third own in
        let (any, f) =
          draw_loop-total next_u32 32 bip39_words (right ∷ own ∷ []) v' first_draw.1 word large m'
            free' in
        (
          record q { options = (shuffle next_u32 (right ∷ own ∷ any ∷ []) (second_draw own).1).0 },
          all_three own any e f,
        )

  -- Where options are drawn at all, they are the right word, another of the backup and a third of the
  -- list, each once, and nothing else of the quiz changes.
  pub draw_options-Offers :
      (q q' : Quiz) (s : S)
      → (draw_options next_u32 bip39_words words_with_prefix q s).0 ≡ ok q'
      → Offers q' × (q' ≡ record q { options = q'.options })
  draw_options-Offers q q' s h = elim (Option-cases (truth q)) [
    | inl out ↦ absurd (cc (no_truth q s out, h))
    | inr (right, asks) ↦ options_Offers q right s asks q' h
  ]
