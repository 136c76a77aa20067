-- ===== src/Quiz/Counts.antt =====
-- firmware/src/quiz.rs, `shuffle` and `draw_order`: a shuffle keeps what it shuffles.
use cold_snap.Prelude.{
  ℕ, zero, suc, length-take, ◌+◌, ◌*◌, ◌/◌, inl, inr, ◌&&◌, ◌≤◌, ◌<◌, ◌≡◌, refl, sym, ap, ◌∙◌,
  subst, Bool, true, false, List, [], ◌∷◌, ◌++◌, some, ◌==◌, ltb, leb, if◌then◌else◌, length,
  get_elem?, set, swap, take, drop, arith, Option-cases, get_elem?-set_self, get_elem?-set_other,
  lt-of-get_elem?, replicate, copy_into,
}
use native.Mathlib.Decide.{ℕ_discrete}
use cold_snap.Quiz.{below, shuffle_loop, shuffle, positions, draw_order}

abbrev pub one : Bool → ℕ
one b = if b then 1 else 0

module _ {A : Type 0} where
  abbrev pub count_if : (A → Bool) → List A → ℕ
  count_if p [] = 0
  count_if p (x ∷ xs) = one (p x) + count_if p xs

  count_if-append :
      (p : A → Bool) (xs ys : List A) → count_if p (xs ++ ys) ≡ count_if p xs + count_if p ys
  count_if-append p [] ys = omega arith
  count_if-append p (x ∷ xs) ys = omega (arith, count_if-append p xs ys)

  count_if-set :
      (p : A → Bool) (xs : List A) (i : ℕ) (x v : A)
      → get_elem? xs i ≡ some x
      → count_if p (set xs i v) + one (p x) ≡ count_if p xs + one (p v)
  count_if-set p [] i x v h = absurd (cc h)
  count_if-set p (y ∷ xs) zero x v h =
      let same : y ≡ x = cc h in omega (arith, ap (λ z. one (p z)) same)
  count_if-set p (y ∷ xs) (suc i) x v h = omega (arith, count_if-set p xs i x v h)

  after_set :
      (xs : List A) (i j : ℕ) (y : A) → get_elem? xs j ≡ some y → get_elem? (set xs i y) j ≡ some y
  after_set xs i j y h = elim (ℕ_discrete j i) [
    | yes same ↦
        ap (get_elem? (set xs i y)) same
        ∙ get_elem?-set_self xs i y (omega (arith, same, lt-of-get_elem? xs j y h))
    | no other ↦ get_elem?-set_other xs i j y other ∙ h
  ]

  count_if-swap : (p : A → Bool) (i j : ℕ) (xs : List A) → count_if p (swap i j xs) ≡ count_if p xs
  count_if-swap p i j xs = elim (Option-cases (get_elem? xs i)) [
    | inl out ↦ rw (out, swap) refl
    | inr (x, at) ↦ elim (Option-cases (get_elem? xs j)) [
      | inl out ↦ rw (at, swap) (rw (out, swap) refl)
      | inr (y, bt) ↦
          rw (at, swap)
            (rw (bt, swap)
              (omega (
                arith,
                count_if-set p xs i x y at,
                count_if-set p (set xs i y) j y x (after_set xs i j y bt),
              )))
    ]
  ]

scaled : (d b : ℕ) → d < 4294967296 → 0 < b → d * b / 4294967296 < b
scaled d b h pos = let most : d * b ≤ 4294967295 * b = grind arith in omega arith

module _ {S : Type 0} (next_u32 : S → ℕ × S) where
  count_if-shuffle_loop :
      {A : Type 0} (p : A → Bool) (i : ℕ) (xs : List A) (s : S)
      → count_if p (shuffle_loop next_u32 i xs s).0 ≡ count_if p xs
  unfolding shuffle_loop
  count_if-shuffle_loop p zero xs s = refl
  count_if-shuffle_loop p (suc zero) xs s = refl
  count_if-shuffle_loop p (suc (suc i)) xs s =
      let r = below next_u32 (suc i + 1) s in
      count_if-shuffle_loop p (suc i) (swap (suc i) r.0 xs) r.1 ∙ count_if-swap p (suc i) r.0 xs

  -- A shuffle has as many of each kind as the list had.
  pub count_if-shuffle :
      {A : Type 0} (p : A → Bool) (xs : List A) (s : S)
      → count_if p (shuffle next_u32 xs s).0 ≡ count_if p xs
  unfolding shuffle
  count_if-shuffle p xs s = count_if-shuffle_loop p (length xs) xs s

  -- One draw, scaled, is below the bound.
  pub below-lt :
      (bound : ℕ) (s : S)
      → ((s : S) → (next_u32 s).0 < 4294967296)
      → 0 < bound
      → bound < 4294967296
      → (below next_u32 bound s).0 < bound
  unfolding below
  below-lt bound s word pos small =
      let inside : (ltb 0 bound && ltb bound 4294967296) ≡ true = ground (arith, pos, small) in
      rw inside (scaled (next_u32 s).0 bound (word s) pos)

pub count_if-true : {A : Type 0} (xs : List A) → count_if (λ _. true) xs ≡ length xs
count_if-true [] = refl
count_if-true (x ∷ xs) = omega (arith, count_if-true xs)

count_if-take : (p : ℕ → Bool) (n : ℕ) (xs : List ℕ) → count_if p (take n xs) ≤ count_if p xs
count_if-take p zero xs = omega arith
count_if-take p (suc n) [] = omega arith
count_if-take p (suc n) (x ∷ xs) = omega (arith, count_if-take p n xs)

positions-once : (x i n : ℕ) → count_if (λ y. y == x) (positions i n) ≤ one (leb i x)
unfolding positions
positions-once x i zero = omega arith
positions-once x i (suc n) = ground (arith, positions-once x (suc i) n)

positions-beyond : (b i n : ℕ) → i + n ≤ b → count_if (λ y. leb b y) (positions i n) ≡ 0
unfolding positions
positions-beyond b i zero h = refl
positions-beyond b i (suc n) h = ground (arith, positions-beyond b (suc i) n)

positions-last : count_if (λ y. y == 24) (positions 0 24) ≡ 0
unfolding positions
positions-last = refl

one-le : (b : Bool) → one b ≤ 1
one-le true = omega arith
one-le false = omega arith

-- What the order of the positions is drawn as: seven of the first 24, and the last.
abbrev pub IsOrder : List ℕ → Type 0
IsOrder order =
    (count_if (λ _. true) order ≡ 8)
    × ((x : ℕ) → count_if (λ y. y == x) order ≤ 1)
    × (count_if (λ y. y == 24) order ≡ 1)
    × (count_if (λ y. leb 25 y) order ≡ 0)

module _ {S : Type 0} (next_u32 : S → ℕ × S) where
  drawn : S → List ℕ
  drawn s = take 7 (shuffle next_u32 (positions 0 24) s).0

  drawn-le : (p : ℕ → Bool) (s : S) → count_if p (drawn s) ≤ count_if p (positions 0 24)
  unfolding drawn
  drawn-le p s = omega (
    arith,
    count_if-take p 7 (shuffle next_u32 (positions 0 24) s).0,
    count_if-shuffle next_u32 p (positions 0 24) s,
  )

  length-drawn : (s : S) → length (drawn s) ≡ 7
  unfolding drawn positions
  length-drawn s =
      let pool = (shuffle next_u32 (positions 0 24) s).0 in
      omega (
        arith,
        length-take 7 pool,
        count_if-true pool,
        count_if-shuffle next_u32 (λ _. true) (positions 0 24) s,
      )

  laid : (s : S) → copy_into (replicate 8 24) 0 (drawn s) ≡ drawn s ++ 24 ∷ []
  unfolding copy_into replicate
  laid s =
      ap (λ n. drawn s ++ drop n (replicate 8 24)) {x = 0 + length (drawn s)} {y = 7}
        (omega (arith, length-drawn s))

  draw_order-count :
      (p : ℕ → Bool) (s : S)
      → count_if p (draw_order next_u32 s).0 ≡ count_if p (drawn s) + one (p 24)
  unfolding draw_order drawn
  draw_order-count p s =
      let pool = shuffle next_u32 (positions 0 24) s in
      count_if-shuffle next_u32 p (copy_into (replicate 8 24) 0 (take 7 pool.0)) pool.1
      ∙ ap (count_if p) (laid s)
      ∙ count_if-append p (drawn s) (24 ∷ [])
      ∙ ap (λ n. count_if p (drawn s) + n) {x = one (p 24) + 0} {y = one (p 24)} (omega arith)

  -- Whatever the generator draws, a quiz asks for eight positions of the 25 words: no position twice,
  -- none past the last, and the last one, where the checksum stands, once.
  pub draw_order-IsOrder : (s : S) → IsOrder (draw_order next_u32 s).0
  draw_order-IsOrder s = (
    omega (arith, draw_order-count (λ _. true) s, count_if-true (drawn s), length-drawn s),
    λ x. no_repeat x,
    last,
    omega (
      arith,
      draw_order-count (λ y. leb 25 y) s,
      drawn-le (λ y. leb 25 y) s,
      positions-beyond 25 0 24 (omega arith),
    ),
  )
    where
      last : count_if (λ y. y == 24) (draw_order next_u32 s).0 ≡ 1
      last =
          omega
            (arith, draw_order-count (λ y. y == 24) s, drawn-le (λ y. y == 24) s, positions-last)

      no_repeat : (x : ℕ) → count_if (λ y. y == x) (draw_order next_u32 s).0 ≤ 1
      no_repeat x = elim (ℕ_discrete x 24) [
        | yes same ↦
            subst (λ z. count_if (λ y. y == z) (draw_order next_u32 s).0 ≤ 1) (sym same)
              (omega (arith, last))
        | no other ↦
            let apart : (24 == x) ≡ false = ground (arith, other) in
            omega (
              arith,
              draw_order-count (λ y. y == x) s,
              drawn-le (λ y. y == x) s,
              positions-once x 0 24,
              ap one apart,
              one-le (leb 0 x),
            )
      ]
