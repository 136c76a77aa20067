-- ===== src/Wordentry/Letters.antt =====
-- firmware/src/wordentry.rs, `Uppercase`: a buffer of fixed capacity for the letters A to Z.
use cold_snap.Prelude.{
  ℕ, zero, suc, ◌+◌, ◌-◌, ◌≤◌, ◌<◌, ◌≡◌, ◌⊎◌, inl, inr, refl, sym, ap, ◌∙◌, Bool, true, false, not,
  ◌&&◌, List, [], ◌∷◌, ◌++◌, leb, ltb, ◌==◌, if◌then◌else◌, length, take, set, replicate, arith,
  length-set, length-take, length-append, length-replicate, append_assoc, append-nil, Bool-cases,
  take-take, drop, subst, take-append-drop,
}

-- The bytes of `buf` from `len` on are not part of the contents.
pub record Uppercase : Type 0 where
  pub buf : List ℕ
  pub len : ℕ

-- `Uppercase::<N>::new`
unfoldable pub blank : ℕ → Uppercase
blank n = record { buf = replicate n 0; len = 0 }

-- All the bytes that are stored are ASCII, so that the contents are always valid UTF-8.
unfoldable pub as_str : Uppercase → List ℕ
as_str u = if leb u.len (length u.buf) then take u.len u.buf else []

unfoldable pub clear : Uppercase → Uppercase
clear u = record u { len = 0 }

unfoldable pub is_ascii_uppercase : ℕ → Bool
is_ascii_uppercase letter = leb 65 letter && leb letter 90

unfoldable pub push : ℕ → Uppercase → Bool × Uppercase
push letter u =
    if not (is_ascii_uppercase letter)
    then (false, u)
    else if ltb u.len (length u.buf)
    then (true, record { buf = set u.buf u.len letter; len = u.len + 1 })
    else (false, u)

unfoldable pub pop : Uppercase → Bool × Uppercase
pop u = if u.len == 0 then (false, u) else (true, record u { len = u.len - 1 })

-- The loop of `load`.
unfoldable pub load_loop : List ℕ → Uppercase → Bool × Uppercase
load_loop [] u = (true, u)
load_loop (c ∷ cs) u =
    let (pushed, v) = push c u in elim pushed [ true ↦ load_loop cs v | false ↦ (false, clear v) ]

unfoldable pub load : List ℕ → Uppercase → Bool × Uppercase
load word u = load_loop word (clear u)

-- The loop of `refresh`, which pushes each letter and does not look at the answer.
unfoldable pub push_all : List ℕ → Uppercase → Uppercase
push_all [] u = u
push_all (c ∷ cs) u = push_all cs (push c u).1

-- A buffer of capacity `n` whose contents are `xs`.
pub record Holds (n : ℕ) (xs : List ℕ) (u : Uppercase) : Type 0 where
  cap : length u.buf ≡ n
  pub count : length xs ≡ u.len
  pub fits : u.len ≤ n
  pub shown : take u.len u.buf ≡ xs

abbrev pub AllUpper : List ℕ → Type 0
AllUpper [] = Unit {0}
AllUpper (c ∷ cs) = (is_ascii_uppercase c ≡ true) × AllUpper cs

take-set : (xs : List ℕ) (n c : ℕ) → n < length xs → take (n + 1) (set xs n c) ≡ take n xs ++ c ∷ []
take-set [] n c h = absurd (omega arith)
take-set (x ∷ xs) zero c h = refl
take-set (x ∷ xs) (suc n) c h =
    ap (λ m. take m (x ∷ set xs n c)) {x = suc n + 1} {y = suc (n + 1)} (omega arith)
    ∙ ap (◌∷◌ x) (take-set xs n c (omega arith))

module _ {n : ℕ} {xs : List ℕ} {u : Uppercase} (h : Holds n xs u) where
  pub Holds-as_str : as_str u ≡ xs
  unfolding as_str
  Holds-as_str = rw (h.cap) (ground (arith, h.shown, h.fits))

  pub clear-Holds : Holds n [] (clear u)
  unfolding clear
  clear-Holds = record { cap = h.cap; count = refl; fits = omega arith; shown = refl }

  pub push-Holds :
      (c : ℕ)
      → is_ascii_uppercase c ≡ true
      → length xs < n
      → ((push c u).0 ≡ true) × Holds n (xs ++ c ∷ []) (push c u).1
  unfolding push
  push-Holds c up room =
      let space : ltb u.len (length u.buf) ≡ true = ground (arith, h.cap, h.count) in
      rw (up, space)
        (
          refl,
          record {
            cap = length-set u.buf u.len c ∙ h.cap;
            count = length-append xs (c ∷ []) ∙ ap (λ m. m + 1) h.count;
            fits = omega (arith, h.count);
            shown =
                take-set u.buf u.len c (omega (arith, h.cap, h.count))
                ∙ ap (λ ys. ys ++ c ∷ []) h.shown;
          },
        )

  -- A letter that is refused changes nothing, and one that is taken goes to the end.
  pub push-cases :
      (c : ℕ)
      → (push c u ≡ (false, u)) ⊎ (((push c u).0 ≡ true) × Holds n (xs ++ c ∷ []) (push c u).1)
  unfolding push
  push-cases c = elim (Bool-cases (is_ascii_uppercase c)) [
    | inr other ↦ inl (rw other refl)
    | inl up ↦ elim (Bool-cases (ltb u.len (length u.buf))) [
      | inl space ↦ inr (push-Holds c up (ground (arith, h.cap, h.count)))
      | inr full ↦ inl (rw (up, full) refl)
    ]
  ]

  -- A letter is dropped from the end, unless there is none.
  pub pop-cases :
      (pop u ≡ (false, u))
      ⊎ ((ys : List ℕ) × (zs : List ℕ) × (ys ++ zs ≡ xs)
          × ((pop u).0 ≡ true)
          × Holds n ys (pop u).1)
  unfolding pop
  pop-cases = elim (Bool-cases (u.len == 0)) [
    | inl none_left ↦ inl (rw none_left refl)
    | inr more ↦ inr (
      take (u.len - 1) xs,
      drop (u.len - 1) xs,
      take-append-drop (u.len - 1) xs,
      rw more refl,
      rw more (record {
        cap = h.cap;
        count = omega (arith, length-take (u.len - 1) xs, h.count);
        fits = omega (arith, h.fits);
        shown =
            sym (take-take (u.len - 1) u.len u.buf (omega arith)) ∙ ap (take (u.len - 1)) h.shown;
      }),
    )
  ]

pub blank-Holds : (n : ℕ) → Holds n [] (blank n)
unfolding blank
blank-Holds n = record {
  cap = length-replicate n 0;
  count = refl;
  fits = omega arith;
  shown = refl;
}

-- A word of capital letters that fits is loaded whole.
load_loop_lem :
    (n : ℕ) (cs xs : List ℕ) (u : Uppercase)
    → Holds n xs u
    → AllUpper cs
    → length xs + length cs ≤ n
    → ((load_loop cs u).0 ≡ true) × Holds n (xs ++ cs) (load_loop cs u).1
unfolding load_loop
load_loop_lem n [] xs u h up room = (refl, subst (λ ys. Holds n ys u) (sym (append-nil xs)) h)
load_loop_lem n (c ∷ cs) xs u h up room =
    let one = push-Holds h c up.0 (omega arith) in
    let rest =
      load_loop_lem n cs (xs ++ c ∷ []) (push c u).1 one.1 up.1
        (omega (arith, length-append xs (c ∷ []))) in
    rw (one.0, load_loop)
      (
        rest.0,
        subst (λ ys. Holds n ys (load_loop cs (push c u).1).1) (append_assoc xs (c ∷ []) cs) rest.1,
      )

pub load-Holds :
    (n : ℕ) (word xs : List ℕ) (u : Uppercase)
    → Holds n xs u
    → AllUpper word
    → length word ≤ n
    → ((load word u).0 ≡ true) × Holds n word (load word u).1
unfolding load
load-Holds n word xs u h up room =
    load_loop_lem n word [] (clear u) (clear-Holds h) up (omega arith)

pub push_all-Holds :
    (n : ℕ) (cs xs : List ℕ) (u : Uppercase)
    → Holds n xs u
    → AllUpper cs
    → length xs + length cs ≤ n
    → Holds n (xs ++ cs) (push_all cs u)
unfolding push_all
push_all-Holds n [] xs u h up room = subst (λ ys. Holds n ys u) (sym (append-nil xs)) h
push_all-Holds n (c ∷ cs) xs u h up room =
    let one = push-Holds h c up.0 (omega arith) in
    subst (λ ys. Holds n ys (push_all cs (push c u).1)) (append_assoc xs (c ∷ []) cs)
      (push_all-Holds n cs (xs ++ c ∷ []) (push c u).1 one.1 up.1
        (omega (arith, length-append xs (c ∷ []))))
