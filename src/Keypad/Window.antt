-- ===== src/Keypad/Window.antt =====
-- hal/src/keypad.rs: what the verdict on a window of three scans rests on.
use cold_snap.Prelude.{
  ℕ, zero, suc, ◌+◌, ◌≤◌, ◌<◌, ◌≡◌, refl, sym, ap, ◌∙◌, ◌⊎◌, inl, inr, Bool, true, false, ◌||◌,
  List, [], ◌∷◌, Option, none, some, arith, ◌==◌, leb, ltb, if◌then◌else◌, get_elem?, replicate,
  Bool-cases, subst, sat_add8,
}
use cold_snap.Keypad.{
  Event, down, multi_key, new, push, verdict, verdict_loop, count_keys, test_bit, count_ones,
  decoder,
}

-- The event of a window of three scans.
unfoldable pub window : ℕ → ℕ → ℕ → Option Event
window a b c = (push c (push b (push a new).1).1).0

-- A count of three or more, and the key at its place.
record Confirmed (i : ℕ) (counts : List ℕ) (key : ℕ) : Type 0 where
  place : ℕ
  count : ℕ
  counted : get_elem? counts place ≡ some count
  enough : 3 ≤ count
  named : get_elem? decoder (i + place) ≡ some key

later :
    (i count : ℕ) (counts : List ℕ) (key : ℕ)
    → Confirmed (suc i) counts key
    → Confirmed i (count ∷ counts) key
later i count counts key c = record {
  place = suc c.place;
  count = c.count;
  counted = c.counted;
  enough = c.enough;
  named = ap (get_elem? decoder) (omega arith) ∙ c.named;
}

module _ (i count : ℕ) (counts : List ℕ) (key : ℕ) where
  -- One count, given what the loop over the later ones shows.
  pass_lem :
      (z t : Bool) (held : Option ℕ) (any_contact : Bool)
      → (t ≡ true → 3 ≤ count)
      → ((h : Option ℕ) (a : Bool)
          → verdict_loop (suc i) counts h a ≡ down key
          → (h ≡ some key) ⊎ Confirmed (suc i) counts key)
      → (if z
          then verdict_loop (suc i) counts held any_contact
          else if t
          then elim held [
            | some _ ↦ multi_key
            | none ↦ verdict_loop (suc i) counts (get_elem? decoder i) true
          ]
          else verdict_loop (suc i) counts held true)
        ≡ down key
      → (held ≡ some key) ⊎ Confirmed i (count ∷ counts) key
  pass_lem true t held any_contact enough ih h = elim (ih held any_contact h) [
    | inl e ↦ inl e
    | inr c ↦ inr (later i count counts key c)
  ]
  pass_lem false false held any_contact enough ih h = elim (ih held true h) [
    | inl e ↦ inl e
    | inr c ↦ inr (later i count counts key c)
  ]
  pass_lem false true (some k) any_contact enough ih h = absurd (cc h)
  pass_lem false true none any_contact enough ih h = elim (ih (get_elem? decoder i) true h) [
    | inl e ↦ inr (record {
      place = 0;
      count = count;
      counted = refl;
      enough = enough refl;
      named = ap (get_elem? decoder) (omega arith) ∙ e;
    })
    | inr c ↦ inr (later i count counts key c)
  ]

verdict_loop-down :
    (i : ℕ) (counts : List ℕ) (held : Option ℕ) (any_contact : Bool) (key : ℕ)
    → verdict_loop i counts held any_contact ≡ down key
    → (held ≡ some key) ⊎ Confirmed i counts key
unfolding verdict_loop
verdict_loop-down i [] (some k) any_contact key h = inl (cc h)
verdict_loop-down i [] none true key h = absurd (cc h)
verdict_loop-down i [] none false key h = absurd (cc h)
verdict_loop-down i (count ∷ counts) held any_contact key h =
    pass_lem i count counts key (count == 0) (leb 3 count) held any_contact (λ t. ground arith)
      (λ h' a. verdict_loop-down (suc i) counts h' a key) h

-- A count after a scan: one more where the scan shows the key.
Counted : ℕ → ℕ → Option ℕ → Option ℕ → Type 0
Counted bitmap i before after =
    (v : ℕ)
    → after ≡ some v
    → (u : ℕ) × (before ≡ some u) × (v ≤ u + (if test_bit bitmap i then 1 else 0))

bump_bound :
    (b : Bool) (count v : ℕ)
    → some (if b then sat_add8 count 1 else count) ≡ some v
    → v ≤ count + (if b then 1 else 0)
bump_bound true count v h = grind arith
bump_bound false count v h = grind arith

count_keys-Counted :
    (bitmap i n : ℕ) (counts : List ℕ)
    → Counted bitmap (i + n) (get_elem? counts n) (get_elem? (count_keys bitmap i counts) n)
unfolding count_keys Counted
count_keys-Counted bitmap i n [] v h = absurd (cc h)
count_keys-Counted bitmap i zero (count ∷ counts) v h = (
  count,
  refl,
  subst (λ k. v ≤ count + (if test_bit bitmap k then 1 else 0)) {x = i} {y = i + 0} (omega arith)
      (bump_bound (test_bit bitmap i) count v h),
)
count_keys-Counted bitmap i (suc n) (count ∷ counts) v h =
    let (u, e, le) = count_keys-Counted bitmap (suc i) n counts v h in
    (
      u,
      e,
      subst (λ k. v ≤ u + (if test_bit bitmap k then 1 else 0)) {x = suc i + n} {y = i + suc n}
          (omega arith) le,
    )

count_keys_lem :
    (bitmap n : ℕ) (counts : List ℕ)
    → Counted bitmap n (get_elem? counts n) (get_elem? (count_keys bitmap 0 counts) n)
count_keys_lem bitmap n counts =
    subst (λ k. Counted bitmap k (get_elem? counts n) (get_elem? (count_keys bitmap 0 counts) n))
      {x = 0 + n} {y = n} (omega arith) (count_keys-Counted bitmap 0 n counts)

replicate-zero : (k n v : ℕ) → get_elem? (replicate k 0) n ≡ some v → v ≡ 0
unfolding replicate
replicate-zero zero n v h = absurd (cc h)
replicate-zero (suc k) zero v h = grind arith
replicate-zero (suc k) (suc n) v h = replicate-zero k n v h

-- The counts after three scans.
counts_of : ℕ → ℕ → ℕ → List ℕ
counts_of a b c = count_keys c 0 (count_keys b 0 (count_keys a 0 (replicate 12 0)))

ghost_of : ℕ → ℕ → ℕ → Bool
ghost_of a b c =
    ((false || ltb 1 (count_ones 16 a)) || ltb 1 (count_ones 16 b)) || ltb 1 (count_ones 16 c)

window_lem :
    (a b c : ℕ)
    → window a b c
      ≡ some (if ghost_of a b c then multi_key else verdict_loop 0 (counts_of a b c) none false)
unfolding window push verdict new counts_of ghost_of
window_lem a b c = refl

-- One contact and no other, in a scan.
pub Only : ℕ → ℕ → Type 0
Only i bitmap = (test_bit bitmap i ≡ true) × (count_ones 16 bitmap ≤ 1)

down_of :
    (g : Bool) (e : Event) (key : ℕ)
    → g ≡ false
    → some (if g then multi_key else e) ≡ some (down key)
    → e ≡ down key
down_of true e key z h = absurd (cc z)
down_of false e key z h = cc h

no_ghost :
    (a b c : ℕ) → (((false || ltb 1 a) || ltb 1 b) || ltb 1 c) ≡ false → (a ≤ 1) × (b ≤ 1) × (c ≤ 1)
no_ghost a b c h = (ground arith, ground arith, ground arith)

all_three :
    (p q r : Bool) (v w x y : ℕ)
    → 3 ≤ v
    → v ≤ w + (if r then 1 else 0)
    → w ≤ x + (if q then 1 else 0)
    → x ≤ y + (if p then 1 else 0)
    → y ≡ 0
    → (p ≡ true) × (q ≡ true) × (r ≡ true)
all_three true true true v w x y e l1 l2 l3 z = (refl, refl, refl)
all_three false q r v w x y e l1 l2 l3 z = absurd (ground arith)
all_three true false r v w x y e l1 l2 l3 z = absurd (ground arith)
all_three true true false v w x y e l1 l2 l3 z = absurd (ground arith)

-- Three scans that add up to a count of three at a place all show its contact.
counts_of-Only :
    (a b c i v : ℕ)
    → get_elem? (counts_of a b c) i ≡ some v
    → 3 ≤ v
    → ghost_of a b c ≡ false
    → Only i a × Only i b × Only i c
unfolding counts_of ghost_of Only Counted
counts_of-Only a b c i v h enough ghost =
    let (w, e1, l1) = count_keys_lem c i (count_keys b 0 (count_keys a 0 (replicate 12 0))) v h in
    let (x, e2, l2) = count_keys_lem b i (count_keys a 0 (replicate 12 0)) w e1 in
    let (y, e3, l3) = count_keys_lem a i (replicate 12 0) x e2 in
    let z : y ≡ 0 = replicate-zero 12 i y e3 in
    let (seen_a, seen_b, seen_c) =
      all_three (test_bit a i) (test_bit b i) (test_bit c i) v w x y enough l1 l2 l3 z in
    let (few_a, few_b, few_c) =
      no_ghost (count_ones 16 a) (count_ones 16 b) (count_ones 16 c) ghost in
    ((seen_a, few_a), (seen_b, few_b), (seen_c, few_c))

-- Where the verdict on three scans names a key, one place of the decode table holds that key, and
-- each of the scans shows the contact of that place, and at most one contact in all.
pub window-down :
    (a b c key : ℕ)
    → window a b c ≡ some (down key)
    → (i : ℕ) × (get_elem? decoder i ≡ some key) × Only i a × Only i b × Only i c
unfolding Only
window-down a b c key h = elim (Bool-cases (ghost_of a b c)) [
  | inl g ↦ absurd (cc (h, window_lem a b c, g))
  | inr g ↦
      elim (verdict_loop-down 0 (counts_of a b c) none false key (
        down_of (ghost_of a b c) (verdict_loop 0 (counts_of a b c) none false) key g
          (sym (window_lem a b c) ∙ h))) [
            | inl e ↦ absurd (cc e)
            | inr f ↦
                let (in_a, in_b, in_c) =
                  counts_of-Only a b c f.place f.count f.counted f.enough g in
                (
                  f.place,
                  ap (get_elem? decoder) {x = f.place} {y = 0 + f.place} (omega arith) ∙ f.named,
                  in_a,
                  in_b,
                  in_c,
                )
          ]
]

-- Where one of three scans shows more than one contact, the window is refused.
window-ghost :
    (a b c : ℕ)
    → (1 < count_ones 16 a) ⊎ ((1 < count_ones 16 b) ⊎ (1 < count_ones 16 c))
    → window a b c ≡ some multi_key
window-ghost a b c h =
    let g : ghost_of a b c ≡ true = unfold ghost_of in ground arith in
    window_lem a b c
    ∙ ap (λ t. some (if t then multi_key else verdict_loop 0 (counts_of a b c) none false)) g
