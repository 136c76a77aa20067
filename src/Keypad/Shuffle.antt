-- ===== src/Keypad/Shuffle.antt =====
-- hal/src/keypad.rs, `shuffle_rows`: the order of a scan is an order of all the rows.
use cold_snap.Prelude.{
  ℕ, zero, suc, ◌%◌, ◌<◌, ◌≡◌, refl, Bool, true, false, ◌&&◌, ◌||◌, List, [], ◌∷◌, arith, ◌==◌,
  ==_iff, length, swap,
}
use cold_snap.Keypad.{shuffle_loop, shuffle_rows}

-- A test that holds below a bound holds at each number below it.
below : ℕ → (ℕ → Bool) → Bool
below zero p = true
below (suc n) p = p n && below n p

at_below : (n : ℕ) (p : ℕ → Bool) (i : ℕ) → below n p ≡ true → i < n → p i ≡ true
unfolding below
at_below zero p i h k = absurd (omega arith)
at_below (suc n) p i h k = ground (arith, at_below n p i)

pub occurs : ℕ → List ℕ → Bool
occurs x [] = false
occurs x (y ∷ ys) = (x == y) || occurs x ys

-- Four rows, and each of the four among them: so each of them once.
abbrev pub IsOrder : List ℕ → Type 0
IsOrder rows = (length rows ≡ 4) × ((row : ℕ) → row < 4 → occurs row rows ≡ true)

is_order : List ℕ → Bool
is_order rows = (length rows == 4) && below 4 (λ row. occurs row rows)

is_order-IsOrder : (rows : List ℕ) → is_order rows ≡ true → IsOrder rows
unfolding is_order
is_order-IsOrder rows h =
    let both = split (length rows == 4) (below 4 (λ row. occurs row rows)) h in
    ((==_iff (length rows) 4).0 both.0, λ row k. at_below 4 (λ r. occurs r rows) row both.1 k)
  where
    split : (a b : Bool) → (a && b) ≡ true → (a ≡ true) × (b ≡ true)
    split true true e = (refl, refl)
    split true false e = absurd (cc e)
    split false b e = absurd (cc e)

module _ {S : Type 0} (next_u32 : S → ℕ × S) where
  shuffled : ℕ → ℕ → ℕ → List ℕ
  shuffled a b c = swap 1 c (swap 2 b (swap 3 a (0 ∷ 1 ∷ 2 ∷ 3 ∷ [])))

  table : below 4 (λ a. below 3 (λ b. below 2 (λ c. is_order (shuffled a b c)))) ≡ true
  unfolding below is_order occurs shuffled
  table = refl

  -- Whatever words the generator draws, the order of a scan has four rows, and each of the four
  -- rows is among them: no row is left out.
  shuffle_rows-IsOrder : (s : S) → IsOrder (shuffle_rows next_u32 s).0
  unfolding shuffle_rows shuffle_loop shuffled
  shuffle_rows-IsOrder s =
      let d1 = next_u32 s in
      let d2 = next_u32 d1.1 in
      let d3 = next_u32 d2.1 in
      is_order-IsOrder (shuffled (d1.0 % 4) (d2.0 % 3) (d3.0 % 2)) (
        at_below 2 (λ c. is_order (shuffled (d1.0 % 4) (d2.0 % 3) c)) (d3.0 % 2)
          (at_below 3 (λ b. below 2 (λ c. is_order (shuffled (d1.0 % 4) b c))) (d2.0 % 3)
            (at_below 4 (λ a. below 3 (λ b. below 2 (λ c. is_order (shuffled a b c)))) (d1.0 % 4)
              table (omega arith))
            (omega arith))
          (omega arith))
