-- ===== src/Identity/Slices.antt =====
-- hal/src/identity.rs: spans of a flash that was erased and written.
use cold_snap.Prelude.{
  ℕ, zero, suc, ◌+◌, ◌-◌, ◌≤◌, ◌≡◌, refl, sym, ap, ◌∙◌, List, ◌∷◌, ◌++◌, length, take, drop, slice,
  copy_into, replicate, arith, length-copy_into, drop-append,
}

module _ {A : Type 0} (v : A) where
  take-replicate :
      (k n : ℕ) (rest : List A) → k ≤ n → take k (replicate n v ++ rest) ≡ replicate k v
  unfolding replicate
  take-replicate zero n rest h = refl
  take-replicate (suc k) zero rest h = absurd (omega arith)
  take-replicate (suc k) (suc n) rest h = ap (◌∷◌ v) (take-replicate k n rest (omega arith))

  drop-replicate :
      (a n : ℕ) (rest : List A)
      → a ≤ n
      → drop a (replicate n v ++ rest) ≡ replicate (n - a) v ++ rest
  unfolding replicate
  drop-replicate zero n rest h = ap (λ m. replicate m v ++ rest) {x = n} {y = n - 0} (omega arith)
  drop-replicate (suc a) zero rest h = absurd (omega arith)
  drop-replicate (suc a) (suc n) rest h =
      drop-replicate a n rest (omega arith)
      ∙ ap (λ m. replicate m v ++ rest) {x = n - a} {y = suc n - suc a} (omega arith)

  slice-replicate :
      (a b n : ℕ) (rest : List A)
      → a ≤ b
      → b ≤ n
      → slice a b (replicate n v ++ rest) ≡ replicate (b - a) v
  unfolding slice
  slice-replicate a b n rest h k =
      ap (take (b - a)) (drop-replicate a n rest (omega arith))
      ∙ take-replicate (b - a) (n - a) rest (omega arith)

-- A span of the erased pages, and a span behind what was copied to the start.
pub erased :
    (xs ys : List ℕ) (at n : ℕ)
    → ys ≡ copy_into xs 0 (replicate 8192 255)
    → at + n ≤ 8192
    → slice at (at + n) ys ≡ replicate n 255
unfolding copy_into
erased xs ys at n e h =
    ap (slice at (at + n)) e
    ∙ slice-replicate 255 at (at + n) 8192 (drop (0 + length (replicate 8192 255)) xs) (omega arith)
        h
    ∙ ap (λ m. replicate m 255) {x = at + n - at} {y = n} (omega arith)

pub slice-beyond :
    (a b : ℕ) (xs src : List ℕ) → length src ≡ a → slice a b (copy_into xs 0 src) ≡ slice a b xs
unfolding slice copy_into
slice-beyond a b xs src h =
    ap (take (b - a)) (drop-append a src (drop (0 + length src) xs) (sym h))
    ∙ ap (λ m. take (b - a) (drop m xs)) {x = 0 + length src} {y = a} (omega (arith, h))

pub slice_start : (xs : List ℕ) → slice 0 48 xs ≡ take 48 xs
unfolding slice
slice_start xs = refl

pub length-copied :
    (xs ys : List ℕ) (at : ℕ) (src : List ℕ)
    → ys ≡ copy_into xs at src
    → at + length src ≤ length xs
    → length ys ≡ length xs
length-copied xs ys at src e h = ap length e ∙ length-copy_into xs at src h
