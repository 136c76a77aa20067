-- ===== src/Prelude/Bits.antt =====
-- Masks and tags of a word: `&` and `|` by blocks of four binary digits.
use Prim.Native.Nat.{
  ◌^◌, ℕ, zero, suc, ◌+◌, ◌*◌, ◌/◌, ◌%◌, ◌≤◌, ◌<◌, min, max, bit_and, bit_or, digits, bitwise,
  bit_and-bitwise, bit_or-bitwise,
}
use mathlib.Core.Path.{◌≡◌, refl, sym, ap, ap₂, ◌∙◌}
use native.Mathlib.Omega.{arith}

-- An operation on digits whose tail, once the first number has run out, is what zeros would give.
module _ (z : ℕ → ℕ) (f : ℕ → ℕ → ℕ) (tail : (b : ℕ) → z b ≡ z (b / 2) * 2 + f 0 (b % 2)) where
  fuel_irrelevant : (k m a b : ℕ) → a ≤ k → a ≤ m → digits z f k a b ≡ digits z f m a b
  fuel_irrelevant k m zero b hk hm = out k ∙ sym (out m)
    where
      out : (n : ℕ) → digits z f n 0 b ≡ z b
      out zero = refl
      out (suc n) = refl
  fuel_irrelevant zero m (suc a) b hk hm = absurd (omega arith)
  fuel_irrelevant (suc k) zero (suc a) b hk hm = absurd (omega arith)
  fuel_irrelevant (suc k) (suc m) (suc a) b hk hm =
      ap (λ t. t * 2 + f (suc a % 2) (b % 2))
        (fuel_irrelevant k m (suc a / 2) (b / 2) (omega arith) (omega arith))

  bitwise_step : (a b : ℕ) → bitwise z f a b ≡ bitwise z f (a / 2) (b / 2) * 2 + f (a % 2) (b % 2)
  bitwise_step zero b = tail b
  bitwise_step (suc a) b =
      ap (λ t. t * 2 + f (suc a % 2) (b % 2))
        (fuel_irrelevant a (suc a / 2) (suc a / 2) (b / 2) (omega arith) (omega arith))

and_step : (a b : ℕ) → bit_and a b ≡ bit_and (a / 2) (b / 2) * 2 + min (a % 2) (b % 2)
and_step a b = omega (
  arith,
  bit_and-bitwise a b,
  bit_and-bitwise (a / 2) (b / 2),
  bitwise_step (λ b. zero) min (λ b. omega arith) a b,
)

or_step : (a b : ℕ) → bit_or a b ≡ bit_or (a / 2) (b / 2) * 2 + max (a % 2) (b % 2)
or_step a b = omega (
  arith,
  bit_or-bitwise a b,
  bit_or-bitwise (a / 2) (b / 2),
  bitwise_step (λ b. b) max (λ b. omega arith) a b,
)

-- One digit of a mask, or of a tag.
and_one : (a m : ℕ) → bit_and a (2 * m + 1) ≡ bit_and (a / 2) m * 2 + a % 2
and_one a m = omega (
  arith,
  and_step a (2 * m + 1),
  ap (bit_and (a / 2)) {x = (2 * m + 1) / 2} {y = m} (omega arith),
)

and_zero : (a m : ℕ) → bit_and a (2 * m) ≡ bit_and (a / 2) m * 2
and_zero a m =
    omega (arith, and_step a (2 * m), ap (bit_and (a / 2)) {x = (2 * m) / 2} {y = m} (omega arith))

or_zero : (h v : ℕ) → bit_or (2 * h) v ≡ bit_or h (v / 2) * 2 + v % 2
or_zero h v =
    omega
      (arith, or_step (2 * h) v, ap (λ k. bit_or k (v / 2)) {x = (2 * h) / 2} {y = h} (omega arith))

-- Four digits at a time.
and_ones : (a m : ℕ) → bit_and a (16 * m + 15) ≡ bit_and (a / 16) m * 16 + a % 16
and_ones a m = omega (
  arith,
  ap (bit_and a) {x = 16 * m + 15} {y = 2 * (2 * (2 * (2 * m + 1) + 1) + 1) + 1} (omega arith),
  and_one a (2 * (2 * (2 * m + 1) + 1) + 1),
  and_one (a / 2) (2 * (2 * m + 1) + 1),
  and_one (a / 2 / 2) (2 * m + 1),
  and_one (a / 2 / 2 / 2) m,
  ap (λ k. bit_and k m) {x = a / 2 / 2 / 2 / 2} {y = a / 16} (omega arith),
)

and_zeros : (a m : ℕ) → bit_and a (16 * m) ≡ bit_and (a / 16) m * 16
and_zeros a m = omega (
  arith,
  ap (bit_and a) {x = 16 * m} {y = 2 * (2 * (2 * (2 * m)))} (omega arith),
  and_zero a (2 * (2 * (2 * m))),
  and_zero (a / 2) (2 * (2 * m)),
  and_zero (a / 2 / 2) (2 * m),
  and_zero (a / 2 / 2 / 2) m,
  ap (λ k. bit_and k m) {x = a / 2 / 2 / 2 / 2} {y = a / 16} (omega arith),
)

or_low : (h v : ℕ) → bit_or (16 * h) v ≡ bit_or h (v / 16) * 16 + v % 16
or_low h v = omega (
  arith,
  ap (λ k. bit_or k v) {x = 16 * h} {y = 2 * (2 * (2 * (2 * h)))} (omega arith),
  or_zero (2 * (2 * (2 * h))) v,
  or_zero (2 * (2 * h)) (v / 2),
  or_zero (2 * h) (v / 2 / 2),
  or_zero h (v / 2 / 2 / 2),
  ap (bit_or h) {x = v / 2 / 2 / 2 / 2} {y = v / 16} (omega arith),
)

-- `a & 0`, `h | 0`
and_none : (n a : ℕ) → a ≤ n → bit_and a 0 ≡ 0
and_none zero zero h = refl
and_none zero (suc a) h = absurd (omega arith)
and_none (suc n) zero h = refl
and_none (suc n) (suc a) h = omega (arith, and_step (suc a) 0, and_none n (suc a / 2) (omega arith))

or_none : (n h : ℕ) → h ≤ n → bit_or h 0 ≡ h
or_none zero zero k = refl
or_none zero (suc h) k = absurd (omega arith)
or_none (suc n) zero k = refl
or_none (suc n) (suc h) k = omega (arith, or_step (suc h) 0, or_none n (suc h / 2) (omega arith))

-- The low half of a word, its high half, and a word put together from the two.
pub and_low16 : (a : ℕ) → bit_and a 65535 ≡ a % 65536
and_low16 a = omega (
  arith,
  and_ones a 4095,
  and_ones (a / 16) 255,
  and_ones (a / 16 / 16) 15,
  and_ones (a / 16 / 16 / 16) 0,
  and_none (a / 16 / 16 / 16 / 16) (a / 16 / 16 / 16 / 16) (omega arith),
)

pub and_high16 : (a : ℕ) → a < 2 ^ 32 → bit_and a 4294901760 ≡ a / 65536 * 65536
and_high16 a h = omega (
  arith,
  and_zeros a 268431360,
  and_zeros (a / 16) 16776960,
  and_zeros (a / 16 / 16) 1048560,
  and_zeros (a / 16 / 16 / 16) 65535,
  and_low16 (a / 16 / 16 / 16 / 16),
)

pub or_tag16 : (t v : ℕ) → v < 65536 → bit_or (t * 65536) v ≡ t * 65536 + v
or_tag16 t v h = omega (
  arith,
  ap (λ k. bit_or k v) {x = t * 65536} {y = 16 * (t * 4096)} (omega arith),
  or_low (t * 4096) v,
  ap (λ k. bit_or k (v / 16)) {x = t * 4096} {y = 16 * (t * 256)} (omega arith),
  or_low (t * 256) (v / 16),
  ap (λ k. bit_or k (v / 16 / 16)) {x = t * 256} {y = 16 * (t * 16)} (omega arith),
  or_low (t * 16) (v / 16 / 16),
  ap (λ k. bit_or k (v / 16 / 16 / 16)) {x = t * 16} {y = 16 * t} (omega arith),
  or_low t (v / 16 / 16 / 16),
  ap (bit_or t) {x = v / 16 / 16 / 16 / 16} {y = 0} (omega arith),
  or_none t t (omega arith),
)

-- A bit that was set is set.
shift_or : (a b : ℕ) → bit_or a b / 2 ≡ bit_or (a / 2) (b / 2)
shift_or a b = omega (arith, or_step a b)

shift_or4 : (a b : ℕ) → bit_or a b / 16 ≡ bit_or (a / 16) (b / 16)
shift_or4 a b = omega (
  arith,
  shift_or a b,
  shift_or (a / 2) (b / 2),
  shift_or (a / 2 / 2) (b / 2 / 2),
  shift_or (a / 2 / 2 / 2) (b / 2 / 2 / 2),
  ap₂ bit_or {x = a / 2 / 2 / 2 / 2} {y = a / 16} {u = b / 2 / 2 / 2 / 2} {v = b / 16} (omega arith)
      (omega arith),
)

and_bit8 : (a : ℕ) → bit_and a 256 ≡ a / 256 % 2 * 256
and_bit8 a = omega (
  arith,
  and_zeros a 16,
  and_zeros (a / 16) 1,
  and_one (a / 16 / 16) 0,
  and_none (a / 16 / 16 / 2) (a / 16 / 16 / 2) (omega arith),
)

and_bit10 : (a : ℕ) → bit_and a 1024 ≡ a / 1024 % 2 * 1024
and_bit10 a = omega (
  arith,
  and_zeros a 64,
  and_zeros (a / 16) 4,
  and_zero (a / 16 / 16) 2,
  and_zero (a / 16 / 16 / 2) 1,
  and_one (a / 16 / 16 / 2 / 2) 0,
  and_none (a / 16 / 16 / 2 / 2 / 2) (a / 16 / 16 / 2 / 2 / 2) (omega arith),
)

pub and_or_bit8 : (a : ℕ) → bit_and (bit_or a 256) 256 ≡ 256
and_or_bit8 a = omega (
  arith,
  and_bit8 (bit_or a 256),
  shift_or4 a 256,
  shift_or4 (a / 16) 16,
  or_step (a / 16 / 16) 1,
)

pub and_or_bit10 : (a : ℕ) → bit_and (bit_or a 1024) 1024 ≡ 1024
and_or_bit10 a = omega (
  arith,
  and_bit10 (bit_or a 1024),
  shift_or4 a 1024,
  shift_or4 (a / 16) 64,
  shift_or (a / 16 / 16) 4,
  shift_or (a / 16 / 16 / 2) 2,
  or_step (a / 16 / 16 / 2 / 2) 1,
)
