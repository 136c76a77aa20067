-- ===== src/Reveal/Bits.antt =====
-- firmware/src/lib.rs: `seen_pages` as a set of eight pages.
use cold_snap.Prelude.{
  ℕ, zero, suc, ◌^◌, ◌<◌, ◌≡◌, ◌⊎◌, inl, inr, Bool, true, false, not, ◌&&◌, ◌||◌, ◌==◌, ==_iff, ltb,
  ltb→lt, bit_or, arith, refl, ap, ◌≢◌,
}
use cold_snap.Keypad.{test_bit}

-- A test that holds below a bound.
all_below : ℕ → (ℕ → Bool) → Bool
all_below zero test = true
all_below (suc n) test = test n && all_below n test

all_below_at : (n : ℕ) (test : ℕ → Bool) (x : ℕ) → all_below n test ≡ true → x < n → test x ≡ true
unfolding all_below
all_below_at zero test x h lt = absurd (omega arith)
all_below_at (suc n) test x h lt = ground (arith, all_below_at n test x)

-- With the page `p` the set `a` of pages has at most `p` more, and is still one of eight pages.
is_added : ℕ → ℕ → ℕ → Bool
is_added p q a =
    ltb (bit_or a (2 ^ p)) 256 && (not (test_bit (bit_or a (2 ^ p)) q) || (test_bit a q || p == q))

added_table : all_below 8 (λ p. all_below 8 (λ q. all_below 256 (is_added p q))) ≡ true
unfolding all_below is_added test_bit
added_table = refl

is_added_lem : (a p q : ℕ) → a < 256 → p < 8 → q < 8 → is_added p q a ≡ true
is_added_lem a p q ha hp hq =
    all_below_at 256 (is_added p q) a
      (all_below_at 8 (λ q. all_below 256 (is_added p q)) q
        (all_below_at 8 (λ p. all_below 8 (λ q. all_below 256 (is_added p q))) p added_table hp) hq)
      ha

and_parts : (a b : Bool) → (a && b) ≡ true → (a ≡ true) × (b ≡ true)
and_parts true true h = (refl, refl)
and_parts true false h = absurd (cc h)
and_parts false b h = absurd (cc h)

or_parts : (a b c : Bool) → (not a || (b || c)) ≡ true → a ≡ true → (b ≡ true) ⊎ (c ≡ true)
or_parts true true c h e = inl refl
or_parts true false true h e = inr refl
or_parts true false false h e = absurd (cc h)
or_parts false b c h e = absurd (cc e)

pub bit_or-lt : (a p : ℕ) → a < 256 → p < 8 → bit_or a (2 ^ p) < 256
unfolding is_added
bit_or-lt a p ha hp =
    ltb→lt (bit_or a (2 ^ p)) 256
      (and_parts (ltb (bit_or a (2 ^ p)) 256)
        (not (test_bit (bit_or a (2 ^ p)) 0) || (test_bit a 0 || p == 0))
        (is_added_lem a p 0 ha hp (omega arith))).0

pub bit_or-adds :
    (a p q : ℕ)
    → a < 256
    → p < 8
    → q < 8
    → test_bit (bit_or a (2 ^ p)) q ≡ true
    → (test_bit a q ≡ true) ⊎ (p ≡ q)
unfolding is_added
bit_or-adds a p q ha hp hq h =
    let both =
      and_parts (ltb (bit_or a (2 ^ p)) 256)
        (not (test_bit (bit_or a (2 ^ p)) q) || (test_bit a q || p == q))
        (is_added_lem a p q ha hp hq) in
    elim (or_parts (test_bit (bit_or a (2 ^ p)) q) (test_bit a q) (p == q) both.1 h) [
      | inl old ↦ inl old
      | inr same ↦ inr ((==_iff p q).0 same)
    ]

full_table : all_below 8 (test_bit 255) ≡ true
unfolding all_below test_bit
full_table = refl

-- The whole set has each of the eight.
pub full : (q : ℕ) → q < 8 → test_bit 255 q ≡ true
full q h = all_below_at 8 (test_bit 255) q full_table h

empty_table : all_below 8 (λ q. not (test_bit 0 q)) ≡ true
unfolding all_below test_bit
empty_table = refl

pub empty : (q : ℕ) → q < 8 → test_bit 0 q ≢ true
empty q h e =
    let no_bit = all_below_at 8 (λ q. not (test_bit 0 q)) q empty_table h in cc (no_bit, ap not e)

same_table : all_below 256 (λ a. bit_or a 0 == a) ≡ true
unfolding all_below
same_table = refl

pub bit_or-zero : (a : ℕ) → a < 256 → bit_or a 0 ≡ a
bit_or-zero a h = (==_iff (bit_or a 0) a).0 (all_below_at 256 (λ a. bit_or a 0 == a) a same_table h)
