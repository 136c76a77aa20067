-- ===== src/Wordentry/Digits.antt =====
-- firmware/src/wordentry.rs: every index of a share can be typed in.
use cold_snap.Prelude.{
  ℕ, zero, suc, ◌+◌, ◌-◌, ◌/◌, ◌%◌, ◌≤◌, ◌<◌, ◌≡◌, refl, ap, ◌∙◌, true, false, ◌&&◌, List, [], ◌∷◌,
  ◌++◌, some, ◌==◌, leb, arith,
}
use native.Mathlib.Decide.{ℕ_discrete}
use cold_snap.Wordentry.{Bip39, Entry, key, key_in, press, index_key, digit_key, shifted, index}

module _ {B E : Type 0} (bip : Bip39 B E) where
  pub press-append :
      (ks js : List ℕ) (e : Entry) → press bip (ks ++ js) e ≡ press bip js (press bip ks e)
  unfolding press
  press-append [] js e = refl
  press-append (k ∷ ks) js e = press-append ks js (key bip k e).1

  -- A decimal digit behind what is typed of the index.
  digit_typed :
      (e : Entry) (n : ℕ)
      → e.stage ≡ index
      → e.share ≡ n / 10
      → 0 < n
      → n < 4294967296
      → press bip ((48 + n % 10) ∷ []) e ≡ record e { share = n }
  unfolding press key key_in index_key digit_key shifted
  digit_typed e n st before pos small =
      let d : ℕ = n % 10 in
      let guard : (leb 48 (48 + d) && leb (48 + d) 57) ≡ true = ground arith in
      let fits : shifted e.share (48 + d - 48) ≡ some n = ground (arith, before) in
      let new : (n == e.share) ≡ false = ground (arith, before) in
      ap (λ s. (key_in bip s (48 + d) e).1) st ∙ rw guard (rw (fits, digit_key) (rw new refl))

  -- Every index that a `u32` holds is typed by its digits.
  pub index_typed :
      (fuel n : ℕ) (e : Entry)
      → e.stage ≡ index
      → e.share ≡ 0
      → n ≤ fuel
      → n < 4294967296
      → (ks : List ℕ) × (press bip ks e ≡ record e { share = n })
  unfolding press
  index_typed zero n e st none_yet h small =
      ([], (ap (λ m. record e { share = m }) {x = e.share} {y = n} (omega (arith, none_yet))))
  index_typed (suc fuel) n e st none_yet h small = elim (ℕ_discrete n 0) [
    | yes nothing ↦ (
      [],
      (ap (λ m. record e { share = m }) {x = e.share} {y = n} (omega (arith, none_yet, nothing))),
    )
    | no more ↦
        let (ks, before) = index_typed fuel (n / 10) e st none_yet (omega arith) (omega arith) in
        (
          ks ++ (48 + n % 10) ∷ [],
          press-append ks ((48 + n % 10) ∷ []) e
              ∙ ap (press bip ((48 + n % 10) ∷ [])) before
              ∙ digit_typed (record e { share = n / 10 }) n st refl (omega arith) small,
        )
  ]
