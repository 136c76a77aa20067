-- ===== src/Identity/Classify.antt =====
-- hal/src/identity.rs, `classify` and `encode`: the records that are valid are those that are encoded.
use cold_snap.Prelude.{
  ℕ, zero, suc, ◌+◌, ◌*◌, ◌/◌, ◌%◌, ◌^◌, ◌≤◌, ◌<◌, ◌≡◌, ◌↔◌, refl, sym, ap, ap₂, ◌∙◌, subst, Bool,
  true, false, List, [], ◌∷◌, ◌++◌, ◌==◌, ==_iff, length, take, drop, slice, arith,
  take-append-drop, take-append, drop-append, length-take, length-drop, drop-drop, take_all,
}
use cold_snap.Prelude.Bytes.{
  bytes_eq, eq_of_bytes_eq, bytes_eq_self, from_le_bytes, to_le_bytes, length-to_le_bytes,
}
use cold_snap.Identity.{valid, verdict, classify, encode, tag_of, scalar_is_in_range, magic, domain}

-- Every element is a byte.
abbrev pub AllBytes : List ℕ → Type 0
AllBytes [] = Unit {0}
AllBytes (b ∷ bs) = (b < 256) × AllBytes bs

to_le_bytes-from_le_bytes :
    (bs : List ℕ) → AllBytes bs → to_le_bytes (length bs) (from_le_bytes bs) ≡ bs
unfolding to_le_bytes from_le_bytes
to_le_bytes-from_le_bytes [] h = refl
to_le_bytes-from_le_bytes (b ∷ bs) h =
    let low : (b + 256 * from_le_bytes bs) % 256 ≡ b = omega (arith, h.0) in
    let high : (b + 256 * from_le_bytes bs) / 256 ≡ from_le_bytes bs = omega (arith, h.0) in
    ap₂ (λ x xs. x ∷ xs) low (ap (to_le_bytes (length bs)) high ∙ to_le_bytes-from_le_bytes bs h.1)

from_le_bytes-magic : from_le_bytes (to_le_bytes 8 magic) ≡ magic
unfolding to_le_bytes from_le_bytes
from_le_bytes-magic = refl

AllBytes-drop : (n : ℕ) (bs : List ℕ) → AllBytes bs → AllBytes (drop n bs)
AllBytes-drop zero bs h = h
AllBytes-drop (suc n) [] h = h
AllBytes-drop (suc n) (b ∷ bs) h = AllBytes-drop n bs h.1

verdict-valid :
    (committed intact in_range ours : Bool) (secret s : List ℕ)
    → verdict committed intact in_range ours secret ≡ valid s
    → (committed ≡ true) × (intact ≡ true) × (in_range ≡ true) × (secret ≡ s)
unfolding verdict
verdict-valid true true true ours secret s h = (refl, refl, refl, cc h)
verdict-valid true true false ours secret s h = absurd (cc h)
verdict-valid true false in_range ours secret s h = absurd (cc h)
verdict-valid false true in_range ours secret s h = absurd (cc h)
verdict-valid false false in_range true secret s h = absurd (cc h)
verdict-valid false false in_range false secret s h = absurd (cc h)

-- A record of 48 bytes is its three parts.
parts : (r : List ℕ) → length r ≡ 48 → take 32 r ++ (slice 32 40 r ++ slice 40 48 r) ≡ r
unfolding slice
parts r h =
    let last : take 8 (drop 40 r) ≡ drop 8 (drop 32 r) =
      take_all 8 (drop 40 r) (omega (arith, length-drop 40 r)) ∙ sym (drop-drop 8 32 r) in
    ap (λ xs. take 32 r ++ (take 8 (drop 32 r) ++ xs)) last
    ∙ ap (λ xs. take 32 r ++ xs) (take-append-drop 8 (drop 32 r))
    ∙ take-append-drop 32 r

module _ (sha256 : List ℕ → List ℕ) (long : (m : List ℕ) → 8 ≤ length (sha256 m)) where
  pub length-tag_of : (s : List ℕ) → length (tag_of sha256 s) ≡ 8
  unfolding tag_of
  length-tag_of s = let m = domain ++ s in omega (arith, length-take 8 (sha256 m), long m)

  -- The parts of an encoded record.
  encoded :
      (s : List ℕ)
      → length s ≡ 32
      → (take 32 (encode sha256 s) ≡ s)
        × (slice 32 40 (encode sha256 s) ≡ tag_of sha256 s)
        × (slice 40 48 (encode sha256 s) ≡ to_le_bytes 8 magic)
  unfolding encode slice
  encoded s h =
      let t = tag_of sha256 s in
      let m = to_le_bytes 8 magic in
      let behind : drop 32 (s ++ (t ++ m)) ≡ t ++ m = drop-append 32 s (t ++ m) (sym h) in
      let eight : 8 ≡ length t = sym (length-tag_of s) in
      (
        take-append 32 s (t ++ m) (sym h),
        ap (take 8) behind ∙ take-append 8 t m eight,
        ap (take 8)
              (sym (drop-drop 8 32 (s ++ (t ++ m))) ∙ ap (drop 8) behind ∙ drop-append 8 t m eight)
            ∙ take_all 8 m (omega (arith, length-to_le_bytes 8 magic)),
      )

  pub classify-encode :
      (s : List ℕ)
      → length s ≡ 32
      → scalar_is_in_range s ≡ true
      → classify sha256 (encode sha256 s) ≡ valid s
  unfolding classify
  classify-encode s h in_range =
      let (secret, tag, commit) = encoded s h in
      let word : (from_le_bytes (slice 40 48 (encode sha256 s)) == magic) ≡ true =
        (==_iff (from_le_bytes (slice 40 48 (encode sha256 s))) magic).1
          (ap from_le_bytes commit ∙ from_le_bytes-magic) in
      let intact : bytes_eq (tag_of sha256 s) (slice 32 40 (encode sha256 s)) ≡ true =
        ap (bytes_eq (tag_of sha256 s)) tag ∙ bytes_eq_self (tag_of sha256 s) in
      rw (secret, word, intact, in_range) (unfold verdict in refl)

  encode-of-valid :
      (r s : List ℕ)
      → length r ≡ 48
      → AllBytes r
      → classify sha256 r ≡ valid s
      → (length s ≡ 32) × (scalar_is_in_range s ≡ true) × (r ≡ encode sha256 s)
  unfolding classify encode slice
  encode-of-valid r s len bytes h =
      let secret = take 32 r in
      let commit = take 8 (drop 40 r) in
      let (word, intact, in_range, same) =
        verdict-valid (from_le_bytes commit == magic)
          (bytes_eq (tag_of sha256 secret) (take 8 (drop 32 r))) (scalar_is_in_range secret)
          (from_le_bytes commit / 2 ^ 32 == magic / 2 ^ 32) secret s h in
      let whole : drop 40 r ≡ commit =
        sym (take_all 8 (drop 40 r) (omega (arith, length-drop 40 r))) in
      let eight : length commit ≡ 8 = omega (arith, length-take 8 (drop 40 r), length-drop 40 r) in
      let tag : take 8 (drop 32 r) ≡ tag_of sha256 s =
        sym (eq_of_bytes_eq (tag_of sha256 secret) (take 8 (drop 32 r)) intact)
        ∙ ap (tag_of sha256) same in
      let last : commit ≡ to_le_bytes 8 magic =
        sym (to_le_bytes-from_le_bytes commit (subst AllBytes whole (AllBytes-drop 40 r bytes)))
        ∙ ap₂ to_le_bytes eight ((==_iff (from_le_bytes commit) magic).0 word) in
      (
        omega (arith, ap length same, length-take 32 r),
        subst (λ x. scalar_is_in_range x ≡ true) same in_range,
        sym (parts r len) ∙ ap₂ (λ x y. x ++ y) same (ap₂ (λ x y. x ++ y) tag last),
      )

  -- For a hash of at least eight bytes, the 48 bytes of a record are read as the secret `s` exactly
  -- where `s` is a scalar in range and they are the record that `encode` writes for it.
  pub classify_iff :
      (r s : List ℕ)
      → length r ≡ 48
      → AllBytes r
      → (classify sha256 r ≡ valid s)
        ↔ ((length s ≡ 32) × (scalar_is_in_range s ≡ true) × (r ≡ encode sha256 s))
  classify_iff r s len bytes =
      (encode-of-valid r s len bytes, λ e. ap (classify sha256) e.2 ∙ classify-encode s e.0 e.1)
