-- ===== src/Upgrade/Judge.antt =====
-- firmware/src/upgrade.rs: what the verdict on a complete image means.
use cold_snap.Prelude.{
  ℕ, ◌%◌, ◌≡◌, ◌↔◌, inl, inr, refl, sym, ap, ◌∙◌, List, some, ok, arith, slice-slice,
  get_range-slice, ◌==◌, true, Result-cases, Bool-cases, ==_iff, ==_self,
}
use cold_snap.Prelude.Bytes.{bytes_eq, bytes_eq_self, eq_of_bytes_eq, from_le_bytes}
use cold_snap.Psram.{staged_burn_len}
use cold_snap.Psram.Burn.{IsBurnable, staged_burn_len-IsBurnable}
use cold_snap.Firmware.{digest_length, signed_range, firmware_digest}
use cold_snap.Upgrade.{judge}

-- For an image that the burn gate accepts at a multiple of 512, the digest is taken of its length.
digest_length-IsBurnable :
    (image : List ℕ) (n : ℕ) → IsBurnable image n → n % 512 ≡ 0 → digest_length image ≡ some n
unfolding digest_length
digest_length-IsBurnable image n b a =
    let field =
      ap from_le_bytes (slice-slice 24 28 16256 16384 image (omega arith) (omega arith))
      ∙ sym b.declared in
    rw (get_range-slice 16256 16384 image (omega arith) b.has_header, digest_length)
      (rw field (ground arith))

-- The judgement of a complete image says yes exactly when the image may be burned at the announced
-- size and the digest of its signed range is the announced one.
pub judge_iff :
    (sha256 : List ℕ → List ℕ) (announced : List ℕ) (size : ℕ) (image : List ℕ)
    → size % 512 ≡ 0
    → (judge sha256 announced size image ≡ ok tt)
      ↔ (IsBurnable image size × (sha256 (signed_range image size) ≡ announced))
unfolding judge firmware_digest
judge_iff sha256 announced size image a = (accepted, accepts)
  where
    accepts :
        IsBurnable image size × (sha256 (signed_range image size) ≡ announced)
        → judge sha256 announced size image ≡ ok tt
    accepts (b, same) =
        let len = (staged_burn_len-IsBurnable image size).1 b in
        let counted = digest_length-IsBurnable image size b a in
        let match : bytes_eq (sha256 (signed_range image size)) announced ≡ true =
          ap (bytes_eq (sha256 (signed_range image size))) (sym same)
          ∙ bytes_eq_self (sha256 (signed_range image size)) in
        rw (len, judge, ==_self size) (rw (counted, firmware_digest) (rw match refl))

    accepted :
        judge sha256 announced size image ≡ ok tt
        → IsBurnable image size × (sha256 (signed_range image size) ≡ announced)
    accepted h = elim (Result-cases (staged_burn_len image)) [
      | inr (e, v) ↦ absurd (ground (arith, v))
      | inl (d, v) ↦ elim (Bool-cases (d == size)) [
        | inr other ↦ absurd (ground (arith, v, other))
        | inl same ↦
            let len : staged_burn_len image ≡ ok size = v ∙ ap ok ((==_iff d size).0 same) in
            let b = (staged_burn_len-IsBurnable image size).0 len in
            let counted = digest_length-IsBurnable image size b a in
            (b, eq_of_bytes_eq _ _ (ground (arith, len, counted)))
      ]
    ]
