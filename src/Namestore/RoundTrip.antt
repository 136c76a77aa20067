-- ===== src/Namestore/RoundTrip.antt =====
-- firmware/src/lib.rs, `NameStore`: what `save` writes, `load` reads.
use cold_snap.Prelude.{
  ℕ, ◌+◌, ◌%◌, ◌≤◌, ◌<◌, ◌≡◌, ◌⊎◌, inl, inr, refl, sym, ap, ◌∙◌, List, [], ◌∷◌, ◌++◌, Option, some,
  Result, ok, err, lt→ltb, le→ltb, length, take, drop, slice, copy_into, replicate, arith,
  length-take, length-drop, length-copy_into, length-replicate, take_all, slice-copy_into,
}
use native.Mathlib.Decide.{dec_lt}
use cold_snap.Prelude.Bytes.{bytes_eq_self, from_le_bytes}
use cold_snap.Store.{
  StoreFault, flash, too_big, AbWriteOutcome, committed, committed_single_copy, not_committed,
}
use cold_snap.Store.Fields.{slice_before}
use cold_snap.Store.Keygen.{SlotLaws}
use cold_snap.Namestore.{
  name_domain, framed, name_written, tagged, name_tag, name_record, save, name_from, load,
}

-- The slot, for a record that is one chunk of the flash's writer with its index: where it refuses the write, the
-- previous record is still live, as the doc of `save` says.
pub record ChunkLaws {F : Type 0} (try_write : List ℕ → F → AbWriteOutcome × F)
    (read : F → Option (List ℕ)) : Type 0 where
  pub refused_lem :
      (r : List ℕ) (e : ℕ) (f f' : F)
      → length r ≤ 252
      → try_write r f ≡ (not_committed e, f')
      → read f' ≡ read f

module _ (sha256 : List ℕ → List ℕ) (long : (m : List ℕ) → 8 ≤ length (sha256 m)) where
  length-name_tag : (body : List ℕ) → length (name_tag sha256 body) ≡ 8
  unfolding name_tag tagged
  length-name_tag body =
      let m = name_domain ++ framed (body ∷ []) in omega (arith, length-take 8 (sha256 m), long m)

  module _ (name : List ℕ) (short : length name ≤ 56) where
    abbrev record1 : List ℕ
    record1 = copy_into (replicate 72 0) 0 (length name % 256 ∷ [])

    abbrev record2 : List ℕ
    record2 = copy_into record1 1 name

    abbrev tag : List ℕ
    tag = name_tag sha256 (take 64 record2)

    abbrev record3 : List ℕ
    record3 = copy_into record2 64 tag

    zeros : length (replicate {A = ℕ} 72 0) ≡ 72
    zeros = length-replicate {A = ℕ} 72 0

    l1 : length record1 ≡ 72
    l1 = length-copy_into (replicate 72 0) 0 (length name % 256 ∷ []) (omega (arith, zeros)) ∙ zeros

    l2 : length record2 ≡ 72
    l2 = length-copy_into record1 1 name (omega (arith, l1, short)) ∙ l1

    size : length tag ≡ 8
    size = length-name_tag (take 64 record2)

    l3 : length record3 ≡ 72
    l3 = length-copy_into record2 64 tag (omega (arith, l2, size)) ∙ l2

    len_at : slice 0 1 record3 ≡ length name % 256 ∷ []
    len_at =
        slice_before 0 1 64 record2 tag (omega arith) (omega (arith, l2))
        ∙ slice_before 0 1 1 record1 name (omega arith) (omega (arith, l1))
        ∙ slice-copy_into (replicate 72 0) 0 (length name % 256 ∷ []) (omega (arith, zeros))

    name_at : slice 1 (1 + length name) record3 ≡ name
    name_at =
        slice_before 1 (1 + length name) 64 record2 tag (omega (arith, short)) (omega (arith, l2))
        ∙ slice-copy_into record1 1 name (omega (arith, l1, short))

    tag_at : drop 64 record3 ≡ tag
    unfolding slice
    tag_at =
        sym (take_all 8 (drop 64 record3) (omega (arith, length-drop 64 record3, l3)))
        ∙ ap (λ n. slice 64 n record3) {x = 72} {y = 64 + length tag} (omega (arith, size))
        ∙ slice-copy_into record2 64 tag (omega (arith, l2, size))

    body_at : take 64 record3 ≡ take 64 record2
    unfolding slice
    body_at = slice_before 0 64 64 record2 tag (omega arith) (omega (arith, l2))

    len_read : from_le_bytes (take 1 record3) ≡ length name
    unfolding slice
    len_read = ap from_le_bytes len_at ∙ small
      where
        small : from_le_bytes (length name % 256 ∷ []) ≡ length name
        small = unfold from_le_bytes in omega (arith, short)

    one_chunk : length (name_record sha256 name) ≤ 252
    unfolding name_record
    one_chunk = omega (arith, l3)

    name_from-name_record :
        {T F : Type 0} (from_utf8 : List ℕ → Option T) (read : F → Option (List ℕ))
        → name_from sha256 from_utf8 read (some (name_record sha256 name)) ≡ from_utf8 name
    unfolding name_from name_record
    name_from-name_record from_utf8 read =
        rw (tag_at, body_at, bytes_eq_self tag, len_read, le→ltb 56 (length name) short, name_at)
          refl

  module _ {T F : Type 0} (from_utf8 : List ℕ → Option T)
      (try_write : List ℕ → F → AbWriteOutcome × F) (read : F → Option (List ℕ)) where
    -- What a save of a name that fits leaves.
    abbrev IsWritten : List ℕ → F → Result (Unit {0}) StoreFault × F → Type 0
    IsWritten name f r =
        ((e : ℕ) × (f' : F) × (r ≡ (err (flash e), f'))
          × (load sha256 from_utf8 read f' ≡ load sha256 from_utf8 read f))
        ⊎ ((f' : F) × (r ≡ (ok tt, f')) × (load sha256 from_utf8 read f' ≡ from_utf8 name))

    outcome-IsWritten :
        SlotLaws try_write read
        → ChunkLaws try_write read
        → (name : List ℕ) (f : F) → length name ≤ 56
        → (o : AbWriteOutcome) (f' : F) → try_write (name_record sha256 name) f ≡ (o, f')
        → IsWritten name f (name_written o, f')
    unfolding load name_written
    outcome-IsWritten laws chunk name f short committed f' e = inr (
      f',
      refl,
      ap (name_from sha256 from_utf8 read) (laws.committed_lem (name_record sha256 name) f f' e)
          ∙ name_from-name_record name short from_utf8 read,
    )
    outcome-IsWritten laws chunk name f short (committed_single_copy n) f' e = inr (
      f',
      refl,
      ap (name_from sha256 from_utf8 read) (laws.single_copy_lem (name_record sha256 name) n f f' e)
          ∙ name_from-name_record name short from_utf8 read,
    )
    outcome-IsWritten laws chunk name f short (not_committed n) f' e = inl (
      n,
      f',
      refl,
      ap (name_from sha256 from_utf8 read)
          (chunk.refused_lem (name_record sha256 name) n f f' (one_chunk name short) e),
    )

    -- For a hash of at least eight bytes, and a slot that keeps its laws, that of one chunk among them: a save of a name of more than 56 bytes
    -- is refused and changes nothing; a save of another fails with the flash's error, and `load` reads what
    -- it read, or is ok, and `load` reads what the check of UTF-8 makes of the name.
    pub save-load :
        (name : List ℕ) (f : F)
        → SlotLaws try_write read
        → ChunkLaws try_write read
        → ((56 < length name) × (save sha256 try_write name f ≡ (err too_big, f)))
          ⊎ ((length name ≤ 56)
              × (((e : ℕ) × (f' : F) × (save sha256 try_write name f ≡ (err (flash e), f'))
                    × (load sha256 from_utf8 read f' ≡ load sha256 from_utf8 read f))
                  ⊎ ((f' : F) × (save sha256 try_write name f ≡ (ok tt, f'))
                      × (load sha256 from_utf8 read f' ≡ from_utf8 name))))
    unfolding save
    save-load name f laws chunk = elim (dec_lt 56 (length name)) [
      | yes long_name ↦ inl (long_name, rw (lt→ltb 56 (length name) long_name) refl)
      | no short_name ↦
          let short : length name ≤ 56 = omega (arith, short_name) in
          inr (
            short,
            rw (le→ltb 56 (length name) short) (
                outcome-IsWritten laws chunk name f short (try_write (name_record sha256 name) f).0
                  (try_write (name_record sha256 name) f).1 refl),
          )
    ]
