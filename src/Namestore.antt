-- ===== src/Namestore.antt =====
-- firmware/src/lib.rs, `NameStore`: the name of the device in a record of 72 bytes. SHA-256, the check of UTF-8
-- and the A/B slot of `frostsnap_embedded` are arguments; a name is its bytes.
pub mod RoundTrip
use cold_snap.Prelude.{
  ℕ, ◌+◌, ◌*◌, ◌%◌, not, List, [], ◌∷◌, ◌++◌, Option, none, some, Result, ok, err, ltb,
  if◌then◌else◌, length, take, drop, slice, copy_into, replicate,
}
use cold_snap.Prelude.Bytes.{bytes_eq, from_le_bytes, to_le_bytes}
use cold_snap.Store.{
  StoreFault, flash, too_big, AbWriteOutcome, committed, committed_single_copy, not_committed,
}

abbrev device_name_max_bytes : ℕ
device_name_max_bytes = 4 * 14

-- `"coldsnap/device-name/v1"`
abbrev pub name_domain : List ℕ
name_domain =
    99 ∷ 111 ∷ 108 ∷ 100 ∷ 115 ∷ 110 ∷ 97 ∷ 112 ∷ 47 ∷ 100 ∷ 101 ∷ 118 ∷ 105 ∷ 99 ∷ 101 ∷ 45 ∷ 110
    ∷ 97 ∷ 109 ∷ 101 ∷ 47 ∷ 118 ∷ 49 ∷ []

abbrev name_off : ℕ
name_off = 1

abbrev name_tag_off : ℕ
name_tag_off = 64

abbrev name_record_len : ℕ
name_record_len = name_tag_off + 8

-- The updates of the loop in `tagged`.
unfoldable pub framed : List (List ℕ) → List ℕ
framed [] = []
framed (part ∷ parts) = to_le_bytes 4 (length part) ++ (part ++ framed parts)

-- The match on the outcome of `try_write`.
unfoldable pub name_written : AbWriteOutcome → Result (Unit {0}) StoreFault
name_written committed = ok tt
name_written (committed_single_copy e) = ok tt
name_written (not_committed e) = err (flash e)

module _ (sha256 : List ℕ → List ℕ) where
  unfoldable pub tagged : List ℕ → List (List ℕ) → List ℕ
  tagged domain parts = sha256 (domain ++ framed parts)

  unfoldable pub name_tag : List ℕ → List ℕ
  name_tag body = take 8 (tagged name_domain (body ∷ []))

  -- The record that `save` builds.
  unfoldable pub name_record : List ℕ → List ℕ
  name_record name =
      let record1 = copy_into (replicate name_record_len 0) 0 (length name % 256 ∷ []) in
      let record2 = copy_into record1 name_off name in
      copy_into record2 name_tag_off (name_tag (take name_tag_off record2))

  module _ {F : Type 0} (try_write : List ℕ → F → AbWriteOutcome × F) where
    unfoldable pub save : List ℕ → F → Result (Unit {0}) StoreFault × F
    save name f =
        let (outcome, f') = try_write (name_record name) f in
        if ltb device_name_max_bytes (length name)
        then (err too_big, f)
        else (name_written outcome, f')

  -- `T` is the string that the check of UTF-8 makes of bytes.
  module _ {T F : Type 0} (from_utf8 : List ℕ → Option T) (read : F → Option (List ℕ)) where
    unfoldable pub name_from : Option (List ℕ) → Option T
    name_from none = none
    name_from (some record') =
        let len = from_le_bytes (take 1 record') in
        if not (bytes_eq (drop name_tag_off record') (name_tag (take name_tag_off record')))
        then none
        else if ltb device_name_max_bytes len
        then none
        else from_utf8 (slice name_off (name_off + len) record')

    unfoldable pub load : F → Option T
    load f = name_from (read f)
