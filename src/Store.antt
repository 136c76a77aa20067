-- ===== src/Store.antt =====
-- firmware/src/store.rs: the share record, sealed in 512 bytes, and the store of its two copies. SHA-256,
-- the codec of bincode, the check of UTF-8 and the A/B slot of `frostsnap_embedded` are arguments, and so
-- are the three types of `frostsnap_core` that only the codec reads. A text is the list of its characters,
-- each the list of its bytes.
pub mod Fields
pub mod Layout
pub mod RoundTrip
pub mod Names
pub mod Keygen
pub mod Persist
pub mod Drained
pub mod Retry
use cold_snap.Prelude.{
  ℕ, zero, suc, ◌+◌, ◌-◌, ◌*◌, ◌%◌, Bool, true, false, not, ◌&&◌, ◌||◌, List, [], ◌∷◌, ◌++◌, Option,
  none, some, Result, ok, err, ◌>>=◌, ◌>>◌, ◌==◌, ltb, leb, if◌then◌else◌, length, take, drop,
  slice, copy_into, replicate,
}
use cold_snap.Prelude.Bytes.{bytes_eq, from_le_bytes, to_le_bytes}
use cold_snap.Rng.{all_equal}

abbrev pub record_len : ℕ
record_len = 512

abbrev pub magic : ℕ
magic = 0xC01D5EED5A1E0001

-- `b"coldsnap-share-v1"`
abbrev pub domain : List ℕ
domain =
    99 ∷ 111 ∷ 108 ∷ 100 ∷ 115 ∷ 110 ∷ 97 ∷ 112 ∷ 45 ∷ 115 ∷ 104 ∷ 97 ∷ 114 ∷ 101 ∷ 45 ∷ 118 ∷ 49
    ∷ []

abbrev magic_len : ℕ
magic_len = 8

abbrev len_len : ℕ
len_len = 2

abbrev header_len : ℕ
header_len = magic_len + len_len

abbrev check_len : ℕ
check_len = 8

abbrev body_max : ℕ
body_max = record_len - header_len - check_len

abbrev key_name_max_chars : ℕ
key_name_max_chars = 15

abbrev key_name_max_bytes : ℕ
key_name_max_bytes = key_name_max_chars * 4

abbrev f_key_id : ℕ
f_key_id = 0

abbrev f_asid : ℕ
f_asid = f_key_id + 32

abbrev f_threshold : ℕ
f_threshold = f_asid + 32

abbrev f_name_len : ℕ
f_name_len = f_threshold + 2

abbrev f_name : ℕ
f_name = f_name_len + 1

abbrev fixed_len : ℕ
fixed_len = f_name + key_name_max_bytes

abbrev pub Text : Type 0
Text = List (List ℕ)

-- `as_bytes`
unfoldable pub concat : Text → List ℕ
concat [] = []
concat (c ∷ cs) = c ++ concat cs

-- `name.char_indices().nth(n)`, the index alone.
unfoldable pub nth_index : ℕ → Text → Option ℕ
nth_index n [] = none
nth_index zero (c ∷ cs) = some 0
nth_index (suc n) (c ∷ cs) = elim (nth_index n cs) [ none ↦ none | some i ↦ some (length c + i) ]

-- `map_or`
unfoldable pub name_end : Option ℕ → ℕ → ℕ
name_end none whole = whole
name_end (some i) whole = i

-- The bytes of the name in their array, and their count in a byte.
unfoldable pub truncate_name : Text → List ℕ × ℕ
truncate_name name =
    let end = name_end (nth_index key_name_max_chars name) (length (concat name)) in
    let bytes = take end (concat name) in
    (copy_into (replicate key_name_max_bytes 0) 0 bytes, length bytes % 256)

-- `Pu`, `Ki` and `Sh` are the purpose of a key, the kind of its structure and the encrypted share.
module _ (Pu Ki Sh : Type 0) where
  pub record ShareBody : Type 0 where
    pub key_id : List ℕ
    pub access_structure_id : List ℕ
    pub threshold : ℕ
    pub name_len : ℕ
    pub name : List ℕ
    pub purpose : Pu
    pub kind : Ki
    pub share : Sh

  pub record Coded : Type 0 where
    pub coded_purpose : Pu
    pub coded_kind : Ki
    pub coded_share : Sh

  pub data HeldShare : Type 0 where
    vacant damaged : HeldShare
    held : ShareBody → HeldShare

  -- A reference to an access structure is its two ids. The mutations of a restoration are one.
  pub data Mutation : Type 0 where
    new_key : List ℕ → Text → Pu → Mutation
    new_access_structure : List ℕ → List ℕ → ℕ → Ki → Mutation
    save_share : List ℕ → List ℕ → Sh → Mutation
    restoration : Mutation

-- The kind of a flash's error is a number.
pub data StoreFault : Type 0 where
  flash : ℕ → StoreFault
  not_one_keygen too_big : StoreFault

pub data AbWriteOutcome : Type 0 where
  committed : AbWriteOutcome
  committed_single_copy not_committed : ℕ → AbWriteOutcome

module _ {Pu Ki Sh : Type 0} where
  unfoldable pub coded_of : ShareBody Pu Ki Sh → Coded Pu Ki Sh
  coded_of b = record { coded_purpose = b.purpose; coded_kind = b.kind; coded_share = b.share }

  -- The match of `body_from` on exactly three mutations.
  unfoldable pub body_from : List (Mutation Pu Ki Sh) → Result (ShareBody Pu Ki Sh) StoreFault
  body_from
        (new_key key_id key_name purpose
          ∷ new_access_structure ref_key ref_structure threshold kind
          ∷ save_share share_key share_structure share
          ∷ []) =
      let (name, name_len) = truncate_name key_name in
      if bytes_eq ref_key key_id
        && (bytes_eq share_key ref_key && bytes_eq share_structure ref_structure)
      then ok (record {
        key_id = key_id;
        access_structure_id = ref_structure;
        threshold = threshold;
        name_len = name_len;
        name = name;
        purpose = purpose;
        kind = kind;
        share = share;
      })
      else err not_one_keygen
  body_from staged = err not_one_keygen

  -- The writes to `out`, the part of the record behind its header.
  unfoldable pub fixed_fields : ShareBody Pu Ki Sh → List ℕ → List ℕ
  fixed_fields b out =
      let out1 = copy_into out f_key_id b.key_id in
      let out2 = copy_into out1 f_asid b.access_structure_id in
      let out3 = copy_into out2 f_threshold (to_le_bytes 2 b.threshold) in
      let out4 = copy_into out3 f_name_len (b.name_len ∷ []) in copy_into out4 f_name b.name

  -- `staged.retain`
  unfoldable pub retain : List (Mutation Pu Ki Sh) → List (Mutation Pu Ki Sh)
  retain [] = []
  retain (restoration ∷ ms) = retain ms
  retain (new_key key_id name purpose ∷ ms) = new_key key_id name purpose ∷ retain ms
  retain (new_access_structure key_id structure threshold kind ∷ ms) =
      new_access_structure key_id structure threshold kind ∷ retain ms
  retain (save_share key_id structure share ∷ ms) = save_share key_id structure share ∷ retain ms

  -- The match on the outcome of `try_write`, with what is staged.
  unfoldable pub written_out :
      AbWriteOutcome
      → List (Mutation Pu Ki Sh)
      → Result (Unit {0}) StoreFault × List (Mutation Pu Ki Sh)
  written_out committed staged = (ok tt, [])
  written_out (committed_single_copy e) staged = (ok tt, [])
  written_out (not_committed e) staged = (err (flash e), staged)

-- `encode` is `bincode::encode_into_slice` into so many bytes, and `decode` `decode_from_slice`.
module _ {Pu Ki Sh : Type 0} (sha256 : List ℕ → List ℕ)
    (encode : ℕ → Coded Pu Ki Sh → Option (List ℕ)) (decode : List ℕ → Option (Coded Pu Ki Sh))
    (from_utf8 : List ℕ → Option Text) where
  unfoldable pub tag_of : List ℕ → List ℕ
  tag_of bytes = take check_len (sha256 (domain ++ bytes))

  -- The end of `seal`, with the record so far and the length of its body.
  unfoldable pub seal_with : List ℕ → ℕ → Result (List ℕ) StoreFault
  seal_with record3 written =
      let record4 = copy_into record3 magic_len (to_le_bytes 2 written) in
      let tag = tag_of (take (record_len - check_len) record4) in
      if ltb written 65536 then ok (copy_into record4 (record_len - check_len) tag) else err too_big

  unfoldable pub seal_coded : List ℕ → Option (List ℕ) → Result (List ℕ) StoreFault
  seal_coded record2 none = err too_big
  seal_coded record2 (some bytes) =
      seal_with (copy_into record2 (header_len + fixed_len) bytes) (fixed_len + length bytes)

  unfoldable pub seal : ShareBody Pu Ki Sh → Result (List ℕ) StoreFault
  seal b =
      let record1 = copy_into (replicate record_len 0) 0 (to_le_bytes 8 magic) in
      let out = slice header_len (header_len + fixed_len) record1 in
      let record2 = copy_into record1 header_len (fixed_fields b out) in
      seal_coded record2 (encode (body_max - fixed_len) (coded_of b))

  -- The fields of a body that decodes.
  unfoldable pub body_of : List ℕ → Coded Pu Ki Sh → ShareBody Pu Ki Sh
  body_of body coded = record {
    key_id = slice f_key_id f_asid body;
    access_structure_id = slice f_asid f_threshold body;
    threshold = from_le_bytes (slice f_threshold f_name_len body);
    name_len = from_le_bytes (slice f_name_len f_name body);
    name = slice f_name fixed_len body;
    purpose = coded.coded_purpose;
    kind = coded.coded_kind;
    share = coded.coded_share;
  }

  -- The name's check: `none` is a name that is no text.
  unfoldable pub named : Option Text → ShareBody Pu Ki Sh → HeldShare Pu Ki Sh
  named none b = damaged
  named (some text) b = held b

  unfoldable pub unseal_coded : List ℕ → Option (Coded Pu Ki Sh) → HeldShare Pu Ki Sh
  unseal_coded body none = damaged
  unseal_coded body (some coded) =
      let b = body_of body coded in
      if ltb key_name_max_bytes b.name_len
      then damaged
      else named (from_utf8 (slice f_name (f_name + b.name_len) body)) b

  unfoldable pub unseal_body : List ℕ → ℕ → HeldShare Pu Ki Sh
  unseal_body record' len =
      let body = slice header_len (header_len + len) record' in
      if leb fixed_len len && leb len body_max
      then unseal_coded body (decode (drop fixed_len body))
      else damaged

  unfoldable pub unseal : List ℕ → HeldShare Pu Ki Sh
  unseal record' =
      if not (from_le_bytes (take magic_len record') == magic)
      then (if all_equal 255 record' then vacant else damaged)
      else if not (
          bytes_eq (tag_of (take (record_len - check_len) record'))
            (drop (record_len - check_len) record'))
      then damaged
      else unseal_body record' (from_le_bytes (slice magic_len header_len record'))

  -- `unwrap_or_default`
  unfoldable pub text_or_default : Option Text → Text
  text_or_default none = []
  text_or_default (some text) = text

  unfoldable pub mutations : ShareBody Pu Ki Sh → List (Mutation Pu Ki Sh)
  mutations b =
      new_key b.key_id (text_or_default (from_utf8 (take b.name_len b.name))) b.purpose
      ∷ new_access_structure b.key_id b.access_structure_id b.threshold b.kind
      ∷ save_share b.key_id b.access_structure_id b.share
      ∷ []

  -- The A/B slot, over the flash.
  module _ {F : Type 0} (try_write : List ℕ → F → AbWriteOutcome × F)
      (read : F → Option (List ℕ)) where
    unfoldable pub write_sealed :
        Result (List ℕ) StoreFault
        → List (Mutation Pu Ki Sh) × F
        → Result (Unit {0}) StoreFault × (List (Mutation Pu Ki Sh) × F)
    write_sealed (err e) (staged, f) = (err e, (staged, f))
    write_sealed (ok record') (staged, f) =
        let (outcome, f') = try_write record' f in
        let (r, staged') = written_out outcome staged in (r, (staged', f'))

    unfoldable pub persist_kept :
        List (Mutation Pu Ki Sh) → F → Result (Unit {0}) StoreFault × (List (Mutation Pu Ki Sh) × F)
    persist_kept [] f = (ok tt, ([], f))
    persist_kept (m ∷ ms) f = write_sealed (do b ← body_from (m ∷ ms); seal b) (m ∷ ms, f)

    unfoldable pub persist_staged :
        List (Mutation Pu Ki Sh) × F → Result (Unit {0}) StoreFault × (List (Mutation Pu Ki Sh) × F)
    persist_staged (staged, f) = persist_kept (retain staged) f

    unfoldable pub load_from : Option (List ℕ) → HeldShare Pu Ki Sh
    load_from none = vacant
    load_from (some record') = unseal record'

    unfoldable pub load : F → HeldShare Pu Ki Sh
    load f = load_from (read f)
