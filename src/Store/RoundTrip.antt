-- ===== src/Store/RoundTrip.antt =====
-- firmware/src/store.rs: what `seal` writes, `unseal` reads.
use cold_snap.Prelude.{
  ℕ, ◌+◌, ◌≤◌, ◌<◌, ◌≡◌, refl, sym, ap, ap₂, ◌∙◌, subst, true, List, [], ◌∷◌, ◌++◌, Option, none,
  some, ok, err, ◌==◌, lt→ltb, le→ltb, le→leb, length, take, drop, slice, copy_into, replicate,
  arith, length-take, length-drop, length-copy_into, length-replicate, drop-append, Option-cases,
  inl, inr,
}
use cold_snap.Prelude.Bytes.{
  bytes_eq, bytes_eq_self, from_le_bytes, to_le_bytes, length-to_le_bytes,
}
use cold_snap.Store.{
  Text, ShareBody, Coded, held, too_big, coded_of, magic, domain, tag_of, seal_with, seal_coded,
  seal, body_of, named, unseal_coded, unseal_body, unseal,
}
use cold_snap.Store.Fields.{
  HasSizes, fields, length-fields, fixed_fields_lem, key_at, structure_at, threshold_at,
  name_len_at, name_at, text_at,
}
use cold_snap.Store.Layout.{magic_at, len_at, tag_at, before_tag, body_at}

-- What a codec is used for: it stays in the room that it is given, and reads back what it wrote.
pub record CodecLaws {Pu Ki Sh : Type 0} (encode : ℕ → Coded Pu Ki Sh → Option (List ℕ))
    (decode : List ℕ → Option (Coded Pu Ki Sh)) : Type 0 where
  pub fits :
      (room : ℕ) (c : Coded Pu Ki Sh) (bytes : List ℕ)
      → encode room c ≡ some bytes
      → length bytes ≤ room
  pub reads :
      (room : ℕ) (c : Coded Pu Ki Sh) (bytes : List ℕ)
      → encode room c ≡ some bytes
      → decode bytes ≡ some c

two_bytes : (n : ℕ) → n < 65536 → from_le_bytes (to_le_bytes 2 n) ≡ n
unfolding from_le_bytes to_le_bytes
two_bytes n h = omega arith

one_byte : (n : ℕ) → from_le_bytes (n ∷ []) ≡ n
unfolding from_le_bytes
one_byte n = omega arith

magic_read : (from_le_bytes (to_le_bytes 8 magic) == magic) ≡ true
unfolding from_le_bytes to_le_bytes
magic_read = refl

length-out : (r : List ℕ) → length r ≡ 512 → length (slice 10 137 r) ≡ 127
unfolding slice
length-out r h = omega (arith, length-take 127 (drop 10 r), length-drop 10 r, h)

length-first : length (copy_into (replicate 512 0) 0 (to_le_bytes 8 magic)) ≡ 512
length-first =
    let zeros : length (replicate {A = ℕ} 512 0) ≡ 512 = length-replicate {A = ℕ} 512 0 in
    length-copy_into (replicate 512 0) 0 (to_le_bytes 8 magic)
      (omega (arith, zeros, length-to_le_bytes 8 magic))
    ∙ zeros

module _ {Pu Ki Sh : Type 0} (sha256 : List ℕ → List ℕ)
    (encode : ℕ → Coded Pu Ki Sh → Option (List ℕ)) (decode : List ℕ → Option (Coded Pu Ki Sh))
    (from_utf8 : List ℕ → Option Text) (long : (m : List ℕ) → 8 ≤ length (sha256 m)) where
  abbrev sealed4 : ShareBody Pu Ki Sh → List ℕ → List ℕ
  sealed4 b bytes =
      copy_into
        (copy_into (copy_into (copy_into (replicate 512 0) 0 (to_le_bytes 8 magic)) 10 (fields b))
          137 bytes)
        8 (to_le_bytes 2 (127 + length bytes))

  abbrev tag4 : ShareBody Pu Ki Sh → List ℕ → List ℕ
  tag4 b bytes = tag_of sha256 encode decode from_utf8 (take 504 (sealed4 b bytes))

  length-tag_of : (m : List ℕ) → length (tag_of sha256 encode decode from_utf8 m) ≡ 8
  unfolding tag_of
  length-tag_of m = omega (arith, length-take 8 (sha256 (domain ++ m)), long (domain ++ m))

  pub seal-none :
      (b : ShareBody Pu Ki Sh)
      → encode 367 (coded_of b) ≡ none
      → seal sha256 encode decode from_utf8 b ≡ err too_big
  unfolding seal seal_coded
  seal-none b e = rw (e, seal_coded) refl

  seal-record5 :
      (b : ShareBody Pu Ki Sh) (bytes : List ℕ)
      → HasSizes b
      → encode 367 (coded_of b) ≡ some bytes
      → length bytes ≤ 367
      → seal sha256 encode decode from_utf8 b ≡ ok (copy_into (sealed4 b bytes) 504 (tag4 b bytes))
  unfolding seal seal_coded seal_with
  seal-record5 b bytes h e fits =
      let r1 = copy_into (replicate 512 0) 0 (to_le_bytes 8 magic) in
      rw
        (
          fixed_fields_lem b (slice 10 137 r1) h (length-out r1 length-first),
          e,
          lt→ltb (127 + length bytes) 65536 (omega (arith, fits)),
        )
        refl

  pub seal-some :
      (b : ShareBody Pu Ki Sh) (bytes : List ℕ)
      → HasSizes b
      → encode 367 (coded_of b) ≡ some bytes
      → length bytes ≤ 367
      → (record' : List ℕ) × (seal sha256 encode decode from_utf8 b ≡ ok record')
  seal-some b bytes h e fits =
      (copy_into (sealed4 b bytes) 504 (tag4 b bytes), seal-record5 b bytes h e fits)

  -- What a checked record's body is read as.
  body_of_lem :
      (b : ShareBody Pu Ki Sh) (bytes : List ℕ)
      → HasSizes b
      → b.threshold < 65536
      → body_of sha256 encode decode from_utf8 (fields b ++ bytes) (coded_of b) ≡ b
  unfolding body_of coded_of
  body_of_lem b bytes h small = λ i. record {
    key_id = key_at b bytes h i;
    access_structure_id = structure_at b bytes h i;
    threshold = (ap from_le_bytes (threshold_at b bytes h) ∙ two_bytes b.threshold small) i;
    name_len = (ap from_le_bytes (name_len_at b bytes h) ∙ one_byte b.name_len) i;
    name = name_at b bytes h i;
    purpose = b.purpose;
    kind = b.kind;
    share = b.share;
  }

  unseal_coded_lem :
      (b : ShareBody Pu Ki Sh) (bytes : List ℕ) (text : Text)
      → HasSizes b
      → b.threshold < 65536
      → b.name_len ≤ 60
      → from_utf8 (take b.name_len b.name) ≡ some text
      → unseal_coded sha256 encode decode from_utf8 (fields b ++ bytes) (some (coded_of b)) ≡ held b
  unfolding unseal_coded named
  unseal_coded_lem b bytes text h small short named_so =
      rw
        (
          body_of_lem b bytes h small,
          le→ltb 60 b.name_len short,
          text_at b b.name_len bytes h short,
          named_so,
        )
        refl

  unseal_body_lem :
      (b : ShareBody Pu Ki Sh) (bytes record' : List ℕ) (text : Text)
      → HasSizes b
      → b.threshold < 65536
      → b.name_len ≤ 60
      → from_utf8 (take b.name_len b.name) ≡ some text
      → length bytes ≤ 367
      → decode bytes ≡ some (coded_of b)
      → slice 10 (10 + (127 + length bytes)) record' ≡ fields b ++ bytes
      → unseal_body sha256 encode decode from_utf8 record' (127 + length bytes) ≡ held b
  unfolding unseal_body
  unseal_body_lem b bytes record' text h small short named_so fits d e =
      let behind : drop 127 (fields b ++ bytes) ≡ bytes =
        drop-append 127 (fields b) bytes (sym (length-fields b h)) in
      rw
        (
          le→leb 127 (127 + length bytes) (omega arith),
          le→leb (127 + length bytes) 494 (omega (arith, fits)),
          e,
          behind,
          d,
        )
        (unseal_coded_lem b bytes text h small short named_so)

  unseal-record5 :
      (b : ShareBody Pu Ki Sh) (bytes : List ℕ) (text : Text)
      → HasSizes b
      → b.threshold < 65536
      → b.name_len ≤ 60
      → from_utf8 (take b.name_len b.name) ≡ some text
      → length bytes ≤ 367
      → decode bytes ≡ some (coded_of b)
      → unseal sha256 encode decode from_utf8 (copy_into (sealed4 b bytes) 504 (tag4 b bytes))
        ≡ held b
  unfolding unseal slice
  unseal-record5 b bytes text h small short named_so fits d =
      let whole : 127 + length bytes < 65536 = omega (arith, fits) in
      let zeros : length (replicate {A = ℕ} 512 0) ≡ 512 = length-replicate {A = ℕ} 512 0 in
      let m = to_le_bytes 8 magic in
      let lb = to_le_bytes 2 (127 + length bytes) in
      let tag = tag4 b bytes in
      let lm : length m ≡ 8 = length-to_le_bytes 8 magic in
      let lf = length-fields b h in
      let two : length lb ≡ 2 = length-to_le_bytes 2 (127 + length bytes) in
      let lt = length-tag_of (take 504 (sealed4 b bytes)) in
      let r5 = copy_into (sealed4 b bytes) 504 tag in
      let z = replicate 512 0 in
      let read_magic : (from_le_bytes (take 8 r5) == magic) ≡ true =
        ap (λ xs. from_le_bytes xs == magic)
          (magic_at z m (fields b) bytes lb tag zeros lm lf fits two lt)
        ∙ magic_read in
      let checked : bytes_eq (tag_of sha256 encode decode from_utf8 (take 504 r5)) (drop 504 r5)
          ≡ true =
        ap₂ bytes_eq
          (ap (tag_of sha256 encode decode from_utf8)
            (before_tag z m (fields b) bytes lb tag zeros lm lf fits two lt))
          (tag_at z m (fields b) bytes lb tag zeros lm lf fits two lt)
        ∙ bytes_eq_self tag in
      let len_read : from_le_bytes (slice 8 10 r5) ≡ 127 + length bytes =
        ap from_le_bytes (len_at z m (fields b) bytes lb tag zeros lm lf fits two lt)
        ∙ two_bytes (127 + length bytes) whole in
      rw (read_magic, checked, len_read)
        (unseal_body_lem b bytes r5 text h small short named_so fits d
          (body_at z m (fields b) bytes lb tag zeros lm lf fits two lt))

  -- For a hash of at least eight bytes and a codec that keeps its laws: a body with the sizes of its arrays,
  -- a threshold of 16 bits and a name that is a text is read back from the record that it is sealed in.
  pub unseal-seal :
      (b : ShareBody Pu Ki Sh) (text : Text) (record' : List ℕ)
      → CodecLaws encode decode
      → HasSizes b
      → b.threshold < 65536
      → b.name_len ≤ 60
      → from_utf8 (take b.name_len b.name) ≡ some text
      → seal sha256 encode decode from_utf8 b ≡ ok record'
      → unseal sha256 encode decode from_utf8 record' ≡ held b
  unseal-seal b text record' laws h small short named_so sealed =
      elim (Option-cases (encode 367 (coded_of b))) [
        | inl none_fits ↦ absurd (cc (seal-none b none_fits, sealed))
        | inr (bytes, e) ↦
            let fits = laws.fits 367 (coded_of b) bytes e in
            let same : copy_into (sealed4 b bytes) 504 (tag4 b bytes) ≡ record' =
              cc (seal-record5 b bytes h e fits, sealed) in
            subst (λ r. unseal sha256 encode decode from_utf8 r ≡ held b) same
              (unseal-record5 b bytes text h small short named_so fits
                (laws.reads 367 (coded_of b) bytes e))
      ]
