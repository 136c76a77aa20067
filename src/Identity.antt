-- ===== src/Identity.antt =====
-- hal/src/identity.rs: the record of the device's identity at the start of the file system, over any
-- flash with the interface `NorFlash` of `embedded-storage` and any source of random bytes.
pub mod Classify
pub mod Keeping
pub mod Slices
pub mod Creation
use cold_snap.Prelude.{
  ℕ, zero, suc, ◌+◌, ◌*◌, ◌/◌, ◌^◌, Bool, true, false, not, ◌&&◌, List, [], ◌∷◌, ◌++◌, Result, ok,
  err, ◌==◌, ltb, if◌then◌else◌, take, drop, slice, replicate,
}
use cold_snap.Prelude.Bytes.{bytes_eq, from_le_bytes, to_le_bytes}
use cold_snap.Prelude.Exec.{Exec, pure, raise, map_err, ◌>>=◌, ◌>>◌}
use cold_snap.Memmap.{fs_identity_offset, fs_identity_len}

abbrev pub record_len : ℕ
record_len = 48

abbrev secret_len : ℕ
secret_len = 32

abbrev tag_len : ℕ
tag_len = 8

abbrev body_len : ℕ
body_len = secret_len + tag_len

abbrev pub magic : ℕ
magic = 0xC01D5EED1D000001

abbrev magic_domain : ℕ
magic_domain = magic / 2 ^ 32

-- `b"coldsnap-identity-v1"`
abbrev pub domain : List ℕ
domain =
    99 ∷ 111 ∷ 108 ∷ 100 ∷ 115 ∷ 110 ∷ 97 ∷ 112 ∷ 45 ∷ 105 ∷ 100 ∷ 101 ∷ 110 ∷ 116 ∷ 105 ∷ 116 ∷ 121
    ∷ 45 ∷ 118 ∷ 49 ∷ []

abbrev secp256k1_order : List ℕ
secp256k1_order =
    0xff ∷ 0xff ∷ 0xff ∷ 0xff ∷ 0xff ∷ 0xff ∷ 0xff ∷ 0xff ∷ 0xff ∷ 0xff ∷ 0xff ∷ 0xff ∷ 0xff ∷ 0xff
    ∷ 0xff ∷ 0xfe ∷ 0xba ∷ 0xae ∷ 0xdc ∷ 0xe6 ∷ 0xaf ∷ 0x48 ∷ 0xa0 ∷ 0x3b ∷ 0xbf ∷ 0xd2 ∷ 0x5e
    ∷ 0x8c ∷ 0xd0 ∷ 0x36 ∷ 0x41 ∷ 0x41 ∷ []

-- The kind of a flash's error is a number.
pub data IdentityFault : Type 0 where
  damaged_record : IdentityFault
  flash : ℕ → IdentityFault
  verify_failed no_scalar : IdentityFault

abbrev generate_attempts : ℕ
generate_attempts = 8

pub data Record : Type 0 where
  vacant : Record
  valid : List ℕ → Record
  damaged : Record

-- The order of byte arrays of one length.
unfoldable pub lex_lt : List ℕ → List ℕ → Bool
lex_lt (a ∷ as') (b ∷ bs) = let rest = lex_lt as' bs in if a == b then rest else ltb a b
lex_lt _ _ = false

unfoldable pub scalar_is_in_range : List ℕ → Bool
scalar_is_in_range secret =
    not (bytes_eq secret (replicate secret_len 0)) && lex_lt secret secp256k1_order

-- The match of `classify` on whether the record is committed, its body intact, the scalar in range and
-- the commit word of this family.
unfoldable pub verdict : Bool → Bool → Bool → Bool → List ℕ → Record
verdict true true true ours secret = valid secret
verdict true true false ours secret = damaged
verdict true false in_range ours secret = damaged
verdict false true in_range ours secret = damaged
verdict false false in_range true secret = damaged
verdict false false in_range false secret = vacant

-- The interface of a flash that the code calls, with the flash as state.
pub record NorFlash (F : Type 0) : Type 0 where
  pub read : ℕ → ℕ → Exec F (List ℕ) ℕ
  pub erase : ℕ → ℕ → Exec F (Unit {0}) ℕ
  pub write : ℕ → List ℕ → Exec F (Unit {0}) ℕ

module _ (sha256 : List ℕ → List ℕ) where
  unfoldable pub tag_of : List ℕ → List ℕ
  tag_of secret = take tag_len (sha256 (domain ++ secret))

  unfoldable pub classify : List ℕ → Record
  classify record' =
      let secret = take secret_len record' in
      let tag = slice secret_len body_len record' in
      let commit_word = from_le_bytes (slice body_len record_len record') in
      verdict (commit_word == magic) (bytes_eq (tag_of secret) tag) (scalar_is_in_range secret)
        (commit_word / 2 ^ 32 == magic_domain) secret

  unfoldable pub encode : List ℕ → List ℕ
  encode secret = secret ++ (tag_of secret ++ to_le_bytes 8 magic)

  -- `fill_bytes` gives the bytes of a new secret.
  module _ {F G : Type 0} (nor : NorFlash F) (fill_bytes : ℕ → G → List ℕ × G) where
    -- A call of the flash, with its error's kind.
    abbrev pub on_flash : {A : Type 0} → Exec F A ℕ → Exec (F × G) A IdentityFault
    on_flash call (f, g) = let (r, f') = call f in (map_err flash r, (f', g))

    -- The loop that draws a secret, for the attempts that are left.
    unfoldable pub generate : ℕ → Exec (F × G) (List ℕ) IdentityFault
    generate zero s = (err no_scalar, s)
    generate (suc left) (f, g) =
        let (secret, g') = fill_bytes secret_len g in
        let again = generate left (f, g') in
        if scalar_is_in_range secret then (ok secret, (f, g')) else again

    unfoldable pub confirm : List ℕ → Record → Exec (F × G) (List ℕ) IdentityFault
    confirm secret (valid persisted) =
        if bytes_eq persisted secret then pure persisted else raise verify_failed
    confirm secret vacant = raise verify_failed
    confirm secret damaged = raise verify_failed

    -- The program of a new record, from its end to its beginning.
    unfoldable pub check_back : List ℕ → Exec (F × G) (List ℕ) IdentityFault
    check_back secret = do
      back ← on_flash (nor.read fs_identity_offset record_len)
      confirm secret (classify back)

    unfoldable pub write_commit : List ℕ → Exec (F × G) (List ℕ) IdentityFault
    write_commit secret = do
      on_flash (nor.write (fs_identity_offset + body_len) (drop body_len (encode secret)))
      check_back secret

    unfoldable pub write_body : List ℕ → Exec (F × G) (List ℕ) IdentityFault
    write_body secret = do
      on_flash (nor.write fs_identity_offset (take body_len (encode secret)))
      write_commit secret

    unfoldable pub program : List ℕ → Exec (F × G) (List ℕ) IdentityFault
    program secret = do
      on_flash (nor.erase fs_identity_offset (fs_identity_offset + fs_identity_len))
      write_body secret

    unfoldable pub settle : Record → Exec (F × G) (List ℕ) IdentityFault
    settle (valid secret) = pure secret
    settle damaged = raise damaged_record
    settle vacant = do secret ← generate generate_attempts; program secret

    unfoldable pub load_or_create : Exec (F × G) (List ℕ) IdentityFault
    load_or_create = do
      buf ← on_flash (nor.read fs_identity_offset record_len)
      settle (classify buf)
