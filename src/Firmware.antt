-- ===== src/Firmware.antt =====
-- firmware/src/lib.rs, `firmware_digest`: the digest of the range that the bootloader's signature
-- covers. SHA-256 is a crate outside this repository, so it is an argument.
use cold_snap.Prelude.{
  ℕ, ◌+◌, ◌-◌, ◌%◌, Option, none, some, List, ◌++◌, not, ◌||◌, ◌==◌, ltb, if◌then◌else◌, length,
  slice, get_range,
}
use cold_snap.Prelude.Bytes.{from_le_bytes}
use cold_snap.Memmap.{fw_header_offset, fw_header_size, fw_min_body_len, fw_body_align}

-- The header's length field, if it may be used as a length of this image.
unfoldable pub digest_length : List ℕ → Option ℕ
digest_length image =
    let header_end = fw_header_offset + fw_header_size in
    elim (get_range fw_header_offset header_end image) [
      | none ↦ none
      | some header ↦
          let len = from_le_bytes (slice 24 28 header) in
          if ltb len fw_min_body_len || (not (len % fw_body_align == 0) || ltb (length image) len)
          then none
          else some len
    ]

-- The image with the 64 bytes of the signature, which end the header, left out.
unfoldable pub signed_range : List ℕ → ℕ → List ℕ
signed_range image len =
    let header_end = fw_header_offset + fw_header_size in
    slice 0 (header_end - 64) image ++ slice header_end len image

unfoldable pub firmware_digest : (List ℕ → List ℕ) → List ℕ → Option (List ℕ)
firmware_digest sha256 image = elim (digest_length image) [
  | none ↦ none
  | some len ↦ some (sha256 (signed_range image len))
]
