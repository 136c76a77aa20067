-- ===== src/Psram.antt =====
-- hal/src/psram.rs: the staging window in external RAM, its bounds, the length that a staged image
-- declares, and the readback self-test. A target's memory is an instance of `PsramOps`.
pub mod Laws
pub mod Fake
pub mod Burn
pub mod Selftest
use cold_snap.Prelude.{
  ℕ, zero, suc, ◌+◌, ◌-◌, ◌*◌, ◌/◌, ◌%◌, ◌^◌, ◌≤◌, ◌≡◌, Bool, not, ◌&&◌, ◌||◌, Option, none, some,
  List, [], ◌∷◌, Result, ok, err, bit_xor, min, ltb, leb, ◌==◌, if◌then◌else◌, length, take, drop,
  map, get_range, copy_into, u32_mod, sat_add32, checked_add32,
}
use cold_snap.Prelude.Bytes.{from_le_bytes}
use cold_snap.Prelude.Exec.{Exec, pure, raise, ◌>>=◌, ◌>>◌}
use cold_snap.Memmap.{
  flash_isr_base, flash_fs_base, fw_min_body_len, fw_header_offset, fw_header_size, psram_len,
}

abbrev pub burn_base : ℕ
burn_base = flash_isr_base

abbrev pub burn_len_max : ℕ
burn_len_max = flash_fs_base - flash_isr_base

abbrev burn_len_min : ℕ
burn_len_min = fw_min_body_len

abbrev fw_length_field_offset : ℕ
fw_length_field_offset = 24

abbrev pub psram_stage_offset : ℕ
psram_stage_offset = 0

abbrev psram_stage_len : ℕ
psram_stage_len = psram_len / 2

abbrev pub write_align : ℕ
write_align = 4

abbrev selftest_chunk : ℕ
selftest_chunk = 64

pub data StageError : Type 0 where
  header_unreadable not_in_staging_window too_small too_large truncated length_mismatch : StageError

pub data PsramError : Type 0 where
  not_aligned out_of_bounds not_on_this_target : PsramError
  mismatch : ℕ → PsramError

-- The length field is read only when the whole header is there.
unfoldable pub header_field : List ℕ → Option (List ℕ)
unfolding get_range
header_field staged =
    let field = fw_header_offset + fw_length_field_offset in
    let header_end = fw_header_offset + fw_header_size in
    if leb header_end (length staged) then get_range field (field + 4) staged else none

-- The bounds on a declared length, first failure first.
unfoldable pub bound_length : ℕ → ℕ → Result ℕ StageError
bound_length staged_len declared =
    if ltb declared burn_len_min then err too_small else elim (checked_add32 burn_base declared) [
      | none ↦ err too_large
      | some burn_end ↦
          if ltb flash_fs_base burn_end
          then err too_large
          else if ltb staged_len declared
          then err truncated
          else ok declared
    ]

unfoldable pub staged_burn_len : List ℕ → Result ℕ StageError
staged_burn_len staged =
    if ltb psram_stage_len (length staged)
    then err not_in_staging_window
    else elim (header_field staged) [
      | none ↦ err header_unreadable
      | some bytes ↦ bound_length (length staged) (from_le_bytes bytes)
    ]

unfoldable pub check_burn_len : List ℕ → ℕ → Result ℕ StageError
check_burn_len staged callgate_len = elim (staged_burn_len staged) [
  | err e ↦ err e
  | ok declared ↦ if callgate_len == declared then ok declared else err length_mismatch
]

unfoldable pub check_read : ℕ → ℕ → Result (Unit {0}) PsramError
check_read offset len = elim (checked_add32 offset len) [
  | none ↦ err out_of_bounds
  | some end_ ↦ if ltb psram_stage_len end_ then err out_of_bounds else ok tt
]

unfoldable pub check_write : ℕ → ℕ → Result (Unit {0}) PsramError
unfolding check_read
check_write offset len =
    if not (offset % write_align == 0) || not (len % write_align == 0)
    then err not_aligned
    else check_read offset len

-- The trait `Psram` over a target's state `P`. `read` is given the caller's buffer and returns it
-- filled; `view` takes `&self`, so it returns no state.
pub record PsramOps (P : Type 0) : Type 0 where
  pub write : ℕ → List ℕ → Exec P (Unit {0}) PsramError
  pub read : ℕ → List ℕ → Exec P (List ℕ) PsramError
  pub view : P → ℕ → Result (List ℕ) PsramError

unfoldable pub pattern_byte : ℕ → ℕ
pattern_byte offset = bit_xor (bit_xor offset (offset / 2 ^ 8)) (offset / 2 ^ 16) % 256

-- `for (i, byte) in buf[..n].iter_mut().enumerate()`, from index `i` on
unfoldable pub pattern_span : ℕ → ℕ → ℕ → List ℕ
pattern_span at i zero = []
pattern_span at i (suc n) = pattern_byte (sat_add32 at i) ∷ pattern_span at (i + 1) n

-- The address of the first byte that is not the pattern's.
unfoldable pub first_mismatch : ℕ → ℕ → List ℕ → Option ℕ
first_mismatch at i [] = none
first_mismatch at i (got ∷ rest) =
    let abs = sat_add32 at i in
    if got == pattern_byte abs then first_mismatch at (i + 1) rest else some abs

abbrev pub complement : List ℕ → List ℕ
complement = map (λ byte. 255 - byte)

unfoldable pub verdict : {P : Type 0} → Option ℕ → Exec P (Unit {0}) PsramError
verdict none = pure tt
verdict (some abs) = raise (mismatch abs)

-- A pass takes `selftest_chunk` bytes, or all that are left.
abbrev pub selftest_passes : ℕ → ℕ
selftest_passes len = (len + 63) / selftest_chunk

module _ {P : Type 0} (ps : PsramOps P) where
  -- One pass of the loop: write the pattern, complement the buffer, read it back, compare.
  unfoldable pub selftest_pass : ℕ → ℕ → Exec P (Unit {0}) PsramError
  selftest_pass at n = do
    ps.write at (pattern_span at 0 n)
    back ← ps.read at (complement (pattern_span at 0 n))
    verdict (first_mismatch at 0 back)

  -- `while pos < len`, on fuel: the passes that are left.
  unfoldable pub selftest_loop : ℕ → ℕ → ℕ → ℕ → Exec P (Unit {0}) PsramError
  selftest_loop zero offset len pos = pure tt
  selftest_loop (suc passes) offset len pos =
      let n = min selftest_chunk (len - pos) in
      let rest = selftest_loop passes offset len (pos + n) in
      if ltb pos len then (do selftest_pass ((offset + pos) % u32_mod) n; rest) else pure tt

  unfoldable pub readback_selftest : ℕ → ℕ → Exec P (Unit {0}) PsramError
  readback_selftest offset len =
      if len == 0 then raise out_of_bounds else elim (check_write offset len) [
        | err e ↦ raise e
        | ok _ ↦ selftest_loop (selftest_passes len) offset len 0
      ]
