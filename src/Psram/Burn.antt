-- ===== src/Psram/Burn.antt =====
-- hal/src/psram.rs: what an accepted burn length says of the staged bytes.
use cold_snap.Prelude.{ℕ, ◌+◌, ◌≤◌, ◌<◌, ◌≡◌, List, some, ok, arith, length, slice, ◌↔◌, ◌⊎◌, none}
use cold_snap.Prelude.Bytes.{from_le_bytes}
use cold_snap.Memmap.{flash_fs_base}
use cold_snap.Psram.{header_field, bound_length, staged_burn_len, check_burn_len, burn_base}

-- The four bytes at image offset 16,280, little-endian.
abbrev declared_length : List ℕ → ℕ
declared_length staged = from_le_bytes (slice 16280 16284 staged)

-- The bounds that an accepted image meets.
pub record IsBurnable (staged : List ℕ) (n : ℕ) : Type 0 where
  pub declared : n ≡ declared_length staged
  pub in_window : length staged ≤ 4194304
  pub has_header : 16384 ≤ length staged
  pub floor : 262144 ≤ n
  pub ceiling : n ≤ 1441792
  pub complete : n ≤ length staged

bound_length_iff :
    (l d n : ℕ) → (bound_length l d ≡ ok n) ↔ ((n ≡ d) × (262144 ≤ n) × (n ≤ 1441792) × (n ≤ l))
unfolding bound_length
bound_length_iff l d n = (λ h. ground arith, λ h. ground arith)

header_field-cases :
    (staged : List ℕ)
    → ((length staged < 16384) × (header_field staged ≡ none))
      ⊎ ((16384 ≤ length staged) × (header_field staged ≡ some (slice 16280 16284 staged)))
unfolding header_field
header_field-cases staged = ground arith

-- A length is returned exactly when the window holds a whole header whose field is that length,
-- the length is within the floor and the ceiling, and that many bytes are staged.
pub staged_burn_len-IsBurnable :
    (staged : List ℕ) (n : ℕ) → (staged_burn_len staged ≡ ok n) ↔ IsBurnable staged n
unfolding staged_burn_len
staged_burn_len-IsBurnable staged n = (
  λ h. ground (
    arith,
    header_field-cases staged,
    bound_length_iff (length staged) (declared_length staged) n,
  ),
  λ h. ground (
    arith,
    header_field-cases staged,
    bound_length_iff (length staged) (declared_length staged) n,
  ),
)

-- What passes the gate before a burn: the callgate's length is the header's, the image is
-- burnable at it, and the burn ends at or below the file system's base.
pub check_burn_len_lem :
    (staged : List ℕ) (callgate_len n : ℕ)
    → check_burn_len staged callgate_len ≡ ok n
    → (callgate_len ≡ n) × IsBurnable staged n × (burn_base + n ≤ flash_fs_base)
unfolding check_burn_len
check_burn_len_lem staged callgate_len n h = ground (arith, (staged_burn_len-IsBurnable staged n).0)
