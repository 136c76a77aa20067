-- ===== src/Callgate.antt =====
-- hal/src/callgate.rs: what is checked before a call of the bootloader's gate and after it. The call is
-- not modelled. A pointer is its address, of 32 bits on the device.
pub mod Checks
use cold_snap.Prelude.{
  ℕ, ◌+◌, Bool, true, false, not, ◌&&◌, ◌||◌, List, [], ◌∷◌, Option, none, some, Result, ok, err,
  ◌==◌, ltb, leb, if◌then◌else◌, length, get_range, checked_add32,
}
use cold_snap.Memmap.{sram_base, bl_sram_base}
use cold_snap.Rng.{all_equal}

abbrev max_gate_len : ℕ
max_gate_len = 1024

abbrev rng_buf_len : ℕ
rng_buf_len = 33

pub data BufFault : Type 0 where
  not_in_sram bad_length too_short_for_selector : BufFault

-- The end of the buffer, or none where the sum does not fit a word.
unfoldable pub in_sram : ℕ → Option ℕ → Result (Unit {0}) BufFault
in_sram start none = err not_in_sram
in_sram start (some end) =
    if leb sram_base start && leb end bl_sram_base then ok tt else err not_in_sram

unfoldable pub validate_buf : ℕ → ℕ → ℕ → Result (Unit {0}) BufFault
validate_buf ptr len min_len =
    if len == 0 || ltb max_gate_len len
    then err bad_length
    else if ltb len min_len
    then err too_short_for_selector
    else in_sram ptr (checked_add32 ptr len)

pub data RngSource : Type 0 where
  se1 se2 : RngSource

unfoldable pub byte_count : RngSource → ℕ
byte_count se1 = 32
byte_count se2 = 8

-- A number that is not 0: the gate's own, or one of the refusals below.
pub data Errno : Type 0 where
  errno : ℕ → Errno

abbrev pub short_read : Errno
short_read = errno 0xC500_0003

abbrev forbidden_subcall : Errno
forbidden_subcall = errno 0xC500_0004

unfoldable pub not_degenerate : Option (List ℕ) → Result (List ℕ) Errno
not_degenerate none = err short_read
not_degenerate (some payload) =
    if all_equal 0 payload || all_equal 255 payload then err short_read else ok payload

-- What follows the tests of the lengths.
unfoldable pub counted_payload : ℕ → List ℕ → Result (List ℕ) Errno
counted_payload want [] = err short_read
counted_payload want (count ∷ data') =
    if not (count == want)
    then err short_read
    else not_degenerate (get_range 1 (1 + want) (count ∷ data'))

-- The answer holds the bytes that are copied to `out`, of which the length is given.
unfoldable pub parse_rng_response : RngSource → List ℕ → ℕ → Result (List ℕ) Errno
parse_rng_response source buf out_len =
    if ltb (length buf) rng_buf_len || not (out_len == byte_count source)
    then err short_read
    else counted_payload (byte_count source) buf

pub data SubCallCost : Type 0 where
  free counted destructive absent : SubCallCost

unfoldable pub pin_subcall_cost : ℕ → SubCallCost
pin_subcall_cost arg2 =
    if arg2 == 0
    then free
    else if arg2 == 1
    then free
    else if arg2 == 2
    then counted
    else if arg2 == 3
    then destructive
    else if arg2 == 4
    then counted
    else if leb 5 arg2 && leb arg2 8
    then destructive
    else absent

unfoldable pub if_free : SubCallCost → Result (Unit {0}) Errno
if_free free = ok tt
if_free counted = err forbidden_subcall
if_free destructive = err forbidden_subcall
if_free absent = err forbidden_subcall

unfoldable pub check_pin_subcall : ℕ → Result (Unit {0}) Errno
check_pin_subcall arg2 = if_free (pin_subcall_cost arg2)

abbrev attempts_left_floor : ℕ
attempts_left_floor = 2

unfoldable login_attempt_permitted : ℕ → Bool
login_attempt_permitted attempts_left = ltb attempts_left_floor attempts_left
