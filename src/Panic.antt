-- ===== src/Panic.antt =====
-- hal/src/panic.rs: the counters that survive a reset, and what the panic handler decides with them.
-- The peripherals are a bus that is read and written; the barriers order nothing here.
pub mod Words
pub mod ResetLoop
use cold_snap.Prelude.{
  ℕ, ◌+◌, ◌-◌, ◌*◌, ◌≤◌, Bool, true, false, not, ◌&&◌, ◌||◌, Option, none, some, Result, ok, err,
  ◌==◌, ltb, leb, if◌then◌else◌, bit_and, bit_or, min, sat_add32,
}
use cold_snap.Mmio.{Bus, load, store}
use cold_snap.Prelude.Exec.{Exec, pure, raise, ◌>>=◌, ◌>>◌}

abbrev pub rtc_base : ℕ
rtc_base = 0x40002800

abbrev pub rtc_wpr : ℕ
rtc_wpr = rtc_base + 0x24

abbrev bkp_count : ℕ
bkp_count = 32

abbrev rtc_wpr_key1 : ℕ
rtc_wpr_key1 = 0xCA

abbrev rtc_wpr_key2 : ℕ
rtc_wpr_key2 = 0x53

abbrev pub pwr_cr1 : ℕ
pwr_cr1 = 0x40007000

-- `1 << 8`
abbrev pwr_cr1_dbp : ℕ
pwr_cr1_dbp = 256

abbrev pub rcc_apb1enr1 : ℕ
rcc_apb1enr1 = 0x40021058

-- `1 << 10`
abbrev rcc_apb1enr1_rtcapben : ℕ
rcc_apb1enr1_rtcapben = 1024

-- `1 << 28`
abbrev pub rcc_apb1enr1_pwren : ℕ
rcc_apb1enr1_pwren = 268435456

abbrev counter_magic : ℕ
counter_magic = 0xC5A10000

abbrev counter_value_mask : ℕ
counter_value_mask = 65535

-- `!COUNTER_VALUE_MASK`
abbrev counter_tag_mask : ℕ
counter_tag_mask = 4294901760

abbrev panic_reset_threshold : ℕ
panic_reset_threshold = 3

abbrev counter_max : ℕ
counter_max = counter_value_mask

abbrev depth_magic : ℕ
depth_magic = 0xD3E10000

pub data Counter : Type 0 where
  panic rng_fault : Counter

pub data CounterError : Type 0 where
  apb_clock_off backup_write_protected verify_failed bad_index : CounterError

unfoldable pub index : Counter → ℕ
index panic = 0
index rng_fault = 1

unfoldable pub bkp_offset : ℕ → Option ℕ
bkp_offset idx = if leb bkp_count idx then none else some (idx * 4 + 0x50)

unfoldable pub encode_counter : ℕ → ℕ
encode_counter count = bit_or counter_magic (bit_and (min count counter_max) counter_value_mask)

unfoldable pub decode_counter : ℕ → Option ℕ
decode_counter raw =
    if bit_and raw counter_tag_mask == counter_magic
    then some (bit_and raw counter_value_mask)
    else none

unfoldable pub next_count : ℕ → ℕ
next_count current = min (sat_add32 current 1) counter_max

unfoldable pub decode_depth : ℕ → ℕ
decode_depth raw =
    if bit_and raw counter_tag_mask == depth_magic then bit_and raw counter_value_mask else 0

unfoldable pub encode_depth : ℕ → ℕ
encode_depth depth = bit_or depth_magic (bit_and (min depth counter_max) counter_value_mask)

unfoldable pub past_threshold : ℕ → Bool
past_threshold count = leb panic_reset_threshold count

pub data PanicAction : Type 0 where
  reset try_dfu_then_reset : PanicAction

-- `bumped.unwrap_or(u32::MAX)`
abbrev unwrap_or : ℕ → Result ℕ CounterError → ℕ
unwrap_or d (ok count) = count
unwrap_or d (err e) = d

unfoldable pub panic_action : ℕ → Result ℕ CounterError → PanicAction
panic_action depth bumped =
    if ltb 0 depth
    then reset
    else if past_threshold (unwrap_or 4294967295 bumped)
    then try_dfu_then_reset
    else reset

pub record BootHealth : Type 0 where
  pub panics : ℕ
  pub rng_faults : ℕ
  pub counters_unavailable : Bool

unfoldable in_reset_loop : BootHealth → Bool
in_reset_loop h = not h.counters_unavailable && past_threshold h.panics

unfoldable pub bkp_ptr : Counter → Option ℕ
bkp_ptr which = elim (bkp_offset (index which)) [ none ↦ none | some off ↦ some (rtc_base + off) ]

-- `decode_counter(raw).unwrap_or(0)`
unfoldable pub counted : ℕ → ℕ
counted raw = elim (decode_counter raw) [ none ↦ 0 | some count ↦ count ]

abbrev pub or_zero : Result ℕ CounterError → ℕ
or_zero (ok count) = count
or_zero (err e) = 0

abbrev is_err : Result ℕ CounterError → Bool
is_err (ok count) = false
is_err (err e) = true

module _ {S : Type 0} (bus : Bus S) where
  unfoldable pub enable_backup_access : Exec S (Unit {0}) CounterError
  enable_backup_access = do
    en ← load bus rcc_apb1enr1
    store bus rcc_apb1enr1 (bit_or (bit_or en rcc_apb1enr1_pwren) rcc_apb1enr1_rtcapben)
    en_rb ← load bus rcc_apb1enr1
    if bit_and en_rb rcc_apb1enr1_rtcapben == 0 then raise apb_clock_off else (do
      cr1 ← load bus pwr_cr1
      store bus pwr_cr1 (bit_or cr1 pwr_cr1_dbp)
      cr1_rb ← load bus pwr_cr1
      if bit_and cr1_rb pwr_cr1_dbp == 0
          then raise backup_write_protected
          else (do store bus rtc_wpr rtc_wpr_key1; store bus rtc_wpr rtc_wpr_key2))

  -- `bkp_ptr(which).ok_or(CounterError::BadIndex)?`
  abbrev with_ptr : {A : Type 0} → Option ℕ → (ℕ → Exec S A CounterError) → Exec S A CounterError
  with_ptr none f = raise bad_index
  with_ptr (some ptr) f = f ptr

  unfoldable pub read_counter : Counter → Exec S ℕ CounterError
  read_counter which = do
    enable_backup_access
    with_ptr (bkp_ptr which) (λ ptr. do raw ← load bus ptr; pure (counted raw))

  unfoldable pub write_counter : Counter → ℕ → Exec S (Unit {0}) CounterError
  write_counter which count = do
    enable_backup_access
    with_ptr (bkp_ptr which) (λ ptr. do
      store bus ptr (encode_counter count)
      got ← load bus ptr
      if got == encode_counter count then pure tt else raise verify_failed)

  unfoldable pub bump_counter : Counter → Exec S ℕ CounterError
  bump_counter which = do
    current ← read_counter which
    write_counter which (next_count current)
    pure (next_count current)

  unfoldable clear_counter : Counter → Exec S (Unit {0}) CounterError
  clear_counter which = write_counter which 0

  -- `BootHealth::read`
  unfoldable read_health : S → BootHealth × S
  read_health s =
      let (panics, s1) = read_counter panic s in
      let (rng_faults, s2) = read_counter rng_fault s1 in
      (
        record {
          panics = or_zero panics;
          rng_faults = or_zero rng_faults;
          counters_unavailable = is_err panics || is_err rng_faults;
        },
        s2,
      )

  -- The handler up to its reset: the depth word that it leaves, and whether it tries the DFU mode.
  abbrev decide : ℕ → Result ℕ CounterError × S → ℕ × PanicAction × S
  decide depth (bumped, s) = (encode_depth (sat_add32 depth 1), panic_action depth bumped, s)

  unfoldable pub panic_handler : ℕ → S → ℕ × PanicAction × S
  panic_handler depth_word s =
      let depth = decode_depth depth_word in
      decide depth (if depth == 0 then bump_counter panic s else (err verify_failed, s))
