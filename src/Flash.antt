-- ===== src/Flash.antt =====
-- hal/src/flash.rs: the driver of the storage region FLASH_FS. The registers and the array are a bus
-- that is read and written; the barrier between two stores is their order here.
pub mod Bounds
pub mod Traced
pub mod Stores
use cold_snap.Prelude.{
  ℕ, zero, suc, ◌+◌, ◌-◌, ◌*◌, ◌/◌, ◌%◌, ◌^◌, Bool, true, false, not, ◌&&◌, ◌||◌, List, [], ◌∷◌,
  Option, none, some, Result, ok, err, ◌==◌, ltb, leb, if◌then◌else◌, length, take, drop, slice,
  bit_and, bit_or, checked_add32, checked_sub, u32_mod,
}
use cold_snap.Prelude.Bytes.{bytes_eq, from_le_bytes}
use cold_snap.Mmio.{Bus, load, store}
use cold_snap.Prelude.Exec.{Exec, pure, raise, ◌>>=◌, ◌>>◌}
use cold_snap.Memmap.{flash_fs_base, flash_fs_len, flash_erase_floor}

abbrev erase_size : ℕ
erase_size = 4096

abbrev write_size : ℕ
write_size = 8

abbrev flash_r_base : ℕ
flash_r_base = 0x40022000

abbrev pub flash_keyr : ℕ
flash_keyr = flash_r_base + 0x08

abbrev pub flash_sr : ℕ
flash_sr = flash_r_base + 0x10

abbrev pub flash_cr : ℕ
flash_cr = flash_r_base + 0x14

abbrev pub flash_acr : ℕ
flash_acr = flash_r_base

abbrev pub flash_key1 : ℕ
flash_key1 = 0x45670123

abbrev pub flash_key2 : ℕ
flash_key2 = 0xCDEF89AB

abbrev pub flash_cr_pg : ℕ
flash_cr_pg = 2 ^ 0

abbrev pub flash_cr_per : ℕ
flash_cr_per = 2 ^ 1

abbrev pub flash_cr_mer1 : ℕ
flash_cr_mer1 = 2 ^ 2

abbrev pub flash_cr_pnb : ℕ
flash_cr_pnb = 255 * 2 ^ 3

abbrev flash_cr_bker : ℕ
flash_cr_bker = 2 ^ 11

abbrev pub flash_cr_strt : ℕ
flash_cr_strt = 2 ^ 16

abbrev pub flash_cr_lock : ℕ
flash_cr_lock = 2 ^ 31

abbrev pub flash_sr_bsy : ℕ
flash_sr_bsy = 2 ^ 16

abbrev pub flash_sr_eop : ℕ
flash_sr_eop = 2 ^ 0

abbrev pub flash_sr_errors : ℕ
flash_sr_errors =
    2 ^ 1 + 2 ^ 3 + 2 ^ 4 + 2 ^ 5 + 2 ^ 6 + 2 ^ 7 + 2 ^ 8 + 2 ^ 9 + 2 ^ 14 + 2 ^ 15 + 2 ^ 17

abbrev pub flash_acr_dcen : ℕ
flash_acr_dcen = 2 ^ 10

abbrev pub flash_acr_dcrst : ℕ
flash_acr_dcrst = 2 ^ 12

abbrev pub flash_spin_limit : ℕ
flash_spin_limit = 50000000

pub data FlashError : Type 0 where
  not_aligned out_of_bounds : FlashError
  hardware : ℕ → FlashError
  unlock_failed dbank_mismatch verify_failed not_on_this_target : FlashError

-- `!mask`
abbrev pub complement32 : ℕ → ℕ
complement32 mask = 4294967295 - mask

unfoldable pub pnb_bits : ℕ → ℕ
pnb_bits page = bit_and (page * 2 ^ 3 % u32_mod) flash_cr_pnb

-- `usize` has 32 bits on the device.
unfoldable pub check_bounds : ℕ → ℕ → ℕ → Result (Unit {0}) FlashError
check_bounds offset len align =
    if ltb 1 align && (not (offset % align == 0) || not (len % align == 0))
    then err not_aligned
    else elim (checked_add32 offset len) [
      | none ↦ err out_of_bounds
      | some end_ ↦ if ltb flash_fs_len end_ then err out_of_bounds else ok tt
    ]

-- The address is masked with `0x7ff_ffff`.
unfoldable pub erase_page_of : ℕ → Result (ℕ × Bool) FlashError
erase_page_of abs_addr =
    if ltb abs_addr flash_erase_floor
    then err out_of_bounds
    else let page = abs_addr % 2 ^ 27 / erase_size in ok (page % 256, leb 256 page)

unfoldable abs_addr : ℕ → Result ℕ FlashError
abs_addr offset = elim (check_bounds offset 1 1) [
  | err e ↦ err e
  | ok _ ↦ elim (checked_add32 flash_fs_base offset) [ none ↦ err out_of_bounds | some a ↦ ok a ]
]

-- The trait `SrPort`.
pub record SrPort (S : Type 0) : Type 0 where
  pub read_sr : S → ℕ × S
  pub write_sr : ℕ → S → S

module _ {S : Type 0} (port : SrPort S) where
  abbrev status : Exec S ℕ FlashError
  status s = let (sr, s') = port.read_sr s in (ok sr, s')

  abbrev pub clear : ℕ → Exec S (Unit {0}) FlashError
  clear v s = (ok tt, port.write_sr v s)

  -- What a status word that is not busy makes of the operation.
  abbrev pub settled : ℕ → Exec S (Unit {0}) FlashError
  settled sr =
      if not (bit_and sr flash_sr_errors == 0)
      then raise (hardware (bit_and sr flash_sr_errors))
      else if not (bit_and sr flash_sr_eop == 0)
      then clear flash_sr_eop
      else pure tt

  unfoldable pub sr_wait_done : ℕ → Exec S (Unit {0}) FlashError
  sr_wait_done zero s =
      let (sr, s') = port.read_sr s in
      if bit_and sr flash_sr_bsy == 0 then settled sr s' else (err (hardware flash_sr_bsy), s')
  sr_wait_done (suc spins) s =
      let (sr, s') = port.read_sr s in
      let rest = sr_wait_done spins s' in
      if bit_and sr flash_sr_bsy == 0 then settled sr s' else rest

  unfoldable pub sr_prologue : ℕ → Exec S (Unit {0}) FlashError
  sr_prologue spin_limit = do
    sr ← status
    clear (bit_and sr flash_sr_errors)
    sr_wait_done spin_limit

module _ {S : Type 0} (bus : Bus S) where
  -- The trait's implementation for the registers.
  unfoldable pub mmio : SrPort S
  mmio = record { read_sr = bus.read_volatile flash_sr; write_sr = bus.write_volatile flash_sr }

  -- `*register = f(*register)`
  abbrev modify : ℕ → (ℕ → ℕ) → Exec S (Unit {0}) FlashError
  modify a f = do v ← load bus a; store bus a (f v)

  unfoldable pub unlock : Exec S (Unit {0}) FlashError
  unlock = do
    cr ← load bus flash_cr
    if bit_and cr flash_cr_lock == 0 then pure tt else (do
      store bus flash_keyr flash_key1
      store bus flash_keyr flash_key2
      again ← load bus flash_cr
      if bit_and again flash_cr_lock == 0 then pure tt else raise unlock_failed)

  unfoldable pub lock : Exec S (Unit {0}) FlashError
  lock = modify flash_cr (λ cr. bit_or cr flash_cr_lock)

  unfoldable pub data_cache_disable : Exec S (Unit {0}) FlashError
  data_cache_disable = modify flash_acr (λ acr. bit_and acr (complement32 flash_acr_dcen))

  unfoldable pub data_cache_reset_and_enable : Exec S (Unit {0}) FlashError
  data_cache_reset_and_enable = do
    acr ← load bus flash_acr
    store bus flash_acr (bit_or acr flash_acr_dcrst)
    store bus flash_acr (bit_and acr (complement32 flash_acr_dcrst))
    modify flash_acr (λ again. bit_or again flash_acr_dcen)

  -- An operation's end, whatever it answered, and its answer after that.
  abbrev pub finally :
      {A : Type 0} → Exec S A FlashError → Exec S (Unit {0}) FlashError → Exec S A FlashError
  finally m after s = let (r, s') = m s in (r, (after s').1)

  unfoldable pub wait_done : Exec S (Unit {0}) FlashError
  wait_done = sr_wait_done mmio flash_spin_limit

  unfoldable pub operation_prologue : Exec S (Unit {0}) FlashError
  operation_prologue = sr_prologue mmio flash_spin_limit

  -- `CR` with the bank and the page of an erase.
  abbrev pub select : ℕ → Bool → ℕ → ℕ
  select page bank2 cr =
      bit_or
        (bit_and
          (if bank2 then bit_or cr flash_cr_bker else bit_and cr (complement32 flash_cr_bker))
          (complement32 flash_cr_pnb))
        (pnb_bits page)

  -- The body of the loop of `erase`.
  unfoldable pub erase_page : Result (ℕ × Bool) FlashError → Exec S (Unit {0}) FlashError
  erase_page (err e) = raise e
  erase_page (ok (page, bank2)) = do
    operation_prologue
    data_cache_disable
    cr ← load bus flash_cr
    store bus flash_cr (select page bank2 cr)
    store bus flash_cr (bit_or (select page bank2 cr) flash_cr_per)
    store bus flash_cr (bit_or (bit_or (select page bank2 cr) flash_cr_per) flash_cr_strt)
    finally wait_done (do
      modify flash_cr (λ cr. bit_and cr (complement32 (flash_cr_per + flash_cr_pnb)))
      data_cache_reset_and_enable)

  -- The loop of `erase`, for the pages that are left from `off`.
  unfoldable pub erase_loop : ℕ → ℕ → Exec S (Unit {0}) FlashError
  erase_loop zero off = pure tt
  erase_loop (suc pages) off = do
    erase_page (erase_page_of (flash_fs_base + off))
    erase_loop pages (off + erase_size)

  unfoldable pub erase : ℕ → ℕ → Exec S (Unit {0}) FlashError
  erase from to = elim (checked_sub to from) [
    | none ↦ raise out_of_bounds
    | some len ↦ elim (check_bounds from len erase_size) [
      | err e ↦ raise e
      | ok _ ↦
          if len == 0
          then pure tt
          else (do unlock; finally (erase_loop (len / erase_size) from) lock)
    ]
  ]

  -- The address of a doubleword, or `none` where the sum does not fit.
  abbrev pub target : ℕ → ℕ → Option ℕ
  target offset byte_off = elim (checked_add32 flash_fs_base offset) [
    | none ↦ none
    | some a ↦ checked_add32 a byte_off
  ]

  -- The body of the loop of `write`.
  unfoldable pub program : Option ℕ → List ℕ → Exec S (Unit {0}) FlashError
  program none dw = raise out_of_bounds
  program (some abs) dw = if ltb abs flash_erase_floor then raise out_of_bounds else (do
    operation_prologue
    data_cache_disable
    modify flash_cr (λ cr.
        bit_or (bit_and cr (complement32 (flash_cr_mer1 + flash_cr_per + flash_cr_pnb)))
          flash_cr_pg)
    store bus abs (from_le_bytes (slice 0 4 dw))
    store bus (abs + 4) (from_le_bytes (slice 4 8 dw))
    finally wait_done (do
      modify flash_cr (λ cr. bit_and cr (complement32 flash_cr_pg))
      data_cache_reset_and_enable))

  -- The loop of `write` over the doublewords that are left, the next of which is number `i`.
  unfoldable pub write_loop : ℕ → ℕ → ℕ → List ℕ → Exec S (Unit {0}) FlashError
  write_loop zero i offset bytes = pure tt
  write_loop (suc left) i offset bytes = do
    program (target offset (i * write_size)) (take write_size bytes)
    write_loop left (suc i) offset (drop write_size bytes)

  unfoldable pub write : ℕ → List ℕ → Exec S (Unit {0}) FlashError
  write offset bytes = elim (check_bounds offset (length bytes) write_size) [
    | err e ↦ raise e
    | ok _ ↦
        if length bytes == 0
        then pure tt
        else (do unlock; finally (write_loop (length bytes / write_size) 0 offset bytes) lock)
  ]

  module _ (read_byte : ℕ → S → ℕ × S) where
    abbrev load_byte : ℕ → Exec S ℕ FlashError
    load_byte a s = let (b, s') = read_byte a s in (ok b, s')

    -- The loop of `read` over the bytes that are left from an address.
    unfoldable pub read_loop : ℕ → ℕ → Exec S (List ℕ) FlashError
    read_loop zero a = pure []
    read_loop (suc left) a = do b ← load_byte a; bs ← read_loop left (a + 1); pure (b ∷ bs)

    unfoldable pub read : ℕ → ℕ → Exec S (List ℕ) FlashError
    read offset len = elim (check_bounds offset len 1) [
      | err e ↦ raise e
      | ok _ ↦ if len == 0 then pure [] else read_loop len (flash_fs_base + offset)
    ]

    -- The loop of `write_verified` over the bytes that are left, on fuel: a pass takes at least one.
    unfoldable verify_loop : ℕ → ℕ → List ℕ → Exec S (Unit {0}) FlashError
    verify_loop zero offset bytes = pure tt
    verify_loop (suc fuel) offset [] = pure tt
    verify_loop (suc fuel) offset (b ∷ bs) = do
      back ← read offset (length (take write_size (b ∷ bs)))
      if not (bytes_eq back (take write_size (b ∷ bs)))
          then raise verify_failed
          else verify_loop fuel (offset + write_size) (drop write_size (b ∷ bs))

    unfoldable write_verified : ℕ → List ℕ → Exec S (Unit {0}) FlashError
    write_verified offset bytes = do write offset bytes; verify_loop (length bytes) offset bytes
