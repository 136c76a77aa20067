-- ===== src/Flash/Stores.antt =====
-- hal/src/flash.rs: where the driver stores.
use cold_snap.Prelude.{
  ℕ, zero, suc, ◌+◌, ◌*◌, ◌/◌, ◌≤◌, ◌<◌, ◌≡◌, ◌⊎◌, inl, inr, refl, Bool, List, [], Option, none,
  some, Result, ok, err, arith, length, take, drop, slice, ◌==◌, ltb, bit_and, bit_or, checked_sub,
}
use cold_snap.Prelude.Exec.{Exec, raise}
use cold_snap.Mmio.{Bus}
use cold_snap.Memmap.{flash_fs_base, flash_erase_floor}
use cold_snap.Prelude.Bytes.{from_le_bytes}
use cold_snap.Flash.{
  FlashError, erase_page_of, erase_page, erase_loop, erase, program, write_loop, write, flash_cr,
  check_bounds, complement32, flash_cr_per, flash_cr_pnb, flash_cr_strt, flash_cr_pg, flash_cr_mer1,
  target, out_of_bounds, select,
}
use cold_snap.Flash.Traced.{
  traced, IsControl, All, cr, done, Sound, Keeps, pure-Keeps, raise-Keeps, bind-Keeps, choose-Keeps,
  load-Keeps, store-Keeps, finally-Keeps, then-Keeps, modify-Keeps, unlock-Keeps, lock-Keeps,
  data_cache_disable-Keeps, data_cache_reset_and_enable-Keeps, operation_prologue-Keeps,
  wait_done-Keeps,
}

module _ {S : Type 0} (bus : Bus S) (Q : ℕ → Type 0) (control : (a : ℕ) → IsControl a → Q a) where
  erase_page-Keeps :
      (p : Result (ℕ × Bool) FlashError) → Keeps bus Q control (erase_page (traced bus) p)
  unfolding erase_page
  erase_page-Keeps (err e) = raise-Keeps bus Q control e
  erase_page-Keeps (ok (page, bank2)) =
      then-Keeps bus Q control _ _ (operation_prologue-Keeps bus Q control) (
        then-Keeps bus Q control _ _ (data_cache_disable-Keeps bus Q control) (
          bind-Keeps bus Q control _ _ (load-Keeps bus Q control flash_cr) λ v.
            then-Keeps bus Q control _ _
              (store-Keeps bus Q control flash_cr (select (traced bus) page bank2 v) (control _ cr))
              (then-Keeps bus Q control _ _
                (store-Keeps bus Q control flash_cr
                  (bit_or (select (traced bus) page bank2 v) flash_cr_per) (control _ cr))
                (then-Keeps bus Q control _ _
                  (store-Keeps bus Q control flash_cr
                    (bit_or (bit_or (select (traced bus) page bank2 v) flash_cr_per) flash_cr_strt)
                    (control _ cr))
                  (finally-Keeps bus Q control _ _ (wait_done-Keeps bus Q control) (
                    then-Keeps bus Q control _ _
                      (modify-Keeps bus Q control flash_cr
                        (λ w. bit_and w (complement32 (flash_cr_per + flash_cr_pnb)))
                        (control _ cr))
                      (data_cache_reset_and_enable-Keeps bus Q control)))))))

  erase_loop-Keeps : (pages off : ℕ) → Keeps bus Q control (erase_loop (traced bus) pages off)
  unfolding erase_loop
  erase_loop-Keeps zero off = pure-Keeps bus Q control tt
  erase_loop-Keeps (suc pages) off =
      then-Keeps bus Q control _ _ (erase_page-Keeps (erase_page_of (flash_fs_base + off)))
        (erase_loop-Keeps pages (off + 4096))

  option-Keeps :
      {A : Type 0} {B : Type 0} (o : Option A) (m : Exec (S × List ℕ) B FlashError)
      (f : A → Exec (S × List ℕ) B FlashError)
      → Keeps bus Q control m
      → ((a : A) → Keeps bus Q control (f a))
      → Keeps bus Q control (elim o [ none ↦ m | some a ↦ f a ])
  option-Keeps none m f hm hf = hm
  option-Keeps (some a) m f hm hf = hf a

  result-Keeps :
      (r : Result (Unit {0}) FlashError) (n : Exec (S × List ℕ) (Unit {0}) FlashError)
      → (r ≡ ok tt → Keeps bus Q control n)
      → Keeps bus Q control (elim r [ err e ↦ raise e | ok _ ↦ n ])
  result-Keeps (err e) n hn = raise-Keeps bus Q control e
  result-Keeps (ok tt) n hn = hn refl

  erase-Keeps : (from to : ℕ) → Keeps bus Q control (erase (traced bus) from to)
  unfolding erase
  erase-Keeps from to =
      option-Keeps (checked_sub to from) _ _ (raise-Keeps bus Q control out_of_bounds) λ len.
        result-Keeps (check_bounds from len 4096) _ λ _.
          choose-Keeps bus Q control (len == 0) _ _ (pure-Keeps bus Q control tt) (
            then-Keeps bus Q control _ _ (unlock-Keeps bus Q control) (
              finally-Keeps bus Q control _ _ (erase_loop-Keeps (len / 4096) from)
                (lock-Keeps bus Q control)))

  program-Keeps :
      (o : Option ℕ) (dw : List ℕ)
      → ((a : ℕ) → o ≡ some a → Q a × Q (a + 4))
      → Keeps bus Q control (program (traced bus) o dw)
  unfolding program
  program-Keeps none dw q = raise-Keeps bus Q control out_of_bounds
  program-Keeps (some a) dw q =
      choose-Keeps bus Q control (ltb a flash_erase_floor) _ _
        (raise-Keeps bus Q control out_of_bounds)
        (then-Keeps bus Q control _ _ (operation_prologue-Keeps bus Q control) (
          then-Keeps bus Q control _ _ (data_cache_disable-Keeps bus Q control) (
            then-Keeps bus Q control _ _
              (modify-Keeps bus Q control flash_cr
                (λ v.
                  bit_or (bit_and v (complement32 (flash_cr_mer1 + flash_cr_per + flash_cr_pnb)))
                    flash_cr_pg)
                (control _ cr))
              (then-Keeps bus Q control _ _
                (store-Keeps bus Q control a (from_le_bytes (slice 0 4 dw)) (q a refl).0)
                (then-Keeps bus Q control _ _
                  (store-Keeps bus Q control (a + 4) (from_le_bytes (slice 4 8 dw)) (q a refl).1)
                  (finally-Keeps bus Q control _ _ (wait_done-Keeps bus Q control) (
                    then-Keeps bus Q control _ _
                      (modify-Keeps bus Q control flash_cr
                        (λ v. bit_and v (complement32 flash_cr_pg)) (control _ cr))
                      (data_cache_reset_and_enable-Keeps bus Q control))))))))

  target_lem :
      (offset b a : ℕ) → target (traced bus) offset b ≡ some a → a ≡ flash_fs_base + offset + b
  target_lem offset b a h = ground arith

  -- `span` says of the addresses of the span that they are allowed.
  module _ (offset len : ℕ)
      (span : (a : ℕ) → flash_fs_base + offset ≤ a → a < flash_fs_base + offset + len → Q a) where
    write_loop-Keeps :
        (left i : ℕ) (bytes : List ℕ)
        → (i + left) * 8 ≤ len
        → Keeps bus Q control (write_loop (traced bus) left i offset bytes)
    unfolding write_loop
    write_loop-Keeps zero i bytes h = pure-Keeps bus Q control tt
    write_loop-Keeps (suc left) i bytes h =
        then-Keeps bus Q control _ _
          (program-Keeps (target (traced bus) offset (i * 8)) (take 8 bytes) λ a e.
            let at : a ≡ flash_fs_base + offset + i * 8 = target_lem offset (i * 8) a e in
            (span a (omega arith) (omega arith), span (a + 4) (omega arith) (omega arith)))
          (write_loop-Keeps left (suc i) (drop 8 bytes) (omega arith))

  write-Keeps :
      (offset : ℕ) (bytes : List ℕ)
      → ((a : ℕ) → flash_fs_base + offset ≤ a → a < flash_fs_base + offset + length bytes → Q a)
      → Keeps bus Q control (write (traced bus) offset bytes)
  unfolding write
  write-Keeps offset bytes span = result-Keeps (check_bounds offset (length bytes) 8) _ λ _.
      choose-Keeps bus Q control (length bytes == 0) _ _ (pure-Keeps bus Q control tt) (
        then-Keeps bus Q control _ _ (unlock-Keeps bus Q control) (
          finally-Keeps bus Q control _ _
            (write_loop-Keeps offset (length bytes) span (length bytes / 8) 0 bytes (omega arith))
            (lock-Keeps bus Q control)))

-- The addresses that a write of `len` bytes at `offset` may store to.
pub Inside : ℕ → ℕ → ℕ → Type 0
Inside offset len a =
    IsControl a ⊎ ((flash_fs_base + offset ≤ a) × (a < flash_fs_base + offset + len))

-- Over any bus, whatever it answers: `write` stores to no address but the control registers and the
-- span that it was given, however it ends.
pub write-Inside :
    {S : Type 0} (bus : Bus S) (offset : ℕ) (bytes : List ℕ) (s : S)
    → All (Inside offset (length bytes)) (write (traced bus) offset bytes (s, [])).1.1
unfolding Inside Keeps Sound
write-Inside bus offset bytes s =
    (write-Keeps bus (Inside offset (length bytes)) (λ a c. inl c) offset bytes
      (λ a h k. inr (h, k)) (s, []) done).ends

-- Over any bus, whatever it answers: `erase` stores to the control registers only, however it ends.
erase-IsControl :
    {S : Type 0} (bus : Bus S) (from to : ℕ) (s : S)
    → All IsControl (erase (traced bus) from to (s, [])).1.1
unfolding Keeps Sound
erase-IsControl bus from to s = (erase-Keeps bus IsControl (λ a c. c) from to (s, []) done).ends
