-- ===== src/Panic/ResetLoop.antt =====
-- hal/src/panic.rs: panics that follow one another, each in a boot of its own.
use cold_snap.Prelude.{
  ℕ, ◌+◌, ◌≤◌, ◌≡◌, ◌≢◌, refl, ap, ◌∙◌, ok, arith, ==_self, leb, bit_and, bit_or, min,
  if◌then◌else◌, List, [], ◌∷◌, length,
}
use cold_snap.Prelude.Bits.{and_or_bit8, and_or_bit10}
use cold_snap.Mmio.{Bus}
use cold_snap.Panic.{
  rcc_apb1enr1, rcc_apb1enr1_pwren, pwr_cr1, rtc_wpr, rtc_base, enable_backup_access, bkp_ptr,
  bkp_offset, index, read_counter, write_counter, bump_counter, counted, encode_counter, next_count,
  panic, panic_handler, panic_action, past_threshold, decode_depth, reset, try_dfu_then_reset,
}
use cold_snap.Panic.Words.{counted-encode_counter, counted_bound}

-- The backup register of the panic counter.
abbrev bkp0 : ℕ
bkp0 = rtc_base + 80

-- What the reference manual says of the registers: a read changes nothing, the two enable registers
-- keep what is written to them, a store goes to its own register only, and the backup register takes
-- a store while its clock and its write access are on.
pub record BackupLaws {S : Type 0} (bus : Bus S) : Type 0 where
  pub read_keeps : (a : ℕ) (s : S) → (bus.read_volatile a s).1 ≡ s
  pub read_rcc :
      (v : ℕ) (s : S) → (bus.read_volatile rcc_apb1enr1 (bus.write_volatile rcc_apb1enr1 v s)).0 ≡ v
  pub read_pwr :
      (v : ℕ) (s : S) → (bus.read_volatile pwr_cr1 (bus.write_volatile pwr_cr1 v s)).0 ≡ v
  pub read_other :
      (a b v : ℕ) (s : S)
      → a ≢ b
      → (bus.read_volatile a (bus.write_volatile b v s)).0 ≡ (bus.read_volatile a s).0
  pub read_bkp :
      (v : ℕ) (s : S)
      → bit_and (bus.read_volatile rcc_apb1enr1 s).0 1024 ≡ 1024
      → bit_and (bus.read_volatile pwr_cr1 s).0 256 ≡ 256
      → (bus.read_volatile bkp0 (bus.write_volatile bkp0 v s)).0 ≡ v

module _ {S : Type 0} (bus : Bus S) (laws : BackupLaws bus) where
  word : ℕ → S → ℕ
  word a s = (bus.read_volatile a s).0

  record IsEnabled (s : S) : Type 0 where
    clocked : bit_and (word rcc_apb1enr1 s) 1024 ≡ 1024
    writable : bit_and (word pwr_cr1 s) 256 ≡ 256

  rcc_on : S → S
  rcc_on s =
      bus.write_volatile rcc_apb1enr1
        (bit_or (bit_or (word rcc_apb1enr1 s) rcc_apb1enr1_pwren) 1024) s

  pwr_on : S → S
  pwr_on s = bus.write_volatile pwr_cr1 (bit_or (word pwr_cr1 s) 256) s

  unlocked : S → S
  unlocked s = bus.write_volatile rtc_wpr 83 (bus.write_volatile rtc_wpr 202 s)

  rcc_bit : (s : S) → bit_and (word rcc_apb1enr1 (rcc_on s)) 1024 ≡ 1024
  unfolding rcc_on word
  rcc_bit s = ap (λ v. bit_and v 1024) (laws.read_rcc _ s) ∙ and_or_bit10 _

  pwr_bit : (s : S) → bit_and (word pwr_cr1 (pwr_on s)) 256 ≡ 256
  unfolding pwr_on word
  pwr_bit s = ap (λ v. bit_and v 256) (laws.read_pwr _ s) ∙ and_or_bit8 _

  enable_done : (s : S) → enable_backup_access bus s ≡ (ok tt, unlocked (pwr_on (rcc_on s)))
  unfolding enable_backup_access word rcc_on pwr_on unlocked
  enable_done s = rw (laws.read_keeps rcc_apb1enr1 s) (
      rw (laws.read_keeps rcc_apb1enr1 (rcc_on s)) (
        rw (rcc_bit s) (
          rw (laws.read_keeps pwr_cr1 (rcc_on s))
            (rw (laws.read_keeps pwr_cr1 (pwr_on (rcc_on s))) (rw (pwr_bit (rcc_on s)) refl)))))

  -- A register that is none of the three keeps its word.
  keeps_word :
      (a : ℕ) (s : S)
      → a ≢ rcc_apb1enr1
      → a ≢ pwr_cr1
      → a ≢ rtc_wpr
      → word a (unlocked (pwr_on (rcc_on s))) ≡ word a s
  unfolding word rcc_on pwr_on unlocked
  keeps_word a s hr hp hw =
      laws.read_other a rtc_wpr _ _ hw
      ∙ (laws.read_other a rtc_wpr _ _ hw
          ∙ (laws.read_other a pwr_cr1 _ _ hp ∙ laws.read_other a rcc_apb1enr1 _ s hr))

  enabled : S → S
  enabled s = unlocked (pwr_on (rcc_on s))

  enabled-IsEnabled : (s : S) → IsEnabled (enabled s)
  unfolding word rcc_on pwr_on unlocked enabled
  enabled-IsEnabled s = record {
    clocked =
        ap (λ v. bit_and v 1024)
          (laws.read_other rcc_apb1enr1 rtc_wpr _ _ (omega arith)
            ∙ (laws.read_other rcc_apb1enr1 rtc_wpr _ _ (omega arith)
                ∙ laws.read_other rcc_apb1enr1 pwr_cr1 _ (rcc_on s) (omega arith)))
        ∙ rcc_bit s;
    writable =
        ap (λ v. bit_and v 256)
          (laws.read_other pwr_cr1 rtc_wpr _ _ (omega arith)
            ∙ laws.read_other pwr_cr1 rtc_wpr _ _ (omega arith))
        ∙ pwr_bit (rcc_on s);
  }

  enabled-word : (s : S) → word bkp0 (enabled s) ≡ word bkp0 s
  unfolding enabled
  enabled-word s = keeps_word bkp0 s (omega arith) (omega arith) (omega arith)

  -- The state after a write of the counter.
  counter_set : ℕ → S → S
  counter_set c s = bus.write_volatile bkp0 (encode_counter c) (enabled s)

  counter_set-word : (c : ℕ) (s : S) → word bkp0 (counter_set c s) ≡ encode_counter c
  unfolding counter_set word
  counter_set-word c s =
      let e = enabled-IsEnabled s in
      laws.read_bkp (encode_counter c) (enabled s) e.clocked e.writable

  read_counter_lem : (s : S) → read_counter bus panic s ≡ (ok (counted (word bkp0 s)), enabled s)
  unfolding read_counter bkp_ptr bkp_offset index enabled word
  read_counter_lem s = rw (enable_done s) (
      rw (laws.read_keeps bkp0 (enabled s))
        (ap (λ w. (ok (counted w), enabled s)) (enabled-word s)))

  write_counter_lem : (c : ℕ) (s : S) → write_counter bus panic c s ≡ (ok tt, counter_set c s)
  unfolding write_counter bkp_ptr bkp_offset index counter_set enabled word
  write_counter_lem c s = rw (enable_done s) (
      rw (counter_set-word c s) (
        rw (==_self (encode_counter c))
          (ap (λ t. (ok tt, t)) (laws.read_keeps bkp0 (counter_set c s)))))

  -- The count of the panics, as the next boot reads it.
  pub recorded : S → ℕ
  recorded s = counted (word bkp0 s)

  bumped : S → S
  bumped s = counter_set (next_count (recorded s)) (enabled s)

  bump_counter_lem : (s : S) → bump_counter bus panic s ≡ (ok (next_count (recorded s)), bumped s)
  unfolding bump_counter recorded bumped
  bump_counter_lem s =
      rw (read_counter_lem s) (rw (write_counter_lem (next_count (recorded s)) (enabled s)) refl)

  counted-next : (c : ℕ) → counted (encode_counter (next_count c)) ≡ min (c + 1) 65535
  unfolding next_count
  counted-next c = counted-encode_counter (next_count c) ∙ omega arith

  same_test : (c : ℕ) → leb 3 (next_count c) ≡ leb 3 (c + 1)
  unfolding next_count
  same_test c = ground arith

  bumped-recorded : (s : S) → recorded (bumped s) ≡ min (recorded s + 1) 65535
  unfolding recorded bumped
  bumped-recorded s = ap counted (counter_set-word _ (enabled s)) ∙ counted-next (recorded s)

  -- Boots that each end in a panic, given the word that each finds where the depth is kept.
  pub boots : List ℕ → S → S
  boots [] s = s
  boots (w ∷ ws) s = boots ws (panic_handler bus w s).2

  pub data AllFirst : List ℕ → Type 0 where
    none_yet : AllFirst []
    first : (w : ℕ) (ws : List ℕ) → decode_depth w ≡ 0 → AllFirst ws → AllFirst (w ∷ ws)

  handler_state : (w : ℕ) (s : S) → decode_depth w ≡ 0 → (panic_handler bus w s).2 ≡ bumped s
  unfolding panic_handler
  handler_state w s h = rw h (rw (bump_counter_lem s) refl)

  handler_action :
      (w : ℕ) (s : S)
      → decode_depth w ≡ 0
      → (panic_handler bus w s).1 ≡ (if leb 3 (recorded s + 1) then try_dfu_then_reset else reset)
  unfolding panic_handler panic_action past_threshold
  handler_action w s h = rw h (
      rw (bump_counter_lem s)
        (ap (λ b. if b then try_dfu_then_reset else reset) (same_test (recorded s))))

  boots-recorded :
      (ws : List ℕ) (s : S)
      → AllFirst ws
      → recorded s ≤ 65535
      → recorded (boots ws s) ≡ min (recorded s + length ws) 65535
  unfolding boots
  boots-recorded [] s all h = omega arith
  boots-recorded (w ∷ ws) s (first _ _ hw all) h = rw (handler_state w s hw) (
      omega (
        arith,
        boots-recorded ws (bumped s) all (omega (arith, bumped-recorded s)),
        bumped-recorded s,
      ))

  -- Each boot ends in a panic. The depth words that the boots find are untagged or zero, and the
  -- registers keep their laws, whatever the backup register held at first. Then the panic after
  -- `length ws` others tries the DFU mode exactly where the count at first, and the panics since,
  -- are three or more: the third panic in a row at the latest.
  pub panic_handler-boots :
      (ws : List ℕ) (w : ℕ) (s : S)
      → AllFirst ws
      → decode_depth w ≡ 0
      → (panic_handler bus w (boots ws s)).1
        ≡ (if leb 3 (recorded s + length ws + 1) then try_dfu_then_reset else reset)
  panic_handler-boots ws w s all h =
      handler_action w (boots ws s) h
      ∙ ap (λ b. if b then try_dfu_then_reset else reset)
          (cut _ (boots-recorded ws s all (unfold recorded in counted_bound _)))
    where
      cut :
          (c : ℕ)
          → c ≡ min (recorded s + length ws) 65535
          → leb 3 (c + 1) ≡ leb 3 (recorded s + length ws + 1)
      cut c e = ground arith
