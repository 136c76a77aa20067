-- ===== src/Tests/Device.antt =====
-- hal/src/panic.rs and hal/src/keypad.rs at concrete words.
use cold_snap.Prelude.{
  ℕ, ◌+◌, ◌≡◌, refl, [], ◌∷◌, some, arith, ◌==◌, if◌then◌else◌, leb, get_elem?, replicate,
}
use cold_snap.Mmio.{Bus}
use cold_snap.Panic.{panic_handler, try_dfu_then_reset, reset, decode_depth}
use cold_snap.Panic.ResetLoop.{BackupLaws, recorded, boots, none_yet, first, panic_handler-boots}
use cold_snap.Keypad.{
  down, decoder, push, count_keys, verdict, verdict_loop, test_bit, count_ones, new,
}
use cold_snap.Keypad.Window.{window, Only, window-down}

-- Registers that keep what is written to them.
registers : Bus (ℕ → ℕ)
registers = record {
  read_volatile = λ a s. (s a, s);
  write_volatile = λ a v s b. if b == a then v else s b;
}

registers-BackupLaws : BackupLaws registers
unfolding registers
registers-BackupLaws = record {
  read_keeps = λ a s. refl;
  read_rcc = λ v s. refl;
  read_pwr = λ v s. refl;
  read_other = λ a b v s h. ground arith;
  read_bkp = λ v s c w. refl;
}

filled : ℕ → ℕ
filled a = 0xdeadbeef

panic_handler-boots_example :
    (panic_handler registers 0xdeadbeef
      (boots registers registers-BackupLaws (0xdeadbeef ∷ 0 ∷ []) filled)).1
    ≡ (if leb 3 (recorded registers registers-BackupLaws filled + 2 + 1)
        then try_dfu_then_reset
        else reset)
unfolding decode_depth
panic_handler-boots_example =
    panic_handler-boots registers registers-BackupLaws (0xdeadbeef ∷ 0 ∷ []) 0xdeadbeef filled
      (first 0xdeadbeef (0 ∷ []) refl (first 0 [] refl none_yet)) refl

scan_of_y : window 1 1 1 ≡ some (down 121)
unfolding window push count_keys verdict verdict_loop test_bit count_ones new replicate
scan_of_y = refl

window-down_example : (i : ℕ) × (get_elem? decoder i ≡ some 121) × Only i 1 × Only i 1 × Only i 1
window-down_example = window-down 1 1 1 121 scan_of_y

-- A generator that counts.
counting : ℕ → ℕ × ℕ
counting s = (s, s + 1)
