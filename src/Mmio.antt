-- ===== src/Mmio.antt =====
-- The memory-mapped registers of hal/src/panic.rs and hal/src/flash.rs, as the volatile accesses meet
-- them: hardware, so an argument of what uses it.
use cold_snap.Prelude.{ℕ, ok}
use cold_snap.Prelude.Exec.{Exec}

pub record Bus (S : Type 0) : Type 0 where
  pub read_volatile : ℕ → S → ℕ × S
  pub write_volatile : ℕ → ℕ → S → S

module _ {S E : Type 0} (bus : Bus S) where
  abbrev pub load : ℕ → Exec S ℕ E
  load a s = let (v, s') = bus.read_volatile a s in (ok v, s')

  abbrev pub store : ℕ → ℕ → Exec S (Unit {0}) E
  store a v s = (ok tt, bus.write_volatile a v s)
