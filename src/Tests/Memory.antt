-- ===== src/Tests/Memory.antt =====
-- hal/src/psram.rs: the burn length of an image, and the self-test on two memories.
use cold_snap.Prelude.{◌≡◌, ◌↔◌, refl, none, ok, arith, length}
use cold_snap.Psram.{staged_burn_len, check_write, readback_selftest}
use cold_snap.Psram.Fake.{FakePsram, fake_psram, fake_laws}
use cold_snap.Psram.Laws.{check_write_iff}
use cold_snap.Psram.Burn.{IsBurnable, staged_burn_len-IsBurnable}
use cold_snap.Psram.Selftest.{readback_selftest-passes}
use cold_snap.Tests.Upgrade.{image, ram, length-blank}

staged_burn_len-IsBurnable_example : (staged_burn_len image ≡ ok 262144) ↔ IsBurnable image 262144
staged_burn_len-IsBurnable_example = staged_burn_len-IsBurnable image 262144

aligned : check_write 0 262144 ≡ ok tt
aligned = (check_write_iff 0 262144).1 (refl, refl, omega arith)

readback_selftest-passes_example :
    (p : FakePsram) × (readback_selftest fake_psram 0 262144 ram ≡ (ok tt, p))
    × (p.corrupt_at ≡ none)
    × (length p.cells ≡ length ram.cells)
readback_selftest-passes_example =
    readback_selftest-passes fake_psram fake_laws 0 262144 ram refl (omega arith) aligned
      (omega (arith, length-blank))
