-- ===== src/Tests/Wire.antt =====
-- hal/src/comms.rs and hal/src/flash.rs at concrete inputs.
use cold_snap.Prelude.{
  Bool, false, ◌≢◌, ◌++◌, length, some, ℕ, ◌+◌, ◌%◌, ◌≤◌, ◌≡◌, ◌↔◌, ◌⊎◌, refl, List, [], ◌∷◌, true,
  Result, ok, err, arith, replicate, length-replicate,
}
use cold_snap.Comms.{Link, DecodeError, unexpected_end, drain_loop, drain, poll}
use cold_snap.Comms.Ends.{drain_loop-fuel}
use cold_snap.Comms.Parse.{DecoderLaws, parse, parse_loop}
use cold_snap.Comms.Receive.{receive}
use cold_snap.Comms.Reassembly.{poll-receive}
use cold_snap.Comms.Buffer.{IsBounded, Leaves, seen, held, drain-parse}
use cold_snap.Mmio.{Bus}
use cold_snap.Flash.{check_bounds, write}
use cold_snap.Flash.Stores.{Inside, write-Inside}
use cold_snap.Flash.Traced.{traced, All}
use cold_snap.Flash.Bounds.{check_bounds_iff}

-- Frames of one byte.
one_byte : List ℕ → Result (ℕ × ℕ) DecodeError
one_byte [] = err unexpected_end
one_byte (x ∷ xs) = ok (x, 1)

loaded : Link
loaded = record { rx = replicate 4096 7; rx_len = 2; magic_progress = 0; linked = true }

loaded-IsBounded : IsBounded loaded
unfolding loaded
loaded-IsBounded = record { size = length-replicate {A = ℕ} 4096 7; fits = omega arith }

drain-parse_example :
    (seen (drain one_byte loaded) ≡ parse one_byte (held loaded))
    × Leaves loaded (drain one_byte loaded)
drain-parse_example = drain-parse one_byte loaded loaded-IsBounded

drain_loop-fuel_example : drain_loop one_byte 5 loaded ≡ drain one_byte loaded
unfolding loaded
drain_loop-fuel_example = drain_loop-fuel one_byte 5 loaded (omega arith)

check_bounds_iff_example :
    (check_bounds 4096 8192 4096 ≡ ok tt)
    ↔ ((4096 ≤ 1 ⊎ ((4096 % 4096 ≡ 0) × (8192 % 4096 ≡ 0))) × (4096 + 8192 ≤ 524288))
check_bounds_iff_example = check_bounds_iff 4096 8192 4096

one_byte-DecoderLaws : DecoderLaws one_byte
unfolding one_byte
one_byte-DecoderLaws = record {
  consumes = λ xs frame n e. consumed xs frame n e;
  extends_ok = λ xs ys frame n e. extended xs ys frame n e;
  extends_err = λ xs ys why e h. failed xs ys why e h;
}
  where
    consumed : (xs : List ℕ) (frame n : ℕ) → one_byte xs ≡ ok (frame, n) → n ≤ length xs
    consumed [] frame n e = absurd (cc e)
    consumed (x ∷ xs) frame n e = grind (arith, e)

    extended :
        (xs ys : List ℕ) (frame n : ℕ)
        → one_byte xs ≡ ok (frame, n)
        → one_byte (xs ++ ys) ≡ ok (frame, n)
    extended [] ys frame n e = absurd (cc e)
    extended (x ∷ xs) ys frame n e = e

    failed :
        (xs ys : List ℕ) (why : DecodeError)
        → one_byte xs ≡ err why
        → why ≢ unexpected_end
        → one_byte (xs ++ ys) ≡ err why
    failed [] ys why e h = absurd (h (cc e))
    failed (x ∷ xs) ys why e h = absurd (cc e)

-- A link after its handshake. Its scan of the magic pattern is not used any more.
ready : Link
ready = record { rx = replicate 4096 7; rx_len = 0; magic_progress = 0; linked = true }

ready-IsBounded : IsBounded ready
unfolding ready
ready-IsBounded = record { size = length-replicate {A = ℕ} 4096 7; fits = omega arith }

ready-stable : parse one_byte (held ready) ≡ ([], some (held ready))
unfolding ready parse parse_loop
ready-stable = refl

no_magic : List ℕ → ℕ → ℕ × Bool × ℕ
no_magic bytes before = (before, false, length bytes)

poll-receive_example :
    (seen (poll one_byte no_magic (1 ∷ 2 ∷ []) ready) ≡ receive one_byte (held ready) (1 ∷ 2 ∷ []))
    × Leaves ready (poll one_byte no_magic (1 ∷ 2 ∷ []) ready)
unfolding ready
poll-receive_example =
    poll-receive one_byte one_byte-DecoderLaws no_magic (1 ∷ 2 ∷ []) ready ready-IsBounded
      ready-stable refl

-- A flash that is idle, and stores into nothing.
idle : Bus (Unit {0})
idle = record { read_volatile = λ a s. (0, s); write_volatile = λ a v s. s }

write-Inside_example :
    All (Inside 4096 8) (write (traced idle) 4096 (1 ∷ 2 ∷ 3 ∷ 4 ∷ 5 ∷ 6 ∷ 7 ∷ 8 ∷ []) (tt, [])).1.1
write-Inside_example = write-Inside idle 4096 (1 ∷ 2 ∷ 3 ∷ 4 ∷ 5 ∷ 6 ∷ 7 ∷ 8 ∷ []) tt
