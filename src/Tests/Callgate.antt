-- ===== src/Tests/Callgate.antt =====
-- hal/src/callgate.rs at answers of the gate.
use cold_snap.Prelude.{ℕ, ◌≤◌, ◌≡◌, ◌↔◌, false, List, [], ◌∷◌, ok, length, take, replicate}
use cold_snap.Rng.{all_equal}
use cold_snap.Callgate.{se2, byte_count, parse_rng_response}
use cold_snap.Callgate.Checks.{parse_rng_response_iff}

-- Eight bytes of the second element, and the rest of the buffer.
abbrev served : List ℕ
served = 1 ∷ 2 ∷ 3 ∷ 4 ∷ 5 ∷ 6 ∷ 7 ∷ 8 ∷ replicate 24 0

abbrev eight : List ℕ
eight = 1 ∷ 2 ∷ 3 ∷ 4 ∷ 5 ∷ 6 ∷ 7 ∷ 8 ∷ []

parse_rng_response_iff_example : (parse_rng_response se2 (8 ∷ served) 8 ≡ ok eight) ↔ (
    (32 ≤ length served)
    × (8 ≡ byte_count se2)
    × (8 ≡ byte_count se2)
    × (eight ≡ take (byte_count se2) served)
    × (all_equal 0 eight ≡ false)
    × (all_equal 255 eight ≡ false))
parse_rng_response_iff_example = parse_rng_response_iff se2 8 served 8 eight
