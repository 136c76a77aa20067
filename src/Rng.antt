-- ===== src/Rng.antt =====
-- hal/src/rng.rs: the health tests of the random sources, their mix, and the generator that is seeded
-- from it. The reads of the sources, SHA-256 and ChaCha20 are arguments.
pub mod Health
pub mod Mix
pub mod Seeding
use cold_snap.Prelude.{
  ℕ, zero, suc, ◌+◌, Bool, true, false, not, ◌&&◌, ◌||◌, List, [], ◌∷◌, ◌++◌, Option, none, some,
  Result, ok, err, ◌==◌, if◌then◌else◌, length, min, sat_add32,
}
use cold_snap.Prelude.Bytes.{bytes_eq}
use cold_snap.Prelude.Exec.{Exec, pure, raise, map_err, ◌>>=◌, ◌>>◌}

abbrev trng_bytes : ℕ
trng_bytes = 32

abbrev se1_bytes : ℕ
se1_bytes = 32

abbrev se2_bytes : ℕ
se2_bytes = 8

abbrev seed_bytes : ℕ
seed_bytes = 32

-- `b"cold-snap/hal/rng/v1"`
abbrev pub mix_domain : List ℕ
mix_domain =
    99 ∷ 111 ∷ 108 ∷ 100 ∷ 45 ∷ 115 ∷ 110 ∷ 97 ∷ 112 ∷ 47 ∷ 104 ∷ 97 ∷ 108 ∷ 47 ∷ 114 ∷ 110 ∷ 103
    ∷ 47 ∷ 118 ∷ 49 ∷ []

pub data SourceId : Type 0 where
  trng se1 se2 : SourceId

pub data SourceFault : Type 0 where
  all_bytes_equal : SourceFault
  repeated_word : ℕ → SourceFault
  short_read : SourceFault
  rng_hardware callgate : ℕ → SourceFault
  timeout no_sources : SourceFault

pub data RngFault : Type 0 where
  fault_of : SourceId → SourceFault → RngFault

-- `bytes.iter().all(|&b| b == first)`
unfoldable pub all_equal : ℕ → List ℕ → Bool
all_equal first [] = true
all_equal first (b ∷ bs) = b == first && all_equal first bs

-- `chunks_exact(4)`, which drops a partial word at the end.
unfoldable pub chunks_exact4 : List ℕ → List (List ℕ)
chunks_exact4 (a ∷ b ∷ c ∷ d ∷ rest) = (a ∷ b ∷ c ∷ d ∷ []) ∷ chunks_exact4 rest
chunks_exact4 _ = []

-- The inner loop of `check_source`: the place, from `k` on, of the first later word that is the same.
unfoldable pub same_later : List ℕ → ℕ → List (List ℕ) → Option ℕ
same_later word k [] = none
same_later word k (other ∷ words) =
    let rest = same_later word (suc k) words in if bytes_eq word other then some k else rest

-- The outer loop, at word `i`.
unfoldable pub repeated : ℕ → List (List ℕ) → Option ℕ
repeated i [] = none
repeated i (word ∷ words) =
    let rest = repeated (suc i) words in
    elim (same_later word 0 words) [
      | some k ↦ some (min (sat_add32 (sat_add32 i k) 1) 255)
      | none ↦ rest
    ]

unfoldable pub check_words : List ℕ → Result (Unit {0}) SourceFault
check_words bytes = elim (repeated 0 (chunks_exact4 bytes)) [
  | some later ↦ err (repeated_word later)
  | none ↦ ok tt
]

-- What follows the test of the length, by the first byte.
unfoldable pub check_source : List ℕ → ℕ → Result (Unit {0}) SourceFault
check_source [] expected_len = err short_read
check_source (first ∷ bytes) expected_len =
    if not (length (first ∷ bytes) == expected_len)
    then err short_read
    else if all_equal first (first ∷ bytes)
    then err all_bytes_equal
    else check_words (first ∷ bytes)

-- `self.source.read(&mut buf)` of the three sources, over their state `D`.
pub record Sources (D : Type 0) : Type 0 where
  pub read_trng : Exec D (List ℕ) SourceFault
  pub read_se1 : Exec D (List ℕ) SourceFault
  pub read_se2 : Exec D (List ℕ) SourceFault

-- A generator of `rand_chacha`: its seeding and its bytes.
pub record Chacha (R : Type 0) : Type 0 where
  pub from_seed : List ℕ → R
  pub fill_bytes : ℕ → R → List ℕ × R

-- `sources` holds the state of the sources, where the generator owns them.
pub record Entropy (R D : Type 0) : Type 0 where
  pub rng : R
  pub reseeds : ℕ
  pub sources : Option D

module _ (sha256 : List ℕ → List ℕ) where
  -- The lengths fit a byte, since each has been checked.
  unfoldable pub transcript : List ℕ → List ℕ → List ℕ → List ℕ
  transcript a b c = mix_domain ++ ((length a ∷ a) ++ ((length b ∷ b) ++ (length c ∷ c)))

  unfoldable pub mix_checked_draws : List ℕ → List ℕ → List ℕ → Result (List ℕ) RngFault
  mix_checked_draws a b c = elim (check_source a trng_bytes) [
    | err f ↦ err (fault_of trng f)
    | ok _ ↦ elim (check_source b se1_bytes) [
      | err f ↦ err (fault_of se1 f)
      | ok _ ↦ elim (check_source c se2_bytes) [
        | err f ↦ err (fault_of se2 f)
        | ok _ ↦ ok (sha256 (transcript a b c))
      ]
    ]
  ]

  module _ {D R : Type 0} (src : Sources D) (chacha : Chacha R) where
    abbrev pub from : {A : Type 0} → SourceId → Exec D A SourceFault → Exec D A RngFault
    from id call d = let (r, d') = call d in (map_err (fault_of id) r, d')

    unfoldable pub mixed : List ℕ → List ℕ → List ℕ → Exec D (List ℕ) RngFault
    mixed a b c d = (mix_checked_draws a b c, d)

    unfoldable pub draw : Exec D (List ℕ) RngFault
    draw = do
      a ← from trng src.read_trng
      b ← from se1 src.read_se1
      c ← from se2 src.read_se2
      mixed a b c

    unfoldable pub booted : Result (List ℕ) RngFault × D → Result (Entropy R D) RngFault
    booted (ok seed, d) = ok (record { rng = chacha.from_seed seed; reseeds = 0; sources = some d })
    booted (err f, d) = err f

    unfoldable pub boot : D → Result (Entropy R D) RngFault
    boot d = booted (draw d)

    -- A draw that fails changes nothing but the sources that were read.
    unfoldable pub reseeded :
        Result (List ℕ) RngFault × D → Entropy R D → Result (Unit {0}) RngFault × Entropy R D
    reseeded (ok fresh, d) e =
        let (old, _) = chacha.fill_bytes seed_bytes e.rng in
        (
          ok tt,
          record {
            rng = chacha.from_seed (sha256 (mix_domain ++ (old ++ fresh)));
            reseeds = sat_add32 e.reseeds 1;
            sources = some d;
          },
        )
    reseeded (err f, d) e = (err f, record e { sources = some d })

    unfoldable pub reseed_from : Option D → Exec (Entropy R D) (Unit {0}) RngFault
    reseed_from none e = (err (fault_of trng no_sources), e)
    reseed_from (some d) e = reseeded (draw d) e

    unfoldable pub try_reseed : Exec (Entropy R D) (Unit {0}) RngFault
    try_reseed e = reseed_from e.sources e

    unfoldable can_reseed : Entropy R D → Bool
    can_reseed e = elim e.sources [ none ↦ false | some _ ↦ true ]
