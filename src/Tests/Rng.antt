-- ===== src/Tests/Rng.antt =====
-- hal/src/rng.rs over sources that count their reads.
use cold_snap.Prelude.{
  ℕ, zero, suc, ◌+◌, ◌≡◌, ◌↔◌, ◌⊎◌, refl, List, [], ◌∷◌, ◌++◌, some, ok, err, sat_add32,
}
use cold_snap.Prelude.Bytes.{bytes_eq}
use cold_snap.Rng.{
  Sources, Chacha, Entropy, RngFault, check_source, check_words, all_equal, chunks_exact4, repeated,
  same_later, transcript, mix_checked_draws, mixed, draw, booted, boot, try_reseed, mix_domain,
}
use cold_snap.Rng.Health.{IsHealthy, check_source_iff}
use cold_snap.Rng.Seeding.{IsDrawn, boot-IsDrawn, try_reseed_lem}

count_from : ℕ → ℕ → List ℕ
count_from zero i = []
count_from (suc n) i = i ∷ count_from n (i + 1)

counted : Sources ℕ
counted = record {
  read_trng = λ d. (ok (count_from 32 d), d + 1);
  read_se1 = λ d. (ok (count_from 32 (d + 1)), d + 1);
  read_se2 = λ d. (ok (count_from 8 (d + 2)), d + 1);
}

plain : Chacha (List ℕ)
plain = record { from_seed = λ s. s; fill_bytes = λ n r. (r, r) }

bare : List ℕ → List ℕ
bare m = m

check_source_iff_example : (check_source (count_from 8 3) 8 ≡ ok tt) ↔ IsHealthy (count_from 8 3) 8
check_source_iff_example = check_source_iff (count_from 8 3) 8

started : Entropy (List ℕ) ℕ
unfolding bare count_from
started = record {
  rng = transcript bare (count_from 32 0) (count_from 32 2) (count_from 8 4);
  reseeds = 0;
  sources = some 3;
}

boots : boot bare counted plain 0 ≡ ok started
unfolding boot booted draw mixed mix_checked_draws check_source check_words all_equal chunks_exact4
    repeated same_later bytes_eq started counted plain count_from bare
boots = refl

boot-IsDrawn_example :
    (seed : List ℕ) × (d' : ℕ) × IsDrawn bare counted plain 0 seed d'
    × (started.rng ≡ plain.from_seed seed)
    × (started.reseeds ≡ 0)
    × (started.sources ≡ some d')
boot-IsDrawn_example = boot-IsDrawn bare counted plain 0 started boots

try_reseed_lem_example :
    ((f : RngFault) × ((try_reseed bare counted plain started).0 ≡ err f)
      × ((try_reseed bare counted plain started).1.rng ≡ started.rng)
      × ((try_reseed bare counted plain started).1.reseeds ≡ started.reseeds))
    ⊎ ((d : ℕ) × (fresh : List ℕ) × (d' : ℕ) × (started.sources ≡ some d)
        × IsDrawn bare counted plain d fresh d'
        × (try_reseed bare counted plain started ≡ (
          ok tt,
          record {
            rng =
                plain.from_seed
                  (bare (mix_domain ++ ((plain.fill_bytes 32 started.rng).0 ++ fresh)));
            reseeds = sat_add32 started.reseeds 1;
            sources = some d';
          },
        )))
try_reseed_lem_example = try_reseed_lem bare counted plain started
