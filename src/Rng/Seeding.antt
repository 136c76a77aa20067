-- ===== src/Rng/Seeding.antt =====
-- hal/src/rng.rs, `Sources::draw`, `Entropy::boot` and `Entropy::try_reseed`.
use cold_snap.Prelude.{
  ℕ, ◌≡◌, ◌⊎◌, inl, inr, refl, sym, ap, ◌∙◌, List, ◌++◌, none, some, Result, ok, err, Result-cases,
  Option-cases, sat_add32,
}
use cold_snap.Rng.{
  trng, se1, se2, SourceFault, RngFault, fault_of, Sources, Chacha, Entropy, transcript,
  mix_checked_draws, mixed, draw, booted, boot, reseeded, reseed_from, try_reseed, mix_domain,
}
use cold_snap.Rng.Health.{IsHealthy}
use cold_snap.Rng.Mix.{mix_checked_draws-ok}

module _ (sha256 : List ℕ → List ℕ) where
  module _ {D R : Type 0} (src : Sources D) (chacha : Chacha R) where
    -- Three reads in order, each healthy, and their mix.
    pub record IsDrawn (d : D) (seed : List ℕ) (end' : D) : Type 0 where
      pub a : List ℕ
      pub b : List ℕ
      pub c : List ℕ
      pub d1 : D
      pub d2 : D
      pub first : src.read_trng d ≡ (ok a, d1)
      pub second : src.read_se1 d1 ≡ (ok b, d2)
      pub third : src.read_se2 d2 ≡ (ok c, end')
      pub healthy_trng : IsHealthy a 32
      pub healthy_se1 : IsHealthy b 32
      pub healthy_se2 : IsHealthy c 8
      pub mix : seed ≡ sha256 (transcript sha256 a b c)

    full : {A E : Type 0} (r : Result A E × D) (x : Result A E) → r.0 ≡ x → r ≡ (x, r.1)
    full r x e = ap (λ y. (y, r.1)) e

    trng_fails :
        (d d1 : D) (f : SourceFault)
        → src.read_trng d ≡ (err f, d1)
        → (draw sha256 src chacha d).0 ≡ err (fault_of trng f)
    unfolding draw
    trng_fails d d1 f e = rw e refl

    se1_fails :
        (d d1 d2 : D) (a : List ℕ) (f : SourceFault)
        → src.read_trng d ≡ (ok a, d1)
        → src.read_se1 d1 ≡ (err f, d2)
        → (draw sha256 src chacha d).0 ≡ err (fault_of se1 f)
    unfolding draw
    se1_fails d d1 d2 a f p e = rw p (rw e refl)

    se2_fails :
        (d d1 d2 d3 : D) (a b : List ℕ) (f : SourceFault)
        → src.read_trng d ≡ (ok a, d1)
        → src.read_se1 d1 ≡ (ok b, d2)
        → src.read_se2 d2 ≡ (err f, d3)
        → (draw sha256 src chacha d).0 ≡ err (fault_of se2 f)
    unfolding draw
    se2_fails d d1 d2 d3 a b f p q e = rw p (rw q (rw e refl))

    all_read :
        (d d1 d2 d3 : D) (a b c : List ℕ)
        → src.read_trng d ≡ (ok a, d1)
        → src.read_se1 d1 ≡ (ok b, d2)
        → src.read_se2 d2 ≡ (ok c, d3)
        → draw sha256 src chacha d ≡ (mix_checked_draws sha256 a b c, d3)
    unfolding draw mixed
    all_read d d1 d2 d3 a b c p q r = rw p (rw q (rw r refl))

    draw-IsDrawn :
        (d : D) (seed : List ℕ)
        → (draw sha256 src chacha d).0 ≡ ok seed
        → IsDrawn d seed (draw sha256 src chacha d).1
    draw-IsDrawn d seed h =
        let d1 = (src.read_trng d).1 in
        let d2 = (src.read_se1 d1).1 in
        let d3 = (src.read_se2 d2).1 in
        elim (Result-cases (src.read_trng d).0) [
          | inr (f, e) ↦ absurd (cc (trng_fails d d1 f (full (src.read_trng d) (err f) e), h))
          | inl (a, p) ↦
              let p' = full (src.read_trng d) (ok a) p in
              elim (Result-cases (src.read_se1 d1).0) [
                | inr (f, e) ↦
                    absurd (cc (se1_fails d d1 d2 a f p' (full (src.read_se1 d1) (err f) e), h))
                | inl (b, q) ↦
                    let q' = full (src.read_se1 d1) (ok b) q in
                    elim (Result-cases (src.read_se2 d2).0) [
                      | inr (f, e) ↦ absurd (
                          cc (
                            se2_fails d d1 d2 d3 a b f p' q' (full (src.read_se2 d2) (err f) e),
                            h,
                          ))
                      | inl (c, r) ↦
                          let r' = full (src.read_se2 d2) (ok c) r in
                          let run = all_read d d1 d2 d3 a b c p' q' r' in
                          let (ha, hb, hc, mix) =
                            mix_checked_draws-ok sha256 a b c seed (sym (ap (λ x. x.0) run) ∙ h) in
                          record {
                            a = a;
                            b = b;
                            c = c;
                            d1 = d1;
                            d2 = d2;
                            first = p';
                            second = q';
                            third = r' ∙ ap (λ x. (ok c, x)) (sym (ap (λ x. x.1) run));
                            healthy_trng = ha;
                            healthy_se1 = hb;
                            healthy_se2 = hc;
                            mix = mix;
                          }
                    ]
              ]
        ]

    -- A generator that boots was seeded with the mix of three healthy draws, one of each source in order,
    -- and owns the sources.
    pub boot-IsDrawn :
        (d : D) (e : Entropy R D)
        → boot sha256 src chacha d ≡ ok e
        → (seed : List ℕ) × (d' : D) × IsDrawn d seed d'
          × (e.rng ≡ chacha.from_seed seed)
          × (e.reseeds ≡ 0)
          × (e.sources ≡ some d')
    unfolding boot booted
    boot-IsDrawn d e h = elim (Result-cases (draw sha256 src chacha d).0) [
      | inr (f, p) ↦
          let refused : boot sha256 src chacha d ≡ err f = rw (p, booted) refl in
          absurd (cc (refused, h))
      | inl (seed, p) ↦
          let d' = (draw sha256 src chacha d).1 in
          let made : Entropy R D = record {
            rng = chacha.from_seed seed;
            reseeds = 0;
            sources = some d';
          } in
          let run : boot sha256 src chacha d ≡ ok made = rw (p, booted) refl in
          let same : e ≡ made = cc (run, h) in
          (
            seed,
            d',
            draw-IsDrawn d seed p,
            ap (λ (x : Entropy R D). x.rng) same,
            ap (λ (x : Entropy R D). x.reseeds) same,
            ap (λ (x : Entropy R D). x.sources) same,
          )
    ]

    no_sources :
        (e : Entropy R D)
        → e.sources ≡ none
        → try_reseed sha256 src chacha e ≡ (err (fault_of trng SourceFault.no_sources), e)
    unfolding try_reseed reseed_from
    no_sources e h = ap (λ o. reseed_from sha256 src chacha o e) h

    failed :
        (e : Entropy R D) (d : D) (f : RngFault)
        → e.sources ≡ some d
        → (draw sha256 src chacha d).0 ≡ err f
        → try_reseed sha256 src chacha e
          ≡ (err f, record e { sources = some (draw sha256 src chacha d).1 })
    unfolding try_reseed reseed_from reseeded
    failed e d f h p =
        ap (λ o. reseed_from sha256 src chacha o e) h
        ∙ ap (λ r. reseeded sha256 src chacha r e) (full (draw sha256 src chacha d) (err f) p)

    renewed :
        (e : Entropy R D) (d : D) (fresh : List ℕ)
        → e.sources ≡ some d
        → (draw sha256 src chacha d).0 ≡ ok fresh
        → try_reseed sha256 src chacha e ≡ (
          ok tt,
          record {
            rng =
                chacha.from_seed (sha256 (mix_domain ++ ((chacha.fill_bytes 32 e.rng).0 ++ fresh)));
            reseeds = sat_add32 e.reseeds 1;
            sources = some (draw sha256 src chacha d).1;
          },
        )
    unfolding try_reseed reseed_from reseeded
    renewed e d fresh h p =
        ap (λ o. reseed_from sha256 src chacha o e) h
        ∙ ap (λ r. reseeded sha256 src chacha r e) (full (draw sha256 src chacha d) (ok fresh) p)

    -- A reseed either fails and leaves the generator and its count as they were, or took three healthy
    -- draws, after which the new seed is of the old output and of their mix, and the count is one more,
    -- up to its limit.
    pub try_reseed_lem :
        (e : Entropy R D)
        → ((f : RngFault) × ((try_reseed sha256 src chacha e).0 ≡ err f)
            × ((try_reseed sha256 src chacha e).1.rng ≡ e.rng)
            × ((try_reseed sha256 src chacha e).1.reseeds ≡ e.reseeds))
          ⊎ ((d : D) × (fresh : List ℕ) × (d' : D) × (e.sources ≡ some d)
              × IsDrawn d fresh d'
              × (try_reseed sha256 src chacha e ≡ (
                ok tt,
                record {
                  rng =
                      chacha.from_seed
                        (sha256 (mix_domain ++ ((chacha.fill_bytes 32 e.rng).0 ++ fresh)));
                  reseeds = sat_add32 e.reseeds 1;
                  sources = some d';
                },
              )))
    try_reseed_lem e = elim (Option-cases e.sources) [
      | inl none_left ↦ rw (no_sources e none_left) (inl (_, refl, refl, refl))
      | inr (d, owned) ↦ elim (Result-cases (draw sha256 src chacha d).0) [
        | inr (f, p) ↦ rw (failed e d f owned p) (inl (f, refl, refl, refl))
        | inl (fresh, p) ↦ inr (
          d,
          fresh,
          (draw sha256 src chacha d).1,
          owned,
          draw-IsDrawn d fresh p,
          renewed e d fresh owned p,
        )
      ]
    ]
