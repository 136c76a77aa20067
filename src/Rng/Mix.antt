-- ===== src/Rng/Mix.antt =====
-- hal/src/rng.rs, `mix_checked_draws`: what is hashed, and what is checked before.
use cold_snap.Prelude.{
  ℕ, ◌≡◌, inl, inr, refl, sym, ap, ◌∙◌, List, ◌∷◌, ◌++◌, ok, length, take, drop, arith,
  Result-cases, take-append, drop-append,
}
use cold_snap.Rng.{check_source, transcript, mix_checked_draws}
use cold_snap.Rng.Health.{IsHealthy, check_source_iff}

-- A list behind its length is told apart from any other.
framed : (a b xs ys : List ℕ) → (length a ∷ a) ++ xs ≡ (length b ∷ b) ++ ys → (a ≡ b) × (xs ≡ ys)
framed a b xs ys e =
    let n : length a ≡ length b = cc e in
    let rest : a ++ xs ≡ b ++ ys = cc e in
    (
      sym (take-append (length a) a xs refl)
          ∙ ap (take (length a)) rest
          ∙ take-append (length a) b ys n,
      sym (drop-append (length a) a xs refl)
          ∙ ap (drop (length a)) rest
          ∙ drop-append (length a) b ys n,
    )

module _ (sha256 : List ℕ → List ℕ) where
  -- What is hashed for three draws tells the draws apart, whatever their lengths.
  transcript-injective :
      (a b c x y z : List ℕ)
      → transcript sha256 a b c ≡ transcript sha256 x y z
      → (a ≡ x) × (b ≡ y) × (c ≡ z)
  unfolding transcript
  transcript-injective a b c x y z e =
      let inside : (length a ∷ a) ++ ((length b ∷ b) ++ (length c ∷ c))
          ≡ (length x ∷ x) ++ ((length y ∷ y) ++ (length z ∷ z)) =
        ap (drop 20) e in
      let one =
        framed a x ((length b ∷ b) ++ (length c ∷ c)) ((length y ∷ y) ++ (length z ∷ z)) inside in
      let two = framed b y (length c ∷ c) (length z ∷ z) one.1 in (one.0, two.0, cc (two.1))

  pub mix_checked_draws-ok :
      (a b c seed : List ℕ)
      → mix_checked_draws sha256 a b c ≡ ok seed
      → IsHealthy a 32 × IsHealthy b 32 × IsHealthy c 8 × (seed ≡ sha256 (transcript sha256 a b c))
  unfolding mix_checked_draws
  mix_checked_draws-ok a b c seed h = elim (Result-cases (check_source a 32)) [
    | inr (f, e) ↦ absurd (ground (arith, e, h))
    | inl (u, p) ↦ elim (Result-cases (check_source b 32)) [
      | inr (f, e) ↦ absurd (ground (arith, p, e, h))
      | inl (v, q) ↦ elim (Result-cases (check_source c 8)) [
        | inr (f, e) ↦ absurd (ground (arith, p, q, e, h))
        | inl (w, r) ↦ (
          (check_source_iff a 32).0 p,
          (check_source_iff b 32).0 q,
          (check_source_iff c 8).0 r,
          ground (arith, p, q, r, h),
        )
      ]
    ]
  ]
