-- ===== src/Upgrade/Safety.antt =====
-- firmware/src/upgrade.rs: what a staged image is, over any memory and after any calls.
use cold_snap.Prelude.{
  map, ℕ, ◌%◌, ◌≡◌, inl, inr, refl, sym, ap, ap₂, subst, List, [], ◌∷◌, Result, ok, err, arith,
  length, ltb, ◌==◌, false, not, Result-cases, leb, u32_mod, sat_add32, ◌&&◌,
}
use cold_snap.Prelude.Exec.{continue, if_keeps, continue_keeps, Ends}
use cold_snap.Psram.{PsramOps, PsramError, readback_selftest}
use cold_snap.Psram.Burn.{IsBurnable}
use cold_snap.Firmware.{signed_range}
use cold_snap.Upgrade.{
  Stager, State, idle, prepared, streaming, staged, refused, Refuse, judge, UpgradeMessage,
  prepare_upgrade, feed_all, upload, prepare_upgrade2, enter_upgrade_mode, new, prepare,
  prepare_result, enter, admit, selftest, verify, settle, feed, feed_in, verify_in, enter_in,
  refuse, legacy,
}
use cold_snap.Upgrade.Judge.{judge_iff}
use cold_snap.Upgrade.Stream.{IsAdmissible}
use cold_snap.Upgrade.Steady.{InState, top_up-InState, spill-InState}

-- A call on the stager, and any history of them.
pub data Call : Type 0 where
  admits : UpgradeMessage → Call
  feeds : List ℕ → Call

-- The three tests of `PrepareUpgrade2`, passed.
bounds :
    (size : ℕ)
    → not (size % 512 == 0) ≡ false
    → ltb size 262144 ≡ false
    → ltb 1441792 size ≡ false
    → IsAdmissible size
bounds size a f c = record { aligned = ground arith; floor = ground arith; ceiling = ground arith }

module _ {P : Type 0} (ps : PsramOps P) (sha256 : List ℕ → List ℕ) where
  pub step : Stager P → Call → Stager P
  step s (admits m) = (admit ps m s).1
  step s (feeds bytes) = (feed ps sha256 bytes s).1

  pub run : Stager P → List Call → Stager P
  run s [] = s
  run s (c ∷ cs) = run (step s c) cs

  -- What a state says of the memory and the announced digest.
  abbrev Vetted : State → P → List ℕ → Type 0
  Vetted (prepared size) p announced = IsAdmissible size
  Vetted (streaming size received) p announced = IsAdmissible size
  Vetted (staged size) p announced =
      IsAdmissible size
      × ((view : List ℕ) × (ps.view p size ≡ ok view) × (judge sha256 announced size view ≡ ok tt))
  Vetted _ p announced = Unit {0}

  pub record IsVetted (s : Stager P) : Type 0 where
    vetted : Vetted s.state s.part s.expected

  refused-IsVetted :
      {A : Type 0} (why : Refuse) (s : Stager P) → Ends IsVetted (refuse {A = A} why s)
  refused-IsVetted why s = record { ends = record { vetted = tt } }

  prepare_result-IsVetted :
      (size : ℕ) (announced : List ℕ) (s : Stager P) (r : Result (Unit {0}) PsramError × P)
      → IsAdmissible size
      → Ends IsVetted (prepare_result size announced s r)
  prepare_result-IsVetted size announced s (ok _, p) fit = record { ends = record { vetted = fit } }
  prepare_result-IsVetted size announced s (err e, p) fit =
      refused-IsVetted (selftest e) (record s { part = p })

  -- No bound on the size is passed over.
  prepare-IsVetted :
      (size : ℕ) (announced : List ℕ) (s : Stager P) → Ends IsVetted (prepare ps size announced s)
  unfolding prepare
  prepare-IsVetted size announced s0 =
      let s : Stager P = record s0 { state = idle; written = 0; carry_len = 0 } in
      if_keeps IsVetted _ _ _ (λ _. refused-IsVetted _ s)
        λ a.
          if_keeps IsVetted _ _ _ (λ _. refused-IsVetted _ s)
            λ f.
              if_keeps IsVetted _ _ _ (λ _. refused-IsVetted _ s)
                λ c.
                  prepare_result-IsVetted size announced s (readback_selftest ps 0 size s.part)
                    (bounds size a f c)

  enter-IsVetted : (s : Stager P) → IsVetted s → Ends IsVetted (enter ps s)
  unfolding enter
  enter-IsVetted s v = go s.state v.vetted
    where
      go : (st : State) → Vetted st s.part s.expected → Ends IsVetted (enter_in ps st s)
      go (prepared size) fit = record { ends = record { vetted = fit } }
      go (streaming size received) _ = refused-IsVetted _ s
      go (staged size) _ = refused-IsVetted _ s
      go idle _ = refused-IsVetted _ s
      go (refused why) _ = refused-IsVetted _ s

  -- The verdict stages only what the memory reads back and the judgement accepts.
  verify-IsVetted :
      (s : Stager P) (size received : ℕ)
      → s.state ≡ streaming size received
      → IsAdmissible size
      → Ends IsVetted (verify ps sha256 s)
  unfolding verify
  verify-IsVetted s size received st fit =
      subst (λ state. Ends IsVetted (verify_in ps sha256 state s)) (sym st)
        (elim (Result-cases (ps.view s.part size)) [
          | inr (e, v) ↦ rw (v, verify_in) (refused-IsVetted _ s)
          | inl (view, v) ↦ elim (Result-cases (judge sha256 s.expected size view)) [
            | inr (why, j) ↦ rw (v, verify_in) (rw j (refused-IsVetted why s))
            | inl (u, j) ↦
                rw (v, verify_in) (rw j (record { ends = record { vetted = (fit, (view, v, j)) } }))
          ]
        ])

  settle-IsVetted :
      (s : Stager P) (size before received : ℕ)
      → IsAdmissible size
      → Ends IsVetted (settle ps sha256 size before received s)
  unfolding settle
  settle-IsVetted s size before received fit =
      if_keeps IsVetted (received == size) _ _
        (λ _.
          continue_keeps IsVetted IsVetted _ _
            (verify-IsVetted (record s { state = streaming size received }) size received refl fit)
            (λ t h. h) (λ _ t h. record { ends = h }))
        (λ _. record { ends = record { vetted = fit } })

  in_stream :
      (size received : ℕ) (t : Stager P)
      → InState ps (streaming size received) t
      → IsAdmissible size
      → IsVetted t
  in_stream size received t h fit = record {
    vetted = subst (λ state. Vetted state t.part t.expected) (sym h.here) fit;
  }

  feed-IsVetted :
      (bytes : List ℕ) (s : Stager P) → IsVetted s → Ends IsVetted (feed ps sha256 bytes s)
  unfolding feed
  feed-IsVetted bytes s v = go s.state (record { here = refl }) v.vetted
    where
      go :
          (st : State)
          → InState ps st s
          → Vetted st s.part s.expected
          → Ends IsVetted (feed_in ps sha256 st bytes s)
      go (streaming size received) h fit =
          if_keeps IsVetted
            (ltb (length bytes) u32_mod && leb (sat_add32 received (length bytes)) size) _ _
            (λ _.
              continue_keeps (InState ps (streaming size received)) IsVetted _ _
                (top_up-InState ps bytes s (streaming size received) h)
                (λ t k. in_stream size received t k fit)
                (λ rest t k.
                  continue_keeps (InState ps (streaming size received)) IsVetted _ _
                    (spill-InState ps rest t (streaming size received) k)
                    (λ u k'. in_stream size received u k' fit)
                    (λ _ u k'. settle-IsVetted u size received _ fit)))
            (λ _. refused-IsVetted _ s)
      go (prepared size) h _ = refused-IsVetted _ s
      go (staged size) h _ = refused-IsVetted _ s
      go idle h _ = refused-IsVetted _ s
      go (refused why) h _ = refused-IsVetted _ s

  step-IsVetted : (s : Stager P) (c : Call) → IsVetted s → IsVetted (step s c)
  unfolding step admit
  step-IsVetted s (admits (prepare_upgrade size announced)) v =
      (refused-IsVetted {A = Unit {0}} legacy s).ends
  step-IsVetted s (admits (prepare_upgrade2 size announced)) v =
      (prepare-IsVetted size announced s).ends
  step-IsVetted s (admits enter_upgrade_mode) v = (enter-IsVetted s v).ends
  step-IsVetted s (feeds bytes) v = (feed-IsVetted bytes s v).ends

  run-IsVetted : (s : Stager P) (cs : List Call) → IsVetted s → IsVetted (run s cs)
  unfolding run
  run-IsVetted s [] v = v
  run-IsVetted s (c ∷ cs) v = run-IsVetted (step s c) cs (step-IsVetted s c v)

  -- Over any memory, after any messages and bytes in any order: if the stager says that `size`
  -- bytes are staged, then `size` is a multiple of 512 within the bounds, and what the memory reads
  -- back is an image that the burn gate accepts at `size`, whose signed range has the digest that
  -- was announced last.
  pub run-staged :
      (p : P) (cs : List Call) (size : ℕ)
      → (run (new p) cs).state ≡ staged size
      → IsAdmissible size
        × ((view : List ℕ) × (ps.view (run (new p) cs).part size ≡ ok view)
            × IsBurnable view size
            × (sha256 (signed_range view size) ≡ (run (new p) cs).expected))
  run-staged p cs size st =
      let s = run (new p) cs in
      let vetted = run-IsVetted (new p) cs (unfold new in record { vetted = tt }) in
      let (fit, (view, shown, yes_)) =
        subst (λ state. Vetted state s.part s.expected) st vetted.vetted in
      let (burnable, same) =
        (judge_iff sha256 s.expected size view (omega (arith, fit.aligned))).0 yes_ in
      (fit, (view, shown, burnable, same))

  -- What a chain of calls that ends well went through.
  through :
      {A B : Type 0} (m : Result A Refuse × Stager P)
      (f : A → Stager P → Result B Refuse × Stager P) (b : B) (t : Stager P)
      → continue m f ≡ (ok b, t)
      → (a : A) × (m.0 ≡ ok a) × (f a m.1 ≡ (ok b, t))
  through (ok a, s) f b t h = (a, refl, h)
  through (err e, s) f b t h = absurd (cc h)

  feed_all-run :
      (chunks : List (List ℕ)) (s : Stager P) (n : ℕ) (t : Stager P)
      → feed_all ps sha256 chunks s ≡ (ok n, t)
      → run s (map feeds chunks) ≡ t
  unfolding feed_all run step
  feed_all-run [] s n t h = ap (λ r. r.1) h
  feed_all-run (chunk ∷ chunks) s n t h =
      let (acks, _, rest) = through (feed ps sha256 chunk s) _ n t h in
      let (more, kept, last) =
        through (feed_all ps sha256 chunks (feed ps sha256 chunk s).1) _ n t rest in
      feed_all-run chunks (feed ps sha256 chunk s).1 more t
        (ap₂ (λ r u. (r, u)) kept (ap (λ r. r.1) last))

  -- An upgrade that goes through is the history of its calls.
  pub upload-run :
      (size : ℕ) (announced : List ℕ) (chunks : List (List ℕ)) (s : Stager P) (n : ℕ) (t : Stager P)
      → upload ps sha256 size announced chunks s ≡ (ok n, t)
      → run s
          (admits (prepare_upgrade2 size announced) ∷ admits enter_upgrade_mode ∷ map feeds chunks)
        ≡ t
  unfolding upload run step
  upload-run size announced chunks s n t h =
      let entered = admit ps enter_upgrade_mode (admit ps (prepare_upgrade2 size announced) s).1 in
      let (_, _, rest) = through (admit ps (prepare_upgrade2 size announced) s) _ n t h in
      let (_, _, fed) = through entered (λ _. feed_all ps sha256 chunks) n t rest in
      feed_all-run chunks entered.1 n t fed
