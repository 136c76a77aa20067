-- ===== src/Upgrade/Steady.antt =====
-- firmware/src/upgrade.rs: the steps of `feed` before its verdict leave the state of the stager alone.
use cold_snap.Prelude.{
  ℕ, ◌-◌, ◌%◌, ◌≡◌, List, [], ◌∷◌, Result, ok, err, length, take, drop, ltb, ◌==◌,
}
use cold_snap.Prelude.Exec.{if_keeps, continue_keeps, Ends}
use cold_snap.Psram.{PsramOps, PsramError}
use cold_snap.Upgrade.{Stager, State, put, put_result, flush, clear_carry, keep_tail, top_up, spill}

module _ {P : Type 0} (ps : PsramOps P) where
  pub record InState (state : State) (s : Stager P) : Type 0 where
    pub here : s.state ≡ state

  -- The steps of `feed` before its verdict leave the state alone, also where the memory refuses.
  put-InState :
      (w : List ℕ) (s : Stager P) (st : State) → InState st s → Ends (InState st) (put ps w s)
  unfolding put
  put-InState w s st h = go (ps.write _ w s.part)
    where
      go : (r : Result (Unit {0}) PsramError × P) → Ends (InState st) (put_result (length w) s r)
      go (ok _, p) = record { ends = record { here = h.here } }
      go (err e, p) = record { ends = record { here = h.here } }

  clear_carry-InState :
      (rest : List ℕ) (s : Stager P) (st : State)
      → InState st s
      → Ends (InState st) (clear_carry ps rest s)
  unfolding clear_carry
  clear_carry-InState rest s st h = record { ends = record { here = h.here } }

  flush-InState :
      (rest : List ℕ) (s : Stager P) (st : State)
      → InState st s
      → Ends (InState st) (flush ps rest s)
  unfolding flush
  flush-InState rest s st h =
      if_keeps (InState st) (s.carry_len == 4) _ _
        (λ _.
          continue_keeps (InState st) (InState st) (put ps s.carry s) (λ _. clear_carry ps rest)
            (put-InState s.carry s st h) (λ t k. k) (λ _ t k. clear_carry-InState rest t st k))
        (λ _. record { ends = h })

  pub top_up-InState :
      (bytes : List ℕ) (s : Stager P) (st : State)
      → InState st s
      → Ends (InState st) (top_up ps bytes s)
  unfolding top_up
  top_up-InState bytes s st h =
      if_keeps (InState st) (ltb 0 s.carry_len) _ _
        (λ _. flush-InState _ _ st (record { here = h.here })) (λ _. record { ends = h })

  keep_tail-InState :
      (tail : List ℕ) (s : Stager P) (st : State)
      → InState st s
      → Ends (InState st) (keep_tail ps tail s)
  unfolding keep_tail
  keep_tail-InState tail s st h = record { ends = record { here = h.here } }

  pub spill-InState :
      (bytes : List ℕ) (s : Stager P) (st : State)
      → InState st s
      → Ends (InState st) (spill ps bytes s)
  unfolding spill
  spill-InState [] s st h = record { ends = h }
  spill-InState (b ∷ bs) s st h =
      let rest = b ∷ bs in
      let whole = length rest - length rest % 4 in
      if_keeps (InState st) (ltb 0 whole) _ _
        (λ _.
          continue_keeps (InState st) (InState st) (put ps (take whole rest) s)
            (λ _. keep_tail ps (drop whole rest)) (put-InState (take whole rest) s st h) (λ t k. k)
            (λ _ t k. keep_tail-InState (drop whole rest) t st k))
        (λ _. keep_tail-InState (drop whole rest) s st h)
