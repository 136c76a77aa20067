-- ===== src/Protocol/Steps.antt =====
-- firmware/src/lib.rs: what each method of `Session` makes of the grants.
use cold_snap.Prelude.{
  ℕ, ◌≡◌, ◌⊎◌, inl, inr, refl, sym, ap, ◌∙◌, Bool, true, false, Option, none, some, Result, ok, err,
  Bool-cases,
}
use cold_snap.Prelude.Exec.{continue}
use cold_snap.Reveal.{
  grant, grant_from, backup_pages, show_backup, show_granted, show_pages, after_render, render,
  backup_recorded, recorded_if,
}
use cold_snap.Messages.{backup_checked, told_recorded, typed_ended, checked_ended}
use cold_snap.Protocol.{
  Fault, Checking, Session, Parts, push_reply, run, prompt_screen_at, confirm_at,
}
use cold_snap.Protocol.Keys.{entry_taken, entry_from, entry_key, quiz_taken, quiz_of, quiz_key}
use cold_snap.Protocol.Calls.{Call, received, answered, typed, chosen, turned, recorded, call}
use cold_snap.Wordentry.{unchanged, redraw, abort, entered}
use cold_snap.Quiz.{passed, quiz_positions}
use cold_snap.Protocol.Granted.{recv-AreSteps, shown-AreSteps}
use cold_snap.Protocol.Grants.{AreSteps, grants, live, asked_of, run-grants}

module _ {X Mu Ph S F En Qz E C O : Type 0} (parts : Parts X Mu Ph S F En Qz E C O) where
  abbrev State : Type 0
  State = Session Ph S F En Qz × O

  state_lem :
      {A B : Type 0} (m : Result A (Fault E C) × State) (f : A → B)
      → (continue m (λ a st. (ok (f a), st))).1 ≡ m.1
  state_lem (ok a, st) f = refl
  state_lem (err e, st) f = refl

  -- An entry that is dropped, with the other grants as they were.
  dropped-AreSteps :
      (key : ℕ) (s s' : Session Ph S F En Qz)
      → grants parts s' ≡ (s.backup, (none, s.check))
      → AreSteps parts (typed key) s s'
  dropped-AreSteps key s s' e = (
    inr (inl (refl, ap (λ g. g.0.granted) e)),
    (inl (ap (λ g. live parts g.1.0) e), inr (inl (refl, ap (λ g. asked_of parts g.1.1) e))),
  )

  taken-AreSteps :
      (key : ℕ) (step : cold_snap.Wordentry.Step X × En) (entry : En) (s : Session Ph S F En Qz)
      (out : O)
      → s.entry ≡ some entry
      → AreSteps parts (typed key) s (entry_taken parts step (record s { entry = none }, out)).1.0
  unfolding entry_taken
  taken-AreSteps key (unchanged, e) entry s out h =
      (inr (inl (refl, refl)), (inr (inl (refl, sym (ap (live parts) h))), inr (inl (refl, refl))))
  taken-AreSteps key (redraw, e) entry s out h =
      (inr (inl (refl, refl)), (inr (inl (refl, sym (ap (live parts) h))), inr (inl (refl, refl))))
  taken-AreSteps key (abort, e) entry s out h =
      dropped-AreSteps key s (record s { entry = none }) refl
  taken-AreSteps key (entered backup, e) entry s out h =
      let (sends, signer) = parts.tell_load_result e backup s.signer in
      let s' = record s { entry = none; signer = signer } in
      let r = run parts sends (s', out) in
      dropped-AreSteps key s (continue r (λ prompts st. (ok (typed_ended prompts), st))).1.0
        (ap (λ st. grants parts st.0) (state_lem r typed_ended) ∙ run-grants parts sends s' out)

  typed-AreSteps :
      (key : ℕ) (entry : Option En) (s : Session Ph S F En Qz) (out : O)
      → s.entry ≡ entry
      → AreSteps parts
          (typed key)
          s
          (entry_from parts key entry (record s { entry = none }, out)).1.0
  unfolding entry_from
  typed-AreSteps key none s out h = dropped-AreSteps key s (record s { entry = none }) refl
  typed-AreSteps key (some entry) s out h =
      taken-AreSteps key (parts.entry_key key entry) entry s out h

  -- A quiz that is dropped, with the other grants as they were.
  over-AreSteps :
      (key : ℕ) (s s' : Session Ph S F En Qz)
      → grants parts s' ≡ (s.backup, (s.entry, none))
      → AreSteps parts (chosen key) s s'
  over-AreSteps key s s' e = (
    inr (inl (refl, ap (λ g. g.0.granted) e)),
    (inr (inl (refl, ap (λ g. live parts g.1.0) e)), inl (ap (λ g. asked_of parts g.1.1) e)),
  )

  quiz_taken-AreSteps :
      (key : ℕ) (check : Checking Qz Ph) (step : cold_snap.Quiz.Step × Qz × S)
      (s : Session Ph S F En Qz) (out : O)
      → s.check ≡ some check
      → AreSteps parts
          (chosen key)
          s
          (quiz_taken parts check.asked step (record s { check = none }, out)).1.0
  unfolding quiz_taken push_reply
  quiz_taken-AreSteps key check (cold_snap.Quiz.Step.unchanged, quiz, signer) s out h = (
    inr (inl (refl, refl)),
    (inr (inl (refl, refl)), inr (inl (refl, sym (ap (asked_of parts) h)))),
  )
  quiz_taken-AreSteps key check (cold_snap.Quiz.Step.redraw, quiz, signer) s out h = (
    inr (inl (refl, refl)),
    (inr (inl (refl, refl)), inr (inl (refl, sym (ap (asked_of parts) h)))),
  )
  quiz_taken-AreSteps key check (cold_snap.Quiz.Step.abort, quiz, signer) s out h =
      over-AreSteps key s (record s { signer = signer; check = none }) refl
  quiz_taken-AreSteps key check (passed, quiz, signer) s out h =
      let m =
        push_reply parts (backup_checked check.asked)
          (record s { signer = signer; check = none }, out) in
      over-AreSteps key s (continue m (λ _ st. (ok (checked_ended (some quiz_positions)), st))).1.0
        (ap (λ st. grants parts st.0) (state_lem m (λ _. checked_ended (some quiz_positions))))

  chosen-AreSteps :
      (key : ℕ) (check : Option (Checking Qz Ph)) (s : Session Ph S F En Qz) (out : O)
      → s.check ≡ check
      → AreSteps parts (chosen key) s (quiz_of parts key check (record s { check = none }, out)).1.0
  unfolding quiz_of
  chosen-AreSteps key none s out h = over-AreSteps key s (record s { check = none }) refl
  chosen-AreSteps key (some check) s out h =
      quiz_taken-AreSteps key check (parts.quiz_key key check.quiz s.signer) s out h

  -- A page of a reveal drops the grant or leaves it.
  pages-granted :
      (n : ℕ) (phase : Ph)
      (pages : Result cold_snap.Reveal.BackupPages (cold_snap.Reveal.Fault E C))
      → (b : cold_snap.Reveal.Session Ph)
      → ((show_pages n phase pages (record b { granted = none })).1.granted ≡ none)
        ⊎ ((show_pages n phase pages (record b { granted = none })).1.granted ≡ some phase)
  unfolding show_pages after_render
  pages-granted n phase (err f) b = inl refl
  pages-granted n phase (ok pages) b = elim (Bool-cases (render pages n)) [
    | inl drawn ↦ inr (rw drawn refl)
    | inr over ↦ inl (rw over refl)
  ]

  turned-granted :
      (n : ℕ) (o : Option Ph) (b : cold_snap.Reveal.Session Ph)
      → b.granted ≡ o
      → ((show_granted {C = C} parts.decrypt parts.share_index n o
            (record b { granted = none })).1.granted
          ≡ none)
        ⊎ ((show_granted {C = C} parts.decrypt parts.share_index n o
              (record b { granted = none })).1.granted
            ≡ b.granted)
  unfolding show_granted
  turned-granted n none b h = inl refl
  turned-granted n (some phase) b h =
      elim (pages-granted n phase (backup_pages parts.decrypt parts.share_index phase) b) [
        | inl gone ↦ inl gone
        | inr same ↦ inr (same ∙ sym h)
      ]

  recorded-granted :
      (push : O → Result (Unit {0}) C × O) (pending : Bool) (b : cold_snap.Reveal.Session Ph)
      (out : O)
      → (recorded_if {A = E} push pending (b, out)).1.0.granted ≡ b.granted
  unfolding recorded_if
  recorded-granted push true b out = refl
  recorded-granted push false b out = refl

  pub call-AreSteps : (c : Call X Ph) (st : State) → AreSteps parts c st.0 (call parts c st).0
  unfolding call confirm_at entry_key quiz_key show_backup backup_recorded
  call-AreSteps (received body) (s, out) = recv-AreSteps parts body s out
  call-AreSteps (answered prompt page) (s, out) =
      shown-AreSteps parts prompt page (prompt_screen_at parts prompt page)
        (record s { signer = (parts.next_u32 s.signer).1 }) out refl
  call-AreSteps (typed key) (s, out) = typed-AreSteps key s.entry s out refl
  call-AreSteps (chosen key) (s, out) = chosen-AreSteps key s.check s out refl
  call-AreSteps (turned page) (s, out) = elim (turned-granted page s.backup.granted s.backup refl) [
    | inl gone ↦ (inl gone, (inr (inl (refl, refl)), inr (inl (refl, refl))))
    | inr same ↦ (inr (inl (refl, same)), (inr (inl (refl, refl)), inr (inl (refl, refl))))
  ]
  call-AreSteps recorded (s, out) = (
    inr (
        inl (
          refl,
          recorded-granted (λ o. parts.push told_recorded o) s.backup.record_pending
              (record s.backup { record_pending = false }) out,
        )),
    (inr (inl (refl, refl)), inr (inl (refl, refl))),
  )
