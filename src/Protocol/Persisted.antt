-- ===== src/Protocol/Persisted.antt =====
-- firmware/src/lib.rs, `Session::run`: what is staged is stored before anything is told.
use cold_snap.Prelude.{
  ℕ, ◌≡◌, ◌≢◌, ◌⊎◌, inl, inr, refl, ap, ◌∙◌, true, false, List, [], Option, none, some, Result, ok,
  err,
}
use cold_snap.Prelude.Exec.{continue, map_err}
use cold_snap.Store.{StoreFault}
use cold_snap.Reveal.{grant}
use cold_snap.Wordentry.{Step, unchanged, redraw, abort, entered}
use cold_snap.Protocol.Loop.{work_loop-view}
use cold_snap.Protocol.Dispatch.{run_result-Holds, recv_core-Holds}
use cold_snap.Messages.{
  Refusal, display_backup, verify_address, SendBody, core_message, preview, name_prompt, upgrade,
  challenge, announce_ack, cancel, erase_data, check_backup, enter_backup, consolidate_backup,
  backup_saved, UserMessage, nonce_jobs, finalize_keygen, check_keygen, signature_request,
  restoration, DeviceSend, Shown, nothing, info, page_shown, typed_ended,
}
use cold_snap.Protocol.{
  Fault, action, store, Session, Parts, work_loop, persist, run, recv, prompt_screen_at,
  quiz_granted, quiz_from, reveal_granted, confirmed, confirm_shown, confirm_at,
}
use cold_snap.Protocol.Keys.{entry_taken, entry_from, entry_key}
use cold_snap.Protocol.Calls.{Call, received, answered, typed, chosen, turned, recorded, call}

-- The queue of staged mutations keeps what it is set to, and a save that is ok leaves it empty.
pub record PartsLaws {X Mu Ph S F En Qz E C O : Type 0} (parts : Parts X Mu Ph S F En Qz E C O)
    : Type 0 where
  pub staged_lem :
      (staged : List Mu) (signer : S)
      → parts.staged_mutations (parts.set_staged staged signer) ≡ staged
  pub drained :
      (staged staged' : List Mu) (f f' : F)
      → parts.persist_staged (staged, f) ≡ (ok tt, (staged', f'))
      → staged' ≡ []

module _ {X Mu Ph S F En Qz E C O : Type 0} (parts : Parts X Mu Ph S F En Qz E C O) where
  abbrev State : Type 0
  State = Session Ph S F En Qz × O

  work_loop-signer :
      (work : List (DeviceSend X Ph)) (prompts : List (UserMessage X Ph)) (st : State)
      → (work_loop parts work prompts st).1.0.signer ≡ st.0.signer
  work_loop-signer =
      work_loop-view parts (λ s. s.signer) (λ s batch. refl) (λ s name. refl) (λ s name. refl)

  -- Nothing was told, or nothing is staged.
  abbrev IsSaved : O → State → Type 0
  IsSaved out (s, out') = (out' ≡ out) ⊎ (parts.staged_mutations s.signer ≡ [])

  abbrev IsSafe : {A : Type 0} → O → Result A (Fault E C) × State → Type 0
  IsSafe out (r, st) = IsSaved out st

  run_from :
      PartsLaws parts
      → (sends : List (DeviceSend X Ph)) (s : Session Ph S F En Qz) (out : O)
        (r : Result (Unit {0}) StoreFault) (staged : List Mu) (f : F)
      → parts.persist_staged (parts.staged_mutations s.signer, s.flash) ≡ (r, (staged, f))
      → IsSafe out (
          continue
            (
              map_err store r,
              (record s { signer = parts.set_staged staged s.signer; flash = f }, out),
            )
            (λ _. work_loop parts sends []))
  run_from laws sends s out (ok u) staged f e =
      let s' = record s { signer = parts.set_staged staged s.signer; flash = f } in
      inr (
        ap parts.staged_mutations (work_loop-signer sends [] (s', out))
        ∙ laws.staged_lem staged s.signer
        ∙ laws.drained (parts.staged_mutations s.signer) staged s.flash f e)
  run_from laws sends s out (err e) staged f _ = inl refl

  run-IsSafe :
      PartsLaws parts
      → (sends : List (DeviceSend X Ph)) (s : Session Ph S F En Qz) (out : O)
      → IsSafe out (run parts sends (s, out))
  unfolding run persist
  run-IsSafe laws sends s out =
      let result = parts.persist_staged (parts.staged_mutations s.signer, s.flash) in
      run_from laws sends s out result.0 result.1.0 result.1.1 refl

  untold :
      (s : Session Ph S F En Qz) (out : O) (r : Result (List (UserMessage X Ph)) (Fault E C))
      (signer : S) (f : F)
      → IsSafe out (r, (record s { signer = signer; flash = f }, out))
  untold s out r signer f = inl refl

  recv-IsSafe :
      PartsLaws parts
      → (body : SendBody X) (s : Session Ph S F En Qz) (out : O)
      → IsSafe out (recv parts body (s, out))
  unfolding recv
  recv-IsSafe laws (core_message m) s out =
      recv_core-Holds parts s out (λ r. IsSafe out r) (untold s out)
        (λ sends signer f. run-IsSafe laws sends (record s { signer = signer; flash = f }) out) m
  recv-IsSafe laws (preview name) s out = inl refl
  recv-IsSafe laws (name_prompt m) s out = inl refl
  recv-IsSafe laws announce_ack s out = inl refl
  recv-IsSafe laws cancel s out = inl refl
  recv-IsSafe laws (upgrade m) s out = inl refl
  recv-IsSafe laws erase_data s out = inl refl
  recv-IsSafe laws (challenge m) s out = inl refl

  quiz_granted-IsSafe :
      (phase : Ph) (q : Option Qz × S) (s : Session Ph S F En Qz) (out : O)
      → IsSafe out (quiz_granted parts phase q (s, out))
  unfolding quiz_granted
  quiz_granted-IsSafe phase (none, signer) s out = inl refl
  quiz_granted-IsSafe phase (some quiz, signer) s out = inl refl

  quiz-IsSafe :
      (phase : Ph) (words : Result (List (List ℕ)) E) (s : Session Ph S F En Qz) (out : O)
      → IsSafe out (quiz_from parts phase words (s, out))
  unfolding quiz_from
  quiz-IsSafe phase (err e) s out = inl refl
  quiz-IsSafe phase (ok words) s out =
      quiz_granted-IsSafe phase (parts.new_quiz words s.signer) s out

  reveal-IsSafe :
      (r : Result (Unit {0}) (cold_snap.Reveal.Fault E C) × cold_snap.Reveal.Session Ph)
      → (s : Session Ph S F En Qz) (out : O) → IsSafe out (reveal_granted parts r (s, out))
  unfolding reveal_granted
  reveal-IsSafe (ok u, backup) s out = inl refl
  reveal-IsSafe (err f, backup) s out = inl refl

  confirmed-IsSafe :
      PartsLaws parts
      → (prompt : UserMessage X Ph) (s : Session Ph S F En Qz) (out : O)
      → IsSafe out (confirmed parts prompt (s, out))
  unfolding confirmed
  confirmed-IsSafe laws (check_keygen phase) s out =
      run_result-Holds parts s out (λ r. IsSafe out r) (untold s out)
        (λ sends signer f. run-IsSafe laws sends (record s { signer = signer; flash = f }) out)
        action (parts.keygen_ack phase (s.signer, s.flash))
  confirmed-IsSafe laws (signature_request phase) s out =
      run_result-Holds parts s out (λ r. IsSafe out r) (untold s out)
        (λ sends signer f. run-IsSafe laws sends (record s { signer = signer; flash = f }) out)
        action (parts.sign_ack phase (s.signer, s.flash))
  confirmed-IsSafe laws (restoration (display_backup phase)) s out =
      reveal-IsSafe (grant {C = C} parts.decrypt parts.share_index phase s.backup) s out
  confirmed-IsSafe laws (restoration (enter_backup phase)) s out = inl refl
  confirmed-IsSafe laws (restoration (consolidate_backup phase)) s out =
      let (sends, (signer, f)) = parts.finish_consolidation phase (s.signer, s.flash) in
      run-IsSafe laws sends (record s { signer = signer; flash = f }) out
  confirmed-IsSafe laws (restoration (check_backup phase)) s out =
      quiz-IsSafe phase (parts.decrypt phase) s out
  confirmed-IsSafe laws (restoration (backup_saved m)) s out = inl refl
  confirmed-IsSafe laws (finalize_keygen key_name) s out = inl refl
  confirmed-IsSafe laws (nonce_jobs batch) s out = inl refl
  confirmed-IsSafe laws (verify_address address) s out = inl refl

  shown-IsSafe :
      PartsLaws parts
      → (prompt : UserMessage X Ph) (shown : Result Shown Refusal) (s : Session Ph S F En Qz)
        (out : O)
      → IsSafe out (confirm_shown parts prompt shown (s, out))
  unfolding confirm_shown
  shown-IsSafe laws prompt (err why) s out = inl refl
  shown-IsSafe laws prompt (ok nothing) s out = inl refl
  shown-IsSafe laws prompt (ok info) s out = inl refl
  shown-IsSafe laws prompt (ok (page_shown false)) s out = inl refl
  shown-IsSafe laws prompt (ok (page_shown true)) s out = confirmed-IsSafe laws prompt s out

  entry-IsSafe :
      PartsLaws parts
      → (step : Step X × En) (s : Session Ph S F En Qz) (out : O)
      → IsSafe out (entry_taken parts step (s, out))
  unfolding entry_taken
  entry-IsSafe laws (unchanged, entry) s out = inl refl
  entry-IsSafe laws (redraw, entry) s out = inl refl
  entry-IsSafe laws (abort, entry) s out = inl refl
  entry-IsSafe laws (entered backup, entry) s out =
      let (sends, signer) = parts.tell_load_result entry backup s.signer in
      let s' = record s { signer = signer } in
      ended (run parts sends (s', out)) (run-IsSafe laws sends s' out)
    where
      ended :
          (r : Result (List (UserMessage X Ph)) (Fault E C) × State)
          → IsSafe out r
          → IsSafe out (continue r (λ prompts st. (ok (typed_ended prompts), st)))
      ended (ok prompts, st) h = h
      ended (err e, st) h = h

  entry_from-IsSafe :
      PartsLaws parts
      → (key : ℕ) (entry : Option En) (s : Session Ph S F En Qz) (out : O)
      → IsSafe out (entry_from parts key entry (s, out))
  unfolding entry_from
  entry_from-IsSafe laws key none s out = inl refl
  entry_from-IsSafe laws key (some entry) s out =
      entry-IsSafe laws (parts.entry_key key entry) s out

  call-IsSaved :
      PartsLaws parts
      → (c : Call X Ph) (s : Session Ph S F En Qz) (out : O)
      → IsSaved out (call parts c (s, out)) ⊎ (((key : ℕ) × (c ≡ chosen key)) ⊎ (c ≡ recorded))
  unfolding call confirm_at entry_key
  call-IsSaved laws (received body) s out = inl (recv-IsSafe laws body s out)
  call-IsSaved laws (answered prompt page) s out = inl (
      shown-IsSafe laws prompt (prompt_screen_at parts prompt page)
        (record s { signer = (parts.next_u32 s.signer).1 }) out)
  call-IsSaved laws (typed key) s out =
      inl (entry_from-IsSafe laws key s.entry (record s { entry = none }) out)
  call-IsSaved laws (chosen key) s out = inr (inl (key, refl))
  call-IsSaved laws (turned page) s out = inl (inl refl)
  call-IsSaved laws recorded s out = inr (inr refl)

  -- With a queue that keeps what it is set to, and a save that drains it where it is ok: a call of the session
  -- that changes the outbox leaves nothing staged, so that all was saved, or is a key of a quiz or the yes to
  -- the last question of a reveal.
  pub call-persisted :
      (c : Call X Ph) (s : Session Ph S F En Qz) (out : O)
      → PartsLaws parts
      → (call parts c (s, out)).1 ≢ out
      → (parts.staged_mutations (call parts c (s, out)).0.signer ≡ [])
        ⊎ (((key : ℕ) × (c ≡ chosen key)) ⊎ (c ≡ recorded))
  call-persisted c s out laws told = elim (call-IsSaved laws c s out) [
    | inl (inl same) ↦ absurd (told same)
    | inl (inr empty) ↦ inl empty
    | inr other ↦ inr other
  ]
