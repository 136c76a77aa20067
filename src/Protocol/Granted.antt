-- ===== src/Protocol/Granted.antt =====
-- firmware/src/lib.rs: a reveal, an entry or a quiz is granted by the yes to its prompt alone.
use cold_snap.Prelude.{
  ℕ, ◌≡◌, inl, inr, refl, sym, ap, subst, Bool, true, false, ◌&&◌, List, Option, none, some, Result,
  ok, err, ◌==◌, arith, if◌then◌else◌,
}
use cold_snap.Reveal.{
  grant, grant_from, backup_pages, show_backup, show_granted, show_pages, after_render, render,
  backup_recorded, recorded_if,
}
use cold_snap.Messages.{
  Refusal, physical_backup, CoreMessage, display_backup, verify_address, SendBody, core_message,
  preview, name_prompt, upgrade, challenge, announce_ack, cancel, erase_data, check_backup,
  enter_backup, consolidate_backup, backup_saved, UserMessage, nonce_jobs, finalize_keygen,
  check_keygen, signature_request, restoration, Shown, nothing, info, page_shown,
}
use cold_snap.Protocol.{
  Fault, action, Session, Parts, run, run_result, recv_core, cancelled_session, recv, shown_if,
  prompt_screen_at, quiz_granted, quiz_from, reveal_granted, confirmed, confirm_shown,
}
use cold_snap.Protocol.Calls.{received, answered}
use cold_snap.Protocol.Dispatch.{run_result-Holds, recv_core-Holds}
use cold_snap.Protocol.Grants.{grants, AreSteps, same-AreSteps, run-grants}

module _ {X Mu Ph S F En Qz E C O : Type 0} (parts : Parts X Mu Ph S F En Qz E C O) where
  abbrev State : Type 0
  State = Session Ph S F En Qz × O

  abbrev Kept : Session Ph S F En Qz → Result (List (UserMessage X Ph)) (Fault E C) × State → Type 0
  Kept s r = grants parts r.1.0 ≡ (grants parts) s

  recv_core-Kept :
      (m : CoreMessage X) (s : Session Ph S F En Qz) (out : O) → Kept s (recv_core parts m (s, out))
  recv_core-Kept m s out =
      recv_core-Holds parts s out (Kept s) (λ r signer f. refl)
        (λ sends signer f. run-grants parts sends (record s { signer = signer; flash = f }) out) m

  pub recv-AreSteps :
      (body : SendBody X) (s : Session Ph S F En Qz) (out : O)
      → AreSteps parts (received body) s (recv parts body (s, out)).1.0
  unfolding recv cancelled_session
  recv-AreSteps (core_message m) s out =
      same-AreSteps parts (received (core_message m)) s (recv_core parts m (s, out)).1.0 refl
        (recv_core-Kept m s out)
  recv-AreSteps (preview name) s out =
      same-AreSteps parts (received (preview name)) s (record s { pending_name = some name }) refl
        refl
  recv-AreSteps (name_prompt m) s out = same-AreSteps parts (received (name_prompt m)) s s refl refl
  recv-AreSteps announce_ack s out =
      same-AreSteps parts (received announce_ack) s (record s { coordinator_acked = true }) refl
        refl
  recv-AreSteps cancel s out = (inl refl, (inl refl, inl refl))
  recv-AreSteps (upgrade m) s out = same-AreSteps parts (received (upgrade m)) s s refl refl
  recv-AreSteps erase_data s out = same-AreSteps parts (received erase_data) s s refl refl
  recv-AreSteps (challenge m) s out = same-AreSteps parts (received (challenge m)) s s refl refl

  -- A screen that may authorise is the first page of its prompt.
  guarded :
      (o : Option ℕ) (page : ℕ) (drawn : Bool) (why : Refusal)
      → shown_if parts o (page == 0 && drawn) why ≡ ok (page_shown true)
      → page ≡ 0
  unfolding shown_if
  guarded none page drawn why h = absurd (cc h)
  guarded (some index) page drawn why h = grind arith

  entry_page :
      (page : ℕ) (drawn : Bool)
      → (if page == 0
          then (if drawn then ok (page_shown true) else err physical_backup)
          else ok nothing)
        ≡ ok (page_shown true)
      → page ≡ 0
  entry_page page drawn h = grind arith

  quiz-AreSteps :
      (phase : Ph) (words : Result (List (List ℕ)) E) (s : Session Ph S F En Qz) (out : O)
      → AreSteps parts
          (answered (restoration (check_backup phase)) 0)
          s
          (quiz_from parts phase words (s, out)).1.0
  unfolding quiz_from quiz_granted
  quiz-AreSteps phase (err e) s out =
      same-AreSteps parts (answered (restoration (check_backup phase)) 0) s s refl refl
  quiz-AreSteps phase (ok words) s out = from (parts.new_quiz words s.signer)
    where
      from :
          (q : Option Qz × S)
          → AreSteps parts
              (answered (restoration (check_backup phase)) 0)
              s
              (quiz_granted parts phase q (s, out)).1.0
      from (none, signer) =
          same-AreSteps parts (answered (restoration (check_backup phase)) 0) s
            (record s { signer = signer }) refl refl
      from (some quiz, signer) =
          (inr (inl (refl, refl)), (inr (inl (refl, refl)), inr (inr (phase, refl, refl))))

  reveal-AreSteps :
      (phase : Ph) (pages : Result cold_snap.Reveal.BackupPages (cold_snap.Reveal.Fault E C))
      → (s : Session Ph S F En Qz) (out : O)
      → AreSteps parts
          (answered (restoration (display_backup phase)) 0)
          s
          (reveal_granted parts (grant_from phase pages s.backup) (s, out)).1.0
  unfolding grant_from reveal_granted
  reveal-AreSteps phase (ok pages) s out =
      (inr (inr (phase, refl, refl)), (inr (inl (refl, refl)), inr (inl (refl, refl))))
  reveal-AreSteps phase (err f) s out =
      same-AreSteps parts (answered (restoration (display_backup phase)) 0) s s refl refl

  confirmed-AreSteps :
      (prompt : UserMessage X Ph) (page : ℕ) (s : Session Ph S F En Qz) (out : O)
      → prompt_screen_at parts prompt page ≡ ok (page_shown true)
      → AreSteps parts (answered prompt page) s (confirmed parts prompt (s, out)).1.0
  unfolding confirmed prompt_screen_at grant
  confirmed-AreSteps (check_keygen phase) page s out h =
      same-AreSteps parts (answered (check_keygen phase) page) s
        (run_result parts action (parts.keygen_ack phase (s.signer, s.flash)) (s, out)).1.0 refl
        (run_result-Holds parts s out (Kept s) (λ r signer f. refl)
          (λ sends signer f. run-grants parts sends (record s { signer = signer; flash = f }) out)
          action (parts.keygen_ack phase (s.signer, s.flash)))
  confirmed-AreSteps (signature_request phase) page s out h =
      same-AreSteps parts (answered (signature_request phase) page) s
        (run_result parts action (parts.sign_ack phase (s.signer, s.flash)) (s, out)).1.0 refl
        (run_result-Holds parts s out (Kept s) (λ r signer f. refl)
          (λ sends signer f. run-grants parts sends (record s { signer = signer; flash = f }) out)
          action (parts.sign_ack phase (s.signer, s.flash)))
  confirmed-AreSteps (restoration (display_backup phase)) page s out h =
      let first =
        guarded (parts.share_index phase) page (parts.is_drawn (restoration (display_backup phase)))
          Refusal.display_backup h in
      subst
        (λ p.
          AreSteps parts (answered (restoration (display_backup phase)) p) s
            (reveal_granted parts (grant {C = C} parts.decrypt parts.share_index phase s.backup)
              (s, out)).1.0)
        (sym first)
        (reveal-AreSteps phase (backup_pages {C = C} parts.decrypt parts.share_index phase) s out)
  confirmed-AreSteps (restoration (enter_backup phase)) page s out h =
      let first = entry_page page (parts.is_drawn (restoration (enter_backup phase))) h in
      (
        inr (inl (refl, refl)),
        (
          inr (
              inr
                (tt, (phase, ap (λ p. answered (restoration (enter_backup phase)) p) first), refl)),
          inr (inl (refl, refl)),
        ),
      )
  confirmed-AreSteps (restoration (consolidate_backup phase)) page s out h =
      let (sends, (signer, f)) = parts.finish_consolidation phase (s.signer, s.flash) in
      let s' = record s { signer = signer; flash = f } in
      same-AreSteps parts (answered (restoration (consolidate_backup phase)) page) s
        (run parts sends (s', out)).1.0 refl (run-grants parts sends s' out)
  confirmed-AreSteps (restoration (check_backup phase)) page s out h =
      let first =
        guarded (parts.share_index phase) page (parts.is_drawn (restoration (check_backup phase)))
          Refusal.display_backup h in
      subst
        (λ p.
          AreSteps parts (answered (restoration (check_backup phase)) p) s
            (quiz_from parts phase (parts.decrypt phase) (s, out)).1.0)
        (sym first) (quiz-AreSteps phase (parts.decrypt phase) s out)
  confirmed-AreSteps (restoration (backup_saved m)) page s out h = absurd (cc h)
  confirmed-AreSteps (finalize_keygen key_name) page s out h = absurd (cc h)
  confirmed-AreSteps (nonce_jobs batch) page s out h = absurd (cc h)
  confirmed-AreSteps (verify_address address) page s out h =
      same-AreSteps parts (answered (verify_address address) page) s s refl refl

  pub shown-AreSteps :
      (prompt : UserMessage X Ph) (page : ℕ) (shown : Result Shown Refusal)
      (s : Session Ph S F En Qz) (out : O)
      → prompt_screen_at parts prompt page ≡ shown
      → AreSteps parts (answered prompt page) s (confirm_shown parts prompt shown (s, out)).1.0
  unfolding confirm_shown
  shown-AreSteps prompt page (err why) s out h =
      same-AreSteps parts (answered prompt page) s s refl refl
  shown-AreSteps prompt page (ok nothing) s out h =
      same-AreSteps parts (answered prompt page) s s refl refl
  shown-AreSteps prompt page (ok info) s out h =
      same-AreSteps parts (answered prompt page) s s refl refl
  shown-AreSteps prompt page (ok (page_shown false)) s out h =
      same-AreSteps parts (answered prompt page) s s refl refl
  shown-AreSteps prompt page (ok (page_shown true)) s out h = confirmed-AreSteps prompt page s out h
