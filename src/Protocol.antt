-- ===== src/Protocol.antt =====
-- firmware/src/lib.rs: what `Session` does with a coordinator's message (`recv`), with the yes to a
-- prompt (`confirm_at`), and with the work that the signer gives it (`run`). The signer of
-- `frostsnap_core`, with the secrets and the generator, is one state; its calls, the flash's stores, the
-- outbox and the drawing of a screen are the fields of `Parts`. `X` is what is passed on and never read,
-- and `Mu` a staged mutation.
pub mod Keys
pub mod Calls
pub mod Loop
pub mod Dispatch
pub mod Persisted
pub mod Stored
pub mod Open
pub mod Reload
pub mod Grants
pub mod Granted
pub mod Steps
pub mod Consented
use cold_snap.Prelude.{
  ℕ, ◌+◌, Bool, true, false, not, ◌&&◌, ◌||◌, List, [], ◌∷◌, ◌++◌, Option, none, some, Result, ok,
  err, ◌==◌, ltb, if◌then◌else◌, length,
}
use cold_snap.Prelude.Exec.{Exec, pure, raise, continue, map_err}
use cold_snap.Store.{StoreFault}
use cold_snap.Reveal.{grant, show_backup, backup_recorded}
use cold_snap.Wordentry.{Step, unchanged, redraw, abort, entered}
use cold_snap.Quiz.{passed, quiz_positions}
use cold_snap.Messages.{
  Checked, CoreMessage, DeviceSend, Refusal, Reply, SendBody, Shown, Typed, UserMessage,
  UserRestoration, address_verify, announce_ack, backup_checked, backup_saved, begin, cancel,
  certify_please, challenge, check_backup, check_keygen, checked_ended, checked_redraw,
  checked_unchanged, consolidate, consolidate_backup, core_message, core_reply, data_erase,
  display_backup, enter_backup, enter_physical_backup, erase_data, finalize, finalize_keygen,
  firmware_upgrade, genuine_challenge, group_too_large, info, keygen_check, name_prompt, nonce_jobs,
  nothing, open_nonce_streams, page_shown, physical_backup, preview, request_held_shares,
  request_sign, restoration, save_physical_backup, save_physical_backup2, set_name,
  signature_request, to_coordinator, to_user, told_recorded, typed_ended, typed_redraw,
  typed_unchanged, undisplayable, upgrade, verify_address,
}

abbrev max_parties : ℕ
max_parties = 12

pub data Fault (E C : Type 0) : Type 0 where
  identity_scalar : Fault E C
  comms : C → Fault E C
  signer_error : E → Fault E C
  action : E → Fault E C
  refused : Refusal → Fault E C
  not_confirmable : Fault E C
  store : StoreFault → Fault E C

-- The quiz, and what its request named.
pub record Checking (Qz Ph : Type 0) : Type 0 where
  pub quiz : Qz
  pub asked : Ph

pub record Session (Ph S F En Qz : Type 0) : Type 0 where
  pub signer : S
  pub flash : F
  pub coordinator_acked : Bool
  pub pending_name : Option (List ℕ)
  pub backup : cold_snap.Reveal.Session Ph
  pub entry : Option En
  pub check : Option (Checking Qz Ph)

pub record Parts (X Mu Ph S F En Qz E C O : Type 0) : Type 0 where
  pub clear_tmp_data : S → S
  pub staged_mutations : S → List Mu
  pub set_staged : List Mu → S → S
  pub recv_coordinator_message : CoreMessage X → S × F → Result (List (DeviceSend X Ph)) E × (S × F)
  pub keygen_ack : X → S × F → Result (List (DeviceSend X Ph)) E × (S × F)
  pub sign_ack : X → S × F → Result (List (DeviceSend X Ph)) E × (S × F)
  pub finish_consolidation : X → S × F → List (DeviceSend X Ph) × (S × F)
  pub next_u32 : S → ℕ × S
  pub verify_prompt : X → ℕ → S → Result (UserMessage X Ph) Refusal
  pub run_until_finished : X → S → F → X × F
  pub persist_staged : List Mu × F → Result (Unit {0}) StoreFault × (List Mu × F)
  pub save_name : List ℕ → F → Result (Unit {0}) StoreFault × F
  pub push : Reply X Ph → O → Result (Unit {0}) C × O
  pub decrypt : Ph → Result (List (List ℕ)) E
  pub share_index : Ph → Option ℕ
  pub new_entry : X → En
  pub new_quiz : List (List ℕ) → S → Option Qz × S
  pub entry_key : ℕ → En → Step X × En
  pub tell_load_result : En → X → S → List (DeviceSend X Ph) × S
  pub quiz_key : ℕ → Qz → S → cold_snap.Quiz.Step × Qz × S
  pub sign_screen : X → ℕ → Result Shown Refusal
  pub consolidate_index : X → Option ℕ
  pub is_drawn : UserMessage X Ph → Bool

-- What the reveal's functions fail with, as a fault of the session.
unfoldable pub of_reveal : {E C : Type 0} → cold_snap.Reveal.Fault E C → Fault E C
of_reveal cold_snap.Reveal.Fault.refused_display_backup = refused display_backup
of_reveal (cold_snap.Reveal.Fault.action e) = action e
of_reveal (cold_snap.Reveal.Fault.comms c) = comms c

module _ {X Mu Ph S F En Qz E C O : Type 0} (parts : Parts X Mu Ph S F En Qz E C O) where
  abbrev pub Act : Type 0 → Type 0
  Act A = Exec (Session Ph S F En Qz × O) A (Fault E C)

  -- `out.push(..)?`
  unfoldable pub push_reply : Reply X Ph → Act (Unit {0})
  push_reply reply (s, out) = let (r, out') = parts.push reply out in (map_err comms r, (s, out'))

  unfoldable pub save_pending : Option (List ℕ) → Act (Unit {0})
  save_pending none st = (ok tt, st)
  save_pending (some name) (s, out) =
      let (r, f) = parts.save_name name s.flash in
      continue (map_err store r, (record s { flash = f }, out)) (λ _. push_reply (set_name name))

  -- The name is taken first.
  unfoldable pub commit_name : Act (Unit {0})
  commit_name (s, out) = save_pending s.pending_name (record s { pending_name = none }, out)

  -- The body of the loop of `run`: the prompts that it adds.
  unfoldable pub handle : DeviceSend X Ph → Act (List (UserMessage X Ph))
  handle (to_coordinator m) st = continue (push_reply (core_reply m) st) (λ _. pure [])
  handle (to_user (nonce_jobs batch)) (s, out) =
      let (segments, f) = parts.run_until_finished batch s.signer s.flash in
      continue (push_reply (core_reply segments) (record s { flash = f }, out)) (λ _. pure [])
  handle (to_user (finalize_keygen key_name)) st =
      continue (commit_name st) (λ _. pure (finalize_keygen key_name ∷ []))
  handle (to_user (check_keygen phase)) st = (ok (check_keygen phase ∷ []), st)
  handle (to_user (signature_request phase)) st = (ok (signature_request phase ∷ []), st)
  handle (to_user (verify_address address)) st = (ok (verify_address address ∷ []), st)
  handle (to_user (restoration message)) st = (ok (restoration message ∷ []), st)

  -- Nothing is added to the queue.
  unfoldable pub work_loop :
      List (DeviceSend X Ph) → List (UserMessage X Ph) → Act (List (UserMessage X Ph))
  work_loop [] prompts st = (ok prompts, st)
  work_loop (send ∷ work) prompts st =
      continue (handle send st) (λ new. work_loop work (prompts ++ new))

  unfoldable pub persist : Act (Unit {0})
  persist (s, out) =
      let (r, (staged, f)) = parts.persist_staged (parts.staged_mutations s.signer, s.flash) in
      (map_err store r, (record s { signer = parts.set_staged staged s.signer; flash = f }, out))

  unfoldable pub run : List (DeviceSend X Ph) → Act (List (UserMessage X Ph))
  run sends st = continue (persist st) (λ _. work_loop sends [])

  -- A call of the signer, and `run` with what it gives.
  unfoldable pub run_result :
      (E → Fault E C) → Result (List (DeviceSend X Ph)) E × (S × F) → Act (List (UserMessage X Ph))
  run_result fault (r, (signer, f)) (s, out) =
      continue (map_err fault r, (record s { signer = signer; flash = f }, out)) run

  unfoldable pub ask_signer : CoreMessage X → Act (List (UserMessage X Ph))
  ask_signer m (s, out) =
      run_result signer_error (parts.recv_coordinator_message m (s.signer, s.flash)) (s, out)

  unfoldable pub run_prompt : Result (UserMessage X Ph) Refusal → Act (List (UserMessage X Ph))
  run_prompt (ok prompt) st = run (to_user prompt ∷ []) st
  run_prompt (err why) st = (err (refused why), st)

  unfoldable pub recv_core : CoreMessage X → Act (List (UserMessage X Ph))
  recv_core (begin devices threshold rest) st =
      let answer = ask_signer (begin devices threshold rest) st in
      if ltb max_parties (length devices)
      then (err (refused group_too_large), st)
      else if (threshold == 0) || ltb (length devices) threshold
      then (err (refused group_too_large), st)
      else answer
  recv_core (verify_address master_appkey index) (s, out) =
      run_prompt (parts.verify_prompt master_appkey index s.signer) (s, out)
  recv_core (certify_please m) st = ask_signer (certify_please m) st
  recv_core (keygen_check m) st = ask_signer (keygen_check m) st
  recv_core (finalize m) st = ask_signer (finalize m) st
  recv_core (open_nonce_streams m) st = ask_signer (open_nonce_streams m) st
  recv_core (request_sign m) st = ask_signer (request_sign m) st
  recv_core (request_held_shares m) st = ask_signer (request_held_shares m) st
  recv_core (display_backup m) st = ask_signer (display_backup m) st
  recv_core (enter_physical_backup m) st = ask_signer (enter_physical_backup m) st
  recv_core (save_physical_backup m) st = ask_signer (save_physical_backup m) st
  recv_core (save_physical_backup2 m) st = ask_signer (save_physical_backup2 m) st
  recv_core (consolidate m) st = ask_signer (consolidate m) st
  recv_core (check_backup m) st = ask_signer (check_backup m) st

  -- The arm of `Cancel`.
  unfoldable pub cancelled_session : Session Ph S F En Qz → Session Ph S F En Qz
  cancelled_session s = record s {
    signer = parts.clear_tmp_data s.signer;
    pending_name = none;
    backup = record s.backup { granted = none; record_pending = false };
    entry = none;
    check = none;
  }

  unfoldable pub recv : SendBody X → Act (List (UserMessage X Ph))
  recv (core_message m) st = recv_core m st
  recv (preview name) (s, out) = (ok [], (record s { pending_name = some name }, out))
  recv (name_prompt m) st = (ok [], st)
  recv announce_ack (s, out) = (ok [], (record s { coordinator_acked = true }, out))
  recv cancel (s, out) = (ok [], (cancelled_session s, out))
  recv (upgrade m) st = (err (refused firmware_upgrade), st)
  recv erase_data st = (err (refused data_erase), st)
  recv (challenge m) st = (err (refused genuine_challenge), st)

  -- `match u32::try_from(index)` with a guard.
  unfoldable pub shown_if : Option ℕ → Bool → Refusal → Result Shown Refusal
  shown_if none drawn why = err why
  shown_if (some index) drawn why = if drawn then ok (page_shown true) else err why

  unfoldable pub prompt_screen_at : UserMessage X Ph → ℕ → Result Shown Refusal
  prompt_screen_at (check_keygen phase) page = ok (page_shown true)
  prompt_screen_at (signature_request phase) page = parts.sign_screen phase page
  prompt_screen_at (restoration (display_backup phase)) page =
      shown_if (parts.share_index phase)
        (page == 0 && parts.is_drawn (restoration (display_backup phase))) Refusal.display_backup
  prompt_screen_at (restoration (check_backup phase)) page =
      shown_if (parts.share_index phase)
        (page == 0 && parts.is_drawn (restoration (check_backup phase))) Refusal.display_backup
  prompt_screen_at (restoration (enter_backup phase)) page =
      if page == 0
      then (if parts.is_drawn (restoration (enter_backup phase))
          then ok (page_shown true)
          else err physical_backup)
      else ok nothing
  prompt_screen_at (restoration (consolidate_backup phase)) page =
      if page == 0
      then shown_if (parts.consolidate_index phase)
          (parts.is_drawn (restoration (consolidate_backup phase))) physical_backup
      else ok nothing
  prompt_screen_at (restoration (backup_saved m)) page = ok nothing
  prompt_screen_at (verify_address address) page =
      if parts.is_drawn (verify_address address) then ok info else err undisplayable
  prompt_screen_at (finalize_keygen key_name) page = ok nothing
  prompt_screen_at (nonce_jobs batch) page = ok nothing

  unfoldable pub quiz_granted : Ph → Option Qz × S → Act (List (UserMessage X Ph))
  quiz_granted phase (none, signer) (s, out) =
      (err (refused physical_backup), (record s { signer = signer }, out))
  quiz_granted phase (some quiz, signer) (s, out) = (
    ok [],
    (record s { signer = signer; check = some (record { quiz = quiz; asked = phase }) }, out),
  )

  unfoldable pub quiz_from : Ph → Result (List (List ℕ)) E → Act (List (UserMessage X Ph))
  quiz_from phase (err e) st = (err (action e), st)
  quiz_from phase (ok words) (s, out) = quiz_granted phase (parts.new_quiz words s.signer) (s, out)

  unfoldable pub reveal_granted :
      Result (Unit {0}) (cold_snap.Reveal.Fault E C) × cold_snap.Reveal.Session Ph
      → Act (List (UserMessage X Ph))
  reveal_granted (err f, backup) (s, out) = (err (of_reveal f), (record s { backup = backup }, out))
  reveal_granted (ok _, backup) (s, out) = (ok [], (record s { backup = backup }, out))

  -- The match on the prompt, behind the screen's.
  unfoldable pub confirmed : UserMessage X Ph → Act (List (UserMessage X Ph))
  confirmed (check_keygen phase) (s, out) =
      run_result action (parts.keygen_ack phase (s.signer, s.flash)) (s, out)
  confirmed (signature_request phase) (s, out) =
      run_result action (parts.sign_ack phase (s.signer, s.flash)) (s, out)
  confirmed (restoration (display_backup phase)) (s, out) =
      reveal_granted (grant {C = C} parts.decrypt parts.share_index phase s.backup) (s, out)
  confirmed (restoration (enter_backup phase)) (s, out) =
      (ok [], (record s { entry = some (parts.new_entry phase) }, out))
  confirmed (restoration (consolidate_backup phase)) (s, out) =
      let (sends, (signer, f)) = parts.finish_consolidation phase (s.signer, s.flash) in
      run sends (record s { signer = signer; flash = f }, out)
  confirmed (restoration (check_backup phase)) st = quiz_from phase (parts.decrypt phase) st
  confirmed (restoration (backup_saved m)) st = (err not_confirmable, st)
  confirmed (finalize_keygen key_name) st = (err not_confirmable, st)
  confirmed (nonce_jobs batch) st = (err not_confirmable, st)
  confirmed (verify_address address) st = (err not_confirmable, st)

  unfoldable pub confirm_shown :
      UserMessage X Ph → Result Shown Refusal → Act (List (UserMessage X Ph))
  confirm_shown prompt (err why) st = (err (refused why), st)
  confirm_shown prompt (ok nothing) st = (err not_confirmable, st)
  confirm_shown prompt (ok info) st = (err not_confirmable, st)
  confirm_shown prompt (ok (page_shown false)) st = (err not_confirmable, st)
  confirm_shown prompt (ok (page_shown true)) st = confirmed prompt st

  -- The digit that is drawn for the screen is thrown away with it.
  unfoldable pub confirm_at : UserMessage X Ph → ℕ → Act (List (UserMessage X Ph))
  confirm_at prompt page (s, out) =
      let (_, signer) = parts.next_u32 s.signer in
      confirm_shown prompt (prompt_screen_at prompt page) (record s { signer = signer }, out)
