-- ===== src/Protocol/Dispatch.antt =====
-- firmware/src/lib.rs, `Session::recv_core`: each message ends in a refusal, in a fault of the signer, or in `run`.
use cold_snap.Prelude.{
  Bool, true, false, ◌||◌, List, [], ◌∷◌, Result, ok, err, ◌==◌, ltb, if◌then◌else◌, length,
}
use cold_snap.Messages.{
  Refusal, group_too_large, CoreMessage, begin, certify_please, keygen_check, finalize,
  open_nonce_streams, request_sign, request_held_shares, display_backup, enter_physical_backup,
  save_physical_backup, save_physical_backup2, consolidate, verify_address, check_backup,
  UserMessage, DeviceSend, to_user,
}
use cold_snap.Protocol.{
  Fault, signer_error, refused, Session, Parts, run, run_result, ask_signer, run_prompt, recv_core,
}

-- What holds of every result that leaves the session but for the signer and the flash, and of every `run`.
module _ {X Mu Ph S F En Qz E C O : Type 0} (parts : Parts X Mu Ph S F En Qz E C O)
    (s : Session Ph S F En Qz) (out : O)
    (Holds : Result (List (UserMessage X Ph)) (Fault E C) × (Session Ph S F En Qz × O) → Type 0)
    (stays : (r : Result (List (UserMessage X Ph)) (Fault E C)) (signer : S) (f : F)
      → Holds (r, (record s { signer = signer; flash = f }, out)))
    (runs : (sends : List (DeviceSend X Ph)) (signer : S) (f : F)
      → Holds (run parts sends (record s { signer = signer; flash = f }, out))) where
  abbrev State : Type 0
  State = Session Ph S F En Qz × O

  pub run_result-Holds :
      (fault : E → Fault E C) (result : Result (List (DeviceSend X Ph)) E × (S × F))
      → Holds (run_result parts fault result (s, out))
  unfolding run_result
  run_result-Holds fault (ok sends, (signer, f)) = runs sends signer f
  run_result-Holds fault (err e, (signer, f)) = stays (err (fault e)) signer f

  ask_signer-Holds : (m : CoreMessage X) → Holds (ask_signer parts m (s, out))
  unfolding ask_signer
  ask_signer-Holds m =
      run_result-Holds signer_error (parts.recv_coordinator_message m (s.signer, s.flash))

  run_prompt-Holds :
      (prompt : Result (UserMessage X Ph) Refusal) → Holds (run_prompt parts prompt (s, out))
  unfolding run_prompt
  run_prompt-Holds (ok prompt) = runs (to_user prompt ∷ []) s.signer s.flash
  run_prompt-Holds (err why) = stays (err (refused why)) s.signer s.flash

  begin-Holds :
      (a b : Bool) (answer : Result (List (UserMessage X Ph)) (Fault E C) × State)
      → Holds answer
      → Holds (
          if a
          then (err (refused group_too_large), (s, out))
          else if b
          then (err (refused group_too_large), (s, out))
          else answer)
  begin-Holds true b answer h = stays (err (refused group_too_large)) s.signer s.flash
  begin-Holds false true answer h = stays (err (refused group_too_large)) s.signer s.flash
  begin-Holds false false answer h = h

  pub recv_core-Holds : (m : CoreMessage X) → Holds (recv_core parts m (s, out))
  unfolding recv_core
  recv_core-Holds (begin devices threshold rest) =
      begin-Holds (ltb 12 (length devices)) ((threshold == 0) || ltb (length devices) threshold)
        (ask_signer parts (begin devices threshold rest) (s, out))
        (ask_signer-Holds (begin devices threshold rest))
  recv_core-Holds (verify_address master_appkey index) =
      run_prompt-Holds (parts.verify_prompt master_appkey index s.signer)
  recv_core-Holds (certify_please m) = ask_signer-Holds (certify_please m)
  recv_core-Holds (keygen_check m) = ask_signer-Holds (keygen_check m)
  recv_core-Holds (finalize m) = ask_signer-Holds (finalize m)
  recv_core-Holds (open_nonce_streams m) = ask_signer-Holds (open_nonce_streams m)
  recv_core-Holds (request_sign m) = ask_signer-Holds (request_sign m)
  recv_core-Holds (request_held_shares m) = ask_signer-Holds (request_held_shares m)
  recv_core-Holds (display_backup m) = ask_signer-Holds (display_backup m)
  recv_core-Holds (enter_physical_backup m) = ask_signer-Holds (enter_physical_backup m)
  recv_core-Holds (save_physical_backup m) = ask_signer-Holds (save_physical_backup m)
  recv_core-Holds (save_physical_backup2 m) = ask_signer-Holds (save_physical_backup2 m)
  recv_core-Holds (consolidate m) = ask_signer-Holds (consolidate m)
  recv_core-Holds (check_backup m) = ask_signer-Holds (check_backup m)
