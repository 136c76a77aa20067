-- ===== src/Protocol/Loop.antt =====
-- firmware/src/lib.rs, `Session::run`: its loop changes the flash, by a batch and a save of the name, and the pending
-- name, and nothing else of the session.
use cold_snap.Prelude.{ℕ, ◌≡◌, refl, ◌∙◌, List, [], ◌∷◌, ◌++◌, Option, none, some, Result, ok, err}
use cold_snap.Prelude.Exec.{Exec, continue, map_err}
use cold_snap.Messages.{
  verify_address, UserMessage, nonce_jobs, finalize_keygen, check_keygen, signature_request,
  restoration, DeviceSend, to_coordinator, to_user, Reply, core_reply, set_name,
}
use cold_snap.Protocol.{
  Fault, store, Session, Parts, push_reply, save_pending, commit_name, handle, work_loop,
}

module _ {X Mu Ph S F En Qz E C O : Type 0} (parts : Parts X Mu Ph S F En Qz E C O) {V : Type 0}
    (view : Session Ph S F En Qz → V)
    (keeps_batch : (s : Session Ph S F En Qz) (batch : X)
      → view (record s { flash = (parts.run_until_finished batch s.signer s.flash).1 }) ≡ view s)
    (keeps_save : (s : Session Ph S F En Qz) (name : List ℕ)
      → view (record s { flash = (parts.save_name name s.flash).1 }) ≡ view s)
    (keeps_name : (s : Session Ph S F En Qz) (name : Option (List ℕ))
      → view (record s { pending_name = name }) ≡ view s) where
  abbrev State : Type 0
  State = Session Ph S F En Qz × O

  continue-view :
      {A B : Type 0} (m : Result A (Fault E C) × State) (f : A → Exec State B (Fault E C))
      → ((a : A) (st : State) → view (f a st).1.0 ≡ view st.0)
      → view (continue m f).1.0 ≡ view m.1.0
  continue-view (ok a, st) f h = h a st
  continue-view (err e, st) f h = refl

  push_reply-view :
      (reply : Reply X Ph) (st : State) → view (push_reply parts reply st).1.0 ≡ view st.0
  unfolding push_reply
  push_reply-view reply (s, out) = refl

  save_pending-view :
      (name : Option (List ℕ)) (st : State) → view (save_pending parts name st).1.0 ≡ view st.0
  unfolding save_pending
  save_pending-view none st = refl
  save_pending-view (some name) (s, out) =
      continue-view
        (
          map_err store (parts.save_name name s.flash).0,
          (record s { flash = (parts.save_name name s.flash).1 }, out),
        )
        (λ _. push_reply parts (set_name name)) (λ a st. push_reply-view (set_name name) st)
      ∙ keeps_save s name

  commit_name-view : (st : State) → view (commit_name parts st).1.0 ≡ view st.0
  unfolding commit_name
  commit_name-view (s, out) =
      save_pending-view s.pending_name (record s { pending_name = none }, out) ∙ keeps_name s none

  handle-view : (send : DeviceSend X Ph) (st : State) → view (handle parts send st).1.0 ≡ view st.0
  unfolding handle
  handle-view (to_coordinator m) st =
      continue-view (push_reply parts (core_reply m) st) (λ _ st'. (ok [], st')) (λ a st'. refl)
      ∙ push_reply-view (core_reply m) st
  handle-view (to_user (nonce_jobs batch)) (s, out) =
      let (segments, f) = parts.run_until_finished batch s.signer s.flash in
      continue-view (push_reply parts (core_reply segments) (record s { flash = f }, out))
        (λ _ st'. (ok [], st')) (λ a st'. refl)
      ∙ push_reply-view (core_reply segments) (record s { flash = f }, out)
      ∙ keeps_batch s batch
  handle-view (to_user (finalize_keygen key_name)) st =
      continue-view (commit_name parts st) (λ _ st'. (ok (finalize_keygen key_name ∷ []), st'))
        (λ a st'. refl)
      ∙ commit_name-view st
  handle-view (to_user (check_keygen phase)) st = refl
  handle-view (to_user (signature_request phase)) st = refl
  handle-view (to_user (verify_address address)) st = refl
  handle-view (to_user (restoration message)) st = refl

  -- What is seen of a session and is of neither is as it was.
  pub work_loop-view :
      (work : List (DeviceSend X Ph)) (prompts : List (UserMessage X Ph)) (st : State)
      → view (work_loop parts work prompts st).1.0 ≡ view st.0
  unfolding work_loop
  work_loop-view [] prompts st = refl
  work_loop-view (send ∷ work) prompts st =
      continue-view (handle parts send st) (λ new. work_loop parts work (prompts ++ new))
        (λ new st'. work_loop-view work (prompts ++ new) st')
      ∙ handle-view send st
