-- ===== src/Tests/Protocol.antt =====
-- firmware/src/lib.rs, `Session`, over a signer that is its queue, the store of Store, and an outbox that counts.
use cold_snap.Prelude.{
  replicate, ap, ◌++◌, length, take, length-replicate, ℕ, ◌+◌, ◌≡◌, ◌≢◌, ◌⊎◌, refl, true, false,
  List, [], ◌∷◌, Option, none, some, ok, err, arith,
}
use cold_snap.Wordentry.{unchanged}
use cold_snap.Store.{
  new_key, new_access_structure, save_share, Mutation, restoration, persist_staged,
}
use cold_snap.Store.Drained.{persist_staged-drained}
use cold_snap.Messages.{
  finalize, core_message, UserMessage, UserRestoration, display_backup, enter_backup, DeviceSend,
  to_coordinator, page_shown,
}
use cold_snap.Protocol.{
  Session, Parts, recv, recv_core, ask_signer, run_result, run, persist, work_loop, handle,
  push_reply,
}
use cold_snap.Protocol.Calls.{Call, received, answered, chosen, recorded, call, calls}
use cold_snap.Protocol.Persisted.{PartsLaws, call-persisted}
use cold_snap.Protocol.Grants.{live, asked_of, IsReveal, IsEntry, IsCheck}
use cold_snap.Protocol.Consented.{IsGranted, calls-granted}
use cold_snap.Protocol.Stored.{IsWired, IsStorable, by_finalize}
use cold_snap.Protocol.Open.{Boot, open_session}
use cold_snap.Protocol.Reload.{call-reloaded}
use cold_snap.Tests.Store.{
  digest, digest_long, encode, decode, codec_laws, from_utf8, utf8_laws, try_write, read, slot_laws,
  key, structure, staged, staged_kept, staged_saved,
}

abbrev Payload : Type 0
Payload = Mutation ℕ ℕ ℕ

-- A message of the signer stages a keygen behind a restoration, and a restoration is told.
abbrev parts : Parts Payload Payload ℕ (List Payload) (Option (List ℕ)) ℕ ℕ ℕ ℕ ℕ
parts = record {
  clear_tmp_data = λ q. q;
  staged_mutations = λ q. q;
  set_staged = λ staged q. staged;
  recv_coordinator_message = λ m st. (ok (to_coordinator restoration ∷ []), (staged, st.1));
  keygen_ack = λ phase st. (ok [], st);
  sign_ack = λ phase st. (ok [], st);
  finish_consolidation = λ phase st. ([], st);
  next_u32 = λ q. (4, q);
  verify_prompt = λ key index q. ok (UserMessage.verify_address key);
  run_until_finished = λ batch q f. (batch, f);
  persist_staged = λ st. persist_staged digest encode decode from_utf8 try_write read st;
  save_name = λ name f. (ok tt, f);
  push = λ reply n. (ok tt, n + 1);
  decrypt = λ phase. err 1;
  share_index = λ phase. some phase;
  new_entry = λ phase. 0;
  new_quiz = λ words q. (some 0, q);
  entry_key = λ key entry. (unchanged, entry);
  tell_load_result = λ entry backup q. ([], q);
  quiz_key = λ key quiz q. (cold_snap.Quiz.Step.unchanged, quiz, q);
  sign_screen = λ phase page. ok (page_shown true);
  consolidate_index = λ phase. some 1;
  is_drawn = λ prompt. true;
}

parts-PartsLaws : PartsLaws parts
parts-PartsLaws = record {
  staged_lem = λ staged q. refl;
  drained = λ staged staged' f f' h.
      persist_staged-drained digest encode decode from_utf8 try_write read staged staged' f f' h;
}

abbrev fresh : Session ℕ (List Payload) (Option (List ℕ)) ℕ ℕ
fresh = record {
  signer = [];
  flash = none;
  coordinator_acked = false;
  pending_name = none;
  backup = record { granted = none; seen_pages = 0; record_pending = false };
  entry = none;
  check = none;
}

abbrev ends : Call Payload ℕ
ends = received (core_message (finalize restoration))

finalized : (call parts ends (fresh, 0)).1 ≡ 1
unfolding call recv recv_core ask_signer run_result run persist work_loop handle push_reply
finalized = rw (call, staged_saved) refl

told : (call parts ends (fresh, 0)).1 ≢ 0
told e = omega (arith, finalized, e)

call-persisted_example :
    (parts.staged_mutations (call parts ends (fresh, 0)).0.signer ≡ [])
    ⊎ (((key : ℕ) × (ends ≡ chosen key)) ⊎ (ends ≡ recorded))
call-persisted_example = call-persisted parts ends fresh 0 parts-PartsLaws told

wired : IsWired parts digest encode decode from_utf8 try_write read
wired = record { saves = λ st. refl; batch_lem = λ batch signer f. refl; name_lem = λ name f. refl }

storable :
    IsStorable digest encode decode from_utf8 try_write read
      (λ c. length c ≡ 1)
      key
      structure
      2
      ((118 ∷ []) ∷ [])
storable = record {
  utf8 = utf8_laws;
  codec = codec_laws;
  ab_slot = slot_laws;
  digest_size = digest_long;
  chars = (refl, tt);
  key_size = length-replicate {A = ℕ} 32 3;
  structure_size = length-replicate {A = ℕ} 32 4;
  threshold_size = omega arith;
}

-- A mutation that is applied is put behind the others, and the new signer has none.
abbrev start : Boot ℕ Payload (List Payload) (Option (List ℕ))
start = record {
  from_bytes = λ secret. some (length secret);
  new_signer = λ scalar secret f. [];
  apply_mutation = λ m q. q ++ m ∷ [];
}

call-reloaded_example :
    open_session start digest encode decode from_utf8 try_write read {Ph = ℕ} {En = ℕ} {Qz = ℕ}
      {E = ℕ} {C = ℕ}
      (replicate 32 1)
      (call parts ends (fresh, 0)).0.flash
    ≡ ok (record {
      signer =
          new_key key (take 15 ((118 ∷ []) ∷ [])) 1
          ∷ new_access_structure key structure 2 5
          ∷ save_share key structure 9
          ∷ [];
      flash = (call parts ends (fresh, 0)).0.flash;
      coordinator_acked = false;
      pending_name = none;
      backup = record { granted = none; seen_pages = 0; record_pending = false };
      entry = none;
      check = none;
    })
call-reloaded_example =
    call-reloaded parts digest encode decode from_utf8 try_write read start (λ c. length c ≡ 1) key
      structure 2 ((118 ∷ []) ∷ []) 1 5 9 ends fresh 0 staged (replicate 32 1) 32 wired storable
      (by_finalize restoration (to_coordinator restoration ∷ []) staged none refl) staged_kept told
      (ap some (length-replicate {A = ℕ} 32 1))

abbrev yes : List (Call Payload ℕ)
yes =
    answered (cold_snap.Messages.UserMessage.restoration (display_backup 3)) 0
    ∷ answered (cold_snap.Messages.UserMessage.restoration (enter_backup restoration)) 0
    ∷ []

calls-granted_example :
    (((calls parts yes (fresh, 0)).0.backup.granted ≡ none)
      ⊎ IsGranted parts (IsReveal parts) yes (calls parts yes (fresh, 0)).0.backup.granted)
    × (((live parts (calls parts yes (fresh, 0)).0.entry ≡ none)
          ⊎ IsGranted parts (IsEntry parts) yes (live parts (calls parts yes (fresh, 0)).0.entry))
        × ((asked_of parts (calls parts yes (fresh, 0)).0.check ≡ none)
            ⊎ IsGranted parts
                (IsCheck parts)
                yes
                (asked_of parts (calls parts yes (fresh, 0)).0.check)))
calls-granted_example = calls-granted parts yes fresh 0 refl refl refl
