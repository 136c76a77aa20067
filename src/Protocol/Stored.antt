-- ===== src/Protocol/Stored.antt =====
-- firmware/src/lib.rs, `Session`, over the share's store of firmware/src/store.rs: where the coordinator is told of
-- a keygen, the keygen is on flash.
use cold_snap.Prelude.{
  ℕ, ◌≤◌, ◌<◌, ◌≡◌, ◌≢◌, inl, inr, refl, true, false, ap, ◌∙◌, List, [], Option, Result, ok, err,
  length, take,
}
use cold_snap.Store.{
  Text, ShareBody, Coded, held, Mutation, StoreFault, flash, too_big, AbWriteOutcome, retain,
  persist_staged, mutations, load_from, load,
}
use cold_snap.Store.Names.{AllChars}
use cold_snap.Store.RoundTrip.{CodecLaws}
use cold_snap.Store.Keygen.{Utf8Laws, SlotLaws, triple}
use cold_snap.Store.Persist.{persist_staged-load}
use cold_snap.Messages.{
  finalize, core_message, DeviceSend, restoration, consolidate_backup, Refusal, Shown, nothing,
  info, page_shown,
}
use cold_snap.Protocol.Calls.{Call, received, answered, call}
use cold_snap.Protocol.{
  Session, Parts, persist, run, run_result, ask_signer, recv_core, recv, confirmed, confirm_shown,
  confirm_at, prompt_screen_at,
}
use cold_snap.Protocol.Loop.{work_loop-view}

-- The session saves with the store, and neither a batch of nonces nor a name is written to its slot.
pub record IsWired {X Pu Ki Sh Ph S F En Qz E C O : Type 0}
    (parts : Parts X (Mutation Pu Ki Sh) Ph S F En Qz E C O) (sha256 : List ℕ → List ℕ)
    (encode : ℕ → Coded Pu Ki Sh → Option (List ℕ)) (decode : List ℕ → Option (Coded Pu Ki Sh))
    (from_utf8 : List ℕ → Option Text) (try_write : List ℕ → F → AbWriteOutcome × F)
    (read : F → Option (List ℕ)) : Type 0 where
  pub saves :
      (st : List (Mutation Pu Ki Sh) × F)
      → parts.persist_staged st ≡ persist_staged sha256 encode decode from_utf8 try_write read st
  pub batch_lem :
      (batch : X) (signer : S) (f : F) → read (parts.run_until_finished batch signer f).1 ≡ read f
  pub name_lem : (name : List ℕ) (f : F) → read (parts.save_name name f).1 ≡ read f

-- What the store is made of, and a keygen that it can hold.
pub record IsStorable {Pu Ki Sh F : Type 0} (sha256 : List ℕ → List ℕ)
    (encode : ℕ → Coded Pu Ki Sh → Option (List ℕ)) (decode : List ℕ → Option (Coded Pu Ki Sh))
    (from_utf8 : List ℕ → Option Text) (try_write : List ℕ → F → AbWriteOutcome × F)
    (read : F → Option (List ℕ)) (IsChar : List ℕ → Type 0) (key structure : List ℕ) (threshold : ℕ)
    (name : Text) : Type 0 where
  pub utf8 : Utf8Laws IsChar from_utf8
  pub codec : CodecLaws encode decode
  pub ab_slot : SlotLaws try_write read
  pub digest_size : (m : List ℕ) → 8 ≤ length (sha256 m)
  pub chars : AllChars IsChar name
  pub key_size : length key ≡ 32
  pub structure_size : length structure ≡ 32
  pub threshold_size : threshold < 65536

module _ {X Mu Ph S F En Qz E C O : Type 0} (parts : Parts X Mu Ph S F En Qz E C O) where
  -- The calls that make a share durable, with the signer that they leave to the save: the coordinator's last
  -- message of a keygen, and the yes to a consolidation.
  pub data Stages (s : Session Ph S F En Qz) : Call X Ph → S → Type 0 where
    by_finalize :
        (m : X) (sends : List (DeviceSend X Ph)) (signer : S) (f : F)
        → parts.recv_coordinator_message (finalize m) (s.signer, s.flash) ≡ (ok sends, (signer, f))
        → Stages s (received (core_message (finalize m))) signer
    by_consolidation :
        (phase : X) (sends : List (DeviceSend X Ph)) (signer : S) (f : F)
        → parts.finish_consolidation phase ((parts.next_u32 s.signer).1, s.flash)
          ≡ (sends, (signer, f))
        → Stages s (answered (restoration (consolidate_backup phase)) 0) signer

module _ {X Pu Ki Sh Ph S F En Qz E C O : Type 0}
    (parts : Parts X (Mutation Pu Ki Sh) Ph S F En Qz E C O) (sha256 : List ℕ → List ℕ)
    (encode : ℕ → Coded Pu Ki Sh → Option (List ℕ)) (decode : List ℕ → Option (Coded Pu Ki Sh))
    (from_utf8 : List ℕ → Option Text) (try_write : List ℕ → F → AbWriteOutcome × F)
    (read : F → Option (List ℕ)) where
  abbrev Wired : Type 0
  Wired = IsWired parts sha256 encode decode from_utf8 try_write read

  abbrev saved_by :
      List (Mutation Pu Ki Sh) → F → Result (Unit {0}) StoreFault × (List (Mutation Pu Ki Sh) × F)
  saved_by staged f = persist_staged sha256 encode decode from_utf8 try_write read (staged, f)

  -- A save that fails ends the run, and nothing is told.
  run-untold :
      Wired
      → (sends : List (DeviceSend X Ph)) (s : Session Ph S F En Qz) (out : O) (e : StoreFault)
        (staged : List (Mutation Pu Ki Sh)) (f : F)
      → saved_by (parts.staged_mutations s.signer) s.flash ≡ (err e, (staged, f))
      → (run parts sends (s, out)).1.1 ≡ out
  unfolding run persist
  run-untold wired sends s out e staged f h =
      rw (wired.saves (parts.staged_mutations s.signer, s.flash), h) refl

  -- The slot is read behind the run as behind the save.
  run-read :
      Wired
      → (sends : List (DeviceSend X Ph)) (s : Session Ph S F En Qz) (out : O)
        (staged : List (Mutation Pu Ki Sh)) (f : F)
      → saved_by (parts.staged_mutations s.signer) s.flash ≡ (ok tt, (staged, f))
      → read (run parts sends (s, out)).1.0.flash ≡ read f
  unfolding run persist
  run-read wired sends s out staged f h =
      rw (wired.saves (parts.staged_mutations s.signer, s.flash), h)
        (work_loop-view parts (λ s. read s.flash)
          (λ s batch. wired.batch_lem batch s.signer s.flash)
          (λ s name. wired.name_lem name s.flash) (λ s name. refl) sends []
          (record s { signer = parts.set_staged staged s.signer; flash = f }, out))

  module _ (IsChar : List ℕ → Type 0) (key structure : List ℕ) (threshold : ℕ) (name : Text)
      (purpose : Pu) (kind : Ki) (share : Sh) where
    abbrev Storable : Type 0
    Storable =
        IsStorable sha256 encode decode from_utf8 try_write read IsChar key structure threshold name

    -- `load` reads a share whose mutations are the keygen's, the name cut.
    abbrev IsOnFlash : F → Type 0
    IsOnFlash f =
        (b : ShareBody Pu Ki Sh) × (load sha256 encode decode from_utf8 try_write read f ≡ held b)
        × (mutations sha256 encode decode from_utf8 b
            ≡ triple key structure threshold (take 15 name) purpose kind share)

    run-stored :
        Wired
        → Storable
        → (sends : List (DeviceSend X Ph)) (s : Session Ph S F En Qz) (out : O)
        → retain (parts.staged_mutations s.signer)
          ≡ triple key structure threshold name purpose kind share
        → (run parts sends (s, out)).1.1 ≢ out
        → IsOnFlash (run parts sends (s, out)).1.0.flash
    unfolding load
    run-stored wired laws sends s out kept told =
        let staged = parts.staged_mutations s.signer in
        let mine = triple key structure threshold name purpose kind share in
        elim (persist_staged-load sha256 encode decode from_utf8 try_write read IsChar laws.utf8 key
          structure threshold name purpose kind share laws.chars staged s.flash laws.digest_size
          laws.codec laws.ab_slot laws.key_size laws.structure_size laws.threshold_size kept) [
            | inl (n, p) ↦ absurd (told (run-untold wired sends s out too_big mine s.flash p))
            | inr (inl (r, e, f, w, p)) ↦
                absurd (told (run-untold wired sends s out (flash e) mine f p))
            | inr (inr (b, f, p, l, m)) ↦ (
              b,
              ap (load_from sha256 encode decode from_utf8 try_write read)
                    (run-read wired sends s out [] f p)
                  ∙ l,
              m,
            )
          ]

    -- The yes counts only on a page that is shown.
    shown-stored :
        Wired
        → Storable
        → (phase : X) (sends : List (DeviceSend X Ph)) (signer : S) (f : F)
          (s : Session Ph S F En Qz) (out : O)
        → parts.finish_consolidation phase (s.signer, s.flash) ≡ (sends, (signer, f))
        → retain (parts.staged_mutations signer)
          ≡ triple key structure threshold name purpose kind share
        → (shown : Result Shown Refusal)
        → (confirm_shown parts (restoration (consolidate_backup phase)) shown (s, out)).1.1 ≢ out
        → IsOnFlash
            (confirm_shown parts (restoration (consolidate_backup phase)) shown (s, out)).1.0.flash
    unfolding confirm_shown confirmed
    shown-stored wired laws phase sends signer f s out e kept (err why) = λ told. absurd (told refl)
    shown-stored wired laws phase sends signer f s out e kept (ok nothing) =
        λ told. absurd (told refl)
    shown-stored wired laws phase sends signer f s out e kept (ok info) = λ told. absurd (told refl)
    shown-stored wired laws phase sends signer f s out e kept (ok (page_shown false)) =
        λ told. absurd (told refl)
    shown-stored wired laws phase sends signer f s out e kept (ok (page_shown true)) =
        rw e (run-stored wired laws sends (record s { signer = signer; flash = f }) out kept)

    -- Over a session that saves with the store, a store that keeps its laws, and a keygen that it can hold: a
    -- call that ends a keygen or a consolidation, whose signer leaves the keygen staged beside any
    -- restorations, and that changes the outbox, leaves a flash from which `load` reads a share whose
    -- mutations are the keygen's, in their order, the name cut to fifteen characters.
    pub call-stored :
        (c : Call X Ph) (s : Session Ph S F En Qz) (out : O) (signer : S)
        → Wired
        → Storable
        → Stages parts s c signer
        → retain (parts.staged_mutations signer)
          ≡ triple key structure threshold name purpose kind share
        → (call parts c (s, out)).1 ≢ out
        → IsOnFlash (call parts c (s, out)).0.flash
    unfolding call recv recv_core ask_signer run_result confirm_at
    call-stored _ s out _ wired laws (by_finalize m sends signer f e) kept =
        rw (call, e)
          (run-stored wired laws sends (record s { signer = signer; flash = f }) out kept)
    call-stored _ s out _ wired laws (by_consolidation phase sends signer f e) kept =
        shown-stored wired laws phase sends signer f
          (record s { signer = (parts.next_u32 s.signer).1 }) out e kept
          (prompt_screen_at parts (restoration (consolidate_backup phase)) 0)
