-- ===== src/Protocol/Reload.antt =====
-- firmware/src/lib.rs: what the coordinator was told of is there again when the device starts.
use cold_snap.Prelude.{ℕ, ◌≡◌, ◌≢◌, false, refl, List, Option, none, some, ok, take}
use cold_snap.Store.{
  Text, Coded, Mutation, new_key, new_access_structure, save_share, AbWriteOutcome, retain,
}
use cold_snap.Store.Keygen.{triple}
use cold_snap.Protocol.{Session, Parts}
use cold_snap.Protocol.Calls.{Call, call}
use cold_snap.Protocol.Open.{Boot, replay, reloaded, session_of, open_with, open_session}
use cold_snap.Protocol.Stored.{IsWired, IsStorable, Stages, call-stored}

module _ {X Pu Ki Sh Ph S F En Qz E C O : Type 0}
    (parts : Parts X (Mutation Pu Ki Sh) Ph S F En Qz E C O) (sha256 : List ℕ → List ℕ)
    (encode : ℕ → Coded Pu Ki Sh → Option (List ℕ)) (decode : List ℕ → Option (Coded Pu Ki Sh))
    (from_utf8 : List ℕ → Option Text) (try_write : List ℕ → F → AbWriteOutcome × F)
    (read : F → Option (List ℕ)) {K : Type 0} (boot : Boot K (Mutation Pu Ki Sh) S F) where
  -- Over a session that saves with the store, a store that keeps its laws, and a keygen that it can hold: where
  -- a call that ends a keygen or a consolidation, and whose signer leaves the keygen staged beside any
  -- restorations, changes the outbox, a session that is opened on the flash that it leaves, with a secret
  -- that is a scalar, is one without a grant, a name, an entry or a check, and its signer is the new
  -- one with the keygen's key, its structure and its share applied in this order, the name cut to fifteen
  -- characters.
  pub call-reloaded :
      (IsChar : List ℕ → Type 0) (key structure : List ℕ) (threshold : ℕ) (name : Text)
      (purpose : Pu) (kind : Ki) (share : Sh) (c : Call X Ph) (s : Session Ph S F En Qz) (out : O)
      (signer : S) (secret : List ℕ) (scalar : K)
      → IsWired parts sha256 encode decode from_utf8 try_write read
      → IsStorable sha256 encode decode from_utf8 try_write read IsChar key structure threshold name
      → Stages parts s c signer
      → retain (parts.staged_mutations signer)
        ≡ triple key structure threshold name purpose kind share
      → (call parts c (s, out)).1 ≢ out
      → boot.from_bytes secret ≡ some scalar
      → open_session boot sha256 encode decode from_utf8 try_write read {Ph = Ph} {En = En}
          {Qz = Qz} {E = E} {C = C} secret
          (call parts c (s, out)).0.flash
        ≡ ok (record {
          signer = boot.apply_mutation (save_share key structure share) (
              boot.apply_mutation (new_access_structure key structure threshold kind) (
                boot.apply_mutation
                  (new_key key (take 15 name) purpose)
                  (boot.new_signer scalar secret (call parts c (s, out)).0.flash)));
          flash = (call parts c (s, out)).0.flash;
          coordinator_acked = false;
          pending_name = none;
          backup = record { granted = none; seen_pages = 0; record_pending = false };
          entry = none;
          check = none;
        })
  unfolding open_session open_with reloaded replay session_of
  call-reloaded IsChar key structure threshold name purpose kind share c s out signer secret scalar
        wired laws stages kept told e =
      let (b, l, m) =
        call-stored parts sha256 encode decode from_utf8 try_write read IsChar key structure
          threshold name purpose kind share c s out signer wired laws stages kept told in
      rw (e, l, m) refl
