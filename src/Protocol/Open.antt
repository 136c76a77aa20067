-- ===== src/Protocol/Open.antt =====
-- firmware/src/lib.rs, `Session::open`: a session is built of what is durable.
use cold_snap.Prelude.{ℕ, false, List, [], ◌∷◌, Option, none, some, Result, ok, err}
use cold_snap.Store.{
  Text, Coded, HeldShare, vacant, damaged, held, Mutation, AbWriteOutcome, mutations, load,
}
use cold_snap.Protocol.{Fault, identity_scalar, Session}

-- The calls of `frostsnap_core`: the check of the identity's scalar, the signer of a scalar, of the identity's
-- secret and of the nonce slots on flash, and a mutation that is applied.
pub record Boot (K Mu S F : Type 0) : Type 0 where
  pub from_bytes : List ℕ → Option K
  pub new_signer : K → List ℕ → F → S
  pub apply_mutation : Mu → S → S

module _ {K Mu S F : Type 0} (boot : Boot K Mu S F) where
  -- The loop over the mutations, in their order.
  unfoldable pub replay : List Mu → S → S
  replay [] signer = signer
  replay (m ∷ ms) signer = replay ms (boot.apply_mutation m signer)

module _ {Ph S F En Qz : Type 0} where
  -- The session around a signer.
  unfoldable pub session_of : S → F → Session Ph S F En Qz
  session_of signer f = record {
    signer = signer;
    flash = f;
    coordinator_acked = false;
    pending_name = none;
    backup = record { granted = none; seen_pages = 0; record_pending = false };
    entry = none;
    check = none;
  }

module _ {K Pu Ki Sh S F : Type 0} (boot : Boot K (Mutation Pu Ki Sh) S F)
    (sha256 : List ℕ → List ℕ) (encode : ℕ → Coded Pu Ki Sh → Option (List ℕ))
    (decode : List ℕ → Option (Coded Pu Ki Sh)) (from_utf8 : List ℕ → Option Text)
    (try_write : List ℕ → F → AbWriteOutcome × F) (read : F → Option (List ℕ)) where
  -- `if let`: a damaged record does nothing.
  unfoldable pub reloaded : HeldShare Pu Ki Sh → S → S
  reloaded vacant signer = signer
  reloaded damaged signer = signer
  reloaded (held b) signer = replay boot (mutations sha256 encode decode from_utf8 b) signer

  module _ {Ph En Qz E C : Type 0} where
    unfoldable pub open_with : Option K → List ℕ → F → Result (Session Ph S F En Qz) (Fault E C)
    open_with none secret f = err identity_scalar
    open_with (some scalar) secret f = ok (
        session_of
          (reloaded (load sha256 encode decode from_utf8 try_write read f)
            (boot.new_signer scalar secret f))
          f)

    unfoldable pub open_session : List ℕ → F → Result (Session Ph S F En Qz) (Fault E C)
    open_session secret f = open_with (boot.from_bytes secret) secret f
