-- ===== src/Messages.antt =====
-- What `Session` of firmware/src/lib.rs is sent, asks and answers: the arms of its matches on the messages of
-- `frostsnap_comms` and `frostsnap_core`. `X` is what is passed on and never read.
use cold_snap.Prelude.{ℕ, Bool, List, Option}

pub data Refusal : Type 0 where
  firmware_upgrade data_erase genuine_challenge display_backup physical_backup undisplayable :
      Refusal
  address_verify group_too_large : Refusal

-- Of a `Begin` the count of its devices and its threshold are read.
pub data CoreMessage (X : Type 0) : Type 0 where
  begin : List X → ℕ → X → CoreMessage X
  certify_please keygen_check finalize : X → CoreMessage X
  open_nonce_streams request_sign : X → CoreMessage X
  request_held_shares display_backup enter_physical_backup save_physical_backup
        save_physical_backup2 consolidate check_backup :
      X → CoreMessage X
  verify_address : X → ℕ → CoreMessage X

pub data SendBody (X : Type 0) : Type 0 where
  core_message : CoreMessage X → SendBody X
  preview : List ℕ → SendBody X
  name_prompt upgrade challenge : X → SendBody X
  announce_ack cancel erase_data : SendBody X

-- `Ph` is the phase of a backup that is to be shown.
pub data UserRestoration (X Ph : Type 0) : Type 0 where
  display_backup check_backup : Ph → UserRestoration X Ph
  enter_backup consolidate_backup backup_saved : X → UserRestoration X Ph

pub data UserMessage (X Ph : Type 0) : Type 0 where
  nonce_jobs finalize_keygen check_keygen signature_request verify_address : X → UserMessage X Ph
  restoration : UserRestoration X Ph → UserMessage X Ph

pub data DeviceSend (X Ph : Type 0) : Type 0 where
  to_coordinator : X → DeviceSend X Ph
  to_user : UserMessage X Ph → DeviceSend X Ph

-- What this code pushes. What `BackupChecked` names is of the phase.
pub data Reply (X Ph : Type 0) : Type 0 where
  core_reply : X → Reply X Ph
  set_name : List ℕ → Reply X Ph
  backup_checked : Ph → Reply X Ph
  told_recorded : Reply X Ph

pub data Typed (X Ph : Type 0) : Type 0 where
  typed_unchanged typed_redraw : Typed X Ph
  typed_ended : List (UserMessage X Ph) → Typed X Ph

pub data Checked : Type 0 where
  checked_unchanged checked_redraw : Checked
  checked_ended : Option ℕ → Checked

pub data Shown : Type 0 where
  nothing info : Shown
  page_shown : Bool → Shown
