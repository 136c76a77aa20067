-- ===== src/Upgrade.antt =====
-- firmware/src/upgrade.rs: the staging machine of a firmware upgrade. The memory is an instance of
-- the trait `Psram`, and SHA-256 is an argument.
pub mod Judge
pub mod Steady
pub mod Safety
pub mod Carry
pub mod Stream
pub mod Upload
use cold_snap.Prelude.{
  ℕ, ◌+◌, ◌-◌, ◌*◌, ◌/◌, ◌%◌, Bool, true, false, not, ◌&&◌, List, [], ◌∷◌, Option, none, some,
  Result, ok, err, ◌==◌, ltb, leb, if◌then◌else◌, length, take, drop, copy_into, replicate, min,
  u32_mod, sat_add32,
}
use cold_snap.Prelude.Bytes.{bytes_eq}
use cold_snap.Prelude.Exec.{Exec, pure, ◌>>=◌, ◌>>◌}
use cold_snap.Memmap.{fw_body_align, fw_min_body_len}
use cold_snap.Psram.{
  PsramOps, PsramError, StageError, psram_stage_offset, burn_len_max, write_align, staged_burn_len,
  readback_selftest,
}
use cold_snap.Firmware.{firmware_digest}

pub data Refuse : Type 0 where
  legacy out_of_order unaligned too_small too_large : Refuse
  selftest psram : PsramError → Refuse
  extra_bytes unreadable length_disagreement digest : Refuse

pub data State : Type 0 where
  idle : State
  prepared : ℕ → State
  streaming : ℕ → ℕ → State
  staged : ℕ → State
  refused : Refuse → State

-- `CoordinatorUpgradeMessage` of frostsnap_comms: a size and a digest, where it has them.
pub data UpgradeMessage : Type 0 where
  prepare_upgrade prepare_upgrade2 : ℕ → List ℕ → UpgradeMessage
  enter_upgrade_mode : UpgradeMessage

pub record Stager (P : Type 0) : Type 0 where
  pub part : P
  pub state : State
  pub expected : List ℕ
  pub carry : List ℕ
  pub carry_len : ℕ
  pub written : ℕ

-- `FIRMWARE_UPGRADE_CHUNK_LEN` of frostsnap_comms
abbrev chunk_len : ℕ
chunk_len = 4096

unfoldable pub new : {P : Type 0} → P → Stager P
new p = record {
  part = p;
  state = idle;
  expected = replicate 32 0;
  carry = replicate write_align 0;
  carry_len = 0;
  written = 0;
}

unfoldable is_streaming : {P : Type 0} → Stager P → Bool
is_streaming s = elim s.state [ streaming _ _ ↦ true | _ ↦ false ]

-- `refuse` and `refuse_n`: the reason is recorded and reported.
abbrev pub refuse : {P A : Type 0} → Refuse → Exec (Stager P) A Refuse
refuse why s = (err why, record s { state = refused why })

-- The ready bytes that are owed once `r` bytes have landed.
unfoldable pub acks_at : ℕ → ℕ → ℕ
acks_at size r = if r == size then (size + 4095) / chunk_len else r / chunk_len

-- A header's number that is not the announced size, or a window that is no image at all.
unfoldable pub stage_verdict : StageError → Refuse
stage_verdict StageError.too_small = length_disagreement
stage_verdict StageError.too_large = length_disagreement
stage_verdict StageError.truncated = length_disagreement
stage_verdict _ = unreadable

-- The verdict on the read-back image, before it is applied to the state.
unfoldable pub judge : (List ℕ → List ℕ) → List ℕ → ℕ → List ℕ → Result (Unit {0}) Refuse
judge sha256 expected size view = elim (staged_burn_len view) [
  | err e ↦ err (stage_verdict e)
  | ok declared ↦
      if not (declared == size)
      then err length_disagreement
      else elim (firmware_digest sha256 view) [
        | none ↦ err unreadable
        | some got ↦ if bytes_eq got expected then ok tt else err digest
      ]
]

abbrev pub apply_verdict :
    {P : Type 0} → Result (Unit {0}) Refuse → ℕ → Exec (Stager P) (Unit {0}) Refuse
apply_verdict (ok _) size s = (ok tt, record s { state = staged size })
apply_verdict (err why) size s = refuse why s

-- What `put` and `prepare` do with the memory's answer.
abbrev pub put_result :
    {P : Type 0}
    → ℕ
    → Stager P
    → Result (Unit {0}) PsramError × P
    → Result (Unit {0}) Refuse × Stager P
put_result n s (err e, p) = (err (psram e), record s { part = p })
put_result n s (ok _, p) = (ok tt, record s { part = p; written = (s.written + n) % u32_mod })

abbrev pub prepare_result :
    {P : Type 0}
    → ℕ
    → List ℕ
    → Stager P
    → Result (Unit {0}) PsramError × P
    → Result (Unit {0}) Refuse × Stager P
prepare_result size announced s (err e, p) = refuse (selftest e) (record s { part = p })
prepare_result size announced s (ok _, p) =
    (ok tt, record s { part = p; expected = announced; state = prepared size })

module _ {P : Type 0} (ps : PsramOps P) where
  -- The arm of `admit` for `PrepareUpgrade2`.
  unfoldable pub prepare : ℕ → List ℕ → Exec (Stager P) (Unit {0}) Refuse
  prepare size announced s0 =
      let s = record s0 { state = idle; written = 0; carry_len = 0 } in
      if not (size % fw_body_align == 0)
      then refuse unaligned s
      else if ltb size fw_min_body_len
      then refuse too_small s
      else if ltb burn_len_max size
      then refuse too_large s
      else prepare_result size announced s (readback_selftest ps psram_stage_offset size s.part)

  -- The arm for `EnterUpgradeMode`.
  abbrev pub enter_in : State → Exec (Stager P) (Unit {0}) Refuse
  enter_in (prepared size) s = (ok tt, record s { state = streaming size 0 })
  enter_in _ s = refuse out_of_order s

  unfoldable pub enter : Exec (Stager P) (Unit {0}) Refuse
  enter s = enter_in s.state s

  unfoldable pub admit : UpgradeMessage → Exec (Stager P) (Unit {0}) Refuse
  admit (prepare_upgrade size announced) = refuse legacy
  admit (prepare_upgrade2 size announced) = prepare size announced
  admit enter_upgrade_mode = enter

  -- One write at the staging cursor. A refusal of the memory is reported, and not recorded.
  unfoldable pub put : List ℕ → Exec (Stager P) (Unit {0}) Refuse
  put w s = put_result (length w) s (ps.write ((psram_stage_offset + s.written) % u32_mod) w s.part)

  unfoldable pub clear_carry : List ℕ → Exec (Stager P) (List ℕ) Refuse
  clear_carry rest s = (ok rest, record s { carry_len = 0 })

  -- A carry that is a whole word is written, and emptied.
  unfoldable pub flush : List ℕ → Exec (Stager P) (List ℕ) Refuse
  flush rest s =
      if s.carry_len == write_align then (do put s.carry; clear_carry rest) s else (ok rest, s)

  -- Step 1 of `feed`: top the carry up to a word and flush it; what is left of the bytes.
  unfoldable pub top_up : List ℕ → Exec (Stager P) (List ℕ) Refuse
  top_up bytes s =
      let n = min (write_align - s.carry_len) (length bytes) in
      if ltb 0 s.carry_len
      then flush (drop n bytes) (record s {
        carry = copy_into s.carry s.carry_len (take n bytes);
        carry_len = (s.carry_len + n) % 256;
      })
      else (ok bytes, s)

  unfoldable pub keep_tail : List ℕ → Exec (Stager P) (Unit {0}) Refuse
  keep_tail tail s = (ok tt, record s { carry = copy_into s.carry 0 tail; carry_len = length tail })

  -- Steps 2 and 3: the whole words of the rest, and its last bytes for the next call.
  unfoldable pub spill : List ℕ → Exec (Stager P) (Unit {0}) Refuse
  spill [] s = (ok tt, s)
  spill (b ∷ bs) s =
      let rest = b ∷ bs in
      let whole = length rest - length rest % write_align in
      let tail = drop whole rest in
      if ltb 0 whole then (do put (take whole rest); keep_tail tail) s else keep_tail tail s

  module _ (sha256 : List ℕ → List ℕ) where
    -- `verify` on the read-back window, once the stream is complete.
    abbrev pub verify_in : State → Exec (Stager P) (Unit {0}) Refuse
    verify_in (streaming size _) s = elim (ps.view s.part size) [
      | err _ ↦ refuse unreadable s
      | ok view ↦ apply_verdict (judge sha256 s.expected size view) size s
    ]
    verify_in _ s = refuse out_of_order s

    unfoldable pub verify : Exec (Stager P) (Unit {0}) Refuse
    verify s = verify_in s.state s

    -- The end of `feed`: the new count, the acks owed, and the verdict when the stream is complete.
    unfoldable pub settle : ℕ → ℕ → ℕ → Exec (Stager P) ℕ Refuse
    settle size before received s0 =
        let s = record s0 { state = streaming size received } in
        let owed = (acks_at size received + u32_mod - acks_at size before) % u32_mod in
        if received == size then (do verify; pure owed) s else (ok owed, s)

    abbrev pub feed_in : State → List ℕ → Exec (Stager P) ℕ Refuse
    feed_in (streaming size received) bytes s =
        let n = length bytes in
        if ltb n u32_mod && leb (sat_add32 received n) size
        then (do rest ← top_up bytes; spill rest; settle size received ((received + n) % u32_mod)) s
        else refuse extra_bytes s
    feed_in _ bytes s = refuse out_of_order s

    unfoldable pub feed : List ℕ → Exec (Stager P) ℕ Refuse
    feed bytes s = feed_in s.state bytes s

    -- The chunks of a stream, in order; the ready bytes that the wire is sent for them.
    unfoldable pub feed_all : List (List ℕ) → Exec (Stager P) ℕ Refuse
    feed_all [] s = (ok 0, s)
    feed_all (chunk ∷ chunks) s =
        (do acks ← feed chunk; more ← feed_all chunks; pure (acks + more)) s

    -- A whole upgrade, as the coordinator drives it.
    unfoldable pub upload : ℕ → List ℕ → List (List ℕ) → Exec (Stager P) ℕ Refuse
    upload size announced chunks = do
      admit (prepare_upgrade2 size announced)
      admit enter_upgrade_mode
      feed_all chunks
