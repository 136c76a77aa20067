-- ===== src/Protocol/Calls.antt =====
-- firmware/src/lib.rs: the methods of `Session` in any order.
use cold_snap.Prelude.{ℕ, List, [], ◌∷◌}
use cold_snap.Reveal.{show_backup, backup_recorded}
use cold_snap.Messages.{SendBody, UserMessage, told_recorded}
use cold_snap.Protocol.{Session, Parts, recv, confirm_at}
use cold_snap.Protocol.Keys.{entry_key, quiz_key}

-- What drives the session: a message of the coordinator, the yes to a prompt at a page, a key of an entry
-- or of a quiz, a page of a reveal, and the yes to its last question.
pub data Call (X Ph : Type 0) : Type 0 where
  received : SendBody X → Call X Ph
  answered : UserMessage X Ph → ℕ → Call X Ph
  typed chosen turned : ℕ → Call X Ph
  recorded : Call X Ph

module _ {X Mu Ph S F En Qz E C O : Type 0} (parts : Parts X Mu Ph S F En Qz E C O) where
  -- What a call leaves.
  unfoldable pub call : Call X Ph → Session Ph S F En Qz × O → Session Ph S F En Qz × O
  call (received body) st = (recv parts body st).1
  call (answered prompt page) st = (confirm_at parts prompt page st).1
  call (typed key) st = (entry_key parts key st).1
  call (chosen key) st = (quiz_key parts key st).1
  call (turned page) (s, out) =
      let (_, backup) = show_backup {C = C} parts.decrypt parts.share_index page s.backup in
      (record s { backup = backup }, out)
  call recorded (s, out) =
      let (_, (backup, out')) =
        backup_recorded {C = C} parts.decrypt parts.share_index (λ o. parts.push told_recorded o)
          (s.backup, out) in
      (record s { backup = backup }, out')

  unfoldable pub calls : List (Call X Ph) → Session Ph S F En Qz × O → Session Ph S F En Qz × O
  calls [] st = st
  calls (c ∷ cs) st = calls cs (call c st)
