-- ===== src/Protocol/Keys.antt =====
-- firmware/src/lib.rs, `entry_key` and `quiz_key` of `Session`: a key of a granted entry or quiz.
use cold_snap.Prelude.{ℕ, [], Option, none, some, ok, err}
use cold_snap.Prelude.Exec.{pure, continue}
use cold_snap.Wordentry.{Step, unchanged, redraw, abort, entered}
use cold_snap.Quiz.{passed, quiz_positions}
use cold_snap.Messages.{
  Checked, Typed, backup_checked, checked_ended, checked_redraw, checked_unchanged, physical_backup,
  typed_ended, typed_redraw, typed_unchanged,
}
use cold_snap.Protocol.{refused, Checking, Parts, push_reply, run, Act}

module _ {X Mu Ph S F En Qz E C O : Type 0} (parts : Parts X Mu Ph S F En Qz E C O) where
  -- The match on the entry's step.
  unfoldable pub entry_taken : Step X × En → Act parts (Typed X Ph)
  entry_taken (unchanged, entry) (s, out) =
      (ok typed_unchanged, (record s { entry = some entry }, out))
  entry_taken (redraw, entry) (s, out) = (ok typed_redraw, (record s { entry = some entry }, out))
  entry_taken (abort, entry) st = (ok (typed_ended []), st)
  entry_taken (entered backup, entry) (s, out) =
      let (sends, signer) = parts.tell_load_result entry backup s.signer in
      continue (run parts sends (record s { signer = signer }, out))
        (λ prompts. pure (typed_ended prompts))

  unfoldable pub entry_from : ℕ → Option En → Act parts (Typed X Ph)
  entry_from key none st = (err (refused physical_backup), st)
  entry_from key (some entry) st = entry_taken (parts.entry_key key entry) st

  -- The entry is taken first.
  unfoldable pub entry_key : ℕ → Act parts (Typed X Ph)
  entry_key key (s, out) = entry_from key s.entry (record s { entry = none }, out)

  unfoldable pub quiz_taken : Ph → cold_snap.Quiz.Step × Qz × S → Act parts Checked
  quiz_taken asked (cold_snap.Quiz.Step.unchanged, quiz, signer) (s, out) = (
    ok checked_unchanged,
    (record s { signer = signer; check = some (record { quiz = quiz; asked = asked }) }, out),
  )
  quiz_taken asked (cold_snap.Quiz.Step.redraw, quiz, signer) (s, out) = (
    ok checked_redraw,
    (record s { signer = signer; check = some (record { quiz = quiz; asked = asked }) }, out),
  )
  quiz_taken asked (cold_snap.Quiz.Step.abort, quiz, signer) (s, out) =
      (ok (checked_ended none), (record s { signer = signer }, out))
  quiz_taken asked (passed, quiz, signer) (s, out) =
      continue (push_reply parts (backup_checked asked) (record s { signer = signer }, out))
        (λ _. pure (checked_ended (some quiz_positions)))

  unfoldable pub quiz_of : ℕ → Option (Checking Qz Ph) → Act parts Checked
  quiz_of key none st = (err (refused physical_backup), st)
  quiz_of key (some check) (s, out) =
      quiz_taken check.asked (parts.quiz_key key check.quiz s.signer) (s, out)

  unfoldable pub quiz_key : ℕ → Act parts Checked
  quiz_key key (s, out) = quiz_of key s.check (record s { check = none }, out)
