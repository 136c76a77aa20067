-- ===== src/Reveal/Told.antt =====
-- firmware/src/main.rs and firmware/src/lib.rs: which move of the event loop tells the coordinator that a
-- backup is on paper, and what has been shown before it.
use cold_snap.Prelude.{
  ℕ, ◌<◌, ◌≡◌, ◌≢◌, refl, sym, ap, ◌∙◌, Bool, true, false, List, [], Option, none, some, Result, ok,
  err,
}
use cold_snap.Prelude.Exec.{map_err}
use cold_snap.Keypad.{Event, KeypadError, down}
use cold_snap.Consent.{
  ConfirmDigit, confirm_digit, Answer, wait, next, back, yes_answer, no_answer, key, Reveal, page,
  recorded, ask, reveal_consent, question, pages, reveal_step, reveal_draw, backup_end, RevealStep,
  RevealScreen, page_screen, recorded_screen, idle_screen, refuse_screen, park, show, ack, idle,
}
use cold_snap.Consent.Answers.{answer-yes_iff}
use cold_snap.Reveal.{
  Fault, Session, Loop, Move, read, consented, cancelled, taken, grant, show_backup, recorded_if,
  backup_recorded, drawn_page, show_backup_page, take_step, turn, granted_page, step, run, opened,
}
use cold_snap.Reveal.Whole.{On, opened-IsTraced, run-IsTraced}

reveal_step-ack :
    (state : Reveal) (a : Answer) (end : ℕ)
    → reveal_step state a end ≡ ack
    → (digit : ℕ) × (state ≡ recorded (confirm_digit digit)) × (a ≡ yes_answer)
unfolding reveal_step
reveal_step-ack (page n) wait end h = absurd (cc h)
reveal_step-ack (page n) next end h = absurd (cc h)
reveal_step-ack (page n) back end h = absurd (cc h)
reveal_step-ack (page n) yes_answer end h = absurd (cc h)
reveal_step-ack (page n) no_answer end h = absurd (cc h)
reveal_step-ack (page n) (key k) end h = absurd (cc h)
reveal_step-ack (recorded (confirm_digit d)) yes_answer end h = (d, refl, refl)
reveal_step-ack (recorded d) wait end h = absurd (cc h)
reveal_step-ack (recorded d) next end h = absurd (cc h)
reveal_step-ack (recorded d) back end h = absurd (cc h)
reveal_step-ack (recorded d) no_answer end h = absurd (cc h)
reveal_step-ack (recorded d) (key k) end h = absurd (cc h)

-- The digit of the question is the only key that answers it.
ask-yes :
    (event : Option (Result Event KeypadError)) (digit : ℕ)
    → ask {P = Unit {0}} event (question (confirm_digit digit)) true ≡ yes_answer
    → event ≡ some (ok (down digit))
unfolding ask
ask-yes none digit h = absurd (cc h)
ask-yes (some e) digit h =
    let (d, pressed, printed, _, _) =
      (answer-yes_iff {P = Unit {0}} e (question (confirm_digit digit)) true).0 h in
    let same : digit ≡ d = cc printed in ap some (pressed ∙ ap (λ n. ok (down n)) (sym same))

module _ {Ph O : Type 0} where
  drawn_page-outbox :
      (n : ℕ) (shown : RevealScreen × Option Reveal) (l : Loop Ph O)
      → (drawn_page n shown l).outbox ≡ l.outbox
  unfolding drawn_page
  drawn_page-outbox n (page_screen, cursor) l = refl
  drawn_page-outbox n (recorded_screen digit, cursor) l = refl
  drawn_page-outbox n (idle_screen, cursor) l = refl
  drawn_page-outbox n (refuse_screen, cursor) l = refl

module _ {Ph A C O : Type 0} (decrypt : Ph → Result (List (List ℕ)) A) (share_index : Ph → Option ℕ)
    (push : O → Result (Unit {0}) C × O) where
  show_backup_page-outbox :
      (n : ℕ) (confirm : ConfirmDigit) (l : Loop Ph O)
      → (show_backup_page decrypt share_index push n confirm l).outbox ≡ l.outbox
  unfolding show_backup_page
  show_backup_page-outbox n confirm l =
      let r = show_backup {C = C} decrypt share_index n l.session in
      drawn_page-outbox n (reveal_draw n (map_err (λ f. tt) r.0) r.1.record_pending confirm)
        (record l { session = r.1 })

  recorded-outbox :
      (pending : Bool) (s : Session Ph) (out : O)
      → (recorded_if {A = A} push pending (s, out)).1.1 ≢ out
      → pending ≡ true
  unfolding recorded_if
  recorded-outbox true s out h = refl
  recorded-outbox false s out h = absurd (h refl)

  take_step-outbox :
      (state : Reveal) (next_step : RevealStep) (confirm : ConfirmDigit) (l : Loop Ph O)
      → (take_step decrypt share_index push state next_step confirm l).outbox ≢ l.outbox
      → (next_step ≡ ack) × (l.session.record_pending ≡ true)
  unfolding take_step backup_recorded
  take_step-outbox state park confirm l h = absurd (h refl)
  take_step-outbox state (show n) confirm l h = absurd (h (show_backup_page-outbox n confirm l))
  take_step-outbox state ack confirm l h = (
    refl,
    recorded-outbox l.session.record_pending (record l.session { record_pending = false }) l.outbox
        h,
  )
  take_step-outbox state idle confirm l h = absurd (h refl)

  turn-outbox :
      (event : Option (Result Event KeypadError)) (confirm : ConfirmDigit) (glass : Option Reveal)
      (l : Loop Ph O)
      → (turn decrypt share_index push event confirm glass l).outbox ≢ l.outbox
      → (digit : ℕ) × (event ≡ some (ok (down digit)))
        × (glass ≡ some (recorded (confirm_digit digit)))
        × (l.session.record_pending ≡ true)
  unfolding turn reveal_consent
  turn-outbox event confirm none l h = absurd (h refl)
  turn-outbox event confirm (some (page n)) l h =
      let a = ask {P = Unit {0}} event pages false in
      let (acks, armed) =
        take_step-outbox (page n) (reveal_step (page n) a backup_end) confirm
          (record l { glass = none }) h in
      let (d, same, _) = reveal_step-ack (page n) a backup_end acks in absurd (cc same)
  turn-outbox event confirm (some (recorded (confirm_digit digit))) l h =
      let a = ask {P = Unit {0}} event (question (confirm_digit digit)) true in
      let (acks, armed) =
        take_step-outbox (recorded (confirm_digit digit))
          (reveal_step (recorded (confirm_digit digit)) a backup_end) confirm
          (record l { glass = none }) h in
      let (d, same, yes_here) =
        reveal_step-ack (recorded (confirm_digit digit)) a backup_end acks in
      (digit, ask-yes event digit yes_here, refl, armed)

  granted-outbox :
      (r : Result (Unit {0}) (Fault A C) × Session Ph) (confirm : ConfirmDigit) (l : Loop Ph O)
      → (granted_page decrypt share_index push r confirm l).outbox ≡ l.outbox
  unfolding granted_page
  granted-outbox (ok u, s) confirm l =
      show_backup_page-outbox 0 confirm (record l { session = s; shown = [] })
  granted-outbox (err f, s) confirm l = refl

  step-outbox :
      (m : Move Ph) (l : Loop Ph O)
      → (step decrypt share_index push m l).outbox ≢ l.outbox
      → (digit : ℕ) × (confirm : ConfirmDigit) × (m ≡ read (some (ok (down digit))) confirm)
        × (l.glass ≡ some (recorded (confirm_digit digit)))
        × (l.session.record_pending ≡ true)
  unfolding step
  step-outbox (read event confirm) l h =
      let (digit, pressed, up, armed) = turn-outbox event confirm l.glass l h in
      (digit, confirm, ap (λ e. read e confirm) pressed, up, armed)
  step-outbox (consented phase confirm) l h =
      absurd (h (granted-outbox (grant decrypt share_index phase l.session) confirm l))
  step-outbox cancelled l h = absurd (h refl)
  step-outbox taken l h = absurd (h refl)

  -- After any moves from the start of a session on, a move that changes the outbox is the key of the digit
  -- that the question on the glass printed, and each of the eight pages of the backup has been shown
  -- since the last grant.
  pub run-told :
      (moves : List (Move Ph)) (out : O) (m : Move Ph)
      → (step decrypt share_index push m (run decrypt share_index push moves (opened out))).outbox
        ≢ (run decrypt share_index push moves (opened out)).outbox
      → ((q : ℕ) → q < 8 → On q (run decrypt share_index push moves (opened out)).shown)
        × ((digit : ℕ) × (confirm : ConfirmDigit) × (m ≡ read (some (ok (down digit))) confirm)
            × ((run decrypt share_index push moves (opened out)).glass
                ≡ some (recorded (confirm_digit digit))))
  run-told moves out m h =
      let l = run decrypt share_index push moves (opened out) in
      let t = run-IsTraced decrypt share_index push moves (opened out) (opened-IsTraced out) in
      let (digit, confirm, pressed, up, armed) = step-outbox m l h in
      (t.armed armed, (digit, confirm, pressed, up))
