-- ===== src/Reveal.antt =====
-- firmware/src/lib.rs: the reveal of a backup in `Session`, hal/src/ui.rs: its pages, and
-- firmware/src/main.rs: the branch of the event loop that drives it. The decryption of a share is an
-- argument, the panel is there, and of a frame only whether it was drawn is kept.
pub mod Bits
pub mod Pages
pub mod Whole
pub mod Told
pub mod Walk
use cold_snap.Prelude.{
  ℕ, zero, suc, ◌+◌, ◌-◌, ◌*◌, ◌/◌, ◌%◌, ◌^◌, Bool, true, false, not, ◌&&◌, ◌||◌, List, [], ◌∷◌,
  ◌++◌, Option, none, some, Result, ok, err, ◌>>=◌, ◌>>◌, ◌==◌, ltb, leb, if◌then◌else◌, length,
  get_range, min, bit_or, sat_add32,
}
use cold_snap.Prelude.Exec.{map_err}
use cold_snap.Keypad.{Event, KeypadError}
use cold_snap.Wordentry.{backup_words, max_word_len}
use cold_snap.Wordentry.Letters.{is_ascii_uppercase}
use cold_snap.Consent.{
  ConfirmDigit, words_per_page, Answer, Consent, ask, Reveal, page, RevealStep, park, show, ack,
  idle, RevealScreen, page_screen, recorded_screen, idle_screen, refuse_screen, reveal_draw,
  reveal_step, reveal_consent, backup_end,
}

pub data Unrenderable : Type 0 where
  bad_word_list : Unrenderable

unfoldable pub is_ascii_lowercase : ℕ → Bool
is_ascii_lowercase b = leb 97 b && leb b 122

-- `s.bytes().all(test)`
unfoldable pub all_bytes : (ℕ → Bool) → List ℕ → Bool
all_bytes test [] = true
all_bytes test (b ∷ bs) = test b && all_bytes test bs

unfoldable pub check_letters : List ℕ → ℕ → Result (Unit {0}) Unrenderable
check_letters s max_len =
    if ltb max_len (length s)
    then err bad_word_list
    else if not (all_bytes is_ascii_uppercase s || all_bytes is_ascii_lowercase s)
    then err bad_word_list
    else ok tt

unfoldable pub check_word : List ℕ → Result (Unit {0}) Unrenderable
check_word [] = err bad_word_list
check_word (b ∷ w) = check_letters (b ∷ w) max_word_len

unfoldable pub check_all : List (List ℕ) → Result (Unit {0}) Unrenderable
check_all [] = ok tt
check_all (w ∷ words) = let rest = check_all words in do check_word w; rest

pub record BackupPages : Type 0 where
  pub share_index : ℕ
  pub words : List (List ℕ)

pub data BackupPage : Type 0 where
  share_index_page : ℕ → BackupPage
  words_page : ℕ → List (List ℕ) → BackupPage

unfoldable pub new : ℕ → List (List ℕ) → Result BackupPages Unrenderable
new index words =
    if not (length words == backup_words)
    then err bad_word_list
    else (do check_all words; ok (record { share_index = index; words = words }))

unfoldable pub len : BackupPages → ℕ
len pages = 1 + (length pages.words + words_per_page - 1) / words_per_page

-- The words of a page, where there are some.
unfoldable pub words_from : ℕ → Option (List (List ℕ)) → Option BackupPage
words_from start none = none
words_from start (some []) = none
words_from start (some (w ∷ words)) = some (words_page (start + 1) (w ∷ words))

-- The product is of 32 bits, and wraps.
unfoldable pub page_at : BackupPages → ℕ → Option BackupPage
page_at pages zero = some (share_index_page pages.share_index)
page_at pages (suc before) =
    let start = before * words_per_page % 4294967296 in
    words_from start
      (get_range start (min (sat_add32 start words_per_page) (length pages.words)) pages.words)

-- Whether the page was composed.
unfoldable pub render : BackupPages → ℕ → Bool
render pages index = elim (page_at pages index) [ none ↦ false | some p ↦ true ]

-- `1u32.checked_shl`
unfoldable pub page_bit : ℕ → Option ℕ
page_bit n = if ltb n 32 then some (2 ^ n) else none

unfoldable pub all_pages : ℕ → Option ℕ
all_pages count = elim (page_bit count) [
  | none ↦ none
  | some bits ↦ if bits == 1 then none else some (bits - 1)
]

-- Of the faults, those of these functions: the decryption's and the outbox's are arguments.
pub data Fault (A C : Type 0) : Type 0 where
  refused_display_backup : Fault A C
  action : A → Fault A C
  comms : C → Fault A C

-- The fields of `Session` that a reveal uses, with the phase that it reveals.
pub record Session (Ph : Type 0) : Type 0 where
  pub granted : Option Ph
  pub seen_pages : ℕ
  pub record_pending : Bool

-- `unwrap_or(0)`
unfoldable pub or_zero : Option ℕ → ℕ
or_zero none = 0
or_zero (some bit) = bit

-- `is_some_and(|all| seen == all)`
unfoldable pub is_all : ℕ → Option ℕ → Bool
is_all seen none = false
is_all seen (some all) = seen == all

unfoldable pub index_of : {A C : Type 0} → Option ℕ → Result ℕ (Fault A C)
index_of none = err refused_display_backup
index_of (some index) = ok index

module _ {Ph A C : Type 0} where
  -- The reveal's arm of `confirm_at`.
  unfoldable pub grant_from :
      Ph → Result BackupPages (Fault A C) → Session Ph → Result (Unit {0}) (Fault A C) × Session Ph
  grant_from phase (err f) s = (err f, s)
  grant_from phase (ok pages) s =
      (ok tt, record { granted = some phase; seen_pages = 0; record_pending = false })

  -- The end of `show_backup`, by whether the page was drawn.
  unfoldable pub after_render :
      ℕ → Ph → ℕ → Bool → Session Ph → Result Bool (Fault A C) × Session Ph
  after_render n phase count true s = (
    ok true,
    record s { granted = some phase; seen_pages = bit_or s.seen_pages (or_zero (page_bit n)) },
  )
  after_render n phase count false s =
      (ok false, record s { record_pending = is_all s.seen_pages (all_pages count) })

  unfoldable pub show_pages :
      ℕ → Ph → Result BackupPages (Fault A C) → Session Ph → Result Bool (Fault A C) × Session Ph
  show_pages n phase (err f) s = (err f, s)
  show_pages n phase (ok pages) s = after_render n phase (len pages) (render pages n) s

-- The variables of the event loop that a reveal uses, with the outbox `O`. `shown` is no variable of the
-- code: the pages that the panel has shown since the last grant.
pub record Loop (Ph O : Type 0) : Type 0 where
  pub session : Session Ph
  pub outbox : O
  pub glass : Option Reveal
  pub shown : List ℕ

-- The state of these variables after `Session::open`.
unfoldable pub opened : {Ph O : Type 0} → O → Loop Ph O
opened out = record {
  session = record { granted = none; seen_pages = 0; record_pending = false };
  outbox = out;
  glass = none;
  shown = [];
}

-- What the loop meets: a read of the pad, the yes to the prompt of a reveal, a coordinator's `Cancel`,
-- and anything else that takes the glass.
pub data Move (Ph : Type 0) : Type 0 where
  read : Option (Result Event KeypadError) → ConfirmDigit → Move Ph
  consented : Ph → ConfirmDigit → Move Ph
  cancelled taken : Move Ph

module _ {Ph O : Type 0} where
  -- The end of `show_backup_page`: the panel's screen and the cursor.
  unfoldable pub drawn_page : ℕ → RevealScreen × Option Reveal → Loop Ph O → Loop Ph O
  drawn_page n (page_screen, cursor) l = record l { glass = cursor; shown = l.shown ++ n ∷ [] }
  drawn_page n (recorded_screen digit, cursor) l = record l { glass = cursor }
  drawn_page n (idle_screen, cursor) l = record l { glass = cursor }
  drawn_page n (refuse_screen, cursor) l = record l { glass = cursor }

module _ {Ph A C O : Type 0} (push : O → Result (Unit {0}) C × O) where
  unfoldable pub recorded_if :
      Bool → Session Ph × O → Result (Unit {0}) (Fault A C) × (Session Ph × O)
  recorded_if false st = (err refused_display_backup, st)
  recorded_if true (s, out) = let (r, out') = push out in (map_err comms r, (s, out'))

-- `phase.decrypt_to_backup(secrets)` with its words, and the share's index where a `u32` holds it.
module _ {Ph A C : Type 0} (decrypt : Ph → Result (List (List ℕ)) A)
    (share_index : Ph → Option ℕ) where
  unfoldable pub words_of : Ph → Result (List (List ℕ)) (Fault A C)
  words_of phase = map_err action (decrypt phase)

  unfoldable pub backup_pages : Ph → Result BackupPages (Fault A C)
  backup_pages phase = do
    words ← words_of phase
    index ← index_of (share_index phase)
    map_err (λ e. refused_display_backup) (new index words)

  unfoldable pub grant : Ph → Session Ph → Result (Unit {0}) (Fault A C) × Session Ph
  grant phase s = grant_from phase (backup_pages phase) s

  unfoldable pub show_granted : ℕ → Option Ph → Session Ph → Result Bool (Fault A C) × Session Ph
  show_granted n none s = (err refused_display_backup, s)
  show_granted n (some phase) s = show_pages n phase (backup_pages phase) s

  -- The grant is taken first.
  unfoldable pub show_backup : ℕ → Session Ph → Result Bool (Fault A C) × Session Ph
  show_backup n s = show_granted n s.granted (record s { granted = none })

  -- `out.push` of `CommsMisc::BackupRecorded` is an argument, over the outbox.
  module _ {O : Type 0} (push : O → Result (Unit {0}) C × O) where
    unfoldable pub backup_recorded :
        Session Ph × O → Result (Unit {0}) (Fault A C) × (Session Ph × O)
    backup_recorded (s, out) =
        recorded_if push s.record_pending (record s { record_pending = false }, out)

    unfoldable pub show_backup_page : ℕ → ConfirmDigit → Loop Ph O → Loop Ph O
    show_backup_page n confirm l =
        let (shown, s) = show_backup n l.session in
        drawn_page n (reveal_draw n (map_err (λ f. tt) shown) s.record_pending confirm)
          (record l { session = s })

    -- The arms of the loop's match on a step. The cursor was taken off before.
    unfoldable pub take_step : Reveal → RevealStep → ConfirmDigit → Loop Ph O → Loop Ph O
    take_step state park confirm l = record l { glass = some state }
    take_step state (show n) confirm l = show_backup_page n confirm l
    take_step state ack confirm l =
        let (_, (s, out)) = backup_recorded (l.session, l.outbox) in
        record l { session = s; outbox = out }
    take_step state idle confirm l = l

    -- An iteration with a reveal on the glass: one read of the pad, and the digit that a page drawn by it
    -- would print.
    unfoldable pub turn :
        Option (Result Event KeypadError) → ConfirmDigit → Option Reveal → Loop Ph O → Loop Ph O
    turn event confirm none l = l
    turn event confirm (some state) l =
        let (consent, last) = reveal_consent {P = Unit {0}} state in
        take_step state (reveal_step state (ask event consent last) backup_end) confirm
          (record l { glass = none })

    unfoldable pub granted_page :
        Result (Unit {0}) (Fault A C) × Session Ph → ConfirmDigit → Loop Ph O → Loop Ph O
    granted_page (ok _, s) confirm l =
        show_backup_page 0 confirm (record l { session = s; shown = [] })
    granted_page (err f, s) confirm l = record l { session = s; glass = none }

    unfoldable pub step : Move Ph → Loop Ph O → Loop Ph O
    step (read event confirm) l = turn event confirm l.glass l
    step (consented phase confirm) l = granted_page (grant phase l.session) confirm l
    step cancelled l = record l {
      session = record l.session { granted = none; record_pending = false };
    }
    step taken l = record l { glass = none }

    unfoldable pub run : List (Move Ph) → Loop Ph O → Loop Ph O
    run [] l = l
    run (m ∷ moves) l = run moves (step m l)
