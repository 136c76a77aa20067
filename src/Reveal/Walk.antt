-- ===== src/Reveal/Walk.antt =====
-- firmware/src/main.rs and firmware/src/lib.rs: a backup that can be drawn can be recorded.
use cold_snap.Prelude.{
  ℕ, zero, suc, ◌+◌, ◌*◌, ◌-◌, ◌^◌, ◌%◌, ◌<◌, ◌≤◌, ◌≡◌, ◌≢◌, refl, ap, ◌∙◌, Bool, true, false, List,
  [], ◌∷◌, ◌++◌, Option, none, some, Result, ok, length, get_range, slice, drop, length-take,
  length-drop, le→leb, arith, bit_or, lt→ltb, min, sat_add32,
}
use cold_snap.Keypad.{down}
use cold_snap.Consent.{
  ConfirmDigit, confirm_digit, page, recorded, ask, answer, reveal_consent, question, reveal_step,
  reveal_draw,
}
use cold_snap.Consent.Answers.{answer-yes_iff}
use cold_snap.Reveal.{
  BackupPages, BackupPage, share_index_page, words_page, page_at, words_from, render, page_bit,
  all_pages, or_zero, is_all, Loop, Move, read, consented, backup_pages, grant, grant_from,
  after_render, show_pages, show_granted, show_backup, recorded_if, backup_recorded, drawn_page,
  show_backup_page, take_step, turn, granted_page, step, run,
}
use cold_snap.Consent.{next_key, types_keys}
use cold_snap.Reveal.Pages.{len_lem, backup_pages-words, words_from-none}

words_from-some :
    (start : ℕ) (ws : List (List ℕ))
    → 0 < length ws
    → (p : BackupPage) × (words_from start (some ws) ≡ some p)
unfolding words_from
words_from-some start [] h = absurd (omega arith)
words_from-some start (w ∷ ws) h = (words_page (start + 1) (w ∷ ws), refl)

length-slice : (a b : ℕ) (xs : List (List ℕ)) → b ≤ length xs → length (slice a b xs) ≡ b - a
unfolding slice
length-slice a b xs h = omega (arith, length-take (b - a) (drop a xs), length-drop a xs)

words_from-range :
    (start a b : ℕ) (xs : List (List ℕ))
    → a < b
    → b ≤ length xs
    → (p : BackupPage) × (words_from start (get_range a b xs) ≡ some p)
unfolding get_range
words_from-range start a b xs lt le =
    rw (le→leb a b (omega arith), le→leb b (length xs) le)
      (words_from-some start (slice a b xs) (omega (arith, length-slice a b xs le)))

render-some : (b : BackupPages) (n : ℕ) (p : BackupPage) → page_at b n ≡ some p → render b n ≡ true
unfolding render
render-some b n p e = ap (λ o. elim o as (λ _. Bool) [ none ↦ false | some q ↦ true ]) e

render-all : (b : BackupPages) (n : ℕ) → length b.words ≡ 25 → n < 8 → render b n ≡ true
unfolding page_at
render-all b zero h lt = render-some b zero (share_index_page b.share_index) refl
render-all b (suc n) h lt =
    let start = n * 4 % 4294967296 in
    let (p, there) =
      words_from-range start start (min (sat_add32 start 4) (length b.words)) b.words
        (omega (arith, h)) (omega (arith, h)) in
    render-some b (suc n) p there

render-past : (b : BackupPages) → length b.words ≡ 25 → render b 8 ≡ false
unfolding render page_at
render-past b h =
    ap (λ o. elim o as (λ _. Bool) [ none ↦ false | some q ↦ true ])
      (words_from-none 28 28 (min (sat_add32 28 4) (length b.words)) b.words (omega (arith, h)))

module _ {Ph A C O : Type 0} (decrypt : Ph → Result (List (List ℕ)) A) (share_index : Ph → Option ℕ)
    (push : O → Result (Unit {0}) C × O) (phase : Ph) (b : BackupPages)
    (good : backup_pages {C = C} decrypt share_index phase ≡ ok b) where
  -- Page `n` is on the glass, with the pages `a` noted.
  abbrev at_page : ℕ → ℕ → O → List ℕ → Loop Ph O
  at_page n a out shown = record {
    session = record { granted = some phase; seen_pages = a; record_pending = false };
    outbox = out;
    glass = some (page n);
    shown = shown;
  }

  shows :
      (n a : ℕ)
      → n < 8
      → show_backup {C = C} decrypt share_index n
          (record { granted = some phase; seen_pages = a; record_pending = false })
        ≡ (
          ok true,
          record { granted = some phase; seen_pages = bit_or a (2 ^ n); record_pending = false },
        )
  unfolding show_backup show_granted show_pages after_render or_zero page_bit
  shows n a h =
      rw
        (
          good,
          show_pages,
          render-all b n (backup_pages-words decrypt share_index phase b good) h,
          after_render,
          lt→ltb n 32 (omega arith),
        )
        refl

  page_next :
      (n a : ℕ) (out : O) (shown : List ℕ) (c : ConfirmDigit)
      → n < 7
      → step decrypt share_index push (read (some (ok (down next_key))) c) (at_page n a out shown)
        ≡ at_page (suc n) (bit_or a (2 ^ suc n)) out (shown ++ suc n ∷ [])
  unfolding step turn reveal_consent ask answer types_keys reveal_step take_step show_backup_page
      reveal_draw drawn_page
  page_next n a out shown c h =
      let up : sat_add32 n 1 ≡ suc n = omega arith in rw (up, shows (suc n) a (omega arith)) refl

  granted_first :
      (l : Loop Ph O) (c : ConfirmDigit)
      → step decrypt share_index push (consented phase c) l ≡ at_page 0 1 l.outbox (0 ∷ [])
  unfolding step grant granted_page grant_from show_backup_page reveal_draw drawn_page
  granted_first l c = rw (good, grant_from, shows 0 0 (omega arith)) refl

  past :
      show_backup {C = C} decrypt share_index 8
        (record { granted = some phase; seen_pages = 255; record_pending = false })
      ≡ (ok false, record { granted = none; seen_pages = 255; record_pending = true })
  unfolding show_backup show_granted show_pages after_render is_all all_pages page_bit
  past =
      let whole = backup_pages-words decrypt share_index phase b good in
      rw (good, show_pages, render-past b whole, after_render, len_lem b whole) refl

  -- The question is on the glass.
  abbrev pub asked : ℕ → O → List ℕ → Loop Ph O
  asked digit out shown = record {
    session = record { granted = none; seen_pages = 255; record_pending = true };
    outbox = out;
    glass = some (recorded (confirm_digit digit));
    shown = shown;
  }

  page_last :
      (digit : ℕ) (out : O) (shown : List ℕ)
      → step decrypt share_index push
          (read (some (ok (down next_key))) (confirm_digit digit))
          (at_page 7 255 out shown)
        ≡ asked digit out shown
  unfolding step turn reveal_consent ask answer types_keys reveal_step take_step show_backup_page
      reveal_draw drawn_page
  page_last digit out shown = rw past refl

  told :
      (digit : ℕ) (out : O) (shown : List ℕ) (c : ConfirmDigit)
      → digit ≢ next_key
      → (step decrypt share_index push
          (read (some (ok (down digit))) c)
          (asked digit out shown)).outbox
        ≡ (push out).1
  unfolding step turn reveal_consent ask take_step reveal_step backup_recorded recorded_if
  told digit out shown c free =
      let accepted =
        (answer-yes_iff {P = Unit {0}} (ok (down digit)) (question (confirm_digit digit)) true).1
          (digit, refl, refl, refl, free) in
      rw (accepted, reveal_step) refl

  abbrev turn_page : ConfirmDigit → Move Ph
  turn_page c = read (some (ok (down next_key))) c

  abbrev pub walk : ConfirmDigit → ℕ → List (Move Ph)
  walk c digit =
      consented phase c
      ∷ turn_page c
      ∷ turn_page c
      ∷ turn_page c
      ∷ turn_page c
      ∷ turn_page c
      ∷ turn_page c
      ∷ turn_page c
      ∷ turn_page (confirm_digit digit)
      ∷ []

  pub run-asked :
      (l : Loop Ph O) (c : ConfirmDigit) (digit : ℕ)
      → run decrypt share_index push (walk c digit) l
        ≡ asked digit l.outbox (0 ∷ 1 ∷ 2 ∷ 3 ∷ 4 ∷ 5 ∷ 6 ∷ 7 ∷ [])
  unfolding run
  run-asked l c digit =
      let o = l.outbox in
      let m = turn_page c in
      let z = turn_page (confirm_digit digit) in
      let go = run decrypt share_index push in
      ap (go (m ∷ m ∷ m ∷ m ∷ m ∷ m ∷ m ∷ z ∷ [])) (granted_first l c)
      ∙ ap (go (m ∷ m ∷ m ∷ m ∷ m ∷ m ∷ z ∷ [])) (page_next 0 1 o (0 ∷ []) c (omega arith))
      ∙ ap (go (m ∷ m ∷ m ∷ m ∷ m ∷ z ∷ [])) (page_next 1 3 o (0 ∷ 1 ∷ []) c (omega arith))
      ∙ ap (go (m ∷ m ∷ m ∷ m ∷ z ∷ [])) (page_next 2 7 o (0 ∷ 1 ∷ 2 ∷ []) c (omega arith))
      ∙ ap (go (m ∷ m ∷ m ∷ z ∷ [])) (page_next 3 15 o (0 ∷ 1 ∷ 2 ∷ 3 ∷ []) c (omega arith))
      ∙ ap (go (m ∷ m ∷ z ∷ [])) (page_next 4 31 o (0 ∷ 1 ∷ 2 ∷ 3 ∷ 4 ∷ []) c (omega arith))
      ∙ ap (go (m ∷ z ∷ [])) (page_next 5 63 o (0 ∷ 1 ∷ 2 ∷ 3 ∷ 4 ∷ 5 ∷ []) c (omega arith))
      ∙ ap (go (z ∷ [])) (page_next 6 127 o (0 ∷ 1 ∷ 2 ∷ 3 ∷ 4 ∷ 5 ∷ 6 ∷ []) c (omega arith))
      ∙ page_last digit o (0 ∷ 1 ∷ 2 ∷ 3 ∷ 4 ∷ 5 ∷ 6 ∷ 7 ∷ [])

  -- A backup that can be drawn, once granted, is told to the coordinator after eight turns of the page and
  -- the digit of the question, which is none of the keys that turn pages forward.
  pub run-recordable :
      (l : Loop Ph O) (c : ConfirmDigit) (digit : ℕ)
      → digit ≢ next_key
      → (step decrypt share_index push
          (read (some (ok (down digit))) c)
          (run decrypt share_index push (walk c digit) l)).outbox
        ≡ (push l.outbox).1
  run-recordable l c digit free =
      rw (run-asked l c digit) (told digit l.outbox (0 ∷ 1 ∷ 2 ∷ 3 ∷ 4 ∷ 5 ∷ 6 ∷ 7 ∷ []) c free)
