-- ===== src/Reveal/Pages.antt =====
-- firmware/src/lib.rs and hal/src/ui.rs: what `show_backup` draws, and what it notes of it.
use native.Mathlib.Decide.{dec_lt}
use cold_snap.Prelude.{
  ℕ, zero, suc, ◌*◌, ◌%◌, ◌<◌, ◌≡◌, ◌⊎◌, inl, inr, refl, sym, ap, ◌∙◌, Bool, true, false, List,
  Option, none, some, Result, ok, err, ◌==◌, ==_iff, ltb, length, get_range, arith, Bool-cases,
  Option-cases, Result-cases, bit_or, lt→leb, ltb→lt, min, sat_add32,
}
use cold_snap.Keypad.{test_bit}
use cold_snap.Reveal.{
  BackupPages, new, check_all, words_of, index_of, len, page_at, words_from, render, page_bit,
  all_pages, or_zero, is_all, Fault, Session, backup_pages, after_render, show_pages, show_granted,
  show_backup,
}
use cold_snap.Reveal.Bits.{bit_or-lt, bit_or-adds, bit_or-zero}

new-words :
    (index : ℕ) (words : List (List ℕ)) (b : BackupPages)
    → new index words ≡ ok b
    → length b.words ≡ 25
unfolding new
new-words index words b h = elim (Bool-cases (length words == 25)) [
  | inr other ↦ absurd (cc (rw other at h))
  | inl whole ↦ elim (Result-cases (check_all words)) [
    | inr (e, bad) ↦ absurd (cc (rw (whole, bad) at h))
    | inl (u, good) ↦
        let same : record { share_index = index; words = words } ≡ b = cc (rw (whole, good) at h) in
        ap (λ (x : BackupPages). length x.words) (sym same) ∙ (==_iff (length words) 25).0 whole
  ]
]

pub words_from-none :
    (start : ℕ) (a b : ℕ) (xs : List (List ℕ)) → b < a → words_from start (get_range a b xs) ≡ none
unfolding get_range words_from
words_from-none start a b xs h = rw (lt→leb a b h) refl

render-page : (b : BackupPages) (n : ℕ) → length b.words ≡ 25 → render b n ≡ true → n < 32 → n < 8
unfolding render page_at
render-page b zero h r lt = omega arith
render-page b (suc n) h r lt = elim (dec_lt n 7) [
  | yes small ↦ omega arith
  | no large ↦
      let start = n * 4 % 4294967296 in
      let past : page_at b (suc n) ≡ none =
        words_from-none start start (min (sat_add32 start 4) (length b.words)) b.words
          (omega (arith, h)) in
      absurd (cc (rw (past, render) at r))
]

pub len_lem : (b : BackupPages) → length b.words ≡ 25 → len b ≡ 8
unfolding len
len_lem b h = omega (arith, h)

pub is_all-full : (seen : ℕ) → is_all seen (all_pages 8) ≡ true → seen ≡ 255
unfolding is_all all_pages page_bit
is_all-full seen h = (==_iff seen 255).0 h

pub or_small : (a n : ℕ) → a < 256 → (n < 32 → n < 8) → bit_or a (or_zero (page_bit n)) < 256
unfolding or_zero page_bit
or_small a n h inside = elim (Bool-cases (ltb n 32)) [
  | inl few ↦ rw few (bit_or-lt a n h (inside (ltb→lt n 32 few)))
  | inr many ↦ rw (many, bit_or-zero a h) h
]

pub or_adds :
    (a n q : ℕ)
    → a < 256
    → (n < 32 → n < 8)
    → q < 8
    → test_bit (bit_or a (or_zero (page_bit n))) q ≡ true
    → (test_bit a q ≡ true) ⊎ (n ≡ q)
unfolding or_zero page_bit
or_adds a n q h inside hq e = elim (Bool-cases (ltb n 32)) [
  | inl few ↦ bit_or-adds a n q h (inside (ltb→lt n 32 few)) hq (rw few at e)
  | inr many ↦ inl (rw (many, bit_or-zero a h) at e)
]

module _ {Ph A C : Type 0} (decrypt : Ph → Result (List (List ℕ)) A)
    (share_index : Ph → Option ℕ) where
  pub backup_pages-words :
      (phase : Ph) (b : BackupPages)
      → backup_pages {C = C} decrypt share_index phase ≡ ok b
      → length b.words ≡ 25
  unfolding backup_pages words_of index_of
  backup_pages-words phase b h = elim (Result-cases (decrypt phase)) [
    | inr (e, bad) ↦ absurd (cc (rw bad at h))
    | inl (words, good) ↦ elim (Option-cases (share_index phase)) [
      | inl bad ↦ absurd (cc (rw (good, bad) at h))
      | inr (index, fits) ↦ elim (Result-cases (new index words)) [
        | inr (e, bad) ↦ absurd (cc (rw (good, fits, bad) at h))
        | inl (made_of, made) ↦
            let same : made_of ≡ b = cc (rw (good, fits, made) at h) in
            new-words index words b (made ∙ ap ok same)
      ]
    ]
  ]

  -- What `show_backup` does, and to which fields.
  pub data Shows (n : ℕ) (s : Session Ph) (r : Result Bool (Fault A C) × Session Ph) : Type 0 where
    faulted : (f : Fault A C) → r ≡ (err f, record s { granted = none }) → Shows n s r
    composed :
        (phase : Ph)
        → (n < 32 → n < 8)
        → r ≡ (
          ok true,
          record s {
            granted = some phase;
            seen_pages = bit_or s.seen_pages (or_zero (page_bit n));
          },
        )
        → Shows n s r
    ended :
        r ≡ (
          ok false,
          record s { granted = none; record_pending = is_all s.seen_pages (all_pages 8) },
        )
        → Shows n s r

  after_render-Shows :
      (n : ℕ) (phase : Ph) (count : ℕ) (drawn : Bool) (s : Session Ph)
      → count ≡ 8
      → (drawn ≡ true → n < 32 → n < 8)
      → Shows n s (after_render n phase count drawn (record s { granted = none }))
  unfolding after_render
  after_render-Shows n phase count true s e small = composed phase (small refl) refl
  after_render-Shows n phase count false s e small = ended (
      ap
        (λ c. (
          ok false,
          record s { granted = none; record_pending = is_all s.seen_pages (all_pages c) },
        ))
        e)

  show_pages-Shows :
      (n : ℕ) (phase : Ph) (r : Result BackupPages (Fault A C)) (s : Session Ph)
      → ((b : BackupPages) → r ≡ ok b → length b.words ≡ 25)
      → Shows n s (show_pages n phase r (record s { granted = none }))
  unfolding show_pages
  show_pages-Shows n phase (err f) s whole = faulted f refl
  show_pages-Shows n phase (ok b) s whole =
      after_render-Shows n phase (len b) (render b n) s (len_lem b (whole b refl))
        (render-page b n (whole b refl))

  show_granted-Shows :
      (n : ℕ) (o : Option Ph) (s : Session Ph)
      → Shows n s (show_granted decrypt share_index n o (record s { granted = none }))
  unfolding show_granted
  show_granted-Shows n none s = faulted _ refl
  show_granted-Shows n (some phase) s =
      show_pages-Shows n phase (backup_pages decrypt share_index phase) s (backup_pages-words phase)

  pub show_backup-Shows : (n : ℕ) (s : Session Ph) → Shows n s (show_backup decrypt share_index n s)
  unfolding show_backup
  show_backup-Shows n s = show_granted-Shows n s.granted s
