-- ===== src/Reveal/Whole.antt =====
-- firmware/src/main.rs and firmware/src/lib.rs: what the panel has shown covers the pages that the session has
-- noted.
use cold_snap.Prelude.{
  ℕ, ◌<◌, ◌≡◌, ◌⊎◌, inl, inr, refl, sym, subst, Bool, true, false, List, [], ◌∷◌, ◌++◌, Option,
  none, some, Result, ok, err, arith, bit_or,
}
use cold_snap.Keypad.{Event, KeypadError, test_bit}
use cold_snap.Consent.{
  ConfirmDigit, Reveal, page, recorded, ask, reveal_consent, question, pages, reveal_step,
  reveal_draw, backup_end, RevealStep, park, show, ack, idle,
}
use cold_snap.Reveal.{
  BackupPages, page_bit, all_pages, or_zero, is_all, Fault, Loop, Move, read, consented, cancelled,
  taken, backup_pages, grant, grant_from, recorded_if, backup_recorded, drawn_page,
  show_backup_page, take_step, turn, granted_page, step, run, opened,
}
use cold_snap.Reveal.Bits.{full, empty}
use cold_snap.Reveal.Pages.{
  faulted, composed, ended, show_backup-Shows, or_small, or_adds, is_all-full,
}

-- A page is among those that were shown.
abbrev pub On : ℕ → List ℕ → Type 0
On q [] = ⊥
On q (n ∷ ns) = (n ≡ q) ⊎ On q ns

On-append : (q : ℕ) (xs ys : List ℕ) → On q xs → On q (xs ++ ys)
On-append q [] ys h = absurd h
On-append q (x ∷ xs) ys (inl e) = inl e
On-append q (x ∷ xs) ys (inr h) = inr (On-append q xs ys h)

On-last : (q : ℕ) (xs : List ℕ) → On q (xs ++ q ∷ [])
On-last q [] = inl refl
On-last q (x ∷ xs) = inr (On-last q xs)

-- What the panel has shown covers the pages noted, and all eight where the question is armed.
pub record IsTraced {Ph O : Type 0} (l : Loop Ph O) : Type 0 where
  pub small : l.session.seen_pages < 256
  pub traced : (q : ℕ) → q < 8 → test_bit l.session.seen_pages q ≡ true → On q l.shown
  pub armed : l.session.record_pending ≡ true → (q : ℕ) → q < 8 → On q l.shown

pub opened-IsTraced : {Ph O : Type 0} (out : O) → IsTraced {Ph = Ph} (opened out)
unfolding opened
opened-IsTraced out = record {
  small = omega arith;
  traced = λ q h e. absurd (empty q h e);
  armed = λ e. absurd (cc e);
}

module _ {Ph O : Type 0} where
  drawn_page-composed :
      (n : ℕ) (confirm : ConfirmDigit) (phase : Ph) (l : Loop Ph O) (bits : ℕ)
      → IsTraced l
      → bits < 256
      → ((q : ℕ)
          → q < 8
          → test_bit bits q ≡ true
          → (test_bit l.session.seen_pages q ≡ true) ⊎ (n ≡ q))
      → IsTraced (
          drawn_page n
            (reveal_draw n (ok true) l.session.record_pending confirm)
            (record l { session = record l.session { granted = some phase; seen_pages = bits } }))
  unfolding drawn_page reveal_draw
  drawn_page-composed n confirm phase l bits t small adds = record {
    small = small;
    traced = λ q h e. elim (adds q h e) [
      | inl old ↦ On-append q l.shown (n ∷ []) (t.traced q h old)
      | inr same ↦ subst (λ m. On m (l.shown ++ n ∷ [])) same (On-last n l.shown)
    ];
    armed = λ e q h. On-append q l.shown (n ∷ []) (t.armed e q h);
  }

  drawn_page-ended :
      (n : ℕ) (confirm : ConfirmDigit) (l : Loop Ph O) (whole : Bool)
      → IsTraced l
      → (whole ≡ true → (q : ℕ) → q < 8 → On q l.shown)
      → IsTraced (
          drawn_page n
            (reveal_draw n (ok false) whole confirm)
            (record l { session = record l.session { granted = none; record_pending = whole } }))
  unfolding drawn_page reveal_draw
  drawn_page-ended n confirm l true t all = record {
    small = t.small;
    traced = t.traced;
    armed = λ e. all refl;
  }
  drawn_page-ended n confirm l false t all = record {
    small = t.small;
    traced = t.traced;
    armed = λ e. absurd (cc e);
  }

module _ {Ph A C O : Type 0} (decrypt : Ph → Result (List (List ℕ)) A) (share_index : Ph → Option ℕ)
    (push : O → Result (Unit {0}) C × O) where
  show_backup_page-IsTraced :
      (n : ℕ) (confirm : ConfirmDigit) (l : Loop Ph O)
      → IsTraced l
      → IsTraced (show_backup_page decrypt share_index push n confirm l)
  unfolding show_backup_page drawn_page reveal_draw
  show_backup_page-IsTraced n confirm l t =
      elim (show_backup-Shows {C = C} decrypt share_index n l.session) [
        | faulted f e ↦ rw e (record { small = t.small; traced = t.traced; armed = t.armed })
        | composed phase inside e ↦ rw e (
            drawn_page-composed n confirm phase l
              (bit_or l.session.seen_pages (or_zero (page_bit n))) t
              (or_small l.session.seen_pages n t.small inside)
              (λ q h b. or_adds l.session.seen_pages n q t.small inside h b))
        | ended e ↦ rw e (
            drawn_page-ended n confirm l (is_all l.session.seen_pages (all_pages 8)) t (λ whole q h.
              t.traced q h (
                subst (λ b. test_bit b q ≡ true) (sym (is_all-full l.session.seen_pages whole))
                  (full q h))))
      ]

  recorded-IsTraced :
      (pending : Bool) (l : Loop Ph O)
      → IsTraced l
      → let r =
          recorded_if {A = A} push pending
            (record l.session { record_pending = false }, l.outbox) in
        IsTraced (record l { session = r.1.0; outbox = r.1.1 })
  unfolding recorded_if
  recorded-IsTraced true l t = record {
    small = t.small;
    traced = t.traced;
    armed = λ e. absurd (cc e);
  }
  recorded-IsTraced false l t = record {
    small = t.small;
    traced = t.traced;
    armed = λ e. absurd (cc e);
  }

  take_step-IsTraced :
      (state : Reveal) (next_step : RevealStep) (confirm : ConfirmDigit) (l : Loop Ph O)
      → IsTraced l
      → IsTraced (take_step decrypt share_index push state next_step confirm l)
  unfolding take_step backup_recorded
  take_step-IsTraced state park confirm l t = record {
    small = t.small;
    traced = t.traced;
    armed = t.armed;
  }
  take_step-IsTraced state (show n) confirm l t = show_backup_page-IsTraced n confirm l t
  take_step-IsTraced state ack confirm l t = recorded-IsTraced l.session.record_pending l t
  take_step-IsTraced state idle confirm l t = t

  turn-IsTraced :
      (event : Option (Result Event KeypadError)) (confirm : ConfirmDigit) (glass : Option Reveal)
      (l : Loop Ph O)
      → IsTraced l
      → IsTraced (turn decrypt share_index push event confirm glass l)
  unfolding turn reveal_consent
  turn-IsTraced event confirm none l t = t
  turn-IsTraced event confirm (some (page n)) l t =
      take_step-IsTraced (page n)
        (reveal_step (page n) (ask {P = Unit {0}} event pages false) backup_end) confirm
        (record l { glass = none }) (record { small = t.small; traced = t.traced; armed = t.armed })
  turn-IsTraced event confirm (some (recorded digit)) l t =
      take_step-IsTraced (recorded digit)
        (reveal_step (recorded digit) (ask {P = Unit {0}} event (question digit) true) backup_end)
        confirm (record l { glass = none })
        (record { small = t.small; traced = t.traced; armed = t.armed })

  granted-IsTraced :
      (phase : Ph) (r : Result BackupPages (Fault A C)) (confirm : ConfirmDigit) (l : Loop Ph O)
      → IsTraced l
      → IsTraced (granted_page decrypt share_index push (grant_from phase r l.session) confirm l)
  unfolding granted_page grant_from
  granted-IsTraced phase (err f) confirm l t = record {
    small = t.small;
    traced = t.traced;
    armed = t.armed;
  }
  granted-IsTraced phase (ok b) confirm l t =
      show_backup_page-IsTraced 0 confirm
        (record l {
          session = record { granted = some phase; seen_pages = 0; record_pending = false };
          shown = [];
        })
        (record {
          small = omega arith;
          traced = λ q h e. absurd (empty q h e);
          armed = λ e. absurd (cc e);
        })

  step-IsTraced :
      (m : Move Ph) (l : Loop Ph O) → IsTraced l → IsTraced (step decrypt share_index push m l)
  unfolding step grant
  step-IsTraced (read event confirm) l t = turn-IsTraced event confirm l.glass l t
  step-IsTraced (consented phase confirm) l t =
      granted-IsTraced phase (backup_pages decrypt share_index phase) confirm l t
  step-IsTraced cancelled l t = record {
    small = t.small;
    traced = t.traced;
    armed = λ e. absurd (cc e);
  }
  step-IsTraced taken l t = record { small = t.small; traced = t.traced; armed = t.armed }

  pub run-IsTraced :
      (moves : List (Move Ph)) (l : Loop Ph O)
      → IsTraced l
      → IsTraced (run decrypt share_index push moves l)
  unfolding run
  run-IsTraced [] l t = t
  run-IsTraced (m ∷ moves) l t =
      run-IsTraced moves (step decrypt share_index push m l) (step-IsTraced m l t)
