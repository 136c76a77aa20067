-- ===== src/Tests/Reveal.antt =====
-- firmware/src/main.rs and firmware/src/lib.rs: a reveal from its grant to the answer.
use cold_snap.Prelude.{
  ℕ, suc, ◌<◌, ◌≡◌, ◌≢◌, ◌↔◌, refl, sym, ap, ◌∙◌, true, List, [], ◌∷◌, Option, some, Result, ok,
  replicate, arith,
}
use cold_snap.Keypad.{down, Event, KeypadError}
use cold_snap.Consent.{
  ConfirmDigit, confirm_digit, answer, yes_answer, question, next_key, recorded,
}
use cold_snap.Consent.Answers.{answer-yes_iff, digit_of}
use cold_snap.Reveal.{
  BackupPages, backup_pages, words_of, index_of, new, check_all, check_word, check_letters,
  all_bytes, is_ascii_lowercase, Move, read, opened, step, run,
}
use cold_snap.Wordentry.Letters.{is_ascii_uppercase}
use cold_snap.Reveal.Whole.{On}
use cold_snap.Reveal.Told.{run-told}
use cold_snap.Reveal.Walk.{walk, run-asked, run-recordable}

answer-yes_iff_example :
    (answer {P = ℕ} (ok (down 51)) (question (confirm_digit 51)) true ≡ yes_answer) ↔ (
      (digit : ℕ) × (◌≡◌ {A = Result Event KeypadError} (ok (down 51)) (ok (down digit)))
      × (digit_of {P = ℕ} (question (confirm_digit 51)) ≡ some digit)
      × (true ≡ true)
      × (digit ≢ next_key))
answer-yes_iff_example = answer-yes_iff {P = ℕ} (ok (down 51)) (question (confirm_digit 51)) true

-- `zoo`, as often as a backup has words.
abbrev zoos : ℕ → Result (List (List ℕ)) ℕ
zoos phase = ok (replicate 25 (122 ∷ 111 ∷ 111 ∷ []))

abbrev third : ℕ → Option ℕ
third phase = some 3

abbrev count_up : ℕ → Result (Unit {0}) ℕ × ℕ
count_up n = (ok tt, suc n)

abbrev zoo_pages : BackupPages
zoo_pages = record { share_index = 3; words = replicate 25 (122 ∷ 111 ∷ 111 ∷ []) }

drawable : backup_pages {C = ℕ} zoos third 7 ≡ ok zoo_pages
unfolding backup_pages words_of index_of new check_all check_word check_letters all_bytes
    is_ascii_lowercase is_ascii_uppercase replicate
drawable = refl

abbrev two : ConfirmDigit
two = confirm_digit 50

abbrev answered : Move ℕ
answered = read (some (ok (down 52))) two

abbrev walked : List (Move ℕ)
walked = walk zoos third count_up 7 zoo_pages drawable two 52

run-recordable_example :
    (step zoos third count_up answered (run zoos third count_up walked (opened 0))).outbox ≡ 1
unfolding opened
run-recordable_example =
    run-recordable zoos third count_up 7 zoo_pages drawable (opened 0) two 52 (omega arith)

told_now :
    (step zoos third count_up answered (run zoos third count_up walked (opened 0))).outbox
    ≢ (run zoos third count_up walked (opened 0)).outbox
unfolding opened
told_now h =
    let before : (run zoos third count_up walked (opened 0)).outbox ≡ 0 =
      ap (λ l. l.outbox) (run-asked zoos third count_up 7 zoo_pages drawable (opened 0) two 52) in
    let after =
      run-recordable zoos third count_up 7 zoo_pages drawable (opened 0) two 52 (omega arith) in
    absurd (omega (arith, sym after ∙ h ∙ before))

run-told_example :
    ((q : ℕ) → q < 8 → On q (run zoos third count_up walked (opened 0)).shown)
    × ((digit : ℕ) × (confirm : ConfirmDigit) × (answered ≡ read (some (ok (down digit))) confirm)
        × ((run zoos third count_up walked (opened 0)).glass
            ≡ some (recorded (confirm_digit digit))))
run-told_example = run-told zoos third count_up walked 0 answered told_now
