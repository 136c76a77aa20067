-- ===== src/Consent/Answers.antt =====
-- firmware/src/main.rs: which keys are a consent.
use cold_snap.Prelude.{
  ℕ, ◌%◌, zero, suc, ◌<◌, ◌≡◌, ◌≢◌, ◌↔◌, refl, ap, arith, Bool, true, false, ◌&&◌, Option, none,
  some, Result, ok, err, get_elem?, ◌==◌, if◌then◌else◌,
}
use cold_snap.Keypad.{Event, all_up, down, multi_key, unsettled, KeypadError}
use cold_snap.Consent.{
  confirm_digit, confirm_charset, draw, accepts, wait, next, back, no_answer, Answer, yes_answer,
  Consent, prompt, question, pages, entry, quiz, answer, consent_to, types_keys, pages_back,
  next_key, back_key,
}

-- The digit of a place in the set.
abbrev digit_at : ℕ → ℕ
digit_at zero = 49
digit_at (suc zero) = 50
digit_at (suc (suc zero)) = 51
digit_at (suc (suc (suc zero))) = 52
digit_at (suc (suc (suc (suc i)))) = 54

get_elem?-digit : (i : ℕ) → i < 5 → get_elem? confirm_charset i ≡ some (digit_at i)
get_elem?-digit zero h = refl
get_elem?-digit (suc zero) h = refl
get_elem?-digit (suc (suc zero)) h = refl
get_elem?-digit (suc (suc (suc zero))) h = refl
get_elem?-digit (suc (suc (suc (suc zero)))) h = refl
get_elem?-digit (suc (suc (suc (suc (suc i))))) h = absurd (omega arith)

digit_at_free : (i : ℕ) → (digit_at i ≢ next_key) × (digit_at i ≢ back_key)
digit_at_free zero = omega arith
digit_at_free (suc zero) = omega arith
digit_at_free (suc (suc zero)) = omega arith
digit_at_free (suc (suc (suc zero))) = omega arith
digit_at_free (suc (suc (suc (suc i)))) = omega arith

-- A drawn digit is none of the keys that turn pages.
draw-digit :
    (u : ℕ) → (digit : ℕ) × (draw u ≡ confirm_digit digit) × (digit ≢ next_key) × (digit ≢ back_key)
unfolding draw
draw-digit u =
    let (a, b) = digit_at_free (u % 5) in
    (digit_at (u % 5), rw (get_elem?-digit (u % 5) (omega arith), draw) refl, a, b)

screen_answer : ℕ → ℕ → Bool → Answer
screen_answer digit pressed last =
    if pressed == next_key
    then (if last then wait else next)
    else if pressed == back_key && false
    then back
    else if last
    then (if pressed == digit then yes_answer else no_answer)
    else no_answer

screen_answer-yes :
    (digit pressed : ℕ) (last : Bool)
    → screen_answer digit pressed last ≡ yes_answer
    → (pressed ≡ digit) × (last ≡ true) × (digit ≢ next_key)
unfolding screen_answer
screen_answer-yes digit pressed true h = ground arith
screen_answer-yes digit pressed false h = ground arith

yes-screen_answer : (digit : ℕ) → digit ≢ next_key → screen_answer digit digit true ≡ yes_answer
unfolding screen_answer
yes-screen_answer digit h = ground arith

screen_yes :
    (digit k : ℕ) (last : Bool)
    → (screen_answer digit k last ≡ yes_answer) ↔ (
        (d : ℕ) × (◌≡◌ {A = Result Event KeypadError} (ok (down k)) (ok (down d)))
        × (◌≡◌ {A = Option ℕ} (some digit) (some d))
        × (last ≡ true)
        × (d ≢ next_key))
screen_yes digit k last = (
  (λ h.
      let (same, l, free) = screen_answer-yes digit k last h in
      (digit, ap (λ n. ok (down n)) same, refl, l, free)),
  (λ (d, e, f, l, free).
      let same : digit ≡ d = cc f in
      let pressed : k ≡ d = cc e in rw (l, same, pressed) (yes-screen_answer d free)),
)

pages_never :
    (P : Type 0) (k : ℕ) (last : Bool) → answer {P = P} (ok (down k)) pages last ≢ yes_answer
unfolding answer types_keys pages_back consent_to
pages_never P k true = ground arith
pages_never P k false = ground arith

module _ {P : Type 0} where
  -- The digit that a screen printed.
  abbrev pub digit_of : Consent P → Option ℕ
  digit_of (prompt p (confirm_digit digit)) = some digit
  digit_of (question (confirm_digit digit)) = some digit
  digit_of pages = none
  digit_of entry = none
  digit_of quiz = none

  -- A key confirms exactly where it is the digit that the screen printed, on the last page of its set.
  pub answer-yes_iff :
      (event : Result Event KeypadError) (consent : Consent P) (last : Bool)
      → (answer event consent last ≡ yes_answer) ↔ (
          (digit : ℕ) × (event ≡ ok (down digit))
          × (digit_of consent ≡ some digit)
          × (last ≡ true)
          × (digit ≢ next_key))
  unfolding answer types_keys pages_back consent_to accepts screen_answer
  answer-yes_iff (ok (down k)) (prompt p (confirm_digit digit)) last = screen_yes digit k last
  answer-yes_iff (ok (down k)) (question (confirm_digit digit)) last = screen_yes digit k last
  answer-yes_iff (ok (down k)) pages last =
      ((λ h. absurd (pages_never P k last h)), (λ h. absurd (cc h.2)))
  answer-yes_iff (ok (down k)) entry last = ((λ h. absurd (cc h)), (λ h. absurd (cc h.2)))
  answer-yes_iff (ok (down k)) quiz last = ((λ h. absurd (cc h)), (λ h. absurd (cc h.2)))
  answer-yes_iff (ok all_up) consent last = ((λ h. absurd (cc h)), (λ h. absurd (cc h.1)))
  answer-yes_iff (ok unsettled) consent last = ((λ h. absurd (cc h)), (λ h. absurd (cc h.1)))
  answer-yes_iff (ok multi_key) consent last = ((λ h. absurd (cc h)), (λ h. absurd (cc h.1)))
  answer-yes_iff (err e) consent last = ((λ h. absurd (cc h)), (λ h. absurd (cc h.1)))
