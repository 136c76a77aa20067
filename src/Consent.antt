-- ===== src/Consent.antt =====
-- firmware/src/main.rs: what a key means for the screen on the glass, from a pad's event to the next
-- step of a flow. A prompt of the coordinator is carried and never read, except by `grants`.
pub mod Answers
use cold_snap.Prelude.{
  ℕ, ◌+◌, ◌-◌, ◌*◌, ◌/◌, ◌%◌, Bool, true, false, ◌&&◌, ◌||◌, List, [], ◌∷◌, Option, none, some,
  Result, ok, err, ◌==◌, if◌then◌else◌, get_elem?, sat_add32,
}
use cold_snap.Keypad.{Event, all_up, down, multi_key, unsettled, KeypadError}
use cold_snap.Wordentry.{backup_words}

-- Of hal/src/ui.rs: `b'9'`, `b'7'` and `b"12346"`
abbrev pub next_key : ℕ
next_key = 57

abbrev pub back_key : ℕ
back_key = 55

abbrev pub confirm_charset : List ℕ
confirm_charset = 49 ∷ 50 ∷ 51 ∷ 52 ∷ 54 ∷ []

abbrev pub words_per_page : ℕ
words_per_page = 4

-- `ui::ConfirmDigit`
pub data ConfirmDigit : Type 0 where
  confirm_digit : ℕ → ConfirmDigit

-- `rng.next_u32()` is an argument. The remainder is an index of the five.
unfoldable pub draw : ℕ → ConfirmDigit
draw next_u32 = elim (get_elem? confirm_charset (next_u32 % 5)) [
  | some digit ↦ confirm_digit digit
  | none ↦ confirm_digit 0
]

unfoldable pub accepts : ConfirmDigit → ℕ → Bool
accepts (confirm_digit digit) key = key == digit

pub data Answer : Type 0 where
  wait next back yes_answer no_answer : Answer
  key : ℕ → Answer

-- `P` is the prompt.
pub data Consent (P : Type 0) : Type 0 where
  prompt : P → ConfirmDigit → Consent P
  question : ConfirmDigit → Consent P
  pages entry quiz : Consent P

module _ {P : Type 0} where
  -- `matches!(consent, Consent::Entry | Consent::Quiz)`
  unfoldable pub types_keys : Consent P → Bool
  types_keys (prompt p confirm) = false
  types_keys (question confirm) = false
  types_keys pages = false
  types_keys entry = true
  types_keys quiz = true

  -- `matches!(consent, Consent::Pages)`
  unfoldable pub pages_back : Consent P → Bool
  pages_back (prompt p confirm) = false
  pages_back (question confirm) = false
  pages_back pages = true
  pages_back entry = false
  pages_back quiz = false

  -- The innermost match, on the last page of a set.
  unfoldable pub consent_to : Consent P → ℕ → Answer
  consent_to entry pressed = key pressed
  consent_to quiz pressed = key pressed
  consent_to pages pressed = no_answer
  consent_to (question confirm) pressed = if accepts confirm pressed then yes_answer else no_answer
  consent_to (prompt p confirm) pressed = if accepts confirm pressed then yes_answer else no_answer

  unfoldable pub answer : Result Event KeypadError → Consent P → Bool → Answer
  answer (ok all_up) consent last = wait
  answer (ok unsettled) consent last = wait
  answer (ok (down pressed)) consent last =
      if types_keys consent
      then key pressed
      else if pressed == next_key
      then (if last then wait else next)
      else if pressed == back_key && pages_back consent
      then back
      else if last
      then consent_to consent pressed
      else no_answer
  answer (ok multi_key) consent last = no_answer
  answer (err e) consent last = no_answer

  -- The pad is there or not; what it reads is the event.
  unfoldable pub ask : Option (Result Event KeypadError) → Consent P → Bool → Answer
  ask none consent last = no_answer
  ask (some event) consent last = answer event consent last

abbrev upgrade_hold_key : ℕ
upgrade_hold_key = 121

unfoldable arms_upgrade : Result Event KeypadError → Bool
arms_upgrade (ok (down k)) = k == upgrade_hold_key
arms_upgrade (ok multi_key) = false
arms_upgrade (ok unsettled) = false
arms_upgrade (ok all_up) = false
arms_upgrade (err e) = false

pub data Reveal : Type 0 where
  page : ℕ → Reveal
  recorded : ConfirmDigit → Reveal

-- `div_ceil`
abbrev pub backup_end : ℕ
backup_end = 1 + (backup_words + words_per_page - 1) / words_per_page

pub data RevealStep : Type 0 where
  park : RevealStep
  show : ℕ → RevealStep
  ack idle : RevealStep

pub data RevealScreen : Type 0 where
  page_screen : RevealScreen
  recorded_screen : ConfirmDigit → RevealScreen
  idle_screen refuse_screen : RevealScreen

-- What `show_backup` answered: whether a page was drawn, or a fault that is not read.
unfoldable pub reveal_draw :
    ℕ → Result Bool (Unit {0}) → Bool → ConfirmDigit → RevealScreen × Option Reveal
reveal_draw n (ok true) record_pending confirm = (page_screen, some (page n))
reveal_draw n (ok false) true confirm = (recorded_screen confirm, some (recorded confirm))
reveal_draw n (ok false) false confirm = (idle_screen, none)
reveal_draw n (err e) record_pending confirm = (refuse_screen, none)

-- A page number is a `usize` of 32 bits.
unfoldable pub reveal_step : Reveal → Answer → ℕ → RevealStep
reveal_step state wait end = park
reveal_step (page n) next end = show (sat_add32 n 1)
reveal_step (page n) back end = show (n - 1)
reveal_step (page n) yes_answer end = show end
reveal_step (page n) no_answer end = show end
reveal_step (page n) (key pressed) end = show end
reveal_step (recorded confirm) yes_answer end = ack
reveal_step (recorded confirm) next end = idle
reveal_step (recorded confirm) back end = idle
reveal_step (recorded confirm) no_answer end = idle
reveal_step (recorded confirm) (key pressed) end = idle

pub data Check : Type 0 where
  asking passed : Check

pub data Flow : Type 0 where
  revealing : Reveal → Flow
  entering : Flow
  checking : Check → Flow

module _ {P : Type 0} where
  unfoldable pub reveal_consent : Reveal → Consent P × Bool
  reveal_consent (page n) = (pages, false)
  reveal_consent (recorded confirm) = (question confirm, true)

  unfoldable flow_consent : Flow → Consent P × Bool
  flow_consent (revealing state) = reveal_consent state
  flow_consent entering = (entry, true)
  flow_consent (checking state) = (quiz, true)

pub data EntryStep : Type 0 where
  entry_park : EntryStep
  entry_key : ℕ → EntryStep
  entry_end : EntryStep

unfoldable entry_step : Answer → EntryStep
entry_step wait = entry_park
entry_step (key pressed) = entry_key pressed
entry_step no_answer = entry_end
entry_step next = entry_end
entry_step back = entry_end
entry_step yes_answer = entry_end

pub data CheckStep : Type 0 where
  check_park : CheckStep
  check_key : ℕ → CheckStep
  check_done : CheckStep

unfoldable check_step : Check → Answer → CheckStep
check_step state wait = check_park
check_step asking (key pressed) = check_key pressed
check_step passed (key pressed) = check_done
check_step state no_answer = check_done
check_step state next = check_done
check_step state back = check_done
check_step state yes_answer = check_done

-- The prompts that `grants` tells apart: those of a restoration, and any other.
pub data Restoration : Type 0 where
  display_backup enter_backup check_backup backup_saved consolidate_backup : Restoration

pub data UserPrompt : Type 0 where
  restoration : Restoration → UserPrompt
  other_prompt : UserPrompt

pub data Grant : Type 0 where
  grant_reveal grant_entry grant_check : Grant

unfoldable pub grants : UserPrompt → Option Grant
grants other_prompt = none
grants (restoration display_backup) = some grant_reveal
grants (restoration enter_backup) = some grant_entry
grants (restoration check_backup) = some grant_check
grants (restoration backup_saved) = none
grants (restoration consolidate_backup) = none
