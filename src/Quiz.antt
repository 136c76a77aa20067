-- ===== src/Quiz.antt =====
-- firmware/src/quiz.rs: the quiz on the words of a backup.
pub mod Counts
pub mod Draw
pub mod Play
pub mod Pass
use cold_snap.Prelude.{
  ℕ, zero, suc, ◌+◌, ◌-◌, ◌*◌, ◌/◌, Bool, true, false, not, ◌&&◌, ◌||◌, List, [], ◌∷◌, Option, none,
  some, Result, ok, err, ◌==◌, ltb, leb, if◌then◌else◌, length, get_elem?, take, swap, replicate,
  u32_mod, sat_add32, copy_into,
}
use cold_snap.Prelude.Bytes.{bytes_eq}
use cold_snap.Prelude.Exec.{Exec, pure, ◌>>=◌, ◌>>◌}
use cold_snap.Wordentry.{backup_words, key_position}

abbrev pub quiz_positions : ℕ
quiz_positions = backup_words / 3

-- `b"123"`, of hal/src/ui.rs
abbrev pub quiz_keys : List ℕ
quiz_keys = 49 ∷ 50 ∷ 51 ∷ []

abbrev last_position : ℕ
last_position = backup_words - 1

abbrev draw_tries : ℕ
draw_tries = 32

-- hal/src/keypad.rs
abbrev key_cancel : ℕ
key_cancel = 120

-- `ui::QuizWord`
pub record QuizWord : Type 0 where
  pub number : ℕ
  pub asked : ℕ
  pub total : ℕ
  pub retry : Bool

pub data Screen : Type 0 where
  word : QuizWord → List (List ℕ) → Screen
  passed_page : ℕ → Screen

pub data Step : Type 0 where
  unchanged redraw abort passed : Step

pub record Quiz : Type 0 where
  pub words : List (List ℕ)
  pub order : List ℕ
  pub asked : ℕ
  pub options : List (List ℕ)
  pub wrong : Bool

unfoldable pub position : Quiz → Option ℕ
position q = get_elem? q.order q.asked

unfoldable pub truth : Quiz → Option (List ℕ)
unfolding position
truth q = elim (position q) [ none ↦ none | some p ↦ get_elem? q.words p ]

unfoldable pub screen : Quiz → Screen
screen q = elim (position q) [
  | some p ↦
      word
        (record {
          number = sat_add32 p 1;
          asked = q.asked;
          total = quiz_positions;
          retry = q.wrong;
        })
        q.options
  | none ↦ passed_page quiz_positions
]

unfoldable pub contains : List (List ℕ) → List ℕ → Bool
contains [] pick = false
contains (w ∷ taken) pick = bytes_eq w pick || contains taken pick

-- `pool.iter().copied().find(|word| !taken.contains(word))`
unfoldable pub find_free : List (List ℕ) → List (List ℕ) → Result (List ℕ) (Unit {0})
find_free taken [] = err tt
find_free taken (w ∷ pool) =
    let rest = find_free taken pool in if contains taken w then rest else ok w

-- The positions from `i` on, `n` of them.
unfoldable pub positions : ℕ → ℕ → List ℕ
positions i zero = []
positions i (suc n) = i ∷ positions (suc i) n

-- `o?`
unfoldable pub known : {S A : Type 0} → Option A → Exec S A (Unit {0})
known none s = (err tt, s)
known (some a) s = (ok a, s)

module _ {S : Type 0} (next_u32 : S → ℕ × S) where
  -- A number below `bound`: the high half of the product with a draw.
  unfoldable pub below : ℕ → S → ℕ × S
  below bound s =
      if ltb 0 bound && ltb bound u32_mod
      then (let (draw, s') = next_u32 s in (draw * bound / u32_mod, s'))
      else (0, s)

  -- The loop of `shuffle` while the counter is above 1.
  unfoldable pub shuffle_loop : {A : Type 0} → ℕ → List A → S → List A × S
  shuffle_loop zero xs s = (xs, s)
  shuffle_loop (suc zero) xs s = (xs, s)
  shuffle_loop (suc (suc i)) xs s =
      let (j, s') = below (suc i + 1) s in shuffle_loop (suc i) (swap (suc i) j xs) s'

  unfoldable pub shuffle : {A : Type 0} → List A → S → List A × S
  shuffle xs = shuffle_loop (length xs) xs

  unfoldable pub draw_order : S → List ℕ × S
  draw_order s =
      let (pool, s') = shuffle (positions 0 (backup_words - 1)) s in
      shuffle
        (copy_into (replicate quiz_positions last_position) 0 (take (quiz_positions - 1) pool)) s'

  -- The loop of `draw_distinct` for the tries that are left, and the search behind it.
  unfoldable pub draw_loop : ℕ → List (List ℕ) → List (List ℕ) → Exec S (List ℕ) (Unit {0})
  draw_loop zero pool taken s = (find_free taken pool, s)
  draw_loop (suc tries) pool taken s =
      let (i, s') = below (length pool) s in
      let rest = draw_loop tries pool taken s' in
      elim (get_elem? pool i) [
        | none ↦ (err tt, s')
        | some pick ↦ if contains taken pick then rest else (ok pick, s')
      ]

  unfoldable pub draw_distinct : List (List ℕ) → List (List ℕ) → Exec S (List ℕ) (Unit {0})
  draw_distinct = draw_loop draw_tries

  unfoldable pub mix : List (List ℕ) → Exec S (List (List ℕ)) (Unit {0})
  mix options s = let (mixed, s') = shuffle options s in (ok mixed, s')

  -- `bip39_words` is the list of `frost_backup`, and `is_bip39` asks whether it has a word.
  module _ (bip39_words : List (List ℕ)) (words_with_prefix : List ℕ → List (List ℕ)) where
    unfoldable pub is_bip39 : List ℕ → Bool
    is_bip39 w = elim (get_elem? (words_with_prefix w) 0) [
      | none ↦ false
      | some first ↦ bytes_eq first w
    ]

    unfoldable pub all_bip39 : List (List ℕ) → Bool
    all_bip39 [] = true
    all_bip39 (w ∷ ws) = is_bip39 w && all_bip39 ws

    -- The quiz with new options; a quiz that is not given back is as it was.
    unfoldable pub draw_options : Quiz → Exec S Quiz (Unit {0})
    draw_options q = do
      right ← known (truth q)
      own ← draw_distinct q.words (right ∷ [])
      any ← draw_distinct bip39_words (right ∷ own ∷ [])
      options ← mix (right ∷ own ∷ any ∷ [])
      pure (record q { options = options })

    unfoldable pub asked_again : Quiz → Result Quiz (Unit {0}) × S → Step × Quiz × S
    asked_again q (ok q', s) = (redraw, q', s)
    asked_again q (err _, s) = (abort, q, s)

    unfoldable pub ask : Quiz → S → Step × Quiz × S
    ask q s = asked_again q (draw_options q s)

    -- What follows a chosen option.
    unfoldable pub answer : List ℕ → List ℕ → Quiz → S → Step × Quiz × S
    answer right chosen q s =
        if not (bytes_eq chosen right)
        then ask (record q { wrong = true }) s
        else let q' : Quiz = record q { wrong = false; asked = sat_add32 q.asked 1 } in
          if leb quiz_positions q'.asked then (passed, q', s) else ask q' s

    unfoldable pub chosen_by : ℕ → Quiz → Option (List ℕ)
    chosen_by k q = elim (key_position k 0 quiz_keys) [
      | none ↦ none
      | some slot ↦ get_elem? q.options slot
    ]

    unfoldable pub key : ℕ → Quiz → S → Step × Quiz × S
    key k q s = elim (truth q) [
      | none ↦ (unchanged, q, s)
      | some right ↦ if k == key_cancel then (abort, q, s) else elim (chosen_by k q) [
        | none ↦ (unchanged, q, s)
        | some chosen ↦ answer right chosen q s
      ]
    ]

    unfoldable pub new : List (List ℕ) → Exec S Quiz (Unit {0})
    new words s =
        if not (all_bip39 words)
        then (err tt, s)
        else let (order, s') = draw_order s in
          draw_options
            (record {
              words = words;
              order = order;
              asked = 0;
              options = replicate 3 [];
              wrong = false;
            })
            s'

    -- The quiz after some keys.
    unfoldable pub press : List ℕ → Quiz → S → Quiz × S
    press [] q s = (q, s)
    press (k ∷ ks) q s = let (step, q', s') = key k q s in press ks q' s'
