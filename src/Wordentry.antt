-- ===== src/Wordentry.antt =====
-- firmware/src/wordentry.rs: typing the 25 words of a share back in, key by key; and the page of a word
-- that hal/src/ui.rs draws from it.
pub mod Letters
pub mod Laws
pub mod Invariant
pub mod Edits
pub mod Steps
pub mod Answer
pub mod Slots
pub mod Page
pub mod Digits
pub mod Typing
pub mod Share
use cold_snap.Prelude.{
  ℕ, zero, suc, ◌+◌, ◌-◌, ◌*◌, ◌/◌, ◌%◌, min, max, Bool, true, false, not, ◌&&◌, ◌||◌, List, [],
  ◌∷◌, Option, none, some, Result, ok, err, ◌==◌, ltb, leb, if◌then◌else◌, length, get_elem?, set,
  replicate, u32_mod, map,
}
use cold_snap.Prelude.Bytes.{bytes_eq}
use cold_snap.Wordentry.Letters.{Uppercase, blank, as_str, clear, push, pop, load, push_all}

-- hal/src/ui.rs
abbrev pub backup_words : ℕ
backup_words = 25

abbrev pub max_word_len : ℕ
max_word_len = 8

abbrev max_candidate_letters : ℕ
max_candidate_letters = 26

-- `b"123456789"`
abbrev pub entry_letter_keys : List ℕ
entry_letter_keys = 49 ∷ 50 ∷ 51 ∷ 52 ∷ 53 ∷ 54 ∷ 55 ∷ 56 ∷ 57 ∷ []

abbrev entry_letters_per_page : ℕ
entry_letters_per_page = 9

abbrev entry_page_key : ℕ
entry_page_key = 48

abbrev entry_ok_key : ℕ
entry_ok_key = 121

abbrev entry_delete_key : ℕ
entry_delete_key = 120

-- `ui::WordEntry`: what the renderer of a word's page is given.
pub record WordEntry : Type 0 where
  pub number : ℕ
  pub partial : List ℕ
  pub previous : Option (List ℕ)
  pub candidates : List ℕ
  pub page : ℕ
  pub complete : Bool

abbrev pub div_ceil : ℕ → ℕ → ℕ
div_ceil n d = if n % d == 0 then n / d else n / d + 1

unfoldable pub pages : WordEntry → ℕ
pages w = max (div_ceil (length w.candidates) entry_letters_per_page) 1

-- `iter().position(|k| *k == key)`, from index `i`
unfoldable pub key_position : ℕ → ℕ → List ℕ → Option ℕ
key_position key i [] = none
key_position key i (k ∷ ks) =
    let rest = key_position key (suc i) ks in if k == key then some i else rest

unfoldable pub is_ascii_alphabetic : ℕ → Bool
is_ascii_alphabetic b = (leb 65 b && leb b 90) || (leb 97 b && leb b 122)

unfoldable pub alphabetic : Option ℕ → Option ℕ
alphabetic none = none
alphabetic (some b) = if is_ascii_alphabetic b then some b else none

-- The sums and the product do not saturate: the page is below the number of pages.
unfoldable pub letter_for_key : ℕ → WordEntry → Option ℕ
letter_for_key key w = elim (key_position key 0 entry_letter_keys) [
  | none ↦ none
  | some slot ↦
      alphabetic (get_elem? w.candidates (w.page % pages w * entry_letters_per_page + slot))
]

pub data Stage : Type 0 where
  index word failed : Stage

-- `entered` carries the share.
pub data Step (B : Type 0) : Type 0 where
  unchanged redraw abort : Step B
  entered : B → Step B

pub data Screen : Type 0 where
  share_index : Option ℕ → Screen
  word_page : WordEntry → Screen
  checksum_failed : Screen

pub record Entry : Type 0 where
  pub id : List ℕ
  pub stage : Stage
  pub share : ℕ
  pub words : List (Option (List ℕ))
  pub cursor : ℕ
  pub prefix : Uppercase
  pub letters : Uppercase
  pub page : ℕ

-- What `frost_backup` gives: the words that begin with a prefix, the letters that may follow it, and
-- the checksum of a share's index and words.
pub record Bip39 (B E : Type 0) : Type 0 where
  pub words_with_prefix : List ℕ → List (List ℕ)
  pub get_valid_next_letters : List ℕ → List ℕ
  pub from_words : ℕ → List (List ℕ) → Result B E

-- `checked_mul` and `checked_add` of `u32`
abbrev checked32 : ℕ → Option ℕ
checked32 n = if ltb n u32_mod then some n else none

unfoldable pub shifted : ℕ → ℕ → Option ℕ
shifted share digit = elim (checked32 (share * 10)) [
  | none ↦ none
  | some tens ↦ checked32 (tens + digit)
]

-- The sole element, as the pattern `[only]` finds it.
unfoldable pub sole : List (List ℕ) → Option (List ℕ)
sole [] = none
sole (only ∷ []) = some only
sole (_ ∷ _ ∷ _) = none

unfoldable pub filter_eq : List ℕ → Option (List ℕ) → Option (List ℕ)
filter_eq prefix none = none
filter_eq prefix (some w) = if bytes_eq w prefix then some w else none

-- What stands in a slot; the array has no slot past its end.
unfoldable pub slot_of : Option (Option (List ℕ)) → Option (List ℕ)
slot_of none = none
slot_of (some held) = held

unfoldable pub first_missing : ℕ → List (Option (List ℕ)) → Option ℕ
first_missing i [] = none
first_missing i (none ∷ words) = some i
first_missing i (some _ ∷ words) = first_missing (suc i) words

-- `word.unwrap_or("")`
unfoldable pub word_or_empty : Option (List ℕ) → List ℕ
word_or_empty none = []
word_or_empty (some w) = w

unfoldable pub is_word : Stage → Bool
is_word word = true
is_word _ = false

unfoldable pub load_slot : Option (List ℕ) → Uppercase → Uppercase
load_slot (some w) u = (load w u).1
load_slot none u = clear u

unfoldable pub slot : ℕ → Entry → Option ℕ
slot key e = if not (is_word e.stage) then none else elim (key_position key 0 entry_letter_keys) [
  | none ↦ none
  | some i ↦ get_elem? (as_str e.letters) (e.page * entry_letters_per_page + i)
]

unfoldable pub check_words : {B E : Type 0} → Result B E → Entry → Step B × Entry
check_words (ok backup) e = (entered backup, e)
check_words (err _) e = (redraw, record e { stage = failed })

module _ {B E : Type 0} (bip : Bip39 B E) where
  open bip use {words_with_prefix, get_valid_next_letters, from_words}

  unfoldable pub unique : Entry → Option (List ℕ)
  unfolding sole
  unique e = sole (words_with_prefix (as_str e.prefix))

  unfoldable pub whole_word : Entry → Option (List ℕ)
  unfolding filter_eq
  whole_word e =
      let prefix = as_str e.prefix in filter_eq prefix (get_elem? (words_with_prefix prefix) 0)

  unfoldable pub accept : Entry → Option (List ℕ)
  accept e = elim (unique e) [ some w ↦ some w | none ↦ whole_word e ]

  unfoldable pub word_entry : Entry → WordEntry
  word_entry e = record {
    number = e.cursor + 1;
    partial = as_str e.prefix;
    previous = if e.cursor == 0 then none else slot_of (get_elem? e.words (e.cursor - 1));
    candidates = as_str e.letters;
    page = e.page;
    complete = elim (accept e) [ some _ ↦ true | none ↦ false ];
  }

  unfoldable pub screen : Entry → Screen
  screen e = elim e.stage [
    | index ↦ share_index (if ltb 0 e.share then some e.share else none)
    | word ↦ word_page (word_entry e)
    | failed ↦ checksum_failed
  ]

  unfoldable pub refresh : Entry → Entry
  refresh e = record e {
    letters = push_all (get_valid_next_letters (as_str e.prefix)) (clear e.letters);
    page = 0;
  }

  -- `Entry::new`
  unfoldable pub fresh : List ℕ → Entry
  fresh id = refresh (record {
    id = id;
    stage = index;
    share = 0;
    words = replicate backup_words none;
    cursor = 0;
    prefix = blank max_word_len;
    letters = blank max_candidate_letters;
    page = 0;
  })

  unfoldable pub go_to : ℕ → Entry → Step B × Entry
  go_to cursor e =
      let at : ℕ = min cursor (backup_words - 1) in
      (
        redraw,
        refresh (record e {
          cursor = at;
          prefix = load_slot (slot_of (get_elem? e.words at)) e.prefix;
        }),
      )

  unfoldable pub submit : Entry → Step B × Entry
  submit e = elim (first_missing 0 e.words) [
    | some missing ↦ go_to missing e
    | none ↦ check_words (from_words e.share (map word_or_empty e.words)) e
  ]

  -- The arms of `word_key`.
  unfoldable pub turn_page : Entry → Step B × Entry
  turn_page e =
      let count = pages (word_entry e) in
      if ltb 1 count then (redraw, record e { page = (e.page + 1) % count }) else (unchanged, e)

  unfoldable pub delete : Entry → Step B × Entry
  delete e =
      let (popped, prefix) = pop e.prefix in
      if popped
      then (redraw, refresh (record e { prefix = prefix }))
      else if e.cursor == 0
      then (redraw, record e { prefix = prefix; stage = index })
      else go_to (e.cursor - 1) (record e { prefix = prefix })

  unfoldable pub commit : Entry → Step B × Entry
  commit e = elim (accept e) [
    | some w ↦
        let held : Entry = record e { words = set e.words e.cursor (some w) } in
        if ltb (e.cursor + 1) backup_words then go_to (e.cursor + 1) held else submit held
    | none ↦ (unchanged, e)
  ]

  unfoldable pub type_letter : ℕ → Entry → Step B × Entry
  type_letter letter e =
      let (pushed, prefix) = push letter e.prefix in
      if pushed
      then (redraw, refresh (record e { prefix = prefix }))
      else (unchanged, record e { prefix = prefix })

  unfoldable pub word_key : ℕ → Entry → Step B × Entry
  word_key key e = elim (slot key e) [
    | some letter ↦ type_letter letter e
    | none ↦
        if key == entry_page_key
        then turn_page e
        else if key == entry_delete_key
        then delete e
        else if key == entry_ok_key
        then commit e
        else (unchanged, e)
  ]

  unfoldable pub digit_key : ℕ → Entry → Step B × Entry
  digit_key digit e = elim (shifted e.share digit) [
    | some share ↦
        if not (share == e.share) then (redraw, record e { share = share }) else (unchanged, e)
    | none ↦ (unchanged, e)
  ]

  unfoldable pub index_key : ℕ → Entry → Step B × Entry
  index_key key e =
      if leb 48 key && leb key 57
      then digit_key (key - 48) e
      else if key == entry_ok_key && ltb 0 e.share
      then go_to 0 (record e { stage = word })
      else if key == entry_delete_key && ltb 0 e.share
      then (redraw, record e { share = e.share / 10 })
      else if key == entry_delete_key
      then (abort, e)
      else (unchanged, e)

  unfoldable pub key_in : Stage → ℕ → Entry → Step B × Entry
  key_in index pressed e = index_key pressed e
  key_in word pressed e = word_key pressed e
  key_in failed pressed e = go_to (backup_words - 1) (record e { stage = word })

  unfoldable pub key : ℕ → Entry → Step B × Entry
  key pressed e = key_in e.stage pressed e

  -- The entry after some keys.
  unfoldable pub press : List ℕ → Entry → Entry
  press [] e = e
  press (k ∷ ks) e = press ks (key k e).1
