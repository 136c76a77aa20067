-- ===== src/Tests/Entry.antt =====
-- firmware/src/wordentry.rs with a list of one word, `A`, and a checksum that takes any share.
use cold_snap.Prelude.{
  ℕ, zero, suc, ◌≤◌, ◌≡◌, ◌⊎◌, ◌↔◌, inl, inr, refl, sym, ap, ◌∙◌, subst, List, [], ◌∷◌, ◌++◌, some,
  ok, arith, length, replicate, get_elem?, map, length-append, ◌==◌, if◌then◌else◌, Bool-cases,
  ==_iff, length-replicate,
}
use cold_snap.Wordentry.{
  Bip39, Entry, entered, key, press, fresh, word, slot, letter_for_key, word_entry, key_in,
  index_key, digit_key, shifted, go_to, refresh,
}
use cold_snap.Wordentry.Letters.{is_ascii_uppercase, AllUpper}
use cold_snap.Wordentry.Laws.{Among, StartsWith, WordListLaws}
use cold_snap.Wordentry.Invariant.{IsEntry}
use cold_snap.Wordentry.Steps.{key-IsEntry, fresh-IsEntry, press-IsEntry}
use cold_snap.Wordentry.Answer.{key-entered}
use cold_snap.Wordentry.Slots.{key-slot}
use cold_snap.Wordentry.Page.{slot-letter_for_key}
use cold_snap.Wordentry.Share.{share-typed, AllAmong}

abbrev letter_a : List ℕ
letter_a = 65 ∷ []

abbrev only_a : List (List ℕ)
only_a = letter_a ∷ []

abbrev behind : List ℕ → List (List ℕ)
behind [] = only_a
behind (c ∷ []) = if c == 65 then only_a else []
behind (_ ∷ _ ∷ _) = []

abbrev followers : List ℕ → List ℕ
followers [] = 65 ∷ []
followers (_ ∷ _) = []

abbrev one_word : Bip39 (ℕ × List (List ℕ)) (Unit {0})
one_word = record {
  words_with_prefix = behind;
  get_valid_next_letters = followers;
  from_words = λ n ws. ok (n, ws);
}

sole_a : (w : List ℕ) → Among w only_a → w ≡ letter_a
sole_a w (zero, h) = cc h
sole_a w (suc i, h) = absurd (cc h)

none_among : (w : List ℕ) → Among w [] → ⊥
none_among w (i, h) = cc h

head_a : (c : ℕ) (rest w : List ℕ) → Among w only_a → c ∷ rest ≡ w → (c ≡ 65) × (rest ≡ [])
head_a c rest w m e = let same = e ∙ sole_a w m in (cc same, cc same)

block_a : (p w : List ℕ) → Among w (behind p) ↔ (Among w only_a × StartsWith p w)
block_a [] w = (λ m. (m, (w, refl)), λ m. m.0)
block_a (c ∷ []) w = elim (Bool-cases (c == 65)) [
  | inl same ↦
      rw same
        ((λ m. (m, ([], ap (λ x. x ∷ []) ((==_iff c 65).0 same) ∙ sym (sole_a w m)))), (λ m. m.0))
  | inr other ↦ rw other (
    (λ m. absurd (none_among w m)),
    (λ m. absurd (cc (other, (==_iff c 65).1 (head_a c (m.1.0) w m.0 m.1.1).0))),
  )
]
block_a (c ∷ d ∷ p) w = (
  (λ m. absurd (none_among w m)),
  (λ m. absurd (cc ((head_a c (d ∷ (p ++ m.1.0)) w m.0 m.1.1).1))),
)

first_a : (p : List ℕ) → Among p only_a → get_elem? (behind p) 0 ≡ some p
first_a p m = subst (λ w. get_elem? (behind w) 0 ≡ some w) (sym (sole_a p m)) refl

next_a :
    (p : List ℕ) (c : ℕ)
    → Among c (followers p) ↔ ((w : List ℕ) × Among w only_a × StartsWith (p ++ c ∷ []) w)
next_a [] c = (there c, back)
  where
    there : (c : ℕ) → Among c (65 ∷ []) → (w : List ℕ) × Among w only_a × StartsWith (c ∷ []) w
    there c (zero, h) = (letter_a, (0, refl), ([], ap (λ x. x ∷ []) (cc h)))
    there c (suc i, h) = absurd (cc h)

    back : ((w : List ℕ) × Among w only_a × StartsWith (c ∷ []) w) → Among c (65 ∷ [])
    back (w, m, (rest, e)) = (0, ap some (sym (head_a c rest w m e).0))
next_a (d ∷ p) c = ((λ m. absurd (cc (m.1))), back)
  where
    back : ((w : List ℕ) × Among w only_a × StartsWith (d ∷ (p ++ c ∷ [])) w) → Among c []
    back (w, m, (rest, e)) = absurd (
        omega (
          arith,
          ap length (head_a d ((p ++ c ∷ []) ++ rest) w m e).1,
          length-append (p ++ c ∷ []) rest,
          length-append p (c ∷ []),
        ))

few_a : (p : List ℕ) → length (followers p) ≤ 26
few_a [] = omega arith
few_a (c ∷ p) = omega arith

upper_a : (p : List ℕ) → AllUpper (followers p)
unfolding is_ascii_uppercase
upper_a [] = (refl, tt)
upper_a (c ∷ p) = tt

letters_a : (w : List ℕ) → Among w only_a → AllUpper w
unfolding is_ascii_uppercase
letters_a w m = subst AllUpper (sym (sole_a w m)) (refl, tt)

short_a : (w : List ℕ) → Among w only_a → length w ≤ 8
short_a w m = omega (arith, ap length (sole_a w m))

laws : WordListLaws one_word only_a
laws = record {
  filled = (letter_a, (0, refl));
  block = block_a;
  first = first_a;
  next = next_a;
  few = few_a;
  upper = upper_a;
  letters = letters_a;
  short = short_a;
}

-- After the index 7 and OK.
start : Entry
start = press one_word (55 ∷ 121 ∷ []) (fresh one_word [])

start-IsEntry : IsEntry one_word only_a start
unfolding start
start-IsEntry =
    press-IsEntry one_word only_a laws (55 ∷ 121 ∷ []) (fresh one_word [])
      (fresh-IsEntry one_word only_a laws [])

key-IsEntry_example : IsEntry one_word only_a (key one_word 49 start).1
key-IsEntry_example = key-IsEntry one_word only_a laws 49 start start-IsEntry

all_a : (n : ℕ) → AllAmong only_a (replicate n letter_a)
unfolding replicate
all_a zero = tt
all_a (suc n) = ((0, refl), all_a n)

share-typed_example :
    (ks : List ℕ) × ((key one_word 121 (press one_word ks (fresh one_word []))).0
      ≡ entered (7, letter_a ∷ replicate 24 letter_a))
share-typed_example =
    share-typed one_word only_a laws [] 7 letter_a (replicate 24 letter_a)
      (7, letter_a ∷ replicate 24 letter_a) (omega arith) (omega arith)
      (length-replicate 24 letter_a) ((0, refl), all_a 24) refl

-- Keys that type the share.
typed : List ℕ
typed =
    (share-typed one_word only_a laws [] 7 letter_a (replicate 24 letter_a)
      (7, letter_a ∷ replicate 24 letter_a) (omega arith) (omega arith)
      (length-replicate 24 letter_a) ((0, refl), all_a 24) refl).0

full : Entry
full = press one_word typed (fresh one_word [])

full-IsEntry : IsEntry one_word only_a full
unfolding full
full-IsEntry =
    press-IsEntry one_word only_a laws typed (fresh one_word [])
      (fresh-IsEntry one_word only_a laws [])

done : (key one_word 121 full).0 ≡ entered (7, letter_a ∷ replicate 24 letter_a)
unfolding full typed
done =
    (share-typed one_word only_a laws [] 7 letter_a (replicate 24 letter_a)
      (7, letter_a ∷ replicate 24 letter_a) (omega arith) (omega arith)
      (length-replicate 24 letter_a) ((0, refl), all_a 24) refl).1

key-entered_example :
    (ws : List (List ℕ)) × ((key one_word 121 full).1.words ≡ map some ws)
    × (length ((key one_word 121 full).1.words) ≡ 25)
    × ((i : ℕ) (w : List ℕ) → get_elem? ws i ≡ some w → Among w only_a)
    × (one_word.from_words (key one_word 121 full).1.share ws
        ≡ ok (7, letter_a ∷ replicate 24 letter_a))
key-entered_example =
    key-entered one_word only_a 121 full (7, letter_a ∷ replicate 24 letter_a) laws full-IsEntry
      done

on_word : start.stage ≡ word
unfolding start press fresh key key_in index_key digit_key shifted go_to refresh
on_word = refl

slot-letter_for_key_example : slot 49 start ≡ letter_for_key 49 (word_entry one_word start)
slot-letter_for_key_example =
    slot-letter_for_key one_word only_a laws 49 start start-IsEntry on_word

-- After the first letter.
lettered : Entry
unfolding start
lettered = press one_word (49 ∷ []) start

lettered-IsEntry : IsEntry one_word only_a lettered
unfolding lettered
lettered-IsEntry = press-IsEntry one_word only_a laws (49 ∷ []) start start-IsEntry

key-slot_example :
    (get_elem? (key one_word 121 lettered).1.words 0 ≡ get_elem? lettered.words 0)
    ⊎ ((0 ≡ lettered.cursor)
        × (◌≡◌ {A = ℕ} 121 121)
        × (lettered.stage ≡ word)
        × ((w : List ℕ) × (get_elem? (key one_word 121 lettered).1.words 0 ≡ some (some w))
            × Among w only_a
            × StartsWith lettered-IsEntry.kept.typed w))
key-slot_example = key-slot one_word only_a laws 121 0 lettered lettered-IsEntry
