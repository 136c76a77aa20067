-- ===== src/Wordentry/Slots.antt =====
-- firmware/src/wordentry.rs: what a key does to the words that are in.
use cold_snap.Prelude.{
  ℕ, ◌+◌, ◌<◌, ◌≡◌, ◌⊎◌, inl, inr, refl, sym, ap, ◌∙◌, subst, List, some, Result, ok, err, ◌==◌,
  ==_iff, ltb, length, map, get_elem?, set, arith, Bool-cases, Option-cases, get_elem?-set_self,
  get_elem?-set_other,
}
use native.Mathlib.Decide.{ℕ_discrete}
use cold_snap.Wordentry.{
  Bip39, Entry, Step, Stage, refresh, go_to, key, key_in, index_key, digit_key, word_key,
  type_letter, slot, turn_page, delete, commit, submit, check_words, accept, index, word, failed,
  first_missing, word_or_empty,
}
use cold_snap.Wordentry.Laws.{Among, StartsWith, WordListLaws}
use cold_snap.Wordentry.Invariant.{IsEntry}
use cold_snap.Wordentry.Edits.{accept_lem}

module _ {B E : Type 0} (bip : Bip39 B E) where
  -- The same slots, or the OK key in the stage of the words, and the accepted word in the slot of the cursor.
  abbrev Change : ℕ → Entry → Step B × Entry → Type 0
  Change k e r =
      (r.1.words ≡ e.words)
      ⊎ ((k ≡ 121)
          × ((w : List ℕ) × (accept bip e ≡ some w) × (r.1.words ≡ set e.words e.cursor (some w))))

  go_to-words : (cursor : ℕ) (e : Entry) → (go_to {B = B} bip cursor e).1.words ≡ e.words
  unfolding go_to refresh
  go_to-words cursor e = refl

  check_words-words : (r : Result B E) (e : Entry) → (check_words r e).1.words ≡ e.words
  unfolding check_words
  check_words-words (ok b) e = refl
  check_words-words (err _) e = refl

  submit-words : (e : Entry) → (submit bip e).1.words ≡ e.words
  unfolding submit
  submit-words e = elim (Option-cases (first_missing 0 e.words)) [
    | inl filled ↦
        rw (filled, submit)
          (check_words-words (bip.from_words e.share (map word_or_empty e.words)) e)
    | inr (missing, at) ↦ rw (at, submit) (go_to-words missing e)
  ]

  commit-Change : (e : Entry) → Change 121 e (commit bip e)
  unfolding commit
  commit-Change e = elim (Option-cases (accept bip e)) [
    | inl nothing ↦ rw (nothing, commit) (inl refl)
    | inr (w, a) ↦
        let f : Entry = record e { words = set e.words e.cursor (some w) } in
        rw (a, commit)
          (elim (Bool-cases (ltb (e.cursor + 1) 25)) [
            | inl next ↦ rw next (inr (refl, (w, refl, go_to-words (e.cursor + 1) f)))
            | inr last ↦ rw last (inr (refl, (w, refl, submit-words f)))
          ])
  ]

  type_letter-words :
      (letter : ℕ) (e : Entry) → (type_letter {B = B} bip letter e).1.words ≡ e.words
  unfolding type_letter refresh
  type_letter-words letter e = ground arith

  turn_page-words : (e : Entry) → (turn_page {B = B} bip e).1.words ≡ e.words
  unfolding turn_page
  turn_page-words e = ground arith

  delete-words : (e : Entry) → (delete {B = B} bip e).1.words ≡ e.words
  unfolding delete refresh go_to
  delete-words e = ground arith

  index_key-words : (k : ℕ) (e : Entry) → (index_key {B = B} bip k e).1.words ≡ e.words
  unfolding index_key digit_key refresh go_to
  index_key-words k e = ground arith

  word_key-Change : (k : ℕ) (e : Entry) → Change k e (word_key bip k e)
  unfolding word_key
  word_key-Change k e = elim (Option-cases (slot k e)) [
    | inr (letter, at) ↦ rw (at, word_key) (inl (type_letter-words letter e))
    | inl other ↦
        rw (other, word_key)
          (elim (Bool-cases (k == 48)) [
            | inl page ↦ rw page (inl (turn_page-words e))
            | inr a ↦ rw a (elim (Bool-cases (k == 120)) [
              | inl del ↦ rw del (inl (delete-words e))
              | inr b ↦ rw b (elim (Bool-cases (k == 121)) [
                | inl okay ↦ rw okay (
                    subst (λ n. Change n e (commit bip e)) (sym ((==_iff k 121).0 okay))
                      (commit-Change e))
                | inr c ↦ rw c (inl refl)
              ])
            ])
          ])
  ]

  key_in-Change :
      (s : Stage) (k : ℕ) (e : Entry)
      → ((key_in bip s k e).1.words ≡ e.words) ⊎ ((s ≡ word) × Change k e (key_in bip s k e))
  unfolding key_in
  key_in-Change index k e = inl (index_key-words k e)
  key_in-Change word k e = inr (refl, word_key-Change k e)
  key_in-Change failed k e = inl (go_to-words 24 (record e { stage = word }))

  -- What a key does to a slot: it is as it was, empty or not, or it is the cursor's in the stage of the words,
  -- the key is OK, and it holds a word of the list that begins with what is typed.
  pub key-slot :
      (words : List (List ℕ)) (law : WordListLaws bip words) (k i : ℕ) (e : Entry)
      (v : IsEntry bip words e)
      → (get_elem? (key bip k e).1.words i ≡ get_elem? e.words i)
        ⊎ ((i ≡ e.cursor)
            × (k ≡ 121)
            × (e.stage ≡ word)
            × ((w : List ℕ) × (get_elem? (key bip k e).1.words i ≡ some (some w))
                × Among w words
                × StartsWith v.kept.typed w))
  unfolding key
  key-slot words law k i e v = elim (key_in-Change e.stage k e) [
    | inl same ↦ inl (ap (λ slots. get_elem? slots i) same)
    | inr (stage, inl same) ↦ inl (ap (λ slots. get_elem? slots i) same)
    | inr (stage, inr (okay, (w, accepted, changed))) ↦ elim (ℕ_discrete i e.cursor) [
      | yes here ↦
          let inside : e.cursor < length e.words = omega (arith, v.within, v.kept.slots) in
          let (listed, begins) = accept_lem bip words law e w v.kept.typed v.kept.held accepted in
          inr (
            here,
            okay,
            stage,
            (
              w,
              ap (λ slots. get_elem? slots i) changed
                  ∙ ap (get_elem? (set e.words e.cursor (some w))) here
                  ∙ get_elem?-set_self e.words e.cursor (some w) inside,
              listed,
              begins,
            ),
          )
      | no other ↦ inl (
          ap (λ slots. get_elem? slots i) changed
          ∙ get_elem?-set_other e.words e.cursor i (some w) other)
    ]
  ]
