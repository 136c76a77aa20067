-- ===== src/Wordentry/Answer.antt =====
-- firmware/src/wordentry.rs: what an answer of `Entry::key` that carries a share says.
use cold_snap.Prelude.{
  ℕ, zero, suc, ◌+◌, ◌≡◌, ◌≢◌, inl, inr, refl, sym, ap, ◌∙◌, subst, List, [], ◌∷◌, Option, none,
  some, Result, ok, err, ◌==◌, ltb, length, map, get_elem?, set, arith, Bool-cases, Option-cases,
}
use cold_snap.Wordentry.{
  Bip39, Entry, Step, Stage, entered, go_to, key, key_in, index_key, digit_key, word_key,
  type_letter, slot, turn_page, delete, commit, submit, check_words, accept, index, word, failed,
  first_missing, word_or_empty,
}
use cold_snap.Wordentry.Laws.{Among, WordListLaws}
use cold_snap.Wordentry.Invariant.{IsEntry}
use cold_snap.Wordentry.Steps.{key-IsEntry}

filled-map :
    (i : ℕ) (slots : List (Option (List ℕ)))
    → first_missing i slots ≡ none
    → slots ≡ map some (map word_or_empty slots)
unfolding first_missing word_or_empty
filled-map i [] h = refl
filled-map i (none ∷ slots) h = absurd (cc h)
filled-map i (some w ∷ slots) h = ap (◌∷◌ (some w)) (filled-map (suc i) slots h)

get_elem?-map-some :
    (ws : List (List ℕ)) (i : ℕ) (w : List ℕ)
    → get_elem? ws i ≡ some w
    → get_elem? (map some ws) i ≡ some (some w)
get_elem?-map-some [] i w h = absurd (cc h)
get_elem?-map-some (x ∷ ws) zero w h = ap some h
get_elem?-map-some (x ∷ ws) (suc i) w h = get_elem?-map-some ws i w h

module _ {B E : Type 0} (bip : Bip39 B E) where
  -- An answer that carries a share carries the one that the slots check to.
  abbrev Verified : Step B × Entry → Type 0
  Verified r =
      (b : B)
      → r.0 ≡ entered b
      → (ws : List (List ℕ)) × (r.1.words ≡ map some ws) × (bip.from_words r.1.share ws ≡ ok b)

  silent : (r : Step B × Entry) → ((b : B) → r.0 ≢ entered b) → Verified r
  silent r h b e = absurd (h b e)

  go_to-Verified : (cursor : ℕ) (e : Entry) → Verified (go_to bip cursor e)
  unfolding go_to
  go_to-Verified cursor e b h = absurd (cc h)

  check_words-Verified :
      (r : Result B E) (e : Entry) (ws : List (List ℕ))
      → e.words ≡ map some ws
      → bip.from_words e.share ws ≡ r
      → Verified (check_words r e)
  unfolding check_words
  check_words-Verified (ok backup) e ws filled checked b h = (ws, filled, checked ∙ cc h)
  check_words-Verified (err _) e ws filled checked b h = absurd (cc h)

  submit-Verified : (e : Entry) → Verified (submit bip e)
  unfolding submit
  submit-Verified e = elim (Option-cases (first_missing 0 e.words)) [
    | inl filled ↦
        let ws = map word_or_empty e.words in
        rw (filled, submit)
          (check_words-Verified (bip.from_words e.share ws) e ws (filled-map 0 e.words filled) refl)
    | inr (missing, at) ↦ rw (at, submit) (go_to-Verified missing e)
  ]

  commit-Verified : (e : Entry) → Verified (commit bip e)
  unfolding commit
  commit-Verified e = elim (Option-cases (accept bip e)) [
    | inl nothing ↦ rw (nothing, commit) (λ b h. absurd (cc h))
    | inr (w, a) ↦
        let f : Entry = record e { words = set e.words e.cursor (some w) } in
        rw (a, commit)
          (elim (Bool-cases (ltb (e.cursor + 1) 25)) [
            | inl next ↦ rw next (go_to-Verified (e.cursor + 1) f)
            | inr last ↦ rw last (submit-Verified f)
          ])
  ]

  type_letter-Verified : (letter : ℕ) (e : Entry) → Verified (type_letter bip letter e)
  unfolding type_letter
  type_letter-Verified letter e b h = absurd (ground (arith, h))

  turn_page-Verified : (e : Entry) → Verified (turn_page bip e)
  unfolding turn_page
  turn_page-Verified e b h = absurd (ground (arith, h))

  delete-Verified : (e : Entry) → Verified (delete bip e)
  unfolding delete go_to
  delete-Verified e b h = absurd (ground (arith, h))

  index_key-Verified : (k : ℕ) (e : Entry) → Verified (index_key bip k e)
  unfolding index_key digit_key go_to
  index_key-Verified k e b h = absurd (ground (arith, h))

  word_key-Verified : (k : ℕ) (e : Entry) → Verified (word_key bip k e)
  unfolding word_key
  word_key-Verified k e = elim (Option-cases (slot k e)) [
    | inr (letter, at) ↦ rw (at, word_key) (type_letter-Verified letter e)
    | inl other ↦
        rw (other, word_key)
          (elim (Bool-cases (k == 48)) [
            | inl page ↦ rw page (turn_page-Verified e)
            | inr a ↦ rw a (elim (Bool-cases (k == 120)) [
              | inl del ↦ rw del (delete-Verified e)
              | inr b ↦ rw b (elim (Bool-cases (k == 121)) [
                | inl okay ↦ rw okay (commit-Verified e)
                | inr c ↦ rw c (λ b h. absurd (cc h))
              ])
            ])
          ])
  ]

  key_in-Verified : (s : Stage) (k : ℕ) (e : Entry) → Verified (key_in bip s k e)
  unfolding key_in
  key_in-Verified index k e = index_key-Verified k e
  key_in-Verified word k e = word_key-Verified k e
  key_in-Verified failed k e = go_to-Verified 24 (record e { stage = word })

  -- A key that enters a share enters the one that the checksum gives for the index and the words of
  -- the slots, of which all 25 are filled, each with a word of the list.
  pub key-entered :
      (words : List (List ℕ)) (k : ℕ) (e : Entry) (b : B)
      → WordListLaws bip words
      → IsEntry bip words e
      → (key bip k e).0 ≡ entered b
      → (ws : List (List ℕ)) × ((key bip k e).1.words ≡ map some ws)
        × (length ((key bip k e).1.words) ≡ 25)
        × ((i : ℕ) (w : List ℕ) → get_elem? ws i ≡ some w → Among w words)
        × (bip.from_words (key bip k e).1.share ws ≡ ok b)
  unfolding key
  key-entered words k e b law v h =
      let (ws, filled, checked) = key_in-Verified e.stage k e b h in
      let after = key-IsEntry bip words law k e v in
      (
        ws,
        filled,
        after.kept.slots,
        λ i w at. after.kept.listed i w (
            subst (λ slots. get_elem? slots i ≡ some (some w)) (sym filled)
              (get_elem?-map-some ws i w at)),
        checked,
      )
