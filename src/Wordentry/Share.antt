-- ===== src/Wordentry/Share.antt =====
-- firmware/src/wordentry.rs: a share can be typed in, whole.
use cold_snap.Prelude.{
  ℕ, suc, ◌+◌, ◌≤◌, ◌<◌, ◌≡◌, inl, inr, refl, sym, ap, ◌∙◌, subst, true, false, ◌&&◌, List, [], ◌∷◌,
  ◌++◌, Option, none, some, ok, ◌==◌, ltb, length, get_elem?, arith, map, set, replicate,
  Option-cases, append_assoc, append-nil, ap₂, min, length-append,
}
use cold_snap.Prelude.Bytes.{bytes_eq_self}
use cold_snap.Wordentry.{
  Bip39, Entry, key, key_in, press, index_key, word_key, slot, accept, unique, whole_word, sole,
  filter_eq, word, key_position, is_word, refresh,
}
use cold_snap.Wordentry.Letters.{as_str, Holds-as_str, clear-Holds}
use cold_snap.Wordentry.Laws.{Among, WordListLaws}
use cold_snap.Wordentry.Invariant.{IsKept, go_to-IsEntry}
use cold_snap.Wordentry.{
  go_to, commit, submit, check_words, fresh, entered, word_or_empty, first_missing, load_slot,
  slot_of,
}
use cold_snap.Wordentry.Digits.{press-append, index_typed}
use cold_snap.Wordentry.Typing.{IsAt, rest_typed, key-word}
use cold_snap.Wordentry.Steps.{fresh-IsEntry, held_word}
use cold_snap.Wordentry.Edits.{sole_lem, reset}

abbrev pub AllAmong : List (List ℕ) → List (List ℕ) → Type 0
AllAmong words [] = Unit {0}
AllAmong words (w ∷ ws) = Among w words × AllAmong words ws

set-next :
    (done : List (List ℕ)) (w : List ℕ) (k : ℕ)
    → set (map some done ++ replicate (suc k) none) (length done) (some w)
      ≡ map some (done ++ w ∷ []) ++ replicate k none
unfolding replicate
set-next [] w k = refl
set-next (x ∷ done) w k = ap (◌∷◌ (some x)) (set-next done w k)

first_missing-all : (i : ℕ) (ws : List (List ℕ)) → first_missing i (map some ws) ≡ none
unfolding first_missing
first_missing-all i [] = refl
first_missing-all i (w ∷ ws) = first_missing-all (suc i) ws

word_or_empty-all : (ws : List (List ℕ)) → map word_or_empty (map some ws) ≡ ws
unfolding word_or_empty
word_or_empty-all [] = refl
word_or_empty-all (w ∷ ws) = ap (◌∷◌ w) (word_or_empty-all ws)

next_empty :
    (done : List (List ℕ)) (k : ℕ)
    → slot_of (get_elem? (map some done ++ replicate (suc k) none) (length done)) ≡ none
unfolding replicate slot_of
next_empty [] k = refl
next_empty (x ∷ done) k = next_empty done k

module _ {B E : Type 0} (bip : Bip39 B E) (words : List (List ℕ))
    (law : WordListLaws bip words) where
  -- The OK key commits the word that is typed whole.
  accept-word :
      (e : Entry) (w : List ℕ) → Among w words → as_str e.prefix ≡ w → accept bip e ≡ some w
  unfolding accept unique whole_word
  accept-word e w m shown = elim (Option-cases (unique bip e)) [
    | inr (only, u) ↦
        let block : sole (bip.words_with_prefix w) ≡ some only =
          ap (λ xs. sole (bip.words_with_prefix xs)) (sym shown) ∙ u in
        let same : some only ≡ some w =
          sym (sole_lem (bip.words_with_prefix w) only block) ∙ law.first w m in
        rw (u, accept) same
    | inl nothing ↦
        rw (nothing, accept)
          (subst (λ xs. filter_eq xs (get_elem? (bip.words_with_prefix xs) 0) ≡ some w) (sym shown)
            (unfold filter_eq in rw (law.first w m, filter_eq) (rw (bytes_eq_self w) refl)))
  ]

  committed :
      (e : Entry) (w : List ℕ) (n j : ℕ) (slots : List (Option (List ℕ)))
      → IsAt bip words n j 0 slots w e
      → Among w words
      → key bip 121 e ≡ commit bip e
  unfolding word_key
  committed e w n j slots at m =
      let none_such : slot 121 e ≡ none =
        unfold slot key_position is_word in rw (at.stage, slot) refl in
      rw (key-word bip words law 121 e at.stage) (rw (none_such, word_key) refl)

  -- On an empty slot nothing is typed.
  arrive :
      (e : Entry) (cursor n : ℕ) (slots : List (Option (List ℕ)))
      → IsKept bip words e
      → e.stage ≡ word
      → e.share ≡ n
      → e.words ≡ slots
      → cursor ≤ 24
      → slot_of (get_elem? slots cursor) ≡ none
      → IsAt bip words n cursor 0 slots [] (go_to {B = B} bip cursor e).1
  unfolding go_to refresh
  arrive e cursor n slots k st sh held small empty =
      let inside : min cursor 24 ≡ cursor = omega arith in
      let gone : slot_of (get_elem? e.words (min cursor 24)) ≡ none =
        ap₂ (λ xs i. slot_of (get_elem? xs i)) held inside ∙ empty in
      record {
        stage = st;
        share = sh;
        cursor = inside;
        held = held;
        shown =
            ap (λ o. as_str (load_slot o e.prefix)) gone
            ∙ (unfold load_slot in Holds-as_str (clear-Holds k.held));
        turned = refl;
        valid = go_to-IsEntry bip words law cursor e k;
      }

  -- The entry in which the slot of the cursor got its word.
  abbrev put_in : List ℕ → Entry → Entry
  put_in w e = record e { words = set e.words e.cursor (some w) }

  put_in-words :
      (done : List (List ℕ)) (w : List ℕ) (n k : ℕ) (e : Entry)
      → IsAt bip words n (length done) 0 (map some done ++ replicate (suc k) none) w e
      → (put_in w e).words ≡ map some (done ++ w ∷ []) ++ replicate k none
  put_in-words done w n k e at =
      ap₂ (λ xs i. set xs i (some w)) at.held at.cursor ∙ set-next done w k

  -- One word after the other.
  word_done :
      (done : List (List ℕ)) (w : List ℕ) (n k : ℕ) (e : Entry)
      → IsAt bip words n (length done) 0 (map some done ++ replicate (suc (suc k)) none) w e
      → Among w words
      → length done + suc (suc k) ≡ 25
      → IsAt bip words n
          (length (done ++ w ∷ []))
          0
          (map some (done ++ w ∷ []) ++ replicate (suc k) none)
          []
          (key bip 121 e).1
  word_done done w n k e at m total =
      let count = length-append done (w ∷ []) in
      let j = length (done ++ w ∷ []) in
      let slots = map some (done ++ w ∷ []) ++ replicate (suc k) none in
      let inner : ltb (e.cursor + 1) 25 ≡ true = ground (arith, at.cursor) in
      let place : e.cursor + 1 ≡ j = omega (arith, at.cursor) in
      let run : (key bip 121 e).1 ≡ (go_to {B = B} bip j (put_in w e)).1 =
        rw (committed e w n (length done) (map some done ++ replicate (suc (suc k)) none) at m) (
          unfold commit in
          rw (accept-word e w m at.shown, commit)
            (rw inner (ap (λ i. (go_to {B = B} bip i (put_in w e)).1) place))) in
      subst (IsAt bip words n j 0 slots []) (sym run) (
        arrive (put_in w e) j n slots (held_word bip words law e w at.valid m).kept at.stage
          at.share (put_in-words done w n (suc k) e at) (omega arith)
          (next_empty (done ++ w ∷ []) k))

  -- The last word, and the checksum.
  last_word :
      (done : List (List ℕ)) (w : List ℕ) (n : ℕ) (b : B) (e : Entry)
      → IsAt bip words n (length done) 0 (map some done ++ replicate 1 none) w e
      → Among w words
      → length done + 1 ≡ 25
      → bip.from_words n (done ++ w ∷ []) ≡ ok b
      → (key bip 121 e).0 ≡ entered b
  last_word done w n b e at m total checked =
      let ws = done ++ w ∷ [] in
      let outer : ltb (e.cursor + 1) 25 ≡ false = ground (arith, at.cursor) in
      let full : (put_in w e).words ≡ map some ws =
        put_in-words done w n 0 e at ∙ (unfold replicate in append-nil (map some ws)) in
      let filled : first_missing 0 (put_in w e).words ≡ none =
        ap (first_missing 0) full ∙ first_missing-all 0 ws in
      let verdict : bip.from_words e.share (map word_or_empty (put_in w e).words) ≡ ok b =
        ap₂ bip.from_words at.share (ap (map word_or_empty) full ∙ word_or_empty-all ws)
        ∙ checked in
      rw (committed e w n (length done) (map some done ++ replicate 1 none) at m) (
        unfold commit submit in
        rw (accept-word e w m at.shown, commit)
          (rw outer (rw (filled, submit) (unfold check_words in rw (verdict, check_words) refl))))

  all_typed :
      (rest : List (List ℕ)) (w : List ℕ) (done : List (List ℕ)) (n : ℕ) (b : B) (e : Entry)
      → IsAt bip words n (length done) 0 (map some done ++ replicate (suc (length rest)) none) [] e
      → AllAmong words (w ∷ rest)
      → length done + suc (length rest) ≡ 25
      → bip.from_words n (done ++ w ∷ rest) ≡ ok b
      → (ks : List ℕ) × ((key bip 121 (press bip ks e)).0 ≡ entered b)
  unfolding press
  all_typed [] w done n b e at m total checked =
      let slots = map some done ++ replicate 1 none in
      let (ks, there) = rest_typed bip words law w n (length done) slots [] w e at m.0 refl in
      (ks, last_word done w n b (press bip ks e) there m.0 total checked)
  all_typed (v ∷ rest) w done n b e at m total checked =
      let slots = map some done ++ replicate (suc (suc (length rest))) none in
      let (ks, there) = rest_typed bip words law w n (length done) slots [] w e at m.0 refl in
      let f = press bip ks e in
      let (js, done') =
        all_typed rest v (done ++ w ∷ []) n b (key bip 121 f).1
          (word_done done w n (length rest) f there m.0 total) m.1
          (omega (arith, length-append done (w ∷ [])))
          (ap (bip.from_words n) (append_assoc done (w ∷ []) (v ∷ rest)) ∙ checked) in
      (
        ks ++ 121 ∷ js,
        subst (λ (g : Entry). (key bip 121 g).0 ≡ entered b)
            (sym (press-append bip ks (121 ∷ js) e)) done',
      )

  -- With the words' lookup that keeps its laws, every share can be typed in: for an index from 1 that a
  -- `u32` holds and 25 words of the list, where the checksum gives a share for them, there are keys
  -- after which OK, from a fresh entry on, enters that share.
  pub share-typed :
      (id : List ℕ) (n : ℕ) (w : List ℕ) (rest : List (List ℕ)) (b : B)
      → 0 < n
      → n < 4294967296
      → length rest ≡ 24
      → AllAmong words (w ∷ rest)
      → bip.from_words n (w ∷ rest) ≡ ok b
      → (ks : List ℕ) × ((key bip 121 (press bip ks (fresh bip id))).0 ≡ entered b)
  unfolding fresh refresh press replicate
  share-typed id n w rest b pos small total m checked =
      let e = fresh bip id in
      let (ks, typed) = index_typed bip n n e refl refl (omega arith) small in
      let v = fresh-IsEntry bip words law id in
      let e1 : Entry = record e { share = n } in
      let e2 : Entry = record e1 { stage = word } in
      let okay : (121 == 121 && ltb 0 n) ≡ true = ground (arith, pos) in
      let run : (key bip 121 e1).1 ≡ (go_to {B = B} bip 0 e2).1 =
        unfold key key_in index_key in rw okay refl in
      let slots = map some [] ++ replicate (suc (length rest)) none in
      let start : e2.words ≡ slots = ap (λ k. replicate (suc k) none) (sym total) in
      let k = (reset bip words law e word n e.page v small v.turned).kept in
      let at = arrive e2 0 n slots k refl refl start (omega arith) (next_empty [] (length rest)) in
      let (js, done) =
        all_typed rest w [] n b (key bip 121 e1).1
          (subst (IsAt bip words n 0 0 slots []) (sym run) at) m (omega arith) checked in
      (
        ks ++ 121 ∷ js,
        subst (λ (g : Entry). (key bip 121 g).0 ≡ entered b)
            (sym (press-append bip ks (121 ∷ js) e ∙ ap (press bip (121 ∷ js)) typed)) done,
      )
