-- ===== src/Wordentry/Typing.antt =====
-- firmware/src/wordentry.rs: every word of the list can be typed in.
use cold_snap.Prelude.{
  ℕ, zero, suc, ◌+◌, ◌*◌, ◌/◌, ◌%◌, ◌<◌, ◌≡◌, refl, sym, ap, ◌∙◌, subst, true, List, [], ◌∷◌, ◌++◌,
  Option, none, some, ltb, length, get_elem?, arith, append_assoc, append-nil, length-append,
  lt-of-get_elem?,
}
use native.Mathlib.Nat.{mod-eq_of_lt}
use cold_snap.Wordentry.{
  Bip39, Entry, key, key_in, press, word_key, type_letter, slot, turn_page, pages, word_entry, word,
  key_position, is_word, entry_letter_keys, refresh,
}
use cold_snap.Wordentry.Letters.{
  push, as_str, Holds-as_str, push-Holds, AllUpper, is_ascii_uppercase,
}
use cold_snap.Wordentry.Laws.{Among, WordListLaws}
use cold_snap.Wordentry.Invariant.{IsEntry, page_count}
use cold_snap.Wordentry.Steps.{key-IsEntry}
use cold_snap.Wordentry.Edits.{pages-word_entry}
use cold_snap.Wordentry.Digits.{press-append}

-- An entry on a page of word `j`, with the share index `n`, the slots and the letters given.
pub record IsAt {B E : Type 0} (bip : Bip39 B E) (words : List (List ℕ)) (n j page : ℕ)
    (slots : List (Option (List ℕ))) (typed : List ℕ) (e : Entry) : Type 0 where
  pub stage : e.stage ≡ word
  pub share : e.share ≡ n
  pub cursor : e.cursor ≡ j
  pub held : e.words ≡ slots
  pub shown : as_str e.prefix ≡ typed
  pub turned : e.page ≡ page
  pub valid : IsEntry bip words e

key_position-letter : (m : ℕ) → m < 9 → key_position (49 + m) 0 entry_letter_keys ≡ some m
unfolding key_position
key_position-letter m h = ground arith

module _ {B E : Type 0} (bip : Bip39 B E) (words : List (List ℕ))
    (law : WordListLaws bip words) where
  pub key-word : (k : ℕ) (e : Entry) → e.stage ≡ word → key bip k e ≡ word_key bip k e
  unfolding key key_in
  key-word k e here = ap (λ s. key_in bip s k e) here

  -- The paging key leads from page to page.
  page_turned :
      (e : Entry)
      → IsEntry bip words e
      → e.stage ≡ word
      → e.page + 1 < pages (word_entry bip e)
      → (key bip 48 e).1 ≡ record e { page = e.page + 1 }
  unfolding word_key turn_page
  page_turned e v here more =
      let none_such : slot 48 e ≡ none = unfold slot key_position is_word in rw (here, slot) refl in
      let many : ltb 1 (pages (word_entry bip e)) ≡ true = ground (arith, more) in
      rw (key-word 48 e here)
        (rw (none_such, word_key) (rw many (ap (λ p. record e { page = p }) (mod-eq_of_lt more))))

  -- The key under a letter types it.
  letter_typed :
      (n j page m c : ℕ) (slots : List (Option (List ℕ))) (typed : List ℕ) (e : Entry)
      → IsAt bip words n j page slots typed e
      → m < 9
      → get_elem? (as_str e.letters) (page * 9 + m) ≡ some c
      → is_ascii_uppercase c ≡ true
      → length typed < 8
      → IsAt bip words n j 0 slots (typed ++ c ∷ []) (key bip (49 + m) e).1
  unfolding refresh
  letter_typed n j page m c slots typed e at small shows up room =
      let v = at.valid in
      let same : v.kept.typed ≡ typed = sym (Holds-as_str v.kept.held) ∙ at.shown in
      let here : get_elem? (as_str e.letters) (e.page * 9 + m) ≡ some c =
        ap (λ p. get_elem? (as_str e.letters) (p * 9 + m)) at.turned ∙ shows in
      let picked : slot (49 + m) e ≡ some c =
        unfold slot is_word in rw (at.stage, slot) (rw (key_position-letter m small, slot) here) in
      let (pushed, holds) = push-Holds v.kept.held c up (omega (arith, ap length same)) in
      let e1 : Entry = record e { prefix = (push c e.prefix).1 } in
      let run : (key bip (49 + m) e).1 ≡ refresh bip e1 =
        rw (key-word (49 + m) e at.stage)
          (unfold word_key type_letter in rw (picked, word_key) (rw pushed refl)) in
      subst (IsAt bip words n j 0 slots (typed ++ c ∷ [])) (sym run) (record {
        stage = at.stage;
        share = at.share;
        cursor = at.cursor;
        held = at.held;
        shown = Holds-as_str holds ∙ ap (λ xs. xs ++ c ∷ []) same;
        turned = refl;
        valid = subst (IsEntry bip words) run (key-IsEntry bip words law (49 + m) e v);
      })

  IsAt-letters :
      (n j page : ℕ) (slots : List (Option (List ℕ))) (typed : List ℕ) (e : Entry)
      → IsAt bip words n j page slots typed e
      → as_str e.letters ≡ bip.get_valid_next_letters typed
  IsAt-letters n j page slots typed e at =
      let v = at.valid in
      Holds-as_str v.kept.offered
      ∙ v.current
      ∙ ap bip.get_valid_next_letters (sym (Holds-as_str v.kept.held) ∙ at.shown)

  -- The paging key, `more` times.
  pages_turned :
      (n j page more : ℕ) (slots : List (Option (List ℕ))) (typed : List ℕ) (e : Entry)
      → IsAt bip words n j page slots typed e
      → page + more < page_count (length (bip.get_valid_next_letters typed))
      → (ks : List ℕ) × IsAt bip words n j (page + more) slots typed (press bip ks e)
  unfolding press
  pages_turned n j page zero slots typed e at inside = (
    [],
    subst (λ p. IsAt bip words n j p slots typed e) {x = page} {y = page + 0} (omega arith) at,
  )
  pages_turned n j page (suc more) slots typed e at inside =
      let v = at.valid in
      let count : pages (word_entry bip e)
          ≡ page_count (length (bip.get_valid_next_letters typed)) =
        pages-word_entry bip words law e v
        ∙ ap (λ xs. page_count (length xs))
            (sym (Holds-as_str v.kept.offered) ∙ IsAt-letters n j page slots typed e at) in
      let run = page_turned e v at.stage (omega (arith, count, at.turned)) in
      let (ks, there) =
        pages_turned n j (page + 1) more slots typed (key bip 48 e).1
          (subst (IsAt bip words n j (page + 1) slots typed) (sym run) (record {
            stage = at.stage;
            share = at.share;
            cursor = at.cursor;
            held = at.held;
            shown = at.shown;
            turned = ap (λ p. p + 1) at.turned;
            valid = subst (IsEntry bip words) run (key-IsEntry bip words law 48 e v);
          }))
          (omega arith) in
      (
        48 ∷ ks,
        subst (λ p. IsAt bip words n j p slots typed (press bip ks (key bip 48 e).1))
            {x = page + 1 + more} {y = page + suc more} (omega arith) there,
      )

  upper_at :
      (xs : List ℕ) (i c : ℕ) → AllUpper xs → get_elem? xs i ≡ some c → is_ascii_uppercase c ≡ true
  upper_at [] i c up h = absurd (cc h)
  upper_at (x ∷ xs) zero c up h = subst (λ y. is_ascii_uppercase y ≡ true) (cc h) up.0
  upper_at (x ∷ xs) (suc i) c up h = upper_at xs i c up.1 h

  one_typed :
      (n j c : ℕ) (slots : List (Option (List ℕ))) (typed : List ℕ) (e : Entry)
      → IsAt bip words n j 0 slots typed e
      → Among c (bip.get_valid_next_letters typed)
      → length typed < 8
      → (ks : List ℕ) × IsAt bip words n j 0 slots (typed ++ c ∷ []) (press bip ks e)
  one_typed n j c slots typed e at (i, shows) room =
      let inside = lt-of-get_elem? (bip.get_valid_next_letters typed) i c shows in
      let (ks, there) = pages_turned n j 0 (i / 9) slots typed e at (ground (arith, inside)) in
      let f = press bip ks e in
      let here : get_elem? (as_str f.letters) ((0 + i / 9) * 9 + i % 9) ≡ some c =
        ap (λ xs. get_elem? xs ((0 + i / 9) * 9 + i % 9))
          (IsAt-letters n j (0 + i / 9) slots typed f there)
        ∙ ap (get_elem? (bip.get_valid_next_letters typed)) {x = (0 + i / 9) * 9 + i % 9} {y = i}
            (omega arith)
        ∙ shows in
      (
        ks ++ (49 + i % 9) ∷ [],
        subst (IsAt bip words n j 0 slots (typed ++ c ∷ []))
            (sym (press-append bip ks ((49 + i % 9) ∷ []) e))
            (unfold press in
              letter_typed n j (0 + i / 9) (i % 9) c slots typed f there (omega arith) here
                (upper_at (bip.get_valid_next_letters typed) i c (law.upper typed) shows) room),
      )

  pub rest_typed :
      (rest : List ℕ) (n j : ℕ) (slots : List (Option (List ℕ))) (typed w : List ℕ) (e : Entry)
      → IsAt bip words n j 0 slots typed e
      → Among w words
      → typed ++ rest ≡ w
      → (ks : List ℕ) × IsAt bip words n j 0 slots w (press bip ks e)
  unfolding press
  rest_typed [] n j slots typed w e at m whole =
      ([], subst (λ xs. IsAt bip words n j 0 slots xs e) (sym (append-nil typed) ∙ whole) at)
  rest_typed (c ∷ rest) n j slots typed w e at m whole =
      let whole' = append_assoc typed (c ∷ []) rest ∙ whole in
      let fits = law.short w m in
      let (ks, there) =
        one_typed n j c slots typed e at ((law.next typed c).1 (w, m, (rest, whole')))
          (omega (arith, ap length whole, length-append typed (c ∷ rest))) in
      let (js, done) =
        rest_typed rest n j slots (typed ++ c ∷ []) w (press bip ks e) there m whole' in
      (ks ++ js, subst (IsAt bip words n j 0 slots w) (sym (press-append bip ks js e)) done)
