-- ===== src/Wordentry/Page.antt =====
-- firmware/src/wordentry.rs, `slot`, and hal/src/ui.rs, `letter_for_key`: the letter that a key types is
-- the one that the page shows under it.
use cold_snap.Prelude.{
  ℕ, zero, suc, ◌+◌, ◌*◌, ◌%◌, ◌≡◌, inl, inr, refl, sym, ◌∙◌, subst, List, [], ◌∷◌, get_elem?,
  arith, Option-cases,
}
use native.Mathlib.Nat.{mod-eq_of_lt}
use cold_snap.Wordentry.{
  Bip39, Entry, word, slot, letter_for_key, word_entry, pages, alphabetic, is_ascii_alphabetic,
  is_word, key_position, entry_letter_keys,
}
use cold_snap.Wordentry.Letters.{as_str, AllUpper, is_ascii_uppercase, Holds-as_str}
use cold_snap.Wordentry.Laws.{WordListLaws}
use cold_snap.Wordentry.Invariant.{IsEntry}
use cold_snap.Wordentry.Edits.{pages-word_entry}

alphabetic-get_elem? :
    (xs : List ℕ) (i : ℕ) → AllUpper xs → alphabetic (get_elem? xs i) ≡ get_elem? xs i
unfolding alphabetic is_ascii_alphabetic is_ascii_uppercase
alphabetic-get_elem? [] i up = refl
alphabetic-get_elem? (x ∷ xs) zero up = ground arith
alphabetic-get_elem? (x ∷ xs) (suc i) up = alphabetic-get_elem? xs i up.1

module _ {B E : Type 0} (bip : Bip39 B E) (words : List (List ℕ))
    (law : WordListLaws bip words) where
  -- On a word's page, a key types the letter that the page shows under it, and a key with no letter
  -- under it types none.
  pub slot-letter_for_key :
      (k : ℕ) (e : Entry)
      → IsEntry bip words e
      → e.stage ≡ word
      → slot k e ≡ letter_for_key k (word_entry bip e)
  unfolding slot letter_for_key is_word word_entry
  slot-letter_for_key k e v here =
      let page : e.page % pages (word_entry bip e) ≡ e.page =
        rw (pages-word_entry bip words law e v) (mod-eq_of_lt v.turned) in
      let up : AllUpper (as_str e.letters) =
        subst AllUpper (sym (Holds-as_str v.kept.offered ∙ v.current)) (law.upper v.kept.typed) in
      elim (Option-cases (key_position k 0 entry_letter_keys)) [
        | inl none_such ↦ rw (here, none_such, slot, letter_for_key) refl
        | inr (i, at) ↦
            rw (here, at, slot, letter_for_key)
              (rw page (sym (alphabetic-get_elem? (as_str e.letters) (e.page * 9 + i) up)))
      ]
