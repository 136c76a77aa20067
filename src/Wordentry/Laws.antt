-- ===== src/Wordentry/Laws.antt =====
-- What firmware/src/wordentry.rs relies on of `frost_backup::bip39_words`: a sorted list of words of up
-- to eight capital letters, its block of words behind a prefix, and the letters that may follow one.
use cold_snap.Prelude.{ℕ, ◌≤◌, ◌≡◌, ◌↔◌, List, [], ◌∷◌, ◌++◌, some, get_elem?, length}
use cold_snap.Wordentry.{Bip39}
use cold_snap.Wordentry.Letters.{AllUpper}

abbrev pub Among : {A : Type 0} → A → List A → Type 0
Among x xs = (i : ℕ) × (get_elem? xs i ≡ some x)

abbrev pub StartsWith : List ℕ → List ℕ → Type 0
StartsWith p w = (rest : List ℕ) × (p ++ rest ≡ w)

pub record WordListLaws {B E : Type 0} (bip : Bip39 B E) (words : List (List ℕ)) : Type 0 where
  pub filled : (w : List ℕ) × Among w words
  pub block : (p w : List ℕ) → Among w (bip.words_with_prefix p) ↔ (Among w words × StartsWith p w)
  pub first : (p : List ℕ) → Among p words → get_elem? (bip.words_with_prefix p) 0 ≡ some p
  pub next :
      (p : List ℕ) (c : ℕ)
      → Among c (bip.get_valid_next_letters p)
        ↔ ((w : List ℕ) × Among w words × StartsWith (p ++ c ∷ []) w)
  pub few : (p : List ℕ) → length (bip.get_valid_next_letters p) ≤ 26
  pub upper : (p : List ℕ) → AllUpper (bip.get_valid_next_letters p)
  pub letters : (w : List ℕ) → Among w words → AllUpper w
  pub short : (w : List ℕ) → Among w words → length w ≤ 8
