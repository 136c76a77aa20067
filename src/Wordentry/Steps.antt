-- ===== src/Wordentry/Steps.antt =====
-- firmware/src/wordentry.rs, `Entry::key`: every key keeps the invariant of an entry.
use cold_snap.Prelude.{
  ℕ, ◌+◌, ◌-◌, ◌/◌, ◌<◌, ◌≡◌, inl, inr, refl, sym, ◌∙◌, subst, ◌&&◌, List, [], ◌∷◌, none, some,
  Result, ok, err, ◌==◌, ltb, leb, length, get_elem?, set, arith, Bool-cases, Option-cases,
  get_elem?-set_self, get_elem?-set_other, get_elem?-replicate, length-set, length-replicate, map,
  replicate,
}
use native.Mathlib.Decide.{ℕ_discrete}
use cold_snap.Wordentry.{
  Bip39, Entry, Stage, fresh, key, key_in, press, index_key, digit_key, shifted, word_key, slot,
  commit, submit, check_words, accept, index, word, failed, first_missing, word_or_empty,
}
use cold_snap.Wordentry.Letters.{blank, blank-Holds}
use cold_snap.Wordentry.Laws.{Among, WordListLaws}
use cold_snap.Wordentry.Invariant.{IsEntry, refresh-IsEntry, go_to-IsEntry}
use cold_snap.Wordentry.Edits.{
  accept_lem, slot_lem, type_letter-IsEntry, reset, turn_page-IsEntry, delete-IsEntry,
}

module _ {B E : Type 0} (bip : Bip39 B E) (words : List (List ℕ))
    (law : WordListLaws bip words) where
  -- A slot gets a word of the list.
  set-listed :
      (e : Entry) (w : List ℕ)
      → IsEntry bip words e
      → Among w words
      → (i : ℕ) (u : List ℕ) → get_elem? (set e.words e.cursor (some w)) i ≡ some (some u)
      → Among u words
  set-listed e w v m i u h = elim (ℕ_discrete i e.cursor) [
    | yes here ↦
        let inside : e.cursor < length e.words = omega (arith, v.within, v.kept.slots) in
        let same : w ≡ u = cc (get_elem?-set_self e.words e.cursor (some w) inside, here, h) in
        subst (λ x. Among x words) same m
    | no other ↦ v.kept.listed i u (sym (get_elem?-set_other e.words e.cursor i (some w) other) ∙ h)
  ]

  check_words-IsEntry :
      (r : Result B E) (e : Entry) → IsEntry bip words e → IsEntry bip words (check_words r e).1
  unfolding check_words
  check_words-IsEntry (ok backup) e v = v
  check_words-IsEntry (err _) e v =
      reset bip words law e failed e.share e.page v v.kept.share32 v.turned

  submit-IsEntry : (e : Entry) → IsEntry bip words e → IsEntry bip words (submit bip e).1
  unfolding submit
  submit-IsEntry e v = elim (Option-cases (first_missing 0 e.words)) [
    | inl filled ↦
        rw (filled, submit)
          (check_words-IsEntry (bip.from_words e.share (map word_or_empty e.words)) e v)
    | inr (missing, at) ↦ rw (at, submit) (go_to-IsEntry bip words law missing e v.kept)
  ]

  pub held_word :
      (e : Entry) (w : List ℕ)
      → IsEntry bip words e
      → Among w words
      → IsEntry bip words (record e { words = set e.words e.cursor (some w) })
  held_word e w v m = record {
    kept = record {
      share32 = v.kept.share32;
      slots = length-set e.words e.cursor (some w) ∙ v.kept.slots;
      listed = set-listed e w v m;
      typed = v.kept.typed;
      held = v.kept.held;
      shown = v.kept.shown;
      offered = v.kept.offered;
    };
    within = v.within;
    completes = v.completes;
    current = v.current;
    turned = v.turned;
  }

  commit-IsEntry : (e : Entry) → IsEntry bip words e → IsEntry bip words (commit bip e).1
  unfolding commit
  commit-IsEntry e v = elim (Option-cases (accept bip e)) [
    | inl nothing ↦ rw (nothing, commit) v
    | inr (w, a) ↦
        let f : Entry = record e { words = set e.words e.cursor (some w) } in
        let u : IsEntry bip words f =
          held_word e w v (accept_lem bip words law e w v.kept.typed v.kept.held a).0 in
        rw (a, commit)
          (elim (Bool-cases (ltb (e.cursor + 1) 25)) [
            | inl next ↦ rw next (go_to-IsEntry bip words law (e.cursor + 1) f u.kept)
            | inr last ↦ rw last (submit-IsEntry f u)
          ])
  ]

  word_key-IsEntry :
      (k : ℕ) (e : Entry) → IsEntry bip words e → IsEntry bip words (word_key bip k e).1
  unfolding word_key
  word_key-IsEntry k e v = elim (Option-cases (slot k e)) [
    | inr (letter, at) ↦
        rw (at, word_key)
          (type_letter-IsEntry bip words law letter e v
            (slot_lem bip words law k letter e v.kept.shown v.kept.offered at))
    | inl other ↦
        rw (other, word_key)
          (elim (Bool-cases (k == 48)) [
            | inl page ↦ rw page (turn_page-IsEntry bip words law e v)
            | inr a ↦ rw a (elim (Bool-cases (k == 120)) [
              | inl del ↦ rw del (delete-IsEntry bip words law e v)
              | inr b ↦ rw b (elim (Bool-cases (k == 121)) [
                | inl okay ↦ rw okay (commit-IsEntry e v)
                | inr c ↦ rw c v
              ])
            ])
          ])
  ]

  shifted-bounded : (share digit n : ℕ) → shifted share digit ≡ some n → n < 4294967296
  unfolding shifted
  shifted-bounded share digit n h = ground arith

  digit_key-IsEntry :
      (digit : ℕ) (e : Entry)
      → IsEntry bip words e
      → IsEntry bip words (digit_key {B = B} bip digit e).1
  unfolding digit_key
  digit_key-IsEntry digit e v = elim (Option-cases (shifted e.share digit)) [
    | inl over ↦ rw (over, digit_key) v
    | inr (n, fits) ↦
        rw (fits, digit_key)
          (elim (Bool-cases (n == e.share)) [
            | inl same ↦ rw same v
            | inr new ↦ rw new (
                reset bip words law e e.stage n e.page v (shifted-bounded e.share digit n fits)
                  v.turned)
          ])
  ]

  index_key-IsEntry :
      (k : ℕ) (e : Entry) → IsEntry bip words e → IsEntry bip words (index_key bip k e).1
  unfolding index_key
  index_key-IsEntry k e v = elim (Bool-cases (leb 48 k && leb k 57)) [
    | inl digit ↦ rw digit (digit_key-IsEntry (k - 48) e v)
    | inr a ↦ rw a (elim (Bool-cases (k == 121 && ltb 0 e.share)) [
      | inl okay ↦ rw okay (
          go_to-IsEntry bip words law 0 (record e { stage = word })
            (reset bip words law e word e.share e.page v v.kept.share32 v.turned).kept)
      | inr b ↦ rw b (elim (Bool-cases (k == 120 && ltb 0 e.share)) [
        | inl del ↦ rw del (
            reset bip words law e e.stage (e.share / 10) e.page v (omega (arith, v.kept.share32))
              v.turned)
        | inr c ↦ rw c (elim (Bool-cases (k == 120)) [ inl d ↦ rw d v | inr d ↦ rw d v ])
      ])
    ])
  ]

  key_in-IsEntry :
      (s : Stage) (k : ℕ) (e : Entry) → IsEntry bip words e → IsEntry bip words (key_in bip s k e).1
  unfolding key_in
  key_in-IsEntry index k e v = index_key-IsEntry k e v
  key_in-IsEntry word k e v = word_key-IsEntry k e v
  key_in-IsEntry failed k e v =
      go_to-IsEntry bip words law 24 (record e { stage = word })
        (reset bip words law e word e.share e.page v v.kept.share32 v.turned).kept

  -- With the words' lookup that keeps its laws, every key in every state keeps the invariant: the
  -- index is a `u32`, the 25 slots are empty or hold words of the list, the cursor is on a slot, some
  -- word of the list begins with what is typed, and the letters on offer are those that may follow it.
  pub key-IsEntry : (k : ℕ) (e : Entry) → IsEntry bip words e → IsEntry bip words (key bip k e).1
  unfolding key
  key-IsEntry k e v = key_in-IsEntry e.stage k e v

  no_slot_filled :
      (i : ℕ) (w : List ℕ) → get_elem? (replicate 25 none) i ≡ some (some w) → Among w words
  no_slot_filled i w h = absurd (cc (get_elem?-replicate 25 i none (some w) h))

  pub fresh-IsEntry : (id : List ℕ) → IsEntry bip words (fresh bip id)
  unfolding fresh
  fresh-IsEntry id =
      let e : Entry = record {
        id = id;
        stage = index;
        share = 0;
        words = replicate 25 none;
        cursor = 0;
        prefix = blank 8;
        letters = blank 26;
        page = 0;
      } in
      refresh-IsEntry bip words law e
        (record {
          share32 = omega arith;
          slots = length-replicate 25 none;
          listed = no_slot_filled;
          typed = [];
          held = blank-Holds 8;
          shown = [];
          offered = blank-Holds 26;
        })
        (omega arith) (law.filled.0, law.filled.1, (law.filled.0, refl))

  pub press-IsEntry :
      (ks : List ℕ) (e : Entry) → IsEntry bip words e → IsEntry bip words (press bip ks e)
  unfolding press
  press-IsEntry [] e v = v
  press-IsEntry (k ∷ ks) e v = press-IsEntry ks (key bip k e).1 (key-IsEntry k e v)
