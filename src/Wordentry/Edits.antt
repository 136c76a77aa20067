-- ===== src/Wordentry/Edits.antt =====
-- firmware/src/wordentry.rs: a letter, the paging key and a deletion keep the invariant of an entry.
use cold_snap.Prelude.{
  ℕ, ◌+◌, ◌-◌, ◌*◌, ◌%◌, ◌<◌, ◌≡◌, inl, inr, sym, ap, ◌∙◌, subst, List, [], ◌∷◌, ◌++◌, Option, none,
  some, ◌==◌, ltb, length, get_elem?, arith, Bool-cases, Option-cases, append_assoc,
}
use native.Mathlib.Nat.{mod-lt}
use cold_snap.Prelude.Bytes.{bytes_eq, eq_of_bytes_eq}
use cold_snap.Wordentry.{
  Bip39, Entry, Stage, type_letter, slot, turn_page, delete, accept, unique, whole_word, sole,
  filter_eq, pages, word_entry, is_word, key_position, index, entry_letter_keys,
}
use cold_snap.Wordentry.Letters.{as_str, push, pop, Holds, push-cases, pop-cases, Holds-as_str}
use cold_snap.Wordentry.Laws.{Among, StartsWith, WordListLaws}
use cold_snap.Wordentry.Invariant.{IsEntry, refresh-IsEntry, go_to-IsEntry, page_count}

pub sole_lem : (ws : List (List ℕ)) (w : List ℕ) → sole ws ≡ some w → get_elem? ws 0 ≡ some w
unfolding sole
sole_lem [] w h = absurd (cc h)
sole_lem (x ∷ []) w h = h
sole_lem (x ∷ y ∷ ws) w h = absurd (cc h)

filter_eq_lem :
    (p : List ℕ) (o : Option (List ℕ)) (w : List ℕ)
    → filter_eq p o ≡ some w
    → (o ≡ some w) × (w ≡ p)
unfolding filter_eq
filter_eq_lem p none w h = absurd (cc h)
filter_eq_lem p (some v) w h = elim (Bool-cases (bytes_eq v p)) [
  | inl same ↦
      let e : v ≡ w = ground (arith, same, h) in (ap some e, sym e ∙ eq_of_bytes_eq v p same)
  | inr other ↦ absurd (ground (arith, other, h))
]

module _ {B E : Type 0} (bip : Bip39 B E) (words : List (List ℕ))
    (law : WordListLaws bip words) where
  -- What the OK key would commit is a word of the list that begins with what is typed.
  pub accept_lem :
      (e : Entry) (w typed : List ℕ)
      → Holds 8 typed e.prefix
      → accept bip e ≡ some w
      → Among w words × StartsWith typed w
  unfolding accept unique whole_word
  accept_lem e w typed held h =
      let shown = Holds-as_str held in
      let in_block = λ (first : get_elem? (bip.words_with_prefix (as_str e.prefix)) 0 ≡ some w).
        (law.block typed w).0
          (0, subst (λ xs. get_elem? (bip.words_with_prefix xs) 0 ≡ some w) shown first) in
      elim (Option-cases (sole (bip.words_with_prefix (as_str e.prefix)))) [
        | inr (only, u) ↦
            let same : only ≡ w = cc (u, h) in
            in_block (sole_lem (bip.words_with_prefix (as_str e.prefix)) w (u ∙ ap some same))
        | inl nothing ↦
            in_block
              (filter_eq_lem (as_str e.prefix)
                (get_elem? (bip.words_with_prefix (as_str e.prefix)) 0) w (cc (nothing, h))).0
      ]

  pub slot_lem :
      (k letter : ℕ) (e : Entry) (shown : List ℕ)
      → Holds 26 shown e.letters
      → slot k e ≡ some letter
      → Among letter shown
  unfolding slot
  slot_lem k letter e shown held h = elim (Bool-cases (is_word e.stage)) [
    | inr other ↦ absurd (cc (other, h))
    | inl here ↦ elim (Option-cases (key_position k 0 entry_letter_keys)) [
      | inl none_such ↦ absurd (cc (here, none_such, h))
      | inr (i, at) ↦ (
        e.page * 9 + i,
        subst (λ xs. get_elem? xs (e.page * 9 + i) ≡ some letter) (Holds-as_str held)
            (cc (here, at, h)),
      )
    ]
  ]

  pub type_letter-IsEntry :
      (letter : ℕ) (e : Entry) (v : IsEntry bip words e)
      → Among letter v.kept.shown
      → IsEntry bip words (type_letter bip letter e).1
  unfolding type_letter
  type_letter-IsEntry letter e v m =
      let k = v.kept in
      elim (push-cases k.held letter) [
        | inl full ↦ rw full v
        | inr (pushed, held) ↦ rw pushed (
            refresh-IsEntry bip words law (record e { prefix = (push letter e.prefix).1 })
              (record {
                share32 = k.share32;
                slots = k.slots;
                listed = k.listed;
                typed = k.typed ++ letter ∷ [];
                held = held;
                shown = k.shown;
                offered = k.offered;
              })
              v.within ((law.next k.typed letter).0 (subst (Among letter) v.current m)))
      ]

  -- The stage, the index and the page are free within their bounds.
  pub reset :
      (e : Entry) (stage : Stage) (share page : ℕ) (v : IsEntry bip words e)
      → share < 4294967296
      → page < page_count (length v.kept.shown)
      → IsEntry bip words (record e { stage = stage; share = share; page = page })
  reset e stage share page v small inside = record {
    kept = record {
      share32 = small;
      slots = v.kept.slots;
      listed = v.kept.listed;
      typed = v.kept.typed;
      held = v.kept.held;
      shown = v.kept.shown;
      offered = v.kept.offered;
    };
    within = v.within;
    completes = v.completes;
    current = v.current;
    turned = inside;
  }

  pub pages-word_entry :
      (e : Entry) (v : IsEntry bip words e)
      → pages (word_entry bip e) ≡ page_count (length v.kept.shown)
  unfolding pages word_entry
  pages-word_entry e v = ap (λ xs. page_count (length xs)) (Holds-as_str v.kept.offered)

  pub turn_page-IsEntry :
      (e : Entry) → IsEntry bip words e → IsEntry bip words (turn_page {B = B} bip e).1
  unfolding turn_page
  turn_page-IsEntry e v =
      let count = pages-word_entry e v in
      elim (Bool-cases (ltb 1 (pages (word_entry bip e)))) [
        | inr one ↦ rw one v
        | inl more ↦ rw more (
            reset e e.stage e.share ((e.page + 1) % pages (word_entry bip e)) v v.kept.share32
              (rw count (mod-lt (e.page + 1) {m = page_count (length v.kept.shown)} (omega arith))))
      ]

  pub delete-IsEntry : (e : Entry) → IsEntry bip words e → IsEntry bip words (delete bip e).1
  unfolding delete
  delete-IsEntry e v =
      let k = v.kept in
      elim (pop-cases k.held) [
        | inl empty ↦ elim (Bool-cases (e.cursor == 0)) [
          | inl first ↦ rw (empty, first) (reset e index e.share e.page v k.share32 v.turned)
          | inr later ↦ rw (empty, later) (go_to-IsEntry bip words law (e.cursor - 1) e k)
        ]
        | inr (ys, zs, joined, popped, held) ↦ rw popped (
            refresh-IsEntry bip words law (record e { prefix = (pop e.prefix).1 })
              (record {
                share32 = k.share32;
                slots = k.slots;
                listed = k.listed;
                typed = ys;
                held = held;
                shown = k.shown;
                offered = k.offered;
              })
              v.within
              (let (w, m, (rest, whole)) = v.completes in
                (
                  w,
                  m,
                  (
                    zs ++ rest,
                    sym (append_assoc ys zs rest) ∙ ap (λ xs. xs ++ rest) joined ∙ whole,
                  ),
                )))
      ]
