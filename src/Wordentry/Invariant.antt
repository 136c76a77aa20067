-- ===== src/Wordentry/Invariant.antt =====
-- firmware/src/wordentry.rs: what holds of an entry between two keys.
use cold_snap.Prelude.{
  ℕ, ◌<◌, ◌≡◌, refl, sym, ap, subst, min, max, List, [], Option, none, some, length, get_elem?,
  arith, append-nil,
}
use cold_snap.Wordentry.{Bip39, Entry, refresh, go_to, load_slot, slot_of, div_ceil}
use cold_snap.Wordentry.Letters.{
  Uppercase, clear, push_all, Holds, clear-Holds, load-Holds, push_all-Holds, Holds-as_str,
}
use cold_snap.Wordentry.Laws.{Among, StartsWith, WordListLaws}

abbrev pub page_count : ℕ → ℕ
page_count n = max (div_ceil n 9) 1

module _ {B E : Type 0} (bip : Bip39 B E) (words : List (List ℕ)) where
  -- Some word of the list begins with the letters.
  abbrev Completes : List ℕ → Type 0
  Completes typed = (w : List ℕ) × Among w words × StartsWith typed w

  -- The index is a `u32`; there are 25 slots, each of them empty or with a word of the list; and the two
  -- buffers are whole.
  pub record IsKept (e : Entry) : Type 0 where
    pub share32 : e.share < 4294967296
    pub slots : length e.words ≡ 25
    pub listed : (i : ℕ) (w : List ℕ) → get_elem? e.words i ≡ some (some w) → Among w words
    pub typed : List ℕ
    pub held : Holds 8 typed e.prefix
    pub shown : List ℕ
    pub offered : Holds 26 shown e.letters

  -- The cursor is on a slot; some word of the list begins with what is typed; the letters offered are
  -- those that may follow it; and the page is one of theirs.
  pub record IsEntry (e : Entry) : Type 0 where
    pub kept : IsKept e
    pub within : e.cursor < 25
    pub completes : Completes kept.typed
    pub current : kept.shown ≡ bip.get_valid_next_letters kept.typed
    pub turned : e.page < page_count (length kept.shown)

  module _ (law : WordListLaws bip words) where
    pub refresh-IsEntry :
        (e : Entry) (k : IsKept e) → e.cursor < 25 → Completes k.typed → IsEntry (refresh bip e)
    unfolding refresh
    refresh-IsEntry e k h c =
        let next = bip.get_valid_next_letters k.typed in
        record {
          kept = record {
            share32 = k.share32;
            slots = k.slots;
            listed = k.listed;
            typed = k.typed;
            held = k.held;
            shown = next;
            offered =
                subst
                  (λ ys. Holds 26 next (push_all (bip.get_valid_next_letters ys) (clear e.letters)))
                  (sym (Holds-as_str k.held))
                  (push_all-Holds 26 next [] (clear e.letters) (clear-Holds k.offered)
                    (law.upper k.typed) (omega (arith, law.few k.typed)));
          };
          within = h;
          completes = c;
          current = refl;
          turned = ground arith;
        }

    Completes-none : Completes []
    Completes-none = (law.filled.0, law.filled.1, (law.filled.0, refl))

    Completes-word : (w : List ℕ) → Among w words → Completes w
    Completes-word w m = (w, m, ([], append-nil w))

    load_slot_lem :
        (o : Option (List ℕ)) (u : Uppercase) (xs : List ℕ)
        → Holds 8 xs u
        → ((w : List ℕ) → o ≡ some w → Among w words)
        → (ys : List ℕ) × Holds 8 ys (load_slot o u) × Completes ys
    unfolding load_slot
    load_slot_lem none u xs h k = ([], clear-Holds h, Completes-none)
    load_slot_lem (some w) u xs h k =
        let m = k w refl in
        (w, (load-Holds 8 w xs u h (law.letters w m) (law.short w m)).1, Completes-word w m)

    slot_of_lem :
        (o : Option (Option (List ℕ))) (w : List ℕ) → slot_of o ≡ some w → o ≡ some (some w)
    unfolding slot_of
    slot_of_lem none w h = absurd (cc h)
    slot_of_lem (some o) w h = ap some h

    pub go_to-IsEntry : (cursor : ℕ) (e : Entry) → IsKept e → IsEntry (go_to {B = B} bip cursor e).1
    unfolding go_to
    go_to-IsEntry cursor e k =
        let at : ℕ = min cursor 24 in
        let o = slot_of (get_elem? e.words at) in
        let (ys, held, c) =
          load_slot_lem o e.prefix k.typed k.held
            (λ w h. k.listed at w (slot_of_lem (get_elem? e.words at) w h)) in
        refresh-IsEntry (record e { cursor = at; prefix = load_slot o e.prefix })
          (record {
            share32 = k.share32;
            slots = k.slots;
            listed = k.listed;
            typed = ys;
            held = held;
            shown = k.shown;
            offered = k.offered;
          })
          (omega arith) c
