-- ===== src/Store/Retry.antt =====
-- firmware/src/store.rs, `persist_staged` again and again: a keygen is staged or on flash, whatever the slot refuses.
use cold_snap.Prelude.{
  ℕ, zero, suc, ◌≤◌, ◌<◌, ◌≡◌, ◌⊎◌, inl, inr, refl, ap, sym, ◌∙◌, subst, List, [], ◌∷◌, ◌++◌,
  Option, Result, ok, err, length, take, replicate,
}
use cold_snap.Store.{
  Text, ShareBody, Coded, held, Mutation, new_key, new_access_structure, save_share, restoration,
  StoreFault, AbWriteOutcome, retain, mutations, persist_kept, persist_staged, load,
}
use cold_snap.Store.Names.{AllChars}
use cold_snap.Store.RoundTrip.{CodecLaws}
use cold_snap.Store.Keygen.{Utf8Laws, SlotLaws, triple}
use cold_snap.Store.Persist.{persist_staged-load}

abbrev pub restorations : {Pu Ki Sh : Type 0} → ℕ → List (Mutation Pu Ki Sh)
restorations n = replicate n restoration

-- Restorations behind a queue are dropped.
retain-restorations :
    {Pu Ki Sh : Type 0} (staged : List (Mutation Pu Ki Sh)) (n : ℕ)
    → retain (staged ++ restorations n) ≡ retain staged
unfolding retain replicate
retain-restorations [] zero = refl
retain-restorations [] (suc n) = retain-restorations [] n
retain-restorations (restoration ∷ ms) n = retain-restorations ms n
retain-restorations (new_key k t p ∷ ms) n =
    ap (λ xs. new_key k t p ∷ xs) (retain-restorations ms n)
retain-restorations (new_access_structure k a t d ∷ ms) n =
    ap (λ xs. new_access_structure k a t d ∷ xs) (retain-restorations ms n)
retain-restorations (save_share k a s ∷ ms) n =
    ap (λ xs. save_share k a s ∷ xs) (retain-restorations ms n)

module _ {Pu Ki Sh : Type 0} (sha256 : List ℕ → List ℕ)
    (encode : ℕ → Coded Pu Ki Sh → Option (List ℕ)) (decode : List ℕ → Option (Coded Pu Ki Sh))
    (from_utf8 : List ℕ → Option Text) {F : Type 0} (try_write : List ℕ → F → AbWriteOutcome × F)
    (read : F → Option (List ℕ)) where
  abbrev Saved : Type 0
  Saved = Result (Unit {0}) StoreFault × (List (Mutation Pu Ki Sh) × F)

  -- A save, with so many restorations staged before it.
  abbrev pub save : ℕ → List (Mutation Pu Ki Sh) × F → Saved
  save n (staged, f) =
      persist_staged sha256 encode decode from_utf8 try_write read (staged ++ restorations n, f)

  nothing_saved :
      (staged : List (Mutation Pu Ki Sh)) (f : F)
      → retain staged ≡ []
      → persist_staged sha256 encode decode from_utf8 try_write read (staged, f) ≡ (ok tt, ([], f))
  unfolding persist_staged persist_kept
  nothing_saved staged f none_left = rw none_left refl

  -- Saves in a row, with what the last one answers.
  unfoldable pub saves : List ℕ → ℕ → List (Mutation Pu Ki Sh) × F → Saved
  saves [] last st = save last st
  saves (n ∷ ns) last st = saves ns last (save n st).1

  module _ (IsChar : List ℕ → Type 0) (utf8 : Utf8Laws IsChar from_utf8) (key structure : List ℕ)
      (threshold : ℕ) (name : Text) (purpose : Pu) (kind : Ki) (share : Sh)
      (chars : AllChars IsChar name) where
    abbrev mine : List (Mutation Pu Ki Sh)
    mine = triple key structure threshold name purpose kind share

    abbrev IsOnFlash : F → Type 0
    IsOnFlash f =
        (b : ShareBody Pu Ki Sh) × (load sha256 encode decode from_utf8 try_write read f ≡ held b)
        × (mutations sha256 encode decode from_utf8 b
            ≡ triple key structure threshold (take 15 name) purpose kind share)

    -- After an error the keygen is staged; after ok nothing is, and the keygen is on flash.
    abbrev pub IsKept : Saved → Type 0
    IsKept (err e, (staged, f)) = staged ≡ mine
    IsKept (ok u, (staged, f)) = (staged ≡ []) × IsOnFlash f

    abbrev IsSafe : List (Mutation Pu Ki Sh) × F → Type 0
    IsSafe (staged, f) = (retain staged ≡ mine) ⊎ ((retain staged ≡ []) × IsOnFlash f)

    kept-IsSafe : (r : Saved) → IsKept r → IsSafe r.1
    unfolding retain
    kept-IsSafe (err e, (staged, f)) k = inl (ap retain k)
    kept-IsSafe (ok u, (staged, f)) (none_left, stored) = inr (ap retain none_left, stored)

    module _ (long : (m : List ℕ) → 8 ≤ length (sha256 m)) (codec : CodecLaws encode decode)
        (slot : SlotLaws try_write read) (key_size : length key ≡ 32)
        (structure_size : length structure ≡ 32) (small : threshold < 65536) where
      save-IsKept : (n : ℕ) (st : List (Mutation Pu Ki Sh) × F) → IsSafe st → IsKept (save n st)
      save-IsKept n (staged, f) (inl kept) =
          let queue = staged ++ restorations n in
          elim (persist_staged-load sha256 encode decode from_utf8 try_write read IsChar utf8 key
            structure threshold name purpose kind share chars queue f long codec slot key_size
            structure_size small (retain-restorations staged n ∙ kept)) [
              | inl (e, p) ↦ subst IsKept (sym p) refl
              | inr (inl (r, e, f', w, p)) ↦ subst IsKept (sym p) refl
              | inr (inr (b, f', p, l, m)) ↦ subst IsKept (sym p) (refl, (b, l, m))
            ]
      save-IsKept n (staged, f) (inr (none_left, stored)) =
          subst IsKept
            (sym (
              nothing_saved (staged ++ restorations n) f
                (retain-restorations staged n ∙ none_left)))
            (refl, stored)

      from_safe :
          (ns : List ℕ) (last : ℕ) (st : List (Mutation Pu Ki Sh) × F)
          → IsSafe st
          → IsKept (saves ns last st)
      unfolding saves
      from_safe [] last st safe = save-IsKept last st safe
      from_safe (n ∷ ns) last st safe =
          from_safe ns last (save n st).1 (kept-IsSafe (save n st) (save-IsKept n st safe))

      -- For a hash of at least eight bytes, a codec and a check of UTF-8 that keep their laws, and a slot that
      -- reads what it commits, whatever is left of a write that it refuses: where a keygen is staged, beside
      -- any restorations, and is saved any number of times, with restorations staged between the saves, an
      -- error of the last save leaves the whole keygen staged; an ok leaves nothing staged and a record
      -- that `load` reads as a share with the keygen's mutations, in their order, the name cut to fifteen
      -- characters.
      pub saves-IsKept :
          (ns : List ℕ) (last : ℕ) (staged : List (Mutation Pu Ki Sh)) (f : F)
          → retain staged ≡ mine
          → IsKept (saves ns last (staged, f))
      saves-IsKept ns last staged f kept = from_safe ns last (staged, f) (inl kept)
