-- ===== src/Store/Drained.antt =====
-- firmware/src/store.rs, `persist_staged`: a save that is ok leaves nothing staged.
use cold_snap.Prelude.{ℕ, ◌≡◌, refl, subst, List, [], ◌∷◌, Option, Result, ok, err, ◌>>=◌}
use cold_snap.Store.{
  Text, Coded, Mutation, StoreFault, AbWriteOutcome, committed, committed_single_copy,
  not_committed, body_from, retain, written_out, seal, write_sealed, persist_kept, persist_staged,
}

module _ {Pu Ki Sh : Type 0} (sha256 : List ℕ → List ℕ)
    (encode : ℕ → Coded Pu Ki Sh → Option (List ℕ)) (decode : List ℕ → Option (Coded Pu Ki Sh))
    (from_utf8 : List ℕ → Option Text) {F : Type 0} (try_write : List ℕ → F → AbWriteOutcome × F)
    (read : F → Option (List ℕ)) where
  -- What a save leaves staged where it is ok.
  abbrev IsDrained : Result (Unit {0}) StoreFault × (List (Mutation Pu Ki Sh) × F) → Type 0
  IsDrained (ok u, (staged', f')) = staged' ≡ []
  IsDrained (err e, st) = Unit

  outcome-IsDrained :
      (o : AbWriteOutcome) (staged : List (Mutation Pu Ki Sh)) (f : F)
      → IsDrained ((written_out o staged).0, ((written_out o staged).1, f))
  unfolding written_out
  outcome-IsDrained committed staged f = refl
  outcome-IsDrained (committed_single_copy n) staged f = refl
  outcome-IsDrained (not_committed n) staged f = tt

  write-IsDrained :
      (sealed : Result (List ℕ) StoreFault) (staged : List (Mutation Pu Ki Sh)) (f : F)
      → IsDrained (write_sealed sha256 encode decode from_utf8 try_write read sealed (staged, f))
  unfolding write_sealed
  write-IsDrained (err e) staged f = tt
  write-IsDrained (ok record') staged f =
      outcome-IsDrained (try_write record' f).0 staged (try_write record' f).1

  persist_kept-IsDrained :
      (staged : List (Mutation Pu Ki Sh)) (f : F)
      → IsDrained (persist_kept sha256 encode decode from_utf8 try_write read staged f)
  unfolding persist_kept
  persist_kept-IsDrained [] f = refl
  persist_kept-IsDrained (m ∷ ms) f =
      write-IsDrained (do b ← body_from (m ∷ ms); seal sha256 encode decode from_utf8 b) (m ∷ ms) f

  pub persist_staged-drained :
      (staged staged' : List (Mutation Pu Ki Sh)) (f f' : F)
      → persist_staged sha256 encode decode from_utf8 try_write read (staged, f)
        ≡ (ok tt, (staged', f'))
      → staged' ≡ []
  unfolding persist_staged
  persist_staged-drained staged staged' f f' h =
      subst IsDrained h (persist_kept-IsDrained (retain staged) f)
