-- ===== src/Identity/Keeping.antt =====
-- hal/src/identity.rs, `load_or_create`: a record that is not vacant is never touched, and a secret that
-- is returned was read from the flash.
use cold_snap.Prelude.{
  ℕ, ◌/◌, ◌^◌, ◌≡◌, ◌⊎◌, true, length, slice, inl, inr, arith, refl, sym, ap, ◌∙◌, subst, List,
  Result, ok, err, take, drop, Bool-cases,
}
use cold_snap.Prelude.Bytes.{bytes_eq, from_le_bytes}
use cold_snap.Prelude.Exec.{Exec, continue, continue-ok, map_err}
use cold_snap.Identity.{
  NorFlash, Record, valid, damaged, vacant, IdentityFault, damaged_record, flash, classify, encode,
  generate, confirm, check_back, write_commit, write_body, program, settle, load_or_create,
  on_flash, tag_of, scalar_is_in_range, magic,
}

map_err-ok : {A E F : Type 0} (f : E → F) (r : Result A E) (a : A) → map_err f r ≡ ok a → r ≡ ok a
map_err-ok {A = A} f (ok b) a h = ap (λ (x : A). ok x) (cc h)
map_err-ok f (err e) a h = absurd (cc h)

module _ {F G : Type 0} (sha256 : List ℕ → List ℕ) (nor : NorFlash F)
    (fill_bytes : ℕ → G → List ℕ × G) where
  -- Bytes that were programmed as a record, whole or torn: the tag is the secret's, or the commit word is of
  -- this family.
  abbrev pub IsWritten : List ℕ → Type 0
  IsWritten buf =
      (slice 32 40 buf ≡ tag_of sha256 (take 32 buf))
      ⊎ (from_le_bytes (slice 40 48 buf) / 2 ^ 32 ≡ magic / 2 ^ 32)

  -- A record of a secret: a scalar in range and what `encode` writes for it.
  abbrev IsRecord : List ℕ → List ℕ → Type 0
  IsRecord buf s = (length s ≡ 32) × (scalar_is_in_range s ≡ true) × (buf ≡ encode sha256 s)

  -- What the answer to bytes is: the secret that they are the record of, or a refusal of bytes that are no
  -- secret's record.
  abbrev pub IsAnswer : List ℕ → Result (List ℕ) IdentityFault → Type 0
  IsAnswer buf r =
      ((s : List ℕ) × IsRecord buf s × (r ≡ ok s))
      ⊎ ((r ≡ err damaged_record) × ((s : List ℕ) → ¬ IsRecord buf s))

  -- Where the flash was read and the secret found in it.
  abbrev pub ReadBack : List ℕ → Result (List ℕ) IdentityFault × (F × G) → Type 0
  ReadBack s r =
      (before : F) × ((back : List ℕ) × (nor.read 0 48 before ≡ (ok back, r.1.0))
        × (classify sha256 back ≡ valid s))

  confirm-ok :
      (secret s : List ℕ) (r : Record) (st : F × G)
      → (confirm sha256 nor fill_bytes secret r st).0 ≡ ok s
      → (r ≡ valid s) × ((confirm sha256 nor fill_bytes secret r st).1 ≡ st)
  unfolding confirm
  confirm-ok secret s (valid persisted) st h = elim (Bool-cases (bytes_eq persisted secret)) [
    | inl same ↦ let kept : persisted ≡ s = ground (arith, same, h) in (ap valid kept, rw same refl)
    | inr other ↦ absurd (ground (arith, other, h))
  ]
  confirm-ok secret s vacant st h = absurd (cc h)
  confirm-ok secret s damaged st h = absurd (cc h)

  read_in :
      {A : Type 0} (call : Exec F A ℕ) (f : F) (g : G) (a : A)
      → (on_flash sha256 nor fill_bytes call (f, g)).0 ≡ ok a
      → call f ≡ (ok a, (call f).1)
  read_in call f g a h = ap (λ r. (r, (call f).1)) (map_err-ok flash (call f).0 a h)

  -- A promise on success passes back through a bind.
  through :
      {A : Type 0} (s : List ℕ) (m : Result A IdentityFault × (F × G))
      (f : A → Exec (F × G) (List ℕ) IdentityFault)
      → ((a : A) (st : F × G) → (f a st).0 ≡ ok s → ReadBack s (f a st))
      → (continue m f).0 ≡ ok s
      → ReadBack s (continue m f)
  through s (ok a, st) f k h = k a st h
  through s (err e, st) f k h = absurd (cc h)

  check_back-ReadBack :
      (secret s : List ℕ) (st : F × G)
      → (check_back sha256 nor fill_bytes secret st).0 ≡ ok s
      → ReadBack s (check_back sha256 nor fill_bytes secret st)
  unfolding check_back
  check_back-ReadBack secret s (f, g) h =
      let check = λ (back : List ℕ). confirm sha256 nor fill_bytes secret (classify sha256 back) in
      let (back, got, run) =
        continue-ok (on_flash sha256 nor fill_bytes (nor.read 0 48) (f, g)) check s h in
      let (found, still) =
        confirm-ok secret s (classify sha256 back) ((nor.read 0 48 f).1, g)
          (sym (ap (λ r. r.0) run) ∙ h) in
      let place : (check_back sha256 nor fill_bytes secret (f, g)).1.0 ≡ (nor.read 0 48 f).1 =
        ap (λ r. r.1.0) run ∙ ap (λ r. r.0) still in
      (f, (back, read_in (nor.read 0 48) f g back got ∙ ap (λ e. (ok back, e)) (sym place), found))

  program-ReadBack :
      (secret s : List ℕ) (st : F × G)
      → (program sha256 nor fill_bytes secret st).0 ≡ ok s
      → ReadBack s (program sha256 nor fill_bytes secret st)
  unfolding program write_body write_commit
  program-ReadBack secret s st =
      through s (on_flash sha256 nor fill_bytes (nor.erase 0 8192) st)
        (λ _. write_body sha256 nor fill_bytes secret)
        λ u1 st1.
          through s
            (on_flash sha256 nor fill_bytes (nor.write 0 (take 40 (encode sha256 secret))) st1)
            (λ _. write_commit sha256 nor fill_bytes secret)
            λ u2 st2.
              through s
                (on_flash sha256 nor fill_bytes (nor.write 40 (drop 40 (encode sha256 secret))) st2)
                (λ _. check_back sha256 nor fill_bytes secret)
                λ u3 st3. check_back-ReadBack secret s st3

  settle-ReadBack :
      (r : Record) (s buf : List ℕ) (f : F) (g : G)
      → classify sha256 buf ≡ r
      → nor.read 0 48 f ≡ (ok buf, (nor.read 0 48 f).1)
      → (settle sha256 nor fill_bytes r ((nor.read 0 48 f).1, g)).0 ≡ ok s
      → ReadBack s (settle sha256 nor fill_bytes r ((nor.read 0 48 f).1, g))
  unfolding settle
  settle-ReadBack (valid x) s buf f g found e h =
      let same : x ≡ s = cc h in (f, (buf, e, found ∙ ap valid same))
  settle-ReadBack damaged s buf f g found e h = absurd (cc h)
  settle-ReadBack vacant s buf f g found e h =
      through s (generate sha256 nor fill_bytes 8 ((nor.read 0 48 f).1, g))
        (program sha256 nor fill_bytes) (λ secret st. program-ReadBack secret s st) h

  -- Over any flash and any generator, a secret that is returned was found, valid, in the record that
  -- the flash gave at its last read, and nothing was written or erased after that read.
  pub load_or_create-ReadBack :
      (s : List ℕ) (f : F) (g : G)
      → (load_or_create sha256 nor fill_bytes (f, g)).0 ≡ ok s
      → ReadBack s (load_or_create sha256 nor fill_bytes (f, g))
  unfolding load_or_create
  load_or_create-ReadBack s f g h =
      let rest = λ (buf : List ℕ). settle sha256 nor fill_bytes (classify sha256 buf) in
      let (buf, got, run) =
        continue-ok (on_flash sha256 nor fill_bytes (nor.read 0 48) (f, g)) rest s h in
      subst (ReadBack s) (sym run) (
        settle-ReadBack (classify sha256 buf) s buf f g refl (read_in (nor.read 0 48) f g buf got)
          (sym (ap (λ r. r.0) run) ∙ h))
