-- ===== src/Psram/Fake.antt =====
-- hal/src/psram.rs, module `fake`: the host's memory, with its one injected fault.
use cold_snap.Prelude.{
  ℕ, ◌+◌, ◌≤◌, ◌≡◌, ◌&&◌, List, Option, none, some, Result, ok, err, bit_xor, ltb, leb,
  if◌then◌else◌, length, get_elem?, set, slice, copy_into, checked_add32, arith, refl,
}
use cold_snap.Prelude.Exec.{Exec}
use cold_snap.Psram.{PsramOps, PsramError, out_of_bounds, check_read, check_write}
use cold_snap.Psram.Laws.{PsramLaws, check_read_iff, check_write_iff}

pub record FakePsram : Type 0 where
  pub cells : List ℕ
  pub corrupt_at : Option ℕ

unfoldable pub span : FakePsram → ℕ → ℕ → Result (ℕ × ℕ) PsramError
span p offset len = elim (checked_add32 offset len) [
  | none ↦ err out_of_bounds
  | some stop ↦ if leb stop (length p.cells) then ok (offset, stop) else err out_of_bounds
]

flip_bit : List ℕ → ℕ → List ℕ
flip_bit cells at = elim (get_elem? cells at) [
  | none ↦ cells
  | some byte ↦ set cells at (bit_xor byte 1)
]

unfoldable pub corrupted : Option ℕ → ℕ → ℕ → List ℕ → List ℕ
unfolding flip_bit
corrupted none start stop cells = cells
corrupted (some at) start stop cells =
    if leb start at && ltb at stop then flip_bit cells at else cells

unfoldable pub write : ℕ → List ℕ → Exec FakePsram (Unit {0}) PsramError
write offset bytes p = elim (check_write offset (length bytes)) [
  | err e ↦ (err e, p)
  | ok _ ↦ elim (span p offset (length bytes)) [
    | err e ↦ (err e, p)
    | ok (start, stop) ↦ (
      ok tt,
      record p { cells = corrupted p.corrupt_at start stop (copy_into p.cells start bytes) },
    )
  ]
]

unfoldable pub read : ℕ → List ℕ → Exec FakePsram (List ℕ) PsramError
read offset buf p = elim (check_read offset (length buf)) [
  | err e ↦ (err e, p)
  | ok _ ↦ elim (span p offset (length buf)) [
    | err e ↦ (err e, p)
    | ok (start, stop) ↦ (ok (slice start stop p.cells), p)
  ]
]

unfoldable pub view : FakePsram → ℕ → Result (List ℕ) PsramError
view p len = elim (check_read 0 len) [
  | err e ↦ err e
  | ok _ ↦ if leb len (length p.cells) then ok (slice 0 len p.cells) else err out_of_bounds
]

abbrev pub fake_psram : PsramOps FakePsram
fake_psram = record { write = write; read = read; view = view }

abbrev pub IsClean : FakePsram → Type 0
IsClean p = p.corrupt_at ≡ none

abbrev pub stored : FakePsram → ℕ → List ℕ → FakePsram
stored p offset bytes = record p {
  cells = corrupted p.corrupt_at offset (offset + length bytes) (copy_into p.cells offset bytes);
}

module _ (p : FakePsram) (offset : ℕ) (bytes : List ℕ) where
  span_in :
      (n : ℕ)
      → offset + n ≤ 4194304
      → offset + n ≤ length p.cells
      → span p offset n ≡ ok (offset, offset + n)
  unfolding span
  span_in n w h = ground arith

  pub write-stored :
      IsClean p
      → check_write offset (length bytes) ≡ ok tt
      → offset + length bytes ≤ length p.cells
      → write offset bytes p ≡ (ok tt, stored p offset bytes)
  unfolding write
  write-stored c w h =
      let inside = span_in (length bytes) ((check_write_iff offset (length bytes)).0 w).2 h in
      rw (w, write) (rw (inside, write) refl)

  pub read-slice :
      IsClean p
      → check_read offset (length bytes) ≡ ok tt
      → offset + length bytes ≤ length p.cells
      → read offset bytes p ≡ (ok (slice offset (offset + length bytes) p.cells), p)
  unfolding read
  read-slice c w h =
      let inside = span_in (length bytes) ((check_read_iff offset (length bytes)).0 w) h in
      rw (w, read) (rw (inside, read) refl)

pub view-slice :
    (p : FakePsram) (n : ℕ)
    → IsClean p
    → check_read 0 n ≡ ok tt
    → n ≤ length p.cells
    → view p n ≡ ok (slice 0 n p.cells)
unfolding view
view-slice p n c w h = rw (w, view) (ground arith)

pub corrupted-IsClean :
    (p : FakePsram) (start stop : ℕ) (xs : List ℕ)
    → IsClean p
    → corrupted p.corrupt_at start stop xs ≡ xs
unfolding corrupted
corrupted-IsClean p start stop xs c = rw (c, corrupted)

-- Without an injected fault the host's memory is a working memory.
abbrev pub fake_laws : PsramLaws fake_psram
fake_laws = record {
  cells = λ p. p.cells;
  IsSound = IsClean;
  stored = stored;
  write_lem = λ p offset bytes c w h. write-stored p offset bytes c w h;
  cells-stored = λ p offset bytes c. corrupted-IsClean p _ _ _ c;
  stored-IsSound = λ p offset bytes c. c;
  read_lem = λ p offset buf c w h. read-slice p offset buf c w h;
  view_lem = view-slice;
}
