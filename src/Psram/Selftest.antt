-- ===== src/Psram/Selftest.antt =====
-- hal/src/psram.rs, `readback_selftest`: it passes on a working memory, and refuses one that stores
-- nothing.
use cold_snap.Prelude.{
  ℕ, zero, suc, ◌+◌, ◌-◌, ◌*◌, ◌%◌, ◌≤◌, ◌<◌, ◌≡◌, refl, ap, List, [], ◌∷◌, none, some, ok, err,
  arith, length, length-copy_into, slice-copy_into, ◌∙◌, lt→ltb, le→ltb, ◌==◌, false, ==_self, min,
  sat_add32,
}
use native.Mathlib.Decide.{dec_lt}
use cold_snap.Psram.{
  PsramOps, mismatch, check_read, check_write, pattern_byte, pattern_span, first_mismatch,
  complement, verdict, selftest_pass, selftest_loop, selftest_passes, readback_selftest,
}
use cold_snap.Psram.Laws.{PsramLaws, check_read_iff, check_write_iff}

length-pattern_span : (at i n : ℕ) → length (pattern_span at i n) ≡ n
unfolding pattern_span
length-pattern_span at i zero = refl
length-pattern_span at i (suc n) = ap suc (length-pattern_span at (i + 1) n)

first_mismatch-pattern_span : (at i n : ℕ) → first_mismatch at i (pattern_span at i n) ≡ none
unfolding first_mismatch pattern_span
first_mismatch-pattern_span at i zero = refl
first_mismatch-pattern_span at i (suc n) =
    rw (==_self (pattern_byte (sat_add32 at i))) (first_mismatch-pattern_span at (i + 1) n)

length-complement : (xs : List ℕ) → length (complement xs) ≡ length xs
length-complement [] = refl
length-complement (x ∷ xs) = ap suc (length-complement xs)

module _ {P : Type 0} (ps : PsramOps P) (law : PsramLaws ps) where
  open law use {cells, IsSound, stored, write_lem, read_lem, cells-stored, stored-IsSound}

  length-cells-stored :
      (p : P) (at : ℕ) (bs : List ℕ)
      → IsSound p
      → at + length bs ≤ length (cells p)
      → length (cells (stored p at bs)) ≡ length (cells p)
  length-cells-stored p at bs s h = rw (cells-stored p at bs s) (length-copy_into (cells p) at bs h)

  -- What was just written reads back.
  read_back :
      (p : P) (at : ℕ) (bs : List ℕ)
      → IsSound p
      → at + length bs ≤ 4194304
      → at + length bs ≤ length (cells p)
      → ps.read at (complement bs) (stored p at bs) ≡ (ok bs, stored p at bs)
  read_back p at bs s w h =
      let n = length-complement bs in
      let l = length-cells-stored p at bs s h in
      read_lem (stored p at bs) at (complement bs) (stored-IsSound p at bs s)
        ((check_read_iff at (length (complement bs))).1 (omega arith)) (omega arith)
      ∙ rw (n, cells-stored p at bs s, slice-copy_into (cells p) at bs h)

  -- One pass writes the pattern over the span, and finds no mismatch.
  selftest_pass_lem :
      (p : P) (at n : ℕ)
      → IsSound p
      → at % 4 ≡ 0
      → n % 4 ≡ 0
      → at + n ≤ 4194304
      → at + n ≤ length (cells p)
      → selftest_pass ps at n p ≡ (ok tt, stored p at (pattern_span at 0 n))
  unfolding selftest_pass verdict
  selftest_pass_lem p at n s a b w h =
      let buf = pattern_span at 0 n in
      let l = length-pattern_span at 0 n in
      let fits = (check_write_iff at (length buf)).1 (omega arith, omega arith, omega arith) in
      rw (write_lem p at buf s fits (omega arith))
        (rw (read_back p at buf s (omega arith) (omega arith), first_mismatch-pattern_span at 0 n))

  -- A pass that has bytes left stores the pattern over its span, and goes on.
  selftest_loop_step :
      (passes offset len pos : ℕ) (p : P)
      → IsSound p
      → offset % 4 ≡ 0
      → len % 4 ≡ 0
      → pos % 4 ≡ 0
      → pos < len
      → offset + len ≤ 4194304
      → offset + len ≤ length (cells p)
      → selftest_loop ps (suc passes) offset len pos p
        ≡ selftest_loop ps passes offset len
            (pos + min 64 (len - pos))
            (stored p (offset + pos) (pattern_span (offset + pos) 0 (min 64 (len - pos))))
  unfolding selftest_loop
  selftest_loop_step passes offset len pos p s a b c more w h =
      let in32 : (offset + pos) % 4294967296 ≡ offset + pos = omega arith in
      let pass =
        selftest_pass_lem p (offset + pos) (min 64 (len - pos)) s (omega arith) (omega arith)
          (omega arith) (omega arith) in
      rw (lt→ltb pos len more, in32, pass) refl

  selftest_loop_lem :
      (passes offset len pos : ℕ) (p : P)
      → IsSound p
      → offset % 4 ≡ 0
      → len % 4 ≡ 0
      → pos % 4 ≡ 0
      → offset + len ≤ 4194304
      → offset + len ≤ length (cells p)
      → len ≤ pos + 64 * passes
      → (p' : P) × (selftest_loop ps passes offset len pos p ≡ (ok tt, p'))
        × IsSound p'
        × (length (cells p') ≡ length (cells p))
  selftest_loop_lem zero offset len pos p s a b c w h f = (p, unfold selftest_loop in refl, s, refl)
  selftest_loop_lem (suc passes) offset len pos p s a b c w h f = elim (dec_lt pos len) [
    | no done ↦ (p, unfold selftest_loop in rw (le→ltb pos len (omega arith)) refl, s, refl)
    | yes more ↦
        let n = min 64 (len - pos) in
        let buf = pattern_span (offset + pos) 0 n in
        let size = length-pattern_span (offset + pos) 0 n in
        let kept = length-cells-stored p (offset + pos) buf s (omega arith) in
        let (p', run, s', same) =
          selftest_loop_lem passes offset len (pos + n) (stored p (offset + pos) buf)
            (stored-IsSound p (offset + pos) buf s) a b (omega arith) w (omega arith)
            (omega arith) in
        (p', selftest_loop_step passes offset len pos p s a b c more w h ∙ run, s', same ∙ kept)
  ]

  -- On a working memory that holds the span, the self-test of a word-aligned span in the window
  -- passes, and leaves a working memory of the same size.
  pub readback_selftest-passes :
      (offset len : ℕ) (p : P)
      → IsSound p
      → 0 < len
      → check_write offset len ≡ ok tt
      → offset + len ≤ length (cells p)
      → (p' : P) × (readback_selftest ps offset len p ≡ (ok tt, p'))
        × IsSound p'
        × (length (cells p') ≡ length (cells p))
  unfolding readback_selftest
  readback_selftest-passes offset len p s pos w h =
      let (a, b, c) = (check_write_iff offset len).0 w in
      let (p', run, s', size) =
        selftest_loop_lem (selftest_passes len) offset len 0 p s a b (omega arith) c h
          (omega arith) in
      let more : (len == 0) ≡ false = ground arith in (p', rw (more, w) run, s', size)

-- A part that answers and stores nothing.
pub record IsInert {P : Type 0} (ps : PsramOps P) : Type 0 where
  pub drops_write :
      (p : P) (at : ℕ) (bytes : List ℕ)
      → check_write at (length bytes) ≡ ok tt
      → ps.write at bytes p ≡ (ok tt, p)
  pub keeps_buffer :
      (p : P) (at : ℕ) (buf : List ℕ)
      → check_read at (length buf) ≡ ok tt
      → ps.read at buf p ≡ (ok buf, p)

first_mismatch-complement :
    (at n : ℕ)
    → first_mismatch at 0 (complement (pattern_span at 0 (suc n))) ≡ some (sat_add32 at 0)
unfolding first_mismatch pattern_span pattern_byte
first_mismatch-complement at n = ground arith

selftest_pass-inert :
    {P : Type 0} (ps : PsramOps P) (at m : ℕ) (p : P)
    → IsInert ps
    → check_write at (suc m) ≡ ok tt
    → selftest_pass ps at (suc m) p ≡ (err (mismatch (sat_add32 at 0)), p)
unfolding selftest_pass verdict
selftest_pass-inert ps at m p dead w =
    let buf = pattern_span at 0 (suc m) in
    let size = length-pattern_span at 0 (suc m) in
    let back = length-complement buf in
    let (a, b, c) = (check_write_iff at (suc m)).0 w in
    let written =
      dead.drops_write p at buf
        ((check_write_iff at (length buf)).1 (omega arith, omega arith, omega arith)) in
    let kept =
      dead.keeps_buffer p at (complement buf)
        ((check_read_iff at (length (complement buf))).1 (omega arith)) in
    rw written (rw (kept, first_mismatch-complement at m))

-- A memory that answers every call and stores nothing is refused at the first byte of the span.
readback_selftest-inert :
    {P : Type 0} (ps : PsramOps P) (offset len : ℕ) (p : P)
    → IsInert ps
    → 0 < len
    → check_write offset len ≡ ok tt
    → readback_selftest ps offset len p ≡ (err (mismatch offset), p)
unfolding readback_selftest selftest_loop
readback_selftest-inert ps offset len p dead pos w =
    let (a, b, c) = (check_write_iff offset len).0 w in
    let m = min 64 len - 1 in
    let pass =
      selftest_pass-inert ps offset m p dead
        ((check_write_iff offset (suc m)).1 (a, omega arith, omega arith)) in
    let whole : (len == 0) ≡ false = ground arith in
    let passes : selftest_passes len ≡ suc (selftest_passes len - 1) = omega arith in
    let bytes : min 64 (len - 0) ≡ suc m = omega arith in
    let in32 : (offset + 0) % 4294967296 ≡ offset = omega arith in
    let address : min (offset + 0) 4294967295 ≡ offset = omega arith in
    rw (whole, w) (rw (passes, lt→ltb 0 len pos) (rw (bytes, in32, pass, address) refl))
