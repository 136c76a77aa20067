-- ===== src/Upgrade/Carry/Spill.antt =====
-- firmware/src/upgrade.rs, the last step of `feed`: the whole words of the rest go to the window, and what is left
-- to the carry.
use cold_snap.Upgrade.Carry.{
  taken, IsCarried, Same, after_put, put_lem, take-cells-after_put, taken_whole,
}
use native.Mathlib.Decide.{dec_lt}
use cold_snap.Prelude.{
  ℕ, ◌+◌, ◌-◌, ◌%◌, ◌≤◌, ◌<◌, ◌≡◌, ◌⊎◌, inl, inr, refl, sym, ap, ◌∙◌, List, [], ◌∷◌, ◌++◌, ok,
  arith, length, take, drop, copy_into, subst, lt→ltb, le→ltb, append_assoc, append-nil,
  length-append, length-take, length-drop, length-copy_into, take-copy_into, take-append-drop,
}
use cold_snap.Psram.{PsramOps}
use cold_snap.Psram.Laws.{PsramLaws}
use cold_snap.Upgrade.{Stager, keep_tail, spill}

module _ {P : Type 0} (ps : PsramOps P) (law : PsramLaws ps) where
  open law use {cells, IsSound, stored, write_lem, cells-stored, stored-IsSound}

  -- The bytes after the last whole word go to an empty carry.
  abbrev after_keep : Stager P → List ℕ → Stager P
  after_keep s tail = record s { carry = copy_into s.carry 0 tail; carry_len = length tail }

  keep_tail_lem :
      (s : Stager P) (size : ℕ) (sent tail : List ℕ)
      → IsCarried ps law size sent s
      → s.carry_len ≡ 0
      → length tail < 4
      → IsCarried ps law size (sent ++ tail) (after_keep s tail)
  unfolding taken
  keep_tail_lem s size sent tail c empty h =
      let fits : 0 + length tail ≤ length s.carry = omega (arith, c.array) in
      record {
        works = c.works;
        aligned = c.aligned;
        short = h;
        array = length-copy_into s.carry 0 tail fits ∙ c.array;
        counted = omega (arith, c.counted, length-append sent tail);
        holds =
            ap (λ xs. take s.written (cells s.part) ++ xs)
              (take-copy_into s.carry 0 (length tail) tail fits (omega arith))
            ∙ ap (λ xs. xs ++ tail) (sym (taken_whole ps law s empty) ∙ c.holds);
        room = c.room;
        window = c.window;
      }

  after_put_lem :
      (s : Stager P) (size : ℕ) (sent w : List ℕ)
      → IsCarried ps law size sent s
      → s.carry_len ≡ 0
      → length w % 4 ≡ 0
      → length sent + length w ≤ size
      → IsCarried ps law size (sent ++ w) (after_put ps law s w)
  unfolding taken
  after_put_lem s size sent w c empty whole fits = record {
    works = stored-IsSound s.part s.written w c.works;
    aligned = omega (arith, c.aligned);
    short = c.short;
    array = c.array;
    counted = omega (arith, c.counted, length-append sent w);
    holds =
        taken_whole ps law (after_put ps law s w) empty
        ∙ take-cells-after_put ps law s w c.works (omega (arith, c.counted, c.room))
        ∙ ap (λ xs. xs ++ w) (sym (taken_whole ps law s empty) ∙ c.holds);
    room =
        rw
          (
            cells-stored s.part s.written w c.works,
            length-copy_into (cells s.part) s.written w (omega (arith, c.counted, c.room)),
          )
          c.room;
    window = c.window;
  }

  module _ (s : Stager P) (size : ℕ) (sent : List ℕ) (c : IsCarried ps law size sent s) where
    spill_cons :
        (b : ℕ) (bs : List ℕ)
        → s.carry_len ≡ 0
        → length sent + length (b ∷ bs) ≤ size
        → (t : Stager P) × (spill ps (b ∷ bs) s ≡ (ok tt, t))
          × IsCarried ps law size (sent ++ b ∷ bs) t
          × Same ps law s t
    unfolding spill keep_tail
    spill_cons b bs empty fits =
        let rest = b ∷ bs in
        let whole = length rest - length rest % 4 in
        let w = take whole rest in
        let tail = drop whole rest in
        let size_w : length w ≡ whole = omega (arith, length-take whole rest) in
        let size_t : length tail < 4 = omega (arith, length-drop whole rest) in
        let joined = take-append-drop whole rest in
        elim (dec_lt 0 whole) [
          | no none_whole ↦
              let zero_w : whole ≡ 0 = omega arith in
              let all : drop whole rest ≡ rest = ap (λ n. drop n rest) zero_w in
              (
                after_keep s tail,
                rw (le→ltb 0 whole (omega arith)) refl,
                subst (λ xs. IsCarried ps law size (sent ++ xs) (after_keep s tail)) all
                    (keep_tail_lem s size sent tail c empty size_t),
                record { state = refl; expected = refl },
              )
          | yes some_whole ↦
              let s' = after_put ps law s w in
              let wrote =
                put_lem ps law s w c.works c.aligned (omega arith)
                  (omega (arith, c.counted, c.window)) (omega (arith, c.counted, c.room)) in
              let d = after_put_lem s size sent w c empty (omega arith) (omega arith) in
              (
                after_keep s' tail,
                rw (lt→ltb 0 whole some_whole) (rw wrote refl),
                subst (λ xs. IsCarried ps law size xs (after_keep s' tail))
                    (append_assoc sent w tail ∙ ap (λ xs. sent ++ xs) joined)
                    (keep_tail_lem s' size (sent ++ w) tail d empty size_t),
                record { state = refl; expected = refl },
              )
        ]

    pub spill_lem :
        (rest : List ℕ)
        → (s.carry_len ≡ 0) ⊎ (rest ≡ [])
        → length sent + length rest ≤ size
        → (t : Stager P) × (spill ps rest s ≡ (ok tt, t))
          × IsCarried ps law size (sent ++ rest) t
          × Same ps law s t
    spill_lem [] e fits = (
      s,
      unfold spill in refl,
      subst (λ xs. IsCarried ps law size xs s) (sym (append-nil sent)) c,
      record { state = refl; expected = refl },
    )
    spill_lem (b ∷ bs) (inl empty) fits = spill_cons b bs empty fits
    spill_lem (b ∷ bs) (inr e) fits = absurd (cc)
