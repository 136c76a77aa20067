-- ===== src/Upgrade/Carry/TopUp.antt =====
-- firmware/src/upgrade.rs, the first step of `feed`: the carry is filled up to a word, and the word goes to the window.
use cold_snap.Upgrade.Carry.{taken, IsCarried, Same, after_put, put_lem, take-cells-after_put}
use native.Mathlib.Decide.{dec_lt}
use native.Mathlib.Nat.{le_refl}
use cold_snap.Prelude.{
  ℕ, ◌+◌, ◌-◌, ◌%◌, ◌≤◌, ◌<◌, ◌≡◌, ◌⊎◌, inl, inr, refl, sym, ap, ◌∙◌, List, [], ◌++◌, ok, arith,
  min, length, take, drop, copy_into, subst, lt→ltb, le→ltb, ◌==◌, false, append_assoc, append-nil,
  length-append, length-take, length-copy_into, take-copy_into, take_all, drop_all,
  take-append-drop,
}
use cold_snap.Psram.{PsramOps}
use cold_snap.Psram.Laws.{PsramLaws}
use cold_snap.Upgrade.{Stager, clear_carry, flush, top_up}

module _ {P : Type 0} (ps : PsramOps P) (law : PsramLaws ps) where
  open law use {cells, IsSound, stored, write_lem, cells-stored, stored-IsSound}

  module _ (s : Stager P) (size : ℕ) (sent bytes : List ℕ) (c : IsCarried ps law size sent s) where
    top_up_short :
        0 < s.carry_len
        → s.carry_len + length bytes < 4
        → (t : Stager P) × (top_up ps bytes s ≡ (ok [], t))
          × IsCarried ps law size (sent ++ bytes) t
          × Same ps law s t
    unfolding top_up flush clear_carry taken
    top_up_short some_carry h =
        let n : min (4 - s.carry_len) (length bytes) ≡ length bytes = omega arith in
        let count : (s.carry_len + length bytes) % 256 ≡ s.carry_len + length bytes = omega arith in
        let part : (s.carry_len + length bytes == 4) ≡ false = ground arith in
        let fits : s.carry_len + length bytes ≤ length s.carry = omega (arith, c.array) in
        (
          record s {
            carry = copy_into s.carry s.carry_len bytes;
            carry_len = s.carry_len + length bytes;
          },
          rw (lt→ltb 0 s.carry_len some_carry) (
              rw n (
                rw
                  (
                    take_all (length bytes) bytes (le_refl _),
                    drop_all (length bytes) bytes (le_refl _),
                    count,
                    part,
                  )
                  refl)),
          record {
            works = c.works;
            aligned = c.aligned;
            short = h;
            array = length-copy_into s.carry s.carry_len bytes fits ∙ c.array;
            counted = omega (arith, c.counted, length-append sent bytes);
            holds =
                ap (λ xs. take s.written (cells s.part) ++ xs)
                  (take-copy_into s.carry s.carry_len (s.carry_len + length bytes) bytes fits refl)
                ∙ sym
                    (append_assoc (take s.written (cells s.part)) (take s.carry_len s.carry) bytes)
                ∙ ap (λ xs. xs ++ bytes) c.holds;
            room = c.room;
            window = c.window;
          },
          record { state = refl; expected = refl },
        )

    top_up_word :
        0 < s.carry_len
        → 4 ≤ s.carry_len + length bytes
        → length sent + length bytes ≤ size
        → (t : Stager P) × (top_up ps bytes s ≡ (ok (drop (4 - s.carry_len) bytes), t))
          × IsCarried ps law size (sent ++ take (4 - s.carry_len) bytes) t
          × (t.carry_len ≡ 0)
          × Same ps law s t
    unfolding top_up flush clear_carry taken
    top_up_word some_carry h fits =
        let k = 4 - s.carry_len in
        let word = copy_into s.carry s.carry_len (take k bytes) in
        let n : min k (length bytes) ≡ k = omega arith in
        let size_k : length (take k bytes) ≡ k = omega (arith, length-take k bytes) in
        let count : (s.carry_len + k) % 256 ≡ 4 = omega (arith, c.short) in
        let inside : s.carry_len + length (take k bytes) ≤ length s.carry =
          omega (arith, c.array) in
        let size_w : length word ≡ 4 =
          length-copy_into s.carry s.carry_len (take k bytes) inside ∙ c.array in
        let whole : word ≡ take s.carry_len s.carry ++ take k bytes =
          sym (take_all 4 word (omega arith))
          ∙ take-copy_into s.carry s.carry_len 4 (take k bytes) inside (omega arith) in
        let s' : Stager P = record s { carry = word; carry_len = 4 } in
        let bound : s.written + length word ≤ size = omega (arith, c.counted) in
        let wrote =
          put_lem ps law s' word c.works c.aligned (omega arith) (omega (arith, c.window))
            (omega (arith, c.room)) in
        let t = record (after_put ps law s' word) { carry_len = 0 } in
        (
          t,
          rw (lt→ltb 0 s.carry_len some_carry) (rw n (rw count (rw wrote refl))),
          record {
            works = stored-IsSound s.part s.written word c.works;
            aligned = omega (arith, c.aligned);
            short = omega arith;
            array = size_w;
            counted = omega (arith, c.counted, length-append sent (take k bytes));
            holds =
                append-nil (take (s.written + length word) (cells (stored s.part s.written word)))
                ∙ take-cells-after_put ps law s' word c.works (omega (arith, c.room))
                ∙ ap (λ xs. take s.written (cells s.part) ++ xs) whole
                ∙ sym (
                    append_assoc (take s.written (cells s.part)) (take s.carry_len s.carry)
                      (take k bytes))
                ∙ ap (λ xs. xs ++ take k bytes) c.holds;
            room =
                rw
                  (
                    cells-stored s.part s.written word c.works,
                    length-copy_into (cells s.part) s.written word (omega (arith, c.room)),
                  )
                  c.room;
            window = c.window;
          },
          refl,
          record { state = refl; expected = refl },
        )

    pub top_up_lem :
        length sent + length bytes ≤ size
        → (mid rest : List ℕ) × (t : Stager P) × (top_up ps bytes s ≡ (ok rest, t))
          × (mid ++ rest ≡ bytes)
          × IsCarried ps law size (sent ++ mid) t
          × ((t.carry_len ≡ 0) ⊎ (rest ≡ []))
          × Same ps law s t
    top_up_lem fits = elim (dec_lt 0 s.carry_len) [
      | no none_left ↦
          let empty : s.carry_len ≡ 0 = omega arith in
          (
            [],
            bytes,
            s,
            unfold top_up in rw (le→ltb 0 s.carry_len (omega arith)) refl,
            refl,
            subst (λ xs. IsCarried ps law size xs s) (sym (append-nil sent)) c,
            inl empty,
            record { state = refl; expected = refl },
          )
      | yes some_carry ↦ elim (dec_lt (s.carry_len + length bytes) 4) [
        | yes h ↦
            let (t, run, d, same) = top_up_short some_carry h in
            (bytes, [], t, run, append-nil bytes, d, inr refl, same)
        | no h ↦
            let (t, run, d, empty, same) = top_up_word some_carry (omega arith) fits in
            (
              take (4 - s.carry_len) bytes,
              drop (4 - s.carry_len) bytes,
              t,
              run,
              take-append-drop (4 - s.carry_len) bytes,
              d,
              inl empty,
              same,
            )
      ]
    ]
