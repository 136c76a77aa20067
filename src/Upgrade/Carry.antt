-- ===== src/Upgrade/Carry.antt =====
-- firmware/src/upgrade.rs, `put` and the bytes that a stager holds: over a working memory the words in
-- the window and the bytes in the carry are together what the wire has sent.
pub mod TopUp
pub mod Spill
use native.Mathlib.Decide.{dec_lt}
use native.Mathlib.Nat.{le_refl}
use cold_snap.Prelude.{
  ℕ, ◌+◌, ◌-◌, ◌%◌, ◌≤◌, ◌<◌, ◌≡◌, ◌⊎◌, inl, inr, refl, sym, ap, ◌∙◌, List, [], ◌∷◌, ◌++◌, ok,
  arith, min, length, take, drop, copy_into, subst, lt→ltb, le→ltb, ◌==◌, false, append_assoc,
  append-nil, length-append, length-take, length-drop, length-copy_into, take-copy_into, take_all,
  drop_all, take-append-drop,
}
use cold_snap.Psram.{PsramOps}
use cold_snap.Psram.Laws.{PsramLaws, check_write_iff}
use cold_snap.Upgrade.{Stager, State, put, keep_tail, clear_carry, flush, top_up, spill}

module _ {P : Type 0} (ps : PsramOps P) (law : PsramLaws ps) where
  open law use {cells, IsSound, stored, write_lem, cells-stored, stored-IsSound}

  -- The bytes that a stager has taken: whole words in the window, the rest in the carry.
  pub taken : Stager P → List ℕ
  taken s = take s.written (cells s.part) ++ take s.carry_len s.carry

  -- A stager that has taken `sent`, with room for `size` bytes.
  pub record IsCarried (size : ℕ) (sent : List ℕ) (s : Stager P) : Type 0 where
    pub works : IsSound s.part
    pub aligned : s.written % 4 ≡ 0
    pub short : s.carry_len < 4
    pub array : length s.carry ≡ 4
    pub counted : s.written + s.carry_len ≡ length sent
    pub holds : taken s ≡ sent
    pub room : size ≤ length (cells s.part)
    pub window : size ≤ 4194304

  -- What `feed` leaves alone on its way.
  pub record Same (s t : Stager P) : Type 0 where
    pub state : t.state ≡ s.state
    pub expected : t.expected ≡ s.expected

  -- The state is no part of it.
  pub IsCarried-state :
      (s : Stager P) (size : ℕ) (sent : List ℕ) (state : State)
      → IsCarried size sent s
      → IsCarried size sent (record s { state = state })
  unfolding taken
  IsCarried-state s size sent state c = record {
    works = c.works;
    aligned = c.aligned;
    short = c.short;
    array = c.array;
    counted = c.counted;
    holds = c.holds;
    room = c.room;
    window = c.window;
  }

  -- The stager after a word multiple has been written.
  abbrev pub after_put : Stager P → List ℕ → Stager P
  after_put s w = record s { part = stored s.part s.written w; written = s.written + length w }

  pub put_lem :
      (s : Stager P) (w : List ℕ)
      → IsSound s.part
      → s.written % 4 ≡ 0
      → length w % 4 ≡ 0
      → s.written + length w ≤ 4194304
      → s.written + length w ≤ length (cells s.part)
      → put ps w s ≡ (ok tt, after_put s w)
  unfolding put
  put_lem s w works a b c h =
      let in32 : (0 + s.written) % 4294967296 ≡ s.written = omega arith in
      let sum32 : (s.written + length w) % 4294967296 ≡ s.written + length w = omega arith in
      let wrote =
        write_lem s.part s.written w works ((check_write_iff s.written (length w)).1 (a, b, c)) h in
      rw in32 (rw wrote (rw sum32))

  pub take-cells-after_put :
      (s : Stager P) (w : List ℕ)
      → IsSound s.part
      → s.written + length w ≤ length (cells s.part)
      → take (s.written + length w) (cells (stored s.part s.written w))
        ≡ take s.written (cells s.part) ++ w
  take-cells-after_put s w works h =
      rw (cells-stored s.part s.written w works)
        (take-copy_into (cells s.part) s.written (s.written + length w) w h refl)

  -- Bytes that do not fill a word stay in the carry.
  pub taken_whole : (s : Stager P) → s.carry_len ≡ 0 → taken s ≡ take s.written (cells s.part)
  unfolding taken
  taken_whole s empty =
      ap (λ n. take s.written (cells s.part) ++ take n s.carry) empty
      ∙ append-nil (take s.written (cells s.part))

  -- An empty window and an empty carry hold the empty stream.
  pub taken_none :
      (s : Stager P) (size : ℕ)
      → s.carry_len ≡ 0
      → s.written ≡ 0
      → IsSound s.part
      → length s.carry ≡ 4
      → size ≤ length (cells s.part)
      → size ≤ 4194304
      → IsCarried size [] s
  unfolding taken
  taken_none s size no_carry no_words works array room window = record {
    works = works;
    aligned = omega arith;
    short = omega arith;
    array = array;
    counted = omega arith;
    holds = taken_whole s no_carry ∙ ap (λ n. take n (cells s.part)) no_words;
    room = room;
    window = window;
  }
