-- ===== src/Upgrade/Stream.antt =====
-- firmware/src/upgrade.rs, `feed`: over a working memory the stager is the machine that collects
-- the wire's bytes and judges them once the announced size is there.
use native.Mathlib.Decide.{ℕ_discrete, dec_lt}
use cold_snap.Prelude.{
  ℕ, ◌+◌, ◌-◌, ◌%◌, ◌≤◌, ◌<◌, ◌≡◌, inl, inr, refl, sym, ap, ◌∙◌, subst, List, ◌++◌, Result, ok, err,
  arith, length, take, slice, lt→ltb, le→ltb, ltb, leb, ◌==◌, true, false, u32_mod, sat_add32, ◌&&◌,
  append_assoc, length-append, if◌then◌else◌, Result-cases,
}
use cold_snap.Psram.{PsramOps}
use cold_snap.Psram.Laws.{PsramLaws, check_read_iff}
use cold_snap.Upgrade.{
  Stager, State, streaming, staged, refused, Refuse, extra_bytes, acks_at, judge, verify, settle,
  feed, apply_verdict, verify_in, feed_in,
}
use cold_snap.Upgrade.Carry.{IsCarried, taken_whole, IsCarried-state}
use cold_snap.Upgrade.Carry.TopUp.{top_up_lem}
use cold_snap.Upgrade.Carry.Spill.{spill_lem}

-- The sizes that `admit` accepts.
pub record IsAdmissible (size : ℕ) : Type 0 where
  pub aligned : size % 512 ≡ 0
  pub floor : 262144 ≤ size
  pub ceiling : size ≤ 1441792

-- The acks owed for going from `before` to `after` bytes.
abbrev pub owed : ℕ → ℕ → ℕ → ℕ
owed size before after = acks_at size after - acks_at size before

-- Ready bytes fall due in the order of the chunks, and never more than a chunk's number of them.
pub acks_at_mono :
    (size before after : ℕ)
    → before ≤ after
    → after ≤ size
    → acks_at size before ≤ acks_at size after
unfolding acks_at
acks_at_mono size before after h k = ground arith

acks_at-le : (size r : ℕ) → r ≤ size → acks_at size r ≤ size
unfolding acks_at
acks_at-le size r h = ground arith

-- What the acks and the state become when the stream is complete.
abbrev pub answered : Result (Unit {0}) Refuse → ℕ → Result ℕ Refuse
answered (ok _) acks = ok acks
answered (err why) acks = err why

abbrev pub ended : Result (Unit {0}) Refuse → ℕ → State
ended (ok _) size = staged size
ended (err why) size = refused why

abbrev pub conclude : Result (Unit {0}) Refuse → ℕ → ℕ → ℕ → Result ℕ Refuse × State
conclude verdict size before total =
    if total == size
    then (answered verdict (owed size before total), ended verdict size)
    else (ok (owed size before total), streaming size total)

-- The abstract machine: it holds the bytes of the stream, and no window and no carry.
unfoldable pub collect : (List ℕ → List ℕ) → List ℕ → ℕ → List ℕ → List ℕ → Result ℕ Refuse × State
collect sha256 announced size sent bytes =
    let total = length (sent ++ bytes) in
    if ltb size total
    then (err extra_bytes, refused extra_bytes)
    else conclude (judge sha256 announced size (sent ++ bytes)) size (length sent) total

module _ (sha256 : List ℕ → List ℕ) (announced : List ℕ) (size : ℕ) (sent bytes : List ℕ) where
  collect-over :
      size < length (sent ++ bytes)
      → collect sha256 announced size sent bytes ≡ (err extra_bytes, refused extra_bytes)
  unfolding collect
  collect-over h = rw (lt→ltb size (length (sent ++ bytes)) h)

  pub collect-within :
      length (sent ++ bytes) ≤ size
      → collect sha256 announced size sent bytes
        ≡ conclude
            (judge sha256 announced size (sent ++ bytes))
            size
            (length sent)
            (length (sent ++ bytes))
  unfolding collect
  collect-within h = rw (le→ltb size (length (sent ++ bytes)) h) refl

module _ {P : Type 0} (ps : PsramOps P) (law : PsramLaws ps) (sha256 : List ℕ → List ℕ) where
  open law use {cells, view_lem}

  -- A stager in the stream of an image of `size` bytes, with `sent` taken so far.
  pub record IsStreaming (size : ℕ) (announced sent : List ℕ) (s : Stager P) : Type 0 where
    pub state : s.state ≡ streaming size (length sent)
    pub expected : s.expected ≡ announced
    pub carried : IsCarried ps law size sent s

  -- The complete stream is what the window reads back.
  view_complete :
      (s : Stager P) (size : ℕ) (sent : List ℕ)
      → IsCarried ps law size sent s
      → size % 4 ≡ 0
      → length sent ≡ size
      → ps.view s.part size ≡ ok sent
  unfolding slice
  view_complete s size sent c a e =
      let empty : s.carry_len ≡ 0 = omega (arith, c.counted, c.aligned, c.short) in
      let here : s.written ≡ size - 0 = omega (arith, c.counted) in
      view_lem s.part size c.works ((check_read_iff 0 size).1 (omega (arith, c.window))) c.room
      ∙ ap ok
          (ap (λ n. take n (cells s.part)) (sym here) ∙ sym (taken_whole ps law s empty) ∙ c.holds)

  -- `verify` applies the judgement of the stream.
  verify_lem :
      (s : Stager P) (size n : ℕ) (announced sent : List ℕ)
      → s.state ≡ streaming size n
      → s.expected ≡ announced
      → IsCarried ps law size sent s
      → size % 4 ≡ 0
      → length sent ≡ size
      → verify ps sha256 s ≡ apply_verdict (judge sha256 announced size sent) size s
  unfolding verify
  verify_lem s size n announced sent st ex c a e =
      ap (λ state. verify_in ps sha256 state s) st
      ∙ rw (view_complete s size sent c a e, verify_in)
          (ap (λ xs. apply_verdict (judge sha256 xs size sent) size s) ex)

  -- The acks do not wrap.
  owed32 :
      (size before after : ℕ)
      → before ≤ after
      → after ≤ size
      → size ≤ 4194304
      → (acks_at size after + 4294967296 - acks_at size before) % 4294967296
        ≡ owed size before after
  owed32 size before after h k w =
      omega (arith, acks_at_mono size before after h k, acks_at-le size after k)

  settle_lem :
      (s : Stager P) (size before : ℕ) (announced sent : List ℕ)
      → s.expected ≡ announced
      → IsCarried ps law size sent s
      → size % 4 ≡ 0
      → before ≤ length sent
      → length sent ≤ size
      → (t : Stager P) × (settle ps sha256 size before (length sent) s
          ≡ ((conclude (judge sha256 announced size sent) size before (length sent)).0, t))
        × (t.state ≡ (conclude (judge sha256 announced size sent) size before (length sent)).1)
        × (t.expected ≡ announced)
        × IsCarried ps law size sent t
  settle_lem s size before announced sent ex c a h k =
      let carried_state = λ (state : State). IsCarried-state ps law s size sent state c in
      elim (ℕ_discrete (length sent) size) [
        | no more ↦
            let test : (length sent == size) ≡ false = ground arith in
            let acks = owed32 size before (length sent) h k c.window in
            (
              record s { state = streaming size (length sent) },
              unfold settle in rw (test, acks) refl,
              rw test refl,
              ex,
              carried_state (streaming size (length sent)),
            )
        | yes e ↦
            let test : (length sent == size) ≡ true = ground arith in
            let acks = owed32 size before (length sent) h k c.window in
            let s1 : Stager P = record s { state = streaming size (length sent) } in
            let judged =
              verify_lem s1 size (length sent) announced sent refl ex
                (carried_state (streaming size (length sent))) a e in
            elim (Result-cases (judge sha256 announced size sent)) [
              | inl (u, v) ↦ (
                record s1 { state = staged size },
                unfold settle in rw (test, acks) (rw (judged, v) refl),
                rw (test, v) refl,
                ex,
                carried_state (staged size),
              )
              | inr (why, v) ↦ (
                record s1 { state = refused why },
                unfold settle in rw (test, acks) (rw (judged, v) refl),
                rw (test, v) refl,
                ex,
                carried_state (refused why),
              )
            ]
      ]

  -- `feed` answers as the abstract machine does, goes to its state, and goes on with its stream.
  pub feed-collect :
      (size : ℕ) (announced sent bytes : List ℕ) (s : Stager P)
      → IsAdmissible size
      → IsStreaming size announced sent s
      → (t : Stager P) × (feed ps sha256 bytes s
          ≡ ((collect sha256 announced size sent bytes).0, t))
        × (t.state ≡ (collect sha256 announced size sent bytes).1)
        × (t.state ≡ streaming size (length (sent ++ bytes))
            → IsStreaming size announced (sent ++ bytes) t)
  feed-collect size announced sent bytes s fit m =
      let total = length-append sent bytes in
      elim (dec_lt size (length (sent ++ bytes))) [
        | yes over ↦
            let guard : (ltb (length bytes) u32_mod
                  && leb (sat_add32 (length sent) (length bytes)) size)
                ≡ false =
              ground arith in
            (
              record s { state = refused extra_bytes },
              unfold feed in
                  (ap (λ state. feed_in ps sha256 state bytes s) m.state
                    ∙ rw (guard, feed_in, collect-over sha256 announced size sent bytes over) refl),
              rw (collect-over sha256 announced size sent bytes over) refl,
              λ e. absurd (cc e),
            )
        | no within ↦
            let guard : (ltb (length bytes) u32_mod
                  && leb (sat_add32 (length sent) (length bytes)) size)
                ≡ true =
              ground arith in
            let (mid, rest, t1, run1, joined, c1, alt, same1) =
              top_up_lem ps law s size sent bytes m.carried (omega arith) in
            let parts = length-append mid rest in
            let whole = append_assoc sent mid rest ∙ ap (λ xs. sent ++ xs) joined in
            let (t2, run2, c2, same2) =
              spill_lem ps law t1 size (sent ++ mid) c1 rest alt
                (omega (arith, ap length whole, length-append (sent ++ mid) rest)) in
            let c = subst (λ xs. IsCarried ps law size xs t2) whole c2 in
            let ex = same2.expected ∙ same1.expected ∙ m.expected in
            let (t, run, state, expected, carried) =
              settle_lem t2 size (length sent) announced (sent ++ bytes) ex c
                (omega (arith, fit.aligned)) (omega arith) (omega arith) in
            let count : (length sent + length bytes) % 4294967296 ≡ length (sent ++ bytes) =
              omega (arith, fit.ceiling) in
            let spec = collect-within sha256 announced size sent bytes (omega arith) in
            (
              t,
              unfold feed in
                  (ap (λ state. feed_in ps sha256 state bytes s) m.state
                    ∙ rw (guard, feed_in) (rw run1 (rw run2 (rw (count, spec) run)))),
              rw spec state,
              λ e. record { state = e; expected = expected; carried = carried },
            )
      ]
