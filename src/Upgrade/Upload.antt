-- ===== src/Upgrade/Upload.antt =====
-- firmware/src/upgrade.rs: a whole upgrade over a working memory, cut into chunks in any way.
use mathlib.Core.List.{flatten}
use native.Mathlib.Nat.{add-zero}
use cold_snap.Prelude.{
  ℕ, ◌+◌, ◌/◌, ◌%◌, ◌≤◌, ◌<◌, ◌≡◌, refl, sym, ap, ap₂, subst, ◌∙◌, List, [], ◌∷◌, ◌++◌, Result, ok,
  err, arith, length, le→ltb, ◌==◌, ==_self, true, false, not, append_assoc, length-append,
}
use cold_snap.Prelude.Exec.{continue}
use cold_snap.Psram.{PsramOps}
use cold_snap.Psram.Laws.{PsramLaws, check_write_iff}
use cold_snap.Psram.Selftest.{readback_selftest-passes}
use cold_snap.Upgrade.{
  Stager, prepared, streaming, Refuse, acks_at, judge, prepare, enter, enter_in, admit, feed,
  feed_all, upload,
}
use cold_snap.Upgrade.Carry.{taken_none}
use cold_snap.Upgrade.Stream.{
  IsAdmissible, IsStreaming, owed, acks_at_mono, conclude, answered, ended, collect-within,
  feed-collect,
}

-- The acks of a last chunk, added to none.
more_acks :
    {P : Type 0} (v : Result (Unit {0}) Refuse) (acks : ℕ) (t : Stager P)
    → continue
        (answered v acks, t)
        (λ a s. continue {S = Stager P} {E = Refuse} (ok 0, s) (λ b s'. (ok (a + b), s')))
      ≡ (answered v acks, t)
more_acks (ok _) acks t = ap (λ n. (ok n, t)) (add-zero acks)
more_acks (err why) acks t = refl

add_acks :
    {P : Type 0} (v : Result (Unit {0}) Refuse) (a b : ℕ) (t : Stager P)
    → continue (answered v b, t) (λ more s. (ok (a + more), s)) ≡ (answered v (a + b), t)
add_acks (ok _) a b t = refl
add_acks (err why) a b t = refl

all_acks : (size : ℕ) → IsAdmissible size → owed size 0 size ≡ (size + 4095) / 4096
unfolding acks_at
all_acks size fit = ground (arith, fit.floor)

module _ {P : Type 0} (ps : PsramOps P) (law : PsramLaws ps) (sha256 : List ℕ → List ℕ) where
  open law use {cells, IsSound}

  -- A stager that an upgrade may start from, whatever its state is.
  pub record IsReady (size : ℕ) (s : Stager P) : Type 0 where
    pub works : IsSound s.part
    pub array : length s.carry ≡ 4
    pub room : size ≤ length (cells s.part)

  prepare_lem :
      (size : ℕ) (announced : List ℕ) (s : Stager P)
      → IsAdmissible size
      → IsReady size s
      → (t : Stager P) × (prepare ps size announced s ≡ (ok tt, t))
        × (t.state ≡ prepared size)
        × (t.expected ≡ announced)
        × (t.carry_len ≡ 0)
        × (t.written ≡ 0)
        × IsReady size t
  unfolding prepare
  prepare_lem size announced s fit r =
      let (p', run, works, same) =
        readback_selftest-passes ps law 0 size s.part r.works (omega (arith, fit.floor))
          ((check_write_iff 0 size).1
            (omega arith, omega (arith, fit.aligned), omega (arith, fit.ceiling)))
          (omega (arith, r.room)) in
      let aligned : not (size % 512 == 0) ≡ false = ground (arith, fit.aligned) in
      (
        record s {
          part = p';
          state = prepared size;
          expected = announced;
          carry_len = 0;
          written = 0;
        },
        rw (aligned, le→ltb size 262144 fit.floor, le→ltb 1441792 size fit.ceiling) (rw run refl),
        refl,
        refl,
        refl,
        refl,
        record { works = works; array = r.array; room = omega (arith, same, r.room) },
      )

  -- Both messages admitted: the stream is open, and nothing of it is there.
  pub open_stream :
      (size : ℕ) (announced : List ℕ) (chunks : List (List ℕ)) (s : Stager P)
      → IsAdmissible size
      → IsReady size s
      → (t : Stager P) × (upload ps sha256 size announced chunks s ≡ feed_all ps sha256 chunks t)
        × IsStreaming ps law sha256 size announced [] t
  unfolding upload admit enter
  open_stream size announced chunks s fit r =
      let (t, run, st, ex, none_left, none_written, ready) = prepare_lem size announced s fit r in
      (
        record t { state = streaming size 0 },
        rw run (ap (λ state. continue (enter_in ps state t) (λ _. feed_all ps sha256 chunks)) st),
        record {
          state = refl;
          expected = ex;
          carried =
              taken_none ps law (record t { state = streaming size 0 }) size none_left none_written
                ready.works ready.array ready.room (omega (arith, fit.ceiling));
        },
      )

  -- A chunk that leaves the stream incomplete.
  feed_more :
      (size : ℕ) (announced sent bytes : List ℕ) (s : Stager P)
      → IsAdmissible size
      → IsStreaming ps law sha256 size announced sent s
      → length (sent ++ bytes) < size
      → (t : Stager P) × (feed ps sha256 bytes s
          ≡ (ok (owed size (length sent) (length (sent ++ bytes))), t))
        × IsStreaming ps law sha256 size announced (sent ++ bytes) t
  feed_more size announced sent bytes s fit m h =
      let (t, run, state, next) = feed-collect ps law sha256 size announced sent bytes s fit m in
      let part : (length (sent ++ bytes) == size) ≡ false = ground arith in
      let spec = collect-within sha256 announced size sent bytes (omega arith) ∙ rw part refl in
      (t, run ∙ rw spec refl, next (state ∙ rw spec refl))

  -- The chunk that completes it.
  feed_last :
      (size : ℕ) (announced sent bytes : List ℕ) (s : Stager P)
      → IsAdmissible size
      → IsStreaming ps law sha256 size announced sent s
      → length (sent ++ bytes) ≡ size
      → (t : Stager P) × (feed ps sha256 bytes s ≡ (
        answered (judge sha256 announced size (sent ++ bytes)) (owed size (length sent) size),
        t,
      ))
        × (t.state ≡ ended (judge sha256 announced size (sent ++ bytes)) size)
  feed_last size announced sent bytes s fit m h =
      let (t, run, state, next) = feed-collect ps law sha256 size announced sent bytes s fit m in
      let whole : (size == size) ≡ true = ==_self size in
      let spec =
        collect-within sha256 announced size sent bytes (omega arith)
        ∙ ap (conclude (judge sha256 announced size (sent ++ bytes)) size (length sent)) h in
      (t, run ∙ rw (spec, whole) refl, state ∙ rw (spec, whole) refl)

  -- The chunks before the last one, then the last one.
  feed_all_lem :
      (chunks : List (List ℕ)) (size : ℕ) (announced sent last : List ℕ) (s : Stager P)
      → IsAdmissible size
      → IsStreaming ps law sha256 size announced sent s
      → length (sent ++ flatten chunks) < size
      → length (sent ++ (flatten chunks ++ last)) ≡ size
      → (t : Stager P) × (feed_all ps sha256 (chunks ++ last ∷ []) s ≡ (
        answered
            (judge sha256 announced size (sent ++ (flatten chunks ++ last)))
            (owed size (length sent) size),
        t,
      ))
        × (t.state ≡ ended (judge sha256 announced size (sent ++ (flatten chunks ++ last))) size)
  unfolding feed_all flatten
  feed_all_lem [] size announced sent last s fit m before whole =
      let (t, run, state) = feed_last size announced sent last s fit m whole in
      (
        t,
        rw run (
            more_acks (judge sha256 announced size (sent ++ last)) (owed size (length sent) size)
              t),
        state,
      )
  feed_all_lem (chunk ∷ chunks) size announced sent last s fit m before whole =
      let here = append_assoc sent chunk (flatten chunks) in
      let join : (sent ++ chunk) ++ (flatten chunks ++ last)
          ≡ sent ++ ((chunk ++ flatten chunks) ++ last) =
        append_assoc sent chunk (flatten chunks ++ last)
        ∙ ap (λ xs. sent ++ xs) (sym (append_assoc chunk (flatten chunks) last)) in
      let some_left = ap length here in
      let sum = length-append (sent ++ chunk) (flatten chunks) in
      let (t, run, next) = feed_more size announced sent chunk s fit m (omega arith) in
      let (t', run', state) =
        feed_all_lem chunks size announced (sent ++ chunk) last t fit next (omega arith)
          (ap length join ∙ whole) in
      let v = judge sha256 announced size in
      let first = owed size (length sent) (length (sent ++ chunk)) in
      let others = owed size (length (sent ++ chunk)) size in
      let acks : first + others ≡ owed size (length sent) size = omega (
        arith,
        length-append sent chunk,
        acks_at_mono size (length sent) (length (sent ++ chunk))
            (omega (arith, length-append sent chunk)) (omega arith),
        acks_at_mono size (length (sent ++ chunk)) size (omega arith) (omega arith),
      ) in
      (
        t',
        rw run (
            rw run' (
              add_acks (v ((sent ++ chunk) ++ (flatten chunks ++ last))) first others t'
              ∙ ap₂ (λ xs n. (answered (v xs) n, t')) join acks)),
        subst (λ xs. t'.state ≡ ended (v xs) size) join state,
      )

  -- An upgrade over a working memory with room for it, from any state, in any chunks: the image
  -- that arrives is the chunks joined, the verdict is `judge`'s on it, the ready bytes are one for
  -- each 4,096 bytes begun, and a refusal is both answered and recorded.
  pub upload-judge :
      (size : ℕ) (announced : List ℕ) (chunks : List (List ℕ)) (last : List ℕ) (s : Stager P)
      → IsAdmissible size
      → IsReady size s
      → length (flatten chunks) < size
      → length (flatten chunks ++ last) ≡ size
      → (t : Stager P) × (upload ps sha256 size announced (chunks ++ last ∷ []) s ≡ (
        answered (judge sha256 announced size (flatten chunks ++ last)) ((size + 4095) / 4096),
        t,
      ))
        × (t.state ≡ ended (judge sha256 announced size (flatten chunks ++ last)) size)
  upload-judge size announced chunks last s fit r before whole =
      let (t, opened, m) = open_stream size announced (chunks ++ last ∷ []) s fit r in
      let (t', run, state) = feed_all_lem chunks size announced [] last t fit m before whole in
      (t', opened ∙ run ∙ rw (all_acks size fit) refl, state)
