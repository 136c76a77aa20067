-- ===== src/Comms/Reassembly.antt =====
-- hal/src/comms.rs, `poll`: packets of any size against a receiver that takes one byte at a time.
use native.Mathlib.Decide.{dec_lt}
use cold_snap.Prelude.{
  ℕ, zero, suc, ◌+◌, ◌-◌, ◌≤◌, ◌<◌, ◌≡◌, refl, sym, ap, ◌∙◌, subst, Bool, true, false, none, some,
  List, [], ◌∷◌, ◌++◌, Result, ok, err, arith, min, leb, if◌then◌else◌, length, drop, take,
  length-drop, length-take, append-nil, take-append-drop,
}
use cold_snap.Comms.{
  DecodeError, Link, Polled, and_then, buffer, drain, poll, poll_loop, frame_limit,
}
use cold_snap.Comms.Parse.{Parsed, and_parse, DecoderLaws, parse}
use cold_snap.Comms.Buffer.{
  held, seen, IsBounded, Leaves, kept, dropped, length-held, held-buffer, buffer-IsBounded,
  drain-parse,
}
use cold_snap.Comms.Stream.{parse-Settled}
use cold_snap.Comms.Receive.{
  receive, Stable, receive-append, receive_full, Settled-Stable, receive-parse,
}

module _ {T : Type 0} where
  module _ (decode : List ℕ → Result (T × ℕ) DecodeError) where
    module _ (laws : DecoderLaws decode) where
      Shows : Link → Polled T → Parsed T → Type 0
      Shows l p q = (seen p ≡ q) × Leaves l p

      seen-behind :
          (frames : List T) (p : Polled T)
          → seen (frames ++ p.0, p.1, p.2) ≡ (frames ++ (seen p).0, (seen p).1)
      seen-behind frames (more, ok _, l) = refl
      seen-behind frames (more, err e, l) = refl

      behind-Leaves :
          (frames : List T) (l l' : Link) (p : Polled T)
          → l'.linked ≡ l.linked
          → Leaves l' p
          → Leaves l (frames ++ p.0, p.1, p.2)
      behind-Leaves frames l l' p same (kept more l'' b e) = kept (frames ++ more) l'' b (e ∙ same)
      behind-Leaves frames l l' p same (dropped more l'' b) = dropped (frames ++ more) l'' b

      -- A call, then another on the link that it leaves.
      and_then_lem :
          (l l1 : Link) (p : Polled T) (k : Link → Polled T) (q : List ℕ → Parsed T)
          → Leaves l1 p
          → l1.linked ≡ l.linked
          → ((l' : Link)
              → IsBounded l'
              → l'.linked ≡ l1.linked
              → (seen p).1 ≡ some (held l')
              → Shows l' (k l') (q (held l')))
          → Shows l (and_then p k) (and_parse (seen p) q)
      unfolding Shows
      and_then_lem l l1 p k q (dropped frames l' b) same next = (refl, dropped frames l' b)
      and_then_lem l l1 p k q (kept frames l' b e) same next =
          let (shown, leaves) = next l' b e refl in
          (
            seen-behind frames (k l') ∙ ap (λ r. (frames ++ r.0, r.1)) shown,
            behind-Leaves frames l l' (k l') (e ∙ same) leaves,
          )

      -- One pass of the loop.
      pass_lem :
          (l : Link) (piece : List ℕ) (k : Link → Polled T) (q : List ℕ → Parsed T)
          → IsBounded l
          → l.rx_len + length piece ≤ 4096
          → ((l' : Link)
              → IsBounded l'
              → (parse decode (held l ++ piece)).1 ≡ some (held l')
              → Shows l' (k l') (q (held l')))
          → Shows l
              (and_then (drain decode (buffer piece l)) k)
              (and_parse (parse decode (held l ++ piece)) q)
      pass_lem l piece k q b fits next =
          let b1 = buffer-IsBounded piece l b fits in
          let (shown, leaves) = drain-parse decode (buffer piece l) b1 in
          let all_ = shown ∙ ap (parse decode) (held-buffer piece l b fits) in
          subst (λ p. Shows l (and_then (drain decode (buffer piece l)) k) (and_parse p q)) all_
            (and_then_lem l (buffer piece l) _ k q leaves (unfold buffer in refl)
              (λ l' b' _ e. next l' b' (sym (ap (λ p. p.1) all_) ∙ e)))

      step :
          (passes b : ℕ) (bs : List ℕ) (l : Link) (n : ℕ)
          → min (4096 - l.rx_len) (length (b ∷ bs)) ≡ n
          → and_then
              (drain decode (buffer (take n (b ∷ bs)) l))
              (poll_loop decode passes (drop n (b ∷ bs)))
            ≡ poll_loop decode (suc passes) (b ∷ bs) l
      unfolding poll_loop
      step passes b bs l n e =
          ap
            (λ m.
              and_then (drain decode (buffer (take m (b ∷ bs)) l))
                (poll_loop decode passes (drop m (b ∷ bs))))
            (sym e)

      same_left : (q : Parsed T) (r r' : List ℕ) → q ≡ ([], some r) → q.1 ≡ some r' → r' ≡ r
      same_left q r r' e e' = cc (ap (λ p. p.1) e, e')

      -- A full buffer without a frame in it stays as it is, for the passes that are left.
      stuck :
          (passes b : ℕ) (bs : List ℕ) (l : Link)
          → IsBounded l
          → Stable decode (held l)
          → l.rx_len ≡ 4096
          → Shows l (poll_loop decode passes (b ∷ bs) l) ([], none)
      stuck zero b bs l bounded stable full =
          unfold poll_loop in unfold Shows in (refl, dropped [] l bounded)
      stuck (suc passes) b bs l bounded stable full =
          let none_fits : min (4096 - l.rx_len) (length (b ∷ bs)) ≡ 0 = omega arith in
          let quiet : parse decode (held l ++ []) ≡ ([], some (held l)) =
            ap (parse decode) (append-nil (held l)) ∙ (unfold Stable in stable) in
          subst (λ p. Shows l p ([], none)) (step passes b bs l 0 none_fits)
            (subst
              (λ p.
                Shows l (and_then (drain decode (buffer [] l)) (poll_loop decode passes (b ∷ bs)))
                  (and_parse p (λ r. ([], none))))
              quiet
              (pass_lem l [] (poll_loop decode passes (b ∷ bs)) (λ r. ([], none)) bounded
                (omega arith)
                (λ l' b' e.
                  let same : held l' ≡ held l =
                    same_left (parse decode (held l ++ [])) (held l) (held l') quiet e in
                  stuck passes b bs l' b' (subst (Stable decode) (sym same) stable)
                    (omega (arith, length-held l bounded, length-held l' b', ap length same)))))

      -- The loop, with a pass for each byte and one more.
      poll_loop_lem :
          (passes : ℕ) (rest : List ℕ) (l : Link)
          → IsBounded l
          → Stable decode (held l)
          → length rest < passes
          → Shows l (poll_loop decode passes rest l) (receive decode (held l) rest)
      poll_loop_lem zero rest l bounded stable enough = absurd (omega arith)
      poll_loop_lem (suc passes) [] l bounded stable enough =
          let (shown, leaves) = drain-parse decode l bounded in
          unfold poll_loop in
          unfold receive in unfold Shows in (shown ∙ (unfold Stable in stable), leaves)
      poll_loop_lem (suc passes) (b ∷ bs) l bounded stable enough = elim (dec_lt l.rx_len 4096) [
        | no full ↦
            let at_end : l.rx_len ≡ 4096 = omega (arith, bounded.fits) in
            subst (Shows l (poll_loop decode (suc passes) (b ∷ bs) l))
              (sym (receive_full decode (held l) b bs (omega (arith, length-held l bounded))))
              (stuck (suc passes) b bs l bounded stable at_end)
        | yes room ↦
            let rest = b ∷ bs in
            let n = min (4096 - l.rx_len) (length rest) in
            let len_piece = length-take n rest in
            let len_rest = length-drop n rest in
            let whole : and_parse (parse decode (held l ++ take n rest))
                  (λ r. receive decode r (drop n rest))
                ≡ (receive decode) (held l) rest =
              ap (λ p. and_parse p (λ r. receive decode r (drop n rest)))
                (sym (
                  receive-parse decode laws (take n rest) (held l) stable
                    (omega (arith, length-held l bounded))))
              ∙ (sym (receive-append decode (take n rest) (drop n rest) (held l))
                  ∙ ap (receive decode (held l)) (take-append-drop n rest)) in
            subst (Shows l (poll_loop decode (suc passes) rest l)) whole (
              subst
                (λ p. Shows l p (
                  and_parse (parse decode (held l ++ take n rest))
                    (λ r. receive decode r (drop n rest))))
                (step passes b bs l n refl)
                (pass_lem l (take n rest) (poll_loop decode passes (drop n rest))
                  (λ r. receive decode r (drop n rest)) bounded (omega arith)
                  (λ l' b' e.
                    let next =
                      Settled-Stable decode (held l ++ take n rest) _ (held l')
                        (parse-Settled decode (held l ++ take n rest)) e in
                    poll_loop_lem passes (drop n rest) l' b' next.0 (omega arith))))
      ]

      through :
          (q : Parsed T) (k : List ℕ → Parsed T) (r : List ℕ)
          → (and_parse q k).1 ≡ some r
          → (m : List ℕ) × (q.1 ≡ some m) × ((k m).1 ≡ some r)
      through (frames, none) k r e = absurd (cc e)
      through (frames, some m) k r e = (m, refl, e)

      receive-Stable :
          (bs h r : List ℕ) → Stable decode h → (receive decode h bs).1 ≡ some r → Stable decode r
      unfolding receive
      receive-Stable [] h r stable e = subst (Stable decode) {x = h} {y = r} (cc e) stable
      receive-Stable (b ∷ bs) h r stable e =
          go (leb frame_limit (length h)) e (λ m. receive-Stable bs m r)
        where
          go :
              (t : Bool)
              → (if t
                  then ([], none)
                  else and_parse (parse decode (h ++ b ∷ [])) (λ m. receive decode m bs)).1
                ≡ some r
              → ((m : List ℕ)
                  → Stable decode m
                  → (receive decode m bs).1 ≡ some r
                  → Stable decode r)
              → Stable decode r
          go true e ih = absurd (cc e)
          go false e ih =
              let (m, taken, rest) =
                through (parse decode (h ++ b ∷ [])) (λ m. receive decode m bs) r e in
              ih m
                (Settled-Stable decode (h ++ b ∷ []) _ m (parse-Settled decode (h ++ b ∷ []))
                  taken).0
                rest

      module _ (progress : List ℕ → ℕ → ℕ × Bool × ℕ) where
        poll_linked :
            (bytes : List ℕ) (l : Link)
            → l.linked ≡ true
            → poll decode progress bytes l ≡ poll_loop decode (suc (length bytes)) bytes l
        unfolding poll
        poll_linked bytes l h = rw h refl

        -- The decoder keeps its laws, and a linked and bounded link holds no whole frame. Then `poll` dispatches what the receiver
        -- of single bytes does, for the same bytes, and holds the same rest, or fails with it. It
        -- leaves a bounded link, linked as before, or after an error an unlinked and empty one.
        pub poll-receive :
            (bytes : List ℕ) (l : Link)
            → IsBounded l
            → parse decode (held l) ≡ ([], some (held l))
            → l.linked ≡ true
            → (seen (poll decode progress bytes l) ≡ (receive decode) (held l) bytes)
              × Leaves l (poll decode progress bytes l)
        unfolding Shows Stable
        poll-receive bytes l bounded stable linked =
            subst (λ p. (seen p ≡ (receive decode) (held l) bytes) × Leaves l p)
              (sym (poll_linked bytes l linked))
              (poll_loop_lem (suc (length bytes)) bytes l bounded stable (omega arith))

        -- The decoder keeps its laws, and a linked and bounded link holds no whole frame. Then two packets
        -- dispatch what one packet of their bytes does, and hold the same rest or fail with it.
        poll-append :
            (xs ys : List ℕ) (l : Link)
            → IsBounded l
            → parse decode (held l) ≡ ([], some (held l))
            → l.linked ≡ true
            → seen (and_then (poll decode progress xs l) (poll decode progress ys))
              ≡ seen (poll decode progress (xs ++ ys) l)
        unfolding Shows Stable
        poll-append xs ys l bounded stable linked =
            let (first, leaves) = poll-receive xs l bounded stable linked in
            let (both, _) =
              and_then_lem l l (poll decode progress xs l) (poll decode progress ys)
                (λ r. receive decode r ys) leaves refl
                (λ l' b' same e.
                  poll-receive ys l' b'
                    (receive-Stable xs (held l) (held l') stable (sym (ap (λ p. p.1) first) ∙ e))
                    (same ∙ linked)) in
            both
            ∙ (ap (λ p. and_parse p (λ r. receive decode r ys)) first
                ∙ (sym (receive-append decode xs ys (held l))
                    ∙ sym (poll-receive (xs ++ ys) l bounded stable linked).0))
