-- ===== src/Comms/Receive.antt =====
-- hal/src/comms.rs: a receiver that takes one byte at a time, against which `poll` is read.
use cold_snap.Prelude.{
  ℕ, ◌+◌, ◌≤◌, ◌≡◌, refl, sym, ap, ◌∙◌, subst, Bool, true, false, none, some, List, [], ◌∷◌, ◌++◌,
  Result, arith, leb, if◌then◌else◌, length, length-append, append-nil, append_assoc, le→leb,
}
use cold_snap.Comms.{DecodeError, frame_limit}
use cold_snap.Comms.Parse.{Parsed, and_parse, DecoderLaws, parse}
use cold_snap.Comms.Stream.{parse-append, Settled, left, stopped, parse-Settled}

module _ {T : Type 0} where
  and_parse-cong :
      (q : Parsed T) (k k' : List ℕ → Parsed T)
      → ((r : List ℕ) → q.1 ≡ some r → k r ≡ k' r)
      → and_parse q k ≡ and_parse q k'
  and_parse-cong (frames, none) k k' h = refl
  and_parse-cong (frames, some r) k k' h = ap (λ p. (frames ++ p.0, p.1)) (h r refl)

  and_parse_assoc :
      (q : Parsed T) (k k' : List ℕ → Parsed T)
      → and_parse (and_parse q k) k' ≡ and_parse q (λ r. and_parse (k r) k')
  and_parse_assoc (frames, none) k k' = refl
  and_parse_assoc (frames, some r) k k' = go (k r)
    where
      go :
          (p : Parsed T)
          → and_parse (frames ++ p.0, p.1) k' ≡ (frames ++ (and_parse p k').0, (and_parse p k').1)
      go (more, none) = refl
      go (more, some rest) = ap (λ fs. (fs, (k' rest).1)) (append_assoc frames more (k' rest).0)

  module _ (decode : List ℕ → Result (T × ℕ) DecodeError) where
    -- The reference: a byte is taken where there is room for it, and whole frames leave at once.
    unfoldable pub receive : List ℕ → List ℕ → Parsed T
    receive h [] = ([], some h)
    receive h (b ∷ bs) =
        if leb frame_limit (length h)
        then ([], none)
        else and_parse (parse decode (h ++ b ∷ [])) (λ r. receive r bs)

    unfoldable pub Stable : List ℕ → Type 0
    Stable h = parse decode h ≡ ([], some h)

    pub receive-append :
        (c d h : List ℕ) → receive h (c ++ d) ≡ and_parse (receive h c) (λ r. receive r d)
    unfolding receive
    receive-append [] d h = refl
    receive-append (b ∷ bs) d h = go (leb frame_limit (length h)) (λ r. receive-append bs d r)
      where
        go :
            (t : Bool)
            → ((r : List ℕ) → receive r (bs ++ d) ≡ and_parse (receive r bs) (λ r'. receive r' d))
            → (if t
                then ([], none)
                else and_parse (parse decode (h ++ b ∷ [])) (λ r. receive r (bs ++ d)))
              ≡ and_parse
                  (if t
                    then ([], none)
                    else and_parse (parse decode (h ++ b ∷ [])) (λ r. receive r bs))
                  (λ r. receive r d)
        go true ih = refl
        go false ih =
            let q = parse decode (h ++ b ∷ []) in
            and_parse-cong q (λ r. receive r (bs ++ d))
              (λ r. and_parse (receive r bs) (λ r'. receive r' d)) (λ r _. ih r)
            ∙ sym (and_parse_assoc q (λ r. receive r bs) (λ r. receive r d))

    pub receive_full :
        (h : List ℕ) (b : ℕ) (bs : List ℕ) → 4096 ≤ length h → receive h (b ∷ bs) ≡ ([], none)
    unfolding receive
    receive_full h b bs full = rw (le→leb 4096 (length h) full) refl

    pub Settled-Stable :
        (h : List ℕ) (q : Parsed T) (r : List ℕ)
        → Settled decode h q
        → q.1 ≡ some r
        → Stable r × (length r ≤ length h)
    unfolding Stable
    Settled-Stable h q r (stopped frames) e = absurd (cc e)
    Settled-Stable h q r (left frames r' stable few) e =
        let same : r' ≡ r = cc e in
        (
          subst (λ x. parse decode x ≡ ([], some x)) same stable,
          subst (λ x. length x ≤ length h) same few,
        )

    module _ (laws : DecoderLaws decode) where
      -- Bytes that fit are taken as one piece.
      pub receive-parse :
          (c h : List ℕ)
          → Stable h
          → length h + length c ≤ 4096
          → receive h c ≡ parse decode (h ++ c)
      unfolding receive Stable
      receive-parse [] h stable fits = sym (ap (parse decode) (append-nil h) ∙ stable)
      receive-parse (b ∷ bs) h stable fits =
          let room : leb 4096 (length h) ≡ false = ground arith in
          rw room (
            and_parse-cong (parse decode (h ++ b ∷ [])) (λ r. receive r bs)
              (λ r. parse decode (r ++ bs))
              (λ r e.
                let (next, few) =
                  Settled-Stable (h ++ b ∷ []) _ r (parse-Settled decode (h ++ b ∷ [])) e in
                receive-parse bs r next (omega (arith, length-append h (b ∷ []))))
            ∙ (sym (parse-append decode laws (h ++ b ∷ []) bs)
                ∙ ap (parse decode) (append_assoc h (b ∷ []) bs)))
