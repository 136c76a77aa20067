-- ===== src/Comms/Stream.antt =====
-- hal/src/comms.rs: the framing of a stream, cut anywhere.
use cold_snap.Prelude.{
  ℕ, zero, suc, ◌+◌, ◌≤◌, ◌<◌, ◌≡◌, refl, sym, ap, ◌∙◌, subst, none, some, List, [], ◌∷◌, ◌++◌,
  Result, arith, length, drop, length-drop, length-append, drop-append_le,
}
use cold_snap.Comms.{DecodeError}
use cold_snap.Comms.Parse.{
  Parsed, and_parse, prepend, DecoderLaws, parse_loop, parse, Pass, takes, overruns, waits, faults,
  classify, parsed_of, parse_loop_lem,
}

module _ {T : Type 0} where
  and_parse-prepend :
      (frame : T) (q : Parsed T) (k : List ℕ → Parsed T)
      → and_parse (prepend frame q) k ≡ prepend frame (and_parse q k)
  and_parse-prepend frame (frames, none) k = refl
  and_parse-prepend frame (frames, some rest) k = refl

  module _ (decode : List ℕ → Result (T × ℕ) DecodeError) where
    -- Any fuel that covers the bytes.
    parse_loop-fuel :
        (f g : ℕ) (h : List ℕ)
        → length h ≤ f
        → length h ≤ g
        → parse_loop decode f h ≡ parse_loop decode g h
    parse_loop-fuel zero zero [] p q = refl
    parse_loop-fuel zero (suc g) [] p q = unfold parse_loop in refl
    parse_loop-fuel (suc f) zero [] p q = unfold parse_loop in refl
    parse_loop-fuel (suc f) (suc g) [] p q = unfold parse_loop in refl
    parse_loop-fuel zero g (x ∷ xs) p q = absurd (omega arith)
    parse_loop-fuel (suc f) zero (x ∷ xs) p q = absurd (omega arith)
    parse_loop-fuel (suc f) (suc g) (x ∷ xs) p q =
        let c = classify decode x xs in
        parse_loop_lem decode f x xs c
        ∙ (go c (λ n h.
              parse_loop-fuel f g (drop n (x ∷ xs)) (omega (arith, length-drop n (x ∷ xs)))
                (omega (arith, length-drop n (x ∷ xs))))
            ∙ sym (parse_loop_lem decode g x xs c))
      where
        go :
            (c : Pass decode x xs)
            → ((n : ℕ)
                → 0 < n
                → parse_loop decode f (drop n (x ∷ xs)) ≡ parse_loop decode g (drop n (x ∷ xs)))
            → parsed_of decode f x xs c ≡ parsed_of decode g x xs c
        go (takes frame n e good) ih = unfold parsed_of in ap (prepend frame) (ih n (ground arith))
        go (overruns frame n e bad) ih = unfold parsed_of in refl
        go (waits e) ih = unfold parsed_of in refl
        go (faults e d h) ih = unfold parsed_of in refl

    parse_nil : parse decode [] ≡ ([], some [])
    unfolding parse parse_loop
    parse_nil = refl

    parse_loop-parse : (f : ℕ) (h : List ℕ) → length h ≤ f → parse_loop decode f h ≡ parse decode h
    unfolding parse
    parse_loop-parse f h p = parse_loop-fuel f (length h) h p (omega arith)

    module _ (laws : DecoderLaws decode) where
      -- A pass over more bytes goes as it went, unless it waited.
      longer :
          (f x : ℕ) (xs ys : List ℕ) (c : Pass decode x xs)
          → length (x ∷ xs) ≤ suc f
          → ((n : ℕ)
              → 0 < n
              → n ≤ length (x ∷ xs)
              → parse_loop decode (f + length ys) (drop n (x ∷ xs) ++ ys)
                ≡ and_parse (parse_loop decode f (drop n (x ∷ xs))) (λ r. parse decode (r ++ ys)))
          → parse_loop decode (suc (f + length ys)) (x ∷ (xs ++ ys))
            ≡ and_parse (parsed_of decode f x xs c) (λ r. parse decode (r ++ ys))
      longer f x xs ys (takes frame n e good) fits ih =
          let more = laws.extends_ok (x ∷ xs) ys frame n e in
          let size = length-append xs ys in
          let n_fits : n ≤ length (x ∷ xs) = ground arith in
          let c : Pass decode x (xs ++ ys) = takes frame n more (ground (arith, size)) in
          parse_loop_lem decode (f + length ys) x (xs ++ ys) c
          ∙ (unfold parsed_of in
              ap (λ r. prepend frame (parse_loop decode (f + length ys) r))
                (drop-append_le n (x ∷ xs) ys n_fits)
              ∙ (ap (prepend frame) (ih n (ground arith) n_fits)
                  ∙ sym (and_parse-prepend frame _ _)))
      longer f x xs ys (overruns frame n e bad) fits ih =
          let more = laws.extends_ok (x ∷ xs) ys frame n e in
          let few = laws.consumes (x ∷ xs) frame n e in
          let c : Pass decode x (xs ++ ys) = overruns frame n more (ground arith) in
          parse_loop_lem decode (f + length ys) x (xs ++ ys) c ∙ (unfold parsed_of in refl)
      longer f x xs ys (waits e) fits ih =
          unfold parsed_of in
          parse_loop-parse (suc (f + length ys)) (x ∷ (xs ++ ys))
            (omega (arith, length-append xs ys))
      longer f x xs ys (faults e d h) fits ih =
          let c : Pass decode x (xs ++ ys) = faults e (laws.extends_err (x ∷ xs) ys e d h) h in
          parse_loop_lem decode (f + length ys) x (xs ++ ys) c ∙ (unfold parsed_of in refl)

      parse_loop-append :
          (f : ℕ) (h ys : List ℕ)
          → length h ≤ f
          → parse_loop decode (f + length ys) (h ++ ys)
            ≡ and_parse (parse_loop decode f h) (λ r. parse decode (r ++ ys))
      parse_loop-append f [] ys p =
          parse_loop-parse (f + length ys) ys (omega arith)
          ∙ ap (λ q. and_parse q (λ r. parse decode (r ++ ys)))
              (sym (parse_loop-parse f [] (omega arith) ∙ parse_nil))
      parse_loop-append zero (x ∷ xs) ys p = absurd (omega arith)
      parse_loop-append (suc f) (x ∷ xs) ys p =
          let c = classify decode x xs in
          ap (λ n. parse_loop decode n (x ∷ (xs ++ ys))) {x = suc f + length ys}
            {y = suc (f + length ys)} (omega arith)
          ∙ (longer f x xs ys c p (λ n h k.
                parse_loop-append f (drop n (x ∷ xs)) ys (omega (arith, length-drop n (x ∷ xs))))
              ∙ ap (λ q. and_parse q (λ r. parse decode (r ++ ys)))
                  (sym (parse_loop_lem decode f x xs c)))

      -- With a decoder that keeps its laws, bytes with more bytes behind them parse to their own frames,
      -- and then to those of what they leave and the bytes behind.
      pub parse-append :
          (h ys : List ℕ)
          → parse decode (h ++ ys) ≡ and_parse (parse decode h) (λ r. parse decode (r ++ ys))
      parse-append h ys =
          sym
            (parse_loop-parse (length h + length ys) (h ++ ys) (omega (arith, length-append h ys)))
          ∙ (parse_loop-append (length h) h ys (omega arith)
              ∙ ap (λ q. and_parse q (λ r. parse decode (r ++ ys)))
                  (parse_loop-parse (length h) h (omega arith)))

    -- The bytes left over hold no frame, and are no more than there were.
    pub data Settled (h : List ℕ) : Parsed T → Type 0 where
      stopped : (frames : List T) → Settled h (frames, none)
      left :
          (frames : List T) (r : List ℕ)
          → parse decode r ≡ ([], some r)
          → length r ≤ length h
          → Settled h (frames, some r)

    prepend-Settled :
        (frame : T) (h h' : List ℕ) (q : Parsed T)
        → length h' ≤ length h
        → Settled h' q
        → Settled h (prepend frame q)
    prepend-Settled frame h h' q le (stopped frames) = stopped (frame ∷ frames)
    prepend-Settled frame h h' q le (left frames r stable few) =
        left (frame ∷ frames) r stable (omega arith)

    parse_loop-Settled : (f : ℕ) (h : List ℕ) → length h ≤ f → Settled h (parse_loop decode f h)
    parse_loop-Settled f [] p =
        subst (Settled []) (sym (parse_loop-parse f [] (omega arith) ∙ parse_nil))
          (left [] [] parse_nil (omega arith))
    parse_loop-Settled zero (x ∷ xs) p = absurd (omega arith)
    parse_loop-Settled (suc f) (x ∷ xs) p =
        let c = classify decode x xs in
        subst (Settled (x ∷ xs)) (sym (parse_loop_lem decode f x xs c)) (
          go c (parse_loop_lem decode f x xs c)
            (λ n h. parse_loop-Settled f (drop n (x ∷ xs)) (omega (arith, length-drop n (x ∷ xs)))))
      where
        go :
            (c : Pass decode x xs)
            → parse_loop decode (suc f) (x ∷ xs) ≡ parsed_of decode f x xs c
            → ((n : ℕ) → 0 < n → Settled (drop n (x ∷ xs)) (parse_loop decode f (drop n (x ∷ xs))))
            → Settled (x ∷ xs) (parsed_of decode f x xs c)
        go (takes frame n e good) run ih =
            unfold parsed_of in
            prepend-Settled frame (x ∷ xs) (drop n (x ∷ xs)) _
              (omega (arith, length-drop n (x ∷ xs))) (ih n (ground arith))
        go (overruns frame n e bad) run ih = unfold parsed_of in stopped []
        go (waits e) run ih =
            unfold parsed_of in
            left [] (x ∷ xs)
              (sym (parse_loop-parse (suc f) (x ∷ xs) p) ∙ (run ∙ (unfold parsed_of in refl)))
              (omega arith)
        go (faults e d h) run ih = unfold parsed_of in stopped []

    pub parse-Settled : (h : List ℕ) → Settled h (parse decode h)
    parse-Settled h =
        subst (Settled h) (parse_loop-parse (length h) h (omega arith))
          (parse_loop-Settled (length h) h (omega arith))
