-- ===== src/Comms/Ends.antt =====
-- hal/src/comms.rs: the loop of `drain` ends, whatever is held and whatever the decoder answers.
use cold_snap.Prelude.{
  ℕ, zero, suc, ◌≤◌, ◌≡◌, inl, inr, refl, ap, true, false, ◌||◌, [], sym, ◌∙◌, Result, ok, err,
  arith, ◌==◌, ltb, take, List, Bool-cases,
}
use cold_snap.Comms.{
  Link, DecodeError, unexpected_end, limit_exceeded, other, dispatch, advance, drain_loop, drain,
}

module _ {T : Type 0} (decode : List ℕ → Result (T × ℕ) DecodeError) where
  -- A pass of two loops that go on alike.
  pass_lem :
      (f g : ℕ) (l : Link)
      → (l.rx_len == 0) ≡ false
      → ((n : ℕ)
          → (n == 0 || ltb l.rx_len n) ≡ false
          → drain_loop decode f (advance n l) ≡ drain_loop decode g (advance n l))
      → (answer : Result (T × ℕ) DecodeError) → decode (take l.rx_len l.rx) ≡ answer
      → drain_loop decode (suc f) l ≡ drain_loop decode (suc g) l
  unfolding drain_loop
  pass_lem f g l some_held next (ok (frame, n)) e = elim (Bool-cases (n == 0 || ltb l.rx_len n)) [
    | inl bad ↦ rw (some_held, e, bad) refl
    | inr good ↦ rw (some_held, e, good) (ap (dispatch frame) (next n good))
  ]
  pass_lem f g l some_held next (err unexpected_end) e = rw (some_held, e) refl
  pass_lem f g l some_held next (err limit_exceeded) e = rw (some_held, e) refl
  pass_lem f g l some_held next (err other) e = rw (some_held, e) refl

  nothing_held :
      (f : ℕ) (l : Link) → (l.rx_len == 0) ≡ true → drain_loop decode f l ≡ ([], ok tt, l)
  unfolding drain_loop
  nothing_held zero l none_held = refl
  nothing_held (suc f) l none_held = rw none_held refl

  left_lem :
      (f n : ℕ) (l : Link)
      → (l.rx_len == 0) ≡ false
      → (n == 0 || ltb l.rx_len n) ≡ false
      → l.rx_len ≤ suc f
      → (advance n l).rx_len ≤ f
  unfolding advance
  left_lem f n l some_held good h = ground arith

  fuel_lem :
      (f g : ℕ) (l : Link)
      → l.rx_len ≤ f
      → l.rx_len ≤ g
      → drain_loop decode f l ≡ drain_loop decode g l
  fuel_lem zero g l hf hg =
      let none_held : (l.rx_len == 0) ≡ true = ground arith in
      nothing_held zero l none_held ∙ sym (nothing_held g l none_held)
  fuel_lem (suc f) zero l hf hg =
      let none_held : (l.rx_len == 0) ≡ true = ground arith in
      nothing_held (suc f) l none_held ∙ sym (nothing_held zero l none_held)
  fuel_lem (suc f) (suc g) l hf hg = elim (Bool-cases (l.rx_len == 0)) [
    | inl none_held ↦ nothing_held (suc f) l none_held ∙ sym (nothing_held (suc g) l none_held)
    | inr some_held ↦
        pass_lem f g l some_held
          (λ n good.
            fuel_lem f g (advance n l) (left_lem f n l some_held good hf)
              (left_lem g n l some_held good hg))
          (decode (take l.rx_len l.rx)) refl
  ]

  -- For every link and every decoder: any fuel that covers the count of the held bytes gives what `drain` gives,
  -- so that its loop ends within that many passes.
  pub drain_loop-fuel :
      (fuel : ℕ) (l : Link) → l.rx_len ≤ fuel → drain_loop decode fuel l ≡ drain decode l
  unfolding drain
  drain_loop-fuel fuel l h = fuel_lem fuel l.rx_len l h (omega arith)
