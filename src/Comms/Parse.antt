-- ===== src/Comms/Parse.antt =====
-- What hal/src/comms.rs `drain` makes of the bytes that a link holds, as a function of those bytes
-- alone, and what the decoder promises for it.
use cold_snap.Prelude.{
  ℕ, zero, suc, ◌≤◌, ◌≡◌, ◌≢◌, refl, true, false, ◌||◌, Option, none, some, List, [], ◌∷◌, ◌++◌,
  Result, ok, err, arith, ◌==◌, ltb, if◌then◌else◌, length, drop, Result-cases, Bool-cases, inl,
  inr,
}
use cold_snap.Comms.{DecodeError, unexpected_end, limit_exceeded, other}

-- The frames of some bytes, and the bytes left over; `none` where the stream cannot be parsed.
abbrev pub Parsed : Type 0 → Type 0
Parsed T = List T × Option (List ℕ)

abbrev pub and_parse : {T : Type 0} → Parsed T → (List ℕ → Parsed T) → Parsed T
and_parse (frames, none) next = (frames, none)
and_parse (frames, some rest) next = let (more, left) = next rest in (frames ++ more, left)

abbrev pub prepend : {T : Type 0} → T → Parsed T → Parsed T
prepend frame (frames, left) = (frame ∷ frames, left)

-- What bincode documents of `decode_from_slice`: it reads from the front, and no more than it says.
-- So more bytes behind change neither a value nor a fault, except that the bytes ended.
pub record DecoderLaws {T : Type 0} (decode : List ℕ → Result (T × ℕ) DecodeError) : Type 0 where
  pub consumes : (xs : List ℕ) (frame : T) (n : ℕ) → decode xs ≡ ok (frame, n) → n ≤ length xs
  pub extends_ok :
      (xs ys : List ℕ) (frame : T) (n : ℕ)
      → decode xs ≡ ok (frame, n)
      → decode (xs ++ ys) ≡ ok (frame, n)
  pub extends_err :
      (xs ys : List ℕ) (e : DecodeError)
      → decode xs ≡ err e
      → e ≢ unexpected_end
      → decode (xs ++ ys) ≡ err e

module _ {T : Type 0} (decode : List ℕ → Result (T × ℕ) DecodeError) where
  -- On fuel: a frame takes at least one byte.
  unfoldable pub parse_loop : ℕ → List ℕ → Parsed T
  parse_loop zero held = ([], some held)
  parse_loop (suc fuel) [] = ([], some [])
  parse_loop (suc fuel) (b ∷ bs) = elim (decode (b ∷ bs)) [
    | ok (frame, n) ↦
        let rest = parse_loop fuel (drop n (b ∷ bs)) in
        if n == 0 || ltb (length (b ∷ bs)) n then ([], none) else prepend frame rest
    | err unexpected_end ↦ ([], some (b ∷ bs))
    | err _ ↦ ([], none)
  ]

  unfoldable pub parse : List ℕ → Parsed T
  parse held = parse_loop (length held) held

  -- How one pass over bytes that are there goes.
  pub data Pass (x : ℕ) (xs : List ℕ) : Type 0 where
    takes :
        (frame : T) (n : ℕ)
        → decode (x ∷ xs) ≡ ok (frame, n)
        → (n == 0 || ltb (length (x ∷ xs)) n) ≡ false
        → Pass x xs
    overruns :
        (frame : T) (n : ℕ)
        → decode (x ∷ xs) ≡ ok (frame, n)
        → (n == 0 || ltb (length (x ∷ xs)) n) ≡ true
        → Pass x xs
    waits : decode (x ∷ xs) ≡ err unexpected_end → Pass x xs
    faults : (e : DecodeError) → decode (x ∷ xs) ≡ err e → e ≢ unexpected_end → Pass x xs

  pub classify : (x : ℕ) (xs : List ℕ) → Pass x xs
  classify x xs = elim (Result-cases (decode (x ∷ xs))) [
    | inl ((frame, n), e) ↦ elim (Bool-cases (n == 0 || ltb (length (x ∷ xs)) n)) [
      | inl bad ↦ overruns frame n e bad
      | inr good ↦ takes frame n e good
    ]
    | inr (unexpected_end, e) ↦ waits e
    | inr (limit_exceeded, e) ↦ faults limit_exceeded e (ground arith)
    | inr (other, e) ↦ faults other e (ground arith)
  ]

  -- What `parse_loop` makes of such a pass.
  unfoldable pub parsed_of : ℕ → (x : ℕ) (xs : List ℕ) → Pass x xs → Parsed T
  parsed_of fuel x xs (takes frame n _ _) = prepend frame (parse_loop fuel (drop n (x ∷ xs)))
  parsed_of fuel x xs (waits _) = ([], some (x ∷ xs))
  parsed_of fuel x xs _ = ([], none)

  pub parse_loop_lem :
      (fuel x : ℕ) (xs : List ℕ) (p : Pass x xs)
      → parse_loop (suc fuel) (x ∷ xs) ≡ parsed_of fuel x xs p
  unfolding parse_loop parsed_of
  parse_loop_lem fuel x xs (takes frame n e good) = rw (e, parse_loop) (rw good refl)
  parse_loop_lem fuel x xs (overruns frame n e bad) = rw (e, parse_loop) (rw bad refl)
  parse_loop_lem fuel x xs (waits e) = rw (e, parse_loop) refl
  parse_loop_lem fuel x xs (faults unexpected_end e h) = absurd (h refl)
  parse_loop_lem fuel x xs (faults limit_exceeded e h) = rw (e, parse_loop) refl
  parse_loop_lem fuel x xs (faults other e h) = rw (e, parse_loop) refl
