-- ===== src/Comms/Buffer.antt =====
-- hal/src/comms.rs: the reassembly buffer of a link, by the bytes that it holds.
use cold_snap.Prelude.{
  ℕ, zero, suc, ◌+◌, ◌-◌, ◌≤◌, ◌≡◌, refl, sym, ap, ◌∙◌, true, false, ◌||◌, List, [], ◌∷◌, none,
  some, ◌++◌, Result, ok, err, arith, ◌==◌, ltb, length, take, drop, slice, subst, take-copy_into,
  length-copy_into, length-take, length-drop, drop-take,
}
use cold_snap.Comms.{
  Link, advance, buffer, drain_loop, drain, unlink, Polled, dispatch, desync, unexpected_end,
  limit_exceeded, other, DecodeError,
}
use cold_snap.Comms.Parse.{
  Parsed, parse_loop, parse, prepend, Pass, takes, overruns, waits, faults, classify, parsed_of,
  parse_loop_lem,
}

abbrev pub held : Link → List ℕ
held l = take l.rx_len l.rx

-- The array has its full length, and the count stays inside it.
pub record IsBounded (l : Link) : Type 0 where
  pub size : length l.rx ≡ 4096
  pub fits : l.rx_len ≤ 4096

-- What a call leaves: a bounded link, and after an error nothing of the old stream.
pub data Leaves {T : Type 0} (before : Link) : Polled T → Type 0 where
  kept :
      (frames : List T) (l : Link)
      → IsBounded l
      → l.linked ≡ before.linked
      → Leaves before (frames, ok tt, l)
  dropped :
      (frames : List T) (l : Link) → IsBounded l → Leaves before (frames, err desync, unlink l)

pub length-held : (l : Link) → IsBounded l → length (held l) ≡ l.rx_len
length-held l b = omega (arith, length-take l.rx_len l.rx, b.size, b.fits)

length-slice : (l : Link) (n : ℕ) → IsBounded l → length (slice n l.rx_len l.rx) ≡ l.rx_len - n
unfolding slice
length-slice l n b =
    omega (arith, length-take (l.rx_len - n) (drop n l.rx), length-drop n l.rx, b.size, b.fits)

advance-IsBounded : (n : ℕ) (l : Link) → IsBounded l → n ≤ l.rx_len → IsBounded (advance n l)
unfolding advance
advance-IsBounded n l b h = record {
  size =
      length-copy_into l.rx 0 (slice n l.rx_len l.rx)
        (omega (arith, length-slice l n b, b.size, b.fits))
      ∙ b.size;
  fits = omega (arith, b.fits);
}

held-advance :
    (n : ℕ) (l : Link) → IsBounded l → n ≤ l.rx_len → held (advance n l) ≡ drop n (held l)
unfolding advance slice
held-advance n l b h =
    take-copy_into l.rx 0 (l.rx_len - n) (slice n l.rx_len l.rx)
      (omega (arith, length-slice l n b, b.size, b.fits)) (omega (arith, length-slice l n b))
    ∙ sym (drop-take n l.rx_len l.rx)

pub buffer-IsBounded :
    (bytes : List ℕ) (l : Link)
    → IsBounded l
    → l.rx_len + length bytes ≤ 4096
    → IsBounded (buffer bytes l)
unfolding buffer
buffer-IsBounded bytes l b h = record {
  size = length-copy_into l.rx l.rx_len bytes (omega (arith, b.size)) ∙ b.size;
  fits = h;
}

pub held-buffer :
    (bytes : List ℕ) (l : Link)
    → IsBounded l
    → l.rx_len + length bytes ≤ 4096
    → held (buffer bytes l) ≡ held l ++ bytes
unfolding buffer
held-buffer bytes l b h =
    take-copy_into l.rx l.rx_len (l.rx_len + length bytes) bytes (omega (arith, b.size)) refl

-- What a call shows of the bytes: its frames, and the bytes that it leaves unless it failed.
abbrev pub seen : {T : Type 0} → Polled T → Parsed T
seen (frames, ok _, l) = (frames, some (held l))
seen (frames, err e, l) = (frames, none)

seen-dispatch :
    {T : Type 0} (frame : T) (p : Polled T) → seen (dispatch frame p) ≡ prepend frame (seen p)
seen-dispatch frame (frames, ok _, l) = refl
seen-dispatch frame (frames, err e, l) = refl

dispatch-Leaves :
    {T : Type 0} (frame : T) (before l : Link) (p : Polled T)
    → before.linked ≡ l.linked
    → Leaves l p
    → Leaves before (dispatch frame p)
dispatch-Leaves frame before l p same (kept frames l' b e) =
    kept (frame ∷ frames) l' b (e ∙ sym same)
dispatch-Leaves frame before l p same (dropped frames l' b) = dropped (frame ∷ frames) l' b

data Outcome {T : Type 0} (l : Link) (p : Polled T) (q : Parsed T) : Type 0 where
  outcome : seen p ≡ q → Leaves l p → Outcome l p q

module _ {T : Type 0} (decode : List ℕ → Result (T × ℕ) DecodeError) where
  drained_of : ℕ → (l : Link) (x : ℕ) (xs : List ℕ) → Pass decode x xs → Polled T
  drained_of fuel l x xs (takes frame n _ _) = dispatch frame (drain_loop decode fuel (advance n l))
  drained_of fuel l x xs (waits _) = ([], ok tt, l)
  drained_of fuel l x xs _ = ([], err desync, unlink l)

  drained :
      (fuel : ℕ) (l : Link) (x : ℕ) (xs : List ℕ) (p : Pass decode x xs)
      → held l ≡ x ∷ xs
      → length (x ∷ xs) ≡ l.rx_len
      → (l.rx_len == 0) ≡ false
      → drain_loop decode (suc fuel) l ≡ drained_of fuel l x xs p
  unfolding drain_loop drained_of
  drained fuel l x xs (takes frame n d good) e len nz =
      let go : (n == 0 || ltb l.rx_len n) ≡ false =
        subst (λ m. (n == 0 || ltb m n) ≡ false) len good in
      let shown : decode (take l.rx_len l.rx) ≡ ok (frame, n) = ap decode e ∙ d in
      rw nz (rw shown (rw go refl))
  drained fuel l x xs (overruns frame n d bad) e len nz =
      let go : (n == 0 || ltb l.rx_len n) ≡ true =
        subst (λ m. (n == 0 || ltb m n) ≡ true) len bad in
      let shown : decode (take l.rx_len l.rx) ≡ ok (frame, n) = ap decode e ∙ d in
      rw nz (rw shown (rw go refl))
  drained fuel l x xs (waits d) e len nz =
      let shown : decode (take l.rx_len l.rx) ≡ err unexpected_end = ap decode e ∙ d in
      rw nz (rw shown refl)
  drained fuel l x xs (faults unexpected_end d h) e len nz = absurd (h refl)
  drained fuel l x xs (faults limit_exceeded d h) e len nz =
      let shown : decode (take l.rx_len l.rx) ≡ err limit_exceeded = ap decode e ∙ d in
      rw nz (rw shown refl)
  drained fuel l x xs (faults other d h) e len nz =
      let shown : decode (take l.rx_len l.rx) ≡ err other = ap decode e ∙ d in rw nz (rw shown refl)

  Shows : Link → Polled T → Parsed T → Type 0
  Shows l p q = (seen p ≡ q) × Leaves l p

  -- One pass, given what the passes after it show.
  pass_lem :
      (fuel : ℕ) (l : Link) (x : ℕ) (xs : List ℕ)
      → IsBounded l
      → held l ≡ x ∷ xs
      → length (x ∷ xs) ≡ l.rx_len
      → ((n : ℕ)
          → n ≤ l.rx_len
          → Shows
              (advance n l)
              (drain_loop decode fuel (advance n l))
              (parse_loop decode fuel (drop n (x ∷ xs))))
      → (p : Pass decode x xs) → Shows l (drained_of fuel l x xs p) (parsed_of decode fuel x xs p)
  unfolding Shows drained_of parsed_of
  pass_lem fuel l x xs b e len next (takes frame n d good) =
      let (shown, left) = next n (ground (arith, len)) in
      (
        seen-dispatch frame _ ∙ ap (prepend frame) shown,
        dispatch-Leaves frame l (advance n l) _ (unfold advance in refl) left,
      )
  pass_lem fuel l x xs b e len next (overruns frame n d bad) = (refl, dropped [] l b)
  pass_lem fuel l x xs b e len next (waits d) = (ap (λ h. ([], some h)) e, kept [] l b refl)
  pass_lem fuel l x xs b e len next (faults _ d h) = (refl, dropped [] l b)

  drain_loop_lem :
      (fuel : ℕ) (l : Link) (h : List ℕ)
      → IsBounded l
      → held l ≡ h
      → Shows l (drain_loop decode fuel l) (parse_loop decode fuel h)
  unfolding Shows
  drain_loop_lem zero l h b e =
      unfold drain_loop in unfold parse_loop in (ap (λ xs. ([], some xs)) e, kept [] l b refl)
  drain_loop_lem (suc fuel) l [] b e =
      let none_held : l.rx_len ≡ 0 = sym (length-held l b) ∙ ap length e in
      let z : (l.rx_len == 0) ≡ true = ground arith in
      unfold drain_loop in
      unfold parse_loop in
      subst (λ p. Shows l p ([], some [])) {x = ([], ok tt, l)} (sym (rw z refl))
        (ap (λ xs. ([], some xs)) e, kept [] l b refl)
  drain_loop_lem (suc fuel) l (x ∷ xs) b e =
      let p = classify decode x xs in
      let len : length (x ∷ xs) ≡ l.rx_len = sym (ap length e) ∙ length-held l b in
      subst (λ q. Shows l q (parse_loop decode (suc fuel) (x ∷ xs)))
        (sym (drained fuel l x xs p e len (ground arith)))
        (subst (Shows l (drained_of fuel l x xs p)) (sym (parse_loop_lem decode fuel x xs p)) (
          pass_lem fuel l x xs b e len
            (λ n h.
              drain_loop_lem fuel (advance n l) (drop n (x ∷ xs)) (advance-IsBounded n l b h)
                (held-advance n l b h ∙ ap (drop n) e))
            p))

  -- On a bounded link, `drain` dispatches exactly the frames that the held bytes parse to and holds
  -- the rest of them, or stops where they do not parse. It leaves a bounded link whose `linked` flag
  -- is as before, or, with the error `desync`, an unlinked and empty one.
  pub drain-parse :
      (l : Link)
      → IsBounded l
      → (seen (drain decode l) ≡ parse decode (held l)) × Leaves l (drain decode l)
  unfolding drain parse Shows
  drain-parse l b =
      subst (λ n. Shows l (drain_loop decode l.rx_len l) (parse_loop decode n (held l)))
        (sym (length-held l b)) (drain_loop_lem l.rx_len l (held l) b refl)
