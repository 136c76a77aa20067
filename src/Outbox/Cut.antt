-- ===== src/Outbox/Cut.antt =====
-- firmware/src/lib.rs, `truncate_debug`: where a text is cut.
use cold_snap.Prelude.{
  ℕ, zero, suc, ◌+◌, ◌-◌, ◌≤◌, ◌<◌, ◌≡◌, inl, inr, refl, sym, ap, ◌∙◌, true, false, List, [], ◌∷◌,
  ◌++◌, leb, length, arith, length-append, leb→le, le→leb, lt→leb, Bool-cases,
}
use native.Mathlib.Decide.{dec_lt}
use cold_snap.Store.{Text, concat}
use cold_snap.Outbox.{back_up, truncate, truncate_debug, is_char_boundary}

-- The characters of a text up to the first that goes past so many bytes.
pub data IsCut (limit : ℕ) (message cut : Text) : Type 0 where
  whole : message ≡ cut → length (concat cut) ≤ limit → IsCut limit message cut
  cut_at :
      (c : List ℕ) (rest : Text)
      → message ≡ cut ++ c ∷ rest
      → length (concat cut) ≤ limit
      → limit < length (concat cut) + length c
      → IsCut limit message cut

cons_lem :
    (n : ℕ) (c : List ℕ) (cs cut : Text)
    → length c ≤ n
    → IsCut (n - length c) cs cut
    → IsCut n (c ∷ cs) (c ∷ cut)
unfolding concat
cons_lem n c cs cut h (whole e k) =
    whole (ap (λ t. c ∷ t) e) (omega (arith, h, k, length-append c (concat cut)))
cons_lem n c cs cut h (cut_at d rest e k over) =
    cut_at d rest (ap (λ t. c ∷ t) e) (omega (arith, h, k, length-append c (concat cut)))
      (omega (arith, h, over, length-append c (concat cut)))

truncate-IsCut : (n : ℕ) (t : Text) → IsCut n t (truncate n t)
unfolding truncate concat
truncate-IsCut n [] = whole refl (omega arith)
truncate-IsCut n (c ∷ cs) = elim (Bool-cases (leb (length c) n)) [
  | inl e ↦ rw e (
      cons_lem n c cs (truncate (n - length c) cs) (leb→le (length c) n e)
        (truncate-IsCut (n - length c) cs))
  | inr e ↦ rw e (cut_at c cs refl (omega arith) (ground (arith, e)))
]

boundary_zero : (t : Text) → is_char_boundary 0 t ≡ true
unfolding is_char_boundary
boundary_zero [] = refl
boundary_zero (c ∷ cs) = refl

-- Behind a character that fits, a boundary is one of the rest.
behind_lem :
    (n : ℕ) (c : List ℕ) (cs : Text)
    → length c ≤ suc n
    → is_char_boundary (suc n) (c ∷ cs) ≡ false
    → is_char_boundary (suc n - length c) cs ≡ false
unfolding is_char_boundary
behind_lem n c cs fits h = ground (arith, fits, h)

-- A byte more is no character more, off a boundary.
truncate_between :
    (n : ℕ) (t : Text) → is_char_boundary (suc n) t ≡ false → truncate (suc n) t ≡ truncate n t
unfolding truncate is_char_boundary
truncate_between n [] h = refl
truncate_between n (c ∷ cs) h = elim (dec_lt n (length c)) [
  | no fits ↦
      let more : suc n - length c ≡ suc (n - length c) = omega (arith, fits) in
      let off : is_char_boundary (suc (n - length c)) cs ≡ false =
        ap (λ m. is_char_boundary m cs) (sym more) ∙ behind_lem n c cs (omega (arith, fits)) h in
      rw
        (
          le→leb (length c) (suc n) (omega (arith, fits)),
          le→leb (length c) n (omega (arith, fits)),
          more,
          truncate_between (n - length c) cs off,
        )
        refl
  | yes over ↦ elim (dec_lt (suc n) (length c)) [
    | yes far ↦ rw (lt→leb (length c) (suc n) far, lt→leb (length c) n over) refl
    | no near ↦
        let none_left : suc n - length c ≡ 0 = omega (arith, over) in
        absurd (
          cc (
            behind_lem n c cs (omega (arith, near)) h,
            ap (λ m. is_char_boundary m cs) none_left,
            boundary_zero cs,
          ))
  ]
]

truncate-back_up : (n : ℕ) (t : Text) → truncate (back_up n t) t ≡ truncate n t
unfolding back_up
truncate-back_up zero t = refl
truncate-back_up (suc n) t = elim (Bool-cases (is_char_boundary (suc n) t)) [
  | inl e ↦ rw e refl
  | inr e ↦ rw e (truncate-back_up n t ∙ sym (truncate_between n t e))
]

pub truncate_debug-IsCut : (message : Text) → IsCut 256 message (truncate_debug message)
unfolding truncate_debug
truncate_debug-IsCut message = elim (Bool-cases (leb (length (concat message)) 256)) [
  | inl e ↦ rw e (whole refl (leb→le (length (concat message)) 256 e))
  | inr e ↦ rw (e, truncate-back_up 256 message) (truncate-IsCut 256 message)
]
