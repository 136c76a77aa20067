-- ===== src/Store/Names.antt =====
-- firmware/src/store.rs, `truncate_name`: the first fifteen characters, in their array.
use cold_snap.Prelude.{
  ℕ, zero, suc, ◌+◌, ◌*◌, ◌%◌, ◌≤◌, ◌≡◌, refl, sym, ap, ◌∙◌, List, [], ◌∷◌, ◌++◌, Option, none,
  some, length, take, copy_into, replicate, arith, length-append, length-replicate,
  length-copy_into, take-copy_into,
}
use cold_snap.Store.{Text, concat, nth_index, name_end, truncate_name}

-- Each character has a property.
abbrev pub AllChars : (List ℕ → Type 0) → Text → Type 0
AllChars P [] = Unit {0}
AllChars P (c ∷ cs) = P c × AllChars P cs

pub AllChars-take : (P : List ℕ → Type 0) (n : ℕ) (t : Text) → AllChars P t → AllChars P (take n t)
AllChars-take P zero t h = tt
AllChars-take P (suc n) [] h = tt
AllChars-take P (suc n) (c ∷ cs) h = (h.0, AllChars-take P n cs h.1)

end_shift :
    (c : List ℕ) (o : Option ℕ) (whole : ℕ)
    → name_end
        (elim o as (λ _. Option ℕ) [ none ↦ none | some i ↦ some (length c + i) ])
        (length c + whole)
      ≡ length c + name_end o whole
unfolding name_end
end_shift c none whole = refl
end_shift c (some i) whole = refl

-- The cut is where the first `n` characters end.
end_lem :
    (n : ℕ) (t : Text) → name_end (nth_index n t) (length (concat t)) ≡ length (concat (take n t))
unfolding nth_index concat name_end
end_lem zero [] = refl
end_lem (suc n) [] = refl
end_lem zero (c ∷ cs) = refl
end_lem (suc n) (c ∷ cs) =
    ap (name_end (nth_index (suc n) (c ∷ cs))) (length-append c (concat cs))
    ∙ end_shift c (nth_index n cs) (length (concat cs))
    ∙ ap (λ m. length c + m) (end_lem n cs)
    ∙ sym (length-append c (concat (take n cs)))

take-append_more :
    (c : List ℕ) (k : ℕ) (ys : List ℕ) → take (length c + k) (c ++ ys) ≡ c ++ take k ys
take-append_more [] k ys = ap (λ n. take n ys) {x = 0 + k} {y = k} (omega arith)
take-append_more (b ∷ bs) k ys =
    ap (λ n. take n (b ∷ (bs ++ ys))) {x = suc (length bs) + k} {y = suc (length bs + k)}
      (omega arith)
    ∙ ap (λ xs. b ∷ xs) (take-append_more bs k ys)

prefix : (n : ℕ) (t : Text) → take (length (concat (take n t))) (concat t) ≡ concat (take n t)
unfolding concat
prefix zero t = refl
prefix (suc n) [] = refl
prefix (suc n) (c ∷ cs) =
    ap (λ k. take k (c ++ concat cs)) (length-append c (concat (take n cs)))
    ∙ take-append_more c (length (concat (take n cs))) (concat cs)
    ∙ ap (λ xs. c ++ xs) (prefix n cs)

-- A character has at most four bytes.
length-concat_le :
    (P : List ℕ → Type 0)
    → ((c : List ℕ) → P c → length c ≤ 4)
    → (n : ℕ) (t : Text) → AllChars P t
    → length (concat (take n t)) ≤ 4 * n
unfolding concat
length-concat_le P size zero t h = omega arith
length-concat_le P size (suc n) [] h = omega arith
length-concat_le P size (suc n) (c ∷ cs) h =
    omega
      (arith, length-append c (concat (take n cs)), size c h.0, length-concat_le P size n cs h.1)

module _ (P : List ℕ → Type 0) (size : (c : List ℕ) → P c → length c ≤ 4) (t : Text)
    (chars : AllChars P t) where
  abbrev cut : List ℕ
  cut = concat (take 15 t)

  short : length cut ≤ 60
  short = length-concat_le P size 15 t chars

  cut_lem : take (name_end (nth_index 15 t) (length (concat t))) (concat t) ≡ cut
  cut_lem = ap (λ n. take n (concat t)) (end_lem 15 t) ∙ prefix 15 t

  pub truncate_name_lem :
      truncate_name t
      ≡ (copy_into (replicate 60 0) 0 (concat (take 15 t)), length (concat (take 15 t)))
  unfolding truncate_name
  truncate_name_lem =
      ap (λ bytes. (copy_into (replicate 60 0) 0 bytes, length bytes % 256)) cut_lem
      ∙ ap (λ n. (copy_into (replicate 60 0) 0 cut, n)) (omega (arith, short))

  pub name_short : length (concat (take 15 t)) ≤ 60
  name_short = short

  pub length-name : length (copy_into (replicate 60 0) 0 (concat (take 15 t))) ≡ 60
  length-name =
      let zeros : length (replicate {A = ℕ} 60 0) ≡ 60 = length-replicate {A = ℕ} 60 0 in
      length-copy_into (replicate 60 0) 0 cut (omega (arith, zeros, short)) ∙ zeros

  -- The array holds the cut name.
  pub take-name :
      take (length (concat (take 15 t))) (copy_into (replicate 60 0) 0 (concat (take 15 t)))
      ≡ concat (take 15 t)
  take-name =
      let zeros : length (replicate {A = ℕ} 60 0) ≡ 60 = length-replicate {A = ℕ} 60 0 in
      take-copy_into (replicate 60 0) 0 (length cut) cut (omega (arith, zeros, short)) (omega arith)
