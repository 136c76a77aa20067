-- ===== src/Rng/Health.antt =====
-- hal/src/rng.rs: no seed without three sources that pass their tests.
use cold_snap.Prelude.{
  ℕ, zero, suc, ◌<◌, ◌≡◌, ◌≢◌, ◌↔◌, inl, inr, refl, ◌∙◌, subst, true, false, List, [], ◌∷◌, none,
  some, ok, ◌==◌, ==_iff, length, get_elem?, arith, Bool-cases, Option-cases,
}
use cold_snap.Prelude.Bytes.{bytes_eq, eq_of_bytes_eq, bytes_eq_self}
use cold_snap.Rng.{all_equal, chunks_exact4, same_later, repeated, check_words, check_source}

-- No word of a list comes twice.
abbrev Different : List (List ℕ) → Type 0
Different words =
    (i j : ℕ) (u v : List ℕ)
    → i < j
    → get_elem? words i ≡ some u
    → get_elem? words j ≡ some v
    → u ≢ v

-- What a healthy draw is: as long as it should be and not empty, not one byte over and over, and no
-- word of four bytes twice.
abbrev pub IsHealthy : List ℕ → ℕ → Type 0
IsHealthy bytes n =
    (length bytes ≡ n)
    × (0 < n)
    × ((b : ℕ) → all_equal b bytes ≢ true)
    × Different (chunks_exact4 bytes)

same_later-none :
    (word : List ℕ) (k : ℕ) (words : List (List ℕ))
    → (same_later word k words ≡ none)
      ↔ ((j : ℕ) (v : List ℕ) → get_elem? words j ≡ some v → word ≢ v)
unfolding same_later
same_later-none word k [] = (λ _ j v h e. cc h, λ _. refl)
same_later-none word k (other ∷ words) = elim (Bool-cases (bytes_eq word other)) [
  | inl same ↦
      rw same
        ((λ h. absurd (cc h)), (λ h. absurd (h 0 other refl (eq_of_bytes_eq word other same))))
  | inr apart ↦
      let ih = same_later-none word (suc k) words in
      rw apart ((λ h. later apart (ih.0 h)), (λ h. ih.1 (λ j v at. h (suc j) v at)))
]
  where
    later :
        bytes_eq word other ≡ false
        → ((j : ℕ) (v : List ℕ) → get_elem? words j ≡ some v → word ≢ v)
        → (j : ℕ) (v : List ℕ) → get_elem? (other ∷ words) j ≡ some v
        → word ≢ v
    later apart h zero v at e =
        let same : word ≡ other = cc (at, e) in
        cc (apart, subst (λ w. bytes_eq word w ≡ true) same (bytes_eq_self word))
    later apart h (suc j) v at e = h j v at e

Different-cons :
    (word : List ℕ) (words : List (List ℕ))
    → ((j : ℕ) (v : List ℕ) → get_elem? words j ≡ some v → word ≢ v)
    → Different words
    → Different (word ∷ words)
Different-cons word words first rest i zero u v h a b = absurd (omega arith)
Different-cons word words first rest zero (suc j) u v h a b =
    let same : word ≡ u = cc a in λ e. first j v b (same ∙ e)
Different-cons word words first rest (suc i) (suc j) u v h a b = rest i j u v (omega arith) a b

repeated-none : (i : ℕ) (words : List (List ℕ)) → (repeated i words ≡ none) ↔ Different words
unfolding repeated
repeated-none i [] = (λ _ m n u v h a b. absurd (cc a), λ _. refl)
repeated-none i (word ∷ words) =
    let ih = repeated-none (suc i) words in
    let here = same_later-none word 0 words in
    elim (Option-cases (same_later word 0 words)) [
      | inr (k, found) ↦
          let clash = λ (d : Different (word ∷ words)).
            here.1 (λ j v at. d 0 (suc j) word v (omega arith) refl at) in
          rw (found, repeated)
            (
              (λ h. absurd (cc h)),
              (λ d. let none_found = clash d in absurd (cc (found, none_found))),
            )
      | inl unique ↦
          rw (unique, repeated)
            (
              (λ h. Different-cons word words (here.0 unique) (ih.0 h)),
              (λ d. ih.1 (λ m n u v h a b. d (suc m) (suc n) u v (omega arith) a b)),
            )
    ]

all_equal-first : (first b : ℕ) (bytes : List ℕ) → all_equal b (first ∷ bytes) ≡ true → b ≡ first
unfolding all_equal
all_equal-first first b bytes h = ground (arith, h)

check_words_iff : (bytes : List ℕ) → (check_words bytes ≡ ok tt) ↔ Different (chunks_exact4 bytes)
unfolding check_words
check_words_iff bytes =
    let all = repeated-none 0 (chunks_exact4 bytes) in
    elim (Option-cases (repeated 0 (chunks_exact4 bytes))) [
      | inl unique ↦ rw (unique, check_words) ((λ _. all.0 unique), (λ _. refl))
      | inr (k, found) ↦
          rw (found, check_words)
            ((λ h. absurd (cc h)), (λ d. let unique = all.1 d in absurd (cc (found, unique))))
    ]

-- A draw is accepted exactly where it is healthy.
pub check_source_iff : (bytes : List ℕ) (n : ℕ) → (check_source bytes n ≡ ok tt) ↔ IsHealthy bytes n
unfolding check_source
check_source_iff [] n = ((λ h. absurd (cc h)), (λ h. absurd (omega (arith, h.0, h.1))))
check_source_iff (first ∷ bytes) n = elim (Bool-cases (length (first ∷ bytes) == n)) [
  | inr other ↦
      rw other (
        (λ h. absurd (cc h)),
        (λ h. absurd (cc (other, (==_iff (length (first ∷ bytes)) n).1 h.0))),
      )
  | inl long ↦ rw long (elim (Bool-cases (all_equal first (first ∷ bytes))) [
    | inl stuck ↦ rw stuck ((λ h. absurd (cc h)), (λ h. absurd (h.2 first stuck)))
    | inr varied ↦
        let words = check_words_iff (first ∷ bytes) in
        let size = (==_iff (length (first ∷ bytes)) n).0 long in
        rw varied (
          (λ h. (
            size,
            omega (arith, size),
            (λ b e. cc (
              varied,
              subst (λ x. all_equal x (first ∷ bytes) ≡ true) (all_equal-first first b bytes e) e,
            )),
            words.0 h,
          )),
          (λ h. words.1 h.3),
        )
  ])
]
