-- ===== src/Tests/Quiz.antt =====
-- firmware/src/quiz.rs at concrete words, over a generator that counts.
use cold_snap.Prelude.{
  ℕ, ◌+◌, ◌*◌, ◌%◌, ◌≡◌, ◌≢◌, ◌⊎◌, inl, inr, refl, sym, ◌∙◌, subst, true, false, List, [], ◌∷◌,
  ◌++◌, ok, arith, length, replicate, Bool-cases, copy_into,
}
use cold_snap.Prelude.Bytes.{bytes_eq, eq_of_bytes_eq, bytes_eq_self}
use cold_snap.Wordentry.Laws.{Among}
use cold_snap.Quiz.{
  Quiz, contains, new, passed, draw_order, all_bip39, is_bip39, draw_options, draw_distinct,
  draw_loop, shuffle, shuffle_loop, below, positions, mix, known, truth, position, find_free,
}
use cold_snap.Quiz.Draw.{Offers, draw_options-Offers}
use cold_snap.Quiz.Play.{Supply}
use cold_snap.Quiz.Pass.{new-passable, new-score, score, last_step}

-- A list of three different words has one besides any two.
module _ (x y z : List ℕ) (xy : bytes_eq x y ≡ false) (xz : bytes_eq x z ≡ false)
    (yz : bytes_eq y z ≡ false) where
  clash : (a u v : List ℕ) → a ≡ u → a ≡ v → bytes_eq u v ≢ false
  clash a u v p q e = absurd (cc (bytes_eq_self u, subst (λ w. bytes_eq u w ≡ false) (sym q ∙ p) e))

  held : (a b v : List ℕ) → contains (a ∷ b ∷ []) v ≡ true → (a ≡ v) ⊎ (b ≡ v)
  unfolding contains
  held a b v h = elim (Bool-cases (bytes_eq a v)) [
    | inl e ↦ inl (eq_of_bytes_eq a v e)
    | inr e ↦ inr (eq_of_bytes_eq b v (ground (arith, h, e)))
  ]

  neither : contains (x ∷ y ∷ []) z ≡ false
  unfolding contains
  neither = ground (arith, xz, yz)

  either_way : contains (y ∷ x ∷ []) z ≡ false
  unfolding contains
  either_way = ground (arith, xz, yz)

  three_words :
      (a b : List ℕ) → (v : List ℕ) × Among v (x ∷ y ∷ z ∷ []) × (contains (a ∷ b ∷ []) v ≡ false)
  three_words a b = elim (Bool-cases (contains (a ∷ b ∷ []) x)) [
    | inr free ↦ (x, (0, refl), free)
    | inl hx ↦ elim (Bool-cases (contains (a ∷ b ∷ []) y)) [
      | inr free ↦ (y, (1, refl), free)
      | inl hy ↦ (z, (2, refl), last (held a b x hx) (held a b y hy))
    ]
  ]
    where
      last : ((a ≡ x) ⊎ (b ≡ x)) → ((a ≡ y) ⊎ (b ≡ y)) → contains (a ∷ b ∷ []) z ≡ false
      last (inl p) (inl q) = absurd (clash a x y p q xy)
      last (inr p) (inr q) = absurd (clash b x y p q xy)
      last (inl p) (inr q) =
          subst (λ c. contains (c ∷ b ∷ []) z ≡ false) (sym p)
            (subst (λ c. contains (x ∷ c ∷ []) z ≡ false) (sym q) neither)
      last (inr p) (inl q) =
          subst (λ c. contains (c ∷ b ∷ []) z ≡ false) (sym q)
            (subst (λ c. contains (y ∷ c ∷ []) z ≡ false) (sym p) either_way)

abbrev counting : ℕ → ℕ × ℕ
counting s = (s * 1103515245 % 4294967296, s + 12345)

-- ABLE, BABY and CAGE
abbrev able : List ℕ
able = 65 ∷ 66 ∷ 76 ∷ 69 ∷ []

abbrev baby : List ℕ
baby = 66 ∷ 65 ∷ 66 ∷ 89 ∷ []

abbrev cage : List ℕ
cage = 67 ∷ 65 ∷ 71 ∷ 69 ∷ []

abbrev three : List (List ℕ)
three = able ∷ baby ∷ cage ∷ []

abbrev alone : List ℕ → List (List ℕ)
alone w = w ∷ []

backup : List (List ℕ)
backup = baby ∷ replicate 24 able

abbrev quiz0 : Quiz
quiz0 = record {
  words = backup;
  order = 12 ∷ 24 ∷ 4 ∷ 21 ∷ 20 ∷ 7 ∷ 23 ∷ 16 ∷ [];
  asked = 0;
  options = able ∷ baby ∷ cage ∷ [];
  wrong = false;
}

made : (new counting three alone backup 7).0 ≡ ok quiz0
unfolding new all_bip39 is_bip39 draw_options draw_order draw_distinct draw_loop shuffle
    shuffle_loop below positions copy_into replicate mix known truth position contains find_free
    bytes_eq backup
made = refl

three-Supply : Supply counting three
unfolding bytes_eq
three-Supply = record {
  word32 = λ s. omega arith;
  large = omega arith;
  third = three_words able baby cage refl refl refl;
}

full : length backup ≡ 25
unfolding backup replicate
full = refl

-- The quiz with the next options.
abbrev again : Quiz
again = record quiz0 { options = cage ∷ able ∷ baby ∷ [] }

redrawn : (draw_options counting three alone quiz0 604912).0 ≡ ok again
unfolding draw_options draw_distinct draw_loop shuffle shuffle_loop below mix known truth position
    contains find_free bytes_eq backup replicate
redrawn = refl

draw_options-Offers_example :
    Offers counting three alone again × (again ≡ record quiz0 { options = again.options })
draw_options-Offers_example = draw_options-Offers counting three alone quiz0 again 604912 redrawn

new-passable_example :
    (ks : List ℕ) × (k : ℕ) × (length ks ≡ 7)
    × (last_step counting three alone ks k quiz0 604912 ≡ passed)
new-passable_example =
    new-passable counting three alone three-Supply backup quiz0 7 604912 full made

-- Eight keys that pass.
winning :
    (ks : List ℕ) × (k : ℕ) × (length ks ≡ 7)
    × (last_step counting three alone ks k quiz0 604912 ≡ passed)
winning = new-passable counting three alone three-Supply backup quiz0 7 604912 full made

new-score_example : score counting three alone (winning.0 ++ winning.1 ∷ []) quiz0 604912 ≡ 8
new-score_example =
    new-score counting three alone three-Supply backup winning.0 winning.1 quiz0 7 604912 full made
      winning.3
