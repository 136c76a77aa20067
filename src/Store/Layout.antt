-- ===== src/Store/Layout.antt =====
-- firmware/src/store.rs: what stands where in a record after the writes of `seal`.
use cold_snap.Prelude.{
  ℕ, ◌+◌, ◌≤◌, ◌≡◌, sym, ap, ◌∙◌, List, ◌++◌, length, take, drop, slice, copy_into, arith,
  length-take, length-drop, length-copy_into, take-copy_into, take_all, slice-copy_into,
  drop-append, append_assoc,
}
use cold_snap.Store.Fields.{slice-drop, slice_before, slice_behind}

-- The record as the writes leave it, one after the other.
module _ (r0 m fs bs lb tag : List ℕ) (l0 : length r0 ≡ 512) (lm : length m ≡ 8)
    (lf : length fs ≡ 127) (lbs : length bs ≤ 367) (llb : length lb ≡ 2) (lt : length tag ≡ 8) where
  abbrev pub record1 : List ℕ
  record1 = copy_into r0 0 m

  abbrev pub record2 : List ℕ
  record2 = copy_into record1 10 fs

  abbrev pub record3 : List ℕ
  record3 = copy_into record2 137 bs

  abbrev pub record4 : List ℕ
  record4 = copy_into record3 8 lb

  abbrev record5 : List ℕ
  record5 = copy_into record4 504 tag

  l1 : length record1 ≡ 512
  l1 = length-copy_into r0 0 m (omega (arith, l0, lm)) ∙ l0

  l2 : length record2 ≡ 512
  l2 = length-copy_into record1 10 fs (omega (arith, l1, lf)) ∙ l1

  l3 : length record3 ≡ 512
  l3 = length-copy_into record2 137 bs (omega (arith, l2, lbs)) ∙ l2

  l4 : length record4 ≡ 512
  l4 = length-copy_into record3 8 lb (omega (arith, l3, llb)) ∙ l3

  l5 : length record5 ≡ 512
  l5 = length-copy_into record4 504 tag (omega (arith, l4, lt)) ∙ l4

  pub magic_at : slice 0 8 record5 ≡ m
  magic_at =
      slice_before 0 8 504 record4 tag (omega arith) (omega (arith, l4))
      ∙ slice_before 0 8 8 record3 lb (omega arith) (omega (arith, l3))
      ∙ slice_before 0 8 137 record2 bs (omega arith) (omega (arith, l2))
      ∙ slice_before 0 8 10 record1 fs (omega arith) (omega (arith, l1))
      ∙ ap (λ n. slice 0 n record1) {x = 8} {y = 0 + length m} (omega (arith, lm))
      ∙ slice-copy_into r0 0 m (omega (arith, l0, lm))

  pub len_at : slice 8 10 record5 ≡ lb
  len_at =
      slice_before 8 10 504 record4 tag (omega arith) (omega (arith, l4))
      ∙ ap (λ n. slice 8 n record4) (omega (arith, llb))
      ∙ slice-copy_into record3 8 lb (omega (arith, l3, llb))

  pub tag_at : drop 504 record5 ≡ tag
  unfolding slice
  tag_at =
      sym (take_all 8 (drop 504 record5) (omega (arith, length-drop 504 record5, l5)))
      ∙ ap (λ n. slice 504 n record5) {x = 512} {y = 504 + length tag} (omega (arith, lt))
      ∙ slice-copy_into record4 504 tag (omega (arith, l4, lt))

  pub before_tag : slice 0 504 record5 ≡ slice 0 504 record4
  before_tag = slice_before 0 504 504 record4 tag (omega arith) (omega (arith, l4))

  pub body_at : slice 10 (10 + (127 + length bs)) record5 ≡ fs ++ bs
  body_at =
      let n = 10 + (127 + length bs) in
      slice_before 10 n 504 record4 tag (omega (arith, lbs)) (omega (arith, l4))
      ∙ slice_behind 10 n 8 record3 lb (omega (arith, llb)) (omega (arith, l3, llb))
      ∙ slice-drop 10 n record3
      ∙ ap (drop 10) (
          take-copy_into record2 137 n bs (omega (arith, l2, lbs)) (omega arith)
          ∙ ap (λ xs. xs ++ bs)
              (take-copy_into record1 10 137 fs (omega (arith, l1, lf)) (omega (arith, lf)))
          ∙ append_assoc (take 10 record1) fs bs)
      ∙ drop-append 10 (take 10 record1) (fs ++ bs) (omega (arith, length-take 10 record1, l1))
