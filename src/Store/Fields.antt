-- ===== src/Store/Fields.antt =====
-- firmware/src/store.rs: where the fields of a sealed record stand.
use cold_snap.Prelude.{
  ℕ, ◌+◌, ◌-◌, ◌≤◌, ◌≡◌, sym, ap, ap₂, ◌∙◌, List, [], ◌∷◌, ◌++◌, length, take, drop, slice,
  copy_into, arith, append_assoc, length-append, length-take, length-copy_into, take-copy_into,
  take_all, drop-append, take-append_le, drop-drop, drop-take, take-take,
}
use cold_snap.Prelude.Bytes.{to_le_bytes, length-to_le_bytes}
use cold_snap.Store.{ShareBody, fixed_fields}

pub slice-drop : (a b : ℕ) (xs : List ℕ) → slice a b xs ≡ drop a (take b xs)
unfolding slice
slice-drop a b xs = sym (drop-take a b xs)

-- A span that ends before a copy, or starts behind it, is as it was.
pub slice_before :
    (a b at : ℕ) (xs src : List ℕ)
    → b ≤ at
    → at ≤ length xs
    → slice a b (copy_into xs at src) ≡ slice a b xs
unfolding copy_into
slice_before a b at xs src h k =
    slice-drop a b (copy_into xs at src)
    ∙ ap (drop a) (
        take-append_le b (take at xs) (src ++ drop (at + length src) xs)
          (omega (arith, length-take at xs))
        ∙ take-take b at xs h)
    ∙ sym (slice-drop a b xs)

drop_behind :
    (a at : ℕ) (xs src : List ℕ)
    → at + length src ≤ a
    → at + length src ≤ length xs
    → drop a (copy_into xs at src) ≡ drop a xs
unfolding copy_into
drop_behind a at xs src h k =
    let n = at + length src in
    let whole = (take at xs ++ src) ++ drop n xs in
    let split : a ≡ n + (a - n) = omega (arith, h) in
    let behind : drop n whole ≡ drop n xs =
      drop-append n (take at xs ++ src) (drop n xs)
        (omega (arith, length-append (take at xs) src, length-take at xs)) in
    ap (drop a) (sym (append_assoc (take at xs) src (drop n xs)))
    ∙ ap (λ m. drop m whole) split
    ∙ sym (drop-drop (a - n) n whole)
    ∙ ap (drop (a - n)) behind
    ∙ drop-drop (a - n) n xs
    ∙ ap (λ m. drop m xs) (sym split)

pub slice_behind :
    (a b at : ℕ) (xs src : List ℕ)
    → at + length src ≤ a
    → at + length src ≤ length xs
    → slice a b (copy_into xs at src) ≡ slice a b xs
unfolding slice
slice_behind a b at xs src h k = ap (take (b - a)) (drop_behind a at xs src h k)

slice_left : (a b : ℕ) (xs ys : List ℕ) → b ≤ length xs → slice a b (xs ++ ys) ≡ slice a b xs
slice_left a b xs ys h =
    slice-drop a b (xs ++ ys) ∙ ap (drop a) (take-append_le b xs ys h) ∙ sym (slice-drop a b xs)

slice_last :
    (a b : ℕ) (xs ys : List ℕ) → a ≡ length xs → b ≡ a + length ys → slice a b (xs ++ ys) ≡ ys
unfolding slice
slice_last a b xs ys h k =
    ap (take (b - a)) (drop-append a xs ys h) ∙ take_all (b - a) ys (omega (arith, k))

-- The sizes of a body's arrays.
pub record HasSizes {Pu Ki Sh : Type 0} (b : ShareBody Pu Ki Sh) : Type 0 where
  pub key_size : length b.key_id ≡ 32
  pub structure_size : length b.access_structure_id ≡ 32
  pub name_size : length b.name ≡ 60

module _ {Pu Ki Sh : Type 0} (b : ShareBody Pu Ki Sh) where
  -- The fixed fields in their order.
  abbrev pub fields : List ℕ
  fields =
      (((b.key_id ++ b.access_structure_id) ++ to_le_bytes 2 b.threshold) ++ b.name_len ∷ [])
      ++ b.name

  pub length-fields : HasSizes b → length fields ≡ 127
  length-fields h = omega (
    arith,
    length-append
        (((b.key_id ++ b.access_structure_id) ++ to_le_bytes 2 b.threshold) ++ b.name_len ∷ [])
        b.name,
    length-append ((b.key_id ++ b.access_structure_id) ++ to_le_bytes 2 b.threshold)
        (b.name_len ∷ []),
    length-append (b.key_id ++ b.access_structure_id) (to_le_bytes 2 b.threshold),
    length-append b.key_id b.access_structure_id,
    length-to_le_bytes 2 b.threshold,
    h.key_size,
    h.structure_size,
    h.name_size,
  )

  pub fixed_fields_lem :
      (out : List ℕ) → HasSizes b → length out ≡ 127 → fixed_fields b out ≡ fields
  unfolding fixed_fields
  fixed_fields_lem out h n =
      let thr = to_le_bytes 2 b.threshold in
      let out1 = copy_into out 0 b.key_id in
      let l1 : length out1 ≡ 127 =
        length-copy_into out 0 b.key_id (omega (arith, n, h.key_size)) ∙ n in
      let t1 : take 32 out1 ≡ b.key_id =
        take-copy_into out 0 32 b.key_id (omega (arith, n, h.key_size))
          (omega (arith, h.key_size)) in
      let out2 = copy_into out1 32 b.access_structure_id in
      let l2 : length out2 ≡ 127 =
        length-copy_into out1 32 b.access_structure_id (omega (arith, l1, h.structure_size)) ∙ l1 in
      let t2 =
        take-copy_into out1 32 64 b.access_structure_id (omega (arith, l1, h.structure_size))
          (omega (arith, h.structure_size)) in
      let two : length thr ≡ 2 = length-to_le_bytes 2 b.threshold in
      let out3 = copy_into out2 64 thr in
      let l3 : length out3 ≡ 127 = length-copy_into out2 64 thr (omega (arith, l2, two)) ∙ l2 in
      let t3 = take-copy_into out2 64 66 thr (omega (arith, l2, two)) (omega (arith, two)) in
      let out4 = copy_into out3 66 (b.name_len ∷ []) in
      let l4 : length out4 ≡ 127 =
        length-copy_into out3 66 (b.name_len ∷ []) (omega (arith, l3)) ∙ l3 in
      let t4 = take-copy_into out3 66 67 (b.name_len ∷ []) (omega (arith, l3)) (omega arith) in
      let out5 = copy_into out4 67 b.name in
      let l5 : length out5 ≡ 127 =
        length-copy_into out4 67 b.name (omega (arith, l4, h.name_size)) ∙ l4 in
      let t5 =
        take-copy_into out4 67 127 b.name (omega (arith, l4, h.name_size))
          (omega (arith, h.name_size)) in
      sym (take_all 127 out5 (omega (arith, l5)))
      ∙ t5
      ∙ ap (λ xs. xs ++ b.name)
          (t4
            ∙ ap (λ xs. xs ++ b.name_len ∷ [])
                (t3 ∙ ap (λ xs. xs ++ thr) (t2 ∙ ap (λ xs. xs ++ b.access_structure_id) t1)))

  -- Where each field is read, with the codec's bytes behind them.
  pub key_at : (bs : List ℕ) → HasSizes b → slice 0 32 (fields ++ bs) ≡ b.key_id
  unfolding slice
  key_at bs h =
      let thr = to_le_bytes 2 b.threshold in
      let a1 = b.key_id ++ b.access_structure_id in
      let n1 = length-append b.key_id b.access_structure_id in
      let n2 = length-append a1 thr in
      let n3 = length-append (a1 ++ thr) (b.name_len ∷ []) in
      let size = h.key_size in
      slice_left 0 32 fields bs (omega (arith, length-fields h))
      ∙ slice_left 0 32 ((a1 ++ thr) ++ b.name_len ∷ []) b.name (omega (arith, n1, n2, n3, size))
      ∙ slice_left 0 32 (a1 ++ thr) (b.name_len ∷ []) (omega (arith, n1, n2, size))
      ∙ slice_left 0 32 a1 thr (omega (arith, n1, size))
      ∙ slice_left 0 32 b.key_id b.access_structure_id (omega (arith, size))
      ∙ take_all 32 b.key_id (omega (arith, size))

  pub structure_at : (bs : List ℕ) → HasSizes b → slice 32 64 (fields ++ bs) ≡ b.access_structure_id
  structure_at bs h =
      let thr = to_le_bytes 2 b.threshold in
      let a1 = b.key_id ++ b.access_structure_id in
      let n1 = length-append b.key_id b.access_structure_id in
      let n2 = length-append a1 thr in
      let n3 = length-append (a1 ++ thr) (b.name_len ∷ []) in
      let size = h.key_size in
      let size2 = h.structure_size in
      slice_left 32 64 fields bs (omega (arith, length-fields h))
      ∙ slice_left 32 64 ((a1 ++ thr) ++ b.name_len ∷ []) b.name
          (omega (arith, n1, n2, n3, size, size2))
      ∙ slice_left 32 64 (a1 ++ thr) (b.name_len ∷ []) (omega (arith, n1, n2, size, size2))
      ∙ slice_left 32 64 a1 thr (omega (arith, n1, size, size2))
      ∙ slice_last 32 64 b.key_id b.access_structure_id (omega (arith, size)) (omega (arith, size2))

  pub threshold_at :
      (bs : List ℕ) → HasSizes b → slice 64 66 (fields ++ bs) ≡ to_le_bytes 2 b.threshold
  threshold_at bs h =
      let thr = to_le_bytes 2 b.threshold in
      let a1 = b.key_id ++ b.access_structure_id in
      let n1 = length-append b.key_id b.access_structure_id in
      let n2 = length-append a1 thr in
      let n3 = length-append (a1 ++ thr) (b.name_len ∷ []) in
      let two = length-to_le_bytes 2 b.threshold in
      let size = h.key_size in
      let size2 = h.structure_size in
      slice_left 64 66 fields bs (omega (arith, length-fields h))
      ∙ slice_left 64 66 ((a1 ++ thr) ++ b.name_len ∷ []) b.name
          (omega (arith, n1, n2, n3, two, size, size2))
      ∙ slice_left 64 66 (a1 ++ thr) (b.name_len ∷ []) (omega (arith, n1, n2, two, size, size2))
      ∙ slice_last 64 66 a1 thr (omega (arith, n1, size, size2)) (omega (arith, two))

  length-before_name :
      HasSizes b
      → length
          (((b.key_id ++ b.access_structure_id) ++ to_le_bytes 2 b.threshold) ++ b.name_len ∷ [])
        ≡ 67
  length-before_name h = omega (
    arith,
    length-append ((b.key_id ++ b.access_structure_id) ++ to_le_bytes 2 b.threshold)
        (b.name_len ∷ []),
    length-append (b.key_id ++ b.access_structure_id) (to_le_bytes 2 b.threshold),
    length-append b.key_id b.access_structure_id,
    length-to_le_bytes 2 b.threshold,
    h.key_size,
    h.structure_size,
  )

  pub name_len_at : (bs : List ℕ) → HasSizes b → slice 66 67 (fields ++ bs) ≡ b.name_len ∷ []
  name_len_at bs h =
      let a2 = (b.key_id ++ b.access_structure_id) ++ to_le_bytes 2 b.threshold in
      let n3 = length-append a2 (b.name_len ∷ []) in
      slice_left 66 67 fields bs (omega (arith, length-fields h))
      ∙ slice_left 66 67 (a2 ++ b.name_len ∷ []) b.name (omega (arith, length-before_name h))
      ∙ slice_last 66 67 a2 (b.name_len ∷ []) (omega (arith, n3, length-before_name h))
          (omega arith)

  pub name_at : (bs : List ℕ) → HasSizes b → slice 67 127 (fields ++ bs) ≡ b.name
  name_at bs h =
      let a3 =
        ((b.key_id ++ b.access_structure_id) ++ to_le_bytes 2 b.threshold) ++ b.name_len ∷ [] in
      slice_left 67 127 fields bs (omega (arith, length-fields h))
      ∙ slice_last 67 127 a3 b.name (omega (arith, length-before_name h))
          (omega (arith, h.name_size))

  -- The name as far as its length goes.
  pub text_at :
      (n : ℕ) (bs : List ℕ) → HasSizes b → n ≤ 60 → slice 67 (67 + n) (fields ++ bs) ≡ take n b.name
  unfolding slice
  text_at n bs h short =
      let a3 =
        ((b.key_id ++ b.access_structure_id) ++ to_le_bytes 2 b.threshold) ++ b.name_len ∷ [] in
      slice_left 67 (67 + n) fields bs (omega (arith, length-fields h, short))
      ∙ ap₂ take (omega arith) (drop-append 67 a3 b.name (omega (arith, length-before_name h)))
