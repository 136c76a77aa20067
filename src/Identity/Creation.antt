-- ===== src/Identity/Creation.antt =====
-- hal/src/identity.rs, `load_or_create` over a flash that works: the identity is made once.
use cold_snap.Prelude.{
  ℕ, zero, suc, inl, inr, ◌+◌, ◌-◌, ◌%◌, ◌≤◌, ◌≡◌, refl, ap, ◌∙◌, subst, true, List, ◌++◌, Option,
  none, some, ok, length, take, drop, slice, copy_into, replicate, arith, Bool-cases, if◌then◌else◌,
  length-append, length-replicate, take-append-drop, take-copy_into, length-take, length-drop,
}
use cold_snap.Prelude.Bytes.{bytes_eq_self, length-to_le_bytes, to_le_bytes}
use cold_snap.Identity.{
  NorFlash, valid, vacant, classify, encode, tag_of, generate, confirm, check_back, write_commit,
  write_body, program, settle, load_or_create, scalar_is_in_range, magic,
}
use cold_snap.Identity.Classify.{classify-encode, length-tag_of}
use cold_snap.Identity.Slices.{erased, slice-beyond, slice_start, length-copied}

-- A flash that works: it reads what it holds, erases whole pages, and programs doublewords that are
-- erased.
pub record NorLaws {F : Type 0} (nor : NorFlash F) : Type 0 where
  pub cells : F → List ℕ
  pub read_lem :
      (at n : ℕ) (f : F)
      → at + n ≤ length (cells f)
      → (f' : F) × (nor.read at n f ≡ (ok (slice at (at + n) (cells f)), f')) × (cells f' ≡ cells f)
  pub erase_lem :
      (a b : ℕ) (f : F)
      → a ≤ b
      → b ≤ length (cells f)
      → a % 4096 ≡ 0
      → b % 4096 ≡ 0
      → (f' : F) × (nor.erase a b f ≡ (ok tt, f'))
        × (cells f' ≡ copy_into (cells f) a (replicate (b - a) 255))
  pub write_lem :
      (at : ℕ) (bytes : List ℕ) (f : F)
      → at % 8 ≡ 0
      → length bytes % 8 ≡ 0
      → at + length bytes ≤ length (cells f)
      → slice at (at + length bytes) (cells f) ≡ replicate (length bytes) 255
      → (f' : F) × (nor.write at bytes f ≡ (ok tt, f')) × (cells f' ≡ copy_into (cells f) at bytes)

-- The first of some draws that is a scalar in range.
unfoldable pub first_in_range : {G : Type 0} → (ℕ → G → List ℕ × G) → ℕ → G → Option (List ℕ)
first_in_range fill_bytes zero g = none
first_in_range fill_bytes (suc left) g =
    let (secret, g') = fill_bytes 32 g in
    let again = first_in_range fill_bytes left g' in
    if scalar_is_in_range secret then some secret else again

module _ (sha256 : List ℕ → List ℕ) (long : (m : List ℕ) → 8 ≤ length (sha256 m)) where
  length-encode : (s : List ℕ) → length s ≡ 32 → length (encode sha256 s) ≡ 48
  unfolding encode
  length-encode s h = omega (
    arith,
    length-append s (tag_of sha256 s ++ to_le_bytes 8 magic),
    length-append (tag_of sha256 s) (to_le_bytes 8 magic),
    length-tag_of sha256 long s,
    length-to_le_bytes 8 magic,
  )

  module _ {F G : Type 0} (nor : NorFlash F) (law : NorLaws nor)
      (fill_bytes : ℕ → G → List ℕ × G) where
    open law use {cells, read_lem, erase_lem, write_lem}

    generated :
        (left : ℕ) (f : F) (g : G) (s : List ℕ)
        → ((g : G) → length (fill_bytes 32 g).0 ≡ 32)
        → first_in_range fill_bytes left g ≡ some s
        → (g' : G) × (generate sha256 nor fill_bytes left (f, g) ≡ (ok s, (f, g')))
          × (length s ≡ 32)
          × (scalar_is_in_range s ≡ true)
    unfolding generate first_in_range
    generated zero f g s whole h = absurd (cc h)
    generated (suc left) f g s whole h =
        let draw = fill_bytes 32 g in
        elim (Bool-cases (scalar_is_in_range draw.0)) [
          | inl good ↦
              let same : draw.0 ≡ s = ground (arith, good, h) in
              (
                draw.1,
                rw good (ap (λ x. (ok x, (f, draw.1))) same),
                subst (λ x. length x ≡ 32) same (whole g),
                subst (λ x. scalar_is_in_range x ≡ true) same good,
              )
          | inr bad ↦
              let later : first_in_range fill_bytes left draw.1 ≡ some s = ground (arith, bad, h) in
              let (g', run, len, in_range) = generated left f draw.1 s whole later in
              (g', rw bad run, len, in_range)
        ]

    -- The pages erased, and the body written.
    body_written :
        (f : F) (body : List ℕ)
        → 8192 ≤ length (cells f)
        → length body ≡ 40
        → (f1 : F) × (f2 : F) × (nor.erase 0 8192 f ≡ (ok tt, f1))
          × (nor.write 0 body f1 ≡ (ok tt, f2))
          × (length (cells f2) ≡ length (cells f))
          × (take 40 (cells f2) ≡ body)
          × ((n : ℕ) → 40 + n ≤ 8192 → slice 40 (40 + n) (cells f2) ≡ replicate n 255)
    body_written f body room n_body =
        let (f1, run1, c1) =
          erase_lem 0 8192 f (omega arith) (omega (arith, room)) (omega arith) (omega arith) in
        let n1 =
          length-copied (cells f) (cells f1) 0 (replicate 8192 255) c1
            (omega (arith, length-replicate {A = ℕ} 8192 255, room)) in
        let (f2, run2, c2) =
          write_lem 0 body f1 (omega arith) (omega (arith, n_body))
            (omega (arith, n_body, n1, room))
            (erased (cells f) (cells f1) 0 (length body) c1 (omega (arith, n_body))) in
        (
          f1,
          f2,
          run1,
          run2,
          length-copied (cells f1) (cells f2) 0 body c2 (omega (arith, n_body, n1, room)) ∙ n1,
          ap (take 40) c2
              ∙ take-copy_into (cells f1) 0 40 body (omega (arith, n_body, n1, room))
                  (omega (arith, n_body)),
          λ n h.
              ap (slice 40 (40 + n)) c2
              ∙ slice-beyond 40 (40 + n) (cells f1) body n_body
              ∙ erased (cells f) (cells f1) 40 n c1 h,
        )

    -- Behind it the commit word, and the record read back.
    tail_written :
        (f : F) (body tail : List ℕ)
        → 8192 ≤ length (cells f)
        → take 40 (cells f) ≡ body
        → length tail ≡ 8
        → ((n : ℕ) → 40 + n ≤ 8192 → slice 40 (40 + n) (cells f) ≡ replicate n 255)
        → (f3 : F) × (f4 : F) × (back : List ℕ) × (nor.write 40 tail f ≡ (ok tt, f3))
          × (nor.read 0 48 f3 ≡ (ok back, f4))
          × (back ≡ body ++ tail)
          × (8192 ≤ length (cells f4))
          × (take 48 (cells f4) ≡ body ++ tail)
    tail_written f body tail room first n_tail blank =
        let (f3, run3, c3) =
          write_lem 40 tail f (omega arith) (omega (arith, n_tail)) (omega (arith, n_tail, room))
            (blank (length tail) (omega (arith, n_tail))) in
        let n3 = length-copied (cells f) (cells f3) 40 tail c3 (omega (arith, n_tail, room)) in
        let (f4, run4, c4) = read_lem 0 48 f3 (omega (arith, n3, room)) in
        let stored : take 48 (cells f3) ≡ body ++ tail =
          ap (take 48) c3
          ∙ take-copy_into (cells f) 40 48 tail (omega (arith, n_tail, room))
              (omega (arith, n_tail))
          ∙ ap (λ xs. xs ++ tail) first in
        (
          f3,
          f4,
          slice 0 48 (cells f3),
          run3,
          run4,
          slice_start (cells f3) ∙ stored,
          omega (arith, ap length c4, n3, room),
          ap (take 48) c4 ∙ stored,
        )

    ran :
        (f f1 f2 f3 f4 : F) (g : G) (s back : List ℕ)
        → nor.erase 0 8192 f ≡ (ok tt, f1)
        → nor.write 0 (take 40 (encode sha256 s)) f1 ≡ (ok tt, f2)
        → nor.write 40 (drop 40 (encode sha256 s)) f2 ≡ (ok tt, f3)
        → nor.read 0 48 f3 ≡ (ok back, f4)
        → classify sha256 back ≡ valid s
        → program sha256 nor fill_bytes s (f, g) ≡ (ok s, (f4, g))
    unfolding program write_body write_commit check_back confirm
    ran f f1 f2 f3 f4 g s back run1 run2 run3 run4 found =
        rw run1 (rw run2 (rw run3 (rw run4 (rw found (rw (bytes_eq_self s) refl)))))

    -- A new record, programmed and read back.
    programmed :
        (f : F) (g : G) (s : List ℕ)
        → 8192 ≤ length (cells f)
        → length s ≡ 32
        → scalar_is_in_range s ≡ true
        → (f' : F) × (program sha256 nor fill_bytes s (f, g) ≡ (ok s, (f', g)))
          × (8192 ≤ length (cells f'))
          × (take 48 (cells f') ≡ encode sha256 s)
    programmed f g s room len in_range =
        let enc = encode sha256 s in
        let n_enc = length-encode s len in
        let (f1, f2, run1, run2, n2, first, blank) =
          body_written f (take 40 enc) room (omega (arith, n_enc, length-take 40 enc)) in
        let (f3, f4, back, run3, run4, read, room4, stored) =
          tail_written f2 (take 40 enc) (drop 40 enc) (omega (arith, n2, room)) first
            (omega (arith, n_enc, length-drop 40 enc)) blank in
        let whole = take-append-drop 40 enc in
        (
          f4,
          ran f f1 f2 f3 f4 g s back run1 run2 run3 run4
              (ap (classify sha256) (read ∙ whole) ∙ classify-encode sha256 long s len in_range),
          room4,
          stored ∙ whole,
        )

    -- With a hash of at least eight bytes, a flash that works and holds the record's pages, and draws
    -- of 32 bytes of which one of the first eight is a scalar in range: over a vacant record, the first
    -- such scalar is returned and stored, and every later call, with any generator, returns it.
    pub load_or_create-created :
        (f : F) (g : G) (s : List ℕ)
        → 8192 ≤ length (cells f)
        → classify sha256 (take 48 (cells f)) ≡ vacant
        → ((g : G) → length (fill_bytes 32 g).0 ≡ 32)
        → first_in_range fill_bytes 8 g ≡ some s
        → (f' : F) × (g' : G) × (load_or_create sha256 nor fill_bytes (f, g) ≡ (ok s, (f', g')))
          × ((later : G) → (load_or_create sha256 nor fill_bytes (f', later)).0 ≡ ok s)
    unfolding load_or_create settle
    load_or_create-created f g s room empty whole drawn =
        let (f1, run1, c1) = read_lem 0 48 f (omega (arith, room)) in
        let (g', run2, len, in_range) = generated 8 f1 g s whole drawn in
        let (f2, run3, room2, stored) =
          programmed f1 g' s (omega (arith, ap length c1, room)) len in_range in
        let (f3, run4, c4) = read_lem 0 48 f2 (omega (arith, room2)) in
        let nothing : classify sha256 (slice 0 48 (cells f)) ≡ vacant =
          ap (classify sha256) (slice_start (cells f)) ∙ empty in
        let found : classify sha256 (slice 0 48 (cells f2)) ≡ valid s =
          ap (classify sha256) (slice_start (cells f2) ∙ stored)
          ∙ classify-encode sha256 long s len in_range in
        (f2, g', rw run1 (rw nothing (rw run2 run3)), λ later. rw run4 (rw found refl))
