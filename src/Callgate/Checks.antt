-- ===== src/Callgate/Checks.antt =====
-- hal/src/callgate.rs: what the checks accept.
use cold_snap.Prelude.{
  ℕ, ◌+◌, ◌≤◌, ◌≡◌, ◌↔◌, inl, inr, refl, sym, ap, true, false, List, ◌∷◌, some, ok, err, ltb, ◌==◌,
  ==_iff, length, take, get_range, slice, arith, Bool-cases, le→leb, ltb→lt, ltb→le,
}
use cold_snap.Memmap.{sram_base, bl_sram_base}
use cold_snap.Rng.{all_equal}
use cold_snap.Callgate.{
  validate_buf, in_sram, RngSource, se1, se2, byte_count, not_degenerate, counted_payload,
  parse_rng_response, short_read, check_pin_subcall, if_free, pin_subcall_cost,
}

-- A buffer is accepted exactly where it has from 1 to 1,024 bytes, as many as the selector asks for, and
-- lies in the SRAM that the bootloader does not keep, with no wrap.
validate_buf_iff :
    (ptr len min_len : ℕ)
    → (validate_buf ptr len min_len ≡ ok tt) ↔ (
        (1 ≤ len) × (len ≤ 1024) × (min_len ≤ len) × (sram_base ≤ ptr) × (ptr + len ≤ bl_sram_base))
unfolding validate_buf in_sram
validate_buf_iff ptr len min_len = ground arith

-- A sub-call of the PIN selector passes exactly where it is one of the two that cost nothing.
check_pin_subcall_iff : (arg2 : ℕ) → (check_pin_subcall arg2 ≡ ok tt) ↔ (arg2 ≤ 1)
unfolding check_pin_subcall if_free pin_subcall_cost
check_pin_subcall_iff arg2 = ground arith

not_degenerate_iff :
    (q p : List ℕ)
    → (not_degenerate (some q) ≡ ok p)
      ↔ ((p ≡ q) × (all_equal 0 p ≡ false) × (all_equal 255 p ≡ false))
unfolding not_degenerate
not_degenerate_iff q p = elim (Bool-cases (all_equal 0 q)) [
  | inl z ↦ rw z ((λ h. absurd (cc h)), (λ (e, z', _). absurd (cc (e, z, z'))))
  | inr z ↦ elim (Bool-cases (all_equal 255 q)) [
    | inl f ↦ rw (z, f) ((λ h. absurd (cc h)), (λ (e, _, f'). absurd (cc (e, f, f'))))
    | inr f ↦
        rw (z, f) ((λ h. let e : p ≡ q = cc h in (e, cc (e, z), cc (e, f))), (λ h. ap ok (sym h.0)))
  ]
]

get_range-data :
    (want count : ℕ) (data' : List ℕ)
    → want ≤ length data'
    → get_range 1 (1 + want) (count ∷ data') ≡ some (take want data')
unfolding get_range slice
get_range-data want count data' h = rw (le→leb 1 (1 + want) (omega arith)) (
    rw (le→leb (1 + want) (length (count ∷ data')) (omega arith))
      (ap (λ n. some (take n data')) (omega arith)))

byte_count_le : (source : RngSource) → byte_count source ≤ 32
unfolding byte_count
byte_count_le se1 = omega arith
byte_count_le se2 = omega arith

counted_payload-range :
    (want count : ℕ) (data' : List ℕ)
    → want ≤ length data'
    → (count == want) ≡ true
    → counted_payload want (count ∷ data') ≡ not_degenerate (some (take want data'))
unfolding counted_payload
counted_payload-range want count data' h e =
    rw e (ap not_degenerate (get_range-data want count data' h))

counted_payload-wrong :
    (want count : ℕ) (data' : List ℕ)
    → (count == want) ≡ false
    → counted_payload want (count ∷ data') ≡ err short_read
unfolding counted_payload
counted_payload-wrong want count data' e = rw e refl

-- The answer of the gate is parsed to the bytes `p` exactly where it and the target have the right
-- lengths, its first byte is the count that the source promises, the bytes behind it are `p`, and they
-- are neither all 0 nor all 255.
pub parse_rng_response_iff :
    (source : RngSource) (count : ℕ) (data' : List ℕ) (n : ℕ) (p : List ℕ)
    → (parse_rng_response source (count ∷ data') n ≡ ok p) ↔ (
        (32 ≤ length data')
        × (n ≡ byte_count source)
        × (count ≡ byte_count source)
        × (p ≡ take (byte_count source) data')
        × (all_equal 0 p ≡ false)
        × (all_equal 255 p ≡ false))
unfolding parse_rng_response
parse_rng_response_iff source count data' n p =
    elim (Bool-cases (ltb (length (count ∷ data')) 33)) [
      | inl short ↦ rw short (
        (λ h. absurd (cc h)),
        (λ h. absurd (omega (arith, ltb→lt (length (count ∷ data')) 33 short, h.0))),
      )
      | inr long ↦ elim (Bool-cases (n == byte_count source)) [
        | inr other ↦
            rw (long, other)
              (
                (λ h. absurd (cc h)),
                (λ h. absurd (cc (other, (==_iff n (byte_count source)).1 h.1))),
              )
        | inl same ↦ elim (Bool-cases (count == byte_count source)) [
          | inr wrong ↦
              rw (long, same, counted_payload-wrong (byte_count source) count data' wrong)
                (
                  (λ h. absurd (cc h)),
                  (λ h. absurd (cc (wrong, (==_iff count (byte_count source)).1 h.2))),
                )
          | inl right ↦
              let d = not_degenerate_iff (take (byte_count source) data') p in
              let room : 32 ≤ length data' =
                omega (arith, ltb→le (length (count ∷ data')) 33 long) in
              let fits : byte_count source ≤ length data' =
                omega (arith, byte_count_le source, room) in
              rw (long, same, counted_payload-range (byte_count source) count data' fits right)
                (
                  (λ h.
                      let (same_bytes, not_zero, not_full) = d.0 h in
                      (
                        room,
                        (==_iff n (byte_count source)).0 same,
                        (==_iff count (byte_count source)).0 right,
                        same_bytes,
                        not_zero,
                        not_full,
                      )),
                  (λ (_, _, _, same_bytes, not_zero, not_full).
                      d.1 (same_bytes, not_zero, not_full)),
                )
        ]
      ]
    ]
