-- ===== src/Panic/Words.antt =====
-- hal/src/panic.rs: the tagged words of the counter and of the handler's depth.
use cold_snap.Prelude.{
  ℕ, ◌+◌, ◌*◌, ◌^◌, ◌≤◌, ◌<◌, ◌≡◌, refl, ap, ◌∙◌, Option, none, some, arith, bit_and, bit_or, min,
  ◌↔◌,
}
use cold_snap.Prelude.Bits.{and_low16, and_high16, or_tag16}
use cold_snap.Panic.{encode_counter, decode_counter, counted}

-- A tagged word, taken apart.
tag_of : (t v : ℕ) → t < 65536 → v < 65536 → bit_and (t * 65536 + v) 4294901760 ≡ t * 65536
tag_of t v ht hv = omega (arith, and_high16 (t * 65536 + v) (omega arith))

value_of : (t v : ℕ) → v < 65536 → bit_and (t * 65536 + v) 65535 ≡ v
value_of t v hv = omega (arith, and_low16 (t * 65536 + v))

tagged : (t c : ℕ) → bit_or (t * 65536) (bit_and (min c 65535) 65535) ≡ t * 65536 + min c 65535
tagged t c = omega (
  arith,
  and_low16 (min c 65535),
  or_tag16 t (bit_and (min c 65535) 65535) (omega (arith, and_low16 (min c 65535))),
)

encode_counter_lem : (c : ℕ) → encode_counter c ≡ 50593 * 65536 + min c 65535
unfolding encode_counter
encode_counter_lem c = tagged 50593 c

-- A stored count is read back, and saturates at 65535 where it does not fit.
decode_counter-encode_counter : (c : ℕ) → decode_counter (encode_counter c) ≡ some (min c 65535)
unfolding decode_counter
decode_counter-encode_counter c =
    let w : encode_counter c ≡ 50593 * 65536 + min c 65535 = encode_counter_lem c in
    let tag : bit_and (encode_counter c) 4294901760 ≡ 3315662848 =
      ap (λ x. bit_and x 4294901760) w ∙ tag_of 50593 (min c 65535) (omega arith) (omega arith) in
    let value : bit_and (encode_counter c) 65535 ≡ min c 65535 =
      ap (λ x. bit_and x 65535) w ∙ value_of 50593 (min c 65535) (omega arith) in
    rw (tag, value) refl

-- A word counts exactly where its high half is the tag: no garbage is read as a count.
decode_counter_iff :
    (raw c : ℕ)
    → raw < 2 ^ 32
    → (decode_counter raw ≡ some c) ↔ ((raw ≡ 0xC5A10000 + c) × (c < 65536))
unfolding decode_counter
decode_counter_iff raw c h = ground (arith, and_low16 raw, and_high16 raw h)

pub counted-encode_counter : (c : ℕ) → counted (encode_counter c) ≡ min c 65535
unfolding counted
counted-encode_counter c =
    ap {A = Option ℕ} (λ o. elim o [ none ↦ 0 | some count ↦ count ])
      (decode_counter-encode_counter c)

pub counted_bound : (raw : ℕ) → counted raw ≤ 65535
unfolding counted decode_counter
counted_bound raw = ground (arith, and_low16 raw)
