-- ===== src/Tests/Identity.antt =====
-- hal/src/identity.rs over a flash that is a list of bytes, and a hash that is none.
use cold_snap.Prelude.{
  ℕ, ◌+◌, ◌-◌, ◌≤◌, ◌≡◌, ◌↔◌, refl, ap, true, List, [], ◌∷◌, ◌++◌, some, ok, err, length, take,
  slice, copy_into, replicate, arith, leb, if◌then◌else◌, le→leb, length-replicate, length-append,
}
use cold_snap.Prelude.Bytes.{bytes_eq, bytes_eq_self, from_le_bytes, to_le_bytes}
use cold_snap.Identity.{
  NorFlash, valid, vacant, verdict, classify, encode, tag_of, lex_lt, load_or_create,
  scalar_is_in_range,
}
use cold_snap.Identity.Classify.{AllBytes, classify_iff}
use cold_snap.Identity.Keeping.{ReadBack, load_or_create-ReadBack}
use cold_snap.Identity.Creation.{NorLaws, first_in_range, load_or_create-created}

-- Errors where a span leaves the flash or is not erased.
abbrev fake_nor : NorFlash (List ℕ)
fake_nor = record {
  read = λ at n f. (if leb (at + n) (length f) then ok (slice at (at + n) f) else err 1, f);
  erase = λ a b f.
      if leb b (length f) then (ok tt, copy_into f a (replicate (b - a) 255)) else (err 1, f);
  write = λ at bytes f.
      if bytes_eq (slice at (at + length bytes) f) (replicate (length bytes) 255)
      then (ok tt, copy_into f at bytes)
      else (err 2, f);
}

fake_nor-NorLaws : NorLaws fake_nor
fake_nor-NorLaws = record {
  cells = λ f. f;
  read_lem = λ at n f h. (f, rw (le→leb (at + n) (length f) h) refl, refl);
  erase_lem = λ a b f h k p q.
      (copy_into f a (replicate (b - a) 255), rw (le→leb b (length f) k) refl, refl);
  write_lem = λ at bytes f p q h e.
      (copy_into f at bytes, rw e (rw (bytes_eq_self (replicate (length bytes) 255)) refl), refl);
}

digest : List ℕ → List ℕ
digest m = replicate 8 7 ++ m

digest_long : (m : List ℕ) → 8 ≤ length (digest m)
unfolding digest
digest_long m = omega (arith, length-append (replicate 8 7) m, length-replicate {A = ℕ} 8 7)

five : List ℕ
five = replicate 31 0 ++ 5 ∷ []

abbrev fives : ℕ → ℕ → List ℕ × ℕ
fives n g = (five, g + 1)

five_whole : length five ≡ 32
unfolding five replicate
five_whole = refl

five_in_range : scalar_is_in_range five ≡ true
unfolding five replicate scalar_is_in_range lex_lt bytes_eq
five_in_range = refl

fresh_flash : List ℕ
fresh_flash = replicate 48 255 ++ replicate 8144 255

room : 8192 ≤ length fresh_flash
unfolding fresh_flash
room = omega (
  arith,
  length-append {A = ℕ} (replicate 48 255) (replicate 8144 255),
  length-replicate {A = ℕ} 48 255,
  length-replicate {A = ℕ} 8144 255,
)

empty : classify digest (take 48 fresh_flash) ≡ vacant
unfolding fresh_flash replicate classify verdict tag_of digest bytes_eq from_le_bytes slice
    scalar_is_in_range lex_lt
empty = refl

drawn : first_in_range fives 8 3 ≡ some five
unfolding first_in_range
drawn = rw five_in_range refl

load_or_create-created_example :
    (f' : List ℕ) × (g' : ℕ) × (load_or_create digest fake_nor fives (fresh_flash, 3)
      ≡ (ok five, (f', g')))
    × ((later : ℕ) → (load_or_create digest fake_nor fives (f', later)).0 ≡ ok five)
unfolding fake_nor-NorLaws
load_or_create-created_example =
    load_or_create-created digest digest_long fake_nor fake_nor-NorLaws fives fresh_flash 3 five
      room empty (λ g. five_whole) drawn

made :
    (f' : List ℕ) × (g' : ℕ) × (load_or_create digest fake_nor fives (fresh_flash, 3)
      ≡ (ok five, (f', g')))
    × ((later : ℕ) → (load_or_create digest fake_nor fives (f', later)).0 ≡ ok five)
unfolding fake_nor-NorLaws
made =
    load_or_create-created digest digest_long fake_nor fake_nor-NorLaws fives fresh_flash 3 five
      room empty (λ g. five_whole) drawn

load_or_create-ReadBack_example :
    ReadBack digest fake_nor fives five (load_or_create digest fake_nor fives (fresh_flash, 3))
load_or_create-ReadBack_example =
    load_or_create-ReadBack digest fake_nor fives five fresh_flash 3 (ap (λ r. r.0) made.2)

whole_record : length (encode digest five) ≡ 48
unfolding encode digest five replicate tag_of to_le_bytes
whole_record = refl

record_bytes : AllBytes (encode digest five)
unfolding encode digest five replicate tag_of to_le_bytes
record_bytes = omega arith

classify_iff_example : (classify digest (encode digest five) ≡ valid five) ↔ (
    (length five ≡ 32)
    × (scalar_is_in_range five ≡ true)
    × (encode digest five ≡ encode digest five))
classify_iff_example =
    classify_iff digest digest_long (encode digest five) five whole_record record_bytes

-- A record whose commit word was not programmed.
torn : List ℕ
torn = take 40 (encode digest five) ++ replicate 8 255
