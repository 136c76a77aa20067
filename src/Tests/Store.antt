-- ===== src/Tests/Store.antt =====
-- firmware/src/store.rs over a codec of three numbers, a text of single bytes, and a slot that keeps one record.
use cold_snap.Prelude.{
  ℕ, zero, suc, ◌≤◌, ◌≡◌, ◌⊎◌, refl, sym, ap, List, [], ◌∷◌, ◌++◌, Option, none, some, Result, ok,
  err, map, length, take, replicate, copy_into, arith, length-append, length-replicate, leb,
  if◌then◌else◌,
}
use cold_snap.Prelude.Bytes.{bytes_eq}
use cold_snap.Store.{
  committed_single_copy, truncate_name, name_end, nth_index, written_out, Text, concat, ShareBody,
  Coded, held, Mutation, restoration, StoreFault, flash, too_big, AbWriteOutcome, committed,
  not_committed, seal, seal_coded, seal_with, coded_of, unseal, mutations, body_from, retain,
  write_sealed, persist_kept, persist_staged, load,
}
use cold_snap.Store.Fields.{HasSizes}
use cold_snap.Store.Names.{AllChars}
use cold_snap.Store.RoundTrip.{CodecLaws, unseal-seal}
use cold_snap.Store.Keygen.{Utf8Laws, SlotLaws, triple}
use cold_snap.Store.Retry.{saves, IsKept, saves-IsKept}
use cold_snap.Store.Persist.{persist_staged-load}

pub digest : List ℕ → List ℕ
digest m = replicate 8 7 ++ m

pub digest_long : (m : List ℕ) → 8 ≤ length (digest m)
unfolding digest
digest_long m = omega (arith, length-append (replicate 8 7) m, length-replicate {A = ℕ} 8 7)

abbrev pub encode : ℕ → Coded ℕ ℕ ℕ → Option (List ℕ)
encode room c =
    if leb 3 room then some (c.coded_purpose ∷ c.coded_kind ∷ c.coded_share ∷ []) else none

abbrev pub decode : List ℕ → Option (Coded ℕ ℕ ℕ)
decode (p ∷ k ∷ s ∷ rest) = some (record { coded_purpose = p; coded_kind = k; coded_share = s })
decode bytes = none

in_room :
    (room : ℕ) (c : Coded ℕ ℕ ℕ) (bytes : List ℕ) → encode room c ≡ some bytes → length bytes ≤ room
in_room room c bytes e = grind arith

read_back :
    (room : ℕ) (c : Coded ℕ ℕ ℕ) (bytes : List ℕ)
    → encode room c ≡ some bytes
    → decode bytes ≡ some c
read_back room c bytes e = grind arith

pub codec_laws : CodecLaws encode decode
codec_laws = record { fits = in_room; reads = read_back }

abbrev pub from_utf8 : List ℕ → Option Text
from_utf8 bytes = some (map (λ b. b ∷ []) bytes)

single : (t : Text) → AllChars (λ c. length c ≡ 1) t → map (λ b. b ∷ []) (concat t) ≡ t
unfolding concat
single [] h = refl
single ([] ∷ cs) h = absurd (omega (arith, h.0))
single ((b ∷ []) ∷ cs) h = ap (λ t. (b ∷ []) ∷ t) (single cs h.1)
single ((a ∷ b ∷ bs) ∷ cs) h = absurd (omega (arith, h.0))

pub utf8_laws : Utf8Laws (λ c. length c ≡ 1) from_utf8
utf8_laws = record { size = λ c h. omega (arith, h); reads_text = λ t h. ap some (single t h) }

abbrev pub try_write : List ℕ → Option (List ℕ) → AbWriteOutcome × Option (List ℕ)
try_write r f = (committed, some r)

abbrev pub read : Option (List ℕ) → Option (List ℕ)
read f = f

pub slot_laws : SlotLaws try_write read
slot_laws = record {
  committed_lem = λ r f f' e. sym (ap (λ p. p.1) e);
  single_copy_lem = λ r n f f' e. absurd (cc e);
}

-- A key, its structure, and a name of one character in its array.
abbrev pub key : List ℕ
key = replicate 32 3

abbrev pub structure : List ℕ
structure = replicate 32 4

abbrev body : ShareBody ℕ ℕ ℕ
body = record {
  key_id = key;
  access_structure_id = structure;
  threshold = 2;
  name_len = 1;
  name = 118 ∷ replicate 59 0;
  purpose = 1;
  kind = 5;
  share = 9;
}

body_sizes : HasSizes body
unfolding replicate
body_sizes = record {
  key_size = length-replicate {A = ℕ} 32 3;
  structure_size = length-replicate {A = ℕ} 32 4;
  name_size = refl;
}

abbrev record_of : Result (List ℕ) StoreFault → List ℕ
record_of (ok r) = r
record_of (err e) = []

abbrev sealed_body : List ℕ
sealed_body = record_of (seal digest encode decode from_utf8 body)

seals : seal digest encode decode from_utf8 body ≡ ok sealed_body
unfolding seal seal_coded seal_with coded_of
seals = refl

named : from_utf8 (take 1 (118 ∷ replicate 59 0)) ≡ some ((118 ∷ []) ∷ [])
unfolding replicate
named = refl

unseal-seal_example : unseal digest encode decode from_utf8 sealed_body ≡ held body
unseal-seal_example =
    unseal-seal digest encode decode from_utf8 digest_long body ((118 ∷ []) ∷ []) sealed_body
      codec_laws body_sizes (omega arith) (omega arith) named seals

-- A keygen behind a restoration.
abbrev pub staged : List (Mutation ℕ ℕ ℕ)
staged = restoration ∷ triple key structure 2 ((118 ∷ []) ∷ []) 1 5 9

pub staged_kept : retain staged ≡ triple key structure 2 ((118 ∷ []) ∷ []) 1 5 9
unfolding retain
staged_kept = refl

body_of_staged : body_from (retain staged) ≡ ok body
unfolding body_from retain bytes_eq replicate truncate_name name_end copy_into nth_index concat
body_of_staged = refl

pub staged_saved :
    persist_staged digest encode decode from_utf8 try_write read (staged, none)
    ≡ (ok tt, ([], some sealed_body))
unfolding persist_staged persist_kept write_sealed retain written_out
staged_saved = rw (body_of_staged, seals) refl

persist_staged-load_example :
    ((encode 367 (record { coded_purpose = 1; coded_kind = 5; coded_share = 9 }) ≡ none)
      × (persist_staged digest encode decode from_utf8 try_write read (staged, none)
          ≡ (err too_big, (triple key structure 2 ((118 ∷ []) ∷ []) 1 5 9, none))))
    ⊎ (((record' : List ℕ) × (e : ℕ) × (f' : Option (List ℕ)) × (try_write record' none
            ≡ (not_committed e, f'))
          × (persist_staged digest encode decode from_utf8 try_write read (staged, none)
              ≡ (err (flash e), (triple key structure 2 ((118 ∷ []) ∷ []) 1 5 9, f'))))
        ⊎ ((b : ShareBody ℕ ℕ ℕ) × (f' : Option (List ℕ)) × (persist_staged digest encode decode
                from_utf8 try_write read
                (staged, none)
              ≡ (ok tt, ([], f')))
            × (load digest encode decode from_utf8 try_write read f' ≡ held b)
            × (mutations digest encode decode from_utf8 b
                ≡ triple key structure 2 (take 15 ((118 ∷ []) ∷ [])) 1 5 9)))
persist_staged-load_example =
    persist_staged-load digest encode decode from_utf8 try_write read (λ c. length c ≡ 1) utf8_laws
      key structure 2 ((118 ∷ []) ∷ []) 1 5 9 (refl, tt) staged none digest_long codec_laws
      slot_laws (length-replicate {A = ℕ} 32 3) (length-replicate {A = ℕ} 32 4) (omega arith)
      staged_kept

-- A slot that tears what it holds at so many writes that it refuses, and then commits.
abbrev Tearing : Type 0
Tearing = ℕ × Option (List ℕ)

abbrev tear : List ℕ → Tearing → AbWriteOutcome × Tearing
tear r (suc n, f) = (not_committed 1, (n, none))
tear r (zero, f) = (committed, (zero, some r))

abbrev read_torn : Tearing → Option (List ℕ)
read_torn (n, f) = f

tearing_laws : SlotLaws tear read_torn
tearing_laws = record { committed_lem = commits; single_copy_lem = no_single }
  where
    commits : (r : List ℕ) (f f' : Tearing) → tear r f ≡ (committed, f') → read_torn f' ≡ some r
    commits r (suc n, f) f' e = absurd (cc e)
    commits r (zero, f) f' e = sym (ap (λ p. read_torn p.1) e)

    no_single :
        (r : List ℕ) (e : ℕ) (f f' : Tearing)
        → tear r f ≡ (committed_single_copy e, f')
        → read_torn f' ≡ some r
    no_single r e (suc n, f) f' h = absurd (cc h)
    no_single r e (zero, f) f' h = absurd (cc h)

-- Two writes are refused, the third is not.
saves-IsKept_example :
    IsKept digest encode decode from_utf8 tear read_torn
      (λ c. length c ≡ 1)
      utf8_laws
      key
      structure
      2
      ((118 ∷ []) ∷ [])
      1
      5
      9
      (refl, tt)
      (saves digest encode decode from_utf8 tear read_torn (0 ∷ 3 ∷ []) 1 (staged, (2, none)))
saves-IsKept_example =
    saves-IsKept digest encode decode from_utf8 tear read_torn (λ c. length c ≡ 1) utf8_laws key
      structure 2 ((118 ∷ []) ∷ []) 1 5 9 (refl, tt) digest_long codec_laws tearing_laws
      (length-replicate {A = ℕ} 32 3) (length-replicate {A = ℕ} 32 4) (omega arith) (0 ∷ 3 ∷ []) 1
      staged (2, none) staged_kept
