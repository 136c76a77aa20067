-- ===== src/Store/Keygen.antt =====
-- firmware/src/store.rs: what the store takes from UTF-8 and from the slot, and the mutations of one keygen.
use cold_snap.Prelude.{
  ℕ, ◌≤◌, ◌≡◌, refl, List, [], ◌∷◌, Option, some, ok, length, take, copy_into, replicate,
}
use cold_snap.Prelude.Bytes.{bytes_eq_self}
use cold_snap.Store.{
  Text, concat, ShareBody, Mutation, new_key, new_access_structure, save_share, AbWriteOutcome,
  committed, committed_single_copy, body_from,
}
use cold_snap.Store.Names.{AllChars, truncate_name_lem}

-- UTF-8: a character has at most four bytes, and the bytes of characters read back as them.
pub record Utf8Laws (IsChar : List ℕ → Type 0) (from_utf8 : List ℕ → Option Text) : Type 0 where
  pub size : (c : List ℕ) → IsChar c → length c ≤ 4
  pub reads_text : (t : Text) → AllChars IsChar t → from_utf8 (concat t) ≡ some t

-- The slot: what it commits, to both copies or to one, it reads. Of a write that it refuses nothing is said: a
-- record of more than one chunk may be torn.
pub record SlotLaws {F : Type 0} (try_write : List ℕ → F → AbWriteOutcome × F)
    (read : F → Option (List ℕ)) : Type 0 where
  pub committed_lem : (r : List ℕ) (f f' : F) → try_write r f ≡ (committed, f') → read f' ≡ some r
  pub single_copy_lem :
      (r : List ℕ) (e : ℕ) (f f' : F)
      → try_write r f ≡ (committed_single_copy e, f')
      → read f' ≡ some r

-- The body of a triple.
abbrev pub triple_body :
    {Pu Ki Sh : Type 0} → List ℕ → List ℕ → ℕ → Text → Pu → Ki → Sh → ShareBody Pu Ki Sh
triple_body key structure threshold name purpose kind share = record {
  key_id = key;
  access_structure_id = structure;
  threshold = threshold;
  name_len = length (concat (take 15 name));
  name = copy_into (replicate 60 0) 0 (concat (take 15 name));
  purpose = purpose;
  kind = kind;
  share = share;
}

-- The mutations of one keygen, as they are staged.
abbrev pub triple :
    {Pu Ki Sh : Type 0} → List ℕ → List ℕ → ℕ → Text → Pu → Ki → Sh → List (Mutation Pu Ki Sh)
triple key structure threshold name purpose kind share =
    new_key key name purpose
    ∷ new_access_structure key structure threshold kind
    ∷ save_share key structure share
    ∷ []

pub body_from-triple :
    {Pu Ki Sh : Type 0}
    → (IsChar : List ℕ → Type 0) → ((c : List ℕ) → IsChar c → length c ≤ 4)
    → (key structure : List ℕ) (threshold : ℕ) (name : Text) (purpose : Pu) (kind : Ki) (share : Sh)
    → AllChars IsChar name
    → body_from (triple key structure threshold name purpose kind share)
      ≡ ok (triple_body key structure threshold name purpose kind share)
unfolding body_from
body_from-triple IsChar size key structure threshold name purpose kind share chars =
    rw (bytes_eq_self key, bytes_eq_self structure, truncate_name_lem IsChar size name chars) refl
