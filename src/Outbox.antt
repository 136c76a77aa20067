-- ===== src/Outbox.antt =====
-- firmware/src/lib.rs, `Outbox`: the frames that wait to go out. `encode_into_slice` is bincode's, into the
-- buffer of a frame: what it answers, and the buffer after it. A text is as in Store.
pub mod Cut
pub mod Frames
use cold_snap.Prelude.{
  ℕ, zero, suc, ◌+◌, ◌-◌, Bool, true, false, ◌&&◌, ◌||◌, List, [], ◌∷◌, ◌++◌, Result, ok, err, ◌==◌,
  ltb, leb, if◌then◌else◌, length, take,
}
use cold_snap.Prelude.Exec.{Exec, continue}
use cold_snap.Comms.{EncodeError, CommsError, encode_frame}
use cold_snap.Store.{Text, concat}

abbrev debug_message_limit : ℕ
debug_message_limit = 256

-- `N` is a segment of nonces, and `M` any other body.
pub data DeviceSendBody (N M : Type 0) : Type 0 where
  nonce_response : List N → DeviceSendBody N M
  debug : Text → DeviceSendBody N M
  other : M → DeviceSendBody N M

pub record Outbox : Type 0 where
  pub bytes : List ℕ
  pub frames : ℕ

abbrev pub new : Outbox
new = record { bytes = []; frames = 0 }

-- `take`
unfoldable take_bytes : Outbox → List ℕ × Outbox
take_bytes o = (o.bytes, new)

unfoldable pub is_char_boundary : ℕ → Text → Bool
is_char_boundary n [] = n == 0
is_char_boundary n (c ∷ cs) =
    let rest = is_char_boundary (n - length c) cs in (n == 0) || (leb (length c) n && rest)

-- The loop: `end` goes down to a boundary.
unfoldable pub back_up : ℕ → Text → ℕ
back_up zero t = zero
back_up (suc n) t = let rest = back_up n t in if is_char_boundary (suc n) t then suc n else rest

-- `String::truncate` at a boundary.
unfoldable pub truncate : ℕ → Text → Text
truncate n [] = []
truncate n (c ∷ cs) =
    let rest = truncate (n - length c) cs in if leb (length c) n then c ∷ rest else []

unfoldable pub truncate_debug : Text → Text
truncate_debug message =
    if leb (length (concat message)) debug_message_limit
    then message
    else truncate (back_up debug_message_limit message) message

module _ {N M : Type 0}
    (encode_into_slice : DeviceSendBody N M → Result ℕ EncodeError × List ℕ) where
  unfoldable pub encoded : Result ℕ CommsError → List ℕ → Exec Outbox (Unit {0}) CommsError
  encoded (ok len) buf o =
      (ok tt, record { bytes = o.bytes ++ take len buf; frames = o.frames + 1 })
  encoded (err e) buf o = (err e, o)

  unfoldable pub encode : DeviceSendBody N M → Exec Outbox (Unit {0}) CommsError
  encode body o = let (answer, buf) = encode_into_slice body in encoded (encode_frame answer) buf o

  -- The loop of `push`, whose inner calls have one segment each.
  unfoldable pub push_segments : List N → Exec Outbox (Unit {0}) CommsError
  push_segments [] o = (ok tt, o)
  push_segments (segment ∷ segments) o =
      continue (encode (nonce_response (segment ∷ [])) o) (λ _. push_segments segments)

  unfoldable pub push : DeviceSendBody N M → Exec Outbox (Unit {0}) CommsError
  push (nonce_response segments) o =
      if ltb 1 (length segments)
      then push_segments segments o
      else encode (nonce_response segments) o
  push (debug message) o = encode (debug (truncate_debug message)) o
  push (other body) o = encode (other body) o
