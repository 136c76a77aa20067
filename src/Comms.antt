-- ===== src/Comms.antt =====
-- hal/src/comms.rs: the magic-byte gate and the bounded frame reassembler. bincode and the scanner
-- of the magic pattern are crates outside the component, so they are arguments.
pub mod Buffer
pub mod Ends
pub mod Parse
pub mod Stream
pub mod Receive
pub mod Reassembly
use cold_snap.Prelude.{
  ℕ, zero, suc, ◌+◌, ◌-◌, Bool, true, false, ◌||◌, List, [], ◌∷◌, ◌++◌, Result, ok, err, ◌==◌, ltb,
  if◌then◌else◌, length, take, drop, slice, copy_into, replicate, min,
}

-- The bound on a frame, in both directions.
abbrev pub frame_limit : ℕ
frame_limit = 4096

pub data CommsError : Type 0 where
  frame_too_long encode_failed desync body_too_large body_undecodable : CommsError

-- `bincode::error::DecodeError`, as far as the code tells its values apart.
pub data DecodeError : Type 0 where
  unexpected_end limit_exceeded other : DecodeError

-- `bincode::error::EncodeError`, likewise.
pub data EncodeError : Type 0 where
  no_room fault : EncodeError

-- `rx` is an array of `frame_limit` bytes, of which the first `rx_len` are held.
pub record Link : Type 0 where
  pub rx : List ℕ
  pub rx_len : ℕ
  pub magic_progress : ℕ
  pub linked : Bool

unfoldable pub new : Link
new = record { rx = replicate frame_limit 0; rx_len = 0; magic_progress = 0; linked = false }

abbrev pub unlink : Link → Link
unlink l = record l { rx_len = 0; magic_progress = 0; linked = false }

-- The frames dispatched, in order, how the call ended, and the link.
abbrev pub Polled : Type 0 → Type 0
Polled T = List T × Result (Unit {0}) CommsError × Link

-- A frame dispatched before what comes after it.
abbrev pub dispatch : {T : Type 0} → T → Polled T → Polled T
dispatch frame (frames, result, l) = (frame ∷ frames, result, l)

-- `?` after a call that dispatches frames.
abbrev pub and_then : {T : Type 0} → Polled T → (Link → Polled T) → Polled T
and_then (frames, ok _, l) next = let (more, result, l') = next l in (frames ++ more, result, l')
and_then (frames, err e, l) next = (frames, err e, l)

-- `rx.copy_within(n..rx_len, 0); rx_len -= n`
unfoldable pub advance : ℕ → Link → Link
advance n l = record l { rx = copy_into l.rx 0 (slice n l.rx_len l.rx); rx_len = l.rx_len - n }

-- `rx[rx_len..rx_len + take].copy_from_slice(..); rx_len += take`
unfoldable pub buffer : List ℕ → Link → Link
buffer bytes l = record l { rx = copy_into l.rx l.rx_len bytes; rx_len = l.rx_len + length bytes }

-- `decode` answers with a value and the count of bytes that it took.
module _ {T : Type 0} (decode : List ℕ → Result (T × ℕ) DecodeError) where
  -- The loop of `drain`, on fuel: a pass takes at least one byte.
  unfoldable pub drain_loop : ℕ → Link → Polled T
  drain_loop zero l = ([], ok tt, l)
  drain_loop (suc fuel) l =
      if l.rx_len == 0 then ([], ok tt, l) else elim (decode (take l.rx_len l.rx)) [
        | ok (frame, n) ↦
            let rest = drain_loop fuel (advance n l) in
            if n == 0 || ltb l.rx_len n then ([], err desync, unlink l) else dispatch frame rest
        | err unexpected_end ↦ ([], ok tt, l)
        | err _ ↦ ([], err desync, unlink l)
      ]

  unfoldable pub drain : Link → Polled T
  drain l = drain_loop l.rx_len l

  -- The loop of `poll` over the bytes of frames, for the passes that are left.
  unfoldable pub poll_loop : ℕ → List ℕ → Link → Polled T
  poll_loop zero rest l = ([], err desync, unlink l)
  poll_loop (suc passes) [] l = drain l
  poll_loop (suc passes) (b ∷ bs) l =
      let rest = b ∷ bs in
      let n = min (frame_limit - l.rx_len) (length rest) in
      and_then (drain (buffer (take n rest) l)) (poll_loop passes (drop n rest))

  module _ (progress : List ℕ → ℕ → ℕ × Bool × ℕ) where
    -- `progress bytes before` is the new progress, whether the pattern completed, and the bytes eaten.
    unfoldable pub scan_magic : List ℕ → Link → ℕ × Link
    scan_magic bytes l =
        let (after, found, eaten) = progress bytes l.magic_progress in
        if found
        then (eaten, record l { magic_progress = after; rx_len = 0; linked = true })
        else (eaten, record l { magic_progress = after })

    unfoldable pub poll : List ℕ → Link → Polled T
    poll bytes l =
        let (eaten, l') = scan_magic bytes l in
        let rest = drop eaten bytes in
        if l.linked
        then poll_loop (suc (length bytes)) bytes l
        else if l'.linked
        then poll_loop (suc (length rest)) rest l'
        else ([], ok tt, l')

-- `encode_frame`: what bincode answers for a buffer of `frame_limit` bytes.
unfoldable pub encode_frame : Result ℕ EncodeError → Result ℕ CommsError
encode_frame (ok n) = ok n
encode_frame (err no_room) = err frame_too_long
encode_frame (err fault) = err encode_failed
