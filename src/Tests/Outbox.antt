-- ===== src/Tests/Outbox.antt =====
-- firmware/src/lib.rs, `Outbox`, over an encoder that gives two bytes for a segment, and none for a 5.
use cold_snap.Prelude.{ℕ, ◌≡◌, refl, List, [], ◌∷◌, Result, ok, err, ◌==◌, if◌then◌else◌}
use cold_snap.Comms.{EncodeError, no_room, frame_too_long, encode_frame}
use cold_snap.Outbox.{
  DeviceSendBody, nonce_response, debug, other, new, encode, push_segments, push, encoded,
}
use cold_snap.Outbox.Frames.{AreParts, IsPushed, push-IsPushed}

abbrev encode_into_slice : DeviceSendBody ℕ ℕ → Result ℕ EncodeError × List ℕ
encode_into_slice (nonce_response (segment ∷ [])) =
    if segment == 5 then (err no_room, []) else (ok 2, segment ∷ 7 ∷ 0 ∷ [])
encode_into_slice (nonce_response segments) = (err no_room, [])
encode_into_slice (debug message) = (ok 1, 9 ∷ 0 ∷ [])
encode_into_slice (other body) = (err no_room, [])

abbrev two_segments : DeviceSendBody ℕ ℕ
two_segments = nonce_response (4 ∷ 5 ∷ [])

-- The body is refused, and the frame of its first segment stays.
half_pushed :
    push encode_into_slice two_segments new
    ≡ (err frame_too_long, record { bytes = 4 ∷ 7 ∷ []; frames = 1 })
unfolding push push_segments encode encoded encode_frame
half_pushed = refl

push-IsPushed_example :
    (bodies : List (DeviceSendBody ℕ ℕ)) × AreParts two_segments bodies
    × IsPushed encode_into_slice bodies new (push encode_into_slice two_segments new)
push-IsPushed_example = push-IsPushed encode_into_slice two_segments new
