-- ===== src/Outbox/Frames.antt =====
-- firmware/src/lib.rs, `Outbox::push`: whole frames, in order, up to the first that does not fit.
use cold_snap.Prelude.{
  ℕ, ◌+◌, ◌≤◌, ◌≡◌, ◌⊎◌, inl, inr, refl, sym, ap, ◌∙◌, subst, List, [], ◌∷◌, ◌++◌, map, Result, ok,
  err, ltb, length, take, arith, append_assoc, append-nil, ltb→lt, ◌<◌, Bool-cases, Result-cases,
}
use cold_snap.Prelude.Exec.{Exec, continue}
use cold_snap.Comms.{EncodeError, CommsError, encode_frame}
use cold_snap.Store.{Text}
use cold_snap.Outbox.Cut.{IsCut, truncate_debug-IsCut}
use cold_snap.Outbox.{
  DeviceSendBody, nonce_response, debug, other, Outbox, truncate_debug, encoded, encode,
  push_segments, push,
}

module _ {N M : Type 0} where
  -- The bodies that are framed for one, one by one: the segments of several, and of a text the characters that
  -- fit in 256 bytes.
  pub data AreParts : DeviceSendBody N M → List (DeviceSendBody N M) → Type 0 where
    each_segment :
        (segments : List N)
        → 1 < length segments
        → AreParts
            (nonce_response segments)
            (map (λ segment. nonce_response (segment ∷ [])) segments)
    one_segment :
        (segments : List N)
        → length segments ≤ 1
        → AreParts (nonce_response segments) (nonce_response segments ∷ [])
    cut_text :
        (message cut : Text) → IsCut 256 message cut → AreParts (debug message) (debug cut ∷ [])
    as_it_is : (body : M) → AreParts (other body) (other body ∷ [])

module _ {N M : Type 0}
    (encode_into_slice : DeviceSendBody N M → Result ℕ EncodeError × List ℕ) where
  -- A body with the length of its frame.
  abbrev Sent : Type 0
  Sent = (body : DeviceSendBody N M) × (n : ℕ) × (encode_frame (encode_into_slice body).0 ≡ ok n)

  abbrev pub body_of : Sent → DeviceSendBody N M
  body_of (body, n, e) = body

  abbrev wire : List Sent → List ℕ
  wire [] = []
  wire ((body, n, e) ∷ sent) = take n (encode_into_slice body).1 ++ wire sent

  unfoldable push_each : List (DeviceSendBody N M) → Exec Outbox (Unit {0}) CommsError
  push_each [] o = (ok tt, o)
  push_each (body ∷ bodies) o = continue (encode encode_into_slice body o) (λ _. push_each bodies)

  -- What `push` leaves: the frames of a part of the bodies behind what was there.
  abbrev pub IsPushed :
      List (DeviceSendBody N M) → Outbox → Result (Unit {0}) CommsError × Outbox → Type 0
  IsPushed bodies o result =
      (sent : List Sent) × (rest : List (DeviceSendBody N M)) × (bodies ≡ map body_of sent ++ rest)
      × (result.1.bytes ≡ o.bytes ++ wire sent)
      × (result.1.frames ≡ o.frames + length sent)
      × (((result.0 ≡ ok tt) × (rest ≡ []))
          ⊎ ((body : DeviceSendBody N M) × (bodies' : List (DeviceSendBody N M)) × (e : CommsError)
              × (rest ≡ body ∷ bodies')
              × (encode_frame (encode_into_slice body).0 ≡ err e)
              × (result.0 ≡ err e)))

  push_each-IsPushed :
      (bodies : List (DeviceSendBody N M)) (o : Outbox) → IsPushed bodies o (push_each bodies o)
  unfolding push_each encode encoded
  push_each-IsPushed [] o = ([], [], refl, sym (append-nil o.bytes), omega arith, inl (refl, refl))
  push_each-IsPushed (b ∷ bs) o = elim (Result-cases (encode_frame (encode_into_slice b).0)) [
    | inl (n, e) ↦
        let frame = take n (encode_into_slice b).1 in
        let o' : Outbox = record { bytes = o.bytes ++ frame; frames = o.frames + 1 } in
        let (sent, rest, split, bytes, frames, end) = push_each-IsPushed bs o' in
        rw e (
          (b, n, e) ∷ sent,
          rest,
          ap (λ bodies. b ∷ bodies) split,
          bytes ∙ append_assoc o.bytes frame (wire sent),
          omega (arith, frames),
          end,
        )
    | inr (why, e) ↦
        rw e
          ([], b ∷ bs, refl, sym (append-nil o.bytes), omega arith, inr (b, bs, why, refl, e, refl))
  ]

  continue-ext :
      (m : Result (Unit {0}) CommsError × Outbox)
      (f g : Unit {0} → Exec Outbox (Unit {0}) CommsError)
      → ((o : Outbox) → f tt o ≡ g tt o)
      → continue m f ≡ continue m g
  continue-ext (ok u, o) f g h = h o
  continue-ext (err e, o) f g h = refl

  continue-unit : (m : Result (Unit {0}) CommsError × Outbox) → continue m (λ _ o. (ok tt, o)) ≡ m
  continue-unit (ok u, o) = refl
  continue-unit (err e, o) = refl

  one_lem :
      (body : DeviceSendBody N M) (o : Outbox)
      → IsPushed (body ∷ []) o (encode encode_into_slice body o)
  unfolding push_each
  one_lem body o =
      subst (IsPushed (body ∷ []) o) (continue-unit (encode encode_into_slice body o))
        (push_each-IsPushed (body ∷ []) o)

  segments_lem :
      (segments : List N) (o : Outbox)
      → push_each (map (λ segment. nonce_response (segment ∷ [])) segments) o
        ≡ push_segments encode_into_slice segments o
  unfolding push_each push_segments
  segments_lem [] o = refl
  segments_lem (segment ∷ segments) o =
      continue-ext (encode encode_into_slice (nonce_response (segment ∷ [])) o)
        (λ _. push_each (map (λ segment. nonce_response (segment ∷ [])) segments))
        (λ _. push_segments encode_into_slice segments) (segments_lem segments)

  -- A push frames a body's parts in order: each segment of several by itself, and a text cut before the first
  -- character that goes past 256 bytes. What is held is what was, with a whole frame for each part up to the
  -- first that the encoder refuses; the result is its error, or ok where there is none.
  pub push-IsPushed :
      (body : DeviceSendBody N M) (o : Outbox)
      → (bodies : List (DeviceSendBody N M)) × AreParts body bodies
        × IsPushed bodies o (push encode_into_slice body o)
  unfolding push
  push-IsPushed (nonce_response segments) o = elim (Bool-cases (ltb 1 (length segments))) [
    | inl e ↦
        let bodies = map (λ segment. nonce_response (segment ∷ [])) segments in
        (
          bodies,
          each_segment segments (ltb→lt 1 (length segments) e),
          rw e (subst (IsPushed bodies o) (segments_lem segments o) (push_each-IsPushed bodies o)),
        )
    | inr e ↦ (
      nonce_response segments ∷ [],
      one_segment segments (ground (arith, e)),
      rw e (one_lem (nonce_response segments) o),
    )
  ]
  push-IsPushed (debug message) o = (
    debug (truncate_debug message) ∷ [],
    cut_text message (truncate_debug message) (truncate_debug-IsCut message),
    one_lem (debug (truncate_debug message)) o,
  )
  push-IsPushed (other body) o = (other body ∷ [], as_it_is body, one_lem (other body) o)
