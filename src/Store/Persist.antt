-- ===== src/Store/Persist.antt =====
-- firmware/src/store.rs, `persist_staged`: what a save leaves staged and on flash, and what `load` reads of it.
use cold_snap.Prelude.{
  ℕ, ◌≤◌, ◌<◌, ◌≡◌, ◌⊎◌, inl, inr, refl, ap, ◌∙◌, List, [], Option, none, some, Result, ok, err,
  length, take, Option-cases,
}
use cold_snap.Store.{
  Text, ShareBody, Coded, held, Mutation, StoreFault, flash, too_big, AbWriteOutcome, committed,
  committed_single_copy, not_committed, coded_of, retain, written_out, seal, unseal,
  text_or_default, mutations, write_sealed, persist_kept, persist_staged, load_from, load,
}
use cold_snap.Store.Fields.{HasSizes}
use cold_snap.Store.Names.{AllChars, AllChars-take, name_short, length-name, take-name}
use cold_snap.Store.RoundTrip.{CodecLaws, unseal-seal, seal-none, seal-some}
use cold_snap.Store.Keygen.{Utf8Laws, SlotLaws, triple_body, triple, body_from-triple}

module _ {Pu Ki Sh : Type 0} (sha256 : List ℕ → List ℕ)
    (encode : ℕ → Coded Pu Ki Sh → Option (List ℕ)) (decode : List ℕ → Option (Coded Pu Ki Sh))
    (from_utf8 : List ℕ → Option Text) {F : Type 0} (try_write : List ℕ → F → AbWriteOutcome × F)
    (read : F → Option (List ℕ)) where
  -- What `write_sealed` returns for each outcome.
  abbrev Outcomes :
      (staged cut : List (Mutation Pu Ki Sh))
      → ShareBody Pu Ki Sh
      → F
      → Result (Unit {0}) StoreFault × (List (Mutation Pu Ki Sh) × F)
      → Type 0
  Outcomes staged cut b f result =
      ((record' : List ℕ) × (e : ℕ) × (f' : F) × (try_write record' f ≡ (not_committed e, f'))
        × (result ≡ (err (flash e), (staged, f'))))
      ⊎ ((f' : F) × (result ≡ (ok tt, ([], f')))
          × (load sha256 encode decode from_utf8 try_write read f' ≡ held b)
          × (mutations sha256 encode decode from_utf8 b ≡ cut))

  load-written :
      (record' : List ℕ) (b : ShareBody Pu Ki Sh) (f' : F)
      → read f' ≡ some record'
      → unseal sha256 encode decode from_utf8 record' ≡ held b
      → load sha256 encode decode from_utf8 try_write read f' ≡ held b
  unfolding load load_from
  load-written record' b f' e u = rw (e, u) refl

  outcomes_lem :
      SlotLaws try_write read
      → (record' : List ℕ) (staged cut : List (Mutation Pu Ki Sh)) (b : ShareBody Pu Ki Sh) (f : F)
      → unseal sha256 encode decode from_utf8 record' ≡ held b
      → mutations sha256 encode decode from_utf8 b ≡ cut
      → (o : AbWriteOutcome) (f' : F) → try_write record' f ≡ (o, f')
      → Outcomes staged cut b f ((written_out o staged).0, ((written_out o staged).1, f'))
  unfolding written_out
  outcomes_lem laws record' staged cut b f u c committed f' e =
      inr (f', refl, load-written record' b f' (laws.committed_lem record' f f' e) u, c)
  outcomes_lem laws record' staged cut b f u c (committed_single_copy n) f' e =
      inr (f', refl, load-written record' b f' (laws.single_copy_lem record' n f f' e) u, c)
  outcomes_lem laws record' staged cut b f u c (not_committed n) f' e =
      inl (record', n, f', e, refl)

  module _ (IsChar : List ℕ → Type 0) (utf8 : Utf8Laws IsChar from_utf8) (key structure : List ℕ)
      (threshold : ℕ) (name : Text) (purpose : Pu) (kind : Ki) (share : Sh)
      (chars : AllChars IsChar name) where
    abbrev body : ShareBody Pu Ki Sh
    body = triple_body key structure threshold name purpose kind share

    text_lem : from_utf8 (take body.name_len body.name) ≡ some (take 15 name)
    text_lem =
        ap from_utf8 (take-name IsChar utf8.size name chars)
        ∙ utf8.reads_text (take 15 name) (AllChars-take IsChar 15 name chars)

    mutations-body :
        mutations sha256 encode decode from_utf8 body
        ≡ triple key structure threshold (take 15 name) purpose kind share
    unfolding mutations text_or_default
    mutations-body = rw text_lem refl

    saved :
        SlotLaws try_write read
        → (record' : List ℕ) (f : F) → seal sha256 encode decode from_utf8 body ≡ ok record'
        → unseal sha256 encode decode from_utf8 record' ≡ held body
        → Outcomes
            (triple key structure threshold name purpose kind share)
            (triple key structure threshold (take 15 name) purpose kind share)
            body
            f
            (persist_kept sha256 encode decode from_utf8 try_write read
              (triple key structure threshold name purpose kind share)
              f)
    unfolding persist_kept write_sealed
    saved laws record' f sealed u =
        rw
          (
            body_from-triple IsChar utf8.size key structure threshold name purpose kind share chars,
            sealed,
          )
          (outcomes_lem laws record' (triple key structure threshold name purpose kind share)
            (triple key structure threshold (take 15 name) purpose kind share) body f u
            mutations-body (try_write record' f).0 (try_write record' f).1 refl)

    too_long :
        (f : F)
        → seal sha256 encode decode from_utf8 body ≡ err too_big
        → persist_kept sha256 encode decode from_utf8 try_write read
            (triple key structure threshold name purpose kind share)
            f
          ≡ (err too_big, (triple key structure threshold name purpose kind share, f))
    unfolding persist_kept write_sealed
    too_long f e =
        rw
          (
            body_from-triple IsChar utf8.size key structure threshold name purpose kind share chars,
            e,
          )
          refl

    -- For a hash of at least eight bytes, and a codec, a slot and a check of UTF-8 that keep their laws:
    -- where one keygen is staged, beside any restorations, a save fails as too big only where the codec's
    -- part does not fit, fails with the flash's error only where the slot refuses the write, and keeps the
    -- keygen staged both times; otherwise it returns ok, nothing is staged, and `load` reads a share whose
    -- mutations are the keygen's, in their order, the name cut to fifteen characters.
    pub persist_staged-load :
        (staged : List (Mutation Pu Ki Sh)) (f : F)
        → ((m : List ℕ) → 8 ≤ length (sha256 m))
        → CodecLaws encode decode
        → SlotLaws try_write read
        → length key ≡ 32
        → length structure ≡ 32
        → threshold < 65536
        → retain staged ≡ triple key structure threshold name purpose kind share
        → ((encode 367 (record { coded_purpose = purpose; coded_kind = kind; coded_share = share })
              ≡ none)
            × (persist_staged sha256 encode decode from_utf8 try_write read (staged, f)
                ≡ (err too_big, (triple key structure threshold name purpose kind share, f))))
          ⊎ (((record' : List ℕ) × (e : ℕ) × (f' : F) × (try_write record' f
                  ≡ (not_committed e, f'))
                × (persist_staged sha256 encode decode from_utf8 try_write read (staged, f) ≡ (
                  err (flash e),
                  (triple key structure threshold name purpose kind share, f'),
                )))
              ⊎ ((b : ShareBody Pu Ki Sh) × (f' : F) × (persist_staged sha256 encode decode
                      from_utf8 try_write read
                      (staged, f)
                    ≡ (ok tt, ([], f')))
                  × (load sha256 encode decode from_utf8 try_write read f' ≡ held b)
                  × (mutations sha256 encode decode from_utf8 b
                      ≡ triple key structure threshold (take 15 name) purpose kind share)))
    unfolding persist_staged coded_of
    persist_staged-load staged f long codec slot k s t kept =
        let sizes : HasSizes body = record {
          key_size = k;
          structure_size = s;
          name_size = length-name IsChar utf8.size name chars;
        } in
        elim (Option-cases (encode 367 (coded_of body))) [
          | inl e ↦
              inl (
                e,
                rw (kept, too_long f (seal-none sha256 encode decode from_utf8 long body e)) refl,
              )
          | inr (bytes, e) ↦
              let (record', sealed) =
                seal-some sha256 encode decode from_utf8 long body bytes sizes e
                  (codec.fits 367 (coded_of body) bytes e) in
              let u =
                unseal-seal sha256 encode decode from_utf8 long body (take 15 name) record' codec
                  sizes t (name_short IsChar utf8.size name chars) text_lem sealed in
              elim (saved slot record' f sealed u) [
                | inl (r, n, f', w, p) ↦ inr (inl (r, n, f', w, rw (kept, p) refl))
                | inr (f', p, l, m) ↦ inr (inr (body, f', rw (kept, p) refl, l, m))
              ]
        ]
