-- ===== src/Protocol/Grants.antt =====
-- firmware/src/lib.rs: the grants of a session, what gives one, and that `run` leaves them alone.
use cold_snap.Prelude.{
  ◌≡◌, ◌⊎◌, inl, inr, refl, ap, Bool, true, false, List, [], ◌∷◌, Option, none, some, Result, ok,
  err,
}
use cold_snap.Prelude.Exec.{continue, map_err}
use cold_snap.Store.{StoreFault}
use cold_snap.Reveal.{
  grant, grant_from, backup_pages, show_backup, show_granted, show_pages, after_render, render,
  backup_recorded, recorded_if,
}
use cold_snap.Messages.{
  display_backup, core_message, preview, name_prompt, upgrade, challenge, announce_ack, cancel,
  erase_data, check_backup, enter_backup, restoration, DeviceSend,
}
use cold_snap.Protocol.{store, Checking, Session, Parts, work_loop, persist, run}
use cold_snap.Protocol.Calls.{Call, received, answered, typed, chosen, turned, recorded}
use cold_snap.Protocol.Loop.{work_loop-view}

module _ {X Ph : Type 0} where
  abbrev cancels : Call X Ph → Bool
  cancels (received cancel) = true
  cancels (received (core_message m)) = false
  cancels (received (preview name)) = false
  cancels (received (name_prompt m)) = false
  cancels (received announce_ack) = false
  cancels (received (upgrade m)) = false
  cancels (received erase_data) = false
  cancels (received (challenge m)) = false
  cancels (answered prompt page) = false
  cancels (typed key) = false
  cancels (chosen key) = false
  cancels (turned page) = false
  cancels recorded = false

  -- No `Cancel` of the coordinator is among the calls.
  abbrev pub IsUncancelled : List (Call X Ph) → Type 0
  IsUncancelled [] = Unit {0}
  IsUncancelled (c ∷ cs) = (cancels c ≡ false) × IsUncancelled cs

-- What a call makes of a grant: it drops it, leaves it where it is no `Cancel`, or is the yes that gives it.
abbrev pub IsStep :
    {X Ph G : Type 0} → (G → Call X Ph → Type 0) → Call X Ph → Option G → Option G → Type 0
IsStep IsAsked c before after =
    (after ≡ none)
    ⊎ (((cancels c ≡ false) × (after ≡ before)) ⊎ ((g : _) × IsAsked g c × (after ≡ some g)))

module _ {X Mu Ph S F En Qz E C O : Type 0} (parts : Parts X Mu Ph S F En Qz E C O) where
  abbrev State : Type 0
  State = Session Ph S F En Qz × O

  abbrev pub IsReveal : Ph → Call X Ph → Type 0
  IsReveal phase c = c ≡ answered (restoration (display_backup phase)) 0

  -- Whether there is an entry, and what a quiz was asked for.
  abbrev pub live : Option En → Option (Unit {0})
  live none = none
  live (some entry) = some tt

  abbrev pub asked_of : Option (Checking Qz Ph) → Option Ph
  asked_of none = none
  asked_of (some check) = some check.asked

  abbrev pub IsEntry : Unit {0} → Call X Ph → Type 0
  IsEntry u c = (phase : X) × (c ≡ answered (restoration (enter_backup phase)) 0)

  abbrev pub IsCheck : Ph → Call X Ph → Type 0
  IsCheck phase c = c ≡ answered (restoration (check_backup phase)) 0

  abbrev pub grants :
      Session Ph S F En Qz → cold_snap.Reveal.Session Ph × (Option En × Option (Checking Qz Ph))
  grants s = (s.backup, (s.entry, s.check))

  abbrev pub AreSteps : Call X Ph → Session Ph S F En Qz → Session Ph S F En Qz → Type 0
  AreSteps c s s' =
      IsStep IsReveal c s.backup.granted s'.backup.granted
      × (IsStep IsEntry c (live s.entry) (live s'.entry)
          × IsStep IsCheck c (asked_of s.check) (asked_of s'.check))

  pub same-AreSteps :
      (c : Call X Ph) (s s' : Session Ph S F En Qz)
      → cancels c ≡ false
      → grants s' ≡ grants s
      → AreSteps c s s'
  same-AreSteps c s s' kept e = (
    inr (inl (kept, ap (λ g. g.0.granted) e)),
    (inr (inl (kept, ap (λ g. live g.1.0) e)), inr (inl (kept, ap (λ g. asked_of g.1.1) e))),
  )

  pub run-grants :
      (sends : List (DeviceSend X Ph)) (s : Session Ph S F En Qz) (out : O)
      → grants (run parts sends (s, out)).1.0 ≡ grants s
  unfolding run persist
  run-grants sends s out = from (parts.persist_staged (parts.staged_mutations s.signer, s.flash))
    where
      from :
          (r : Result (Unit {0}) StoreFault × (List Mu × F))
          → grants
              (continue
                (
                  map_err store r.0,
                  (record s { signer = parts.set_staged r.1.0 s.signer; flash = r.1.1 }, out),
                )
                (λ _. work_loop parts sends [])).1.0
            ≡ grants s
      from (ok u, (staged, f)) =
          work_loop-view parts grants (λ s batch. refl) (λ s name. refl) (λ s name. refl) sends []
            (record s { signer = parts.set_staged staged s.signer; flash = f }, out)
      from (err e, (staged, f)) = refl
