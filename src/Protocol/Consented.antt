-- ===== src/Protocol/Consented.antt =====
-- firmware/src/lib.rs: over any calls of a session, what is granted was consented to, and not cancelled since.
use cold_snap.Prelude.{◌≡◌, ◌⊎◌, inl, inr, refl, ap, ◌∙◌, List, [], ◌∷◌, ◌++◌, Option, none, some}
use cold_snap.Protocol.{Session, Parts}
use cold_snap.Protocol.Calls.{Call, call, calls}
use cold_snap.Protocol.Grants.{IsUncancelled, IsStep, live, asked_of, IsReveal, IsEntry, IsCheck}
use cold_snap.Protocol.Steps.{call-AreSteps}

module _ {X Mu Ph S F En Qz E C O : Type 0} (parts : Parts X Mu Ph S F En Qz E C O) where
  abbrev State : Type 0
  State = Session Ph S F En Qz × O

  -- What is granted was asked by one of the calls, with no `Cancel` behind it.
  abbrev pub IsGranted :
      {G : Type 0} → (G → Call X Ph → Type 0) → List (Call X Ph) → Option G → Type 0
  IsGranted IsAsked cs after =
      (g : _) × (before rest : List (Call X Ph)) × (c : Call X Ph) × (after ≡ some g)
      × (cs ≡ before ++ c ∷ rest)
      × IsAsked g c
      × IsUncancelled rest

  module _ {G : Type 0} (get : Session Ph S F En Qz → Option G) (IsAsked : G → Call X Ph → Type 0)
      (step : (c : Call X Ph) (st : State)
        → IsStep IsAsked c (get st.0) (get (call parts c st).0)) where
    abbrev Traced : List (Call X Ph) → State → Type 0
    Traced cs st =
        (get (calls parts cs st).0 ≡ none)
        ⊎ ((IsUncancelled cs × (get (calls parts cs st).0 ≡ get st.0))
            ⊎ IsGranted IsAsked cs (get (calls parts cs st).0))

    calls-Traced : (cs : List (Call X Ph)) (st : State) → Traced cs st
    unfolding calls
    calls-Traced [] st = inr (inl (tt, refl))
    calls-Traced (c ∷ cs) st =
        let st' = (call parts c st) in
        elim (calls-Traced cs st') [
          | inl gone ↦ inl gone
          | inr (inl (kept, same)) ↦ elim (step c st) [
            | inl gone ↦ inl (same ∙ gone)
            | inr (inl (no_cancel, before)) ↦ inr (inl ((no_cancel, kept), same ∙ before))
            | inr (inr (g, asked, given)) ↦
                inr (inr (g, [], cs, c, same ∙ given, refl, asked, kept))
          ]
          | inr (inr (g, before, rest, c', given, split, asked, kept)) ↦
              inr (inr (g, c ∷ before, rest, c', given, ap (λ cs. c ∷ cs) split, asked, kept))
        ]

    granted_lem :
        (cs : List (Call X Ph)) (st : State)
        → get st.0 ≡ none
        → (get (calls parts cs st).0 ≡ none) ⊎ IsGranted IsAsked cs (get (calls parts cs st).0)
    granted_lem cs st fresh = elim (calls-Traced cs st) [
      | inl gone ↦ inl gone
      | inr (inl (kept, same)) ↦ inl (same ∙ fresh)
      | inr (inr granted) ↦ inr granted
    ]

  -- From a session without a grant on, over any calls of it: there is no reveal granted, or it is of the phase
  -- of a `DisplayBackup` prompt that was answered on its first page, with no `Cancel` since; and so for an
  -- entry with an `EnterBackup` prompt, and for a quiz with a `CheckBackup` prompt and its phase.
  pub calls-granted :
      (cs : List (Call X Ph)) (s : Session Ph S F En Qz) (out : O)
      → s.backup.granted ≡ none
      → s.entry ≡ none
      → s.check ≡ none
      → ((((calls parts cs (s, out)).0.backup.granted ≡ none)
            ⊎ IsGranted (IsReveal parts) cs (calls parts cs (s, out)).0.backup.granted)
          × (((live parts (calls parts cs (s, out)).0.entry ≡ none)
                ⊎ IsGranted (IsEntry parts) cs (live parts (calls parts cs (s, out)).0.entry))
              × ((asked_of parts (calls parts cs (s, out)).0.check ≡ none)
                  ⊎ IsGranted
                      (IsCheck parts)
                      cs
                      (asked_of parts (calls parts cs (s, out)).0.check))))
  calls-granted cs s out no_reveal no_entry no_check = (
    granted_lem (λ s. s.backup.granted) (IsReveal parts) (λ c st. (call-AreSteps parts c st).0) cs
        (s, out) no_reveal,
    (
      granted_lem (λ s. live parts s.entry) (IsEntry parts) (λ c st. (call-AreSteps parts c st).1.0)
          cs (s, out) (ap (live parts) no_entry),
      granted_lem (λ s. asked_of parts s.check) (IsCheck parts)
          (λ c st. (call-AreSteps parts c st).1.1) cs (s, out) (ap (asked_of parts) no_check),
    ),
  )
