-- ===== src/Prelude/Exec.antt =====
-- Methods that mutate an object and may fail: what was written before an error stays written, so
-- the state comes back beside the error too.
use mathlib.Core.Path.{◌≡◌, refl}
use mathlib.Core.Bool.{Bool, true, false}
use cold_snap.Prelude.Tests.{if◌then◌else◌}
use cold_snap.Prelude.Results.{Result, ok, err}

abbrev pub Exec {ℓ} : Type ℓ → Type ℓ → Type ℓ → Type ℓ
Exec S A E = S → Result A E × S

module _ {ℓ} {S A E : Type ℓ} where
  abbrev pub pure : A → Exec S A E
  pure a s = (ok a, s)

  abbrev pub raise : E → Exec S A E
  raise e s = (err e, s)

  -- The state of the part is put back in the whole, whether the part's method failed or not.
  abbrev pub within {κ} : {T : Type κ} → (S → T → T) → T → Result A E × S → Result A E × T
  within put t (r, s) = (r, put s t)

module _ {ℓ} {S A B E : Type ℓ} where
  abbrev pub continue : Result A E × S → (A → Exec S B E) → Result B E × S
  continue (ok a, s) f = f a s
  continue (err e, s) f = (err e, s)

  infixl 5 ◌>>=◌ ◌>>◌
  abbrev pub ◌>>=◌ : Exec S A E → (A → Exec S B E) → Exec S B E
  ◌>>=◌ m f s = continue (m s) f

  abbrev pub ◌>>◌ : Exec S A E → Exec S B E → Exec S B E
  ◌>>◌ m n = m >>= λ _. n

-- `.map_err(f)`
abbrev pub map_err {ℓ} : {A E F : Type ℓ} → (E → F) → Result A E → Result A F
map_err f (ok a) = ok a
map_err f (err e) = err (f e)

-- The state that an action ends in, with a result or an error, meets `R`.
pub record Ends {ℓ κ} {S A E : Type ℓ} (R : S → Type κ) (r : Result A E × S) : Type κ where
  pub ends : R r.1

-- Through a test, and through a bind: `Q` holds where the first part stops.
pub if_keeps {ℓ κ} :
    {S A E : Type ℓ} (R : S → Type κ) (b : Bool) (x y : Result A E × S)
    → (b ≡ true → Ends R x)
    → (b ≡ false → Ends R y)
    → Ends R (if b then x else y)
if_keeps R true x y hx hy = hx refl
if_keeps R false x y hx hy = hy refl

pub continue_keeps {ℓ κ} :
    {S A B E : Type ℓ} (Q R : S → Type κ) (m : Result A E × S) (f : A → Exec S B E)
    → Ends Q m
    → ((s : S) → Q s → R s)
    → ((a : A) (s : S) → Q s → Ends R (f a s))
    → Ends R (continue m f)
continue_keeps Q R (ok a, s) f h weaken k = k a s h.ends
continue_keeps Q R (err e, s) f h weaken k = record { ends = weaken s h.ends }

-- A bind that succeeds, taken apart.
pub continue-ok {ℓ} :
    {S A B E : Type ℓ} (m : Result A E × S) (f : A → Exec S B E) (b : B)
    → (continue m f).0 ≡ ok b
    → (a : A) × (m.0 ≡ ok a) × (continue m f ≡ f a m.1)
continue-ok (ok a, s) f b h = (a, refl, refl)
continue-ok (err e, s) f b h = absurd (cc h)
