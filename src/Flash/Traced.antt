-- ===== src/Flash/Traced.antt =====
-- hal/src/flash.rs: a bus that notes the address of each store, and answers as the bus behind it does, whatever
-- that is; and what is kept of the addresses by the register accesses of the driver.
use cold_snap.Prelude.{
  ℕ, zero, suc, Bool, true, false, List, [], ◌∷◌, if◌then◌else◌, ◌==◌, bit_and, bit_or,
}
use cold_snap.Prelude.Exec.{Exec, pure, raise, ◌>>=◌, ◌>>◌, Ends, if_keeps, continue_keeps}
use cold_snap.Mmio.{Bus, load, store}
use cold_snap.Flash.{
  FlashError, mmio, sr_wait_done, sr_prologue, unlock, lock, data_cache_disable,
  data_cache_reset_and_enable, finally, wait_done, operation_prologue, flash_cr, flash_sr,
  flash_acr, flash_keyr, flash_spin_limit, settled, complement32, flash_cr_lock, flash_acr_dcen,
  flash_acr_dcrst, flash_key1, flash_key2, unlock_failed, flash_sr_bsy, flash_sr_errors,
  flash_sr_eop,
}

abbrev pub traced : {S : Type 0} → Bus S → Bus (S × List ℕ)
traced bus = record {
  read_volatile = λ a s. let (v, s') = bus.read_volatile a s.0 in (v, (s', s.1));
  write_volatile = λ a v s. (bus.write_volatile a v s.0, a ∷ s.1);
}

-- The control registers of the flash interface.
pub data IsControl : ℕ → Type 0 where
  cr : IsControl flash_cr
  sr : IsControl flash_sr
  acr : IsControl flash_acr
  keyr : IsControl flash_keyr

pub data All (Q : ℕ → Type 0) : List ℕ → Type 0 where
  done : All Q []
  also : (a : ℕ) (rest : List ℕ) → Q a → All Q rest → All Q (a ∷ rest)

module _ {S : Type 0} (bus : Bus S) (Q : ℕ → Type 0) (control : (a : ℕ) → IsControl a → Q a) where
  T : Type 0
  T = S × List ℕ

  unfoldable pub Sound : S × List ℕ → Type 0
  Sound s = All Q s.1

  unfoldable pub Keeps : {A : Type 0} → Exec (S × List ℕ) A FlashError → Type 0
  Keeps m = (s : S × List ℕ) → Sound s → Ends Sound (m s)

  pub pure-Keeps : {A : Type 0} (a : A) → Keeps (pure a)
  unfolding Keeps
  pure-Keeps a s h = record { ends = h }

  pub raise-Keeps : (e : FlashError) → Keeps {A = Unit {0}} (raise e)
  unfolding Keeps
  raise-Keeps e s h = record { ends = h }

  pub bind-Keeps :
      {A B : Type 0} (m : Exec (S × List ℕ) A FlashError) (f : A → Exec (S × List ℕ) B FlashError)
      → Keeps m
      → ((a : A) → Keeps (f a))
      → Keeps (m >>= f)
  unfolding Keeps
  bind-Keeps m f hm hf s h =
      continue_keeps Sound Sound (m s) f (hm s h) (λ t k. k) (λ a t k. hf a t k)

  pub choose-Keeps :
      {A : Type 0} (b : Bool) (m n : Exec (S × List ℕ) A FlashError)
      → Keeps m
      → Keeps n
      → Keeps (if b then m else n)
  choose-Keeps true m n hm hn = hm
  choose-Keeps false m n hm hn = hn

  pub load-Keeps : (a : ℕ) → Keeps (load (traced bus) a)
  unfolding Keeps Sound
  load-Keeps a s h = record { ends = h }

  pub store-Keeps : (a v : ℕ) → Q a → Keeps (store (traced bus) a v)
  unfolding Keeps Sound
  store-Keeps a v q s h = record { ends = also a s.1 q h }

  pub finally-Keeps :
      {A : Type 0} (m : Exec (S × List ℕ) A FlashError)
      (after : Exec (S × List ℕ) (Unit {0}) FlashError)
      → Keeps m
      → Keeps after
      → Keeps (finally (traced bus) m after)
  unfolding Keeps Sound
  finally-Keeps m after hm ha s h = record { ends = (ha (m s).1 (hm s h).ends).ends }

  -- `do m; n`
  pub then-Keeps :
      {A B : Type 0} (m : Exec (S × List ℕ) A FlashError) (n : Exec (S × List ℕ) B FlashError)
      → Keeps m
      → Keeps n
      → Keeps (m >> n)
  then-Keeps m n hm hn = bind-Keeps m (λ _. n) hm (λ _. hn)

  pub modify-Keeps :
      (a : ℕ) (f : ℕ → ℕ) → Q a → Keeps (load (traced bus) a >>= λ v. store (traced bus) a (f v))
  modify-Keeps a f q = bind-Keeps _ _ (load-Keeps a) (λ v. store-Keeps a (f v) q)

  pub unlock-Keeps : Keeps (unlock (traced bus))
  unfolding unlock
  unlock-Keeps = bind-Keeps _ _ (load-Keeps flash_cr) λ v.
      choose-Keeps (bit_and v flash_cr_lock == 0) _ _ (pure-Keeps tt) (
        then-Keeps _ _ (store-Keeps flash_keyr flash_key1 (control _ keyr)) (
          then-Keeps _ _ (store-Keeps flash_keyr flash_key2 (control _ keyr)) (
            bind-Keeps _ _ (load-Keeps flash_cr) λ w.
              choose-Keeps (bit_and w flash_cr_lock == 0) _ _ (pure-Keeps tt)
                (raise-Keeps unlock_failed))))

  pub lock-Keeps : Keeps (lock (traced bus))
  unfolding lock
  lock-Keeps = modify-Keeps flash_cr (λ v. bit_or v flash_cr_lock) (control _ cr)

  pub data_cache_disable-Keeps : Keeps (data_cache_disable (traced bus))
  unfolding data_cache_disable
  data_cache_disable-Keeps =
      modify-Keeps flash_acr (λ v. bit_and v (complement32 flash_acr_dcen)) (control _ acr)

  pub data_cache_reset_and_enable-Keeps : Keeps (data_cache_reset_and_enable (traced bus))
  unfolding data_cache_reset_and_enable
  data_cache_reset_and_enable-Keeps = bind-Keeps _ _ (load-Keeps flash_acr) λ v.
      then-Keeps _ _ (store-Keeps flash_acr (bit_or v flash_acr_dcrst) (control _ acr)) (
        then-Keeps _ _
          (store-Keeps flash_acr (bit_and v (complement32 flash_acr_dcrst)) (control _ acr))
          (modify-Keeps flash_acr (λ w. bit_or w flash_acr_dcen) (control _ acr)))

  settled-Keeps : (v : ℕ) → Keeps (settled (mmio (traced bus)) v)
  unfolding mmio
  settled-Keeps v =
      choose-Keeps _ _ _ (raise-Keeps _)
        (choose-Keeps _ _ _ (store-Keeps flash_sr flash_sr_eop (control _ sr)) (pure-Keeps tt))

  sr_wait_done-Keeps : (spins : ℕ) → Keeps (sr_wait_done (mmio (traced bus)) spins)
  unfolding sr_wait_done Keeps Sound mmio
  sr_wait_done-Keeps zero s h =
      let v = bus.read_volatile flash_sr s.0 in
      if_keeps Sound (bit_and v.0 flash_sr_bsy == 0) _ _ (λ _. settled-Keeps v.0 (v.1, s.1) h)
        (λ _. record { ends = h })
  sr_wait_done-Keeps (suc spins) s h =
      let v = bus.read_volatile flash_sr s.0 in
      if_keeps Sound (bit_and v.0 flash_sr_bsy == 0) _ _ (λ _. settled-Keeps v.0 (v.1, s.1) h)
        (λ _. sr_wait_done-Keeps spins (v.1, s.1) h)

  pub operation_prologue-Keeps : Keeps (operation_prologue (traced bus))
  unfolding operation_prologue sr_prologue mmio
  operation_prologue-Keeps = bind-Keeps _ _ (load-Keeps flash_sr) λ v.
      then-Keeps _ _ (store-Keeps flash_sr (bit_and v flash_sr_errors) (control _ sr))
        (sr_wait_done-Keeps flash_spin_limit)

  pub wait_done-Keeps : Keeps (wait_done (traced bus))
  unfolding wait_done
  wait_done-Keeps = sr_wait_done-Keeps flash_spin_limit
