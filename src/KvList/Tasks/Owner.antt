-- ===== src/KvList/Tasks/Owner.antt =====
-- Who holds the lock.
use cc2745_repo.Prelude.{
  ℕ, ◌≡◌, inl, inr, Bool, true, false, Bool-cases, Option, none, some, arith, Os, IsSemaphore,
}
use cc2745_repo.Links.{update}
use cc2745_repo.Hal.Mutex
use cc2745_repo.Hal.Mutex.{lock-init, lock-held, unlock-held}
use cc2745_repo.KvList.Tasks.{Place, add_locked, remove_locked, leaving}

abbrev pub holds : {V : Type 0} → Place V → Bool
holds (add_locked key value) = true
holds (remove_locked i) = true
holds leaving = true
holds _ = false

-- The lock is free and no task is behind it, or it is taken and one task is.
abbrev pub Owned : {V : Type 0} → Os → Option ℕ → ℕ → (ℕ → Place V) → Type 0
Owned os none mutex place = (mutex ≡ Mutex.init os) × ((t : ℕ) → holds (place t) ≡ false)
Owned os (some o) mutex place =
    (mutex ≡ Mutex.held os) × (holds (place o) ≡ true) × ((t : ℕ) → holds (place t) ≡ true → t ≡ o)

module _ {V : Type 0} (os : Os) (t : ℕ) (p : Place V) (place : ℕ → Place V) where
  pub moves_outside :
      (o : Option ℕ) (mutex : ℕ)
      → holds (place t) ≡ false
      → holds p ≡ false
      → Owned os o mutex place
      → Owned os o mutex (update place t p)
  moves_outside none mutex before after (free, nobody) = (free, λ u. ground (arith, nobody u))
  moves_outside (some o) mutex before after (taken, owner, alone) =
      (taken, ground arith, λ u h. ground (arith, alone u))

  pub moves_inside :
      (o : Option ℕ) (mutex : ℕ)
      → holds (place t) ≡ true
      → holds p ≡ true
      → Owned os o mutex place
      → Owned os o mutex (update place t p)
  moves_inside none mutex before after (free, nobody) = absurd (let clash = nobody t in cc)
  moves_inside (some o) mutex before after (taken, owner, alone) =
      (taken, ground arith, λ u h. ground (arith, alone u, alone t))

  pub enters :
      (sem : IsSemaphore os) (o : Option ℕ) (m m' : ℕ)
      → Mutex.lock os m ≡ some m'
      → holds p ≡ true
      → Owned os o m place
      → Owned os (some t) m' (update place t p)
  enters sem none m m' locks after (free, nobody) =
      let gives : Mutex.lock os m ≡ some (Mutex.held os) = rw free (lock-init sem) in
      (cc, ground arith, λ u h. ground (arith, nobody u))
  enters sem (some o) m m' locks after (taken, owner, alone) =
      let waits : Mutex.lock os m ≡ none = rw taken (lock-held sem) in absurd (cc)

  pub leaves :
      (sem : IsSemaphore os) (o : Option ℕ) (m : ℕ)
      → holds (place t) ≡ true
      → holds p ≡ false
      → Owned os o m place
      → Owned os none (Mutex.unlock os m) (update place t p)
  leaves sem none m before after (free, nobody) = absurd (let clash = nobody t in cc)
  leaves sem (some o) m before after (taken, owner, alone) = (
    rw taken (unlock-held sem),
    λ u. elim (Bool-cases (holds (place u))) [
      | inl inside ↦ ground (arith, inside, alone u inside, alone t before)
      | inr clear ↦ ground (arith, clear)
    ],
  )
