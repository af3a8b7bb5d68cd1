-- ===== src/Hal/Mutex.antt =====
-- `hal_mutex_t` of ccs_project/src/hal/hal_os_api.c: a counting semaphore that starts at one. A
-- handle's state is the number that stands behind it.
use cc2745_repo.Prelude.{ℕ, ◌≡◌, Option, none, some, Os, IsSemaphore}

module _ (os : Os) where
  unfoldable pub init : ℕ
  init = os.sem_init 1

  -- `none`: the caller waits.
  unfoldable pub lock : ℕ → Option ℕ
  lock m = os.sem_wait m

  unfoldable pub unlock : ℕ → ℕ
  unlock m = os.sem_post m

  -- The state between `lock` and `unlock`.
  unfoldable pub held : ℕ
  held = os.sem_init 0

module _ {os : Os} (sem : IsSemaphore os) where
  pub lock-init : lock os (init os) ≡ some (held os)
  unfolding lock init held
  lock-init = sem.wait_suc 0

  -- It is no recursive mutex: who holds it and locks it again waits.
  pub lock-held : lock os (held os) ≡ none
  unfolding lock held
  lock-held = sem.wait_zero

  pub unlock-held : unlock os (held os) ≡ init os
  unfolding unlock held init
  unlock-held = sem.post_lem 0
