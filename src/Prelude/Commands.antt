-- ===== src/Prelude/Commands.antt =====
-- Commands on a state: what a C function does, with its faults as values.
use Prim.Native.Nat.{ℕ, suc}
use mathlib.Core.Path.{◌≡◌}
use mathlib.Core.Option.{Option, none, some}

-- `fault` is an access through NULL or outside an object, `blocked` a wait for a semaphore that no
-- step of the running task posts, `out_of_fuel` a loop that has not ended within its fuel.
pub data Run (S A : Type 0) : Type 0 where
  ok : A → S → Run S A
  fault : Run S A
  blocked : Run S A
  out_of_fuel : Run S A

abbrev pub Cmd : Type 0 → Type 0 → Type 0
Cmd S A = S → Run S A

module _ {S : Type 0} where
  abbrev pub pure : {A : Type 0} → A → Cmd S A
  pure a s = ok a s

  abbrev pub modify : (S → S) → Cmd S (Unit {0})
  modify f s = ok tt (f s)

  abbrev pub and_then : {A B : Type 0} → Run S A → (A → Cmd S B) → Run S B
  and_then (ok a s) k = k a s
  and_then fault k = fault
  and_then blocked k = blocked
  and_then out_of_fuel k = out_of_fuel

  infixl 5 ◌>>=◌ ◌>>◌
  abbrev pub ◌>>=◌ : {A B : Type 0} → Cmd S A → (A → Cmd S B) → Cmd S B
  m >>= k = λ s. and_then (m s) k

  abbrev pub ◌>>◌ : {A B : Type 0} → Cmd S A → Cmd S B → Cmd S B
  m >> k = m >>= λ _. k

-- The POSIX counting semaphore that the HAL is built on. It is no code of the repository: the
-- state behind a handle is a number that only these three functions read.
pub record Os : Type 0 where
  pub sem_init : ℕ → ℕ
  pub sem_wait : ℕ → Option ℕ
  pub sem_post : ℕ → ℕ

-- Its documented behaviour: a wait takes one unit, or blocks at zero, and a post gives one back.
pub record IsSemaphore (os : Os) : Type 0 where
  pub wait_zero : os.sem_wait (os.sem_init 0) ≡ none
  pub wait_suc : (n : ℕ) → os.sem_wait (os.sem_init (suc n)) ≡ some (os.sem_init n)
  pub post_lem : (n : ℕ) → os.sem_post (os.sem_init n) ≡ os.sem_init (suc n)
