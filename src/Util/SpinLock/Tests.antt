-- ===== src/Util/SpinLock/Tests.antt =====
-- The theorems on two tasks, the first behind the lock and the second in the loop.
use native.Mathlib.Decide.{ℕ_discrete}
use cc2745_repo.Prelude.{ℕ, ◌≡◌, ◌⊎◌, refl}
use cc2745_repo.Util.SpinLock.{
  spinning, inside, Flag, clear_flag, move, test_and_set, Step, arrives, tests, Reach, start, next,
}
use cc2745_repo.Util.SpinLock.Exclusion.{mutual_exclusion, no_deadlock}

abbrev contended : Flag
contended =
    test_and_set 2
      (record (test_and_set 1 (record clear_flag { place = move clear_flag.place 1 spinning })) {
        place = move (move (move clear_flag.place 1 spinning) 1 inside) 2 spinning;
      })

contended_reached : Reach contended
unfolding test_and_set ℕ_discrete
contended_reached =
    next (next (next (next start (arrives 1 refl)) (tests 1 refl)) (arrives 2 refl)) (tests 2 refl)

mutual_exclusion_example : ◌≡◌ {A = ℕ} 1 1
unfolding test_and_set ℕ_discrete
mutual_exclusion_example = mutual_exclusion contended_reached 1 1 refl refl

no_deadlock_example :
    ((j : ℕ) × (contended.place j ≡ inside))
    ⊎ ((s : Flag) × Step contended s × (s.place 2 ≡ inside))
unfolding test_and_set ℕ_discrete
no_deadlock_example = no_deadlock 2 contended_reached refl
