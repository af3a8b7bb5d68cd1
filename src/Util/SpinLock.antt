-- ===== src/Util/SpinLock.antt =====
-- ATOMIC_LOCK_FLAG and ATOMIC_UNLOCK_FLAG of ccs_project/src/lib/util/util_tool.h: a lock in one
-- atomic flag, for tasks that are numbered. Each test of the loop is a step, in any order of tasks.
pub mod Exclusion
mod Tests
use mathlib.Core.Logic.{ite}
use native.Mathlib.Decide.{ℕ_discrete}
use cc2745_repo.Prelude.{ℕ, ◌≡◌, Bool, true, false, if◌then◌else◌}

-- A task's place: outside, in the loop of ATOMIC_LOCK_FLAG, or behind it.
pub data Place : Type 0 where
  outside spinning inside : Place

pub record Flag : Type 0 where
  pub flag : Bool
  pub place : ℕ → Place

-- ATOMIC_FLAG_INIT, and all tasks outside.
abbrev pub clear_flag : Flag
clear_flag = record { flag = false; place = λ i. outside }

abbrev pub move : (ℕ → Place) → ℕ → Place → ℕ → Place
move place i p j = ite (ℕ_discrete i j) p (place j)

-- One test of the loop by task `i`: the flag is set, and the task goes on if it was clear.
unfoldable pub test_and_set : ℕ → Flag → Flag
test_and_set i s = record {
  flag = true;
  place = move s.place i (if s.flag then spinning else inside);
}

unfoldable pub atomic_unlock_flag : ℕ → Flag → Flag
atomic_unlock_flag i s = record { flag = false; place = move s.place i outside }

pub data Step : Flag → Flag → Type 0 where
  arrives :
      {s : Flag} (i : ℕ)
      → s.place i ≡ outside
      → Step s (record s { place = move s.place i spinning })
  tests : {s : Flag} (i : ℕ) → s.place i ≡ spinning → Step s (test_and_set i s)
  leaves : {s : Flag} (i : ℕ) → s.place i ≡ inside → Step s (atomic_unlock_flag i s)

pub data Reach : Flag → Type 0 where
  start : Reach clear_flag
  next : {s s' : Flag} → Reach s → Step s s' → Reach s'
