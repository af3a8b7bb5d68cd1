-- ===== src/KvList/Tasks/Tests.antt =====
-- The theorems on a table of two links.
use cc2745_repo.Prelude.{ℕ, ◌≡◌, refl, true, false, Option, ok}
use cc2745_repo.Hal.Mutex
use cc2745_repo.Links.{update}
use cc2745_repo.Libc.Models.{counter, counter-IsSemaphore}
use cc2745_repo.KvList.State.{KvList}
use cc2745_repo.KvList.{add_node, lock}
use cc2745_repo.KvList.Valid.{IsValid}
use cc2745_repo.KvList.Tests.{node, two_links, two_links-IsValid}
use cc2745_repo.KvList.Tasks.{
  outside, adding, add_locked, System, Reach, start, next, tests_count, locks_add,
}
use cc2745_repo.KvList.Tasks.Owner.{holds}
use cc2745_repo.KvList.Tasks.Adding.{adds_are_safe}
use cc2745_repo.KvList.Tasks.Removing.{removals_race}

-- Task 3 is behind the lock, task 5 behind its test.
abbrev contended : System ℕ
contended = record {
  table = record two_links { mutex = 0 };
  place =
      update (update (update (λ t. outside) 3 (adding 7 70)) 5 (adding 8 80)) 3 (add_locked 7 70);
}

contended_reached : Reach counter false two_links contended
unfolding lock counter Mutex.lock
contended_reached =
    next (next (next start (tests_count 3 7 70 refl refl)) (tests_count 5 8 80 refl refl))
      (locks_add 3 7 70 refl refl)

adds_are_safe_example :
    ((t u : ℕ) → holds (contended.place t) ≡ true → holds (contended.place u) ≡ true → t ≡ u)
    × ((t key : ℕ) (value : ℕ)
        → contended.place t ≡ add_locked key value
        → (r : Option ℕ) × (l' : KvList ℕ) × (add_node key value contended.table ≡ ok r l'))
    × (((t : ℕ) → holds (contended.place t) ≡ false) → IsValid counter contended.table)
adds_are_safe_example = adds_are_safe counter-IsSemaphore two_links-IsValid contended_reached

removals_race_example :
    (s : System ℕ) × Reach counter true two_links s
    × ((t : ℕ) → s.place t ≡ outside)
    × (s.table.count ≡ 0)
    × ¬ IsValid counter s.table
removals_race_example =
    removals_race counter-IsSemaphore two_links-IsValid 0 (node true 9 1) refl refl
