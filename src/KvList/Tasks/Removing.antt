-- ===== src/KvList/Tasks/Removing.antt =====
-- Two tasks that remove the same node: the test of the node before the lock comes too early.
use cc2745_repo.Prelude.{
  ℕ, ◌≡◌, refl, true, false, some, arith, ok, get_elem?, set, decrement, total-set, le-total,
  get_elem?-set_self, lt_of_get_elem?, Os, IsSemaphore,
}
use cc2745_repo.Links.{update}
use cc2745_repo.Hal.Mutex
use cc2745_repo.Hal.Mutex.{lock-init, unlock-held}
use cc2745_repo.KvList.State.{Node, KvList}
use cc2745_repo.KvList.{clear_node, lock, unlock}
use cc2745_repo.KvList.Valid.{is_used, IsValid}
use cc2745_repo.KvList.Tasks.{
  outside, removing, remove_locked, leaving, System, clear_at, tests_node, locks_remove, clears,
  unlocks, Reach, start, next,
}

module _ {V : Type 0} {os : Os} (sem : IsSemaphore os) {l : KvList V} (v : IsValid os l) (i : ℕ)
    (n : Node) (at : get_elem? l.node_array i ≡ some n) (used : n.valid ≡ true) where
  -- The table after the first task's body, and after the second's.
  abbrev first_clear : KvList V
  first_clear = record l {
    node_array = set l.node_array i (clear_node n);
    count = decrement l.count;
    sorted = false;
    mutex = Mutex.held os;
  }

  abbrev second_clear : KvList V
  second_clear = record first_clear {
    node_array = set (set l.node_array i (clear_node n)) i (clear_node n);
    count = decrement (decrement l.count);
  }

  abbrev pub removed_twice : System V
  removed_twice = record {
    table = record second_clear { mutex = Mutex.unlock os (Mutex.held os) };
    place =
        update
          (update
            (update
              (update
                (update
                  (update (update (update (λ t. outside) 0 (removing i)) 1 (removing i)) 0
                    (remove_locked i))
                  0 leaving)
                0 outside)
              1 (remove_locked i))
            1 leaving)
          1 outside;
  }

  locks_first : lock os l ≡ ok tt (record l { mutex = Mutex.held os })
  unfolding lock
  locks_first =
      let taken : Mutex.lock os l.mutex ≡ some (Mutex.held os) = rw v.unlocked (lock-init sem) in
      ground (arith, taken)

  locks_second :
      lock os (record first_clear { mutex = Mutex.unlock os (Mutex.held os) }) ≡ ok tt first_clear
  unfolding lock
  locks_second =
      let taken : Mutex.lock os (Mutex.unlock os (Mutex.held os)) ≡ some (Mutex.held os) =
        rw (unlock-held sem) (lock-init sem) in
      ground (arith, taken)

  clears_first : clear_at i (record l { mutex = Mutex.held os }) ≡ ok tt first_clear
  unfolding clear_at
  clears_first = ground (arith, at)

  clears_second : clear_at i first_clear ≡ ok tt second_clear
  unfolding clear_at
  clears_second =
      let again : get_elem? (set l.node_array i (clear_node n)) i ≡ some (clear_node n) =
        get_elem?-set_self l.node_array i (clear_node n) (lt_of_get_elem? l.node_array i at) in
      ground (arith, again)

  removed_twice_reached : Reach os true l removed_twice
  unfolding unlock
  removed_twice_reached =
      let r1 = next start (tests_node 0 i n refl refl at used) in
      let r2 = next r1 (tests_node 1 i n refl refl at used) in
      let r3 = next r2 (locks_remove 0 i refl locks_first) in
      let r4 = next r3 (clears 0 i refl clears_first) in
      let r5 = next r4 (unlocks 0 refl refl) in
      let r6 = next r5 (locks_remove 1 i refl locks_second) in
      let r7 = next r6 (clears 1 i refl clears_second) in next r7 (unlocks 1 refl refl)

  miscounted : ¬ IsValid os removed_twice.table
  miscounted w =
      let before = le-total is_used l.node_array i at in
      let once = total-set is_used l.node_array i (clear_node n) at in
      let again : get_elem? (set l.node_array i (clear_node n)) i ≡ some (clear_node n) =
        get_elem?-set_self l.node_array i (clear_node n) (lt_of_get_elem? l.node_array i at) in
      let twice = total-set is_used (set l.node_array i (clear_node n)) i (clear_node n) again in
      ground (arith, v.counted, w.counted, before, once, twice, used)

  -- Whatever a well-formed table holds, two tasks that remove the same used node can both pass the
  -- test before either takes the lock. Then both count it: when both have returned, the table's
  -- count is one too low, or 2 ^ 32 - 1, and the table is not well formed.
  pub removals_race :
      (s : System V) × Reach os true l s
      × ((t : ℕ) → s.place t ≡ outside)
      × (s.table.count ≡ decrement (decrement l.count))
      × ¬ IsValid os s.table
  removals_race = (removed_twice, removed_twice_reached, λ t. ground arith, refl, miscounted)
