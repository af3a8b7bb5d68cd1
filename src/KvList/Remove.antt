-- ===== src/KvList/Remove.antt =====
-- What `kv_list_remove_node` does to the entries.
use cc2745_repo.Prelude.{
  decrement, ◌⊎◌, inl, inr, Bool-cases, ℕ, ◌+◌, ◌≡◌, ◌≢◌, sym, refl, true, false, none, some, arith,
  get_elem?, set, total-set, le-total, get_elem?-set_self, get_elem?-set_ne, lt_of_get_elem?, Os,
  IsSemaphore, ok, fault,
}
use cc2745_repo.Hal.Mutex
use cc2745_repo.Hal.Mutex.{lock-init, unlock-held}
use cc2745_repo.KvList.State.{Node, KvList}
use cc2745_repo.KvList.{clear_node, kv_list_remove_node}
use cc2745_repo.KvList.Valid.{is_used, IsValid, entry, set-IsTable, entry_same}

module _ {V : Type 0} {os : Os} (sem : IsSemaphore os) where
  abbrev removed : KvList V → ℕ → Node → KvList V
  removed l i n = record l {
    node_array = set l.node_array i (clear_node n);
    count = decrement l.count;
    sorted = false;
    mutex = Mutex.unlock os (Mutex.held os);
  }

  module _ {l : KvList V} (v : IsValid os l) where
    removed-IsValid :
        (i : ℕ) (n : Node)
        → get_elem? l.node_array i ≡ some n
        → n.valid ≡ true
        → IsValid os (removed l i n)
    removed-IsValid i n at used = record {
      table = set-IsTable i _ v.table at refl;
      slots = v.slots;
      counted = ground (arith, total-set is_used l.node_array i (clear_node n) at, v.counted);
      ordered = λ e. absurd (cc);
      unlocked = unlock-held sem;
    }

    -- What removing node `i` has done: its entry is gone, and all others are as they were.
    pub record Removed (i : ℕ) (l' : KvList V) : Type 0 where
      pub valid : IsValid os l'
      pub gone : entry l' i ≡ none
      pub rest : (j : ℕ) → j ≢ i → entry l' j ≡ entry l j
      pub count : l'.count + 1 ≡ l.count
      pub depth : l'.depth ≡ l.depth

    remove_run :
        (i : ℕ) (n : Node)
        → get_elem? l.node_array i ≡ some n
        → n.valid ≡ true
        → kv_list_remove_node os (some i) l ≡ ok tt (removed l i n)
    unfolding kv_list_remove_node
    remove_run i n at used =
        let locks : Mutex.lock os l.mutex ≡ some (Mutex.held os) = rw v.unlocked (lock-init sem) in
        ground arith

    -- On a well-formed table `kv_list_remove_node` of a used node empties that node and leaves the
    -- other entries and a well-formed table; of a free node it changes nothing; of NULL, as a
    -- search that misses returns, it is a fault.
    pub kv_list_remove_node_lem :
        (i : ℕ) (n : Node)
        → get_elem? l.node_array i ≡ some n
        → (kv_list_remove_node os none l ≡ fault)
          × (((n.valid ≡ false) × (kv_list_remove_node os (some i) l ≡ ok tt l))
              ⊎ ((l' : KvList V) × (n.valid ≡ true)
                  × (kv_list_remove_node os (some i) l ≡ ok tt l')
                  × Removed i l'))
    unfolding kv_list_remove_node
    kv_list_remove_node_lem i n at = (
      refl,
      elim (Bool-cases n.valid) [
        | inr free ↦ inl (free, ground arith)
        | inl used ↦ inr (
          removed l i n,
          used,
          remove_run i n at used,
          record {
            valid = removed-IsValid i n at used;
            gone = ground (
              arith,
              get_elem?-set_self l.node_array i (clear_node n) (lt_of_get_elem? l.node_array i at),
            );
            rest = λ j ne.
                entry_same l (removed l i n) j
                  (get_elem?-set_ne l.node_array i j _ (λ e. ne (sym e))) λ m d at' ptr. refl;
            count = ground (arith, le-total is_used l.node_array i at, v.counted);
            depth = refl;
          },
        )
      ],
    )
