-- ===== src/KvList/Add.antt =====
-- What `kv_list_add` does to the entries of a well-formed table.
use cc2745_repo.Prelude.{
  ◌⊎◌, ◌==◌, ==_iff, sym, ◌∙◌, ℕ, suc, ◌+◌, ◌<◌, ◌≤◌, ◌≡◌, ◌≢◌, refl, inl, inr, true, false, none,
  some, List, [], ◌∷◌, arith, le→leb, Bool-cases, length, get_elem?, set, total, total-set,
  length-set, get_elem?-set_self, get_elem?-set_ne, lt_of_get_elem?, Os, IsSemaphore, ok,
}
use cc2745_repo.Hal.Mutex
use cc2745_repo.Hal.Mutex.{lock-init, unlock-held}
use cc2745_repo.KvList.State.{Node, KvList}
use cc2745_repo.KvList.{find_free, kv_list_add}
use cc2745_repo.KvList.Valid.{
  is_used, IsValid, entry, read_node, slot_of, set-IsTable, slots_ne, entry_same, entry_lem,
  set-IsTable, slots_ne,
}

find_free-some :
    (ns : List Node)
    → total is_used ns < length ns
    → (i : ℕ) × (n : Node) × (find_free ns ≡ some (i, n))
      × (get_elem? ns i ≡ some n)
      × (n.valid ≡ false)
unfolding find_free
find_free-some [] h = absurd (omega arith)
find_free-some (n ∷ ns) h = elim (Bool-cases n.valid) [
  | inl e ↦
      let (i, m, found, at, free) = find_free-some ns (ground arith) in
      (suc i, m, rw (e, found), at, free)
  | inr e ↦ (0, n, rw e, refl, e)
]

used-le : (ns : List Node) → total is_used ns ≤ length ns
used-le [] = omega arith
used-le (n ∷ ns) = ground (arith, used-le ns)

module _ {V : Type 0} (os : Os) where
  abbrev pub added : KvList V → (i d : ℕ) → Node → ℕ → V → KvList V
  added l i d n key value = record l {
    node_array = set l.node_array i (record n { valid = true; key = key });
    data_array = set l.data_array d value;
    count = l.count + 1;
    sorted = false;
    mutex = Mutex.unlock os (Mutex.held os);
  }

module _ {V : Type 0} {os : Os} (sem : IsSemaphore os) (key : ℕ) (value : V) {l : KvList V}
    (v : IsValid os l) where
  module _ (i d : ℕ) (n : Node) (at : get_elem? l.node_array i ≡ some n) (free : n.valid ≡ false)
      (ptr : n.data_ptr ≡ some d) where
    pub added-IsValid : IsValid os (added os l i d n key value)
    added-IsValid = record {
      table = set-IsTable i _ v.table at refl;
      slots = length-set l.data_array d value ∙ v.slots;
      counted = ground (
        arith,
        total-set is_used l.node_array i (record n { valid = true; key = key }) at,
        v.counted,
      );
      ordered = λ e. absurd (cc);
      unlocked = unlock-held sem;
    }

    entry-added_self : d < l.depth → entry (added os l i d n key value) i ≡ some (key, value)
    entry-added_self h = ground (
      arith,
      get_elem?-set_self l.node_array i (record n { valid = true; key = key })
          (lt_of_get_elem? l.node_array i at),
      get_elem?-set_self l.data_array d value (omega (arith, v.slots)),
    )

    entry-added_ne : (j : ℕ) → j ≢ i → entry (added os l i d n key value) j ≡ entry l j
    entry-added_ne j ne =
        entry_same l (added os l i d n key value) j
          (get_elem?-set_ne l.node_array i j _ (λ e. ne (sym e)))
          λ m e at' ptr'.
            get_elem?-set_ne l.data_array d e value
              λ eq. slots_ne i j d v.table (λ e. ne (sym e)) at at' ptr (rw eq ptr')

    kv_list_add_run :
        l.count < l.depth
        → find_free l.node_array ≡ some (i, n)
        → kv_list_add os key value l ≡ ok (some i) (added os l i d n key value)
    unfolding kv_list_add
    kv_list_add_run h found =
        let locks : Mutex.lock os l.mutex ≡ some (Mutex.held os) = rw v.unlocked (lock-init sem) in
        ground arith

  -- What an `add` that returns node `i` has done: the node was free and now has the key and the
  -- value, all other entries are as they were, and the table is well formed.
  pub record Added (i : ℕ) (l' : KvList V) : Type 0 where
    pub valid : IsValid os l'
    pub was_free : entry l i ≡ none
    pub new : entry l' i ≡ some (key, value)
    pub rest : (j : ℕ) → j ≢ i → entry l' j ≡ entry l j
    pub count : l'.count ≡ l.count + 1
    pub depth : l'.depth ≡ l.depth

  kv_list_add-Added :
      l.count < l.depth
      → (i : ℕ) × (l' : KvList V) × (kv_list_add os key value l ≡ ok (some i) l') × Added i l'
  kv_list_add-Added h =
      let (i, n, found, at, free) =
        find_free-some l.node_array (omega (arith, v.counted, v.table.size)) in
      let (d, ptr, lt) = slot_of i v.table at in
      (
        i,
        added os l i d n key value,
        kv_list_add_run i d n at free ptr h found,
        record {
          valid = added-IsValid i d n at free ptr;
          was_free = rw (entry_lem l i at, free, read_node);
          new = entry-added_self i d n at free ptr lt;
          rest = entry-added_ne i d n at free ptr;
          count = refl;
          depth = refl;
        },
      )

  -- On a well-formed table `kv_list_add` returns NULL and changes nothing when the table is full,
  -- and otherwise puts the pair into a node that was free.
  pub kv_list_add_lem :
      ((l.count ≡ l.depth) × (kv_list_add os key value l ≡ ok none l))
      ⊎ ((i : ℕ) × (l' : KvList V) × (l.count ≢ l.depth)
          × (kv_list_add os key value l ≡ ok (some i) l')
          × Added i l')
  unfolding kv_list_add
  kv_list_add_lem = elim (Bool-cases (l.count == l.depth)) [
    | inl e ↦
        let full = (==_iff l.count l.depth).0 e in
        inl (full, rw (le→leb l.depth l.count (omega (arith, full))))
    | inr e ↦
        let ne : l.count ≢ l.depth = ground arith in
        let (i, l', run, a) =
          kv_list_add-Added (omega (arith, ne, v.counted, v.table.size, used-le l.node_array)) in
        inr (i, l', ne, run, a)
  ]
