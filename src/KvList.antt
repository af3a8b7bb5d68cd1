-- ===== src/KvList.antt =====
-- ccs_project/src/lib/kv_list: a table of at most `depth` values under numeric keys. A
-- `kv_node_t*` is the node's index in `node_array`, and a data pointer the number of its slot of
-- `width` bytes in `data_array`; `none` is NULL. An operation runs as a command on the list's
-- struct, between `lock` and `unlock` where the code locks.
pub mod State
pub mod Order
pub mod Valid
pub mod Init
pub mod Add
pub mod Remove
pub mod Search
pub mod Stored
pub mod Undo
pub mod Sort
pub mod At
pub mod Walk
pub mod Items
pub mod Bag
pub mod Reach
pub mod Tasks
mod Tests
use mathlib.Core.Option
use cc2745_repo.Prelude.{
  decrement, ℕ, zero, suc, ◌+◌, ◌-◌, ◌^◌, Bool, true, false, not, ◌&&◌, Option, none, some, List,
  [], ◌∷◌, ltb, leb, ◌==◌, if◌then◌else◌, length, get_elem?, set, replicate, Run, ok, fault,
  blocked, out_of_fuel, Cmd, pure, modify, ◌>>=◌, ◌>>◌, Os,
}
use cc2745_repo.Hal.Mutex
use cc2745_repo.Libc.{Sign, negative, equal, positive, Libc}
use cc2745_repo.KvList.State.{Node, kv_key_invalid, KvList}

bind_nodes : ℕ → List Node → List Node
bind_nodes i [] = []
bind_nodes i (n ∷ ns) = record n { data_ptr = some i; key = kv_key_invalid } ∷ bind_nodes (suc i) ns

find_free : List Node → Option (ℕ × Node)
find_free [] = none
find_free (n ∷ ns) =
    let rest = Option.map (λ (r : ℕ × Node). (suc r.0, r.1)) (find_free ns) in
    if n.valid then rest else some (0, n)

abbrev clear_node : Node → Node
clear_node n = record n { valid = false; key = kv_key_invalid }

clear_nodes : List Node → List Node
clear_nodes [] = []
clear_nodes (n ∷ ns) = clear_node n ∷ clear_nodes ns

compare_num : ℕ → ℕ → Sign
compare_num a b = if ltb b a then positive else if ltb a b then negative else equal

unfoldable pub compare_node_key : Node → Node → Sign
unfolding compare_num
compare_node_key p q =
    if not p.valid && not q.valid
    then equal
    else if p.valid && q.valid
    then compare_num p.key q.key
    else if q.valid
    then positive
    else negative

-- `i` and `j` are the loop's counters: the index, and the used nodes seen.
search_loop : (key count : ℕ) → List Node → (i j : ℕ) → Option ℕ
search_loop key count [] i j = none
search_loop key count (n ∷ ns) i j =
    let rest = search_loop key count ns (suc i) (if n.valid then suc j else j) in
    if ltb j count then (if n.valid && n.key == key then some i else rest) else none

-- The used nodes' keys go to the caller's array from index `count` on.
walk_loop : List Node → ℕ → List ℕ → Option (ℕ × List ℕ)
walk_loop [] count out = some (count, out)
walk_loop (n ∷ ns) count out =
    let next =
      walk_loop ns (if n.valid then suc count else count)
        (if n.valid then set out count n.key else out) in
    if n.valid && leb (length out) count then none else next

-- The `while` of `kv_list_at`; `valid` is `node_array[index].valid`.
at_loop : ℕ → Bool → (count index i : ℕ) → Option (Option ℕ)
at_loop zero valid count index i = none
at_loop (suc fuel) valid count index i =
    let i' = if valid then suc i else i in
    let rest = at_loop fuel valid count index i' in
    if ltb i count then (if i' == index then some (some index) else rest) else some none

module _ {V : Type 0} where
  unfoldable pub kv_list_count : KvList V → ℕ
  kv_list_count l = l.count

  unfoldable pub kv_list_empty : KvList V → Bool
  kv_list_empty l = l.count == 0

  unfoldable pub kv_list_full : KvList V → Bool
  kv_list_full l = l.count == l.depth

  -- The loop's body at the first free node: it is claimed, and the value copied to its slot.
  pub add_node : ℕ → V → Cmd (KvList V) (Option ℕ)
  unfolding find_free
  add_node key value l = elim (find_free l.node_array) [
    | none ↦ ok none l
    | some (i, n) ↦ elim n.data_ptr [
      | none ↦ fault
      | some d ↦ ok (some i) (record l {
        node_array = set l.node_array i (record n { valid = true; key = key });
        data_array = set l.data_array d value;
        count = l.count + 1;
        sorted = false;
      })
    ]
  ]

  at_node : ℕ → ℕ → Cmd (KvList V) (Option ℕ)
  unfolding at_loop
  at_node fuel index l = elim (get_elem? l.node_array index) [
    | none ↦ fault
    | some n ↦ elim (at_loop fuel n.valid l.count index 0) [ none ↦ out_of_fuel | some r ↦ ok r l ]
  ]

module _ (os : Os) {V : Type 0} where
  pub lock : Cmd (KvList V) (Unit {0})
  lock l = elim (Mutex.lock os l.mutex) [ none ↦ blocked | some m ↦ ok tt (record l { mutex = m }) ]

  pub unlock : Cmd (KvList V) (Unit {0})
  unlock l = ok tt (record l { mutex = Mutex.unlock os l.mutex })

  unfoldable pub kv_list_init : Cmd (KvList V) (Unit {0})
  unfolding bind_nodes
  kv_list_init l = ok tt (record l {
    count = 0;
    sorted = false;
    node_array = bind_nodes 0 l.node_array;
    mutex = Mutex.init os;
  })

  unfoldable pub kv_list_add : ℕ → V → Cmd (KvList V) (Option ℕ)
  unfolding lock unlock add_node
  kv_list_add key value l =
      if leb l.depth l.count
      then ok none l
      else (do lock; node ← add_node key value; unlock; pure node) l

  unfoldable pub kv_list_clear : Cmd (KvList V) (Unit {0})
  unfolding lock unlock clear_nodes
  kv_list_clear = do
    lock
    modify (λ l. record l { node_array = clear_nodes l.node_array; count = 0; sorted = false })
    unlock

  -- On fuel, since the loop need not end.
  unfoldable pub kv_list_at : ℕ → ℕ → Cmd (KvList V) (Option ℕ)
  unfolding lock unlock at_node
  kv_list_at fuel index l =
      if leb l.count index
      then ok none l
      else (do lock; node ← at_node fuel index; unlock; pure node) l

  unfoldable pub kv_list_sort : Libc Node → Cmd (KvList V) (Unit {0})
  unfolding lock unlock
  kv_list_sort libc = do
    lock
    modify (λ l. record l { node_array = libc.qsort compare_node_key l.node_array })
    modify (λ l. record l { sorted = true })
    unlock

  general_search : ℕ → KvList V → Option ℕ
  unfolding search_loop
  general_search key l = search_loop key l.count l.node_array 0 0

  binary_search : Libc Node → ℕ → KvList V → Option ℕ
  binary_search libc key l =
      libc.bsearch compare_node_key (record { valid = true; key = key; data_ptr = none })
        l.node_array

  unfoldable pub kv_list_search : Libc Node → ℕ → Cmd (KvList V) (Option ℕ)
  unfolding lock unlock general_search binary_search
  kv_list_search libc key = do
    lock
    node ← (λ l. ok (if l.sorted then binary_search libc key l else general_search key l) l)
    unlock
    pure node

  -- `out` is the caller's array, and `counted` says whether `p_key_count` is given.
  unfoldable pub kv_list_walk : List ℕ → Bool → Cmd (KvList V) (List ℕ × Option ℕ)
  unfolding lock unlock walk_loop
  kv_list_walk out counted = do
    lock
    r ← (λ l. elim (walk_loop l.node_array 0 out) [ none ↦ fault | some r ↦ ok r l ])
    unlock
    pure (r.1, if counted then some r.0 else none)

  unfoldable pub kv_list_remove_node : Option ℕ → Cmd (KvList V) (Unit {0})
  unfolding lock unlock
  kv_list_remove_node none l = fault
  kv_list_remove_node (some i) l = elim (get_elem? l.node_array i) [
    | none ↦ fault
    | some n ↦
        if not n.valid
        then ok tt l
        else (do
          lock
          modify (λ l'. record l' { node_array = set l'.node_array i (clear_node n) })
          modify (λ l'. record l' { count = decrement l'.count; sorted = false })
          unlock)
            l
  ]

  unfoldable pub kv_list_remove : Libc Node → ℕ → Cmd (KvList V) (Unit {0})
  unfolding kv_list_search kv_list_remove_node
  kv_list_remove libc key = do node ← kv_list_search libc key; kv_list_remove_node node
