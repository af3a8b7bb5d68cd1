-- ===== src/KvList/Tasks.antt =====
-- Several tasks at one table. kv_list_add tests the count, and kv_list_remove_node the node, before
-- they take the lock: each is cut into that test, the lock, the body, and the unlock, and the
-- tasks' parts come in any order.
pub mod Owner
pub mod Adding
pub mod Removing
mod Tests
use cc2745_repo.Prelude.{
  ℕ, ◌≡◌, refl, Bool, true, false, not, Option, none, some, arith, leb, if◌then◌else◌, get_elem?,
  set, decrement, ok, fault, Cmd, ◌>>=◌, ◌>>◌, pure, Os,
}
use cc2745_repo.Links.{update}
use cc2745_repo.KvList.State.{Node, KvList}
use cc2745_repo.KvList.{clear_node, add_node, lock, unlock, kv_list_add, kv_list_remove_node}

-- Where a task is: outside, behind the test, behind the lock, or behind the body.
pub data Place (V : Type 0) : Type 0 where
  outside : Place V
  adding : (key : ℕ) (value : V) → Place V
  add_locked : (key : ℕ) (value : V) → Place V
  removing : (i : ℕ) → Place V
  remove_locked : (i : ℕ) → Place V
  leaving : Place V

pub record System (V : Type 0) : Type 0 where
  pub table : KvList V
  pub place : ℕ → Place V

-- What kv_list_remove_node does to a node under the lock.
unfoldable pub clear_at : {V : Type 0} → ℕ → Cmd (KvList V) (Unit {0})
clear_at i l = elim (get_elem? l.node_array i) [
  | none ↦ fault
  | some n ↦ ok tt (record l {
    node_array = set l.node_array i (clear_node n);
    count = decrement l.count;
    sorted = false;
  })
]

module _ (os : Os) {V : Type 0} where
  -- One task's call is these parts in a row.
  pub kv_list_add-parts :
      (key : ℕ) (value : V) (l : KvList V)
      → kv_list_add os key value l ≡ (
          if leb l.depth l.count
          then ok none l
          else (do lock os; node ← add_node key value; unlock os; pure node) l)
  unfolding kv_list_add
  kv_list_add-parts key value l = refl

  pub kv_list_remove_node-parts :
      (i : ℕ) (n : Node) (l : KvList V)
      → get_elem? l.node_array i ≡ some n
      → kv_list_remove_node os (some i) l
        ≡ (if not n.valid then ok tt l else (do lock os; clear_at i; unlock os) l)
  unfolding kv_list_remove_node clear_at lock
  kv_list_remove_node-parts i n l at = ground (arith, at)

-- `removals` says whether tasks remove nodes. The next place of task `t` is `p`.
module _ (os : Os) (removals : Bool) {V : Type 0} where
  pub data Step (s : System V) : System V → Type 0 where
    tests_count :
        (t key : ℕ) (value : V)
        → s.place t ≡ outside
        → leb s.table.depth s.table.count ≡ false
        → Step s (record s { place = update s.place t (adding key value) })
    locks_add :
        (t key : ℕ) (value : V) {l : KvList V}
        → s.place t ≡ adding key value
        → lock os s.table ≡ ok tt l
        → Step s (record { table = l; place = update s.place t (add_locked key value) })
    stores :
        (t key : ℕ) (value : V) (r : Option ℕ) {l : KvList V}
        → s.place t ≡ add_locked key value
        → add_node key value s.table ≡ ok r l
        → Step s (record { table = l; place = update s.place t leaving })
    tests_node :
        (t i : ℕ) (n : Node)
        → removals ≡ true
        → s.place t ≡ outside
        → get_elem? s.table.node_array i ≡ some n
        → n.valid ≡ true
        → Step s (record s { place = update s.place t (removing i) })
    locks_remove :
        (t i : ℕ) {l : KvList V}
        → s.place t ≡ removing i
        → lock os s.table ≡ ok tt l
        → Step s (record { table = l; place = update s.place t (remove_locked i) })
    clears :
        (t i : ℕ) {l : KvList V}
        → s.place t ≡ remove_locked i
        → clear_at i s.table ≡ ok tt l
        → Step s (record { table = l; place = update s.place t leaving })
    unlocks :
        (t : ℕ) {l : KvList V}
        → s.place t ≡ leaving
        → unlock os s.table ≡ ok tt l
        → Step s (record { table = l; place = update s.place t outside })

  -- All tasks begin outside, at the table `l`.
  pub data Reach (l : KvList V) : System V → Type 0 where
    start : Reach l (record { table = l; place = λ t. outside })
    next : {s s' : System V} → Reach l s → Step s s' → Reach l s'
