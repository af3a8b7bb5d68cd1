-- ===== src/KvList/Valid.antt =====
-- The well-formed tables: what every operation keeps.
use mathlib.Core.Option
use cc2745_repo.Prelude.{
  Option-cases, inl, inr, ◌≢◌, set, length-set, total-set, add-le-total, ◌∙◌, ◌<◌, refl, get_elem?,
  le-total, ℕ, ◌≡◌, ◌≤◌, true, Option, none, some, List, arith, leb, ◌==◌, if◌then◌else◌, length,
  total, Os,
}
use cc2745_repo.Hal.Mutex
use cc2745_repo.Libc.{IsSorted}
use cc2745_repo.KvList.State.{Node, KvList}
use cc2745_repo.KvList.{compare_node_key}

abbrev pub is_used : Node → ℕ
is_used n = if n.valid then 1 else 0

-- Whether the node's data pointer is the slot `d`.
abbrev pub owns : ℕ → Node → ℕ
owns d n = elim n.data_ptr [ none ↦ 0 | some e ↦ if e == d then 1 else 0 ]

-- Whether the node's data pointer is none of the `depth` slots.
abbrev pub is_stray : ℕ → Node → ℕ
is_stray depth n = elim n.data_ptr [ none ↦ 1 | some e ↦ if leb depth e then 1 else 0 ]

-- The array's part of the invariant.
pub record IsTable (depth : ℕ) (ns : List Node) : Type 0 where
  pub size : length ns ≡ depth
  pub bound : total (is_stray depth) ns ≡ 0
  pub distinct : (d : ℕ) → total (owns d) ns ≤ 1

-- The arrays have `depth` entries, every node has a slot of its own, `count` counts the used
-- nodes, an array marked as sorted is sorted, and nobody holds the lock.
pub record IsValid {V : Type 0} (os : Os) (l : KvList V) : Type 0 where
  pub table : IsTable l.depth l.node_array
  pub slots : length l.data_array ≡ l.depth
  pub counted : l.count ≡ total is_used l.node_array
  pub ordered : l.sorted ≡ true → IsSorted compare_node_key l.node_array
  pub unlocked : l.mutex ≡ Mutex.init os

-- The key and the value of a used node.
abbrev pub read_node {ℓ} : {V : Type ℓ} → List V → Node → Option (ℕ × V)
read_node slots n =
    if n.valid
    then (elim n.data_ptr [
      | none ↦ none
      | some d ↦ Option.map (λ v. (n.key, v)) (get_elem? slots d)
    ])
    else none

-- The entry that the pointer to node `i` gives access to.
abbrev pub entry : {V : Type 0} → KvList V → ℕ → Option (ℕ × V)
entry l i = elim (get_elem? l.node_array i) [ none ↦ none | some n ↦ read_node l.data_array n ]

stray_cases :
    (depth : ℕ) (p : Option ℕ) (n : Node)
    → n.data_ptr ≡ p
    → is_stray depth n ≡ 0
    → (d : ℕ) × (n.data_ptr ≡ some d) × (d < depth)
stray_cases depth none n e h = absurd (ground arith)
stray_cases depth (some d) n e h = (d, e, ground arith)

-- Every node of a table has a slot.
pub slot_of :
    {depth : ℕ} {ns : List Node} (i : ℕ) {n : Node}
    → IsTable depth ns
    → get_elem? ns i ≡ some n
    → (d : ℕ) × (n.data_ptr ≡ some d) × (d < depth)
slot_of {depth} {ns} i {n} t at =
    stray_cases depth n.data_ptr n refl (omega (arith, le-total (is_stray depth) ns i at, t.bound))

-- A write to node `i` that leaves its data pointer alone keeps the table.
pub set-IsTable :
    {depth : ℕ} {ns : List Node} (i : ℕ) {n : Node} (m : Node)
    → IsTable depth ns
    → get_elem? ns i ≡ some n
    → m.data_ptr ≡ n.data_ptr
    → IsTable depth (set ns i m)
set-IsTable {depth} {ns} i {n} m t at same = record {
  size = length-set ns i m ∙ t.size;
  bound = omega (
    arith,
    total-set (is_stray depth) ns i m at,
    t.bound,
    le-total (is_stray depth) ns i at,
    stray_same,
  );
  distinct = λ d. omega (arith, total-set (owns d) ns i m at, t.distinct d, owns_same d);
}
  where
    stray_same : is_stray depth m ≡ is_stray depth n
    stray_same = rw (same, is_stray)

    owns_same : (d : ℕ) → owns d m ≡ owns d n
    owns_same d = rw (same, owns)

-- Two nodes of a table have different slots.
pub slots_ne :
    {depth : ℕ} {ns : List Node} (i j d : ℕ) {n m : Node}
    → IsTable depth ns
    → i ≢ j
    → get_elem? ns i ≡ some n
    → get_elem? ns j ≡ some m
    → n.data_ptr ≡ some d
    → m.data_ptr ≢ some d
slots_ne {ns} i j d {n} {m} t ne at at' ptr ptr' =
    omega (arith, add-le-total (owns d) ns i j ne at at', t.distinct d, own n ptr, own m ptr')
  where
    own : (x : Node) → x.data_ptr ≡ some d → owns d x ≡ 1
    own x e = rw (e, owns) (ground arith)

pub entry_lem :
    {V : Type 0} (l : KvList V) (i : ℕ) {n : Node}
    → get_elem? l.node_array i ≡ some n
    → entry l i ≡ read_node l.data_array n
entry_lem l i at = rw (at, entry)

-- Two tables agree at `j` if the node is the same, and its slot when it is used.
pub entry_same :
    {V : Type 0} (l k : KvList V) (j : ℕ)
    → get_elem? k.node_array j ≡ get_elem? l.node_array j
    → ((n : Node) (d : ℕ)
        → get_elem? l.node_array j ≡ some n
        → n.data_ptr ≡ some d
        → get_elem? k.data_array d ≡ get_elem? l.data_array d)
    → entry k j ≡ entry l j
entry_same l k j same slot = elim (Option-cases (get_elem? l.node_array j)) [
  | inl e ↦ rw (same, e, entry)
  | inr (n, e) ↦ elim (Option-cases n.data_ptr) [
    | inl p ↦ rw (same, e, entry) (rw (p, read_node))
    | inr (d, p) ↦ rw (same, e, entry) (rw (p, read_node) (rw (slot n d e p)))
  ]
]
