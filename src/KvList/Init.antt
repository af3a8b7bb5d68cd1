-- ===== src/KvList/Init.antt =====
-- `kv_list_init` and `kv_list_clear` make empty tables.
use cc2745_repo.Prelude.{
  ℕ, zero, suc, ◌+◌, ◌<◌, ◌≤◌, ◌≡◌, ◌∙◌, sym, refl, ap, inl, inr, false, none, some, List, [], ◌∷◌,
  arith, Option-cases, length, get_elem?, replicate, total, le-total, length-replicate, Os,
  IsSemaphore, ok,
}
use cc2745_repo.Hal.Mutex
use cc2745_repo.Hal.Mutex.{lock-init, unlock-held}
use cc2745_repo.KvList.State.{Node, zero_node, def_static, KvList}
use cc2745_repo.KvList.{clear_node, clear_nodes, bind_nodes, kv_list_init, kv_list_clear}
use cc2745_repo.KvList.Valid.{is_used, owns, is_stray, IsValid, entry}

-- Clearing keeps the slots and frees every node.
total-clear :
    (w : Node → ℕ) (ns : List Node)
    → ((n : Node) → w (clear_node n) ≡ w n)
    → total w (clear_nodes ns) ≡ total w ns
unfolding clear_nodes
total-clear w [] h = refl
total-clear w (n ∷ ns) h = omega (arith, total-clear w ns h, h n)

length-clear : (ns : List Node) → length (clear_nodes ns) ≡ length ns
unfolding clear_nodes
length-clear [] = refl
length-clear (n ∷ ns) = ap suc (length-clear ns)

used-clear : (ns : List Node) → total is_used (clear_nodes ns) ≡ 0
unfolding clear_nodes
used-clear [] = refl
used-clear (n ∷ ns) = omega (arith, used-clear ns)

-- A table with no used node has no entry.
pub entry-none :
    {V : Type 0} (l : KvList V) (i : ℕ) → total is_used l.node_array ≡ 0 → entry l i ≡ none
entry-none l i e = elim (Option-cases (get_elem? l.node_array i)) [
  | inl out ↦ rw (out, entry)
  | inr (n, at) ↦ ground (arith, le-total is_used l.node_array i at)
]

module _ {V : Type 0} {os : Os} (sem : IsSemaphore os) where
  -- `kv_list_clear` leaves a well-formed table with no entry and the same depth.
  pub kv_list_clear_lem :
      {l : KvList V}
      → IsValid os l
      → (l' : KvList V) × (kv_list_clear os l ≡ ok tt l')
        × IsValid os l'
        × (l'.depth ≡ l.depth)
        × ((i : ℕ) → entry l' i ≡ none)
  unfolding kv_list_clear
  kv_list_clear_lem {l} v =
      let locks : Mutex.lock os l.mutex ≡ some (Mutex.held os) = rw v.unlocked (lock-init sem) in
      let cleared : KvList V = record l {
        node_array = clear_nodes l.node_array;
        count = 0;
        sorted = false;
        mutex = Mutex.unlock os (Mutex.held os);
      } in
      (
        cleared,
        ground arith,
        record {
          table = record {
            size = length-clear l.node_array ∙ v.table.size;
            bound = total-clear (is_stray l.depth) l.node_array (λ n. refl) ∙ v.table.bound;
            distinct = λ d.
                omega (arith, total-clear (owns d) l.node_array (λ n. refl), v.table.distinct d);
          };
          slots = v.slots;
          counted = sym (used-clear l.node_array);
          ordered = λ e. absurd (cc);
          unlocked = unlock-held sem;
        },
        refl,
        λ i. entry-none cleared i (used-clear l.node_array),
      )

length-bind : (i : ℕ) (ns : List Node) → length (bind_nodes i ns) ≡ length ns
unfolding bind_nodes
length-bind i [] = refl
length-bind i (n ∷ ns) = ap suc (length-bind (suc i) ns)

used-bind : (i : ℕ) (ns : List Node) → total is_used (bind_nodes i ns) ≡ total is_used ns
unfolding bind_nodes
used-bind i [] = refl
used-bind i (n ∷ ns) = omega (arith, used-bind (suc i) ns)

stray-bind :
    (depth i : ℕ) (ns : List Node)
    → i + length ns ≤ depth
    → total (is_stray depth) (bind_nodes i ns) ≡ 0
unfolding bind_nodes
stray-bind depth i [] h = refl
stray-bind depth i (n ∷ ns) h = ground (arith, stray-bind depth (suc i) ns)

-- The slots from `i` on are given out once each.
owns-bind :
    (d i : ℕ) (ns : List Node)
    → (total (owns d) (bind_nodes i ns) ≤ 1) × (d < i → total (owns d) (bind_nodes i ns) ≡ 0)
unfolding bind_nodes
owns-bind d i [] = (omega arith, λ h. refl)
owns-bind d i (n ∷ ns) = ground (arith, owns-bind d (suc i) ns)

used-replicate : (k : ℕ) → total is_used (replicate k zero_node) ≡ 0
used-replicate zero = refl
used-replicate (suc k) = omega (arith, used-replicate k)

module _ {V : Type 0} (os : Os) where
  -- On arrays of `depth` entries whose nodes are all free, as static storage starts, `kv_list_init`
  -- makes a well-formed table with no entry.
  pub kv_list_init_lem :
      (l : KvList V)
      → length l.node_array ≡ l.depth
      → length l.data_array ≡ l.depth
      → total is_used l.node_array ≡ 0
      → (l' : KvList V) × (kv_list_init os l ≡ ok tt l')
        × IsValid os l'
        × (l'.depth ≡ l.depth)
        × ((i : ℕ) → entry l' i ≡ none)
  unfolding kv_list_init
  kv_list_init_lem l size slots free =
      let fresh : KvList V = record l {
        count = 0;
        sorted = false;
        node_array = bind_nodes 0 l.node_array;
        mutex = Mutex.init os;
      } in
      (
        fresh,
        refl,
        record {
          table = record {
            size = length-bind 0 l.node_array ∙ size;
            bound = stray-bind l.depth 0 l.node_array (omega arith);
            distinct = λ d. (owns-bind d 0 l.node_array).0;
          };
          slots = slots;
          counted = sym (used-bind 0 l.node_array ∙ free);
          ordered = λ e. absurd (cc);
          unlocked = refl;
        },
        refl,
        λ i. entry-none fresh i (used-bind 0 l.node_array ∙ free),
      )

  -- A table defined by `DEF_STATIC_KV_LIST` is well formed after `kv_list_init`, and empty.
  pub def_static-IsValid :
      (blank : V) (depth : ℕ)
      → (l : KvList V) × (kv_list_init os (def_static blank depth) ≡ ok tt l)
        × IsValid os l
        × (l.depth ≡ depth)
        × ((i : ℕ) → entry l i ≡ none)
  unfolding def_static
  def_static-IsValid blank depth =
      kv_list_init_lem (def_static blank depth) (length-replicate depth zero_node)
        (length-replicate depth blank) (used-replicate depth)
