-- ===== src/KvList/Sort.antt =====
-- `kv_list_sort` only reorders the entries.
use mathlib.Core.List.{Perm}
use mathlib.Core.List.Perm
use cc2745_repo.Prelude.{
  ℕ, ◌≡◌, ◌∙◌, refl, sym, true, Option, List, map, arith, total_perm, length_perm, Os, IsSemaphore,
  ok, some,
}
use cc2745_repo.Hal.Mutex
use cc2745_repo.Hal.Mutex.{lock-init, unlock-held}
use cc2745_repo.Libc.{Libc, IsQsort}
use cc2745_repo.KvList.State.{Node, KvList}
use cc2745_repo.KvList.{compare_node_key, kv_list_sort}
use cc2745_repo.KvList.Valid.{is_used, owns, is_stray, IsValid, read_node}

-- The entries in the order of the nodes, free nodes as `none`.
abbrev pub entries : {V : Type 0} → KvList V → List (Option (ℕ × V))
entries l = map (read_node l.data_array) l.node_array

-- On a well-formed table `kv_list_sort` marks the array as sorted, which it then is, and keeps the
-- entries up to their order: each node moves with its data pointer.
pub kv_list_sort_lem :
    {V : Type 0} {os : Os} {libc : Libc Node} {l : KvList V}
    → IsSemaphore os
    → IsQsort compare_node_key libc
    → IsValid os l
    → (l' : KvList V) × (kv_list_sort os libc l ≡ ok tt l')
      × IsValid os l'
      × (l'.sorted ≡ true)
      × (l'.count ≡ l.count)
      × Perm (entries l') (entries l)
unfolding kv_list_sort
kv_list_sort_lem {V} {os} {libc} {l} sem lib v =
    let locks : Mutex.lock os l.mutex ≡ some (Mutex.held os) = rw v.unlocked (lock-init sem) in
    let perm = lib.perm l.node_array in
    let result : KvList V = record l {
      node_array = libc.qsort compare_node_key l.node_array;
      sorted = true;
      mutex = Mutex.unlock os (Mutex.held os);
    } in
    (
      result,
      ground arith,
      record {
        table = record {
          size = length_perm perm ∙ v.table.size;
          bound = total_perm (is_stray l.depth) perm ∙ v.table.bound;
          distinct = λ d. omega (arith, total_perm (owns d) perm, v.table.distinct d);
        };
        slots = v.slots;
        counted = v.counted ∙ sym (total_perm is_used perm);
        ordered = λ e. lib.sorted l.node_array;
        unlocked = unlock-held sem;
      },
      refl,
      refl,
      Perm.map (read_node l.data_array) perm,
    )
