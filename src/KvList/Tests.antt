-- ===== src/KvList/Tests.antt =====
-- The theorems on concrete tables.
use mathlib.Core.List.{Perm}
use cc2745_repo.Prelude.{
  ◌⊎◌, ℕ, ◌<◌, ◌≤◌, total, ◌≡◌, ◌≢◌, refl, Bool, true, false, Option, none, some, [], ◌∷◌, arith,
  ok, fault, out_of_fuel,
}
use cc2745_repo.Hal.Mutex
use cc2745_repo.Libc.{IsQsort, IsBsearch, positive}
use cc2745_repo.Libc.Models.{
  counter, counter-IsSemaphore, simple_libc, simple_libc-IsQsort, simple_libc-IsBsearch,
}
use cc2745_repo.KvList.State.{Node, KvList}
use cc2745_repo.KvList.{
  compare_node_key, kv_list_add, kv_list_sort, kv_list_search, kv_list_remove_node, kv_list_at,
  kv_list_walk,
}
use cc2745_repo.KvList.Order.{compare_node_key-opposite, compare_node_key_trans}
use cc2745_repo.KvList.Valid.{owns, IsValid}
use cc2745_repo.KvList.Add.{Added, kv_list_add_lem}
use cc2745_repo.KvList.Remove.{Removed, kv_list_remove_node_lem}
use cc2745_repo.KvList.Search.{kv_list_search_lem, IsHit}
use cc2745_repo.KvList.Sort.{kv_list_sort_lem, entries}
use cc2745_repo.KvList.At.{kv_list_at_lem, kv_list_at_spins}
use cc2745_repo.KvList.Walk.{kv_list_walk_lem}
use cc2745_repo.KvList.Bag.{put, view, Step-Refines}
use cc2745_repo.KvList.Reach.{Reach, here, next, adds, Reach-IsValid}

-- Two used nodes, under keys 9 and 4, and a free one between them.
abbrev pub node : Bool → ℕ → ℕ → Node
node b k d = record { valid = b; key = k; data_ptr = some d }

abbrev pub two_links : KvList ℕ
two_links = record {
  count = 2;
  depth = 3;
  node_array = node true 9 1 ∷ node false 0 0 ∷ node true 4 2 ∷ [];
  data_array = 0 ∷ 90 ∷ 40 ∷ [];
  mutex = 1;
  sorted = false;
}

two_links_distinct : (d : ℕ) → total (owns d) two_links.node_array ≤ 1
two_links_distinct d = ground arith

pub two_links-IsValid : IsValid counter two_links
unfolding counter Mutex.init
two_links-IsValid = record {
  table = record { size = refl; bound = refl; distinct = two_links_distinct };
  slots = refl;
  counted = refl;
  ordered = λ e. absurd (cc);
  unlocked = refl;
}

simple_total : (p q : Node) → compare_node_key p q ≡ positive → compare_node_key q p ≢ positive
simple_total p q h k = let o = compare_node_key-opposite p q in cc

simple-IsQsort : IsQsort compare_node_key simple_libc
simple-IsQsort = simple_libc-IsQsort compare_node_key simple_total compare_node_key_trans

simple-IsBsearch : IsBsearch compare_node_key simple_libc
simple-IsBsearch = simple_libc-IsBsearch compare_node_key

kv_list_add_lem_example :
    ((two_links.count ≡ two_links.depth) × (kv_list_add counter 7 70 two_links ≡ ok none two_links))
    ⊎ ((i : ℕ) × (l' : KvList ℕ) × (two_links.count ≢ two_links.depth)
        × (kv_list_add counter 7 70 two_links ≡ ok (some i) l')
        × Added counter-IsSemaphore 7 70 two_links-IsValid i l')
kv_list_add_lem_example = kv_list_add_lem counter-IsSemaphore 7 70 two_links-IsValid

kv_list_search_lem_example :
    (r : Option ℕ) × (kv_list_search counter simple_libc 4 two_links ≡ ok r two_links)
    × IsHit 4 two_links.node_array r
kv_list_search_lem_example =
    kv_list_search_lem counter-IsSemaphore simple-IsBsearch 4 two_links-IsValid

kv_list_sort_lem_example :
    (l' : KvList ℕ) × (kv_list_sort counter simple_libc two_links ≡ ok tt l')
    × IsValid counter l'
    × (l'.sorted ≡ true)
    × (l'.count ≡ 2)
    × Perm (entries l') (entries two_links)
kv_list_sort_lem_example = kv_list_sort_lem counter-IsSemaphore simple-IsQsort two_links-IsValid

kv_list_remove_node_lem_example :
    (kv_list_remove_node counter none two_links ≡ fault)
    × (((true ≡ false) × (kv_list_remove_node counter (some 2) two_links ≡ ok tt two_links))
        ⊎ ((l' : KvList ℕ) × (true ≡ true)
            × (kv_list_remove_node counter (some 2) two_links ≡ ok tt l')
            × Removed counter-IsSemaphore two_links-IsValid 2 l'))
kv_list_remove_node_lem_example =
    kv_list_remove_node_lem counter-IsSemaphore two_links-IsValid 2 (node true 4 2) refl

kv_list_walk_lem_example :
    kv_list_walk counter (5 ∷ 5 ∷ 5 ∷ []) true two_links ≡ ok (9 ∷ 4 ∷ 5 ∷ [], some 2) two_links
kv_list_walk_lem_example =
    kv_list_walk_lem counter-IsSemaphore two_links-IsValid (5 ∷ 5 ∷ 5 ∷ []) true (omega arith)

kv_list_at_lem_example :
    ((true ≡ true) × (0 < 0) × (kv_list_at counter 3 0 two_links ≡ ok (some 0) two_links))
    ⊎ ((true ≡ true) × ◌≡◌ {A = ℕ} 0 0 × (kv_list_at counter 3 0 two_links ≡ ok none two_links))
    ⊎ ((true ≡ false)
        × ◌≡◌ {A = ℕ} 0 0
        × (kv_list_at counter 3 0 two_links ≡ ok (some 0) two_links))
    ⊎ ((true ≡ false) × (0 < 0))
kv_list_at_lem_example =
    kv_list_at_lem counter-IsSemaphore two_links-IsValid 3 0 (node true 9 1) refl (omega arith)
      (omega arith)

kv_list_at_spins_example : kv_list_at counter 1000 1 two_links ≡ out_of_fuel
kv_list_at_spins_example =
    kv_list_at_spins counter-IsSemaphore two_links-IsValid 1000 1 (node false 0 0) refl
      (omega arith) refl (omega arith)

abbrev three_links : KvList ℕ
three_links = record two_links {
  count = 3;
  node_array = node true 9 1 ∷ node true 7 0 ∷ node true 4 2 ∷ [];
  data_array = 70 ∷ 90 ∷ 40 ∷ [];
}

three_links-Reach : Reach counter simple_libc two_links three_links
unfolding kv_list_add counter Mutex.lock Mutex.unlock
three_links-Reach = next here (adds 7 70 (some 1) refl)

Reach-IsValid_example : IsValid counter three_links
Reach-IsValid_example =
    Reach-IsValid counter-IsSemaphore simple-IsQsort simple-IsBsearch two_links-IsValid
      three_links-Reach

Step-Refines_example : view three_links ≡ put (7, 70) (view two_links)
unfolding kv_list_add counter Mutex.lock Mutex.unlock
Step-Refines_example =
    Step-Refines counter-IsSemaphore simple-IsQsort simple-IsBsearch two_links-IsValid
      (adds 7 70 (some 1) refl)
