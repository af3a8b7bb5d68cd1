-- ===== src/LinkedList/Tests.antt =====
-- The theorems on an array list of four nodes, at the addresses 100, 116, 132 and 148.
use cc2745_repo.Prelude.{
  ℕ, ◌+◌, ◌*◌, ◌%◌, ◌<◌, ◌≡◌, ◌≢◌, ◌⊎◌, refl, Bool, true, false, ◌||◌, ◌==◌, if◌then◌else◌, Option,
  none, [], ◌∷◌, arith, ok, blocked,
}
use cc2745_repo.Hal.Mutex
use cc2745_repo.Libc.{equal, negative}
use cc2745_repo.Libc.Models.{counter, counter-IsSemaphore, simple_libc}
use cc2745_repo.Links.{Ptr, null, Links}
use cc2745_repo.Links.Chain.{SameOutside, IsFresh}
use cc2745_repo.LinkedList.State.{LinkedList, node_at}
use cc2745_repo.LinkedList.Slots.{linked_list_alloc_node, is_usable, linked_list_init_for_array}
use cc2745_repo.LinkedList.Slots.Scan.{free_count, taken}
use cc2745_repo.LinkedList.Slots.Alloc.{linked_list_alloc_node_lem, linked_list_alloc_node_first}
use cc2745_repo.LinkedList.Slots.Init.{linked_list_init_for_array_lem}
use cc2745_repo.LinkedList.Ends.{
  Compare, linked_list_insert_head, linked_list_insert_tail, linked_list_remove_head,
  linked_list_search,
}
use cc2745_repo.LinkedList.Ends.Deque.{Holds, linked_list_insert_lem, linked_list_remove_head_lem}
use cc2745_repo.LinkedList.Ends.Find.{first_match, matches, linked_list_search_lem}
use cc2745_repo.LinkedList.Sort.{linked_list_sort, linked_list_sort_waits}

abbrev live : Ptr → Bool
live p = (p == 100) || (p == 116) || (p == 132) || (p == 148)

-- The second and the third node are in use and in the list, and the third was handed out last.
abbrev two : LinkedList ℕ
two = record {
  links = record {
    live = live;
    next = λ p. if p == 116 then 132 else null;
    prev = λ p. if p == 132 then 116 else null;
    head = 116;
    tail = 132;
  };
  opt = λ p. if p == 116 then 1 else if p == 132 then 1 else 0;
  data_ptr = λ p. if p == 116 then 1004 else 1008;
  store = λ p. p;
  array_based = true;
  count = 2;
  width = 4;
  depth = 4;
  node_array = 100;
  data_array = 1000;
  mutex = 1;
  sorted = false;
  last_slot_index = 2;
}

two-Holds : Holds counter two (116 ∷ 132 ∷ [])
unfolding counter Mutex.init
two-Holds = record {
  list = record {
    head = refl;
    tail = refl;
    chain = (omega arith, refl, refl, refl, refl, (omega arith, refl, refl, refl, refl, tt));
  };
  count = refl;
  unlocked = refl;
}

fresh : IsFresh two.links (116 ∷ 132 ∷ []) 148
fresh = record { ne_null = omega arith; live = refl; outside = refl }

no_memory : (Ptr → Bool) → ℕ → Option Ptr
no_memory l n = none

-- The values behind the data pointers are compared for equality.
compare : Compare ℕ
compare store p q = if store p.data_ptr == store q.data_ptr then equal else negative

linked_list_alloc_node_lem_example :
    ((free_count 4 two ≡ 0) × (linked_list_alloc_node counter no_memory 4 two ≡ ok null two))
    ⊎ ((index : ℕ) × (index < 4)
        × (two.opt (node_at two index) ≡ 0)
        × (linked_list_alloc_node counter no_memory 4 two
            ≡ ok (node_at two index) (taken two index))
        × (free_count 4 (taken two index) + 1 ≡ free_count 4 two))
linked_list_alloc_node_lem_example =
    linked_list_alloc_node_lem counter-IsSemaphore no_memory 4 two two-Holds.unlocked refl
      (omega arith) (omega arith)

-- The slot behind the last one is free.
linked_list_alloc_node_first_example :
    linked_list_alloc_node counter no_memory 4 two ≡ ok 148 (taken two 3)
linked_list_alloc_node_first_example =
    linked_list_alloc_node_first counter-IsSemaphore no_memory 4 two two-Holds.unlocked refl
      (omega arith) (omega arith) 1 (omega arith) used refl
  where
    used : (j : ℕ) → j < 1 → two.opt (100 + (2 + j) % 4 * 16) ≢ 0
    used j h = ground arith

linked_list_init_for_array_lem_example :
    (k : LinkedList ℕ) × (linked_list_init_for_array counter 0 two ≡ ok tt k)
    × Holds counter k []
    × (free_count k.depth k ≡ 4)
    × (k.last_slot_index ≡ 0)
    × (k.data_ptr (node_at k 3) ≡ 1012)
unfolding is_usable
linked_list_init_for_array_lem_example =
    linked_list_init_for_array_lem counter 0 two 3 refl refl (omega arith)

linked_list_insert_lem_example :
    ((k : Links) × (linked_list_insert_head counter 148 two
        ≡ ok 148 (record two { links = k; count = 3; sorted = false }))
      × Holds counter (record two { links = k; count = 3; sorted = false }) (148 ∷ 116 ∷ 132 ∷ [])
      × SameOutside (148 ∷ 116 ∷ 132 ∷ []) two.links k)
    × ((k : Links) × (linked_list_insert_tail counter 148 two
          ≡ ok 148 (record two { links = k; count = 3; sorted = false }))
        × Holds counter (record two { links = k; count = 3; sorted = false }) (116 ∷ 132 ∷ 148 ∷ [])
        × SameOutside (116 ∷ 132 ∷ 148 ∷ []) two.links k)
linked_list_insert_lem_example = linked_list_insert_lem counter-IsSemaphore two-Holds 148 fresh

linked_list_remove_head_lem_example :
    (k : Links) × (linked_list_remove_head counter two
      ≡ ok 116 (record two { links = k; count = 1 }))
    × Holds counter (record two { links = k; count = 1 }) (132 ∷ [])
    × ((a : Ptr) → k.live a ≡ live a)
linked_list_remove_head_lem_example =
    linked_list_remove_head_lem counter-IsSemaphore 116 (132 ∷ []) two-Holds

linked_list_search_lem_example :
    linked_list_search counter simple_libc 3 1008 compare two
    ≡ ok (first_match (matches compare 1008 two) (116 ∷ 132 ∷ [])) two
linked_list_search_lem_example =
    linked_list_search_lem counter-IsSemaphore simple_libc 3 1008 compare (116 ∷ 132 ∷ []) two-Holds
      refl (omega arith)

linked_list_sort_waits_example : linked_list_sort counter simple_libc compare two ≡ blocked
linked_list_sort_waits_example =
    linked_list_sort_waits counter counter-IsSemaphore simple_libc compare two two-Holds.unlocked
