-- ===== src/LwList/Tests.antt =====
-- The theorems on lists of two elements, at the addresses 10 and 20.
use cc2745_repo.Prelude.{ℕ, ◌≡◌, refl, Bool, ◌||◌, ◌==◌, if◌then◌else◌, [], ◌∷◌, arith, ok}
use cc2745_repo.Hal.Mutex
use cc2745_repo.Libc.Models.{counter, counter-IsSemaphore}
use cc2745_repo.Links.{Ptr, null, Links, list_remove_node}
use cc2745_repo.Links.Chain.{IsList, IsFresh}
use cc2745_repo.Links.RemoveNode.{list_remove_node_breaks}
use cc2745_repo.LwList.{LwList, lw_list_remove_head}
use cc2745_repo.LwList.Refine.{Holds, lw_list_remove_head_lem}

-- The nodes 10, 20 and 30 exist; the list holds the first two, one or none.
abbrev live : Ptr → Bool
live p = (p == 10) || (p == 20) || (p == 30)

abbrev links_of : (next prev : Ptr → Ptr) → (head tail : Ptr) → Links
links_of next prev head tail = record {
  live = live;
  next = next;
  prev = prev;
  head = head;
  tail = tail;
}

abbrev two_links : Links
two_links = links_of (λ p. if p == 10 then 20 else null) (λ p. if p == 20 then 10 else null) 10 20

abbrev one_link : Links
one_link = links_of (λ p. null) (λ p. null) 10 10

abbrev no_links : Links
no_links = links_of (λ p. null) (λ p. null) null null

abbrev list_of : Links → ℕ → LwList
list_of links n = record { links = links; mutex = 1; count = n }

two_links-IsList : IsList two_links (10 ∷ 20 ∷ [])
two_links-IsList = record {
  head = refl;
  tail = refl;
  chain = (omega arith, refl, refl, refl, refl, (omega arith, refl, refl, refl, refl, tt));
}

two-Holds : Holds counter (list_of two_links 2) (10 ∷ 20 ∷ [])
unfolding counter Mutex.init
two-Holds = record { list = two_links-IsList; count = refl; unlocked = refl }

one-Holds : Holds counter (list_of one_link 1) (10 ∷ [])
unfolding counter Mutex.init
one-Holds = record {
  list = record { head = refl; tail = refl; chain = (omega arith, refl, refl, refl, refl, tt) };
  count = refl;
  unlocked = refl;
}

none-Holds : Holds counter (list_of no_links 0) []
unfolding counter Mutex.init
none-Holds = record {
  list = record { head = refl; tail = refl; chain = tt };
  count = refl;
  unlocked = refl;
}

fresh : IsFresh two_links (10 ∷ 20 ∷ []) 30
fresh = record { ne_null = omega arith; live = refl; outside = refl }

lw_list_remove_head_lem_example :
    (k : LwList) × (lw_list_remove_head counter (list_of two_links 2) ≡ ok 10 k)
    × Holds counter k (20 ∷ [])
lw_list_remove_head_lem_example = lw_list_remove_head_lem counter-IsSemaphore 10 (20 ∷ []) two-Holds

list_remove_node_breaks_example :
    (k : Links) × (list_remove_node 20 two_links ≡ ok 20 k)
    × ((k.tail ≡ 10) × (k.next 10 ≡ 20))
    × (¬ IsList k (10 ∷ []))
list_remove_node_breaks_example =
    list_remove_node_breaks two_links 20 (10 ∷ []) [] two_links-IsList (λ e. cc)
