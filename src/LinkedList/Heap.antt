-- ===== src/LinkedList/Heap.antt =====
-- The nodes of a heap list: a node is allocated with its data behind it, and freed as one.
use cc2745_repo.Prelude.{
  ℕ, ◌+◌, ◌≡◌, ◌≢◌, refl, Bool, true, false, Option, none, some, List, [], ◌∷◌, arith, ok, Os,
  IsSemaphore,
}
use cc2745_repo.Hal.Mutex
use cc2745_repo.Hal.Mutex.{lock-init, unlock-held}
use cc2745_repo.Links.{Ptr, null, Links, update, is_node}
use cc2745_repo.Links.Chain.{has, Chain, IsFresh, frame}
use cc2745_repo.LinkedList.State.{LinkedList, align_up, heap_size, node_len}
use cc2745_repo.LinkedList.Slots.{linked_list_alloc_node, linked_list_free_node}
use cc2745_repo.LinkedList.Ends.Deque.{Holds}

-- `malloc` gives NULL, or memory that is not in use.
pub record IsMalloc (malloc : (Ptr → Bool) → ℕ → Option Ptr) : Type 0 where
  pub fresh :
      {live : Ptr → Bool} {size : ℕ} {p : Ptr}
      → malloc live size ≡ some p
      → (p ≢ null) × (live p ≡ false)

outside :
    (m : Links) (q p : Ptr) (xs : List Ptr) → Chain m q xs → m.live p ≡ false → has p xs ≡ false
outside m q p [] c dead = refl
outside m q p (x ∷ xs) c dead = let rest = outside m x p xs c.5 dead in ground (arith, rest, c.1)

module _ {D : Type 0} where
  -- The list after the node `p` is allocated.
  abbrev pub allocated : LinkedList D → Ptr → LinkedList D
  allocated l p = record l {
    links = record (l.links) {
      live = update l.links.live p true;
      next = update l.links.next p null;
    };
    data_ptr = update l.data_ptr p (p + align_up node_len);
  }

  -- The list after the node `p` is freed.
  abbrev pub released : LinkedList D → Ptr → LinkedList D
  released l p = record l {
    links = record (l.links) {
      live = update l.links.live p false;
      next = update l.links.next p null;
      prev = update l.links.prev p null;
    };
    opt = update l.opt p 0;
  }

  pub free_heap_node :
      (l : LinkedList D) (p : Ptr)
      → l.array_based ≡ false
      → is_node l.links p ≡ true
      → linked_list_free_node p l ≡ ok tt (released l p)
  unfolding linked_list_free_node
  free_heap_node l p heap node = rw heap (ground (arith, node))

  pub released-Holds :
      {os : Os} (l : LinkedList D) (p : Ptr) (xs : List Ptr)
      → Holds os l xs
      → has p xs ≡ false
      → Holds os (released l p) xs
  released-Holds l p xs h out = record {
    list = record {
      head = h.list.head;
      tail = h.list.tail;
      chain =
          frame l.links (released l p).links null xs (λ a i. ground (arith, i, out)) h.list.chain;
    };
    count = h.count;
    unlocked = h.unlocked;
  }

  pub allocated-Holds :
      {os : Os} (l : LinkedList D) (p : Ptr) (xs : List Ptr)
      → Holds os l xs
      → l.links.live p ≡ false
      → Holds os (allocated l p) xs
  allocated-Holds l p xs h dead =
      let out = outside l.links null p xs h.list.chain dead in
      record {
        list = record {
          head = h.list.head;
          tail = h.list.tail;
          chain =
              frame l.links (allocated l p).links null xs (λ a i. ground (arith, i, out))
                h.list.chain;
        };
        count = h.count;
        unlocked = h.unlocked;
      }

  pub allocated-IsFresh :
      {os : Os} (l : LinkedList D) (p : Ptr) (xs : List Ptr)
      → Holds os l xs
      → p ≢ null
      → l.links.live p ≡ false
      → IsFresh (allocated l p).links xs p
  allocated-IsFresh l p xs h ne dead = record {
    ne_null = ne;
    live = ground arith;
    outside = outside l.links null p xs h.list.chain dead;
  }

module _ {os : Os} (sem : IsSemaphore os) {D : Type 0} {l : LinkedList D} {xs : List Ptr}
    (h : Holds os l xs) (heap : l.array_based ≡ false) (malloc : (Ptr → Bool) → ℕ → Option Ptr)
    (len : ℕ) where
  locks : Mutex.lock os l.mutex ≡ some (Mutex.held os)
  locks = rw h.unlocked (lock-init sem)

  unlocks : Mutex.unlock os (Mutex.held os) ≡ l.mutex
  unlocks = rw h.unlocked (unlock-held sem)

  pub alloc_heap_none :
      malloc l.links.live (heap_size len) ≡ none
      → linked_list_alloc_node os malloc len l ≡ ok null l
  unfolding linked_list_alloc_node
  alloc_heap_none e = ground (arith, locks, unlocks, heap, e)

  pub alloc_heap_some :
      (p : Ptr)
      → malloc l.links.live (heap_size len) ≡ some p
      → linked_list_alloc_node os malloc len l ≡ ok p (allocated l p)
  unfolding linked_list_alloc_node
  alloc_heap_some p e = ground (arith, locks, unlocks, heap, e)
