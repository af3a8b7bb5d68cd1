-- ===== src/LinkedList/Ends/Deque.antt =====
-- The list against a double-ended queue of its nodes, and what an operation leaves as it was.
use cc2745_repo.Prelude.{
  decrement, ℕ, ◌+◌, ◌<◌, ◌≡◌, ◌∙◌, ◌≢◌, false, List, [], ◌∷◌, ◌++◌, arith, length, length-append,
  some, ok, Os, IsSemaphore,
}
use cc2745_repo.Hal.Mutex
use cc2745_repo.Hal.Mutex.{lock-init, unlock-held}
use cc2745_repo.Links.{
  Ptr, null, Links, list_insert_head, list_insert_tail, list_remove_head, list_remove_tail,
}
use cc2745_repo.Links.Chain.{has, IsList, SameOutside, IsFresh}
use cc2745_repo.Links.Insert.{list_insert_head_lem, list_insert_tail_lem}
use cc2745_repo.Links.Remove.{list_remove_head_lem, list_remove_tail_lem}
use cc2745_repo.Links.Split.{between, last_of-append}
use cc2745_repo.Links.Exists.{list_node_exists_lem}
use cc2745_repo.LinkedList.State.{LinkedList}
use cc2745_repo.LinkedList.Ends.{
  linked_list_insert_head, linked_list_insert_tail, linked_list_remove_head,
  linked_list_remove_tail, linked_list_exist, linked_list_count,
}

-- The list links the nodes `xs`, its count is their number, and nobody holds its lock.
pub record Holds {D : Type 0} (os : Os) (l : LinkedList D) (xs : List Ptr) : Type 0 where
  pub list : IsList l.links xs
  pub count : l.count ≡ length xs
  pub unlocked : l.mutex ≡ Mutex.init os

module _ {os : Os} (sem : IsSemaphore os) {D : Type 0} where
  module _ {l : LinkedList D} {xs : List Ptr} (h : Holds os l xs) where
    locks : Mutex.lock os l.mutex ≡ some (Mutex.held os)
    locks = rw h.unlocked (lock-init sem)

    unlocks : Mutex.unlock os (Mutex.held os) ≡ l.mutex
    unlocks = rw h.unlocked (unlock-held sem)

    insert_head_run :
        (x : Ptr) (k : Links)
        → list_insert_head x l.links ≡ ok tt k
        → linked_list_insert_head os x l
          ≡ ok x (record l { links = k; count = l.count + 1; sorted = false })
    unfolding linked_list_insert_head
    insert_head_run x k e = ground (arith, locks, unlocks)

    insert_tail_run :
        (x : Ptr) (k : Links)
        → list_insert_tail x l.links ≡ ok tt k
        → linked_list_insert_tail os x l
          ≡ ok x (record l { links = k; count = l.count + 1; sorted = false })
    unfolding linked_list_insert_tail
    insert_tail_run x k e = ground (arith, locks, unlocks)

    -- Both insertions return the node, and add it at their end of the queue. They drop the mark
    -- `_sorted`, write no link of a node outside the new list, free no node, and write no other
    -- field but the list's two ends and its count.
    pub linked_list_insert_lem :
        (x : Ptr)
        → IsFresh l.links xs x
        → ((k : Links) × (linked_list_insert_head os x l
              ≡ ok x (record l { links = k; count = l.count + 1; sorted = false }))
            × Holds os (record l { links = k; count = l.count + 1; sorted = false }) (x ∷ xs)
            × SameOutside (x ∷ xs) l.links k)
          × ((k : Links) × (linked_list_insert_tail os x l
                ≡ ok x (record l { links = k; count = l.count + 1; sorted = false }))
              × Holds os
                  (record l { links = k; count = l.count + 1; sorted = false })
                  (xs ++ x ∷ [])
              × SameOutside (xs ++ x ∷ []) l.links k)
    linked_list_insert_lem x f =
        let (k, run, linked) = list_insert_head_lem l.links xs x h.list f in
        let (k', run', linked') = list_insert_tail_lem l.links xs x h.list f in
        (
          (
            k,
            insert_head_run x k run,
            record { list = linked.list; count = omega (arith, h.count); unlocked = h.unlocked },
            linked.same,
          ),
          (
            k',
            insert_tail_run x k' run',
            record {
              list = linked'.list;
              count = omega (arith, h.count, length-append xs (x ∷ []));
              unlocked = h.unlocked;
            },
            linked'.same,
          ),
        )

    remove_head_run :
        (x : Ptr) (k : Links)
        → l.links.head ≡ x
        → x ≢ null
        → list_remove_head x l.links ≡ ok tt k
        → linked_list_remove_head os l ≡ ok x (record l { links = k; count = decrement l.count })
    unfolding linked_list_remove_head
    remove_head_run x k e ne run = ground (arith, locks, unlocks)

    remove_tail_run :
        (x : Ptr) (k : Links)
        → l.links.tail ≡ x
        → x ≢ null
        → list_remove_tail x l.links ≡ ok tt k
        → linked_list_remove_tail os l ≡ ok x (record l { links = k; count = decrement l.count })
    unfolding linked_list_remove_tail
    remove_tail_run x k e ne run = ground (arith, locks, unlocks)

    -- `linked_list_count` returns the number of nodes, and `linked_list_exist` whether the node is
    -- one of them, if it gets more rounds than there are nodes. Both leave the list as it was.
    pub linked_list_exist_lem :
        (fuel : ℕ) (p : Ptr)
        → length xs < fuel
        → (linked_list_exist os fuel p l ≡ ok (has p xs) l)
          × (linked_list_count os l ≡ ok (length xs) l)
    unfolding linked_list_exist linked_list_count
    linked_list_exist_lem fuel p enough =
        let run = list_node_exists_lem fuel l.links p xs h.list enough in
        (ground (arith, locks, unlocks, run), ground (arith, locks, unlocks, h.count))

  module _ {l : LinkedList D} where
    -- On an empty list both removals return NULL and change nothing.
    pub linked_list_remove_empty :
        Holds os l []
        → (linked_list_remove_head os l ≡ ok null l) × (linked_list_remove_tail os l ≡ ok null l)
    unfolding linked_list_remove_head linked_list_remove_tail
    linked_list_remove_empty h = (
      ground (arith, locks h, unlocks h, h.list.head),
      ground (arith, locks h, unlocks h, h.list.tail),
    )

    -- `linked_list_remove_head` returns the first node, leaves the others, and frees no node.
    pub linked_list_remove_head_lem :
        (x : Ptr) (xs : List Ptr)
        → Holds os l (x ∷ xs)
        → (k : Links) × (linked_list_remove_head os l
            ≡ ok x (record l { links = k; count = decrement l.count }))
          × Holds os (record l { links = k; count = decrement l.count }) xs
          × ((a : Ptr) → k.live a ≡ l.links.live a)
    linked_list_remove_head_lem x xs h =
        let (k, run, un) = list_remove_head_lem l.links x xs h.list in
        (
          k,
          remove_head_run h x k h.list.head h.list.chain.0 run,
          record { list = un.list; count = grind (arith, h.count); unlocked = h.unlocked },
          un.live,
        )

    -- `linked_list_remove_tail` returns the last node and leaves the others.
    pub linked_list_remove_tail_lem :
        (xs : List Ptr) (x : Ptr)
        → Holds os l (xs ++ x ∷ [])
        → (k : Links) × (linked_list_remove_tail os l
            ≡ ok x (record l { links = k; count = decrement l.count }))
          × Holds os (record l { links = k; count = decrement l.count }) xs
    linked_list_remove_tail_lem xs x h =
        let (k, run, un) = list_remove_tail_lem l.links xs x h.list in
        let b = between l.links null x xs [] h.list.chain in
        (
          k,
          remove_tail_run h x k (h.list.tail ∙ last_of-append null x xs []) b.ne_null run,
          record {
            list = un.list;
            count = grind (arith, h.count, length-append xs (x ∷ []));
            unlocked = h.unlocked;
          },
        )
