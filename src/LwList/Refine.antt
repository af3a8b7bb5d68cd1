-- ===== src/LwList/Refine.antt =====
-- The list against a double-ended queue of its elements.
use cc2745_repo.Prelude.{
  decrement, ℕ, ◌+◌, ◌<◌, ◌≡◌, ◌∙◌, ◌≢◌, List, [], ◌∷◌, ◌++◌, arith, length, length-append, some,
  ok, Os, IsSemaphore,
}
use cc2745_repo.Hal.Mutex
use cc2745_repo.Hal.Mutex.{lock-init, unlock-held}
use cc2745_repo.Links.{
  Ptr, null, Links, list_insert_head, list_insert_tail, list_remove_head, list_remove_tail,
}
use cc2745_repo.Links.Chain.{has, IsList, IsFresh}
use cc2745_repo.Links.Insert.{list_insert_head_lem, list_insert_tail_lem}
use cc2745_repo.Links.Remove.{list_remove_head_lem, list_remove_tail_lem}
use cc2745_repo.Links.Split.{between, last_of-append}
use cc2745_repo.Links.RemoveNode.{list_remove_node_only}
use cc2745_repo.Links.Exists.{list_node_exists_lem}
use cc2745_repo.LwList.{
  LwList, lw_list_insert_head, lw_list_insert_tail, lw_list_remove_head, lw_list_remove_tail,
  lw_list_exist, lw_list_remove_node,
}

-- The list holds the elements `xs`, its count is their number, and nobody holds its lock.
pub record Holds (os : Os) (l : LwList) (xs : List Ptr) : Type 0 where
  pub list : IsList l.links xs
  pub count : l.count ≡ length xs
  pub unlocked : l.mutex ≡ Mutex.init os

module _ {os : Os} (sem : IsSemaphore os) where
  module _ {l : LwList} {xs : List Ptr} (h : Holds os l xs) where
    locks : Mutex.lock os l.mutex ≡ some (Mutex.held os)
    locks = rw h.unlocked (lock-init sem)

    insert_head_run :
        (x : Ptr) (k : Links)
        → list_insert_head x l.links ≡ ok tt k
        → lw_list_insert_head os x l
          ≡ ok x
              (record { links = k; mutex = Mutex.unlock os (Mutex.held os); count = l.count + 1 })
    unfolding lw_list_insert_head
    insert_head_run x k e = ground (arith, locks)

    insert_tail_run :
        (x : Ptr) (k : Links)
        → list_insert_tail x l.links ≡ ok tt k
        → lw_list_insert_tail os x l
          ≡ ok x
              (record { links = k; mutex = Mutex.unlock os (Mutex.held os); count = l.count + 1 })
    unfolding lw_list_insert_tail
    insert_tail_run x k e = ground (arith, locks)

    -- Both insertions return the element, and add it at their end of the queue.
    pub lw_list_insert_lem :
        (x : Ptr)
        → IsFresh l.links xs x
        → ((k : LwList) × (lw_list_insert_head os x l ≡ ok x k) × Holds os k (x ∷ xs))
          × ((k : LwList) × (lw_list_insert_tail os x l ≡ ok x k) × Holds os k (xs ++ x ∷ []))
    lw_list_insert_lem x f =
        let (k, run, linked) = list_insert_head_lem l.links xs x h.list f in
        let (k', run', linked') = list_insert_tail_lem l.links xs x h.list f in
        (
          (
            _,
            insert_head_run x k run,
            record {
              list = linked.list;
              count = omega (arith, h.count);
              unlocked = unlock-held sem;
            },
          ),
          (
            _,
            insert_tail_run x k' run',
            record {
              list = linked'.list;
              count = omega (arith, h.count, length-append xs (x ∷ []));
              unlocked = unlock-held sem;
            },
          ),
        )

    remove_head_run :
        (x : Ptr) (k : Links)
        → l.links.head ≡ x
        → x ≢ null
        → list_remove_head x l.links ≡ ok tt k
        → lw_list_remove_head os l
          ≡ ok x (record {
            links = k;
            mutex = Mutex.unlock os (Mutex.held os);
            count = decrement l.count;
          })
    unfolding lw_list_remove_head
    remove_head_run x k e ne run = ground (arith, locks)

    remove_tail_run :
        (x : Ptr) (k : Links)
        → l.links.tail ≡ x
        → x ≢ null
        → list_remove_tail x l.links ≡ ok tt k
        → lw_list_remove_tail os l
          ≡ ok x (record {
            links = k;
            mutex = Mutex.unlock os (Mutex.held os);
            count = decrement l.count;
          })
    unfolding lw_list_remove_tail
    remove_tail_run x k e ne run = ground (arith, locks)

    unlocks : Mutex.unlock os (Mutex.held os) ≡ l.mutex
    unlocks = rw h.unlocked (unlock-held sem)

    empty_head_run : l.links.head ≡ null → lw_list_remove_head os l ≡ ok null l
    unfolding lw_list_remove_head
    empty_head_run e = ground (arith, locks, unlocks)

    empty_tail_run : l.links.tail ≡ null → lw_list_remove_tail os l ≡ ok null l
    unfolding lw_list_remove_tail
    empty_tail_run e = ground (arith, locks, unlocks)

  -- On an empty list both removals return NULL and change nothing.
  pub lw_list_remove_empty :
      {l : LwList}
      → Holds os l []
      → (lw_list_remove_head os l ≡ ok null l) × (lw_list_remove_tail os l ≡ ok null l)
  lw_list_remove_empty h = (empty_head_run h h.list.head, empty_tail_run h h.list.tail)

  -- `lw_list_remove_head` returns the first element and leaves the others.
  pub lw_list_remove_head_lem :
      {l : LwList} (x : Ptr) (xs : List Ptr)
      → Holds os l (x ∷ xs)
      → (k : LwList) × (lw_list_remove_head os l ≡ ok x k) × Holds os k xs
  lw_list_remove_head_lem {l} x xs h =
      let (k, run, un) = list_remove_head_lem l.links x xs h.list in
      (
        _,
        remove_head_run h x k h.list.head h.list.chain.0 run,
        record { list = un.list; count = grind (arith, h.count); unlocked = unlock-held sem },
      )

  -- `lw_list_remove_tail` returns the last element and leaves the others.
  pub lw_list_remove_tail_lem :
      {l : LwList} (xs : List Ptr) (x : Ptr)
      → Holds os l (xs ++ x ∷ [])
      → (k : LwList) × (lw_list_remove_tail os l ≡ ok x k) × Holds os k xs
  lw_list_remove_tail_lem {l} xs x h =
      let (k, run, un) = list_remove_tail_lem l.links xs x h.list in
      let b = between l.links null x xs [] h.list.chain in
      (
        _,
        remove_tail_run h x k (h.list.tail ∙ last_of-append null x xs []) b.ne_null run,
        record {
          list = un.list;
          count = grind (arith, h.count, length-append xs (x ∷ []));
          unlocked = unlock-held sem;
        },
      )

  -- Asked to remove an element that is not in a list of one, `lw_list_remove_node` returns NULL and
  -- leaves the list as it is, but counts it as empty.
  pub lw_list_remove_node_miscounts :
      {l : LwList} (x p : Ptr)
      → Holds os l (x ∷ [])
      → p ≢ null
      → p ≢ x
      → (k : LwList) × (lw_list_remove_node os p l ≡ ok null k)
        × IsList k.links (x ∷ [])
        × (k.count ≡ 0)
  unfolding lw_list_remove_node
  lw_list_remove_node_miscounts {l} x p h np ne =
      let run = (list_remove_node_only l.links x p h.list).1 ne in
      let held = locks h in
      (
        record l { mutex = Mutex.unlock os (Mutex.held os); count = decrement l.count },
        ground arith,
        h.list,
        grind (arith, h.count),
      )

-- An element is found exactly if it is in the list, in as
-- many rounds as the list has elements and one more.
pub lw_list_exist_lem :
    {os : Os} {l : LwList} (fuel : ℕ) (p : Ptr) (xs : List Ptr)
    → Holds os l xs
    → length xs < fuel
    → lw_list_exist fuel p l ≡ ok (has p xs) l
unfolding lw_list_exist
lw_list_exist_lem {l} fuel p xs h enough =
    let run = list_node_exists_lem fuel l.links p xs h.list enough in ground arith
