-- ===== src/LinkedList/Sort.antt =====
-- The sort of a list. It takes the list's lock, and so do both of the routines that it calls.
use cc2745_repo.Prelude.{
  ℕ, zero, suc, ◌-◌, ◌≡◌, true, none, some, List, [], ◌∷◌, ◌==◌, if◌then◌else◌, blocked, Cmd,
  modify, ◌>>◌, Os, IsSemaphore, arith,
}
use cc2745_repo.Hal.Mutex
use cc2745_repo.Hal.Mutex.{lock-init, lock-held}
use cc2745_repo.Libc.{Libc}
use cc2745_repo.Links.{null, update}
use cc2745_repo.LinkedList.State.{LinkedList, node_at, lock, unlock}
use cc2745_repo.LinkedList.Ends.{NodeView, Compare, views}

module _ {D : Type 0} where
  -- The sorted nodes are put back into the array, from node `i` on.
  unfoldable pub put_views : (i : ℕ) → List NodeView → LinkedList D → LinkedList D
  put_views i [] l = l
  put_views i (v ∷ vs) l =
      let p = node_at l i in
      put_views (suc i) vs (record l {
        links = record (l.links) {
          next = update l.links.next p v.next;
          prev = update l.links.prev p v.prev;
        };
        opt = update l.opt p v.opt;
        data_ptr = update l.data_ptr p v.data_ptr;
      })

  -- The loop that links node `i` with the next, `n` times.
  unfoldable pub rebuild : (n i : ℕ) → LinkedList D → LinkedList D
  rebuild zero i l = l
  rebuild (suc n) i l = rebuild n (suc i) (record l {
    links = record (l.links) {
      next = update l.links.next (node_at l i) (node_at l (suc i));
      prev = update l.links.prev (node_at l (suc i)) (node_at l i);
    };
  })

  unfoldable pub close_ends : ℕ → LinkedList D → LinkedList D
  close_ends count l =
      let first = node_at l 0 in
      let last = node_at l (count - 1) in
      record l {
        links = record (l.links) {
          head = first;
          tail = last;
          prev = update l.links.prev first null;
          next = update l.links.next last null;
        };
      }

  unfoldable pub sort_nodes : Libc NodeView → Compare D → LinkedList D → LinkedList D
  unfolding put_views rebuild close_ends views
  sort_nodes libc compare l =
      close_ends l.count
        (rebuild (l.count - 1) 0 (put_views 0 (libc.qsort (compare l.store) (views l.depth 0 l)) l))

module _ (os : Os) {D : Type 0} where
  unfoldable pub qsort_array_list : Libc NodeView → Compare D → Cmd (LinkedList D) (Unit {0})
  unfolding lock unlock sort_nodes
  qsort_array_list libc compare = do
    lock os
    modify (λ l. if l.count == 0 then l else sort_nodes libc compare l)
    unlock os

  unfoldable pub qsort_heap_list : Cmd (LinkedList D) (Unit {0})
  unfolding lock unlock
  qsort_heap_list = do lock os; unlock os

  unfoldable pub linked_list_sort : Libc NodeView → Compare D → Cmd (LinkedList D) (Unit {0})
  unfolding lock unlock qsort_array_list qsort_heap_list
  linked_list_sort libc compare = do
    lock os
    (λ l. if l.array_based then qsort_array_list libc compare l else qsort_heap_list l)
    modify (λ l. record l { sorted = true })
    unlock os

  -- On a list that nobody has locked, `linked_list_sort` never returns, whatever the list holds: it
  -- waits for the lock that it has taken itself.
  pub linked_list_sort_waits :
      IsSemaphore os
      → (libc : Libc NodeView) (compare : Compare D) (l : LinkedList D) → l.mutex ≡ Mutex.init os
      → linked_list_sort libc compare l ≡ blocked
  unfolding linked_list_sort qsort_array_list qsort_heap_list lock
  linked_list_sort_waits sem libc compare l free =
      let locks : Mutex.lock os l.mutex ≡ some (Mutex.held os) = rw free (lock-init sem) in
      let waits : Mutex.lock os (Mutex.held os) ≡ none = lock-held sem in
      ground (arith, locks, waits)
