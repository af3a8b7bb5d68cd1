-- ===== src/LinkedList/Slots/Init.antt =====
-- What the initialisation makes of an array list.
use cc2745_repo.Prelude.{
  ℕ, zero, suc, ◌+◌, ◌*◌, ◌<◌, ◌≤◌, ◌≡◌, ◌∙◌, refl, ap, true, ◌==◌, Bool-cases, inl, inr, [], arith,
  ok, Os,
}
use cc2745_repo.Hal.Mutex
use cc2745_repo.LinkedList.State.{LinkedList, node_at}
use cc2745_repo.LinkedList.Slots.{
  bind_node, init_nodes, clear_data, is_usable, empty_list, linked_list_init_for_array,
}
use cc2745_repo.LinkedList.Slots.Scan.{free_count}
use cc2745_repo.LinkedList.Ends.Deque.{Holds}

module _ {D : Type 0} where
  -- The list `l` with what the loop writes taken from `k`.
  abbrev written : LinkedList D → LinkedList D → LinkedList D
  written k l = record l {
    links = record (l.links) { next = k.links.next; prev = k.links.prev };
    opt = k.opt;
    data_ptr = k.data_ptr;
  }

  init_nodes-frame : (n i : ℕ) (l : LinkedList D) → init_nodes n i l ≡ written (init_nodes n i l) l
  unfolding init_nodes
  init_nodes-frame zero i l = refl
  init_nodes-frame (suc n) i l = init_nodes-frame n (suc i) _

  -- A node that the loop has passed keeps what it has.
  init_nodes-below :
      (n i j : ℕ) (l : LinkedList D)
      → j < i
      → ((init_nodes n i l).opt (node_at l j) ≡ l.opt (node_at l j))
        × ((init_nodes n i l).data_ptr (node_at l j) ≡ l.data_ptr (node_at l j))
  unfolding init_nodes
  init_nodes-below zero i j l h = (refl, refl)
  init_nodes-below (suc n) i j l h =
      let (opt, data_ptr) = init_nodes-below n (suc i) j (bind_node i l) (omega arith) in
      (opt ∙ ground arith, data_ptr ∙ ground arith)

  init_nodes_lem :
      (n i j : ℕ) (l : LinkedList D)
      → i ≤ j
      → j < i + n
      → ((init_nodes n i l).opt (node_at l j) ≡ 0)
        × ((init_nodes n i l).data_ptr (node_at l j) ≡ l.data_array + j * l.width)
  unfolding init_nodes
  init_nodes_lem zero i j l h lt = absurd (omega arith)
  init_nodes_lem (suc n) i j l h lt = elim (Bool-cases (i == j)) [
    | inl p ↦
        (let (opt, data_ptr) = init_nodes-below n (suc i) j (bind_node i l) (ground arith) in
          (opt ∙ ground arith, data_ptr ∙ ground arith))
    | inr p ↦ init_nodes_lem n (suc i) j (bind_node i l) (ground arith) (omega arith)
  ]

  free_count_all :
      (n : ℕ) (l : LinkedList D) → ((j : ℕ) → j < n → l.opt (node_at l j) ≡ 0) → free_count n l ≡ n
  unfolding free_count
  free_count_all zero l free = refl
  free_count_all (suc n) l free =
      let rest = free_count_all n l (λ j h. free j (omega arith)) in
      let last = free n (omega arith) in ground arith

module _ (os : Os) {D : Type 0} where
  -- The list that the loop's result `m` ends in.
  abbrev ready : D → LinkedList D → LinkedList D
  ready blank m = record (clear_data blank m) { last_slot_index = 0; mutex = Mutex.init os }

  ready_run :
      (blank : D) (l : LinkedList D)
      → l.array_based ≡ true
      → is_usable l ≡ true
      → linked_list_init_for_array os blank l
        ≡ ok tt (ready blank (init_nodes l.depth 0 (empty_list l)))
  unfolding linked_list_init_for_array
  ready_run blank l based usable = rw (based, usable) refl

  -- An array list with its two arrays starts empty: all nodes are free, each has its own part of
  -- the data array, the search starts at the first slot, and nobody holds the lock.
  pub linked_list_init_for_array_lem :
      (blank : D) (l : LinkedList D) (j : ℕ)
      → l.array_based ≡ true
      → is_usable l ≡ true
      → j < l.depth
      → (k : LinkedList D) × (linked_list_init_for_array os blank l ≡ ok tt k)
        × Holds os k []
        × (free_count k.depth k ≡ l.depth)
        × (k.last_slot_index ≡ 0)
        × (k.data_ptr (node_at k j) ≡ l.data_array + j * l.width)
  unfolding clear_data
  linked_list_init_for_array_lem blank l j based usable inside =
      let fresh = empty_list l in
      let m = init_nodes l.depth 0 fresh in
      let same = init_nodes-frame l.depth 0 fresh in
      (
        ready blank (written m fresh),
        ready_run blank l based usable ∙ ap (λ k. ok tt (ready blank k)) same,
        record {
          list = record { head = refl; tail = refl; chain = tt };
          count = refl;
          unlocked = refl;
        },
        free_count_all l.depth (ready blank (written m fresh))
            (λ i h. (init_nodes_lem l.depth 0 i fresh (omega arith) (omega (arith, h))).0),
        refl,
        (init_nodes_lem l.depth 0 j fresh (omega arith) (omega (arith, inside))).1,
      )
