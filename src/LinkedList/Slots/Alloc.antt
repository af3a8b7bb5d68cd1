-- ===== src/LinkedList/Slots/Alloc.antt =====
-- The nodes that a list hands out and takes back, counted by the free nodes of its array.
use native.Mathlib.Nat.{mod-lt}
use cc2745_repo.Prelude.{
  ℕ, zero, suc, ◌+◌, ◌^◌, ◌<◌, ◌≤◌, ◌≡◌, ◌≢◌, ◌⊎◌, inl, inr, refl, Bool, true, ◌==◌, ==_iff,
  Bool-cases, Option, some, arith, ok, Os, IsSemaphore,
}
use cc2745_repo.Hal.Mutex
use cc2745_repo.Hal.Mutex.{lock-init, unlock-held}
use cc2745_repo.Links.{Ptr, null, update, is_node}
use cc2745_repo.LinkedList.State.{LinkedList, node_at}
use cc2745_repo.LinkedList.Slots.{alloc_array_node, linked_list_alloc_node, linked_list_free_node}
use cc2745_repo.LinkedList.Slots.Scan.{
  slot, steps_to, taken, free_count, free_count-used, free_count-taken, scan_first, scan_none,
}

positive : {i n : ℕ} → i < n → 0 < n
positive h = omega (arith, h)

module _ {D : Type 0} where
  -- Among the next `n` slots there is a first free one, or none.
  first_free :
      (n : ℕ) (l : LinkedList D)
      → ((j : ℕ) → j < n → l.opt (node_at l (slot l j)) ≢ 0)
        ⊎ ((step : ℕ) × (step < n)
            × ((j : ℕ) → j < step → l.opt (node_at l (slot l j)) ≢ 0)
            × (l.opt (node_at l (slot l step)) ≡ 0))
  first_free zero l = inl (λ j h. absurd (omega (arith, h)))
  first_free (suc n) l = elim (first_free n l) [
    | inr (step, lt, used, free) ↦ inr (step, omega (arith, lt), used, free)
    | inl used ↦ elim (Bool-cases (l.opt (node_at l (slot l n)) == 0)) [
      | inl free ↦ inr (n, omega arith, used, ground arith)
      | inr busy ↦ inl (λ j h. elim (Bool-cases (j == n)) [
        | inl same ↦ (let e : j ≡ n = (==_iff j n).0 same in rw e (ground arith))
        | inr before ↦ used j (ground arith)
      ])
    ]
  ]

  free_slot-used :
      (l : LinkedList D)
      → l.last_slot_index < l.depth
      → ((j : ℕ) → j < l.depth → l.opt (node_at l (slot l j)) ≢ 0)
      → free_count l.depth l ≡ 0
  free_slot-used l below used = free_count-used l.depth l (λ j h.
      let (i, lt, e) = steps_to l.last_slot_index l.depth j below h in
      let busy = used i lt in rw e at busy)

  -- `free` is the list after the node at `index` is given back.
  abbrev free : LinkedList D → ℕ → LinkedList D
  free l index = record l {
    links = record (l.links) {
      next = update l.links.next (node_at l index) null;
      prev = update l.links.prev (node_at l index) null;
    };
    opt = update l.opt (node_at l index) 0;
  }

  free_count-above :
      (n index : ℕ) (l : LinkedList D) → n ≤ index → free_count n (free l index) ≡ free_count n l
  unfolding free_count
  free_count-above zero index l h = refl
  free_count-above (suc n) index l h =
      let rest = free_count-above n index l (omega arith) in ground arith

  free_count-free :
      (n index : ℕ) (l : LinkedList D)
      → index < n
      → l.opt (node_at l index) ≢ 0
      → free_count n (free l index) ≡ free_count n l + 1
  unfolding free_count
  free_count-free zero index l h e = absurd (omega arith)
  free_count-free (suc n) index l h e = elim (Bool-cases (index == n)) [
    | inl p ↦ (let rest = free_count-above n index l (ground arith) in ground arith)
    | inr p ↦ (let rest = free_count-free n index l (ground arith) e in ground arith)
  ]

  -- A node of the array that is given back is free again: one node more is, its links are NULL, and
  -- nothing else of the list changes.
  pub linked_list_free_node_lem :
      (l : LinkedList D) (index : ℕ)
      → l.array_based ≡ true
      → index < l.depth
      → is_node l.links (node_at l index) ≡ true
      → l.opt (node_at l index) ≢ 0
      → (linked_list_free_node (node_at l index) l ≡ ok tt (free l index))
        × (free_count l.depth (free l index) ≡ free_count l.depth l + 1)
  unfolding linked_list_free_node
  linked_list_free_node_lem l index based below node used =
      (rw based (ground (arith, node)), free_count-free l.depth index l below used)

module _ {os : Os} (sem : IsSemaphore os) {D : Type 0} where
  module _ (malloc : (Ptr → Bool) → ℕ → Option Ptr) (len : ℕ) (l : LinkedList D)
      (unlocked : l.mutex ≡ Mutex.init os) (based : l.array_based ≡ true)
      (below : l.last_slot_index < l.depth) (small : l.depth ≤ 2 ^ 31) where
    locks : Mutex.lock os l.mutex ≡ some (Mutex.held os)
    locks = rw unlocked (lock-init sem)

    unlocks : Mutex.unlock os (Mutex.held os) ≡ l.mutex
    unlocks = rw unlocked (unlock-held sem)

    alloc_run :
        (p : Ptr) (k : LinkedList D)
        → alloc_array_node (record l { mutex = Mutex.held os })
          ≡ ok p (record k { mutex = Mutex.held os })
        → k.mutex ≡ l.mutex
        → linked_list_alloc_node os malloc len l ≡ ok p k
    unfolding linked_list_alloc_node
    alloc_run p k run same = ground (arith, locks, unlocks)

    -- On an array list the node that is handed out is that of the first free slot, counted from the
    -- slot that was handed out last and around the array. It is marked as used.
    pub linked_list_alloc_node_first :
        (step : ℕ)
        → step < l.depth
        → ((j : ℕ) → j < step → l.opt (node_at l (slot l j)) ≢ 0)
        → l.opt (node_at l (slot l step)) ≡ 0
        → linked_list_alloc_node os malloc len l
          ≡ ok (node_at l (slot l step)) (taken l (slot l step))
    unfolding alloc_array_node
    linked_list_alloc_node_first step lt used free =
        alloc_run (node_at l (slot l step)) (taken l (slot l step))
          (scan_first (record l { mutex = Mutex.held os }) below small l.depth 0 step (omega arith)
            (omega arith) lt used free)
          refl

    full_run :
        ((j : ℕ) → j < l.depth → l.opt (node_at l (slot l j)) ≢ 0)
        → linked_list_alloc_node os malloc len l ≡ ok null l
    unfolding alloc_array_node
    full_run used =
        alloc_run null l
          (scan_none (record l { mutex = Mutex.held os }) below small l.depth 0 (omega arith) used)
          refl

    -- On an array list `linked_list_alloc_node` returns NULL and changes nothing if no node of the
    -- array is free. Else it returns a node of the array that was free, which leaves one free node
    -- less.
    pub linked_list_alloc_node_lem :
        ((free_count l.depth l ≡ 0) × (linked_list_alloc_node os malloc len l ≡ ok null l))
        ⊎ ((index : ℕ) × (index < l.depth)
            × (l.opt (node_at l index) ≡ 0)
            × (linked_list_alloc_node os malloc len l ≡ ok (node_at l index) (taken l index))
            × (free_count l.depth (taken l index) + 1 ≡ free_count l.depth l))
    linked_list_alloc_node_lem = elim (first_free l.depth l) [
      | inl used ↦ inl (free_slot-used l below used, full_run used)
      | inr (step, lt, used, free) ↦
          (let inside = mod-lt (l.last_slot_index + step) (positive below) in
            inr (
              slot l step,
              inside,
              free,
              linked_list_alloc_node_first step lt used free,
              free_count-taken l.depth (slot l step) l inside free,
            ))
    ]
