-- ===== src/LinkedList/Slots.antt =====
-- The initialisation of a list, and the nodes that it hands out.
pub mod Init
pub mod Scan
pub mod Alloc
use Prim.Native.Nat.{bit_and}
use cc2745_repo.Prelude.{
  ℕ, zero, suc, ◌+◌, ◌-◌, ◌*◌, ◌%◌, ◌^◌, Bool, true, false, not, ◌&&◌, ◌||◌, Option, none, some,
  ltb, leb, ◌==◌, if◌then◌else◌, ok, fault, Cmd, pure, ◌>>=◌, ◌>>◌, Os,
}
use cc2745_repo.Hal.Mutex
use cc2745_repo.Links.{Ptr, null, Links, update, is_node}
use cc2745_repo.LinkedList.State.{LinkedList, node_at, node_len, align_up, heap_size, lock, unlock}

unfoldable pub power2_check : ℕ → Bool
power2_check x = bit_and x (x - 1) == 0

unfoldable pub power2_get_mod : ℕ → ℕ → ℕ
power2_get_mod x y = bit_and x (y - 1)

-- The index of the `i`-th slot that the search looks at.
unfoldable pub slot_index : (last depth i : ℕ) → ℕ
unfolding power2_check power2_get_mod
slot_index last depth i =
    if power2_check depth
    then power2_get_mod ((last + i) % 2 ^ 32) depth
    else (last + i) % 2 ^ 32 % depth

module _ {D : Type 0} where
  -- The body of the loop of `linked_list_init_for_array`, for node `i`.
  abbrev pub bind_node : (i : ℕ) → LinkedList D → LinkedList D
  bind_node i l =
      let p = node_at l i in
      record l {
        links = record (l.links) {
          next = update l.links.next p null;
          prev = update l.links.prev p null;
        };
        opt = update l.opt p 0;
        data_ptr = update l.data_ptr p (l.data_array + i * l.width);
      }

  -- The loop over the next `n` nodes, from node `i` on.
  unfoldable pub init_nodes : (n i : ℕ) → LinkedList D → LinkedList D
  init_nodes zero i l = l
  init_nodes (suc n) i l = init_nodes n (suc i) (bind_node i l)

  -- `blank` is a value of zero bytes.
  unfoldable pub clear_data : D → LinkedList D → LinkedList D
  clear_data blank l = record l {
    store = λ p.
        if leb l.data_array p && ltb p (l.data_array + l.depth * l.width) then blank else l.store p;
  }

  unfoldable pub is_usable : LinkedList D → Bool
  is_usable l =
      not (l.depth == 0)
      && not (l.width == 0)
      && not (l.node_array == null)
      && not (l.data_array == null)

  abbrev pub empty_list : LinkedList D → LinkedList D
  empty_list l = record l {
    links = record (l.links) { head = null; tail = null };
    count = 0;
    sorted = false;
  }

  -- The `for` of `alloc_array_node` over the next `n` rounds, from round `i` on.
  unfoldable pub scan_slots : (n i last : ℕ) → Cmd (LinkedList D) Ptr
  unfolding slot_index
  scan_slots zero i last l = ok null l
  scan_slots (suc n) i last l =
      let index = slot_index last l.depth i in
      let rest = scan_slots n (suc i) last l in
      if l.opt (node_at l index) == 0
      then ok (node_at l index)
          (record l { opt = update l.opt (node_at l index) 1; last_slot_index = index })
      else rest

  unfoldable pub alloc_array_node : Cmd (LinkedList D) Ptr
  unfolding scan_slots
  alloc_array_node l = scan_slots l.depth 0 l.last_slot_index l

  -- `malloc` gets what is allocated and a size. `memset` clears `sizeof` of a number, one word: the
  -- node's `next`. The rest of a new node is what was in its memory.
  unfoldable pub alloc_heap_node :
      (malloc : (Ptr → Bool) → ℕ → Option Ptr) → ℕ → Cmd (LinkedList D) Ptr
  unfolding align_up heap_size
  alloc_heap_node malloc data_len l = elim (malloc l.links.live (heap_size data_len)) [
    | none ↦ ok null l
    | some p ↦ ok p (record l {
      links = record (l.links) {
        live = update l.links.live p true;
        next = update l.links.next p null;
      };
      data_ptr = update l.data_ptr p (p + align_up node_len);
    })
  ]

  unfoldable pub linked_list_free_node : Ptr → Cmd (LinkedList D) (Unit {0})
  linked_list_free_node p l =
      if is_node l.links p
      then ok tt (record l {
        links = record (l.links) {
          live = (if l.array_based then l.links.live else update l.links.live p false);
          next = update l.links.next p null;
          prev = update l.links.prev p null;
        };
        opt = update l.opt p 0;
      })
      else fault

module _ (os : Os) {D : Type 0} where
  unfoldable pub linked_list_init_for_array : D → Cmd (LinkedList D) (Unit {0})
  unfolding init_nodes clear_data is_usable
  linked_list_init_for_array blank l =
      let fresh = empty_list l in
      let bound = record (clear_data blank (init_nodes l.depth 0 fresh)) { last_slot_index = 0 } in
      if l.array_based
      then (if is_usable l then ok tt (record bound { mutex = Mutex.init os }) else ok tt fresh)
      else ok tt (record fresh { mutex = Mutex.init os })

  unfoldable pub linked_list_init_for_heap : Cmd (LinkedList D) (Unit {0})
  linked_list_init_for_heap l = ok tt (record (empty_list l) { mutex = Mutex.init os })

  unfoldable pub alloc_node : (malloc : (Ptr → Bool) → ℕ → Option Ptr) → ℕ → Cmd (LinkedList D) Ptr
  unfolding alloc_array_node alloc_heap_node
  alloc_node malloc data_len l =
      if l.array_based then alloc_array_node l else alloc_heap_node malloc data_len l

  unfoldable pub linked_list_alloc_node :
      (malloc : (Ptr → Bool) → ℕ → Option Ptr) → ℕ → Cmd (LinkedList D) Ptr
  unfolding lock unlock alloc_node
  linked_list_alloc_node malloc data_len = do
    lock os
    p ← alloc_node malloc data_len
    unlock os
    pure p
