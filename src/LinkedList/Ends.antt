-- ===== src/LinkedList/Ends.antt =====
-- The operations on the list itself.
pub mod Deque
pub mod Find
pub mod StaticFind
use cc2745_repo.Prelude.{
  decrement, ℕ, zero, suc, ◌+◌, ◌-◌, Bool, true, false, ◌&&◌, Option, none, some, List, [], ◌∷◌,
  map, ◌==◌, if◌then◌else◌, Run, ok, fault, out_of_fuel, Cmd, pure, modify, ◌>>=◌, ◌>>◌, Os,
}
use cc2745_repo.Libc.{Sign, equal, Libc}
use cc2745_repo.Links.{
  Ptr, null, Links, is_node, list_insert_head, list_insert_tail, list_remove_head, list_remove_tail,
  list_remove_node, list_node_exists,
}
use cc2745_repo.LinkedList.State.{LinkedList, node_at, lift, on_links, lock, unlock}

-- A `list_node_t` as a comparison sees it.
pub record NodeView : Type 0 where
  pub next : Ptr
  pub prev : Ptr
  pub opt : ℕ
  pub data_ptr : Ptr

-- `list_cmp_fn`: it reads the two nodes, and what their data pointers point at.
abbrev pub Compare : Type 0 → Type 0
Compare D = (Ptr → D) → NodeView → NodeView → Sign

abbrev pub is_equal : Sign → Bool
is_equal equal = true
is_equal _ = false

abbrev pub target_node : Ptr → NodeView
target_node p_data = record { next = null; prev = null; opt = 1; data_ptr = p_data }

module _ {D : Type 0} where
  unfoldable pub view : LinkedList D → Ptr → NodeView
  view l p = record {
    next = l.links.next p;
    prev = l.links.prev p;
    opt = l.opt p;
    data_ptr = l.data_ptr p;
  }

  -- The nodes of the array from node `i` on.
  unfoldable pub views : (n i : ℕ) → LinkedList D → List NodeView
  unfolding view
  views zero i l = []
  views (suc n) i l = view l (node_at l i) ∷ views n (suc i) l

  -- LINKED_LIST_FOR_EACH, on fuel.
  unfoldable pub search_loop :
      (fuel : ℕ) → Compare D → NodeView → (iter : Ptr) → Cmd (LinkedList D) Ptr
  unfolding view
  search_loop zero compare target iter l = out_of_fuel
  search_loop (suc fuel) compare target iter l =
      let rest = search_loop fuel compare target (l.links.next iter) l in
      if iter == null
      then ok null l
      else if is_node l.links iter
      then (if is_equal (compare l.store (view l iter) target) then ok iter l else rest)
      else fault

  unfoldable pub binary_search : Libc NodeView → Compare D → NodeView → Cmd (LinkedList D) Ptr
  unfolding views
  binary_search libc compare target l =
      elim (libc.bsearch (compare l.store) target (views l.depth 0 l)) [
        | none ↦ ok null l
        | some i ↦ ok (node_at l i) l
      ]

  unfoldable pub linked_list_peek : LinkedList D → Ptr
  linked_list_peek l = l.links.head

  unfoldable pub linked_list_empty : LinkedList D → Bool
  linked_list_empty l = l.count == 0

module _ (os : Os) {D : Type 0} where
  unfoldable pub linked_list_insert_head : Ptr → Cmd (LinkedList D) Ptr
  unfolding lock unlock on_links
  linked_list_insert_head p = do
    lock os
    lift (list_insert_head p)
    modify (λ l. record l { count = l.count + 1; sorted = false })
    unlock os
    pure p

  unfoldable pub linked_list_insert_tail : Ptr → Cmd (LinkedList D) Ptr
  unfolding lock unlock on_links
  linked_list_insert_tail p = do
    lock os
    lift (list_insert_tail p)
    modify (λ l. record l { count = l.count + 1; sorted = false })
    unlock os
    pure p

  unfoldable pub remove_from_head : Cmd (LinkedList D) Ptr
  unfolding on_links
  remove_from_head l =
      if l.links.head == null
      then ok l.links.head l
      else (do
        lift (list_remove_head l.links.head)
        modify (λ k. record k { count = decrement k.count })
        pure l.links.head)
          l

  unfoldable pub linked_list_remove_head : Cmd (LinkedList D) Ptr
  unfolding lock unlock remove_from_head
  linked_list_remove_head = do lock os; p ← remove_from_head; unlock os; pure p

  unfoldable pub remove_from_tail : Cmd (LinkedList D) Ptr
  unfolding on_links
  remove_from_tail l =
      if l.links.tail == null
      then ok l.links.tail l
      else (do
        lift (list_remove_tail l.links.tail)
        modify (λ k. record k { count = decrement k.count })
        pure l.links.tail)
          l

  unfoldable pub linked_list_remove_tail : Cmd (LinkedList D) Ptr
  unfolding lock unlock remove_from_tail
  linked_list_remove_tail = do lock os; p ← remove_from_tail; unlock os; pure p

  unfoldable pub remove_given : Ptr → Cmd (LinkedList D) Ptr
  unfolding on_links
  remove_given p l =
      if p == null
      then ok p l
      else (do
        out ← lift (list_remove_node p)
        modify (λ k. record k { count = decrement k.count })
        pure out)
          l

  unfoldable pub linked_list_remove_node : Ptr → Cmd (LinkedList D) Ptr
  unfolding lock unlock remove_given
  linked_list_remove_node p = do lock os; out ← remove_given p; unlock os; pure out

  unfoldable pub linked_list_exist : ℕ → Ptr → Cmd (LinkedList D) Bool
  unfolding lock unlock on_links
  linked_list_exist fuel p = do
    lock os
    found ← lift (list_node_exists fuel p)
    unlock os
    pure found

  unfoldable pub linked_list_count : Cmd (LinkedList D) ℕ
  unfolding lock unlock
  linked_list_count = do lock os; count ← (λ l. ok l.count l); unlock os; pure count

  unfoldable pub linked_list_search :
      Libc NodeView → (fuel : ℕ) → Ptr → Compare D → Cmd (LinkedList D) Ptr
  unfolding lock unlock search_loop binary_search
  linked_list_search libc fuel p_data compare = do
    lock os
    node ← (λ l.
        if l.sorted && l.array_based
        then binary_search libc compare (target_node p_data) l
        else search_loop fuel compare (target_node p_data) l.links.head l)
    unlock os
    pure node
