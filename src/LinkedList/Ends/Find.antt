-- ===== src/LinkedList/Ends/Find.antt =====
-- The search of a list that is not sorted, against the first match among its nodes.
use cc2745_repo.Prelude.{
  ℕ, zero, suc, ◌<◌, ◌≡◌, Bool, false, ◌&&◌, List, [], ◌∷◌, arith, length, some, ok, if◌then◌else◌,
  Os, IsSemaphore,
}
use cc2745_repo.Hal.Mutex
use cc2745_repo.Hal.Mutex.{lock-init, unlock-held}
use cc2745_repo.Libc.{Libc}
use cc2745_repo.Links.{Ptr, null}
use cc2745_repo.Links.Chain.{first, Chain}
use cc2745_repo.LinkedList.State.{LinkedList}
use cc2745_repo.LinkedList.Ends.{
  NodeView, Compare, is_equal, view, target_node, search_loop, linked_list_search,
}
use cc2745_repo.LinkedList.Ends.Deque.{Holds}

-- The first node that passes the test, or NULL.
unfoldable pub first_match : (Ptr → Bool) → List Ptr → Ptr
first_match test [] = null
first_match test (x ∷ xs) = if test x then x else first_match test xs

module _ {D : Type 0} where
  -- Whether the comparison finds the node equal to the data.
  abbrev pub matches : Compare D → Ptr → LinkedList D → Ptr → Bool
  matches compare p_data l p = is_equal (compare l.store (view l p) (target_node p_data))

  search_loop_lem :
      (fuel : ℕ) (compare : Compare D) (p_data q iter : Ptr) (l : LinkedList D) (xs : List Ptr)
      → Chain l.links q xs
      → iter ≡ first xs
      → length xs < fuel
      → search_loop fuel compare (target_node p_data) iter l
        ≡ ok (first_match (matches compare p_data l) xs) l
  unfolding search_loop first_match
  search_loop_lem zero compare p_data q iter l xs c e h = absurd (omega arith)
  search_loop_lem (suc fuel) compare p_data q iter l [] c e h = ground arith
  search_loop_lem (suc fuel) compare p_data q iter l (x ∷ xs) c e h =
      let rest =
        search_loop_lem fuel compare p_data x (l.links.next x) l xs c.5 c.3 (omega (arith, h)) in
      rw e (ground (arith, rest, c.0, c.1))

module _ {os : Os} (sem : IsSemaphore os) {D : Type 0} where
  -- A list that is no sorted array is searched from its head on, and the first node that the
  -- comparison finds equal is returned, NULL if there is none. This takes as many rounds as there
  -- are nodes and one more, and leaves the list as it was.
  pub linked_list_search_lem :
      (libc : Libc NodeView) (fuel : ℕ) (p_data : Ptr) (compare : Compare D)
      → {l : LinkedList D} (xs : List Ptr) → Holds os l xs
      → (l.sorted && l.array_based) ≡ false
      → length xs < fuel
      → linked_list_search os libc fuel p_data compare l
        ≡ ok (first_match (matches compare p_data l) xs) l
  unfolding linked_list_search
  linked_list_search_lem libc fuel p_data compare {l} xs h unsorted enough =
      let locks : Mutex.lock os l.mutex ≡ some (Mutex.held os) = rw (h.unlocked) (lock-init sem) in
      let unlocks : Mutex.unlock os (Mutex.held os) ≡ l.mutex = rw (h.unlocked) (unlock-held sem) in
      let run =
        search_loop_lem fuel compare p_data null l.links.head (record l { mutex = Mutex.held os })
          xs h.list.chain h.list.head enough in
      ground (arith, locks, unlocks, run, unsorted)
