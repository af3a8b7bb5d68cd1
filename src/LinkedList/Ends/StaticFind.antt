-- ===== src/LinkedList/Ends/StaticFind.antt =====
-- The macros of ccs_project/src/lib/linked_list/linked_list.h that define a static list and a
-- search for an item with a given member. The search takes no lock.
use cc2745_repo.Prelude.{
  ℕ, zero, suc, ◌<◌, ◌≡◌, Bool, true, false, List, [], ◌∷◌, arith, length, ◌==◌, if◌then◌else◌, ok,
  fault, out_of_fuel, Cmd,
}
use cc2745_repo.Links.{Ptr, null, is_node}
use cc2745_repo.Links.Chain.{first, Chain}
use cc2745_repo.LinkedList.State.{LinkedList}
use cc2745_repo.LinkedList.Ends.Deque.{Holds}
use cc2745_repo.LinkedList.Ends.Find.{first_match}
use cc2745_repo.Prelude.{Os}

module _ {D : Type 0} where
  -- The members that the two initialisers name; all others start at zero.
  unfoldable pub def_static_array_list :
      LinkedList D → (width depth : ℕ) → (node_array data_array : Ptr) → LinkedList D
  def_static_array_list zeroed width depth node_array data_array = record zeroed {
    array_based = true;
    width = width;
    depth = depth;
    node_array = node_array;
    data_array = data_array;
  }

  unfoldable pub def_static_heap_list : LinkedList D → LinkedList D
  def_static_heap_list zeroed = record zeroed { array_based = false }

  -- `item` reads the member of an item that the value is compared with.
  unfoldable pub static_find_loop :
      (fuel : ℕ) → (item : D → ℕ) → (target_value : ℕ) → (p_node : Ptr) → Cmd (LinkedList D) Ptr
  static_find_loop zero item target_value p_node l = out_of_fuel
  static_find_loop (suc fuel) item target_value p_node l =
      let rest = static_find_loop fuel item target_value (l.links.next p_node) l in
      if p_node == null
      then ok null l
      else if is_node l.links p_node
      then (if item (l.store (l.data_ptr p_node)) == target_value then ok p_node l else rest)
      else fault

  unfoldable pub static_list_find :
      (fuel : ℕ) → (item : D → ℕ) → (target_value : ℕ) → Cmd (LinkedList D) Ptr
  unfolding static_find_loop
  static_list_find fuel item target_value l = static_find_loop fuel item target_value l.links.head l

  -- Whether a node's item has the value.
  abbrev pub has_item : (item : D → ℕ) → ℕ → LinkedList D → Ptr → Bool
  has_item item target_value l p = item (l.store (l.data_ptr p)) == target_value

  static_find_loop_lem :
      (fuel : ℕ) (item : D → ℕ) (value : ℕ) (q p_node : Ptr) (l : LinkedList D) (xs : List Ptr)
      → Chain l.links q xs
      → p_node ≡ first xs
      → length xs < fuel
      → static_find_loop fuel item value p_node l ≡ ok (first_match (has_item item value l) xs) l
  unfolding static_find_loop first_match
  static_find_loop_lem zero item value q p_node l xs c e h = absurd (omega arith)
  static_find_loop_lem (suc fuel) item value q p_node l [] c e h = ground arith
  static_find_loop_lem (suc fuel) item value q p_node l (x ∷ xs) c e h =
      let rest =
        static_find_loop_lem fuel item value x (l.links.next x) l xs c.5 c.3 (omega (arith, h)) in
      rw e (ground (arith, rest, c.0, c.1))

-- The search that the macro defines returns the first node of the list whose item has the value,
-- and NULL if there is none. One round for each node and one more are enough.
pub static_list_find_lem :
    {os : Os} {D : Type 0} (fuel : ℕ) (item : D → ℕ) (value : ℕ) {l : LinkedList D} (xs : List Ptr)
    → Holds os l xs
    → length xs < fuel
    → static_list_find fuel item value l ≡ ok (first_match (has_item item value l) xs) l
unfolding static_list_find
static_list_find_lem fuel item value {l} xs h enough =
    static_find_loop_lem fuel item value null l.links.head l xs h.list.chain h.list.head enough
