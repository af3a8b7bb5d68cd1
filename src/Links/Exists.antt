-- ===== src/Links/Exists.antt =====
-- `LIST_NODE_EXISTS` on a list.
use cc2745_repo.Prelude.{ℕ, zero, suc, ◌<◌, ◌≡◌, List, [], ◌∷◌, arith, length, ok}
use cc2745_repo.Links.{Ptr, null, Links, exists_loop, list_node_exists}
use cc2745_repo.Links.Chain.{has, first, Chain, IsList}

exists_loop_lem :
    (fuel : ℕ) (m : Links) (q p iter : Ptr) (xs : List Ptr)
    → Chain m q xs
    → iter ≡ first xs
    → length xs < fuel
    → exists_loop fuel iter p m ≡ ok (has p xs) m
unfolding exists_loop
exists_loop_lem zero m q p iter xs c e h = absurd (omega arith)
exists_loop_lem (suc fuel) m q p iter [] c e h = ground arith
exists_loop_lem (suc fuel) m q p iter (x ∷ xs) c e h =
    let rest = exists_loop_lem fuel m x p (m.next iter) xs c.5 (next_of c.3) (omega arith) in
    ground (arith, rest, c.0, c.1)
  where
    next_of : m.next x ≡ first xs → m.next iter ≡ first xs
    next_of n = rw e n

-- The walk finds exactly the nodes of the list, in as many rounds as it has nodes and one more, and
-- writes nothing.
pub list_node_exists_lem :
    (fuel : ℕ) (m : Links) (p : Ptr) (xs : List Ptr)
    → IsList m xs
    → length xs < fuel
    → list_node_exists fuel p m ≡ ok (has p xs) m
unfolding list_node_exists
list_node_exists_lem fuel m p xs l h = exists_loop_lem fuel m null p m.head xs l.chain l.head h
