-- ===== src/KvList/Order.antt =====
-- `compare_node_key` orders the nodes: used ones first, by key, and all free ones alike.
use cc2745_repo.Prelude.{◌≡◌, ◌≢◌, true, arith}
use cc2745_repo.Libc.{Sign, negative, equal, positive}
use cc2745_repo.KvList.State.{Node}
use cc2745_repo.KvList.{compare_node_key}

abbrev pub opposite : Sign → Sign
opposite negative = positive
opposite equal = equal
opposite positive = negative

-- Swapping the arguments swaps the sign.
pub compare_node_key-opposite :
    (p q : Node) → compare_node_key q p ≡ opposite (compare_node_key p q)
unfolding compare_node_key
compare_node_key-opposite p q = ground arith

-- `compare_node_key` is transitive: what is not above a node that is not above another is not above
-- that one either.
pub compare_node_key_trans :
    (p q r : Node)
    → compare_node_key p q ≢ positive
    → compare_node_key q r ≢ positive
    → compare_node_key p r ≢ positive
unfolding compare_node_key
compare_node_key_trans p q r h k = ground arith

pub compare_node_key_equal :
    (p q : Node)
    → p.valid ≡ true
    → compare_node_key p q ≡ equal
    → (q.valid ≡ true) × (q.key ≡ p.key)
unfolding compare_node_key
compare_node_key_equal p q v h = ground arith

pub compare_node_key_same :
    (p q : Node) → p.valid ≡ true → q.valid ≡ true → q.key ≡ p.key → compare_node_key p q ≡ equal
unfolding compare_node_key
compare_node_key_same p q v u h = ground arith
