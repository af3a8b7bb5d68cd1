-- ===== src/KvList/State.antt =====
-- The types of lib/kv_list/kv_list.h and the table that static storage holds.
use cc2745_repo.Prelude.{ℕ, ◌-◌, ◌^◌, Bool, false, Option, none, List, replicate}

-- `size_t` has 32 bits on the target.
abbrev pub kv_key_invalid : ℕ
kv_key_invalid = 2 ^ 32 - 1

pub record Node : Type 0 where
  pub valid : Bool
  pub key : ℕ
  pub data_ptr : Option ℕ

pub record KvList (V : Type 0) : Type 0 where
  pub count : ℕ
  pub depth : ℕ
  pub node_array : List Node
  pub data_array : List V
  pub mutex : ℕ
  pub sorted : Bool

abbrev pub zero_node : Node
zero_node = record { valid = false; key = 0; data_ptr = none }

-- Static storage starts at zero; `blank` is the zeroed value.
unfoldable pub def_static : {V : Type 0} → V → ℕ → KvList V
def_static blank depth = record {
  count = 0;
  depth = depth;
  node_array = replicate depth zero_node;
  data_array = replicate depth blank;
  mutex = 0;
  sorted = false;
}
