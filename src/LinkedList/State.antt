-- ===== src/LinkedList/State.antt =====
-- `linked_list_t`, and the memory that its nodes are in.
use cc2745_repo.Prelude.{
  ℕ, ◌+◌, ◌-◌, ◌*◌, ◌/◌, ◌%◌, ◌^◌, Bool, none, some, Run, ok, fault, blocked, out_of_fuel, Cmd, Os,
}
use cc2745_repo.Hal.Mutex
use cc2745_repo.Links.{Ptr, Links}

-- `sizeof(list_node_t)`: four words of a 32-bit target.
abbrev pub node_len : ℕ
node_len = 16

abbrev pub align_size : ℕ
align_size = 8

-- ALIGN_UP on a `size_t` of 32 bits.
unfoldable pub align_up : ℕ → ℕ
align_up x = (x + (align_size - 1)) % 2 ^ 32 / align_size * align_size

-- The size of a node and its data, as `alloc_heap_node` asks for it.
unfoldable pub heap_size : (data_len : ℕ) → ℕ
unfolding align_up
heap_size data_len = (align_up node_len + align_up data_len) % 2 ^ 32

-- `links` holds the links of all nodes and the list's two ends, `opt` the union of `used` and
-- `value`, `store` what is behind the data pointers.
pub record LinkedList (D : Type 0) : Type 0 where
  pub links : Links
  pub opt : Ptr → ℕ
  pub data_ptr : Ptr → Ptr
  pub store : Ptr → D
  pub array_based : Bool
  pub count : ℕ
  pub width : ℕ
  pub depth : ℕ
  pub node_array : Ptr
  pub data_array : Ptr
  pub mutex : ℕ
  pub sorted : Bool
  pub last_slot_index : ℕ

module _ {D : Type 0} where
  -- `&p_list->node_array[i]`
  abbrev pub node_at : LinkedList D → ℕ → Ptr
  node_at l i = l.node_array + i * node_len

  -- A list macro works on the list's two ends and the links of the nodes.
  unfoldable pub on_links : {A : Type 0} → Run Links A → Cmd (LinkedList D) A
  on_links (ok a m) l = ok a (record l { links = m })
  on_links fault l = fault
  on_links blocked l = blocked
  on_links out_of_fuel l = out_of_fuel

  abbrev pub lift : {A : Type 0} → Cmd Links A → Cmd (LinkedList D) A
  lift c l = on_links (c l.links) l

module _ (os : Os) {D : Type 0} where
  unfoldable pub lock : Cmd (LinkedList D) (Unit {0})
  lock l = elim (Mutex.lock os l.mutex) [ none ↦ blocked | some m ↦ ok tt (record l { mutex = m }) ]

  unfoldable pub unlock : Cmd (LinkedList D) (Unit {0})
  unlock l = ok tt (record l { mutex = Mutex.unlock os l.mutex })
