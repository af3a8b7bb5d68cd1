-- ===== src/BleLink.antt =====
-- ccs_project/src/module/ble/lib/ble_link: the table of connections, a kv_list under their handles.
-- A link pointer is the number of its slot. `now` is what `hal_get_timestamp64` gives.
pub mod State
pub mod Table
pub mod RoundTrip
mod Tests
use cc2745_repo.Prelude.{
  ℕ, zero, suc, ◌+◌, ◌-◌, ◌%◌, ◌^◌, Bool, true, false, not, ◌&&◌, Option, none, some, List, [], ◌∷◌,
  ◌==◌, if◌then◌else◌, get_elem?, take, replicate, Run, ok, fault, blocked, out_of_fuel, Cmd, pure,
  ◌>>=◌, ◌>>◌, Os,
}
use cc2745_repo.Libc.{Libc}
use cc2745_repo.KvList.State.{Node, def_static, KvList}
use cc2745_repo.KvList.{kv_list_init, kv_list_add, kv_list_search, kv_list_remove_node, kv_list_at}
use cc2745_repo.BleLink.State.{BleLinks, Link, ble_link_max, new_link}

on_list : {A : Type 0} → Run (KvList Link) A → Cmd BleLinks A
on_list (ok a k) s = ok a (record s { m_link_list = k })
on_list fault s = fault
on_list blocked s = blocked
on_list out_of_fuel s = out_of_fuel

lift : {A : Type 0} → Cmd (KvList Link) A → Cmd BleLinks A
unfolding on_list
lift c s = on_list (c s.m_link_list) s

-- `memcmp(a, b, 6) == 0`
unfoldable pub same_bytes : List ℕ → List ℕ → Bool
same_bytes [] [] = true
same_bytes (a ∷ as') (b ∷ bs) = (a == b) && same_bytes as' bs
same_bytes _ _ = false

-- The `data_ptr` of a node: `none` is an access through NULL.
unfoldable pub node_data : Option ℕ → Cmd BleLinks (Option ℕ)
node_data none s = fault
node_data (some i) s = elim (get_elem? s.m_link_list.node_array i) [
  | none ↦ fault
  | some n ↦ ok n.data_ptr s
]

-- The link that a pointer gives access to.
unfoldable pub read_link : Option ℕ → Cmd BleLinks Link
read_link none s = fault
read_link (some d) s = elim (get_elem? s.m_link_list.data_array d) [
  | none ↦ fault
  | some link ↦ ok link s
]

unfoldable pub ble_link_count : BleLinks → ℕ
ble_link_count s = s.m_link_list.count % 2 ^ 8

module _ (os : Os) (libc : Libc Node) where
  unfoldable pub ble_link_init : Cmd BleLinks (Unit {0})
  unfolding lift
  ble_link_init s =
      if s.is_inited then ok tt s else lift (kv_list_init os) (record s { is_inited = true })

  unfoldable pub add_link : ℕ → Link → Cmd BleLinks (Option ℕ)
  unfolding lift node_data
  add_link handle link s =
      if s.m_link_list.count == ble_link_max
      then ok none s
      else (do node ← lift (kv_list_add os handle link); node_data node) s

  unfoldable pub ble_link_add :
      (handle is_peer_central addr_type : ℕ) → List ℕ → (now : ℕ) → Cmd BleLinks (Option ℕ)
  unfolding ble_link_init add_link new_link
  ble_link_add handle is_peer_central addr_type p_adv_addr now = do
    ble_link_init
    add_link handle (new_link handle is_peer_central addr_type p_adv_addr now)

  -- `p_node == NULL ? NULL : p_node->data_ptr`
  unfoldable pub data_or_null : Option ℕ → Cmd BleLinks (Option ℕ)
  unfolding node_data
  data_or_null none = pure none
  data_or_null (some i) = node_data (some i)

  unfoldable pub ble_link_get : ℕ → Cmd BleLinks (Option ℕ)
  unfolding lift data_or_null
  ble_link_get handle = do node ← lift (kv_list_search os libc handle); data_or_null node

  unfoldable pub remove_found : Option ℕ → Cmd BleLinks (Unit {0})
  unfolding lift
  remove_found none = pure tt
  remove_found (some i) = lift (kv_list_remove_node os (some i))

  unfoldable pub ble_link_remove : ℕ → Cmd BleLinks (Unit {0})
  unfolding lift remove_found
  ble_link_remove handle = do node ← lift (kv_list_search os libc handle); remove_found node

  -- The `for` loop over the next `n` indices from `i` on. `fuel` is for `kv_list_at`.
  unfoldable pub find_loop : (fuel n i : ℕ) → List ℕ → Cmd BleLinks (Option ℕ)
  unfolding lift node_data read_link same_bytes
  find_loop fuel zero i p_addr_le = pure none
  find_loop fuel (suc n) i p_addr_le = do
    node ← lift (kv_list_at os fuel i)
    p_link ← node_data node
    link ← read_link p_link
    (λ s.
        let rest = find_loop fuel n (suc i) p_addr_le s in
        if same_bytes link.param.peer_adv_addr_le (take 6 p_addr_le) then ok p_link s else rest)

  unfoldable pub find_link_by_addr : ℕ → List ℕ → Cmd BleLinks (Option ℕ)
  unfolding find_loop
  find_link_by_addr fuel p_addr_le s = find_loop fuel s.m_link_list.count 0 p_addr_le s

  unfoldable pub ble_link_exist_by_addr : ℕ → List ℕ → Cmd BleLinks Bool
  unfolding find_link_by_addr
  ble_link_exist_by_addr fuel p_addr_le = do
    p_link ← find_link_by_addr fuel p_addr_le
    pure (elim p_link [ none ↦ false | some d ↦ true ])

  -- A link is alive while it is not being closed; NULL is not.
  unfoldable pub is_alive : Option ℕ → Cmd BleLinks Bool
  unfolding read_link
  is_alive none = pure false
  is_alive (some d) = do link ← read_link (some d); pure (not link.state.disconn_ongoing)

  unfoldable pub ble_link_alive_by_addr : ℕ → List ℕ → Cmd BleLinks Bool
  unfolding find_link_by_addr is_alive
  ble_link_alive_by_addr fuel p_addr_le = do
    p_link ← find_link_by_addr fuel p_addr_le
    is_alive p_link

  unfoldable pub ble_link_alive_by_handle : ℕ → Cmd BleLinks Bool
  unfolding ble_link_get is_alive
  ble_link_alive_by_handle handle = do p_link ← ble_link_get handle; is_alive p_link

  unfoldable pub age : ℕ → Option ℕ → Cmd BleLinks ℕ
  unfolding read_link
  age now none = pure 0
  age now (some d) = do
    link ← read_link (some d)
    pure ((now + 2 ^ 64 - link.param.conn_timestamp) % 2 ^ 64)

  unfoldable pub ble_link_alive_time : ℕ → ℕ → Cmd BleLinks ℕ
  unfolding ble_link_get age
  ble_link_alive_time now handle = do p_link ← ble_link_get handle; age now p_link
