-- ===== src/BleHost/Events.antt =====
-- The events of a connection and the table of links.
use cc2745_repo.Prelude.{
  ℕ, ◌≡◌, refl, inl, inr, Bool-cases, if◌then◌else◌, Option, none, List, [], ◌∷◌, ◌++◌, ltb, ok,
  fault, Os, IsSemaphore,
}
use cc2745_repo.Libc.{Libc, IsBsearch}
use cc2745_repo.KvList.State.{Node}
use cc2745_repo.KvList.{compare_node_key}
use cc2745_repo.KvList.Valid.{IsValid}
use cc2745_repo.KvList.Search.{IsHit}
use cc2745_repo.BleLink.State.{BleLinks}
use cc2745_repo.BleLink.{ble_link_add, read_link}
use cc2745_repo.BleLink.Table.{ble_link_get_missing}
use cc2745_repo.BleHost.{
  Host, HostCall, ConnEvent, link_established, pairing_complete, pairing_encrypted,
  gatt_exchange_mtu, adv_start, adv_stop, advertise, on_established, gap_conn_handler,
  pair_state_handler, enable_security, lift, on_table,
}

-- The MTU is asked for, and then, as the stack answers after that call, for advertising to start,
-- if it has fewer active connections than it can have, and else to stop.
abbrev pub established_calls :
    (num_active num_conns : List HostCall → ℕ) → (handle : ℕ) → List HostCall → List HostCall
established_calls num_active num_conns handle calls =
    let asked = calls ++ gatt_exchange_mtu handle ∷ [] in
    asked ++ (if ltb (num_active asked) (num_conns asked) then adv_start else adv_stop) ∷ []

module _ {os : Os} (sem : IsSemaphore os) {libc : Libc Node}
    (finds_lib : IsBsearch compare_node_key libc) (num_active num_conns : List HostCall → ℕ) where
  pub established_run :
      (ev : ConnEvent) (now : ℕ) (s : Host) (p : Option ℕ) (k : BleLinks)
      → ble_link_add os libc ev.connection_handle ev.conn_role ev.dev_addr_type ev.dev_addr now
          s.links
        ≡ ok p k
      → (s' : Host) × (gap_conn_handler os libc num_active num_conns (link_established ev) now s
          ≡ ok tt s')
        × (s'.links ≡ k)
        × (s'.calls ≡ established_calls num_active num_conns ev.connection_handle s.calls)
  unfolding gap_conn_handler on_established lift on_table advertise
  established_run ev now s p k run =
      elim (Bool-cases (
        ltb (num_active (s.calls ++ gatt_exchange_mtu ev.connection_handle ∷ []))
          (num_conns (s.calls ++ gatt_exchange_mtu ev.connection_handle ∷ [])))) [
            | inl e ↦ (
              record {
                links = k;
                calls = established_calls num_active num_conns ev.connection_handle s.calls;
              },
              rw run (rw e refl),
              refl,
              refl,
            )
            | inr e ↦ (
              record {
                links = k;
                calls = established_calls num_active num_conns ev.connection_handle s.calls;
              },
              rw run (rw e refl),
              refl,
              refl,
            )
          ]

  -- When pairing completes, or encryption starts, for a handle that is not in the table, the
  -- handler reads the role of the peer through NULL.
  pub pair_state_handler_faults :
      (handle : ℕ) (s : Host)
      → IsValid os s.links.m_link_list
      → IsHit handle s.links.m_link_list.node_array none
      → (pair_state_handler os libc num_active num_conns pairing_complete handle s ≡ fault)
        × (pair_state_handler os libc num_active num_conns pairing_encrypted handle s ≡ fault)
  unfolding pair_state_handler enable_security read_link lift on_table
  pair_state_handler_faults handle s v none_has =
      let run = ble_link_get_missing sem finds_lib handle s.links v none_has in
      (rw run refl, rw run refl)
