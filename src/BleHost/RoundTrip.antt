-- ===== src/BleHost/RoundTrip.antt =====
-- A connection that is made and ended again.
use cc2745_repo.Prelude.{
  ℕ, ◌≡◌, ◌≢◌, refl, sym, ap, subst, true, none, some, List, [], ◌∷◌, ◌++◌, ok, Os, IsSemaphore,
}
use cc2745_repo.Libc.{Libc, IsBsearch}
use cc2745_repo.KvList.State.{Node}
use cc2745_repo.KvList.{compare_node_key}
use cc2745_repo.KvList.Valid.{IsValid}
use cc2745_repo.KvList.Search.{IsHit}
use cc2745_repo.BleLink.State.{BleLinks, ble_link_max}
use cc2745_repo.BleLink.{ble_link_get, ble_link_remove}
use cc2745_repo.BleLink.RoundTrip.{Unchanged, ble_link_remove-ble_link_add}
use cc2745_repo.BleHost.{
  Host, HostCall, ConnEvent, link_established, link_terminated, adv_start, on_terminated,
  gap_conn_handler, lift, on_table,
}
use cc2745_repo.BleHost.Events.{established_calls, established_run}

module _ {os : Os} (sem : IsSemaphore os) {libc : Libc Node}
    (finds_lib : IsBsearch compare_node_key libc) (num_active num_conns : List HostCall → ℕ) where
  terminated_run :
      (handle now : ℕ) (s : Host) (k k' : BleLinks)
      → s.links ≡ k
      → ble_link_remove os libc handle k ≡ ok tt k'
      → gap_conn_handler os libc num_active num_conns (link_terminated handle) now s
        ≡ ok tt (record { links = k'; calls = s.calls ++ adv_start ∷ [] })
  unfolding gap_conn_handler on_terminated lift on_table
  terminated_run handle now s k k' same run = rw (same, run) refl

  -- A connection that is made and then ended, on an initialised and well-formed table of four with
  -- a free link and without its handle: both events are handled to their end. After the first,
  -- `ble_link_get` finds the connection; after the second it returns NULL, and every node of the
  -- table has the entry it had before. The stack was asked for the MTU, for advertising to start if
  -- it then had fewer active connections than it can have and else to stop, and at last for
  -- advertising to start.
  pub gap_conn_handler_round_trip :
      (ev : ConnEvent) (now later : ℕ) (s : Host)
      → s.links.is_inited ≡ true
      → IsValid os s.links.m_link_list
      → s.links.m_link_list.depth ≡ ble_link_max
      → s.links.m_link_list.count ≢ ble_link_max
      → IsHit ev.connection_handle s.links.m_link_list.node_array none
      → (s1 s2 : Host) × (gap_conn_handler os libc num_active num_conns (link_established ev) now s
          ≡ ok tt s1)
        × ((e : ℕ) × (ble_link_get os libc ev.connection_handle s1.links ≡ ok (some e) s1.links))
        × (gap_conn_handler os libc num_active num_conns
              (link_terminated ev.connection_handle)
              later
              s1
            ≡ ok tt s2)
        × Unchanged os s.links s2.links
        × (ble_link_get os libc ev.connection_handle s2.links ≡ ok none s2.links)
        × (s2.calls
            ≡ established_calls num_active num_conns ev.connection_handle s.calls ++ adv_start ∷ [])
  gap_conn_handler_round_trip ev now later s inited v depth room unused =
      let (d, k1, k2, added, (e, got), removed, same, gone) =
        ble_link_remove-ble_link_add sem finds_lib ev.connection_handle ev.conn_role
          ev.dev_addr_type ev.dev_addr now s.links inited v depth room unused in
      let (s1, ran, links, sent) =
        established_run sem finds_lib num_active num_conns ev now s (some d) k1 added in
      (
        s1,
        record { links = k2; calls = s1.calls ++ adv_start ∷ [] },
        ran,
        (
          e,
          subst (λ t. ble_link_get os libc ev.connection_handle t ≡ ok (some e) t) (sym links) got,
        ),
        terminated_run ev.connection_handle later s1 k1 k2 links removed,
        same,
        gone,
        ap (λ c. c ++ adv_start ∷ []) sent,
      )
