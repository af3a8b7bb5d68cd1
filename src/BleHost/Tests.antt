-- ===== src/BleHost/Tests.antt =====
-- The theorems on a table without links.
use cc2745_repo.Prelude.{
  ℕ, ◌≡◌, ◌≤◌, refl, true, false, none, some, List, [], ◌∷◌, zero, suc, arith, ok, total, replicate,
}
use cc2745_repo.Hal.Mutex
use cc2745_repo.Libc.{IsBsearch}
use cc2745_repo.Libc.Models.{counter, counter-IsSemaphore, simple_libc, simple_libc-IsBsearch}
use cc2745_repo.KvList.State.{Node, KvList}
use cc2745_repo.KvList.{compare_node_key}
use cc2745_repo.KvList.Valid.{owns, IsValid}
use cc2745_repo.KvList.Search.{IsHit}
use cc2745_repo.BleLink.State.{Link, zero_link}
use cc2745_repo.BleLink.{ble_link_get}
use cc2745_repo.BleHost.{
  Host, HostCall, ConnEvent, link_established, link_terminated, gatt_exchange_mtu, adv_start,
  gap_conn_handler,
}
use cc2745_repo.BleLink.RoundTrip.{Unchanged}
use cc2745_repo.BleHost.RoundTrip.{gap_conn_handler_round_trip}

abbrev free_node : ℕ → Node
free_node d = record { valid = false; key = 0; data_ptr = some d }

abbrev table : KvList Link
table = record {
  count = 0;
  depth = 4;
  node_array = free_node 0 ∷ free_node 1 ∷ free_node 2 ∷ free_node 3 ∷ [];
  data_array = replicate 4 zero_link;
  mutex = 1;
  sorted = false;
}

abbrev idle : Host
idle = record { links = record { m_link_list = table; is_inited = true }; calls = [] }

distinct : (d : ℕ) → total (owns d) table.node_array ≤ 1
distinct d = ground arith

table-IsValid : IsValid counter table
unfolding counter Mutex.init
table-IsValid = record {
  table = record { size = refl; bound = refl; distinct = distinct };
  slots = refl;
  counted = refl;
  ordered = λ e. absurd (cc);
  unlocked = refl;
}

not_in_table : IsHit 7 table.node_array none
not_in_table zero n at used = absurd (cc)
not_in_table (suc zero) n at used = absurd (cc)
not_in_table (suc (suc zero)) n at used = absurd (cc)
not_in_table (suc (suc (suc zero))) n at used = absurd (cc)
not_in_table (suc (suc (suc (suc i)))) n at used = absurd (cc)

abbrev connected : ConnEvent
connected = record {
  connection_handle = 7;
  conn_role = 1;
  dev_addr_type = 0;
  dev_addr = 1 ∷ 2 ∷ 3 ∷ 4 ∷ 5 ∷ 6 ∷ [];
}

abbrev one_active : List HostCall → ℕ
one_active calls = 1

abbrev four_conns : List HostCall → ℕ
four_conns calls = 4

library-IsBsearch : IsBsearch compare_node_key simple_libc
library-IsBsearch = simple_libc-IsBsearch compare_node_key

gap_conn_handler_round_trip_example :
    (s1 s2 : Host) × (gap_conn_handler counter simple_libc one_active four_conns
        (link_established connected)
        1000
        idle
      ≡ ok tt s1)
    × ((e : ℕ) × (ble_link_get counter simple_libc 7 s1.links ≡ ok (some e) s1.links))
    × (gap_conn_handler counter simple_libc one_active four_conns (link_terminated 7) 2000 s1
        ≡ ok tt s2)
    × Unchanged counter idle.links s2.links
    × (ble_link_get counter simple_libc 7 s2.links ≡ ok none s2.links)
    × (s2.calls ≡ gatt_exchange_mtu 7 ∷ adv_start ∷ adv_start ∷ [])
gap_conn_handler_round_trip_example =
    gap_conn_handler_round_trip counter-IsSemaphore library-IsBsearch one_active four_conns
      connected 1000 2000 idle refl table-IsValid refl (omega arith) not_in_table
