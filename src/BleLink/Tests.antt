-- ===== src/BleLink/Tests.antt =====
-- The theorems on an initialised table without links, and on one with a link in its first node.
use cc2745_repo.Prelude.{
  ℕ, ◌≡◌, ◌≤◌, refl, ◌⊎◌, Bool, true, false, none, some, List, [], ◌∷◌, arith, get_elem?, ok, fault,
  total, replicate,
}
use cc2745_repo.Hal.Mutex
use cc2745_repo.Libc.{IsBsearch}
use cc2745_repo.Libc.Models.{counter, counter-IsSemaphore, simple_libc, simple_libc-IsBsearch}
use cc2745_repo.KvList.State.{Node, KvList}
use cc2745_repo.KvList.{compare_node_key}
use cc2745_repo.KvList.Valid.{owns, IsValid}
use cc2745_repo.BleLink.State.{Link, BleLinks, ble_link_max, zero_link, new_link}
use cc2745_repo.BleLink.{ble_link_add, ble_link_get, ble_link_exist_by_addr}
use cc2745_repo.BleLink.Table.{ble_link_add_lem, ble_link_exist_by_addr_faults}

abbrev node : Bool → ℕ → ℕ → Node
node b k d = record { valid = b; key = k; data_ptr = some d }

-- The handle 5 is in use in the first node, or no handle is.
abbrev table : Bool → ℕ → KvList Link
table first count = record {
  count = count;
  depth = 4;
  node_array = node first 5 0 ∷ node false 0 1 ∷ node false 0 2 ∷ node false 0 3 ∷ [];
  data_array = replicate 4 zero_link;
  mutex = 1;
  sorted = false;
}

abbrev links : Bool → ℕ → BleLinks
links first count = record { m_link_list = table first count; is_inited = true }

distinct : (b : Bool) (d : ℕ) → total (owns d) (table b 0).node_array ≤ 1
distinct b d = ground arith

empty-IsValid : IsValid counter (table false 0)
unfolding counter Mutex.init
empty-IsValid = record {
  table = record { size = refl; bound = refl; distinct = distinct false };
  slots = refl;
  counted = refl;
  ordered = λ e. absurd (cc);
  unlocked = refl;
}

one-IsValid : IsValid counter (table true 1)
unfolding counter Mutex.init
one-IsValid = record {
  table = record { size = refl; bound = refl; distinct = distinct true };
  slots = refl;
  counted = refl;
  ordered = λ e. absurd (cc);
  unlocked = refl;
}

library-IsBsearch : IsBsearch compare_node_key simple_libc
library-IsBsearch = simple_libc-IsBsearch compare_node_key

abbrev address : List ℕ
address = 1 ∷ 2 ∷ 3 ∷ 4 ∷ 5 ∷ 6 ∷ []

ble_link_add_lem_example :
    ((0 ≡ ble_link_max)
      × (ble_link_add counter simple_libc 5 1 0 address 1000 (links false 0)
          ≡ ok none (links false 0)))
    ⊎ ((d : ℕ) × (s' : BleLinks) × (ble_link_add counter simple_libc 5 1 0 address 1000
            (links false 0)
          ≡ ok (some d) s')
        × IsValid counter s'.m_link_list
        × (get_elem? s'.m_link_list.data_array d ≡ some (new_link 5 1 0 address 1000))
        × (e : ℕ) × (ble_link_get counter simple_libc 5 s' ≡ ok (some e) s'))
ble_link_add_lem_example =
    ble_link_add_lem counter-IsSemaphore library-IsBsearch 5 1 0 address 1000 (links false 0) refl
      empty-IsValid refl

ble_link_exist_by_addr_faults_example :
    ble_link_exist_by_addr counter simple_libc 2 address (links true 1) ≡ fault
ble_link_exist_by_addr_faults_example =
    ble_link_exist_by_addr_faults counter-IsSemaphore library-IsBsearch 2 address (links true 1)
      (node true 5 0) one-IsValid refl refl (omega arith) (omega arith)
