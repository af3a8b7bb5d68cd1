-- ===== src/BleLink/Table.antt =====
-- The connections of a well-formed table.
use cc2745_repo.Prelude.{
  ℕ, ◌<◌, ◌≡◌, ◌≢◌, ◌∙◌, sym, refl, ap, ◌⊎◌, inl, inr, true, false, Option, none, some, List, arith,
  ◌==◌, ==_iff, get_elem?, suc, zero, ok, fault, Os, IsSemaphore,
}
use cc2745_repo.Libc.{Libc, IsBsearch}
use cc2745_repo.KvList.State.{Node, KvList}
use cc2745_repo.KvList.{compare_node_key, kv_list_add, kv_list_search, kv_list_at}
use cc2745_repo.KvList.Valid.{IsValid, slot_of}
use cc2745_repo.KvList.Stored.{Valid-Stored}
use cc2745_repo.KvList.Add.{kv_list_add_lem}
use cc2745_repo.KvList.Search.{IsHit, kv_list_search_lem}
use cc2745_repo.KvList.At.{kv_list_at_lem}
use cc2745_repo.BleLink.State.{Link, BleLinks, ble_link_max, new_link}
use cc2745_repo.BleLink.{
  add_link, node_data, data_or_null, ble_link_init, ble_link_add, ble_link_get, find_loop,
  find_link_by_addr, ble_link_exist_by_addr, lift, on_list,
}

module _ {os : Os} (sem : IsSemaphore os) {libc : Libc Node}
    (finds_lib : IsBsearch compare_node_key libc) where
  node_data_run :
      (s : BleLinks) (i : ℕ) (n : Node) (p : Option ℕ)
      → get_elem? s.m_link_list.node_array i ≡ some n
      → n.data_ptr ≡ p
      → node_data (some i) s ≡ ok p s
  unfolding node_data
  node_data_run s i n p at ptr = rw (at, node_data) (ap (λ q. ok q s) ptr)

  pub add_run :
      (s : BleLinks) (handle : ℕ) (link : Link) (i d : ℕ) (l' : KvList Link) (n : Node)
      → s.m_link_list.count ≢ ble_link_max
      → kv_list_add os handle link s.m_link_list ≡ ok (some i) l'
      → get_elem? l'.node_array i ≡ some n
      → n.data_ptr ≡ some d
      → add_link os libc handle link s ≡ ok (some d) (record s { m_link_list = l' })
  unfolding add_link lift on_list
  add_run s handle link i d l' n room run at ptr =
      let open' : (s.m_link_list.count == ble_link_max) ≡ false = ground arith in
      rw open' (rw run (node_data_run (record s { m_link_list = l' }) i n (some d) at ptr))

  pub init_run : (s : BleLinks) → s.is_inited ≡ true → ble_link_init os libc s ≡ ok tt s
  unfolding ble_link_init
  init_run s inited = ground arith

  full_run :
      (s : BleLinks) (handle : ℕ) (link : Link)
      → s.m_link_list.count ≡ ble_link_max
      → add_link os libc handle link s ≡ ok none s
  unfolding add_link
  full_run s handle link full = rw ((==_iff _ _).1 full) refl

  get_run :
      (s : BleLinks) (handle j d : ℕ) (n : Node)
      → kv_list_search os libc handle s.m_link_list ≡ ok (some j) s.m_link_list
      → get_elem? s.m_link_list.node_array j ≡ some n
      → n.data_ptr ≡ some d
      → ble_link_get os libc handle s ≡ ok (some d) s
  unfolding ble_link_get data_or_null lift on_list
  get_run s handle j d n run at ptr = rw run (node_data_run s j n (some d) at ptr)

  get_hit :
      (s : BleLinks) (handle i : ℕ) (n : Node)
      → IsValid os s.m_link_list
      → get_elem? s.m_link_list.node_array i ≡ some n
      → n.valid ≡ true
      → n.key ≡ handle
      → (r : Option ℕ) → kv_list_search os libc handle s.m_link_list ≡ ok r s.m_link_list
      → IsHit handle s.m_link_list.node_array r
      → (e : ℕ) × (ble_link_get os libc handle s ≡ ok (some e) s)
  get_hit s handle i n v at used named none run none_has = absurd (none_has i n at used named)
  get_hit s handle i n v at used named (some j) run (m, at_j, _, _) =
      let (d, ptr, _) = slot_of j v.table at_j in (d, get_run s handle j d m run at_j ptr)

  pub get_stored :
      (s : BleLinks) (handle i : ℕ) (n : Node)
      → IsValid os s.m_link_list
      → get_elem? s.m_link_list.node_array i ≡ some n
      → n.valid ≡ true
      → n.key ≡ handle
      → (e : ℕ) × (ble_link_get os libc handle s ≡ ok (some e) s)
  get_stored s handle i n v at used named =
      let (r, run, hit) = kv_list_search_lem sem finds_lib handle v in
      get_hit s handle i n v at used named r run hit

  -- On a well-formed table of four, `ble_link_add` on an initialised module returns NULL and
  -- changes nothing when all four links are in use. Otherwise it returns a pointer to a copy of the
  -- new link, the table stays well formed, and `ble_link_get` of the handle then finds a link.
  pub ble_link_add_lem :
      (handle central addr_type : ℕ) (addr : List ℕ) (now : ℕ) (s : BleLinks)
      → s.is_inited ≡ true
      → IsValid os s.m_link_list
      → s.m_link_list.depth ≡ ble_link_max
      → ((s.m_link_list.count ≡ ble_link_max)
          × (ble_link_add os libc handle central addr_type addr now s ≡ ok none s))
        ⊎ ((d : ℕ) × (s' : BleLinks) × (ble_link_add os libc handle central addr_type addr now s
              ≡ ok (some d) s')
            × IsValid os s'.m_link_list
            × (get_elem? s'.m_link_list.data_array d
                ≡ some (new_link handle central addr_type addr now))
            × (e : ℕ) × (ble_link_get os libc handle s' ≡ ok (some e) s'))
  unfolding ble_link_add
  ble_link_add_lem handle central addr_type addr now s inited v depth =
      let link = new_link handle central addr_type addr now in
      elim (kv_list_add_lem sem handle link v) [
        | inl (full, run) ↦
            inl (full ∙ depth, rw (init_run s inited) (full_run s handle link (full ∙ depth)))
        | inr (i, l', room, run, a) ↦
            let st = Valid-Stored l' i handle link a.valid a.new in
            let (e, got) =
              get_stored (record s { m_link_list = l' }) handle i st.node a.valid st.at st.used
                st.named in
            inr (
              st.slot,
              record s { m_link_list = l' },
              rw (init_run s inited) (
                  add_run s handle link i st.slot l' st.node (λ e. room (e ∙ sym depth)) run st.at
                    st.ptr),
              a.valid,
              st.copied,
              e,
              got,
            )
      ]

  loop_fault :
      (fuel count : ℕ) (addr : List ℕ) (s : BleLinks)
      → kv_list_at os fuel 0 s.m_link_list ≡ ok none s.m_link_list
      → 0 < count
      → find_loop os libc fuel count 0 addr s ≡ fault
  unfolding find_loop lift on_list node_data
  loop_fault fuel zero addr s run some_links = absurd (omega arith)
  loop_fault fuel (suc count) addr s run some_links = rw run refl

  find_fault :
      (fuel : ℕ) (addr : List ℕ) (s : BleLinks)
      → kv_list_at os fuel 0 s.m_link_list ≡ ok none s.m_link_list
      → 0 < s.m_link_list.count
      → find_loop os libc fuel s.m_link_list.count 0 addr s ≡ fault
  find_fault fuel addr s run some_links = loop_fault fuel s.m_link_list.count addr s run some_links

  -- Once a connection uses the first node of a well-formed table, every search for an address reads
  -- through NULL, whatever the address and the fuel that is enough for `kv_list_at`.
  pub ble_link_exist_by_addr_faults :
      (fuel : ℕ) (addr : List ℕ) (s : BleLinks) (n : Node)
      → IsValid os s.m_link_list
      → get_elem? s.m_link_list.node_array 0 ≡ some n
      → n.valid ≡ true
      → 0 < s.m_link_list.count
      → s.m_link_list.count < fuel
      → ble_link_exist_by_addr os libc fuel addr s ≡ fault
  unfolding ble_link_exist_by_addr find_link_by_addr
  ble_link_exist_by_addr_faults fuel addr s n v at used some_links enough =
      elim (kv_list_at_lem sem v fuel 0 n at some_links enough) [
        | inl (_, pos, _) ↦ absurd (omega arith)
        | inr (inl (_, _, run)) ↦ rw (find_fault fuel addr s run some_links) refl
        | inr (inr (inl (free, _, _))) ↦ absurd (cc)
        | inr (inr (inr (free, _))) ↦ absurd (cc)
      ]

  get_missing :
      (s : BleLinks) (handle : ℕ) (r : Option ℕ)
      → IsHit handle s.m_link_list.node_array none
      → kv_list_search os libc handle s.m_link_list ≡ ok r s.m_link_list
      → IsHit handle s.m_link_list.node_array r
      → ble_link_get os libc handle s ≡ ok none s
  unfolding ble_link_get data_or_null lift on_list
  get_missing s handle none none_has run hit = rw run refl
  get_missing s handle (some j) none_has run (n, at, used, named) =
      absurd (none_has j n at used named)

  -- `ble_link_get` of a handle that no used node of a well-formed table has returns NULL.
  pub ble_link_get_missing :
      (handle : ℕ) (s : BleLinks)
      → IsValid os s.m_link_list
      → IsHit handle s.m_link_list.node_array none
      → ble_link_get os libc handle s ≡ ok none s
  ble_link_get_missing handle s v none_has =
      let (r, run, hit) = kv_list_search_lem sem finds_lib handle v in
      get_missing s handle r none_has run hit
