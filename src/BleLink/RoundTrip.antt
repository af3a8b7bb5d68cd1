-- ===== src/BleLink/RoundTrip.antt =====
-- A connection that is added to the table and removed again.
use cc2745_repo.Prelude.{
  ℕ, ◌≡◌, ◌≢◌, ◌∙◌, refl, inl, inr, true, none, some, Option, List, arith, ok, Os, IsSemaphore,
}
use cc2745_repo.Libc.{Libc, IsBsearch}
use cc2745_repo.KvList.State.{Node, KvList}
use cc2745_repo.KvList.{compare_node_key, kv_list_search, kv_list_remove_node}
use cc2745_repo.KvList.Valid.{IsValid, entry}
use cc2745_repo.KvList.Stored.{Valid-Stored, IsHit-Added}
use cc2745_repo.KvList.Add.{Added, kv_list_add_lem}
use cc2745_repo.KvList.Remove.{kv_list_remove_node_lem}
use cc2745_repo.KvList.Undo.{undone, unused_same}
use cc2745_repo.KvList.Search.{IsHit, kv_list_search_lem}
use cc2745_repo.BleLink.State.{Link, BleLinks, ble_link_max, new_link}
use cc2745_repo.BleLink.{ble_link_add, ble_link_get, ble_link_remove, remove_found, lift, on_list}
use cc2745_repo.BleLink.Table.{init_run, add_run, get_stored, ble_link_get_missing}

-- The table holds the same links, in the same nodes.
pub record Unchanged (os : Os) (s s' : BleLinks) : Type 0 where
  pub valid : IsValid os s'.m_link_list
  pub entries : (j : ℕ) → entry s'.m_link_list j ≡ entry s.m_link_list j
  pub count : s'.m_link_list.count ≡ s.m_link_list.count
  pub depth : s'.m_link_list.depth ≡ s.m_link_list.depth
  pub inited : s'.is_inited ≡ s.is_inited

module _ {os : Os} (sem : IsSemaphore os) {libc : Libc Node}
    (finds_lib : IsBsearch compare_node_key libc) where
  remove_run :
      (handle i : ℕ) (r : Option ℕ) (s : BleLinks) (k : KvList Link)
      → r ≡ some i
      → kv_list_search os libc handle s.m_link_list ≡ ok r s.m_link_list
      → kv_list_remove_node os (some i) s.m_link_list ≡ ok tt k
      → ble_link_remove os libc handle s ≡ ok tt (record s { m_link_list = k })
  unfolding ble_link_remove remove_found lift on_list
  remove_run handle i r s k same found run = rw (found, same) (rw run refl)

  -- The removal of the handle that was added last, to a table where no other link has it.
  remove-Added :
      (handle i : ℕ) (link : Link) (s : BleLinks) (l' : KvList Link)
      → (v : IsValid os s.m_link_list) → IsHit handle s.m_link_list.node_array none
      → Added sem handle link v i l'
      → (s2 : BleLinks) × (ble_link_remove os libc handle (record s { m_link_list = l' })
          ≡ ok tt s2)
        × Unchanged os s s2
        × (ble_link_get os libc handle s2 ≡ ok none s2)
  remove-Added handle i link s l' v unused a =
      let st = Valid-Stored l' i handle link a.valid a.new in
      let (r, found, hit) = kv_list_search_lem sem finds_lib handle a.valid in
      elim (kv_list_remove_node_lem sem a.valid i st.node st.at).1 [
        | inl (free, run) ↦ absurd (let used = st.used in cc)
        | inr (k, used, run, gone) ↦
            let same = undone sem handle link v a gone in
            (
              record s { m_link_list = k },
              remove_run handle i r (record s { m_link_list = l' }) k
                  (IsHit-Added sem handle link v a r unused hit) found run,
              record {
                valid = gone.valid;
                entries = same;
                count = omega (arith, gone.count, a.count);
                depth = gone.depth ∙ a.depth;
                inited = refl;
              },
              ble_link_get_missing sem finds_lib handle (record s { m_link_list = k }) gone.valid
                  (unused_same handle s.m_link_list k v gone.valid same unused),
            )
      ]

  -- On an initialised and well-formed table with a free link, where no link has the handle,
  -- `ble_link_add` returns a link and `ble_link_get` finds one; `ble_link_remove` of the handle
  -- then ends, and the table holds what it held before: `ble_link_get` of the handle returns NULL.
  pub ble_link_remove-ble_link_add :
      (handle central addr_type : ℕ) (addr : List ℕ) (now : ℕ) (s : BleLinks)
      → s.is_inited ≡ true
      → IsValid os s.m_link_list
      → s.m_link_list.depth ≡ ble_link_max
      → s.m_link_list.count ≢ ble_link_max
      → IsHit handle s.m_link_list.node_array none
      → (d : ℕ) × (s1 s2 : BleLinks) × (ble_link_add os libc handle central addr_type addr now s
          ≡ ok (some d) s1)
        × ((e : ℕ) × (ble_link_get os libc handle s1 ≡ ok (some e) s1))
        × (ble_link_remove os libc handle s1 ≡ ok tt s2)
        × Unchanged os s s2
        × (ble_link_get os libc handle s2 ≡ ok none s2)
  unfolding ble_link_add
  ble_link_remove-ble_link_add handle central addr_type addr now s inited v depth room unused =
      let link = new_link handle central addr_type addr now in
      elim (kv_list_add_lem sem handle link v) [
        | inl (full, run) ↦ absurd (room (full ∙ depth))
        | inr (i, l', _, run, a) ↦
            let st = Valid-Stored l' i handle link a.valid a.new in
            let (s2, removed, same, none_left) = remove-Added handle i link s l' v unused a in
            (
              st.slot,
              record s { m_link_list = l' },
              s2,
              rw (init_run sem finds_lib s inited)
                  (add_run sem finds_lib s handle link i st.slot l' st.node room run st.at st.ptr),
              get_stored sem finds_lib (record s { m_link_list = l' }) handle i st.node a.valid
                  st.at st.used st.named,
              removed,
              same,
              none_left,
            )
      ]
