-- ===== src/BleAdv/Sets.antt =====
-- The sets and their handles.
use native.Mathlib.Nat.{mod-eq_of_lt}
use cc2745_repo.Prelude.{
  ℕ, zero, suc, ◌+◌, ◌%◌, ◌^◌, ◌<◌, ◌≤◌, ◌≡◌, ◌≢◌, ◌⊎◌, ◌∙◌, ap, Bool-cases, inl, inr, some, List,
  [], ◌∷◌, get_elem?, lt_of_get_elem?, length, arith, ◌==◌, ok,
}
use cc2745_repo.Links.{Ptr}
use cc2745_repo.BleAdv.{
  prepare_load_by_handle, load_by_handle, Stack, Adv, adv_started, adv_stopped, start_after_enable,
  end_after_disable, find_set, get_adv_set_id, adv_event_handler, ble_adv_update,
}

find_set_first :
    (handle i k : ℕ) (hs : List ℕ)
    → i + length hs ≤ 255
    → get_elem? hs k ≡ some handle
    → ((j : ℕ) → j < k → get_elem? hs j ≢ some handle)
    → find_set handle i hs ≡ i + k
unfolding find_set
find_set_first handle i k [] few at before = absurd (cc)
find_set_first handle i zero (h ∷ hs) few at before = ground arith
find_set_first handle i (suc k) (h ∷ hs) few at before =
    let next : (i + 1) % 2 ^ 8 ≡ suc i = mod-eq_of_lt (omega arith) ∙ omega arith in
    let rest =
      find_set_first handle (suc i) k hs (omega (arith, few)) at
        (λ j lt. before (suc j) (omega (arith, lt))) in
    let ne : h ≢ handle = λ e. before zero (omega arith) (ap some e) in
    rw next (ground (arith, rest, ne))

-- With at most 255 sets, the handler of an event reports the first set that has the event's handle,
-- as started or as stopped.
pub adv_event_handler_lem :
    (s : Adv) (handle k : ℕ)
    → length s.m_adv_handles ≤ 255
    → get_elem? s.m_adv_handles k ≡ some handle
    → ((j : ℕ) → j < k → get_elem? s.m_adv_handles j ≢ some handle)
    → (get_adv_set_id handle s ≡ k)
      × (adv_event_handler start_after_enable handle s ≡ some (adv_started k))
      × (adv_event_handler end_after_disable handle s ≡ some (adv_stopped k))
unfolding get_adv_set_id adv_event_handler
adv_event_handler_lem s handle k few at before =
    let id = find_set_first handle 0 k s.m_adv_handles (omega (arith, few)) at before in
    let inside = lt_of_get_elem? s.m_adv_handles k at in
    let same : find_set handle 0 s.m_adv_handles ≡ k = omega (arith, id) in
    (same, ground (arith, same, inside, few), ground (arith, same, inside, few))

-- `ble_adv_update` of a set asks the stack to prepare it. If the stack agrees, the data of the
-- configuration is loaded, whatever data the caller gives; else nothing is.
pub ble_adv_update_ignores :
    (stack : Stack) (s : Adv) (set_id handle : ℕ) (p_data : Ptr) (len : ℕ)
    → get_elem? s.m_adv_handles set_id ≡ some handle
    → ((stack.status s.calls (prepare_load_by_handle handle) ≡ 0)
        × (ble_adv_update stack set_id p_data len s
            ≡ ok tt (record s {
              calls =
                  load_by_handle handle stack.adv_data1_len stack.adv_data1
                  ∷ prepare_load_by_handle handle
                  ∷ s.calls;
            })))
      ⊎ ((stack.status s.calls (prepare_load_by_handle handle) ≢ 0)
          × (ble_adv_update stack set_id p_data len s
              ≡ ok tt (record s { calls = prepare_load_by_handle handle ∷ s.calls })))
unfolding ble_adv_update
ble_adv_update_ignores stack s set_id handle p_data len at =
    elim (Bool-cases (stack.status s.calls (prepare_load_by_handle handle) == 0)) [
      | inl success ↦ inl (ground arith, ground (arith, at))
      | inr failure ↦ inr (ground arith, ground (arith, at))
    ]
