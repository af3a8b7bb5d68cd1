-- ===== src/BleCs/Handler.antt =====
-- The order of the handler's calls of the stack.
use cc2745_repo.Prelude.{
  ℕ, zero, suc, ◌<◌, ◌≡◌, ◌≢◌, sym, refl, true, false, some, [], ◌∷◌, ◌++◌, arith, ◌==◌, ==_refl,
  get_elem?, set,
}
use cc2745_repo.BleCs.State.{Cs, Stack, SubeventResults, static_cs, ble_cs_init, max_num_ble_conns}
use cc2745_repo.BleCs.{
  start_call, is_registered, start_procedure, send_started, add_result, handle_sub_event,
}

static_counts :
    (i : ℕ) → i < max_num_ble_conns → get_elem? (ble_cs_init static_cs).m_proc_counts i ≡ some 0
unfolding ble_cs_init static_cs
static_counts zero lt = refl
static_counts (suc zero) lt = refl
static_counts (suc (suc zero)) lt = refl
static_counts (suc (suc (suc zero))) lt = refl
static_counts (suc (suc (suc (suc i)))) lt = absurd (omega arith)

module _ (stack : Stack) where
  module _ (ev : SubeventResults) (s : Cs) (count : ℕ)
      (registered : is_registered stack ev.conn_handle s ≡ true)
      (running : (ev.procedure_done_status == stack.aborted) ≡ false)
      (stored : get_elem? s.m_proc_counts ev.conn_handle ≡ some count) where
    -- The results of a subevent whose counter is the stored one start no procedure.
    pub handle_sub_event_same :
        count ≡ ev.procedure_counter
        → handle_sub_event stack (some ev) s ≡ add_result stack ev stack.success s
    unfolding handle_sub_event start_procedure
    handle_sub_event_same same =
        ground (arith, registered, running, stored, same, ==_refl ev.procedure_counter)

    -- A counter that is new for a connection with antenna paths is stored, the start of its
    -- procedure is announced before anything else, and results are added only if that succeeds.
    pub handle_sub_event_new :
        (mask : ℕ)
        → count ≢ ev.procedure_counter
        → get_elem? s.m_antenna_paths ev.conn_handle ≡ some mask
        → mask ≢ 0
        → handle_sub_event stack (some ev) s
          ≡ add_result stack ev (stack.status s.calls (start_call ev mask)) (record s {
            m_proc_counts = set s.m_proc_counts ev.conn_handle ev.procedure_counter;
            calls = s.calls ++ start_call ev mask ∷ [];
          })
    unfolding handle_sub_event start_procedure send_started
    handle_sub_event_new mask new paths some_path =
        let differs : (count == ev.procedure_counter) ≡ false = ground arith in
        let covered : (mask == 0) ≡ false = ground arith in
        ground (arith, registered, running, stored, paths, differs, covered)

  -- In the state that `ble_cs_init` leaves of static storage, a subevent of counter 0 is handled as
  -- one of a procedure that has been started: what `ble_cs_init` sets is not the table that is
  -- read.
  pub ble_cs_init_forgets :
      (ev : SubeventResults)
      → is_registered stack ev.conn_handle (ble_cs_init static_cs) ≡ true
      → (ev.procedure_done_status == stack.aborted) ≡ false
      → ev.conn_handle < max_num_ble_conns
      → ev.procedure_counter ≡ 0
      → handle_sub_event stack (some ev) (ble_cs_init static_cs)
        ≡ add_result stack ev stack.success (ble_cs_init static_cs)
  ble_cs_init_forgets ev registered running lt first =
      handle_sub_event_same ev (ble_cs_init static_cs) 0 registered running
        (static_counts ev.conn_handle lt) (sym first)
