-- ===== src/BleCs.antt =====
-- ccs_project/src/module/ble/cs: the handler of channel sounding events (ble_cs_event_handler.c)
-- and what ble_cs.c sets up. The vendor's stack and its ranging profile are parameters: what a call
-- gives may depend on all calls before it, which `calls` holds.
pub mod State
pub mod Safety
pub mod Handler
pub mod Copy
mod Tests
use cc2745_repo.Prelude.{
  ℕ, ◌+◌, ◌-◌, ◌%◌, ◌^◌, Bool, true, false, not, ◌&&◌, ◌||◌, Option, none, some, List, [], ◌∷◌,
  ◌++◌, ◌==◌, if◌then◌else◌, get_elem?, set, replicate, ltb, length, ok, fault, Cmd, pure, modify,
  ◌>>=◌, ◌>>◌,
}
use cc2745_repo.Links.{update}
use cc2745_repo.BleCs.State.{
  Call, ContinueResults, Cs, CsEvent, ProcEnable, Stack, SubeventResults, add_continue_result,
  add_subevent_result, icall_free, icall_malloc, invalid_procedure_counter, procedure_done,
  procedure_enable_complete, procedure_started, security_enable_complete, set_default_settings,
  subevent_continue_result, subevent_result,
}

abbrev pub read : List ℕ → ℕ → Cmd Cs ℕ
read xs i s = elim (get_elem? xs i) [ none ↦ fault | some x ↦ ok x s ]

abbrev pub log_call : Call → Cmd Cs (Unit {0})
log_call c = modify (λ s. record s { calls = s.calls ++ c ∷ [] })

abbrev pub start_call : SubeventResults → ℕ → Call
start_call ev mask = procedure_started ev.conn_handle (ev.procedure_counter % 2 ^ 16) (record {
  antenna_paths_mask = mask;
  config_id = ev.config_id;
  ranging_counter = ev.procedure_counter;
  selected_tx_power = ev.reference_power_level;
})

module _ (stack : Stack) where
  -- A call that gives a status.
  abbrev pub call : Call → Cmd Cs ℕ
  call c s = ok (stack.status s.calls c) (record s { calls = s.calls ++ c ∷ [] })

  unfoldable pub is_registered : ℕ → Cs → Bool
  is_registered conn_handle s =
      not (stack.registration_status s.calls conn_handle == stack.unregister)

  unfoldable pub set_antenna_paths : ℕ → ℕ → Cmd Cs (Unit {0})
  set_antenna_paths conn_handle mask s =
      if ltb conn_handle (length s.m_antenna_paths)
      then ok tt (record s { m_antenna_paths = set s.m_antenna_paths conn_handle mask })
      else fault

  unfoldable pub handle_procedure_enable : ProcEnable → Cmd Cs ℕ
  unfolding is_registered set_antenna_paths
  handle_procedure_enable ev s =
      let mask = stack.calc_ant_paths_mask ev.aci % 2 ^ 8 in
      if ev.cs_status == stack.success && is_registered ev.conn_handle s && not (mask == 0)
      then (do set_antenna_paths ev.conn_handle mask; pure stack.success) s
      else ok stack.success s

  -- A connection without antenna paths starts none.
  unfoldable pub send_started : SubeventResults → ℕ → Cmd Cs ℕ
  send_started ev mask s = if mask == 0 then ok stack.failure s else call (start_call ev mask) s

  -- A counter that is new for the connection starts a procedure.
  unfoldable pub start_procedure : SubeventResults → Cmd Cs ℕ
  unfolding send_started
  start_procedure ev s = elim (get_elem? s.m_proc_counts ev.conn_handle) [
    | none ↦ fault
    | some count ↦
        if count == ev.procedure_counter
        then ok stack.success s
        else (do
          modify (λ s. record s {
            m_proc_counts = set s.m_proc_counts ev.conn_handle ev.procedure_counter;
          })
          mask ← read s.m_antenna_paths ev.conn_handle
          send_started ev mask)
            s
  ]

  -- The end of a procedure whose results were taken.
  unfoldable pub finish_procedure : ℕ → ℕ → ℕ → Cmd Cs ℕ
  finish_procedure conn_handle done_status status s =
      if (done_status == stack.done) && (status == stack.success)
      then (do
        count ← read s.m_proc_counts conn_handle
        call (procedure_done conn_handle (count % 2 ^ 16)))
          s
      else ok status s

  unfoldable pub add_result : SubeventResults → ℕ → Cmd Cs ℕ
  unfolding finish_procedure
  add_result ev status s =
      if status == stack.success
      then (do
        status' ← call (add_subevent_result ev)
        finish_procedure ev.conn_handle ev.procedure_done_status status')
          s
      else ok status s

  -- `none` is a NULL event.
  unfoldable pub handle_sub_event : Option SubeventResults → Cmd Cs ℕ
  unfolding is_registered start_procedure add_result
  handle_sub_event none s = ok stack.invalid_parameter s
  handle_sub_event (some ev) s =
      if is_registered ev.conn_handle s
      then (if ev.procedure_done_status == stack.aborted
          then add_result ev stack.failure s
          else (do status ← start_procedure ev; add_result ev status) s)
      else ok stack.invalid_parameter s

  unfoldable pub add_continue : ContinueResults → ℕ → Cmd Cs ℕ
  unfolding finish_procedure
  add_continue ev status s =
      if status == stack.success
      then (do
        status' ← call (add_continue_result ev)
        finish_procedure ev.conn_handle ev.procedure_done_status status')
          s
      else finish_procedure ev.conn_handle ev.procedure_done_status status s

  unfoldable pub handle_sub_continue_event : Option ContinueResults → Cmd Cs ℕ
  unfolding is_registered add_continue
  handle_sub_continue_event none s = ok stack.invalid_parameter s
  handle_sub_continue_event (some ev) s =
      if is_registered ev.conn_handle s
      then (if ev.procedure_done_status == stack.aborted
          then add_continue ev stack.failure s
          else add_continue ev stack.success s)
      else ok stack.invalid_parameter s

  -- The status of a message: an ended procedure is current no more.
  unfoldable pub end_current : ℕ → Cmd Cs (Unit {0})
  end_current proc_status s =
      if (proc_status == stack.done) || (proc_status == stack.aborted)
      then ok tt (record s { m_curr_proc_count = invalid_procedure_counter })
      else ok tt s

  unfoldable pub on_subevent_result : SubeventResults → Cmd Cs (Unit {0})
  unfolding handle_sub_event end_current
  on_subevent_result ev = do
    modify (λ s. record s { m_curr_proc_count = ev.procedure_counter })
    status ← handle_sub_event (some ev)
    end_current ev.procedure_done_status

  -- `event_size`, a `uint16_t`.
  unfoldable pub event_size : ContinueResults → ℕ
  event_size ev = (stack.continue_size + ev.data_len) % 2 ^ 16

  unfoldable pub alloc_block : ℕ → Cmd Cs (Option ℕ)
  alloc_block size s = elim (stack.malloc s.calls size) [
    | none ↦ ok none (record s { calls = s.calls ++ icall_malloc size ∷ [] })
    | some p ↦
        ok (some p)
          (record s { calls = s.calls ++ icall_malloc size ∷ []; live = update s.live p true })
  ]

  -- The stores of the copy reach to the end of the event's data: behind a smaller block is a fault.
  unfoldable pub copy_event : (size : ℕ) → ContinueResults → Cmd Cs (Unit {0})
  copy_event size ev s = if ltb size (stack.continue_size + ev.data_len) then fault else ok tt s

  -- To free NULL does nothing; to free what is not allocated is a fault.
  unfoldable pub free_block : Option ℕ → Cmd Cs (Unit {0})
  free_block none s = ok tt (record s { calls = s.calls ++ icall_free none ∷ [] })
  free_block (some p) s =
      if s.live p
      then ok tt
          (record s { calls = s.calls ++ icall_free (some p) ∷ []; live = update s.live p false })
      else fault

  -- What is done with the copy, in a block of its own: it is freed here.
  unfoldable pub use_block : ContinueResults → Option ℕ → Cmd Cs (Unit {0})
  unfolding copy_event handle_sub_continue_event free_block
  use_block ev none = pure tt
  use_block ev (some p) = do
    copy_event (event_size ev) ev
    status ← handle_sub_continue_event (some ev)
    free_block (some p)

  unfoldable pub copy_continue : ContinueResults → Cmd Cs (Unit {0})
  unfolding alloc_block use_block free_block event_size
  copy_continue ev = do
    p_conti_event ← alloc_block (event_size ev)
    use_block ev p_conti_event
    free_block p_conti_event

  unfoldable pub on_continue_result : ContinueResults → Cmd Cs (Unit {0})
  unfolding copy_continue end_current
  on_continue_result ev s =
      if s.m_curr_proc_count == invalid_procedure_counter
      then end_current ev.procedure_done_status s
      else (do copy_continue ev; end_current ev.procedure_done_status) s

  unfoldable pub handle_opcode : CsEvent → Cmd Cs (Unit {0})
  unfolding on_subevent_result on_continue_result handle_procedure_enable
  handle_opcode security_enable_complete = log_call set_default_settings
  handle_opcode (procedure_enable_complete ev) = do status ← handle_procedure_enable ev; pure tt
  handle_opcode (subevent_result ev) = on_subevent_result ev
  handle_opcode (subevent_continue_result ev) = on_continue_result ev
  handle_opcode _ = pure tt

  unfoldable pub cs_event_handler : ℕ → CsEvent → Cmd Cs (Unit {0})
  unfolding handle_opcode
  cs_event_handler event ev s = if event == stack.cs_event_code then handle_opcode ev s else ok tt s
