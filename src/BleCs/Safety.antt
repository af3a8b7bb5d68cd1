-- ===== src/BleCs/Safety.antt =====
-- The handler stays inside its tables.
use cc2745_repo.Prelude.{
  ℕ, ◌%◌, ◌^◌, ◌<◌, ◌≡◌, ◌∙◌, refl, ap, Bool, true, false, some, List, [], ◌∷◌, ◌++◌, arith,
  if◌then◌else◌, length, length-set, get_elem?, get_elem?_of_lt, set, ok, Run, Cmd, and_then,
  lt→ltb,
}
use cc2745_repo.BleCs.State.{
  Cs, Stack, Call, SubeventResults, ContinueResults, ProcEnable, add_subevent_result,
  add_continue_result, procedure_done, max_num_ble_conns, invalid_procedure_counter,
}
use cc2745_repo.BleCs.{
  start_procedure, send_started, finish_procedure, add_result, handle_sub_event,
  handle_sub_continue_event, add_continue, end_current, on_subevent_result, handle_procedure_enable,
  set_antenna_paths, call, read,
}

-- Every connection has its entry in both tables.
pub record IsSized (s : Cs) : Type 0 where
  pub counts : length s.m_proc_counts ≡ max_num_ble_conns
  pub paths : length s.m_antenna_paths ≡ max_num_ble_conns

-- A run that has ended without fault, and kept the tables' sizes.
abbrev pub Safe : {A : Type 0} → Run Cs A → Type 0
Safe {A} r = (a : A) × (s' : Cs) × (r ≡ ok a s') × IsSized s'

pub Safe-bind :
    {A B : Type 0} {r : Run Cs A} {k : A → Cmd Cs B}
    → Safe r
    → ((a : A) (s' : Cs) → IsSized s' → Safe (k a s'))
    → Safe (and_then r k)
Safe-bind {k = k} (a, s', run, sized) rest =
    let (b, s'', run', sized') = rest a s' sized in
    (b, s'', ap (λ r. and_then r k) run ∙ run', sized')

pub Safe-if : {A : Type 0} (t : Bool) {c d : Run Cs A} → Safe c → Safe d → Safe (if t then c else d)
Safe-if true h k = h
Safe-if false h k = k

read_run : (xs : List ℕ) (i x : ℕ) (s : Cs) → get_elem? xs i ≡ some x → read xs i s ≡ ok x s
read_run xs i x s there = rw (there, read) refl

read-Safe : (xs : List ℕ) (i : ℕ) (s : Cs) → i < length xs → IsSized s → Safe (read xs i s)
read-Safe xs i s lt h =
    let (x, there) = get_elem?_of_lt xs i lt in (x, s, read_run xs i x s there, h)

module _ (stack : Stack) where
  call-Safe : (c : Call) (s : Cs) → IsSized s → Safe (call stack c s)
  call-Safe c s h = (stack.status s.calls c, _, refl, record { counts = h.counts; paths = h.paths })

  finish-Safe :
      (conn done_status status : ℕ) (s : Cs)
      → conn < max_num_ble_conns
      → IsSized s
      → Safe (finish_procedure stack conn done_status status s)
  unfolding finish_procedure
  finish-Safe conn done_status status s lt h =
      Safe-if _
        (Safe-bind (read-Safe s.m_proc_counts conn s (omega (arith, h.counts)) h)
          (λ count s' h'. call-Safe (procedure_done conn (count % 2 ^ 16)) s' h'))
        (status, s, refl, h)

  add_result-Safe :
      (ev : SubeventResults) (status : ℕ) (s : Cs)
      → ev.conn_handle < max_num_ble_conns
      → IsSized s
      → Safe (add_result stack ev status s)
  unfolding add_result
  add_result-Safe ev status s lt h =
      Safe-if _
        (Safe-bind (call-Safe (add_subevent_result ev) s h)
          (λ status' s' h'. finish-Safe ev.conn_handle ev.procedure_done_status status' s' lt h'))
        (status, s, refl, h)

  send-Safe :
      (ev : SubeventResults) (mask : ℕ) (s : Cs) → IsSized s → Safe (send_started stack ev mask s)
  unfolding send_started
  send-Safe ev mask s h = Safe-if _ (stack.failure, s, refl, h) (call-Safe _ s h)

  start-Safe :
      (ev : SubeventResults) (s : Cs)
      → ev.conn_handle < max_num_ble_conns
      → IsSized s
      → Safe (start_procedure stack ev s)
  unfolding start_procedure
  start-Safe ev s lt h =
      let (count, there) =
        get_elem?_of_lt s.m_proc_counts ev.conn_handle (omega (arith, h.counts)) in
      let marked : Cs = record s {
        m_proc_counts = set s.m_proc_counts ev.conn_handle ev.procedure_counter;
      } in
      let marked-IsSized : IsSized marked = record {
        counts = length-set s.m_proc_counts ev.conn_handle ev.procedure_counter ∙ h.counts;
        paths = h.paths;
      } in
      rw (there, start_procedure)
        (Safe-if _ (stack.success, s, refl, h)
          (Safe-bind
            (read-Safe s.m_antenna_paths ev.conn_handle marked (omega (arith, h.paths))
              marked-IsSized)
            (λ mask s' h'. send-Safe ev mask s' h')))

  sub_event-Safe :
      (ev : SubeventResults) (s : Cs)
      → ev.conn_handle < max_num_ble_conns
      → IsSized s
      → Safe (handle_sub_event stack (some ev) s)
  unfolding handle_sub_event
  sub_event-Safe ev s lt h =
      Safe-if _
        (Safe-if _ (add_result-Safe ev stack.failure s lt h)
          (Safe-bind (start-Safe ev s lt h) (λ status s' h'. add_result-Safe ev status s' lt h')))
        (stack.invalid_parameter, s, refl, h)

  continue-Safe :
      (ev : ContinueResults) (status : ℕ) (s : Cs)
      → ev.conn_handle < max_num_ble_conns
      → IsSized s
      → Safe (add_continue stack ev status s)
  unfolding add_continue
  continue-Safe ev status s lt h =
      Safe-if _
        (Safe-bind (call-Safe (add_continue_result ev) s h)
          (λ status' s' h'. finish-Safe ev.conn_handle ev.procedure_done_status status' s' lt h'))
        (finish-Safe ev.conn_handle ev.procedure_done_status status s lt h)

  pub sub_continue-Safe :
      (ev : ContinueResults) (s : Cs)
      → ev.conn_handle < max_num_ble_conns
      → IsSized s
      → Safe (handle_sub_continue_event stack (some ev) s)
  unfolding handle_sub_continue_event
  sub_continue-Safe ev s lt h =
      Safe-if _
        (Safe-if _ (continue-Safe ev stack.failure s lt h) (continue-Safe ev stack.success s lt h))
        (stack.invalid_parameter, s, refl, h)

  pub end_current-Safe : (done : ℕ) (s : Cs) → IsSized s → Safe (end_current stack done s)
  unfolding end_current
  end_current-Safe done s h =
      Safe-if _
        (
          tt,
          record s { m_curr_proc_count = invalid_procedure_counter },
          refl,
          record { counts = h.counts; paths = h.paths },
        )
        (tt, s, refl, h)

  pub on_subevent-Safe :
      (ev : SubeventResults) (s : Cs)
      → ev.conn_handle < max_num_ble_conns
      → IsSized s
      → Safe (on_subevent_result stack ev s)
  unfolding on_subevent_result
  on_subevent-Safe ev s lt h =
      let started : Cs = record s { m_curr_proc_count = ev.procedure_counter } in
      Safe-bind (sub_event-Safe ev started lt (record { counts = h.counts; paths = h.paths }))
        (λ _ s' h'. end_current-Safe ev.procedure_done_status s' h')

  pub logged-IsSized :
      (c : Call) (s : Cs) → IsSized s → IsSized (record s { calls = s.calls ++ c ∷ [] })
  logged-IsSized c s h = record { counts = h.counts; paths = h.paths }

  set_paths-Safe :
      (conn mask : ℕ) (s : Cs)
      → conn < max_num_ble_conns
      → IsSized s
      → Safe (set_antenna_paths stack conn mask s)
  unfolding set_antenna_paths
  set_paths-Safe conn mask s lt h =
      rw (lt→ltb conn (length s.m_antenna_paths) (omega (arith, h.paths))) (
        tt,
        record s { m_antenna_paths = set s.m_antenna_paths conn mask },
        refl,
        record { counts = h.counts; paths = length-set s.m_antenna_paths conn mask ∙ h.paths },
      )

  pub enable-Safe :
      (ev : ProcEnable) (s : Cs)
      → ev.conn_handle < max_num_ble_conns
      → IsSized s
      → Safe (handle_procedure_enable stack ev s)
  unfolding handle_procedure_enable
  enable-Safe ev s lt h =
      Safe-if _
        (Safe-bind (set_paths-Safe ev.conn_handle _ s lt h)
          (λ _ s' h'. (stack.success, s', refl, h')))
        (stack.success, s, refl, h)
