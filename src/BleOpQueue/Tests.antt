-- ===== src/BleOpQueue/Tests.antt =====
-- The theorems on small queues.
use cc2745_repo.Prelude.{ℕ, ◌≡◌, refl, true, Option, none, some, List, [], ◌∷◌}
use cc2745_repo.BitState.{bit_state_match}
use cc2745_repo.BleOpQueue.{
  BleOp, BleOpQueue, Call, ret_ok, ble_opq_process, ble_opq_start, ble_opq_complete,
}
use cc2745_repo.BleOpQueue.Process.{
  Processed, process_times, ble_opq_process_lem, ble_opq_process_loses,
}
use cc2745_repo.BleOpQueue.Start.{Reach, here, next, starts, completes, waiting_stays}

abbrev succeeds : ℕ → ℕ
succeeds param = ret_ok

-- The start and the stop of advertising: from state 1 to state 2 and back.
abbrev start_op : BleOp
start_op = record {
  id = 1;
  target_state = 2;
  precondition = 1;
  param = 7;
  runner_callback = some succeeds;
}

abbrev stop_op : BleOp
stop_op = record {
  id = 2;
  target_state = 1;
  precondition = 2;
  param = 7;
  runner_callback = some succeeds;
}

-- Another operation that may start in state 1.
abbrev scan_op : BleOp
scan_op = record {
  id = 3;
  target_state = 4;
  precondition = 1;
  param = 7;
  runner_callback = some succeeds;
}

-- An operation for state 2 that leads on to state 4.
abbrev reset_op : BleOp
reset_op = record {
  id = 4;
  target_state = 4;
  precondition = 2;
  param = 7;
  runner_callback = some succeeds;
}

-- Another one for state 2, with the state 8 as its target.
abbrev stop_late_op : BleOp
stop_late_op = record {
  id = 5;
  target_state = 8;
  precondition = 2;
  param = 7;
  runner_callback = some succeeds;
}

abbrev queue : ℕ → List BleOp → Option BleOp → BleOpQueue
queue state ops running = record {
  op_list = ops;
  result_callback = 0;
  current_state = state;
  running_op_ptr = running;
}

-- The advertising is being started, and its stop waits.
abbrev starting : BleOpQueue
starting = queue 1 (stop_op ∷ []) (some start_op)

ble_opq_process_lem_example :
    Processed (stop_op ∷ []) (ble_opq_process starting).0 (ble_opq_process starting).1
ble_opq_process_lem_example = ble_opq_process_lem starting

-- Two operations that are not due while the advertising is being started.
abbrev two_waiting : BleOpQueue
two_waiting = queue 1 (reset_op ∷ stop_late_op ∷ []) (some start_op)

ble_opq_process_loses_example : process_times 2 two_waiting ≡ (queue 1 [] (some start_op), [])
unfolding bit_state_match
ble_opq_process_loses_example =
    ble_opq_process_loses 2 (reset_op ∷ stop_late_op ∷ []) two_waiting start_op refl refl
      (refl, refl, (refl, refl, tt))

-- The start of advertising completes, and a scan is started: its operation waits behind the other.
abbrev stranded : BleOpQueue
stranded = queue 2 (reset_op ∷ scan_op ∷ []) none

stranded_reached : Reach (queue 1 (reset_op ∷ []) (some start_op)) stranded []
unfolding ble_opq_complete ble_opq_start
stranded_reached =
    next (next (here refl) (completes start_op refl refl) refl)
      (starts true scan_op {calls = []} refl) refl

waiting_stays_example :
    (added : List BleOp) × (reset_op ∷ scan_op ∷ [] ≡ reset_op ∷ added)
    × (◌≡◌ {A = List Call} [] [])
waiting_stays_example =
    waiting_stays {q = queue 1 (reset_op ∷ []) (some start_op)} (λ e. cc) stranded_reached
