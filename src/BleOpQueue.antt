-- ===== src/BleOpQueue.antt =====
-- ccs_project/src/module/ble/adv_scan/ble_op_queue.c: operations wait in a queue for the events
-- that end the one before. `op_list` is what the queue of nodes holds, oldest first: the linked
-- list pushes behind and pops in front. What the code writes to the log is left out.
pub mod Process
pub mod Start
mod Tests
use cc2745_repo.Prelude.{
  ℕ, Bool, true, false, ◌&&◌, Option, none, some, List, [], ◌∷◌, ◌++◌, ◌==◌, if◌then◌else◌,
}
use cc2745_repo.BitState.{bit_state_match}

abbrev pub ret_ok : ℕ
ret_ok = 0

-- `runner_callback` gets `param` and returns a `ret_t`; NULL is `none`. A runner that calls back
-- into the queue it is run from is not modelled.
pub record BleOp : Type 0 where
  pub id : ℕ
  pub target_state : ℕ
  pub precondition : ℕ
  pub param : ℕ
  pub runner_callback : Option (ℕ → ℕ)

-- `running_op_ptr` is only compared with NULL: the operation that it points at is kept beside it.
pub record BleOpQueue : Type 0 where
  pub op_list : List BleOp
  pub result_callback : ℕ
  pub current_state : ℕ
  pub running_op_ptr : Option BleOp

-- A call of a runner: the state that the queue was in, and the operation.
abbrev pub Call : Type 0
Call = ℕ × BleOp

-- A result with the new queue, and the calls of runners that were made.
pub record Outcome (A : Type 0) : Type 0 where
  pub result : A
  pub queue : BleOpQueue
  pub calls : List Call

unfoldable pub ble_opq_init : ℕ → ℕ → BleOpQueue
ble_opq_init current_state result_callback = record {
  op_list = [];
  result_callback = result_callback;
  current_state = current_state;
  running_op_ptr = none;
}

abbrev pub is_some {ℓ} : {A : Type ℓ} → Option A → Bool
is_some none = false
is_some (some a) = true

run_op : BleOpQueue → BleOp → Option (ℕ → ℕ) → Outcome Bool
run_op q op none = record {
  result = false;
  queue = record q { current_state = op.target_state };
  calls = [];
}
run_op q op (some runner) =
    if runner op.param == ret_ok
    then record {
      result = true;
      queue = record q { running_op_ptr = some op };
      calls = (q.current_state, op) ∷ [];
    }
    else record { result = false; queue = q; calls = (q.current_state, op) ∷ [] }

-- The result is `wait_event`.
pub perform_command : BleOpQueue → BleOp → Outcome Bool
unfolding run_op
perform_command q op =
    if bit_state_match q.current_state op.target_state
    then record { result = false; queue = q; calls = [] }
    else if bit_state_match q.current_state op.precondition
    then run_op q op op.runner_callback
    else record { result = is_some q.running_op_ptr; queue = q; calls = [] }

-- The `while` of `ble_opq_process`, over what is left of the queue.
process_loop : List BleOp → BleOpQueue → BleOpQueue × List Call
unfolding perform_command
process_loop [] q = (q, [])
process_loop (op ∷ ops) q =
    let out = perform_command (record q { op_list = ops }) op in
    let rest = process_loop ops out.queue in
    if out.result then (out.queue, out.calls) else (rest.0, out.calls ++ rest.1)

unfoldable pub ble_opq_process : BleOpQueue → BleOpQueue × List Call
unfolding process_loop
ble_opq_process q = process_loop q.op_list q

-- `room` is whether the allocation of a node succeeds. `none` is the write through its NULL.
unfoldable pub ble_opq_start : Bool → BleOpQueue → BleOp → Option (BleOpQueue × List Call)
unfolding perform_command
ble_opq_start room q op = elim q.op_list [
  | [] ↦
      if is_some q.running_op_ptr
      then (if room then some (record q { op_list = op ∷ [] }, []) else none)
      else (let out = perform_command q op in some (out.queue, out.calls))
  | first ∷ rest ↦
      if room then some (record q { op_list = (first ∷ rest) ++ op ∷ [] }, []) else none
]

unfoldable pub ble_opq_complete : BleOpQueue → BleOp → BleOpQueue
ble_opq_complete q op = record q { current_state = op.target_state; running_op_ptr = none }

unfoldable pub ble_opq_set_state : BleOpQueue → ℕ → BleOpQueue
ble_opq_set_state q state = record q { current_state = state }

unfoldable pub ble_opq_get_state : BleOpQueue → ℕ
ble_opq_get_state q = q.current_state
