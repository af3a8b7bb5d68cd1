-- ===== src/BleOpQueue/Start.antt =====
-- What `ble_opq_start` does, and the queue over any history of operations.
use cc2745_repo.Prelude.{
  ℕ, ◌≡◌, ◌≢◌, ◌∙◌, refl, sym, ap, ◌⊎◌, Bool, true, false, none, some, List, [], ◌∷◌, ◌++◌,
  append-nil, append_assoc, arith,
}
use cc2745_repo.BleOpQueue.{
  BleOp, BleOpQueue, Call, perform_command, ble_opq_start, ble_opq_complete, ble_opq_set_state,
}
use cc2745_repo.BleOpQueue.Process.{AllDue, perform-AllDue, perform-op_list}

-- With an operation running or waiting, a new one goes to the end of the queue and nothing else
-- happens; without memory for it the code writes through NULL.
pub ble_opq_start_busy :
    (q : BleOpQueue) (op : BleOp)
    → (q.running_op_ptr ≢ none) ⊎ (q.op_list ≢ [])
    → (ble_opq_start true q op ≡ some (record q { op_list = q.op_list ++ op ∷ [] }, []))
      × (ble_opq_start false q op ≡ none)
unfolding ble_opq_start
ble_opq_start_busy q op busy = ground arith

-- On an idle queue `ble_opq_start` needs no memory, leaves the queue empty, and calls the runner
-- only if it is due.
pub ble_opq_start_idle :
    (room : Bool) (q : BleOpQueue) (op : BleOp)
    → q.running_op_ptr ≡ none
    → q.op_list ≡ []
    → (q' : BleOpQueue) × (calls : List Call) × (ble_opq_start room q op ≡ some (q', calls))
      × (q'.op_list ≡ [])
      × AllDue calls
unfolding ble_opq_start
ble_opq_start_idle room q op idle empty =
    let out = perform_command q op in
    (out.queue, out.calls, ground arith, (perform-op_list q op).0 ∙ empty, perform-AllDue q op)

-- A turn of the queue's user, with the runners that it calls: a new operation, the event that ends
-- one, or a new state. What is missing is `ble_opq_process`, which none of the three calls.
pub data Turn (q : BleOpQueue) : BleOpQueue → List Call → Type 0 where
  starts :
      (room : Bool) (op : BleOp) {q' : BleOpQueue} {calls : List Call}
      → ble_opq_start room q op ≡ some (q', calls)
      → Turn q q' calls
  completes :
      (op : BleOp) {q' : BleOpQueue} {calls : List Call}
      → q' ≡ ble_opq_complete q op
      → calls ≡ []
      → Turn q q' calls
  sets_state :
      (state : ℕ) {q' : BleOpQueue} {calls : List Call}
      → q' ≡ ble_opq_set_state q state
      → calls ≡ []
      → Turn q q' calls

-- Any number of turns, with all calls of runners in their order.
pub data Reach (q : BleOpQueue) : BleOpQueue → List Call → Type 0 where
  here : {calls : List Call} → calls ≡ [] → Reach q q calls
  next :
      {p r : BleOpQueue} {before now calls : List Call}
      → Reach q p before
      → Turn p r now
      → calls ≡ before ++ now
      → Reach q r calls

-- What a turn leaves of a queue in which operations wait.
abbrev Grows : (q q' : BleOpQueue) → List Call → Type 0
Grows q q' calls = (added : List BleOp) × (q'.op_list ≡ q.op_list ++ added) × (calls ≡ [])

start-Grows :
    (room : Bool) (op : BleOp) (q q' : BleOpQueue) (calls : List Call)
    → ble_opq_start room q op ≡ some (q', calls)
    → q.op_list ≢ []
    → (q'.op_list ≡ q.op_list ++ op ∷ []) × (calls ≡ [])
unfolding ble_opq_start
start-Grows room op q q' calls e waits = ground arith

Turn-Grows :
    {q q' : BleOpQueue} {calls : List Call} → Turn q q' calls → q.op_list ≢ [] → Grows q q' calls
unfolding ble_opq_complete ble_opq_set_state
Turn-Grows (starts room op e) waits =
    let (grown, none_called) = start-Grows room op _ _ _ e waits in (op ∷ [], grown, none_called)
Turn-Grows {q} (completes op e none_called) waits =
    ([], ap (λ (k : BleOpQueue). k.op_list) e ∙ sym (append-nil q.op_list), none_called)
Turn-Grows {q} (sets_state state e none_called) waits =
    ([], ap (λ (k : BleOpQueue). k.op_list) e ∙ sym (append-nil q.op_list), none_called)

append-ne : (xs ys zs : List BleOp) → xs ≢ [] → zs ≡ xs ++ ys → zs ≢ []
append-ne [] ys zs ne e = absurd (ne refl)
append-ne (x ∷ xs) ys zs ne e = λ empty. cc

-- Once an operation waits, no operation is ever run again unless `ble_opq_process` is called:
-- however many operations are then started and completed and states are set, in whatever order,
-- without a fault, no runner is called, and the operations that waited are still the first of the
-- queue, in their order.
pub waiting_stays :
    {q q' : BleOpQueue} {calls : List Call}
    → q.op_list ≢ []
    → Reach q q' calls
    → (added : List BleOp) × (q'.op_list ≡ q.op_list ++ added) × (calls ≡ [])
waiting_stays {q} waits (here none_called) = ([], sym (append-nil q.op_list), none_called)
waiting_stays {q} waits (next {p} {now} r turn all) =
    let (added, kept, nothing) = waiting_stays waits r in
    let (more, grown, none_now) =
      Turn-Grows turn (append-ne q.op_list added p.op_list waits kept) in
    (
      added ++ more,
      grown ∙ ap (λ l. l ++ more) kept ∙ append_assoc q.op_list added more,
      all ∙ ap (λ l. l ++ now) nothing ∙ none_now,
    )
