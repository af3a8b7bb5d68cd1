-- ===== src/BleOpQueue/Process.antt =====
-- What `ble_opq_process` leaves.
use cc2745_repo.Prelude.{
  ℕ, zero, suc, drop, ◌≡◌, ◌≢◌, ◌∙◌, ap, refl, sym, ◌⊎◌, inl, inr, true, false, Bool-cases, Option,
  none, some, List, [], ◌∷◌, ◌++◌, arith, ◌==◌,
}
use cc2745_repo.BitState.{bit_state_match}
use cc2745_repo.BleOpQueue.{
  BleOp, BleOpQueue, Call, ret_ok, run_op, perform_command, process_loop, ble_opq_process,
}

-- A runner is called only where its operation is due: the state is none of its targets, and one of
-- its precondition.
abbrev pub Due : Call → Type 0
Due (s, op) =
    (bit_state_match s op.target_state ≡ false) × (bit_state_match s op.precondition ≡ true)

abbrev pub AllDue : List Call → Type 0
AllDue [] = Unit {0}
AllDue (c ∷ cs) = Due c × AllDue cs

AllDue-append : (cs ds : List Call) → AllDue cs → AllDue ds → AllDue (cs ++ ds)
AllDue-append [] ds a b = b
AllDue-append (c ∷ cs) ds a b = (a.0, AllDue-append cs ds a.1 b)

run_op-AllDue :
    (q : BleOpQueue) (op : BleOp) (r : Option (ℕ → ℕ))
    → Due (q.current_state, op)
    → AllDue (run_op q op r).calls
unfolding run_op
run_op-AllDue q op none d = tt
run_op-AllDue q op (some f) d = elim (Bool-cases (f op.param == ret_ok)) [
  | inl e ↦ rw e (d, tt)
  | inr e ↦ rw e (d, tt)
]

pub perform-AllDue : (q : BleOpQueue) (op : BleOp) → AllDue (perform_command q op).calls
unfolding perform_command
perform-AllDue q op = elim (Bool-cases (bit_state_match q.current_state op.target_state)) [
  | inl e ↦ rw e tt
  | inr e ↦ elim (Bool-cases (bit_state_match q.current_state op.precondition)) [
    | inl p ↦ rw (e, p) (run_op-AllDue q op op.runner_callback (e, p))
    | inr p ↦ rw (e, p) tt
  ]
]

run_op-op_list :
    (q : BleOpQueue) (op : BleOp) (r : Option (ℕ → ℕ))
    → ((run_op q op r).queue.op_list ≡ q.op_list)
      × ((run_op q op r).result ≡ true → (run_op q op r).queue.running_op_ptr ≢ none)
unfolding run_op
run_op-op_list q op none = (refl, λ e. cc)
run_op-op_list q op (some f) = ground arith

-- A command does not touch the queue of the others, and asks to wait only if one is running.
pub perform-op_list :
    (q : BleOpQueue) (op : BleOp)
    → ((perform_command q op).queue.op_list ≡ q.op_list)
      × ((perform_command q op).result ≡ true → (perform_command q op).queue.running_op_ptr ≢ none)
unfolding perform_command
perform-op_list q op = ground (arith, run_op-op_list q op op.runner_callback)

abbrev pub IsSettled : BleOpQueue → Type 0
IsSettled q = (q.op_list ≡ []) ⊎ (q.running_op_ptr ≢ none)

-- What a run of the loop over `ops` leaves: it has taken a front part of them, called runners only
-- where they were due, and stopped with nothing left or with an operation to wait for.
pub record Processed (ops : List BleOp) (q : BleOpQueue) (calls : List Call) : Type 0 where
  pub settled : IsSettled q
  pub due : AllDue calls
  pub taken : List BleOp
  pub order : ops ≡ taken ++ q.op_list

Processed-cons :
    (op : BleOp) (ops : List BleOp) (q : BleOpQueue) (before calls : List Call)
    → AllDue before
    → Processed ops q calls
    → Processed (op ∷ ops) q (before ++ calls)
Processed-cons op ops q before calls a p = record {
  settled = p.settled;
  due = AllDue-append before calls a p.due;
  taken = op ∷ p.taken;
  order = ap (λ l. op ∷ l) p.order;
}

process_loop-Processed :
    (ops : List BleOp) (q : BleOpQueue)
    → q.op_list ≡ ops
    → Processed ops (process_loop ops q).0 (process_loop ops q).1
unfolding process_loop
process_loop-Processed [] q e = record { settled = inl e; due = tt; taken = []; order = sym e }
process_loop-Processed (op ∷ ops) q e =
    let start : BleOpQueue = record q { op_list = ops } in
    let (kept, waits) = perform-op_list start op in
    let a = perform-AllDue start op in
    elim (Bool-cases (perform_command start op).result) [
      | inl wait ↦ rw wait (record {
        settled = inr (waits wait);
        due = a;
        taken = op ∷ [];
        order = ap (λ l. op ∷ l) (sym kept);
      })
      | inr done ↦ rw done (
          Processed-cons op ops _ _ _ a
            (process_loop-Processed ops (perform_command start op).queue kept))
    ]

-- `ble_opq_process` takes operations off the front of the queue, in order, and calls a runner only
-- in a state of its precondition that is not yet one of its target. When it stops, the queue is
-- empty or an operation is running.
pub ble_opq_process_lem :
    (q : BleOpQueue) → Processed q.op_list (ble_opq_process q).0 (ble_opq_process q).1
unfolding ble_opq_process
ble_opq_process_lem q = process_loop-Processed q.op_list q refl

run_op-started :
    (q : BleOpQueue) (op : BleOp) (runner : ℕ → ℕ) (r : Option (ℕ → ℕ))
    → r ≡ some runner
    → runner op.param ≡ ret_ok
    → run_op q op r ≡ record {
      result = true;
      queue = record q { running_op_ptr = some op };
      calls = (q.current_state, op) ∷ [];
    }
unfolding run_op
run_op-started q op runner r has ok' = rw has (rw ok' refl)

module _ (q : BleOpQueue) (running op : BleOp) (ops : List BleOp) (at : q.op_list ≡ op ∷ ops)
    (busy : q.running_op_ptr ≡ some running)
    (not_there : bit_state_match q.current_state op.target_state ≡ false) where
  process_first :
      bit_state_match q.current_state op.precondition ≡ false
      → ble_opq_process q ≡ (record q { op_list = ops }, [])
  unfolding ble_opq_process perform_command
  process_first not_due = rw (at, process_loop) (rw (not_there) (rw not_due (rw busy)))

  -- While another operation runs, one whose precondition holds is started all the same, and takes
  -- its place as the one that is waited for.
  pub ble_opq_process_overlaps :
      (runner : ℕ → ℕ)
      → bit_state_match q.current_state op.precondition ≡ true
      → op.runner_callback ≡ some runner
      → runner op.param ≡ ret_ok
      → ble_opq_process q
        ≡ (record q { op_list = ops; running_op_ptr = some op }, (q.current_state, op) ∷ [])
  unfolding ble_opq_process perform_command
  ble_opq_process_overlaps runner due has ok' =
      rw (at, process_loop)
        (rw not_there (
          rw due (
            rw (run_op-started (record q { op_list = ops }) op runner op.runner_callback has ok')
              refl)))

-- So many calls of `ble_opq_process`, and the runners that they call.
unfoldable pub process_times : ℕ → BleOpQueue → BleOpQueue × List Call
process_times zero q = (q, [])
process_times (suc n) q =
    let (q', calls) = ble_opq_process q in
    let (q'', more) = process_times n q' in (q'', calls ++ more)

-- The state is neither one of the target nor one of the precondition of any of the operations.
abbrev pub AllWait : (state : ℕ) → List BleOp → Type 0
AllWait state [] = Unit {0}
AllWait state (op ∷ ops) =
    (bit_state_match state op.target_state ≡ false)
    × (bit_state_match state op.precondition ≡ false)
    × AllWait state ops

process_none : (q : BleOpQueue) → q.op_list ≡ [] → ble_opq_process q ≡ (q, [])
unfolding ble_opq_process process_loop
process_none q empty = rw (empty, process_loop) refl

drop-nil : (n : ℕ) → drop {A = BleOp} n [] ≡ []
drop-nil zero = refl
drop-nil (suc n) = refl

-- While an operation runs, and the operations that wait are neither due nor done: each call of
-- `ble_opq_process` takes the first of them off the queue, without running it or putting it back.
-- After `n` calls the first `n` operations are lost, no runner has been called, and the same
-- operation runs in the same state.
pub ble_opq_process_loses :
    (n : ℕ) (ops : List BleOp) (q : BleOpQueue) (running : BleOp)
    → q.op_list ≡ ops
    → q.running_op_ptr ≡ some running
    → AllWait q.current_state ops
    → process_times n q ≡ (record q { op_list = drop n ops }, [])
unfolding process_times
ble_opq_process_loses zero ops q running at busy wait = ground arith
ble_opq_process_loses (suc n) [] q running at busy wait = rw (process_none q at) (
    ble_opq_process_loses n [] q running at busy wait
    ∙ ap (λ l. (record q { op_list = l }, [])) (drop-nil n))
ble_opq_process_loses (suc n) (op ∷ ops) q running at busy wait =
    rw (process_first q running op ops at busy wait.0 wait.1)
      (ble_opq_process_loses n ops (record q { op_list = ops }) running refl busy wait.2)
