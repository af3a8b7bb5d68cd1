-- ===== src/MsgBus/Consume.antt =====
-- The consumption of all messages that wait.
use cc2745_repo.Prelude.{
  decrement, ℕ, zero, suc, ◌<◌, ◌≡◌, ◌∙◌, refl, true, false, not, ◌&&◌, List, [], ◌∷◌, arith,
  length, ◌>>◌, ok, Os, IsSemaphore,
}
use cc2745_repo.Hal.Event
use cc2745_repo.Libc.{Libc, IsBsearch}
use cc2745_repo.Links.{Ptr, Links, is_node}
use cc2745_repo.Links.Chain.{has}
use cc2745_repo.LinkedList.State.{LinkedList}
use cc2745_repo.LinkedList.Slots.{linked_list_free_node}
use cc2745_repo.LinkedList.Ends.Deque.{Holds, linked_list_remove_empty, linked_list_remove_head_lem}
use cc2745_repo.LinkedList.Heap.{released, released-Holds, free_heap_node}
use cc2745_repo.KvList.State.{Node}
use cc2745_repo.KvList.{compare_node_key}
use cc2745_repo.MsgBus.State.{Msg, Callbacks, MBus}
use cc2745_repo.MsgBus.{
  on_queue, mbus_consume_message, consume_node, consume_loop, mbus_consume_call,
}
use cc2745_repo.MsgBus.Deliver.{IsPassive, IsRoutable, called, handler, mbus_consume_message_lem}
use cc2745_repo.MsgBus.Queue.{Carries, Pending}

-- The calls that the messages `ms` are for, one after the other.
abbrev pub deliver_all :
    {W : Type 0} → ((fn p_data : Ptr) (value : ℕ) → W → W) → (Msg → Ptr) → List Msg → W → W
deliver_all step route [] w = w
deliver_all step route (m ∷ ms) w = deliver_all step route ms (called step (route m) m w)

abbrev pub Each : (Msg → Type 0) → List Msg → Type 0
Each P [] = Unit {0}
Each P (m ∷ ms) = P m × Each P ms

-- The queue once its first node is taken off, with the links `k`, and freed.
abbrev popped : LinkedList Msg → Links → LinkedList Msg
popped q k = record q { links = k; count = decrement q.count }

Carries-popped :
    (q : LinkedList Msg) (k : Links) (x : Ptr) (xs : List Ptr) (ms : List Msg)
    → Carries q xs ms
    → Carries (released (popped q k) x) xs ms
Carries-popped q k x [] [] c = c
Carries-popped q k x [] (m ∷ ms) c = absurd c
Carries-popped q k x (y ∷ ys) [] c = absurd c
Carries-popped q k x (y ∷ ys) (m ∷ ms) (at, ptr, c) = (at, ptr, Carries-popped q k x ys ms c)

module _ {os : Os} (sem : IsSemaphore os) {libc : Libc Node} (lib : IsBsearch compare_node_key libc)
    {W : Type 0} {callbacks : Callbacks W} {step : (fn p_data : Ptr) (value : ℕ) → W → W}
    (passive : IsPassive callbacks step) where
  abbrev taken : MBus W → Links → MBus W
  taken b k = record b { msg_queue = popped b.msg_queue k }

  abbrev after : MBus W → Links → Ptr → Msg → MBus W
  after b k x m = record b {
    msg_queue = released (popped b.msg_queue k) x;
    world = called step (handler os libc b m) m b.world;
  }

  consume_node_run :
      (b : MBus W) (k : Links) (x : Ptr) (m : Msg)
      → b.msg_queue.store (b.msg_queue.data_ptr x) ≡ m
      → b.msg_queue.array_based ≡ false
      → is_node k x ≡ true
      → IsRoutable os b m
      → consume_node os libc callbacks x (taken b k) ≡ ok tt (after b k x m)
  unfolding consume_node handler on_queue
  consume_node_run b k x m at heap node routable =
      let run = mbus_consume_message_lem sem lib passive (taken b k) m routable in
      let freed = free_heap_node (popped b.msg_queue k) x heap node in
      let read : consume_node os libc callbacks x (taken b k)
          ≡ (mbus_consume_message os libc callbacks m >> on_queue (linked_list_free_node x))
              (taken b k) =
        rw at refl in
      read ∙ ground (arith, run, freed)

  -- Each waiting message is taken from the front of the queue, the function that it is for is
  -- called, and its node is freed.
  consume_loop_lem :
      (fuel : ℕ) (b : MBus W) (xs : List Ptr) (ms : List Msg)
      → Holds os b.msg_queue xs
      → Carries b.msg_queue xs ms
      → b.msg_queue.array_based ≡ false
      → Each (IsRoutable os b) ms
      → length ms < fuel
      → (q : LinkedList Msg) × (consume_loop os fuel libc callbacks b
          ≡ ok tt
              (record b { msg_queue = q; world = deliver_all step (handler os libc b) ms b.world }))
        × Holds os q []
        × (q.array_based ≡ false)
        × ((a : Ptr) → q.links.live a ≡ (b.msg_queue.links.live a && not (has a xs)))
  unfolding consume_loop handler
  consume_loop_lem zero b xs ms h c heap routable enough = absurd (omega arith)
  consume_loop_lem (suc fuel) b [] (m ∷ ms) h c heap routable enough = absurd c
  consume_loop_lem (suc fuel) b (x ∷ xs) [] h c heap routable enough = absurd c
  consume_loop_lem (suc fuel) b [] [] h c heap routable enough =
      let empty = (linked_list_remove_empty sem h).0 in
      (b.msg_queue, ground (arith, empty), h, heap, λ a. ground arith)
  consume_loop_lem (suc fuel) b (x ∷ xs) (m ∷ ms) h (at, ptr, c) heap (r, routable) enough =
      let (k, pop, h', live) = linked_list_remove_head_lem sem x xs h in
      let node : is_node k x ≡ true = ground (arith, live x, h.list.chain.0, h.list.chain.1) in
      let run = consume_node_run b k x m at heap node r in
      let freed = released-Holds (popped b.msg_queue k) x xs h' h.list.chain.4 in
      let (q, rest, done, heap', live') =
        consume_loop_lem fuel (after b k x m) xs ms freed (Carries-popped b.msg_queue k x xs ms c)
          heap routable (omega (arith, enough)) in
      (
        q,
        ground (arith, pop, run, rest, h.list.chain.0),
        done,
        heap',
        λ a. ground (arith, live' a, live a),
      )

  -- With the messages `ms` in the queue, each to a channel with a well-formed topic list or with
  -- its own function, and callbacks that leave the bus alone, `mbus_consume_call` returns, in one
  -- round for each message and one more. The functions that the messages are for are then called,
  -- in the order of the queue, which is empty, and exactly its nodes are freed.
  pub mbus_consume_call_lem :
      (fuel : ℕ) (b : MBus W) (ms : List Msg) (pending : Pending os b ms)
      → Each (IsRoutable os b) ms
      → length ms < fuel
      → (q : LinkedList Msg) × (mbus_consume_call os fuel libc callbacks b
          ≡ ok tt
              (record b { msg_queue = q; world = deliver_all step (handler os libc b) ms b.world }))
        × Pending os (record b { msg_queue = q }) []
        × (q.links.live ≡ (λ a. b.msg_queue.links.live a && not (has a pending.nodes)))
  unfolding mbus_consume_call Event.wait
  mbus_consume_call_lem fuel b ms pending routable enough =
      let (q, run, done, heap, live) =
        consume_loop_lem fuel b pending.nodes ms pending.holds pending.carries pending.heap routable
          enough in
      (
        q,
        ground (arith, run),
        record { nodes = []; holds = done; carries = tt; heap = heap },
        λ i a. live a i,
      )
