-- ===== src/MsgBus/Queue.antt =====
-- The messages that wait, and the operations that add one.
use cc2745_repo.Prelude.{
  ℕ, ◌+◌, ◌≡◌, ◌≢◌, ◌⊎◌, inl, inr, false, Bool, Option, none, Option-cases, List, [], ◌∷◌, ◌++◌,
  arith, ok, Os, IsSemaphore,
}
use cc2745_repo.Hal.Event
use cc2745_repo.Links.{Ptr, null, Links, update}
use cc2745_repo.Links.Chain.{has}
use cc2745_repo.LinkedList.State.{LinkedList, align_up, heap_size, node_len}
use cc2745_repo.LinkedList.Slots.{linked_list_alloc_node}
use cc2745_repo.LinkedList.Ends.{linked_list_insert_tail}
use cc2745_repo.LinkedList.Ends.Deque.{Holds, linked_list_insert_lem}
use cc2745_repo.LinkedList.Heap.{
  IsMalloc, allocated, allocated-Holds, allocated-IsFresh, alloc_heap_none, alloc_heap_some,
}
use cc2745_repo.MsgBus.State.{Msg, msg_len, mbus_call_group_id, MBus}
use cc2745_repo.MsgBus.{push_message_to_queue, mbus_produce_message, mbus_produce_call}

-- The nodes `xs` carry the messages `ms`, each behind its node.
abbrev pub Carries : LinkedList Msg → List Ptr → List Msg → Type 0
Carries q [] [] = Unit {0}
Carries q [] (m ∷ ms) = ⊥
Carries q (x ∷ xs) [] = ⊥
Carries q (x ∷ xs) (m ∷ ms) =
    (q.store (q.data_ptr x) ≡ m) × (q.data_ptr x ≡ x + align_up node_len) × Carries q xs ms

-- The messages `ms` wait in the queue of the bus, a heap list that nobody has locked.
pub record Pending {W : Type 0} (os : Os) (b : MBus W) (ms : List Msg) : Type 0 where
  pub nodes : List Ptr
  pub holds : Holds os b.msg_queue nodes
  pub carries : Carries b.msg_queue nodes ms
  pub heap : b.msg_queue.array_based ≡ false

abbrev pub message : (chann body p_data value : ℕ) → Msg
message chann body p_data value = record {
  chann_id = chann;
  body = body;
  data_ptr = p_data;
  value = value;
}

-- The queue once the new node is allocated and its message stored.
abbrev filled : LinkedList Msg → Ptr → Msg → LinkedList Msg
filled q p m = record (allocated q p) {
  store = update q.store ((allocated q p).data_ptr p) m;
  opt = update q.opt p m.value;
}

abbrev linked : LinkedList Msg → Links → LinkedList Msg
linked q k = record q { links = k; count = q.count + 1; sorted = false }

Carries-filled :
    (q : LinkedList Msg) (k : Links) (p : Ptr) (new : Msg) (xs : List Ptr) (ms : List Msg)
    → has p xs ≡ false
    → Carries q xs ms
    → Carries (linked (filled q p new) k) (xs ++ p ∷ []) (ms ++ new ∷ [])
Carries-filled q k p new [] [] out c = (ground arith, ground arith, tt)
Carries-filled q k p new [] (m ∷ ms) out c = absurd c
Carries-filled q k p new (x ∷ xs) [] out c = absurd c
Carries-filled q k p new (x ∷ xs) (m ∷ ms) out (at, ptr, c) = (
  ground (arith, at, ptr, out),
  ground (arith, ptr, out),
  Carries-filled q k p new xs ms (ground (arith, out)) c,
)

-- There is no memory for a node and a message.
abbrev pub NoMemory : {W : Type 0} → ((Ptr → Bool) → ℕ → Option Ptr) → MBus W → Type 0
NoMemory malloc b = malloc b.msg_queue.links.live (heap_size msg_len) ≡ none

module _ {os : Os} (sem : IsSemaphore os) {malloc : (Ptr → Bool) → ℕ → Option Ptr}
    (mem : IsMalloc malloc) {W : Type 0} where
  fill_run :
      (b : MBus W) (p : Ptr) (k : Links) (m : Msg)
      → p ≢ null
      → linked_list_alloc_node os malloc msg_len b.msg_queue ≡ ok p (allocated b.msg_queue p)
      → linked_list_insert_tail os p (filled b.msg_queue p m)
        ≡ ok p (linked (filled b.msg_queue p m) k)
      → push_message_to_queue os malloc m b
        ≡ ok p (record b { msg_queue = linked (filled b.msg_queue p m) k })
  unfolding push_message_to_queue
  fill_run b p k m ne alloc insert = ground (arith, alloc, insert)

  -- A message is put at the end of the queue if there is memory for it, else nothing changes.
  push_message_lem :
      (b : MBus W) (m : Msg) {ms : List Msg}
      → Pending os b ms
      → ((NoMemory malloc b) × (push_message_to_queue os malloc m b ≡ ok null b))
        ⊎ ((p : Ptr) × (q : LinkedList Msg) × (p ≢ null)
            × (push_message_to_queue os malloc m b ≡ ok p (record b { msg_queue = q }))
            × Pending os (record b { msg_queue = q }) (ms ++ m ∷ []))
  unfolding push_message_to_queue
  push_message_lem b m pend =
      elim (Option-cases (malloc b.msg_queue.links.live (heap_size msg_len))) [
        | inl e ↦
            (let alloc = alloc_heap_none sem pend.holds pend.heap malloc msg_len e in
              inl (e, ground (arith, alloc)))
        | inr (p, e) ↦
            (let alloc = alloc_heap_some sem pend.holds pend.heap malloc msg_len p e in
              let (ne, dead) = mem.fresh e in
              let h = allocated-Holds b.msg_queue p pend.nodes pend.holds dead in
              let f = allocated-IsFresh b.msg_queue p pend.nodes pend.holds ne dead in
              let hf : Holds os (filled b.msg_queue p m) pend.nodes = record {
                list = h.list;
                count = h.count;
                unlocked = h.unlocked;
              } in
              let (k, insert, h', _) = (linked_list_insert_lem sem hf p f).1 in
              inr (
                p,
                linked (filled b.msg_queue p m) k,
                ne,
                fill_run b p k m ne alloc insert,
                record {
                  nodes = pend.nodes ++ p ∷ [];
                  holds = h';
                  carries = Carries-filled b.msg_queue k p m pend.nodes _ f.outside pend.carries;
                  heap = pend.heap;
                },
              ))
      ]

  -- A message to a topic, and one that brings its function, goes to the end of the queue if there
  -- is memory for it. Else it is dropped, and nothing changes.
  pub mbus_produce_lem :
      (b : MBus W) (chann body p_data value : ℕ) {ms : List Msg}
      → Pending os b ms
      → ((NoMemory malloc b × (mbus_produce_message os malloc chann body p_data value b ≡ ok tt b))
          ⊎ ((q : LinkedList Msg) × (mbus_produce_message os malloc chann body p_data value b
                ≡ ok tt (record b { msg_queue = q }))
              × Pending os
                  (record b { msg_queue = q })
                  (ms ++ message chann body p_data value ∷ [])))
        × ((NoMemory malloc b × (mbus_produce_call os malloc body p_data value b ≡ ok tt b))
            ⊎ ((q : LinkedList Msg) × (mbus_produce_call os malloc body p_data value b
                  ≡ ok tt (record b { msg_queue = q }))
                × Pending os
                    (record b { msg_queue = q })
                    (ms ++ message mbus_call_group_id body p_data value ∷ [])))
  unfolding mbus_produce_message mbus_produce_call Event.post
  mbus_produce_lem b chann body p_data value pend = (
    elim (push_message_lem b (message chann body p_data value) pend) [
      | inl (e, run) ↦ inl (e, ground (arith, run))
      | inr (p, q, ne, run, pend') ↦ inr (q, ground (arith, run), pend')
    ],
    elim (push_message_lem b (message mbus_call_group_id body p_data value) pend) [
      | inl (e, run) ↦ inl (e, ground (arith, run))
      | inr (p, q, ne, run, pend') ↦ inr (q, ground (arith, run), pend')
    ],
  )
