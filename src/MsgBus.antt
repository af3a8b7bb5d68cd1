-- ===== src/MsgBus.antt =====
-- ccs_project/src/lib/msg_bus: messages wait in a heap list, and the task that consumes them calls
-- the function that each is for. A function pointer is an address, NULL is 0.
pub mod State
pub mod Init
pub mod Deliver
pub mod Queue
pub mod Consume
pub mod RoundTrip
mod Tests
use cc2745_repo.Prelude.{
  ℕ, zero, suc, ◌+◌, Bool, not, Option, none, some, List, [], ◌∷◌, get_elem?, ◌==◌, if◌then◌else◌,
  Run, ok, fault, blocked, out_of_fuel, Cmd, pure, modify, ◌>>=◌, ◌>>◌, Os,
}
use cc2745_repo.Hal.Event
use cc2745_repo.Libc.{Libc}
use cc2745_repo.Links.{Ptr, null, update}
use cc2745_repo.LinkedList.State.{LinkedList}
use cc2745_repo.LinkedList.Slots.{
  linked_list_init_for_heap, linked_list_alloc_node, linked_list_free_node,
}
use cc2745_repo.LinkedList.Ends.{linked_list_insert_tail, linked_list_remove_head}
use cc2745_repo.KvList.State.{Node, KvList}
use cc2745_repo.KvList.{kv_list_init, kv_list_add, kv_list_sort, kv_list_search}
use cc2745_repo.MsgBus.State.{
  Callbacks, Chann, Msg, Topic, mbus_call_group_id, mbus_new_event_id, msg_len, MBus,
}

-- The topic that node `p_node` points at.
unfoldable pub topic_at : KvList Topic → (p_node : ℕ) → Option Topic
topic_at l p_node = elim (get_elem? l.node_array p_node) [
  | none ↦ none
  | some n ↦ elim n.data_ptr [ none ↦ none | some d ↦ get_elem? l.data_array d ]
]

module _ {W : Type 0} where
  queue_result : {A : Type 0} → Run (LinkedList Msg) A → Cmd (MBus W) A
  queue_result (ok a q) b = ok a (record b { msg_queue = q })
  queue_result fault b = fault
  queue_result blocked b = blocked
  queue_result out_of_fuel b = out_of_fuel

  -- A call that works on `p_bus->msg_queue`.
  unfoldable pub on_queue : {A : Type 0} → Cmd (LinkedList Msg) A → Cmd (MBus W) A
  unfolding queue_result
  on_queue c b = queue_result (c b.msg_queue) b

  topics_result : {A : Type 0} → Ptr → Run (KvList Topic) A → Cmd (MBus W) A
  topics_result p (ok a l) b = ok a (record b { topic_lists = update b.topic_lists p (some l) })
  topics_result p fault b = fault
  topics_result p blocked b = blocked
  topics_result p out_of_fuel b = out_of_fuel

  -- A call that works on the topic list at an address.
  unfoldable pub on_topics : {A : Type 0} → Ptr → Cmd (KvList Topic) A → Cmd (MBus W) A
  unfolding topics_result
  on_topics p c b = elim (b.topic_lists p) [ none ↦ fault | some l ↦ topics_result p (c l) b ]

  unfoldable pub on_event : Cmd Event.Event (Unit {0}) → Cmd (MBus W) (Unit {0})
  on_event c b = elim (c b.event) [
    | ok _ e ↦ ok tt (record b { event = e })
    | fault ↦ fault
    | blocked ↦ blocked
    | out_of_fuel ↦ out_of_fuel
  ]

  unfoldable pub chann_at : List Chann → ℕ → Cmd (MBus W) Chann
  chann_at channs i b = elim (get_elem? channs i) [ none ↦ fault | some c ↦ ok c b ]

  -- A command on each of the next `n` channels' topic lists, from channel `i` on.
  unfoldable pub each_chann :
      (n i : ℕ) → List Chann → Cmd (KvList Topic) (Unit {0}) → Cmd (MBus W) (Unit {0})
  unfolding chann_at on_topics
  each_chann zero i channs c = pure tt
  each_chann (suc n) i channs c =
      (do p_chann ← chann_at channs i; on_topics p_chann.topic_list c)
      >> each_chann n (suc i) channs c

  call_topic : Callbacks W → Msg → (topic_list : Ptr) → ℕ → Cmd (MBus W) (Unit {0})
  unfolding topic_at
  call_topic callbacks msg topic_list p_node b = elim (b.topic_lists topic_list) [
    | none ↦ fault
    | some l ↦ elim (topic_at l p_node) [
      | none ↦ fault
      | some t ↦
          if t.callback == null then ok tt b else callbacks t.callback msg.data_ptr msg.value b
    ]
  ]

module _ (os : Os) {W : Type 0} where
  unfoldable pub mbus_init : List Chann → ℕ → Cmd (MBus W) (Unit {0})
  unfolding on_queue on_event each_chann
  mbus_init p_chann_array chann_count = do
    on_queue (linked_list_init_for_heap os)
    on_event Event.create
    each_chann chann_count 0 p_chann_array (kv_list_init os)

  unfoldable pub mbus_register_topic : ℕ → Topic → Cmd (MBus W) (Unit {0})
  unfolding chann_at on_topics
  mbus_register_topic chann_id topic b =
      (do
        p_chann ← chann_at b.chann_array chann_id
        on_topics p_chann.topic_list (kv_list_add os topic.id topic)
        pure tt)
        b

  unfoldable pub mbus_sort_topic : Libc Node → Cmd (MBus W) (Unit {0})
  unfolding each_chann
  mbus_sort_topic libc b = each_chann b.chann_count 0 b.chann_array (kv_list_sort os libc) b

  fill_node : Ptr → Msg → Cmd (MBus W) Ptr
  unfolding on_queue
  fill_node p_node msg = do
    on_queue (
        modify (λ q. record q {
          store = update q.store (q.data_ptr p_node) msg;
          opt = update q.opt p_node msg.value;
        }))
    on_queue (linked_list_insert_tail os p_node)
    pure p_node

  unfoldable pub push_message_to_queue : ((Ptr → Bool) → ℕ → Option Ptr) → Msg → Cmd (MBus W) Ptr
  unfolding on_queue fill_node
  push_message_to_queue malloc msg = do
    p_node ← on_queue (linked_list_alloc_node os malloc msg_len)
    (if p_node == null then pure null else fill_node p_node msg)

  announce : Ptr → Cmd (MBus W) (Unit {0})
  unfolding on_event
  announce p_node = if p_node == null then pure tt else on_event (Event.post mbus_new_event_id)

  unfoldable pub mbus_produce_message :
      ((Ptr → Bool) → ℕ → Option Ptr)
      → (chann topic : ℕ) → (p_data : Ptr) → (value : ℕ) → Cmd (MBus W) (Unit {0})
  unfolding announce
  mbus_produce_message malloc chann topic p_data value = do
    p_node ←
        push_message_to_queue malloc
          (record { chann_id = chann; body = topic; data_ptr = p_data; value = value })
    announce p_node

  unfoldable pub mbus_produce_call :
      ((Ptr → Bool) → ℕ → Option Ptr)
      → (callback p_data : Ptr) → (value : ℕ) → Cmd (MBus W) (Unit {0})
  unfolding announce
  mbus_produce_call malloc callback p_data value = do
    p_node ← push_message_to_queue malloc (record {
      chann_id = mbus_call_group_id;
      body = callback;
      data_ptr = p_data;
      value = value;
    })
    announce p_node

  notify_topic : Libc Node → Callbacks W → Msg → Cmd (MBus W) (Unit {0})
  unfolding chann_at on_topics call_topic
  notify_topic libc callbacks msg b =
      (do
        p_chann ← chann_at b.chann_array msg.chann_id
        p_node ← on_topics p_chann.topic_list (kv_list_search os libc msg.body)
        (elim p_node [ none ↦ pure tt | some i ↦ call_topic callbacks msg p_chann.topic_list i ]))
        b

  unfoldable pub mbus_consume_message : Libc Node → Callbacks W → Msg → Cmd (MBus W) (Unit {0})
  unfolding notify_topic
  mbus_consume_message libc callbacks msg =
      if msg.chann_id == mbus_call_group_id
      then (if msg.body == null then pure tt else callbacks msg.body msg.data_ptr msg.value)
      else notify_topic libc callbacks msg

  -- One round of the loop, for a node that is not NULL: the message is read where the node's data
  -- pointer points at.
  consume_node : Libc Node → Callbacks W → Ptr → Cmd (MBus W) (Unit {0})
  unfolding on_queue
  consume_node libc callbacks p_node b =
      (do
        mbus_consume_message libc callbacks (b.msg_queue.store (b.msg_queue.data_ptr p_node))
        on_queue (linked_list_free_node p_node))
        b

  consume_loop : (fuel : ℕ) → Libc Node → Callbacks W → Cmd (MBus W) (Unit {0})
  unfolding on_queue consume_node
  consume_loop zero libc callbacks b = out_of_fuel
  consume_loop (suc fuel) libc callbacks b =
      let rest = consume_loop fuel libc callbacks in
      (do
        p_node ← on_queue (linked_list_remove_head os)
        (if p_node == null then pure tt else consume_node libc callbacks p_node >> rest))
        b

  -- The `while` runs on fuel: a callback can put a new message into the queue.
  unfoldable pub mbus_consume_call : (fuel : ℕ) → Libc Node → Callbacks W → Cmd (MBus W) (Unit {0})
  unfolding on_event consume_loop
  mbus_consume_call fuel libc callbacks = do
    on_event (Event.wait mbus_new_event_id)
    consume_loop fuel libc callbacks
