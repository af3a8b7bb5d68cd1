-- ===== src/MsgBus/RoundTrip.antt =====
-- From the registration of a topic to the call of its callback, through both containers.
use cc2745_repo.Prelude.{
  ℕ, ◌≡◌, ◌≢◌, inl, inr, refl, Bool, Option, none, some, List, [], ◌∷◌, get_elem?, arith, ok, Os,
  IsSemaphore,
}
use cc2745_repo.Libc.{Libc, IsBsearch}
use cc2745_repo.Links.{Ptr, null, update}
use cc2745_repo.LinkedList.Heap.{IsMalloc}
use cc2745_repo.KvList.State.{Node, KvList}
use cc2745_repo.KvList.{compare_node_key, kv_list_add}
use cc2745_repo.KvList.Valid.{IsValid}
use cc2745_repo.KvList.Add.{Added, kv_list_add_lem}
use cc2745_repo.KvList.Search.{IsHit, kv_list_search_lem}
use cc2745_repo.KvList.Stored.{Stored, Valid-Stored, IsHit-Added}
use cc2745_repo.MsgBus.State.{Topic, Chann, Msg, Callbacks, mbus_call_group_id, MBus}
use cc2745_repo.MsgBus.{topic_at, mbus_register_topic, mbus_produce_message, mbus_consume_call}
use cc2745_repo.MsgBus.Deliver.{IsPassive, called, callback_at, found, handler}
use cc2745_repo.MsgBus.Queue.{Pending, NoMemory, message, mbus_produce_lem}
use cc2745_repo.MsgBus.Consume.{mbus_consume_call_lem}

register_run :
    (os : Os) {W : Type 0} (b : MBus W) (chann_id i : ℕ) (t : Topic) (c : Chann)
    (l l' : KvList Topic)
    → get_elem? b.chann_array chann_id ≡ some c
    → b.topic_lists c.topic_list ≡ some l
    → kv_list_add os t.id t l ≡ ok (some i) l'
    → mbus_register_topic os chann_id t b
      ≡ ok tt (record b { topic_lists = update b.topic_lists c.topic_list (some l') })
unfolding mbus_register_topic
register_run os b chann_id i t c l l' at list run = ground (arith, at, list, run)

Stored-callback_at :
    (l : KvList Topic) (i key : ℕ) (t : Topic)
    → Stored l i key t
    → callback_at l (some i) ≡ t.callback
unfolding callback_at topic_at
Stored-callback_at l i key t s =
    let at = s.at in let ptr = s.ptr in let copied = s.copied in ground (arith, at, ptr, copied)

-- What waits depends on the queue alone.
same_queue :
    {os : Os} {W : Type 0} {b : MBus W} {ms : List Msg} {lists : Ptr → Option (KvList Topic)}
    {w : W}
    → Pending os b ms
    → Pending os (record b { topic_lists = lists; world = w }) ms
same_queue p = record { nodes = p.nodes; holds = p.holds; carries = p.carries; heap = p.heap }

module _ {os : Os} (sem : IsSemaphore os) {libc : Libc Node} (lib : IsBsearch compare_node_key libc)
    {W : Type 0} {callbacks : Callbacks W} {step : (fn p_data : Ptr) (value : ℕ) → W → W}
    (passive : IsPassive callbacks step) {malloc : (Ptr → Bool) → ℕ → Option Ptr}
    (mem : IsMalloc malloc) where
  Added-handler :
      (b : MBus W) (m : Msg) (t : Topic) (c : Chann) (l l' : KvList Topic) (i : ℕ)
      (v : IsValid os l)
      → Added sem t.id t v i l'
      → IsHit t.id l.node_array none
      → m.chann_id ≢ mbus_call_group_id
      → m.body ≡ t.id
      → get_elem? b.chann_array m.chann_id ≡ some c
      → b.topic_lists c.topic_list ≡ some l'
      → handler os libc b m ≡ t.callback
  unfolding handler found
  Added-handler b m t c l l' i v a unused ne body at list =
      let (r, run, hit) = kv_list_search_lem sem lib t.id a.valid in
      let first : r ≡ some i = IsHit-Added sem t.id t v a r unused hit in
      let callback = Stored-callback_at l' i t.id t (Valid-Stored l' i t.id t a.valid a.new) in
      let got : found os libc l' t.id ≡ some i = ground (arith, run, first) in
      ground (arith, at, list, body, got, callback)

  called_once :
      (fn : Ptr) (m : Msg) (h : Ptr) (w : W)
      → h ≡ fn
      → fn ≢ null
      → called step h m w ≡ step fn m.data_ptr m.value w
  unfolding called
  called_once fn m h w same ne = rw same (ground arith)

  -- A topic with a callback that is not NULL is registered on a channel other than 255, whose topic
  -- list is well formed, not full, and has no topic of its id; a message to it is produced, for
  -- which there is memory; the queue, empty before, is consumed. With callbacks that leave the bus
  -- alone none of this fails, the topic's callback is called once with the message's two arguments,
  -- and the queue is empty again.
  pub mbus_round_trip :
      (b : MBus W) (chann_id p_data value : ℕ) (t : Topic) (c : Chann) (l : KvList Topic)
      → Pending os b []
      → ¬ NoMemory malloc b
      → chann_id ≢ mbus_call_group_id
      → get_elem? b.chann_array chann_id ≡ some c
      → b.topic_lists c.topic_list ≡ some l
      → IsValid os l
      → l.count ≢ l.depth
      → IsHit t.id l.node_array none
      → t.callback ≢ null
      → (b1 : MBus W) × (b2 : MBus W) × (b3 : MBus W) × (mbus_register_topic os chann_id t b
          ≡ ok tt b1)
        × (mbus_produce_message os malloc chann_id t.id p_data value b1 ≡ ok tt b2)
        × (mbus_consume_call os 2 libc callbacks b2 ≡ ok tt b3)
        × (b3.world ≡ step t.callback p_data value b.world)
        × Pending os b3 []
  mbus_round_trip b chann_id p_data value t c l pending memory ne at list v room unused given =
      elim (kv_list_add_lem sem t.id t v) [
        | inl (full, run) ↦ absurd (room full)
        | inr (i, l', ne', run, a) ↦
            (let b1 = record b { topic_lists = update b.topic_lists c.topic_list (some l') } in
              let m = message chann_id t.id p_data value in
              elim (mbus_produce_lem sem mem b1 chann_id t.id p_data value (same_queue pending)).0 [
                | inl (full, dropped) ↦ absurd (memory full)
                | inr (q, produced, pending2) ↦
                    (let b2 = record b1 { msg_queue = q } in
                      let list' : b2.topic_lists c.topic_list ≡ some l' = ground arith in
                      let (q', consumed, pending3, live) =
                        mbus_consume_call_lem sem lib passive 2 b2 (m ∷ []) pending2
                          (inr (ne, (c, l', at, list', a.valid)), tt) (omega arith) in
                      let callback = Added-handler b2 m t c l l' i v a unused ne refl at list' in
                      (
                        b1,
                        b2,
                        record b2 {
                          msg_queue = q';
                          world = called step (handler os libc b2 m) m b.world;
                        },
                        register_run os b chann_id i t c l l' at list run,
                        produced,
                        consumed,
                        called_once t.callback m _ b.world callback given,
                        same_queue pending3,
                      ))
              ])
      ]
