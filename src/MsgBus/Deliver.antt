-- ===== src/MsgBus/Deliver.antt =====
-- The function that a message is for, and what its consumption does.
use cc2745_repo.Prelude.{
  ℕ, ◌≡◌, ◌≢◌, ◌⊎◌, ◌∙◌, inl, inr, refl, ap, sym, Bool-cases, ==_iff, Option, none, some, get_elem?,
  get_elem?_of_lt, arith, ◌==◌, if◌then◌else◌, ok, Os, IsSemaphore,
}
use cc2745_repo.Libc.{Libc, IsBsearch}
use cc2745_repo.Links.{Ptr, null, update}
use cc2745_repo.KvList.State.{Node, KvList}
use cc2745_repo.KvList.{compare_node_key, kv_list_search}
use cc2745_repo.KvList.Valid.{IsValid, slot_of}
use cc2745_repo.KvList.Search.{IsHit, kv_list_search_lem}
use cc2745_repo.MsgBus.State.{Topic, Chann, Msg, Callbacks, mbus_call_group_id, MBus}
use cc2745_repo.MsgBus.{topic_at, call_topic, on_topics, notify_topic, mbus_consume_message}

-- A callback changes nothing but the rest of the program's state, by `step`.
pub record IsPassive {W : Type 0} (callbacks : Callbacks W)
    (step : (fn p_data : Ptr) (value : ℕ) → W → W) : Type 0 where
  pub runs :
      (fn p_data : Ptr) (value : ℕ) (b : MBus W)
      → callbacks fn p_data value b ≡ ok tt (record b { world = step fn p_data value b.world })

-- The address of the function that a topic list has at a node; NULL for no node.
unfoldable pub callback_at : KvList Topic → Option ℕ → Ptr
callback_at l none = null
callback_at l (some i) = elim (topic_at l i) [ none ↦ null | some t ↦ t.callback ]

-- What a call of the function at `fn` makes of the rest of the state; NULL is not called.
unfoldable pub called :
    {W : Type 0} → ((fn p_data : Ptr) (value : ℕ) → W → W) → (fn : Ptr) → Msg → W → W
called step fn m w = if fn == null then w else step fn m.data_ptr m.value w

update_same : {A : Type 0} (f : Ptr → A) (p : Ptr) (v : A) → f p ≡ v → update f p v ≡ f
update_same f p v e = λ i q. at q i
  where
    at : (q : Ptr) → update f p v q ≡ f q
    at q = elim (Bool-cases (q == p)) [
      | inl same ↦ (let eq : p ≡ q = sym ((==_iff q p).0 same) in rw same (sym e ∙ ap f eq))
      | inr other ↦ rw other refl
    ]

topic_at-some :
    {os : Os} (l : KvList Topic) (i : ℕ) {n : Node}
    → IsValid os l
    → get_elem? l.node_array i ≡ some n
    → (t : Topic) × (topic_at l i ≡ some t)
unfolding topic_at
topic_at-some l i v at =
    let (d, ptr, below) = slot_of i v.table at in
    let (t, got) = get_elem?_of_lt l.data_array d (omega (arith, below, v.slots)) in
    (t, ground (arith, at, ptr, got))

module _ {os : Os} (sem : IsSemaphore os) {libc : Libc Node} (lib : IsBsearch compare_node_key libc)
    {W : Type 0} {callbacks : Callbacks W} {step : (fn p_data : Ptr) (value : ℕ) → W → W}
    (passive : IsPassive callbacks step) where
  search_run :
      (b : MBus W) (p : Ptr) (l : KvList Topic) (key : ℕ) (r : Option ℕ)
      → b.topic_lists p ≡ some l
      → kv_list_search os libc key l ≡ ok r l
      → on_topics p (kv_list_search os libc key) b ≡ ok r b
  unfolding on_topics
  search_run b p l key r list run =
      let looked : on_topics p (kv_list_search os libc key) b
          ≡ ok r (record b { topic_lists = update b.topic_lists p (some l) }) =
        ground (arith, list, run) in
      looked
      ∙ ap (λ f. ok r (record b { topic_lists = f })) (update_same b.topic_lists p (some l) list)

  call_run :
      (b : MBus W) (m : Msg) (p : Ptr) (l : KvList Topic) (i : ℕ) (t : Topic)
      → b.topic_lists p ≡ some l
      → topic_at l i ≡ some t
      → call_topic callbacks m p i b
        ≡ ok tt (record b { world = called step (callback_at l (some i)) m b.world })
  unfolding call_topic called callback_at
  call_run b m p l i t list got =
      let run = passive.runs t.callback m.data_ptr m.value b in ground (arith, list, got, run)

  notify_run :
      (b : MBus W) (m : Msg) (c : Chann) (l : KvList Topic) (r : Option ℕ)
      → get_elem? b.chann_array m.chann_id ≡ some c
      → b.topic_lists c.topic_list ≡ some l
      → IsValid os l
      → IsHit m.body l.node_array r
      → on_topics c.topic_list (kv_list_search os libc m.body) b ≡ ok r b
      → notify_topic os libc callbacks m b
        ≡ ok tt (record b { world = called step (callback_at l r) m b.world })
  unfolding notify_topic called callback_at
  notify_run b m c l none at list v hit search = ground (arith, at, search)
  notify_run b m c l (some i) at list v hit search =
      let (t, got) = topic_at-some l i v hit.1 in
      let run = call_run b m c.topic_list l i t list got in ground (arith, at, search, run)

  -- A message to a topic, on a channel with a well-formed topic list: the list is searched for the
  -- topic's id, and the callback of the topic found is called once with the message's two
  -- arguments, if a topic is found and its callback is not NULL. Nothing else changes.
  pub mbus_consume_message_topic :
      (b : MBus W) (m : Msg) (c : Chann) (l : KvList Topic)
      → m.chann_id ≢ mbus_call_group_id
      → get_elem? b.chann_array m.chann_id ≡ some c
      → b.topic_lists c.topic_list ≡ some l
      → IsValid os l
      → (r : Option ℕ) × IsHit m.body l.node_array r
        × (mbus_consume_message os libc callbacks m b
            ≡ ok tt (record b { world = called step (callback_at l r) m b.world }))
  unfolding mbus_consume_message
  mbus_consume_message_topic b m c l ne at list v =
      let (r, run, hit) = kv_list_search_lem sem lib m.body v in
      let notified =
        notify_run b m c l r at list v hit (search_run b c.topic_list l m.body r list run) in
      (r, hit, ground (arith, notified))

-- What the search for a topic returns.
unfoldable pub found : Os → Libc Node → KvList Topic → ℕ → Option ℕ
found os libc l key = elim (kv_list_search os libc key l) [ ok r _ ↦ r | _ ↦ none ]

module _ (os : Os) {W : Type 0} where
  -- The function that a message is for: the one it brings, or that of its topic on its channel.
  unfoldable pub handler : Libc Node → MBus W → Msg → Ptr
  handler libc b m =
      if m.chann_id == mbus_call_group_id
      then m.body
      else (elim (get_elem? b.chann_array m.chann_id) [
        | none ↦ null
        | some c ↦ elim (b.topic_lists c.topic_list) [
          | none ↦ null
          | some l ↦ callback_at l (found os libc l m.body)
        ]
      ])

  -- A message that brings its function, or one to a channel with a well-formed topic list.
  abbrev pub IsRoutable : MBus W → Msg → Type 0
  IsRoutable b m =
      (m.chann_id ≡ mbus_call_group_id)
      ⊎ ((m.chann_id ≢ mbus_call_group_id)
          × ((c : Chann) × (l : KvList Topic) × (get_elem? b.chann_array m.chann_id ≡ some c)
              × (b.topic_lists c.topic_list ≡ some l)
              × IsValid os l))

module _ {os : Os} (sem : IsSemaphore os) {libc : Libc Node} (lib : IsBsearch compare_node_key libc)
    {W : Type 0} {callbacks : Callbacks W} {step : (fn p_data : Ptr) (value : ℕ) → W → W}
    (passive : IsPassive callbacks step) where
  -- The consumption of a message calls the function that it is for, and changes nothing else.
  pub mbus_consume_message_lem :
      (b : MBus W) (m : Msg)
      → IsRoutable os b m
      → mbus_consume_message os libc callbacks m b
        ≡ ok tt (record b { world = called step (handler os libc b m) m b.world })
  unfolding mbus_consume_message called handler found
  mbus_consume_message_lem b m (inl call) =
      let run = passive.runs m.body m.data_ptr m.value b in ground (arith, run)
  mbus_consume_message_lem b m (inr (ne, (c, l, at, list, v))) =
      let (r, run, hit) = kv_list_search_lem sem lib m.body v in
      let search = search_run sem lib passive b c.topic_list l m.body r list run in
      let notified = notify_run sem lib passive b m c l r at list v hit search in
      let same : found os libc l m.body ≡ r = ground (arith, run) in
      ground (arith, notified, at, list, same)
