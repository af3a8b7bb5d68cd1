-- ===== src/MsgBus/Tests.antt =====
-- The theorems on a bus with one channel, number 0, with one topic, 7, and a queue of two nodes.
mod Quiet
use cc2745_repo.Prelude.{
  ℕ, zero, suc, ◌≤◌, ◌≡◌, ◌≢◌, ◌⊎◌, inl, inr, refl, Bool, true, false, not, ◌&&◌, ◌||◌, ◌==◌,
  if◌then◌else◌, Option, none, some, List, [], ◌∷◌, total, arith, ok, fault,
}
use cc2745_repo.Hal.Mutex
use cc2745_repo.Libc.{IsBsearch}
use cc2745_repo.Libc.Models.{counter, counter-IsSemaphore, simple_libc, simple_libc-IsBsearch}
use cc2745_repo.Links.{Ptr, null}
use cc2745_repo.Links.Chain.{has}
use cc2745_repo.LinkedList.State.{LinkedList, align_up}
use cc2745_repo.LinkedList.Heap.{IsMalloc}
use cc2745_repo.KvList.State.{KvList}
use cc2745_repo.KvList.{compare_node_key, kv_list_search}
use cc2745_repo.KvList.Valid.{owns, IsValid}
use cc2745_repo.MsgBus.State.{Topic, Chann, Msg, Callbacks, mbus_call_group_id, MBus}
use cc2745_repo.MsgBus.{
  topic_at, mbus_init, mbus_register_topic, mbus_produce_message, mbus_produce_call,
  mbus_consume_call,
}
use cc2745_repo.MsgBus.Init.{mbus_init_unbound}
use cc2745_repo.MsgBus.Deliver.{IsPassive, IsRoutable, handler, called, callback_at, found}
use cc2745_repo.MsgBus.Queue.{Pending, NoMemory, message, mbus_produce_lem}
use cc2745_repo.KvList.Search.{IsHit}
use cc2745_repo.MsgBus.RoundTrip.{mbus_round_trip}
use cc2745_repo.MsgBus.Consume.{deliver_all, mbus_consume_call_lem}

-- The rest of the program's state is the list of the calls so far.
abbrev pub Call : Type 0
Call = Ptr × Ptr × ℕ

abbrev step : (fn p_data : Ptr) (value : ℕ) → List Call → List Call
step fn p_data value calls = (fn, p_data, value) ∷ calls

pub callbacks : Callbacks (List Call)
callbacks fn p_data value b = ok tt (record b { world = step fn p_data value b.world })

pub callbacks-IsPassive : IsPassive callbacks step
unfolding callbacks
callbacks-IsPassive = record { runs = λ fn p_data value b. refl }

pub simple-IsBsearch : IsBsearch compare_node_key simple_libc
simple-IsBsearch = simple_libc-IsBsearch compare_node_key

abbrev topics : KvList Topic
topics = record {
  count = 1;
  depth = 1;
  node_array = record { valid = true; key = 7; data_ptr = some 0 } ∷ [];
  data_array = record { id = 7; name = null; callback = 5000 } ∷ [];
  mutex = 1;
  sorted = false;
}

topics_distinct : (d : ℕ) → total (owns d) topics.node_array ≤ 1
topics_distinct d = ground arith

topics-IsValid : IsValid counter topics
unfolding counter Mutex.init
topics-IsValid = record {
  table = record { size = refl; bound = refl; distinct = topics_distinct };
  slots = refl;
  counted = refl;
  ordered = λ e. absurd (cc);
  unlocked = refl;
}

abbrev channs : List Chann
channs = record { id = 0; name = null; topic_list = 9000 } ∷ []

abbrev first_msg : Msg
first_msg = message 0 7 300 1

abbrev second_msg : Msg
second_msg = message mbus_call_group_id 6000 400 2

abbrev pub queue : LinkedList Msg
queue = record {
  links = record {
    live = λ p. (p == 100) || (p == 200);
    next = λ p. if p == 100 then 200 else null;
    prev = λ p. if p == 200 then 100 else null;
    head = 100;
    tail = 200;
  };
  opt = λ p. 0;
  data_ptr = λ p. if p == 100 then 116 else 216;
  store = λ p. if p == 116 then first_msg else second_msg;
  array_based = false;
  count = 2;
  width = 0;
  depth = 0;
  node_array = null;
  data_array = null;
  mutex = 1;
  sorted = false;
  last_slot_index = 0;
}

abbrev pub bus : MBus (List Call)
bus = record {
  chann_array = channs;
  chann_count = 1;
  msg_queue = queue;
  event = 0;
  topic_lists = λ p. if p == 9000 then some topics else none;
  world = [];
}

bus_pending : Pending counter bus (first_msg ∷ second_msg ∷ [])
unfolding counter Mutex.init align_up
bus_pending = record {
  nodes = 100 ∷ 200 ∷ [];
  holds = record {
    list = record {
      head = refl;
      tail = refl;
      chain = (omega arith, refl, refl, refl, refl, (omega arith, refl, refl, refl, refl, tt));
    };
    count = refl;
    unlocked = refl;
  };
  carries = (refl, refl, (refl, refl, tt));
  heap = refl;
}

-- One block of memory, at 300, which is given to whoever comes first.
pub malloc : (Ptr → Bool) → ℕ → Option Ptr
malloc live size = if live 300 then none else some 300

malloc_fresh :
    (live : Ptr → Bool) (size : ℕ) (p : Ptr)
    → malloc live size ≡ some p
    → (p ≢ null) × (live p ≡ false)
unfolding malloc
malloc_fresh live size p e = ground arith

pub malloc-IsMalloc : IsMalloc malloc
malloc-IsMalloc = record { fresh = λ e. malloc_fresh _ _ _ e }

mbus_init_unbound_example :
    (b' : MBus (List Call)) × (mbus_init counter channs 1 (record bus { chann_array = [] })
      ≡ ok tt b')
    × Pending counter b' []
    × (b'.chann_array ≡ [])
    × (mbus_register_topic counter 0 (record { id = 8; name = null; callback = 5500 }) b' ≡ fault)
mbus_init_unbound_example =
    mbus_init_unbound counter channs (record bus { chann_array = [] }) 0
      (record { id = 8; name = null; callback = 5500 }) ((topics, refl), tt) refl refl

mbus_produce_lem_example :
    ((NoMemory malloc bus × (mbus_produce_message counter malloc 0 7 500 3 bus ≡ ok tt bus))
      ⊎ ((q : LinkedList Msg) × (mbus_produce_message counter malloc 0 7 500 3 bus
            ≡ ok tt (record bus { msg_queue = q }))
          × Pending counter
              (record bus { msg_queue = q })
              (first_msg ∷ second_msg ∷ message 0 7 500 3 ∷ [])))
    × ((NoMemory malloc bus × (mbus_produce_call counter malloc 7 500 3 bus ≡ ok tt bus))
        ⊎ ((q : LinkedList Msg) × (mbus_produce_call counter malloc 7 500 3 bus
              ≡ ok tt (record bus { msg_queue = q }))
            × Pending counter
                (record bus { msg_queue = q })
                (first_msg ∷ second_msg ∷ message mbus_call_group_id 7 500 3 ∷ [])))
mbus_produce_lem_example =
    mbus_produce_lem counter-IsSemaphore malloc-IsMalloc bus 0 7 500 3 bus_pending

first_msg-IsRoutable : IsRoutable counter bus first_msg
first_msg-IsRoutable = inr (omega arith, (_, topics, refl, refl, topics-IsValid))

mbus_consume_call_lem_example :
    (q : LinkedList Msg) × (mbus_consume_call counter 3 simple_libc callbacks bus
      ≡ ok tt (record bus {
        msg_queue = q;
        world = deliver_all step (handler counter simple_libc bus) (first_msg ∷ second_msg ∷ []) [];
      }))
    × Pending counter (record bus { msg_queue = q }) []
    × (q.links.live ≡ (λ a. queue.links.live a && not (has a bus_pending.nodes)))
mbus_consume_call_lem_example =
    mbus_consume_call_lem counter-IsSemaphore simple-IsBsearch callbacks-IsPassive 3 bus
      (first_msg ∷ second_msg ∷ []) bus_pending (first_msg-IsRoutable, (inl refl, tt)) (omega arith)

-- The topic's callback is called first, then the function that the second message brings.
delivered :
    deliver_all step (handler counter simple_libc bus) (first_msg ∷ second_msg ∷ []) []
    ≡ (6000, 400, 2) ∷ (5000, 300, 1) ∷ []
unfolding handler called callback_at found topic_at kv_list_search counter simple_libc Mutex.lock
    Mutex.unlock
delivered = refl
