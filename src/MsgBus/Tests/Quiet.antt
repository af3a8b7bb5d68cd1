-- ===== src/MsgBus/Tests/Quiet.antt =====
-- The round trip on a bus with nothing in its queue and room for a second topic.
use cc2745_repo.Prelude.{
  ℕ, zero, suc, ◌≤◌, ◌≡◌, refl, true, false, ◌==◌, if◌then◌else◌, none, some, List, [], ◌∷◌, total,
  arith, ok,
}
use cc2745_repo.Hal.Mutex
use cc2745_repo.Libc.Models.{counter, counter-IsSemaphore, simple_libc}
use cc2745_repo.Links.{null}
use cc2745_repo.LinkedList.State.{LinkedList}
use cc2745_repo.KvList.State.{KvList}
use cc2745_repo.KvList.Valid.{owns, IsValid}
use cc2745_repo.MsgBus.State.{Topic, Msg, MBus}
use cc2745_repo.MsgBus.{mbus_register_topic, mbus_produce_message, mbus_consume_call}
use cc2745_repo.MsgBus.Queue.{Pending, NoMemory}
use cc2745_repo.KvList.Search.{IsHit}
use cc2745_repo.MsgBus.RoundTrip.{mbus_round_trip}
use cc2745_repo.MsgBus.Tests.{
  Call, callbacks, callbacks-IsPassive, simple-IsBsearch, queue, bus, malloc, malloc-IsMalloc,
}

-- A topic list with room for a second topic, and a bus with nothing in its queue.
abbrev roomy : KvList Topic
roomy = record {
  count = 1;
  depth = 2;
  node_array =
      record { valid = true; key = 7; data_ptr = some 0 }
      ∷ record { valid = false; key = 0; data_ptr = some 1 }
      ∷ [];
  data_array =
      record { id = 7; name = null; callback = 5000 }
      ∷ record { id = 0; name = null; callback = 0 }
      ∷ [];
  mutex = 1;
  sorted = false;
}

roomy_distinct : (d : ℕ) → total (owns d) roomy.node_array ≤ 1
roomy_distinct d = ground arith

roomy-IsValid : IsValid counter roomy
unfolding counter Mutex.init
roomy-IsValid = record {
  table = record { size = refl; bound = refl; distinct = roomy_distinct };
  slots = refl;
  counted = refl;
  ordered = λ e. absurd (cc);
  unlocked = refl;
}

roomy_unused : IsHit 8 roomy.node_array none
roomy_unused zero n at used = ground arith
roomy_unused (suc zero) n at used = ground arith
roomy_unused (suc (suc i)) n at used = absurd (cc)

abbrev quiet_queue : LinkedList Msg
quiet_queue = record queue {
  links = record {
    live = λ p. false;
    next = λ p. null;
    prev = λ p. null;
    head = null;
    tail = null;
  };
  count = 0;
}

abbrev quiet : MBus (List Call)
quiet = record bus {
  msg_queue = quiet_queue;
  topic_lists = λ p. if p == 9000 then some roomy else none;
}

quiet_pending : Pending counter quiet []
unfolding counter Mutex.init
quiet_pending = record {
  nodes = [];
  holds = record {
    list = record { head = refl; tail = refl; chain = tt };
    count = refl;
    unlocked = refl;
  };
  carries = tt;
  heap = refl;
}

quiet_memory : ¬ NoMemory malloc quiet
unfolding malloc
quiet_memory e = absurd (cc)

mbus_round_trip_example :
    (b1 : MBus (List Call)) × (b2 : MBus (List Call)) × (b3 : MBus (List Call))
    × (mbus_register_topic counter 0 (record { id = 8; name = null; callback = 5500 }) quiet
        ≡ ok tt b1)
    × (mbus_produce_message counter malloc 0 8 300 1 b1 ≡ ok tt b2)
    × (mbus_consume_call counter 2 simple_libc callbacks b2 ≡ ok tt b3)
    × (b3.world ≡ (5500, 300, 1) ∷ [])
    × Pending counter b3 []
mbus_round_trip_example =
    mbus_round_trip counter-IsSemaphore simple-IsBsearch callbacks-IsPassive malloc-IsMalloc quiet 0
      300 1 (record { id = 8; name = null; callback = 5500 })
      (record { id = 0; name = null; topic_list = 9000 }) roomy quiet_pending quiet_memory
      (omega arith) refl refl roomy-IsValid (omega arith) roomy_unused (omega arith)
