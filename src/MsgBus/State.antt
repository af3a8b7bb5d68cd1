-- ===== src/MsgBus/State.antt =====
-- The types of lib/msg_bus/msg_bus.h. A function pointer is an address.
use cc2745_repo.Prelude.{ℕ, Option, List, Cmd}
use cc2745_repo.Hal.Event
use cc2745_repo.Links.{Ptr}
use cc2745_repo.LinkedList.State.{LinkedList}
use cc2745_repo.KvList.State.{KvList}

abbrev pub mbus_new_event_id : ℕ
mbus_new_event_id = 1

abbrev pub mbus_call_group_id : ℕ
mbus_call_group_id = 0xff

-- `sizeof(mbus_msg_t)`: four words.
abbrev pub msg_len : ℕ
msg_len = 16

pub record Topic : Type 0 where
  pub id : ℕ
  pub name : Ptr
  pub callback : Ptr

pub record Chann : Type 0 where
  pub id : ℕ
  pub name : Ptr
  pub topic_list : Ptr

-- `body` is the word that `topic_id` and `callback` share.
pub record Msg : Type 0 where
  pub chann_id : ℕ
  pub body : ℕ
  pub data_ptr : Ptr
  pub value : ℕ

-- `mbus_t`, the topic lists at their addresses, and the rest of the program's state, of type `W`.
-- A `chann_array` that is NULL has no entry.
pub record MBus (W : Type 0) : Type 0 where
  pub chann_array : List Chann
  pub chann_count : ℕ
  pub msg_queue : LinkedList Msg
  pub event : Event.Event
  pub topic_lists : Ptr → Option (KvList Topic)
  pub world : W

-- What a call of the function at an address does, with its two arguments.
abbrev pub Callbacks : Type 0 → Type 0
Callbacks W = (fn p_data : Ptr) (value : ℕ) → Cmd (MBus W) (Unit {0})
