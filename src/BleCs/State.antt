-- ===== src/BleCs/State.antt =====
-- The data of channel sounding: the events, the stack's calls and answers, and the static variables
-- of ble_cs_event_handler.c and ble_cs.c, which ble_cs_init sets.
use cc2745_repo.Prelude.{ℕ, ◌-◌, ◌^◌, Bool, false, Option, List, [], ◌∷◌, ◌++◌, replicate}

abbrev pub max_num_ble_conns : ℕ
max_num_ble_conns = 4

abbrev pub invalid_procedure_counter : ℕ
invalid_procedure_counter = 2 ^ 32 - 1

pub record ProcEnable : Type 0 where
  pub cs_status : ℕ
  pub conn_handle : ℕ
  pub aci : ℕ

-- A subevent's results, and those of a continuation. `body` is what the code only passes on.
pub record SubeventResults : Type 0 where
  pub conn_handle : ℕ
  pub config_id : ℕ
  pub procedure_counter : ℕ
  pub reference_power_level : ℕ
  pub procedure_done_status : ℕ
  pub body : List ℕ

pub record ContinueResults : Type 0 where
  pub conn_handle : ℕ
  pub procedure_done_status : ℕ
  pub data_len : ℕ
  pub body : List ℕ

pub record RangingHeader : Type 0 where
  pub antenna_paths_mask : ℕ
  pub config_id : ℕ
  pub ranging_counter : ℕ
  pub selected_tx_power : ℕ

-- The calls of the stack that change its state.
pub data Call : Type 0 where
  procedure_started : (conn_handle counter : ℕ) → RangingHeader → Call
  add_subevent_result : SubeventResults → Call
  add_continue_result : ContinueResults → Call
  procedure_done : (conn_handle counter : ℕ) → Call
  set_default_settings : Call
  register_event_handler register_cs_cb : Call
  rrsp_start : (mode : ℕ) → Call
  icall_malloc : ℕ → Call
  icall_free : Option ℕ → Call

-- The stack's constants and answers. `SUCCESS` and `FAILURE` are different numbers.
pub record Stack : Type 0 where
  pub success : ℕ
  pub failure : ℕ
  pub invalid_parameter : ℕ
  pub unregister : ℕ
  pub done : ℕ
  pub aborted : ℕ
  pub cs_event_code : ℕ
  pub continue_size : ℕ
  pub registration_status : List Call → ℕ → ℕ
  pub calc_ant_paths_mask : ℕ → ℕ
  pub status : List Call → Call → ℕ
  pub malloc : List Call → ℕ → Option ℕ

-- The message that the handler gets, by its opcode.
pub data CsEvent : Type 0 where
  read_remote_capabilities_complete : CsEvent
  config_complete : CsEvent
  read_remote_fae_table_complete : CsEvent
  security_enable_complete : CsEvent
  procedure_enable_complete : ProcEnable → CsEvent
  subevent_result : SubeventResults → CsEvent
  subevent_continue_result : ContinueResults → CsEvent
  other_event : CsEvent

pub record Cs : Type 0 where
  pub m_proc_counts : List ℕ
  pub m_antenna_paths : List ℕ
  pub m_curr_proc_count : ℕ
  -- The arrays of ble_cs.c.
  pub procedure_counter : List ℕ
  pub procedure_antenna_path : List ℕ
  -- The blocks of the heap that are allocated and not freed.
  pub live : ℕ → Bool
  pub calls : List Call

-- Static storage.
unfoldable pub static_cs : Cs
static_cs = record {
  m_proc_counts = replicate max_num_ble_conns 0;
  m_antenna_paths = replicate max_num_ble_conns 0;
  m_curr_proc_count = invalid_procedure_counter;
  procedure_counter = replicate max_num_ble_conns 0;
  procedure_antenna_path = replicate max_num_ble_conns 0;
  live = λ p. false;
  calls = [];
}

-- CS_REAL_TIME_MODE
abbrev pub cs_real_time_mode : ℕ
cs_real_time_mode = 0

-- The arrays are those of ble_cs.c, which nothing else reads. The handler that is registered is
-- `cs_event_handler`, the callbacks of RRSP_start have empty bodies.
unfoldable pub ble_cs_init : Cs → Cs
ble_cs_init s = record s {
  calls = s.calls ++ register_event_handler ∷ register_cs_cb ∷ rrsp_start cs_real_time_mode ∷ [];
  procedure_counter = replicate max_num_ble_conns (2 ^ 32 - 1);
  procedure_antenna_path = replicate max_num_ble_conns 0;
}
