-- ===== src/BleAdv.antt =====
-- ccs_project/src/module/ble/adv_scan/ble_adv.c: the advertising sets. The vendor's stack and the
-- generated configuration are a parameter.
pub mod Sets
mod Tests
use cc2745_repo.Prelude.{
  ℕ, zero, suc, ◌+◌, ◌%◌, ◌^◌, Bool, true, false, Option, none, some, List, [], ◌∷◌, get_elem?,
  length, ◌==◌, if◌then◌else◌, ok, fault, Cmd, pure, ◌>>=◌, ◌>>◌,
}
use cc2745_repo.Links.{Ptr}

-- The calls of the stack, with the handles as they are in the array.
pub data AdvCall : Type 0 where
  register_event_handler : AdvCall
  init_adv_sets : AdvCall
  start_adv_sets : (handles : List ℕ) → (count : ℕ) → AdvCall
  stop_adv_sets : (handles : List ℕ) → (count : ℕ) → AdvCall
  prepare_load_by_handle : (handle : ℕ) → AdvCall
  load_by_handle : (handle len : ℕ) → (p_data : Ptr) → AdvCall

-- `sets` is what the initialisation of the sets stores, `status` what the stack answers to a call
-- after the calls before it; SUCCESS is 0. `adv_data1` is the data of the configuration.
pub record Stack : Type 0 where
  pub sets : List ℕ
  pub status : List AdvCall → AdvCall → ℕ
  pub adv_data1 : Ptr
  pub adv_data1_len : ℕ

-- `calls` is newest first.
pub record Adv : Type 0 where
  pub m_adv_handles : List ℕ
  pub calls : List AdvCall

-- What the handler of events tells the log, its only effect.
pub data AdvLog : Type 0 where
  handle_not_found : AdvLog
  adv_started : (set_id : ℕ) → AdvLog
  adv_stopped : (set_id : ℕ) → AdvLog

pub data AdvEvent : Type 0 where
  start_after_enable end_after_disable other_event : AdvEvent

abbrev pub no_set_id : ℕ
no_set_id = 0xff

-- The loop from index `i` on, a `uint8_t`.
unfoldable pub find_set : (adv_handle i : ℕ) → List ℕ → ℕ
find_set adv_handle i [] = no_set_id
find_set adv_handle i (h ∷ hs) =
    let rest = find_set adv_handle ((i + 1) % 2 ^ 8) hs in if h == adv_handle then i else rest

unfoldable pub get_adv_set_id : ℕ → Adv → ℕ
unfolding find_set
get_adv_set_id adv_handle s = find_set adv_handle 0 s.m_adv_handles

log_event : AdvEvent → (set_id : ℕ) → Option AdvLog
log_event start_after_enable set_id = some (adv_started set_id)
log_event end_after_disable set_id = some (adv_stopped set_id)
log_event other_event set_id = none

unfoldable pub adv_event_handler : AdvEvent → (adv_handle : ℕ) → Adv → Option AdvLog
unfolding log_event get_adv_set_id
adv_event_handler event adv_handle s =
    if get_adv_set_id adv_handle s == no_set_id
    then some handle_not_found
    else log_event event (get_adv_set_id adv_handle s)

module _ (stack : Stack) where
  call : AdvCall → Cmd Adv ℕ
  call c s = ok (stack.status s.calls c) (record s { calls = c ∷ s.calls })

  unfoldable pub ble_adv_init : Cmd Adv (Unit {0})
  ble_adv_init s = ok tt (record s {
    m_adv_handles = stack.sets;
    calls = init_adv_sets ∷ register_event_handler ∷ s.calls;
  })

  unfoldable pub ble_adv_start : Cmd Adv (Unit {0})
  unfolding call
  ble_adv_start s = (call (start_adv_sets s.m_adv_handles (length s.m_adv_handles)) >> pure tt) s

  unfoldable pub ble_adv_stop : Cmd Adv (Unit {0})
  unfolding call
  ble_adv_stop s = (call (stop_adv_sets s.m_adv_handles (length s.m_adv_handles)) >> pure tt) s

  load_set : (handle status : ℕ) → Cmd Adv (Unit {0})
  unfolding call
  load_set handle status =
      if status == 0
      then call (load_by_handle handle stack.adv_data1_len stack.adv_data1) >> pure tt
      else pure tt

  unfoldable pub ble_adv_update : (set_id : ℕ) → (p_data : Ptr) → (len : ℕ) → Cmd Adv (Unit {0})
  unfolding call load_set
  ble_adv_update set_id p_data len s = elim (get_elem? s.m_adv_handles set_id) [
    | none ↦ fault
    | some handle ↦ (call (prepare_load_by_handle handle) >>= load_set handle) s
  ]
