-- ===== src/BleStart.antt =====
-- The start of the Bluetooth host: ccs_project/src/module/ble/ble_task.c, host/ble_host_init.c and
-- lib/ble_dev_info.h. The header defines a static variable, so each of the two files that include
-- it has a copy of its own. The stack and the generated configuration are parameters.
pub mod Info
pub mod Done
mod Tests
use cc2745_repo.Prelude.{
  ℕ, zero, suc, ◌+◌, ◌%◌, ◌^◌, Option, none, some, List, [], ◌∷◌, ◌++◌, get_elem?, replicate,
  length, Run, ok, fault, blocked, out_of_fuel, Cmd, pure, modify, ◌>>=◌, ◌>>◌,
}
use cc2745_repo.Links.{Ptr, null}
use cc2745_repo.BleAdv.{Stack, Adv, ble_adv_init, ble_adv_start}
use cc2745_repo.BleScan.{Scan, ble_scan_init}
use cc2745_repo.BleCs.State.{Cs, ble_cs_init}

pub record DevInfo : Type 0 where
  pub device_name_len : ℕ
  pub device_name : Ptr
  pub addr_type : ℕ
  pub adv_addr_le : List ℕ
  pub mac_addr_le : List ℕ
  pub irk : List ℕ

-- All of it zero, as static storage starts and `memset` leaves it.
abbrev pub zero_info : DevInfo
zero_info = record {
  device_name_len = 0;
  device_name = null;
  addr_type = 0;
  adv_addr_le = replicate 6 0;
  mac_addr_le = replicate 6 0;
  irk = replicate 16 0;
}

-- The handlers that are registered, each with the events of its mask.
pub data HandlerType : Type 0 where
  gap_conn hci_gap passcode pair_state gatt l2cap_data l2cap_signal : HandlerType

pub data HostEvent : Type 0 where
  link_established link_param_update_req link_terminated : HostEvent
  hci_command_status hci_le : HostEvent
  pairing_started pairing_complete pairing_encrypted pairing_bond_saved : HostEvent
  att_flow_ctrl_violated att_mtu_updated : HostEvent
  channel_established channel_terminated out_of_credit peer_credit_threshold : HostEvent

pub record EventCfg : Type 0 where
  pub handler_type : HandlerType
  pub event_mask : List HostEvent

abbrev pub m_peri_event_cfg : EventCfg
m_peri_event_cfg = record {
  handler_type = gap_conn;
  event_mask = link_established ∷ link_param_update_req ∷ link_terminated ∷ [];
}

abbrev pub m_hci_event_cfg : EventCfg
m_hci_event_cfg = record { handler_type = hci_gap; event_mask = hci_command_status ∷ hci_le ∷ [] }

abbrev pub m_pair_passcode_event_cfg : EventCfg
m_pair_passcode_event_cfg = record { handler_type = passcode; event_mask = [] }

abbrev pub m_pair_state_event_cfg : EventCfg
m_pair_state_event_cfg = record {
  handler_type = pair_state;
  event_mask = pairing_started ∷ pairing_complete ∷ pairing_encrypted ∷ pairing_bond_saved ∷ [];
}

abbrev pub m_gatt_event_cfg : EventCfg
m_gatt_event_cfg = record {
  handler_type = gatt;
  event_mask = att_flow_ctrl_violated ∷ att_mtu_updated ∷ [];
}

abbrev pub m_l2cap_data_event_cfg : EventCfg
m_l2cap_data_event_cfg = record { handler_type = l2cap_data; event_mask = [] }

abbrev pub m_l2cap_signal_event_cfg : EventCfg
m_l2cap_signal_event_cfg = record {
  handler_type = l2cap_signal;
  event_mask =
      channel_established ∷ channel_terminated ∷ out_of_credit ∷ peer_credit_threshold ∷ [];
}

-- What the configuration gives: the name is a text at an address.
pub record Config : Type 0 where
  pub default_address_mode : ℕ
  pub att_device_name : Ptr
  pub name_chars : List ℕ
  pub profile_role : ℕ
  pub random_address : Ptr
  pub param_update_decision : ℕ

pub record GeneralParams : Type 0 where
  pub task_priority : ℕ
  pub task_stack_size : ℕ
  pub profile_role : ℕ
  pub address_mode : ℕ
  pub device_name_att : Ptr
  pub device_random_address : Ptr

pub data HostCall : Type 0 where
  register_event_handler : EventCfg → HostCall
  init_stack : GeneralParams → (param_update_decision : ℕ) → HostCall

-- The two copies of `g_ble_dev_info`, the state of the modules that are started, and the calls of
-- the stack, newest first.
pub record Host : Type 0 where
  pub task_info : DevInfo
  pub host_info : DevInfo
  pub cs : Cs
  pub adv : Adv
  pub scan : Scan
  pub calls : List HostCall

module _ (config : Config) where
  unfoldable pub init_ble_dev_info : Host → Host
  init_ble_dev_info s = record s {
    task_info = record zero_info {
      addr_type = config.default_address_mode;
      device_name = config.att_device_name;
      device_name_len = length config.name_chars % 2 ^ 8;
    };
  }

  unfoldable pub ble_host_init : Host → Host
  ble_host_init s = record s {
    calls =
        init_stack
          (record {
            task_priority = 1;
            task_stack_size = 1024;
            profile_role = config.profile_role;
            address_mode = config.default_address_mode;
            device_name_att = config.att_device_name;
            device_random_address = config.random_address;
          })
          config.param_update_decision
        ∷ s.calls;
  }

  unfoldable pub ble_task_init : Host → Host
  unfolding init_ble_dev_info ble_host_init
  ble_task_init s = ble_host_init (init_ble_dev_info s)

-- The first `n` bytes of an object.
unfoldable pub take_bytes : (n : ℕ) → List ℕ → Option (List ℕ)
take_bytes zero bytes = some []
take_bytes (suc n) [] = none
take_bytes (suc n) (b ∷ bytes) = elim (take_bytes n bytes) [ none ↦ none | some bs ↦ some (b ∷ bs) ]

unfoldable pub copy_address : List ℕ → Cmd Host (List ℕ)
unfolding take_bytes
copy_address from s = elim (take_bytes 6 from) [ none ↦ fault | some bytes ↦ ok bytes s ]

register : EventCfg → Cmd Host (Unit {0})
register cfg = modify (λ s. record s { calls = register_event_handler cfg ∷ s.calls })

unfoldable pub register_all : Cmd Host (Unit {0})
unfolding register
register_all = do
  register m_peri_event_cfg
  register m_hci_event_cfg
  register m_pair_passcode_event_cfg
  register m_pair_state_event_cfg
  register m_gatt_event_cfg
  register m_l2cap_data_event_cfg
  register m_l2cap_signal_event_cfg

on_adv_result : Run Adv (Unit {0}) → Cmd Host (Unit {0})
on_adv_result (ok a adv) s = ok a (record s { adv = adv })
on_adv_result fault s = fault
on_adv_result blocked s = blocked
on_adv_result out_of_fuel s = out_of_fuel

on_adv : Cmd Adv (Unit {0}) → Cmd Host (Unit {0})
unfolding on_adv_result
on_adv m s = on_adv_result (m s.adv) s

-- `dev_addr` and `adv_addr` are the memory of the address in the event, and of the one that
-- `GAP_GetDevAddress` gives.
unfoldable pub stack_init_done : Stack → (dev_addr adv_addr : List ℕ) → Cmd Host (Unit {0})
unfolding copy_address register_all on_adv ble_cs_init ble_scan_init
stack_init_done stack dev_addr adv_addr = do
  mac ← copy_address dev_addr
  modify (λ s. record s { host_info = record s.host_info { mac_addr_le = mac } })
  adv ← copy_address adv_addr
  modify (λ s. record s { host_info = record s.host_info { adv_addr_le = adv } })
  register_all
  modify (λ s. record s { cs = ble_cs_init s.cs })
  on_adv (ble_adv_init stack)
  modify (λ s. record s { scan = ble_scan_init s.scan })
  on_adv (ble_adv_start stack)
