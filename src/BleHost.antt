-- ===== src/BleHost.antt =====
-- ccs_project/src/module/ble/host/ble_host_event_handler.c, compiled for channel sounding: the
-- events of a connection, on the table of links. Calls of the vendor's stack are kept in `calls`,
-- and what it answers may depend on all of them; `now` is the time that a new link is given.
pub mod Events
pub mod RoundTrip
mod Tests
use cc2745_repo.Prelude.{
  ℕ, Bool, true, false, Option, none, some, List, [], ◌∷◌, ◌++◌, ltb, ◌==◌, if◌then◌else◌, Run, ok,
  fault, blocked, out_of_fuel, Cmd, pure, modify, ◌>>=◌, ◌>>◌, Os,
}
use cc2745_repo.Libc.{Libc}
use cc2745_repo.KvList.State.{Node}
use cc2745_repo.BleLink.State.{Link, BleLinks}
use cc2745_repo.BleLink.{ble_link_add, ble_link_get, ble_link_remove, read_link}

pub data HostCall : Type 0 where
  gatt_exchange_mtu : ℕ → HostCall
  adv_start : HostCall
  adv_stop : HostCall
  param_update_rsp : HostCall
  passcode_rsp : ℕ → HostCall
  cs_security_enable : ℕ → HostCall

pub record Host : Type 0 where
  pub links : BleLinks
  pub calls : List HostCall

pub record ConnEvent : Type 0 where
  pub connection_handle : ℕ
  pub conn_role : ℕ
  pub dev_addr_type : ℕ
  pub dev_addr : List ℕ

pub data GapEvent : Type 0 where
  link_established : ConnEvent → GapEvent
  link_terminated : ℕ → GapEvent
  link_param_update_req : GapEvent
  link_param_update : GapEvent
  other_gap : GapEvent

pub data PairEvent : Type 0 where
  pairing_started : PairEvent
  pairing_complete : PairEvent
  pairing_encrypted : PairEvent
  pairing_bond_saved : PairEvent
  other_pairing : PairEvent

pub data GattMethod : Type 0 where
  att_flow_ctrl_violated att_mtu_updated other_gatt : GattMethod

pub data HciEvent : Type 0 where
  hci_command_status hci_le other_hci : HciEvent

on_table : {A : Type 0} → Run BleLinks A → Cmd Host A
on_table (ok a k) s = ok a (record s { links = k })
on_table fault s = fault
on_table blocked s = blocked
on_table out_of_fuel s = out_of_fuel

lift : {A : Type 0} → Cmd BleLinks A → Cmd Host A
unfolding on_table
lift c s = on_table (c s.links) s

abbrev pub send : HostCall → Cmd Host (Unit {0})
send c = modify (λ s. record s { calls = s.calls ++ c ∷ [] })

module _ (os : Os) (libc : Libc Node) (num_active num_conns : List HostCall → ℕ) where
  -- Advertising goes on while the stack has room for another connection.
  unfoldable pub advertise : Cmd Host (Unit {0})
  advertise s =
      if ltb (num_active s.calls) (num_conns s.calls) then send adv_start s else send adv_stop s

  unfoldable pub on_established : ConnEvent → (now : ℕ) → Cmd Host (Unit {0})
  unfolding lift advertise
  on_established ev now = do
    p_link ←
        lift
          (ble_link_add os libc ev.connection_handle ev.conn_role ev.dev_addr_type ev.dev_addr now)
    send (gatt_exchange_mtu ev.connection_handle)
    advertise

  unfoldable pub on_terminated : ℕ → Cmd Host (Unit {0})
  unfolding lift
  on_terminated handle = do lift (ble_link_remove os libc handle); send adv_start

  unfoldable pub gap_conn_handler : GapEvent → (now : ℕ) → Cmd Host (Unit {0})
  unfolding on_established on_terminated
  gap_conn_handler (link_established ev) now = on_established ev now
  gap_conn_handler (link_terminated handle) now = on_terminated handle
  gap_conn_handler link_param_update_req now = send param_update_rsp
  gap_conn_handler link_param_update now = pure tt
  gap_conn_handler other_gap now = pure tt

  unfoldable pub passcode_handler : ℕ → Cmd Host (Unit {0})
  passcode_handler handle = send (passcode_rsp handle)

  -- The security of channel sounding is enabled towards a peer that is the central.
  unfoldable pub enable_security : ℕ → Option ℕ → Cmd Host (Unit {0})
  unfolding lift
  enable_security handle p_link = do
    link ← lift (read_link p_link)
    (λ s. if link.param.is_peer_central == 0 then ok tt s else send (cs_security_enable handle) s)

  unfoldable pub pair_state_handler : PairEvent → ℕ → Cmd Host (Unit {0})
  unfolding lift enable_security
  pair_state_handler pairing_complete handle = do
    p_link ← lift (ble_link_get os libc handle)
    enable_security handle p_link
  pair_state_handler pairing_encrypted handle = do
    p_link ← lift (ble_link_get os libc handle)
    enable_security handle p_link
  pair_state_handler _ handle = do p_link ← lift (ble_link_get os libc handle); pure tt

-- The handlers whose branches are all empty.
unfoldable pub gatt_handler : GattMethod → Cmd Host (Unit {0})
gatt_handler method = pure tt

unfoldable pub hci_gap_handler : HciEvent → Cmd Host (Unit {0})
hci_gap_handler event = pure tt

unfoldable pub l2cap_data_handler : Cmd Host (Unit {0})
l2cap_data_handler = pure tt

unfoldable pub l2cap_signal_handler : Cmd Host (Unit {0})
l2cap_signal_handler = pure tt
