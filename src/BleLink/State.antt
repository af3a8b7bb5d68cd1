-- ===== src/BleLink/State.antt =====
-- The types of ble_link.h, what static storage and `memset` give them, and the link that is added.
use cc2745_repo.Prelude.{ℕ, ◌==◌, if◌then◌else◌, Bool, false, List, take, replicate}
use cc2745_repo.KvList.State.{def_static, KvList}

abbrev pub ble_link_max : ℕ
ble_link_max = 4

abbrev pub app_mtu_default : ℕ
app_mtu_default = 244

pub record LinkParam : Type 0 where
  pub is_peer_central : ℕ
  pub peer_addr_type : ℕ
  pub peer_adv_addr_le : List ℕ
  pub peer_mac_addr_le : List ℕ
  pub irk : List ℕ
  pub conn_timestamp : ℕ
  pub app_mtu : ℕ
  pub phy_type : ℕ
  pub llcp_interval : ℕ
  pub llcp_timeout : ℕ
  pub llcp_latency : ℕ
  pub ltk : List ℕ
  pub rx_count : ℕ
  pub tx_count : ℕ

pub record LinkState : Type 0 where
  pub cccd_enabled : List Bool
  pub l2cap_established : Bool
  pub bonding_flag : Bool
  pub use_oob_flag : Bool
  pub disconn_ongoing : Bool
  pub phy_proc_ongoing : Bool
  pub llcp_proc_ongoing : Bool
  pub mtu_proc_ongoing : Bool
  pub pair_proc_ongoing : Bool
  pub encr_proc_ongoing : Bool
  pub bond_proc_ongoing : Bool
  pub phy_proc_done : Bool
  pub llcp_proc_done : Bool
  pub mtu_proc_done : Bool
  pub pair_proc_done : Bool
  pub encr_proc_done : Bool
  pub bond_proc_done : Bool

pub record Link : Type 0 where
  pub handle : ℕ
  pub param : LinkParam
  pub state : LinkState

pub record BleLinks : Type 0 where
  pub m_link_list : KvList Link
  pub is_inited : Bool

-- What `memset` leaves.
abbrev pub zero_param : LinkParam
zero_param = record {
  is_peer_central = 0;
  peer_addr_type = 0;
  peer_adv_addr_le = replicate 6 0;
  peer_mac_addr_le = replicate 6 0;
  irk = replicate 16 0;
  conn_timestamp = 0;
  app_mtu = 0;
  phy_type = 0;
  llcp_interval = 0;
  llcp_timeout = 0;
  llcp_latency = 0;
  ltk = replicate 16 0;
  rx_count = 0;
  tx_count = 0;
}

abbrev pub zero_state : LinkState
zero_state = record {
  cccd_enabled = replicate 4 false;
  l2cap_established = false;
  bonding_flag = false;
  use_oob_flag = false;
  disconn_ongoing = false;
  phy_proc_ongoing = false;
  llcp_proc_ongoing = false;
  mtu_proc_ongoing = false;
  pair_proc_ongoing = false;
  encr_proc_ongoing = false;
  bond_proc_ongoing = false;
  phy_proc_done = false;
  llcp_proc_done = false;
  mtu_proc_done = false;
  pair_proc_done = false;
  encr_proc_done = false;
  bond_proc_done = false;
}

abbrev pub zero_link : Link
zero_link = record { handle = 0; param = zero_param; state = zero_state }

unfoldable pub static_links : BleLinks
static_links = record { m_link_list = def_static zero_link ble_link_max; is_inited = false }

-- The link that `ble_link_add` copies into the table. The `bool` becomes 0 or 1.
unfoldable pub new_link : (handle is_peer_central addr_type : ℕ) → List ℕ → (now : ℕ) → Link
new_link handle is_peer_central addr_type p_adv_addr now = record {
  handle = handle;
  param = record zero_param {
    app_mtu = app_mtu_default;
    is_peer_central = (if is_peer_central == 0 then 0 else 1);
    peer_addr_type = addr_type;
    conn_timestamp = now;
    peer_adv_addr_le = take 6 p_adv_addr;
  };
  state = zero_state;
}
