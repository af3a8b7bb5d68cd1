-- ===== src/BleStart/Info.antt =====
-- The two copies of the device's data, through any history of the start.
use cc2745_repo.Prelude.{ℕ, ◌≡◌, refl, List, [], replicate, Option-cases, inl, inr, arith, ok}
use cc2745_repo.Links.{null}
use cc2745_repo.BleAdv.{Stack, ble_adv_init, ble_adv_start}
use cc2745_repo.BleCs.State.{static_cs}
use cc2745_repo.BleStart.{
  zero_info, Config, Host, ble_task_init, take_bytes, copy_address, register_all, stack_init_done,
}

-- Static storage.
abbrev pub static_host : Host
static_host = record {
  task_info = zero_info;
  host_info = zero_info;
  cs = static_cs;
  adv = record { m_adv_handles = []; calls = [] };
  scan = [];
  calls = [];
}

module _ (config : Config) (stack : Stack) where
  -- The task starts, and the stack calls back with the memory of two addresses.
  pub data Step (s : Host) : Host → Type 0 where
    starts : Step s (ble_task_init config s)
    reports :
        {s' : Host} (dev_addr adv_addr : List ℕ)
        → stack_init_done stack dev_addr adv_addr s ≡ ok tt s'
        → Step s s'

  pub data Reach : Host → Type 0 where
    start : Reach static_host
    next : {s s' : Host} → Reach s → Step s s' → Reach s'

-- The copy of ble_task.c has no address, and that of ble_host_init.c has nothing else.
pub record IsSplit (s : Host) : Type 0 where
  pub no_mac : s.task_info.mac_addr_le ≡ replicate 6 0
  pub no_adv : s.task_info.adv_addr_le ≡ replicate 6 0
  pub no_name : s.host_info.device_name ≡ null
  pub no_length : s.host_info.device_name_len ≡ 0
  pub no_type : s.host_info.addr_type ≡ 0

reports-IsSplit :
    (stack : Stack) (dev_addr adv_addr : List ℕ) (s s' : Host)
    → stack_init_done stack dev_addr adv_addr s ≡ ok tt s'
    → IsSplit s
    → IsSplit s'
unfolding stack_init_done copy_address register_all ble_adv_init ble_adv_start
reports-IsSplit stack dev_addr adv_addr s s' e split = elim (Option-cases (take_bytes 6 dev_addr)) [
  | inl short ↦ absurd (ground arith)
  | inr (mac, first) ↦ elim (Option-cases (take_bytes 6 adv_addr)) [
    | inl short ↦ absurd (ground arith)
    | inr (adv, second) ↦ ground (arith, split)
  ]
]

-- However often the task starts and the stack reports, in whatever order and with whatever
-- addresses, the copy of the device's data in ble_task.c never has an address, and the copy in
-- ble_host_init.c never has the name, its length, or the address type.
pub Reach-IsSplit : {config : Config} {stack : Stack} {s : Host} → Reach config stack s → IsSplit s
unfolding ble_task_init
Reach-IsSplit start = record {
  no_mac = refl;
  no_adv = refl;
  no_name = refl;
  no_length = refl;
  no_type = refl;
}
Reach-IsSplit (next r starts) =
    let split = Reach-IsSplit r in
    record {
      no_mac = refl;
      no_adv = refl;
      no_name = split.no_name;
      no_length = split.no_length;
      no_type = split.no_type;
    }
Reach-IsSplit {stack} (next {s} {s'} r (reports dev_addr adv_addr e)) =
    reports-IsSplit stack dev_addr adv_addr s s' e (Reach-IsSplit r)
