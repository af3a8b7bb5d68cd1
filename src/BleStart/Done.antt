-- ===== src/BleStart/Done.antt =====
-- What the host has done when the stack reports that it is ready.
use cc2745_repo.Prelude.{
  ℕ, zero, suc, ◌≤◌, ◌<◌, ◌≡◌, ◌⊎◌, inl, inr, refl, none, some, List, [], ◌∷◌, ◌++◌, replicate,
  fault, take, length, arith, ok,
}
use native.Mathlib.Decide.{dec_lt}
use cc2745_repo.BleAdv
use cc2745_repo.BleScan
use cc2745_repo.BleCs.State as BleCs
use cc2745_repo.BleAdv.{Stack, init_adv_sets, start_adv_sets, ble_adv_init, ble_adv_start}
use cc2745_repo.BleScan.{ble_scan_init}
use cc2745_repo.BleCs.State.{ble_cs_init}
use cc2745_repo.BleStart.{
  m_peri_event_cfg, m_hci_event_cfg, m_pair_passcode_event_cfg, m_pair_state_event_cfg,
  m_gatt_event_cfg, m_l2cap_data_event_cfg, m_l2cap_signal_event_cfg, register_event_handler, Host,
  take_bytes, copy_address, register_all, stack_init_done,
}

-- What the start leaves: the host's own copy of the device's data has the first six bytes of both
-- addresses, and nothing else of it, and nothing of the copy of the task, has changed.
pub record Started (stack : Stack) (dev_addr adv_addr : List ℕ) (s s' : Host) : Type 0 where
  pub task_info : s'.task_info ≡ s.task_info
  pub host_info :
      s'.host_info
      ≡ record s.host_info { mac_addr_le = take 6 dev_addr; adv_addr_le = take 6 adv_addr }
  pub handlers :
      s'.calls
      ≡ register_event_handler m_l2cap_signal_event_cfg
        ∷ register_event_handler m_l2cap_data_event_cfg
        ∷ register_event_handler m_gatt_event_cfg
        ∷ register_event_handler m_pair_state_event_cfg
        ∷ register_event_handler m_pair_passcode_event_cfg
        ∷ register_event_handler m_hci_event_cfg
        ∷ register_event_handler m_peri_event_cfg
        ∷ s.calls
  pub cs_calls :
      s'.cs.calls
      ≡ s.cs.calls ++ BleCs.register_event_handler ∷ BleCs.register_cs_cb ∷ BleCs.rrsp_start 0 ∷ []
  pub cs_counters : s'.cs.procedure_counter ≡ replicate 4 0xFFFFFFFF
  pub cs_paths : s'.cs.procedure_antenna_path ≡ replicate 4 0
  pub cs_counts : s'.cs.m_proc_counts ≡ s.cs.m_proc_counts
  pub scan :
      s'.scan
      ≡ BleScan.set_conn_params ∷ BleScan.init_scan ∷ BleScan.register_event_handler ∷ s.scan
  pub adv_handles : s'.adv.m_adv_handles ≡ stack.sets
  pub adv_calls :
      s'.adv.calls
      ≡ start_adv_sets stack.sets (length stack.sets)
        ∷ init_adv_sets
        ∷ BleAdv.register_event_handler
        ∷ s.adv.calls

take_bytes-take : (n : ℕ) (xs : List ℕ) → n ≤ length xs → take_bytes n xs ≡ some (take n xs)
unfolding take_bytes
take_bytes-take zero xs h = refl
take_bytes-take (suc n) [] h = absurd (omega arith)
take_bytes-take (suc n) (x ∷ xs) h = rw (take_bytes-take n xs (omega (arith, h))) refl

copy_address_lem :
    (from : List ℕ) (s : Host) → 6 ≤ length from → copy_address from s ≡ ok (take 6 from) s
unfolding copy_address
copy_address_lem from s h = rw (take_bytes-take 6 from h, copy_address) refl

take_bytes-short : (n : ℕ) (xs : List ℕ) → length xs < n → take_bytes n xs ≡ none
unfolding take_bytes
take_bytes-short zero xs h = absurd (omega arith)
take_bytes-short (suc n) [] h = refl
take_bytes-short (suc n) (x ∷ xs) h = rw (take_bytes-short n xs (omega (arith, h))) refl

copy_address_short : (from : List ℕ) (s : Host) → length from < 6 → copy_address from s ≡ fault
unfolding copy_address
copy_address_short from s h = rw (take_bytes-short 6 from h, copy_address) refl

module _ (stack : Stack) (dev_addr adv_addr : List ℕ) (s : Host) where
  abbrev with_mac : Host
  with_mac = record s { host_info = record (s.host_info) { mac_addr_le = take 6 dev_addr } }

  abbrev done_host : Host
  done_host = record s {
    host_info = record (s.host_info) {
      mac_addr_le = take 6 dev_addr;
      adv_addr_le = take 6 adv_addr;
    };
    calls =
        register_event_handler m_l2cap_signal_event_cfg
        ∷ register_event_handler m_l2cap_data_event_cfg
        ∷ register_event_handler m_gatt_event_cfg
        ∷ register_event_handler m_pair_state_event_cfg
        ∷ register_event_handler m_pair_passcode_event_cfg
        ∷ register_event_handler m_hci_event_cfg
        ∷ register_event_handler m_peri_event_cfg
        ∷ s.calls;
    cs = ble_cs_init s.cs;
    scan = ble_scan_init s.scan;
    adv = record {
      m_adv_handles = stack.sets;
      calls =
          start_adv_sets stack.sets (length stack.sets)
          ∷ init_adv_sets
          ∷ BleAdv.register_event_handler
          ∷ s.adv.calls;
    };
  }

  pub started_run :
      6 ≤ length dev_addr
      → 6 ≤ length adv_addr
      → (s' : Host) × (stack_init_done stack dev_addr adv_addr s ≡ ok tt s')
        × Started stack dev_addr adv_addr s s'
  unfolding stack_init_done register_all ble_adv_init ble_adv_start ble_cs_init ble_scan_init
  started_run dev adv = (
    done_host,
    rw (copy_address_lem dev_addr s dev) (rw (copy_address_lem adv_addr with_mac adv) refl),
    record {
      task_info = refl;
      host_info = refl;
      handlers = refl;
      cs_calls = refl;
      cs_counters = refl;
      cs_paths = refl;
      cs_counts = refl;
      scan = refl;
      adv_handles = refl;
      adv_calls = refl;
    },
  )

  short_dev : length dev_addr < 6 → stack_init_done stack dev_addr adv_addr s ≡ fault
  unfolding stack_init_done
  short_dev short = rw (copy_address_short dev_addr s short) refl

  short_adv :
      6 ≤ length dev_addr → length adv_addr < 6 → stack_init_done stack dev_addr adv_addr s ≡ fault
  unfolding stack_init_done
  short_adv dev short =
      rw (copy_address_lem dev_addr s dev) (rw (copy_address_short adv_addr with_mac short) refl)

  -- When the stack reports that it is ready: if the memory of both addresses has six bytes, the
  -- host's own copy of the device's data gets them; the seven handlers of the host are registered,
  -- in their order; for channel sounding, its handler and its callback are registered, the ranging
  -- service is started, and the table of counters that only ble_cs.c has is set, not that of its
  -- event handler; the scan is initialised; advertising is, too, and afterwards the sets that this
  -- gives, not those of before, are started. If the memory of one of the addresses is shorter, the
  -- copy is a fault.
  pub stack_init_done_lem :
      ((s' : Host) × (stack_init_done stack dev_addr adv_addr s ≡ ok tt s')
        × (6 ≤ length dev_addr)
        × (6 ≤ length adv_addr)
        × Started stack dev_addr adv_addr s s')
      ⊎ (((length dev_addr < 6) ⊎ (length adv_addr < 6))
          × (stack_init_done stack dev_addr adv_addr s ≡ fault))
  stack_init_done_lem = elim (dec_lt (length dev_addr) 6) [
    | yes short ↦ inr (inl short, short_dev short)
    | no long ↦ elim (dec_lt (length adv_addr) 6) [
      | yes short ↦ inr (inr short, short_adv (omega (arith, long)) short)
      | no long' ↦
          (let (s', run, started) = started_run (omega (arith, long)) (omega (arith, long')) in
            inl (s', run, omega (arith, long), omega (arith, long'), started))
    ]
  ]
