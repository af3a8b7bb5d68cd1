-- ===== src/BleScan.antt =====
-- ccs_project/src/module/ble/adv_scan/ble_scan.c: what it asks the vendor's stack for. Its handler
-- of events has empty branches only. The parameters of a scan are those of the generated
-- configuration.
use cc2745_repo.Prelude.{ℕ, List, ◌∷◌}

-- `start_scan` has the period, the duration and the number of reports.
pub data ScanCall : Type 0 where
  register_event_handler init_scan set_conn_params stop_scan : ScanCall
  start_scan : (period duration max_reports : ℕ) → ScanCall

pub data ScanEvent : Type 0 where
  scan_enabled scan_disabled other_event : ScanEvent

-- The calls so far, newest first.
abbrev pub Scan : Type 0
Scan = List ScanCall

unfoldable pub scan_event_handler : ScanEvent → Scan → Scan
scan_event_handler event s = s

unfoldable pub ble_scan_init : Scan → Scan
ble_scan_init s = set_conn_params ∷ init_scan ∷ register_event_handler ∷ s

unfoldable pub ble_scan_start : Scan → Scan
ble_scan_start s = start_scan 40 0 10 ∷ s

unfoldable pub ble_scan_stop : Scan → Scan
ble_scan_stop s = stop_scan ∷ s
