-- ===== src/BleStart/Tests.antt =====
-- The theorems on the start of the task and one report.
use cc2745_repo.Prelude.{ℕ, ◌≤◌, ◌<◌, ◌≡◌, ◌⊎◌, refl, fault, List, [], ◌∷◌, arith, ok}
use cc2745_repo.BleAdv.{Stack}
use cc2745_repo.BleStart.{zero_info, Config, Host, ble_task_init, stack_init_done}
use cc2745_repo.BleStart.Done.{Started, started_run, stack_init_done_lem}
use cc2745_repo.BleStart.Info.{
  static_host, Reach, start, next, starts, reports, IsSplit, Reach-IsSplit,
}

abbrev config : Config
config = record {
  default_address_mode = 3;
  att_device_name = 4096;
  name_chars = 67 ∷ 83 ∷ [];
  profile_role = 4;
  random_address = 0;
  param_update_decision = 1;
}

abbrev stack : Stack
stack = record { sets = 5 ∷ 6 ∷ []; status = λ calls c. 0; adv_data1 = 8192; adv_data1_len = 3 }

abbrev public_addr : List ℕ
public_addr = 0x11 ∷ 0x22 ∷ 0x33 ∷ 0x44 ∷ 0x55 ∷ 0x66 ∷ []

abbrev private_addr : List ℕ
private_addr = 0xa1 ∷ 0xa2 ∷ 0xa3 ∷ 0xa4 ∷ 0xa5 ∷ 0x46 ∷ []

stack_init_done_lem_example :
    ((s : Host) × (stack_init_done stack public_addr private_addr static_host ≡ ok tt s)
      × (6 ≤ 6)
      × (6 ≤ 6)
      × Started stack public_addr private_addr static_host s)
    ⊎ (((6 < 6) ⊎ (6 < 6)) × (stack_init_done stack public_addr private_addr static_host ≡ fault))
stack_init_done_lem_example = stack_init_done_lem stack public_addr private_addr static_host

abbrev started : Host
started = ble_task_init config static_host

abbrev finished :
    (s : Host) × (stack_init_done stack public_addr private_addr started ≡ ok tt s)
    × Started stack public_addr private_addr started s
finished = started_run stack public_addr private_addr started (omega arith) (omega arith)

reached : Reach config stack finished.0
reached = next (next start starts) (reports public_addr private_addr finished.1)

Reach-IsSplit_example : IsSplit finished.0
Reach-IsSplit_example = Reach-IsSplit reached

-- The task's copy has the name and the type, the host's the addresses.
started_info :
    started.task_info ≡ record zero_info { addr_type = 3; device_name = 4096; device_name_len = 2 }
unfolding ble_task_init
started_info = refl
