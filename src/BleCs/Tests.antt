-- ===== src/BleCs/Tests.antt =====
-- The theorems for a stack that always succeeds.
use cc2745_repo.Prelude.{ℕ, ◌≡◌, refl, false, some, [], ◌∷◌, arith, ok, fault}
use cc2745_repo.BleCs.State.{
  Cs, Stack, SubeventResults, ContinueResults, subevent_result, static_cs, ble_cs_init,
}
use cc2745_repo.BleCs.{
  is_registered, add_result, handle_sub_event, copy_continue, cs_event_handler, event_size,
  alloc_block, use_block, free_block,
}
use cc2745_repo.BleCs.Safety.{IsSized, Safe}
use cc2745_repo.BleCs.Handler.{handle_sub_event_same, ble_cs_init_forgets}
use cc2745_repo.BleCs.Copy.{cs_event_handler_lem, copy_continue_frees_twice}

abbrev stack : Stack
stack = record {
  success = 0;
  failure = 1;
  invalid_parameter = 2;
  unregister = 0;
  done = 0;
  aborted = 15;
  cs_event_code = 1;
  continue_size = 12;
  registration_status = λ calls conn. 1;
  calc_ant_paths_mask = λ aci. 3;
  status = λ calls c. 0;
  malloc = λ calls size. some 100;
}

abbrev subevent : ℕ → SubeventResults
subevent counter = record {
  conn_handle = 1;
  config_id = 0;
  procedure_counter = counter;
  reference_power_level = 5;
  procedure_done_status = 1;
  body = [];
}

abbrev continuation : ContinueResults
continuation = record { conn_handle = 1; procedure_done_status = 1; data_len = 2; body = [] }

-- Connection 1 has run procedure 7, on two antenna paths.
abbrev after_seven : Cs
after_seven = record {
  m_proc_counts = 0 ∷ 7 ∷ 0 ∷ 0 ∷ [];
  m_antenna_paths = 0 ∷ 3 ∷ 0 ∷ 0 ∷ [];
  m_curr_proc_count = 7;
  procedure_counter = [];
  procedure_antenna_path = [];
  live = λ p. false;
  calls = [];
}

after_seven-IsSized : IsSized after_seven
after_seven-IsSized = record { counts = refl; paths = refl }

cs_event_handler_lem_example :
    Safe (cs_event_handler stack 1 (subevent_result (subevent 8)) after_seven)
cs_event_handler_lem_example =
    cs_event_handler_lem stack 1 (subevent_result (subevent 8)) after_seven (omega arith)
      after_seven-IsSized

handle_sub_event_same_example :
    handle_sub_event stack (some (subevent 7)) after_seven
    ≡ add_result stack (subevent 7) 0 after_seven
unfolding is_registered
handle_sub_event_same_example =
    handle_sub_event_same stack (subevent 7) after_seven 7 refl refl refl refl

ble_cs_init_forgets_example :
    handle_sub_event stack (some (subevent 0)) (ble_cs_init static_cs)
    ≡ add_result stack (subevent 0) 0 (ble_cs_init static_cs)
unfolding is_registered
ble_cs_init_forgets_example = ble_cs_init_forgets stack (subevent 0) refl refl (omega arith) refl

copy_continue_frees_twice_example :
    (s1 s2 : Cs) × (alloc_block stack 14 after_seven ≡ ok (some 100) s1)
    × (use_block stack continuation (some 100) s1 ≡ ok tt s2)
    × (s2.live 100 ≡ false)
    × (free_block stack (some 100) s2 ≡ fault)
    × (copy_continue stack continuation after_seven ≡ fault)
unfolding event_size
copy_continue_frees_twice_example =
    copy_continue_frees_twice stack continuation (omega arith) 100 after_seven (omega arith) refl
      after_seven-IsSized
