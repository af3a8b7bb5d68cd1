-- ===== src/BleAdv/Tests.antt =====
-- The theorems on two sets, with the handles 3 and 9.
use cc2745_repo.Prelude.{
  ℕ, zero, suc, ◌<◌, ◌≡◌, ◌≢◌, ◌⊎◌, refl, some, [], ◌∷◌, get_elem?, arith, ok,
}
use cc2745_repo.BleAdv.{
  prepare_load_by_handle, load_by_handle, Stack, Adv, adv_started, adv_stopped, start_after_enable,
  end_after_disable, get_adv_set_id, adv_event_handler, ble_adv_update,
}
use cc2745_repo.BleAdv.Sets.{adv_event_handler_lem, ble_adv_update_ignores}

abbrev two_sets : Adv
two_sets = record { m_adv_handles = 3 ∷ 9 ∷ []; calls = [] }

-- A stack that agrees to everything.
abbrev stack : Stack
stack = record { sets = 3 ∷ 9 ∷ []; status = λ calls c. 0; adv_data1 = 2000; adv_data1_len = 31 }

three_first : (j : ℕ) → j < 1 → get_elem? two_sets.m_adv_handles j ≢ some 9
three_first zero h = ground arith
three_first (suc j) h = absurd (omega (arith, h))

adv_event_handler_lem_example :
    (get_adv_set_id 9 two_sets ≡ 1)
    × (adv_event_handler start_after_enable 9 two_sets ≡ some (adv_started 1))
    × (adv_event_handler end_after_disable 9 two_sets ≡ some (adv_stopped 1))
adv_event_handler_lem_example = adv_event_handler_lem two_sets 9 1 (omega arith) refl three_first

ble_adv_update_ignores_example :
    ((stack.status [] (prepare_load_by_handle 9) ≡ 0)
      × (ble_adv_update stack 1 5000 4 two_sets
          ≡ ok tt (record two_sets {
            calls = load_by_handle 9 31 2000 ∷ prepare_load_by_handle 9 ∷ [];
          })))
    ⊎ ((stack.status [] (prepare_load_by_handle 9) ≢ 0)
        × (ble_adv_update stack 1 5000 4 two_sets
            ≡ ok tt (record two_sets { calls = prepare_load_by_handle 9 ∷ [] })))
ble_adv_update_ignores_example = ble_adv_update_ignores stack two_sets 1 9 5000 4 refl
