-- ===== src/Profiles/Tests.antt =====
-- The theorems on a profile that keeps a byte for each characteristic, and on a service that takes
-- all that it is given.
use cc2745_repo.Prelude.{
  ℕ, ◌+◌, ◌/◌, ◌%◌, ◌^◌, ◌≡◌, ◌≢◌, ◌⊎◌, refl, some, List, [], ◌∷◌, arith, ◌==◌, if◌then◌else◌, ok,
}
use cc2745_repo.Profiles.SimpleGatt.{SimpleProfile, simple_gatt_change_cb}
use cc2745_repo.Profiles.SimpleGatt.Laws.{IsSimpleProfile}
use cc2745_repo.Profiles.SimpleGatt.Change.{Notified, simple_gatt_change_cb_lem}
use cc2745_repo.Profiles.DevInfo.{make_system_id}
use cc2745_repo.Profiles.DevInfo.SystemId.{number_le, address, make_system_id_middle}

abbrev write : (param : ℕ) → List ℕ → (ℕ → ℕ) → ℕ → ℕ
write param [] s = s
write param (v ∷ []) s = λ c. if param == c then v else s c
write param (v ∷ w ∷ vs) s = s

write_ne : (c d : ℕ) (value : List ℕ) (s : ℕ → ℕ) → c ≢ d → write c value s d ≡ s d
write_ne c d [] s ne = refl
write_ne c d (v ∷ []) s ne = ground arith
write_ne c d (v ∷ w ∷ vs) s ne = refl

abbrev bytes : SimpleProfile
bytes = record {
  State = ℕ → ℕ;
  char1 = 0;
  char2 = 1;
  char3 = 2;
  char4 = 3;
  char5 = 4;
  char5_len = 5;
  add_service = λ s. (0, s);
  register_app_cbs = λ s. (0, s);
  set_parameter = λ c value s. (0, write c value s);
  get_parameter = λ c s. ((0, s c), s);
}

bytes-IsSimpleProfile : IsSimpleProfile bytes
bytes-IsSimpleProfile = record {
  distinct = omega arith;
  get_keeps = λ c s. refl;
  set_byte = λ c v s h. refl;
  get_set = λ c v s h. ground arith;
  get_set_ne = λ c d value s ne. ground (arith, write_ne c d value s ne);
  get_register = λ c s. refl;
}

simple_gatt_change_cb_lem_example :
    ((2 ≢ bytes.char3)
      × (2 ≢ bytes.char4)
      × (simple_gatt_change_cb bytes 2 (λ c. c + 7) ≡ ok tt (λ c. c + 7)))
    ⊎ (((2 ≡ bytes.char3) ⊎ (2 ≡ bytes.char4))
        × ((s : ℕ → ℕ) × (simple_gatt_change_cb bytes 2 (λ c. c + 7) ≡ ok tt s)
            × Notified bytes bytes-IsSimpleProfile (λ c. c + 7) s))
simple_gatt_change_cb_lem_example =
    simple_gatt_change_cb_lem bytes bytes-IsSimpleProfile 2 (λ c. c + 7)

make_system_id_middle_example :
    (id : List ℕ) × (make_system_id 8 (address 0x11 0x22 0x33 0x44 0x55 0x66) ≡ some id)
    × (number_le id % 2 ^ 24 ≡ number_le (address 0x11 0x22 0x33 0x44 0x55 0x66) % 2 ^ 24)
    × (number_le id / 2 ^ 24 % 2 ^ 16 ≡ 0xfeff)
    × (number_le id / 2 ^ 40 ≡ number_le (address 0x11 0x22 0x33 0x44 0x55 0x66) / 2 ^ 24)
make_system_id_middle_example =
    make_system_id_middle 0x11 0x22 0x33 0x44 0x55 0x66 (omega arith) (omega arith) (omega arith)
