-- ===== src/Profiles/SimpleGatt.antt =====
-- ccs_project/src/module/ble/Profiles/app_simple_gatt.c over the vendor's simple profile, which is
-- a parameter with a state of its own. SUCCESS is 0.
pub mod Laws
pub mod Change
pub mod Begin
use cc2745_repo.Prelude.{
  ℕ, ◌-◌, ◌≡◌, List, [], ◌∷◌, ◌++◌, take, replicate, ◌==◌, if◌then◌else◌, ok, Cmd, pure, ◌>>=◌,
  ◌>>◌,
}

-- A reading gives a status and the byte that is stored for the caller.
pub record SimpleProfile : Type 1 where
  pub State : Type 0
  pub char1 : ℕ
  pub char2 : ℕ
  pub char3 : ℕ
  pub char4 : ℕ
  pub char5 : ℕ
  pub char5_len : ℕ
  pub add_service : State → ℕ × State
  pub register_app_cbs : State → ℕ × State
  pub set_parameter : (param : ℕ) → (value : List ℕ) → State → ℕ × State
  pub get_parameter : (param : ℕ) → State → (ℕ × ℕ) × State

-- A call of the profile, as a command.
abbrev call : {S A : Type 0} → (S → A × S) → Cmd S A
call f s = let (a, s') = f s in ok a s'

module _ (profile : SimpleProfile) where
  open profile use {
    State, char1, char2, char3, char4, char5, char5_len, add_service, register_app_cbs,
    set_parameter, get_parameter,
  }

  unfoldable pub simple_gatt_notify_char4 : Cmd State (Unit {0})
  simple_gatt_notify_char4 = do
    read ← call (get_parameter char3)
    (if read.0 == 0 then call (set_parameter char4 (read.1 ∷ [])) >> pure tt else pure tt)

  unfoldable pub simple_gatt_change_cb : (param_id : ℕ) → Cmd State (Unit {0})
  unfolding simple_gatt_notify_char4
  simple_gatt_change_cb param_id =
      if param_id == char1
      then (do call (get_parameter char1); pure tt)
      else if param_id == char3
      then (do call (get_parameter char3); simple_gatt_notify_char4)
      else if param_id == char4
      then simple_gatt_notify_char4
      else pure tt

  -- An array of `char5_len` bytes with the initialiser { 1, 2, 3, 4, 5 }.
  abbrev pub char_value5 : List ℕ
  char_value5 = take char5_len (1 ∷ 2 ∷ 3 ∷ 4 ∷ 5 ∷ replicate (char5_len - 5) 0)

  unfoldable pub set_values : Cmd State (Unit {0})
  set_values = do
    call (set_parameter char1 (1 ∷ []))
    call (set_parameter char2 (2 ∷ []))
    call (set_parameter char3 (3 ∷ []))
    call (set_parameter char4 (4 ∷ []))
    call (set_parameter char5 char_value5)
    pure tt

  unfoldable pub simple_gatt_start : Cmd State ℕ
  unfolding set_values
  simple_gatt_start = do
    status ← call add_service
    (if status == 0 then (do set_values; call register_app_cbs) else pure status)
