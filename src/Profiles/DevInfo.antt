-- ===== src/Profiles/DevInfo.antt =====
-- ccs_project/src/module/ble/Profiles/app_dev_info.c over the vendor's device information service,
-- which is a parameter with a state of its own. SUCCESS is 0.
pub mod SystemId
use cc2745_repo.Prelude.{
  ℕ, zero, suc, ◌+◌, Option, none, some, List, [], ◌∷◌, get_elem?, set, replicate, length, ltb,
  ◌==◌, if◌then◌else◌, fault, ok, Cmd, pure, ◌>>=◌, ◌>>◌,
}

-- `dev_address` is the memory that `GAP_GetDevAddress` points to. A parameter is set to the first
-- `len` bytes of a value.
pub record DevInfoService : Type 1 where
  pub State : Type 0
  pub system_id : ℕ
  pub system_id_len : ℕ
  pub manufacturer_name : ℕ
  pub str_attr_len : ℕ
  pub dev_address : List ℕ
  pub add_service : State → ℕ × State
  pub set_parameter : (param len : ℕ) → (value : List ℕ) → State → ℕ × State

-- A store into an array, and `memcpy` of `n` bytes; `none` is an access outside of an object.
store : List ℕ → (i v : ℕ) → Option (List ℕ)
store xs i v = if ltb i (length xs) then some (set xs i v) else none

copy_bytes : (n : ℕ) → (to : List ℕ) → (at : ℕ) → (from : List ℕ) → (k : ℕ) → Option (List ℕ)
unfolding store
copy_bytes zero to at from k = some to
copy_bytes (suc n) to at from k = elim (get_elem? from k) [
  | none ↦ none
  | some v ↦ elim (store to at v) [
    | none ↦ none
    | some to' ↦ copy_bytes n to' (at + 1) from (k + 1)
  ]
]

abbrev then_ : Option (List ℕ) → (List ℕ → Option (List ℕ)) → Option (List ℕ)
then_ none k = none
then_ (some x) k = k x

unfoldable pub make_system_id : (len : ℕ) → (dev_addr : List ℕ) → Option (List ℕ)
unfolding copy_bytes store
make_system_id len dev_addr = then_ (copy_bytes 3 (replicate len 0) 0 dev_addr 0) λ id1.
    then_ (store id1 3 0xff) λ id2. then_ (store id2 4 0xfe) λ id3. copy_bytes 3 id3 5 dev_addr 3

-- "Texas Instruments", with its end.
abbrev pub manufacturer : List ℕ
manufacturer =
    84 ∷ 101 ∷ 120 ∷ 97 ∷ 115 ∷ 32 ∷ 73 ∷ 110 ∷ 115 ∷ 116 ∷ 114 ∷ 117 ∷ 109 ∷ 101 ∷ 110 ∷ 116 ∷ 115
    ∷ 0 ∷ []

module _ (service : DevInfoService) where
  open service use {
    State, system_id, system_id_len, manufacturer_name, str_attr_len, dev_address, add_service,
    set_parameter,
  }

  abbrev call : (State → ℕ × State) → Cmd State ℕ
  call f s = let (status, s') = f s in ok status s'

  unfoldable pub new_system_id : Cmd State (List ℕ)
  unfolding make_system_id
  new_system_id s = elim (make_system_id system_id_len dev_address) [
    | none ↦ fault
    | some id ↦ ok id s
  ]

  unfoldable pub set_names : Cmd State ℕ
  unfolding new_system_id
  set_names = do
    id ← new_system_id
    status ← call (set_parameter system_id system_id_len id)
    (if status == 0
        then call (set_parameter manufacturer_name str_attr_len manufacturer)
        else pure status)

  unfoldable pub dev_info_start : Cmd State ℕ
  unfolding set_names
  dev_info_start = do status ← call add_service; (if status == 0 then set_names else pure status)
