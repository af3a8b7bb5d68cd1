-- ===== src/Profiles/DevInfo/SystemId.antt =====
-- The system ID, and the parameters that the service is given.
use cc2745_repo.Prelude.{
  ℕ, ◌+◌, ◌*◌, ◌/◌, ◌%◌, ◌^◌, ◌<◌, ◌≡◌, ◌≢◌, ◌⊎◌, inl, inr, refl, some, List, [], ◌∷◌, arith,
  Bool-cases, ◌==◌, ok,
}
use cc2745_repo.Profiles.DevInfo.{
  DevInfoService, make_system_id, manufacturer, new_system_id, set_names, dev_info_start,
}

-- The number that bytes stand for, the lowest first.
abbrev pub number_le : List ℕ → ℕ
number_le [] = 0
number_le (b ∷ bs) = b + 256 * number_le bs

module _ (a0 a1 a2 a3 a4 a5 : ℕ) where
  abbrev pub address : List ℕ
  address = a0 ∷ a1 ∷ a2 ∷ a3 ∷ a4 ∷ a5 ∷ []

  abbrev pub id_of : List ℕ
  id_of = a0 ∷ a1 ∷ a2 ∷ 0xff ∷ 0xfe ∷ a3 ∷ a4 ∷ a5 ∷ []

  make_system_id_lem : make_system_id 8 address ≡ some id_of
  unfolding make_system_id
  make_system_id_lem = refl

  -- An address of six bytes, the lowest first, becomes an ID of eight bytes: its two halves of
  -- three bytes with 0xFEFF between them, not the 0xFFFE that the comment asks for.
  pub make_system_id_middle :
      a0 < 256
      → a1 < 256
      → a2 < 256
      → (id : List ℕ) × (make_system_id 8 address ≡ some id)
        × (number_le id % 2 ^ 24 ≡ number_le address % 2 ^ 24)
        × (number_le id / 2 ^ 24 % 2 ^ 16 ≡ 0xfeff)
        × (number_le id / 2 ^ 40 ≡ number_le address / 2 ^ 24)
  make_system_id_middle lt0 lt1 lt2 =
      (id_of, make_system_id_lem, omega arith, omega arith, omega arith)

-- The answers of the service to the three calls, each on the state that the one before left.
module _ (service : DevInfoService) (a0 a1 a2 a3 a4 a5 : ℕ) (s : service.State) where
  abbrev pub added : ℕ × service.State
  added = service.add_service s

  abbrev pub identified : ℕ × service.State
  identified = service.set_parameter service.system_id 8 (id_of a0 a1 a2 a3 a4 a5) added.1

  abbrev pub named : ℕ × service.State
  named =
      service.set_parameter service.manufacturer_name service.str_attr_len manufacturer identified.1

  new_system_id_lem :
      (t : service.State)
      → service.system_id_len ≡ 8
      → service.dev_address ≡ address a0 a1 a2 a3 a4 a5
      → new_system_id service t ≡ ok (id_of a0 a1 a2 a3 a4 a5) t
  unfolding new_system_id
  new_system_id_lem t eight addr = rw (eight, addr) refl

  -- The start of the service stops at the first call that is refused and returns its status: of the
  -- service itself, of the system ID with 0xFF and 0xFE between the halves of the address, or of
  -- the manufacturer's name.
  pub dev_info_start_lem :
      service.system_id_len ≡ 8
      → service.dev_address ≡ address a0 a1 a2 a3 a4 a5
      → ((added.0 ≢ 0) × (dev_info_start service s ≡ ok added.0 added.1))
        ⊎ ((added.0 ≡ 0)
            × (identified.0 ≢ 0)
            × (dev_info_start service s ≡ ok identified.0 identified.1))
        ⊎ ((added.0 ≡ 0) × (identified.0 ≡ 0) × (dev_info_start service s ≡ ok named.0 named.1))
  unfolding dev_info_start set_names
  dev_info_start_lem eight addr =
      let id = new_system_id_lem added.1 eight addr in
      elim (Bool-cases (added.0 == 0)) [
        | inr refused ↦ inl (ground arith, rw refused refl)
        | inl accepted ↦ elim (Bool-cases (identified.0 == 0)) [
          | inr refused ↦ inr (
              inl (
                ground arith,
                ground arith,
                rw (accepted, set_names) (rw (id, eight, refused) refl),
              ))
          | inl stored ↦ inr (
              inr (
                ground arith,
                ground arith,
                rw (accepted, set_names) (rw (id, eight, stored) refl),
              ))
        ]
      ]
