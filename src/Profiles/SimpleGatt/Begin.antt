-- ===== src/Profiles/SimpleGatt/Begin.antt =====
-- The start of the simple profile.
use cc2745_repo.Prelude.{
  ◌≡◌, ◌≢◌, ◌⊎◌, inl, inr, refl, sym, ◌∙◌, [], ◌∷◌, arith, Bool-cases, ◌==◌, ok,
}
use cc2745_repo.Profiles.SimpleGatt.{SimpleProfile, char_value5, set_values, simple_gatt_start}
use cc2745_repo.Profiles.SimpleGatt.Laws.{IsSimpleProfile}

module _ (p : SimpleProfile) (laws : IsSimpleProfile p) where
  -- The first four characteristics give 1, 2, 3 and 4.
  pub record HasValues (s : p.State) : Type 0 where
    pub value1 : (p.get_parameter p.char1 s).0 ≡ (0, 1)
    pub value2 : (p.get_parameter p.char2 s).0 ≡ (0, 2)
    pub value3 : (p.get_parameter p.char3 s).0 ≡ (0, 3)
    pub value4 : (p.get_parameter p.char4 s).0 ≡ (0, 4)

  abbrev set1 : p.State → p.State
  set1 s = (p.set_parameter p.char1 (1 ∷ []) s).1

  abbrev set2 : p.State → p.State
  set2 s = (p.set_parameter p.char2 (2 ∷ []) s).1

  abbrev set3 : p.State → p.State
  set3 s = (p.set_parameter p.char3 (3 ∷ []) s).1

  abbrev set4 : p.State → p.State
  set4 s = (p.set_parameter p.char4 (4 ∷ []) s).1

  abbrev set5 : p.State → p.State
  set5 s = (p.set_parameter p.char5 (char_value5 p) s).1

  set_values-HasValues : (s : p.State) → HasValues (set5 (set4 (set3 (set2 (set1 s)))))
  set_values-HasValues s =
      let d = laws.distinct in
      let s1 = set1 s in
      let s2 = set2 s1 in
      let s3 = set3 s2 in
      let s4 = set4 s3 in
      record {
        value1 =
            laws.get_set_ne p.char5 p.char1 (char_value5 p) s4 (λ e. d.0.1.1.1.0 (sym e))
            ∙ laws.get_set_ne p.char4 p.char1 (4 ∷ []) s3 (λ e. d.0.1.1.0 (sym e))
            ∙ laws.get_set_ne p.char3 p.char1 (3 ∷ []) s2 (λ e. d.0.1.0 (sym e))
            ∙ laws.get_set_ne p.char2 p.char1 (2 ∷ []) s1 (λ e. d.0.0 (sym e))
            ∙ laws.get_set p.char1 1 s (inl refl);
        value2 =
            laws.get_set_ne p.char5 p.char2 (char_value5 p) s4 (λ e. d.1.0.1.1.0 (sym e))
            ∙ laws.get_set_ne p.char4 p.char2 (4 ∷ []) s3 (λ e. d.1.0.1.0 (sym e))
            ∙ laws.get_set_ne p.char3 p.char2 (3 ∷ []) s2 (λ e. d.1.0.0 (sym e))
            ∙ laws.get_set p.char2 2 s1 (inr (inl refl));
        value3 =
            laws.get_set_ne p.char5 p.char3 (char_value5 p) s4 (λ e. d.1.1.0.1.0 (sym e))
            ∙ laws.get_set_ne p.char4 p.char3 (4 ∷ []) s3 (λ e. d.1.1.0.0 (sym e))
            ∙ laws.get_set p.char3 3 s2 (inr (inr (inl refl)));
        value4 =
            laws.get_set_ne p.char5 p.char4 (char_value5 p) s4 (λ e. d.1.1.1.0.0 (sym e))
            ∙ laws.get_set p.char4 4 s3 (inr (inr (inr refl)));
      }

  registered-HasValues : (s : p.State) → HasValues s → HasValues (p.register_app_cbs s).1
  registered-HasValues s h = record {
    value1 = laws.get_register p.char1 s ∙ h.value1;
    value2 = laws.get_register p.char2 s ∙ h.value2;
    value3 = laws.get_register p.char3 s ∙ h.value3;
    value4 = laws.get_register p.char4 s ∙ h.value4;
  }

  -- The start of the profile returns the status of a refused service at once. Else it stores the
  -- values 1 to 4, which are then read, and returns the status of the registration of the
  -- callbacks.
  pub simple_gatt_start_lem :
      (s : p.State)
      → (((p.add_service s).0 ≢ 0)
          × (simple_gatt_start p s ≡ ok (p.add_service s).0 (p.add_service s).1))
        ⊎ (((p.add_service s).0 ≡ 0)
            × ((s' : p.State) × HasValues s'
                × (simple_gatt_start p s ≡ ok (p.register_app_cbs s').0 (p.register_app_cbs s').1)
                × HasValues (p.register_app_cbs s').1))
  unfolding simple_gatt_start set_values
  simple_gatt_start_lem s = elim (Bool-cases ((p.add_service s).0 == 0)) [
    | inr refused ↦ inl (ground arith, rw refused refl)
    | inl added ↦
        let s5 = set5 (set4 (set3 (set2 (set1 (p.add_service s).1)))) in
        inr (
          ground arith,
          (
            s5,
            set_values-HasValues (p.add_service s).1,
            rw added refl,
            registered-HasValues s5 (set_values-HasValues (p.add_service s).1),
          ),
        )
  ]
