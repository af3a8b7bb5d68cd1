-- ===== src/Profiles/SimpleGatt/Change.antt =====
-- The callback for a changed characteristic keeps the fourth equal to the third.
use cc2745_repo.Prelude.{
  ℕ, ◌≡◌, ◌≢◌, ◌⊎◌, inl, inr, refl, sym, ap, ◌∙◌, [], ◌∷◌, arith, Bool-cases, ◌==◌, ==_iff, ok,
}
use cc2745_repo.Profiles.SimpleGatt.{SimpleProfile, simple_gatt_notify_char4, simple_gatt_change_cb}
use cc2745_repo.Profiles.SimpleGatt.Laws.{IsSimpleProfile}

module _ (p : SimpleProfile) (laws : IsSimpleProfile p) where
  -- What a notification has done: the third characteristic cannot be read and nothing has changed,
  -- or its byte is now read from the fourth too, and all others give what they gave.
  abbrev pub Notified : p.State → p.State → Type 0
  Notified s s' =
      (((p.get_parameter p.char3 s).0.0 ≢ 0) × (s' ≡ s))
      ⊎ (((p.get_parameter p.char3 s).0.0 ≡ 0)
          × ((p.get_parameter p.char4 s').0 ≡ (p.get_parameter p.char3 s).0)
          × ((c : ℕ) → c ≢ p.char4 → (p.get_parameter c s').0 ≡ (p.get_parameter c s).0))

  notify_lem :
      (s : p.State) → (s' : p.State) × (simple_gatt_notify_char4 p s ≡ ok tt s') × Notified s s'
  unfolding simple_gatt_notify_char4
  notify_lem s = elim (Bool-cases ((p.get_parameter p.char3 s).0.0 == 0)) [
    | inl readable ↦ (
      (p.set_parameter p.char4 ((p.get_parameter p.char3 s).0.1 ∷ []) s).1,
      rw readable (rw (laws.get_keeps p.char3 s) refl),
      inr (
        ground arith,
        laws.get_set p.char4 _ s (inr (inr (inr refl))) ∙ ground arith,
        λ c ne. laws.get_set_ne p.char4 c _ s (λ e. ne (sym e)),
      ),
    )
    | inr failed ↦ (s, rw failed (ap (ok tt) (laws.get_keeps p.char3 s)), inl (ground arith, refl))
  ]

  -- When a characteristic has changed, the callback does nothing for the first and the second and
  -- any unknown one. For the third and the fourth it copies the byte of the third to the fourth,
  -- from which it is then read, and leaves the others alone; if the third cannot be read, it
  -- changes nothing.
  pub simple_gatt_change_cb_lem :
      (param_id : ℕ) (s : p.State)
      → ((param_id ≢ p.char3)
          × (param_id ≢ p.char4)
          × (simple_gatt_change_cb p param_id s ≡ ok tt s))
        ⊎ (((param_id ≡ p.char3) ⊎ (param_id ≡ p.char4))
            × ((s' : p.State) × (simple_gatt_change_cb p param_id s ≡ ok tt s') × Notified s s'))
  unfolding simple_gatt_change_cb
  simple_gatt_change_cb_lem param_id s =
      let (s', run, notified) = notify_lem s in
      elim (Bool-cases (param_id == p.char1)) [
        | inl first ↦
            let is_first = (==_iff param_id p.char1).0 first in
            let apart = laws.distinct in
            inl (ground arith, ground arith, rw first (ap (ok tt) (laws.get_keeps p.char1 s)))
        | inr not_first ↦ elim (Bool-cases (param_id == p.char3)) [
          | inl third ↦ inr (
            inl ((==_iff param_id p.char3).0 third),
            (s', rw (not_first, third) (rw (laws.get_keeps p.char3 s) run), notified),
          )
          | inr not_third ↦ elim (Bool-cases (param_id == p.char4)) [
            | inl fourth ↦ inr (
              inr ((==_iff param_id p.char4).0 fourth),
              (s', rw (not_first, not_third, fourth) run, notified),
            )
            | inr other ↦ inl (ground arith, ground arith, rw (not_first, not_third, other) refl)
          ]
        ]
      ]
