-- ===== src/Hal/Drv/Order.antt =====
-- The order of the drivers' calls, over any history of the operations.
use Prim.Native.Nat.{bit_or}
use cc2745_repo.Prelude.{
  ℕ, suc, ◌≡◌, refl, Bool, true, ◌&&◌, Bool-cases, inl, inr, List, [], ◌∷◌, arith, ltb, ◌==◌,
  if◌then◌else◌, Run, ok, fault, blocked, out_of_fuel, and_then, Option-cases, get_elem?, length,
  Cmd, pure, ◌>>◌,
}
use cc2745_repo.Links.{Ptr, null}
use cc2745_repo.Hal.Drv.{
  DrvCall, gpio_init, gpio_set_config, gpio_set_callback, Drivers, Drv, static_drv,
  gpio_in_pull_opt, gpio_int_type_opt, gpio_out_pull_opt, at, run, store_isr, store_handle,
  hal_gpio_init, hal_gpio_create_in_pin, hal_gpio_create_out_pin, hal_gpio_enable_interrupt,
  hal_gpio_read_pin, hal_gpio_write_pin, hal_gpio_toggle_pin, hal_uart_init, hal_uart_send,
  hal_uart_receive,
}

-- How often the pins' driver is initialised.
abbrev pub inits : List DrvCall → ℕ
inits [] = 0
inits (gpio_init ∷ cs) = suc (inits cs)
inits (_ ∷ cs) = inits cs

-- Every pin is configured after the initialisation; the newest call is the first of the list.
abbrev pub configured_after : List DrvCall → Bool
configured_after [] = true
configured_after (gpio_set_config pin config ∷ cs) = ltb 0 (inits cs) && configured_after cs
configured_after (gpio_set_callback pin isr_fn ∷ cs) = ltb 0 (inits cs) && configured_after cs
configured_after (_ ∷ cs) = configured_after cs

-- The flag says whether the driver is initialised, which it is at most once.
pub record IsOrdered (s : Drv) : Type 0 where
  pub once : inits s.calls ≡ (if s.is_gpio_init then 1 else 0)
  pub after : configured_after s.calls ≡ true

-- The operations, with their arguments.
pub data Op : Type 0 where
  init_gpio : Op
  create_in_pin : (pin pull int_type : ℕ) → (isr_fn : Ptr) → Op
  create_out_pin : (pin pull level : ℕ) → Op
  enable_interrupt : (pin : ℕ) → Op
  read_pin : (pin : ℕ) → Op
  write_pin : (pin level : ℕ) → Op
  toggle_pin : (pin : ℕ) → Op
  init_uart : (inst baud_rate : ℕ) → (isr_fn : Ptr) → Op
  send : (inst : ℕ) → (p_data : Ptr) → (data_len : ℕ) → Op
  receive : (inst : ℕ) → (p_data : Ptr) → (data_len : ℕ) → Op

module _ (drv : Drivers) where
  unfoldable pub perform : Op → Cmd Drv (Unit {0})
  perform init_gpio = hal_gpio_init drv
  perform (create_in_pin pin pull int_type isr_fn) =
      hal_gpio_create_in_pin drv pin pull int_type isr_fn
  perform (create_out_pin pin pull level) = hal_gpio_create_out_pin drv pin pull level
  perform (enable_interrupt pin) = hal_gpio_enable_interrupt drv pin
  perform (read_pin pin) = hal_gpio_read_pin drv pin >> pure tt
  perform (write_pin pin level) = hal_gpio_write_pin drv pin level
  perform (toggle_pin pin) = hal_gpio_toggle_pin drv pin
  perform (init_uart inst baud_rate isr_fn) = hal_uart_init drv inst baud_rate isr_fn
  perform (send inst p_data data_len) = hal_uart_send drv inst p_data data_len >> pure tt
  perform (receive inst p_data data_len) = hal_uart_receive drv inst p_data data_len >> pure tt

  -- The states that operations reach from the start of the firmware.
  pub data Reach : Drv → Type 0 where
    start : Reach static_drv
    next : {s s' : Drv} → Reach s → (op : Op) → perform op s ≡ ok tt s' → Reach s'

abbrev HoldsAfter : {A : Type 0} → (Drv → Type 0) → Run Drv A → Type 0
HoldsAfter P (ok a s) = P s
HoldsAfter P _ = Unit {0}

-- `P` holds of the state after a run that returns.
record After {A : Type 0} (P : Drv → Type 0) (r : Run Drv A) : Type 0 where
  holds : HoldsAfter P r

abbrev now : {A : Type 0} {P : Drv → Type 0} {r : Run Drv A} → HoldsAfter P r → After P r
now h = record { holds = h }

after_both :
    {A B : Type 0} (P Q : Drv → Type 0) (r : Run Drv A) (k : A → Cmd Drv B)
    → After P r
    → ((a : A) (s : Drv) → P s → After Q (k a s))
    → After Q (and_then r k)
after_both P Q (ok a s) k h g = g a s h.holds
after_both P Q fault k h g = now tt
after_both P Q blocked k h g = now tt
after_both P Q out_of_fuel k h g = now tt

after_ok : (P : Drv → Type 0) (r : Run Drv (Unit {0})) {s' : Drv} → After P r → r ≡ ok tt s' → P s'
after_ok P r h e = let done = h.holds in rw e at done

at-After : (P : Drv → Type 0) (xs : List ℕ) (i : ℕ) (s : Drv) → P s → After P (at xs i s)
unfolding at
at-After P xs i s h = elim (Option-cases (get_elem? xs i)) [
  | inl e ↦ now (rw (e, at) tt)
  | inr (x, e) ↦ now (rw (e, at) h)
]

-- A driver that is ready has the flag set.
abbrev IsReady : Drv → Type 0
IsReady s = IsOrdered s × (s.is_gpio_init ≡ true)

module _ (drv : Drivers) where
  init-After : (s : Drv) → IsOrdered s → After IsReady (hal_gpio_init drv s)
  unfolding hal_gpio_init run
  init-After s o = elim (Bool-cases s.is_gpio_init) [
    | inl yes' ↦
        (let done : hal_gpio_init drv s ≡ ok tt s = ground (arith, yes') in rw done (now (o, yes')))
    | inr no' ↦
        (let s' = record s { is_gpio_init = true; calls = gpio_init ∷ s.calls } in
          let done : hal_gpio_init drv s ≡ ok tt s' = ground (arith, no') in
          rw done (now (record { once = ground (arith, o.once, no'); after = o.after }, refl)))
  ]

  config-After :
      (pin config : ℕ) (s : Drv)
      → IsReady s
      → After IsReady (run drv (gpio_set_config pin config) s)
  unfolding run
  config-After pin config s (o, ready) =
      now (record { once = o.once; after = ground (arith, o.once, o.after, ready) }, ready)

  callback-After :
      (pin : ℕ) (isr_fn : Ptr) (s : Drv)
      → IsReady s
      → After IsOrdered (run drv (gpio_set_callback pin isr_fn) s)
  unfolding run
  callback-After pin isr_fn s (o, ready) =
      now (record { once = o.once; after = ground (arith, o.once, o.after, ready) })

  store_handle-After :
      (i : ℕ) (p : Ptr) (s : Drv) → IsOrdered s → After IsOrdered (store_handle i p s)
  unfolding store_handle
  store_handle-After i p s o = elim (Bool-cases (ltb i (length s.uart_handles))) [
    | inl inside ↦ now (rw (inside, store_handle) (record { once = o.once; after = o.after }))
    | inr outside ↦ now (rw (outside, store_handle) tt)
  ]

  store_isr-After : (i : ℕ) (p : Ptr) (s : Drv) → IsOrdered s → After IsOrdered (store_isr i p s)
  unfolding store_isr
  store_isr-After i p s o = elim (Bool-cases (ltb i (length s.uart_isrs))) [
    | inl inside ↦ now (rw (inside, store_isr) (record { once = o.once; after = o.after }))
    | inr outside ↦ now (rw (outside, store_isr) tt)
  ]

  bind_isr-After :
      (i : ℕ) (p : Ptr) (s : Drv)
      → IsOrdered s
      → After IsOrdered ((if p == null then pure tt else store_isr i p) s)
  bind_isr-After i p s o = elim (Bool-cases (p == null)) [
    | inl unset ↦ rw unset (now o)
    | inr given ↦ rw given (store_isr-After i p s o)
  ]

  send-After :
      (inst : ℕ) (p_data : Ptr) (data_len : ℕ) (s : Drv)
      → IsOrdered s
      → After IsOrdered (hal_uart_send drv inst p_data data_len s)
        × After IsOrdered (hal_uart_receive drv inst p_data data_len s)
  unfolding hal_uart_send hal_uart_receive
  send-After inst p_data data_len s o = (
    after_both IsOrdered IsOrdered (at s.uart_handles inst s) _
        (at-After IsOrdered s.uart_handles inst s o)
        (λ handle s1 o1. now (record { once = o1.once; after = o1.after })),
    after_both IsOrdered IsOrdered (at s.uart_handles inst s) _
        (at-After IsOrdered s.uart_handles inst s o)
        (λ handle s1 o1. now (record { once = o1.once; after = o1.after })),
  )

  create_in-After :
      (pin pull int_type : ℕ) (isr_fn : Ptr) (s : Drv)
      → IsOrdered s
      → After IsOrdered (hal_gpio_create_in_pin drv pin pull int_type isr_fn s)
  unfolding hal_gpio_create_in_pin
  create_in-After pin pull int_type isr_fn s o =
      after_both IsReady IsOrdered _ _ (init-After s o) (λ _ s1 r1.
        after_both IsReady IsOrdered _ _ (at-After IsReady (gpio_in_pull_opt drv) pull s1 r1)
          (λ pull_opt s2 r2.
            after_both IsReady IsOrdered _ _
              (at-After IsReady (gpio_int_type_opt drv) int_type s2 r2)
              (λ int_opt s3 r3.
                after_both IsReady IsOrdered _ _ (config-After pin (bit_or pull_opt int_opt) s3 r3)
                  (λ _ s4 r4. callback-After pin isr_fn s4 r4))))

  create_out-After :
      (pin pull level : ℕ) (s : Drv)
      → IsOrdered s
      → After IsReady (hal_gpio_create_out_pin drv pin pull level s)
  unfolding hal_gpio_create_out_pin
  create_out-After pin pull level s o = after_both IsReady IsReady _ _ (init-After s o) (λ _ s1 r1.
      after_both IsReady IsReady _ _ (at-After IsReady (gpio_out_pull_opt drv) pull s1 r1)
        (λ pull_opt s2 r2.
          config-After pin (bit_or pull_opt (if level == 0 then drv.out_low else drv.out_high)) s2
            r2))

  forget : {A : Type 0} (r : Run Drv A) → After IsReady r → After IsOrdered r
  forget (ok a s) h = now (h.holds.0)
  forget fault h = now tt
  forget blocked h = now tt
  forget out_of_fuel h = now tt

  init_uart-After :
      (inst baud_rate : ℕ) (isr_fn : Ptr) (s : Drv)
      → IsOrdered s
      → After IsOrdered (hal_uart_init drv inst baud_rate isr_fn s)
  unfolding hal_uart_init
  init_uart-After inst baud_rate isr_fn s o =
      after_both IsOrdered IsOrdered _ _ (bind_isr-After inst isr_fn s o)
        (λ _ s1 o1. store_handle-After inst _ _ (record { once = o1.once; after = o1.after }))

  perform-After : (op : Op) (s : Drv) → IsOrdered s → After IsOrdered (perform drv op s)
  unfolding perform hal_gpio_enable_interrupt hal_gpio_read_pin hal_gpio_write_pin
      hal_gpio_toggle_pin
  perform-After init_gpio s o = forget _ (init-After s o)
  perform-After (create_in_pin pin pull int_type isr_fn) s o =
      create_in-After pin pull int_type isr_fn s o
  perform-After (create_out_pin pin pull level) s o = forget _ (create_out-After pin pull level s o)
  perform-After (enable_interrupt pin) s o = now (record { once = o.once; after = o.after })
  perform-After (read_pin pin) s o = now (record { once = o.once; after = o.after })
  perform-After (write_pin pin level) s o = now (record { once = o.once; after = o.after })
  perform-After (toggle_pin pin) s o = now (record { once = o.once; after = o.after })
  perform-After (init_uart inst baud_rate isr_fn) s o = init_uart-After inst baud_rate isr_fn s o
  perform-After (send inst p_data data_len) s o =
      after_both IsOrdered IsOrdered _ _ (send-After inst p_data data_len s o).0 (λ a s1 o1. now o1)
  perform-After (receive inst p_data data_len) s o =
      after_both IsOrdered IsOrdered _ _ (send-After inst p_data data_len s o).1 (λ a s1 o1. now o1)

  -- After any history of operations that returned, the pins' driver was initialised at most once,
  -- the flag says whether it was, and no pin was configured before it.
  pub Reach-IsOrdered : {s : Drv} → Reach drv s → IsOrdered s
  Reach-IsOrdered start = record { once = refl; after = refl }
  Reach-IsOrdered (next {s} {s'} r op e) =
      after_ok IsOrdered (perform drv op s) (perform-After op s (Reach-IsOrdered r)) e
