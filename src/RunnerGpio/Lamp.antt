-- ===== src/RunnerGpio/Lamp.antt =====
-- What the drivers have been asked for in every reachable state.
use Prim.Native.Nat.{bit_or}
use cc2745_repo.Prelude.{
  ℕ, zero, suc, ◌≡◌, refl, ap, sym, subst, Bool, true, false, List, [], ◌∷◌, ◌++◌, replicate, arith,
  ok,
}
use cc2745_repo.Hal.Drv.{
  DrvCall, gpio_init, gpio_set_config, gpio_set_callback, gpio_enable_int, gpio_toggle, Drivers,
  Drv, hal_gpio_create_in_pin, hal_gpio_create_out_pin, hal_gpio_enable_interrupt,
  hal_gpio_toggle_pin,
}
use cc2745_repo.RunnerGpio.{
  Board, Place, creating_in, creating_out, enabling, sleeping, Runner, is_enabled, button_isr_left,
  statement, after, Step, runs, pressed, Reach, start, next,
}

module _ (drivers : Drivers) (board : Board) where
  -- The calls of the task before a place, newest first.
  abbrev button_calls : List DrvCall
  button_calls =
      gpio_set_callback board.button board.isr_fn
      ∷ gpio_set_config board.button (bit_or drivers.in_pu drivers.in_int_falling)
      ∷ gpio_init
      ∷ []

  abbrev lamp_calls : List DrvCall
  lamp_calls = gpio_set_config board.led (bit_or drivers.out_std drivers.out_low) ∷ button_calls

  abbrev pub setup : Place → List DrvCall
  setup creating_in = []
  setup creating_out = button_calls
  setup enabling = lamp_calls
  setup sleeping = gpio_enable_int board.button ∷ lamp_calls

  abbrev ready : Place → Bool
  ready creating_in = false
  ready _ = true

  -- The interrupt has run only in the endless loop.
  abbrev Asleep : Place → ℕ → Type 0
  Asleep sleeping n = Unit {0}
  Asleep _ n = n ≡ 0

  record IsLit (p : Place) (d : Drv) (n : ℕ) : Type 0 where
    init : d.is_gpio_init ≡ ready p
    calls : d.calls ≡ replicate n (gpio_toggle board.led) ++ setup p
    asleep : Asleep p n

  ok_state : {A : Type 0} {a b : A} {s t : Drv} → ok a s ≡ ok b t → s ≡ t
  ok_state e = cc

  runs-IsLit :
      (p : Place) (n : ℕ) (d d' : Drv)
      → IsLit p d n
      → statement drivers board p d ≡ ok tt d'
      → IsLit (after p) d' n
  unfolding statement hal_gpio_create_in_pin hal_gpio_create_out_pin hal_gpio_enable_interrupt
  runs-IsLit creating_in (suc n) d d' lit e = absurd (omega arith)
  runs-IsLit creating_in zero d d' lit e = record {
    init = ground arith;
    calls = ground arith;
    asleep = refl;
  }
  runs-IsLit creating_out (suc n) d d' lit e = absurd (omega arith)
  runs-IsLit creating_out zero d d' lit e = record {
    init = ground arith;
    calls = ground arith;
    asleep = refl;
  }
  runs-IsLit enabling (suc n) d d' lit e = absurd (omega arith)
  runs-IsLit enabling zero d d' lit e = record {
    init = ground arith;
    calls = ground arith;
    asleep = tt;
  }
  runs-IsLit sleeping n d d' lit e = subst (λ x. IsLit sleeping x n) (ok_state e) lit

  -- No press comes before the interrupt is enabled.
  pressed_asleep :
      (p : Place) (n : ℕ) (d : Drv)
      → IsLit p d n
      → is_enabled board.button d.calls ≡ true
      → p ≡ sleeping
  pressed_asleep creating_in (suc n) d lit on = absurd (omega arith)
  pressed_asleep creating_in zero d lit on = absurd (ground (arith, lit.calls))
  pressed_asleep creating_out (suc n) d lit on = absurd (omega arith)
  pressed_asleep creating_out zero d lit on = absurd (ground (arith, lit.calls))
  pressed_asleep enabling (suc n) d lit on = absurd (omega arith)
  pressed_asleep enabling zero d lit on = absurd (ground (arith, lit.calls))
  pressed_asleep sleeping n d lit on = refl

  pressed-IsLit :
      (n : ℕ) (d d' : Drv)
      → IsLit sleeping d n
      → button_isr_left drivers board d ≡ ok tt d'
      → IsLit sleeping d' (suc n)
  unfolding button_isr_left hal_gpio_toggle_pin
  pressed-IsLit n d d' lit e =
      let same = ok_state e in
      subst (λ x. IsLit sleeping x (suc n)) same
        (record {
          init = lit.init;
          calls = ap (λ cs. gpio_toggle board.led ∷ cs) lit.calls;
          asleep = tt;
        })

  Step-IsLit :
      {s s' : Runner}
      → IsLit s.place s.drv s.presses
      → Step drivers board s s'
      → IsLit s'.place s'.drv s'.presses
  Step-IsLit {s} lit (runs {d} e) = runs-IsLit s.place s.presses s.drv d lit e
  Step-IsLit {s} lit (pressed {d} on e) =
      let at = pressed_asleep s.place s.presses s.drv lit on in
      subst (λ p. IsLit p d (suc s.presses)) (sym at)
        (pressed-IsLit s.presses s.drv d (subst (λ p. IsLit p s.drv s.presses) at lit) e)

  Reach-IsLit : {s : Runner} → Reach drivers board s → IsLit s.place s.drv s.presses
  Reach-IsLit start = record { init = refl; calls = refl; asleep = refl }
  Reach-IsLit (next r step) = Step-IsLit (Reach-IsLit r) step

  -- The task's next statement never fails.
  proceeds :
      (p : Place) (n : ℕ) (d : Drv)
      → IsLit p d n
      → (d' : Drv) × (statement drivers board p d ≡ ok tt d')
  unfolding statement hal_gpio_create_in_pin hal_gpio_create_out_pin hal_gpio_enable_interrupt
  proceeds creating_in n d lit = (
    record d {
      is_gpio_init = true;
      calls =
          gpio_set_callback board.button board.isr_fn
          ∷ gpio_set_config board.button (bit_or drivers.in_pu drivers.in_int_falling)
          ∷ gpio_init
          ∷ d.calls;
    },
    ground arith,
  )
  proceeds creating_out n d lit = (
    record d {
      calls = gpio_set_config board.led (bit_or drivers.out_std drivers.out_low) ∷ d.calls;
    },
    ground arith,
  )
  proceeds enabling n d lit = (_, refl)
  proceeds sleeping n d lit = (d, refl)

  -- In every reachable state the drivers have been asked for the task's calls so far, in their
  -- order and once each, and behind them for one toggle of the lamp for each press, and for nothing
  -- else. The task's next statement does not fail.
  pub Reach-calls :
      {s : Runner}
      → Reach drivers board s
      → (s.drv.calls ≡ replicate s.presses (gpio_toggle board.led) ++ setup s.place)
        × ((d : Drv) × (statement drivers board s.place s.drv ≡ ok tt d))
  Reach-calls {s} r = let lit = Reach-IsLit r in (lit.calls, proceeds s.place s.presses s.drv lit)
