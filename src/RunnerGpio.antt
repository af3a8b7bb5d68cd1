-- ===== src/RunnerGpio.antt =====
-- ccs_project/src/runner/runner_gpio.c: a task that sets up a button and a lamp and then sleeps,
-- and the interrupt of the button. Each call of the task's loop-free part, each suspension and each
-- press is a step of the system. The pins are constants of the generated configuration.
pub mod Lamp
mod Tests
use cc2745_repo.Prelude.{ℕ, suc, ◌≡◌, Bool, true, false, ◌||◌, List, [], ◌∷◌, ◌==◌, ok, Cmd, pure}
use cc2745_repo.Links.{Ptr}
use cc2745_repo.Hal.Rtos.{Rtos, Calls, hal_task_create}
use cc2745_repo.Hal.Drv.{
  DrvCall, gpio_enable_int, Drivers, Drv, static_drv, hal_gpio_create_in_pin,
  hal_gpio_create_out_pin, hal_gpio_enable_interrupt, hal_gpio_toggle_pin,
}

-- CONFIG_GPIO_BUTTON_0_INPUT, CONFIG_GPIO_LED_GREEN, and where the interrupt's function stands.
pub record Board : Type 0 where
  pub button : ℕ
  pub led : ℕ
  pub isr_fn : Ptr

abbrev pub in_pull_up : ℕ
in_pull_up = 1

abbrev pub int_falling : ℕ
int_falling = 1

abbrev pub out_pull_std : ℕ
out_pull_std = 0

-- Which statement the task is before; `sleeping` is its endless loop.
pub data Place : Type 0 where
  creating_in creating_out enabling sleeping : Place

-- `presses` counts the edges that the button's interrupt was run for.
pub record Runner : Type 0 where
  pub place : Place
  pub drv : Drv
  pub presses : ℕ

abbrev pub static_runner : Runner
static_runner = record { place = creating_in; drv = static_drv; presses = 0 }

-- Whether the driver runs the interrupt of a pin, by the calls so far.
abbrev pub is_enabled : (pin : ℕ) → List DrvCall → Bool
is_enabled pin [] = false
is_enabled pin (gpio_enable_int p ∷ calls) = p == pin || is_enabled pin calls
is_enabled pin (_ ∷ calls) = is_enabled pin calls

abbrev pub after : Place → Place
after creating_in = creating_out
after creating_out = enabling
after enabling = sleeping
after sleeping = sleeping

module _ (drivers : Drivers) (board : Board) where
  unfoldable pub button_isr_left : Cmd Drv (Unit {0})
  button_isr_left = hal_gpio_toggle_pin drivers board.led

  -- The task's statement at a place, and the place behind it.
  unfoldable pub statement : Place → Cmd Drv (Unit {0})
  statement creating_in =
      hal_gpio_create_in_pin drivers board.button in_pull_up int_falling board.isr_fn
  statement creating_out = hal_gpio_create_out_pin drivers board.led out_pull_std 0
  statement enabling = hal_gpio_enable_interrupt drivers board.button
  statement sleeping = pure tt

  pub data Step : Runner → Runner → Type 0 where
    runs :
        {s : Runner} {d : Drv}
        → statement s.place s.drv ≡ ok tt d
        → Step s (record s { place = after s.place; drv = d })
    pressed :
        {s : Runner} {d : Drv}
        → is_enabled board.button s.drv.calls ≡ true
        → button_isr_left s.drv ≡ ok tt d
        → Step s (record s { drv = d; presses = suc s.presses })

  pub data Reach : Runner → Type 0 where
    start : Reach static_runner
    next : {s s' : Runner} → Reach s → Step s s' → Reach s'

-- The name is at `name`, the task's function at `entry_fn`.
unfoldable pub runner_gpio_create_task : Rtos → (name entry_fn : Ptr) → Cmd Calls Ptr
unfolding hal_task_create
runner_gpio_create_task rtos name entry_fn =
    hal_task_create rtos
      (record { name = name; stack_size = 1024; priority = 5; entry_fn = entry_fn; arg = 0 })
