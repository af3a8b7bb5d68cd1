-- ===== src/Hal/Drv.antt =====
-- ccs_project/src/hal/hal_drv_api.c: pins and serial ports over the vendor's drivers, which are a
-- parameter: their configuration words, and what they answer after the calls made so far.
pub mod Order
pub mod Ports
mod Tests
use Prim.Native.Nat.{bit_or}
use cc2745_repo.Prelude.{
  ℕ, zero, suc, ◌+◌, ◌%◌, ◌^◌, Bool, true, false, Option, none, some, List, [], ◌∷◌, ◌++◌,
  get_elem?, set, length, ltb, ◌==◌, if◌then◌else◌, ok, fault, Cmd, pure, modify, ◌>>=◌, ◌>>◌,
}
use cc2745_repo.Links.{Ptr, null}

-- The calls of the drivers. The callback of a port is the number of the port's own handler.
pub data DrvCall : Type 0 where
  gpio_init : DrvCall
  gpio_set_config : (pin config : ℕ) → DrvCall
  gpio_set_callback : (pin : ℕ) → (isr_fn : Ptr) → DrvCall
  gpio_enable_int : (pin : ℕ) → DrvCall
  gpio_read : (pin : ℕ) → DrvCall
  gpio_write : (pin level : ℕ) → DrvCall
  gpio_toggle : (pin : ℕ) → DrvCall
  uart_open : (inst baud_rate : ℕ) → (read_callback : Option ℕ) → DrvCall
  uart_write : (handle p_data : Ptr) → (data_len : ℕ) → DrvCall
  uart_read : (handle p_data : Ptr) → (data_len : ℕ) → DrvCall

pub record Drivers : Type 0 where
  pub in_nopull : ℕ
  pub in_pu : ℕ
  pub in_pd : ℕ
  pub in_int_none : ℕ
  pub in_int_falling : ℕ
  pub in_int_rising : ℕ
  pub in_int_both_edges : ℕ
  pub out_std : ℕ
  pub out_od_nopull : ℕ
  pub out_od_pu : ℕ
  pub out_od_pd : ℕ
  pub out_high : ℕ
  pub out_low : ℕ
  -- What the drivers return for a call, after the calls before it.
  pub answer : List DrvCall → DrvCall → ℕ

-- `calls` is newest first.
pub record Drv : Type 0 where
  pub is_gpio_init : Bool
  pub uart_handles : List Ptr
  pub uart_isrs : List Ptr
  pub calls : List DrvCall

-- Static storage starts at zero.
abbrev pub static_drv : Drv
static_drv = record {
  is_gpio_init = false;
  uart_handles = null ∷ null ∷ [];
  uart_isrs = null ∷ null ∷ [];
  calls = [];
}

-- A C array at an index: outside of it is a fault.
unfoldable pub at : List ℕ → ℕ → Cmd Drv ℕ
at xs i s = elim (get_elem? xs i) [ none ↦ fault | some x ↦ ok x s ]

unfoldable pub store_isr : ℕ → Ptr → Cmd Drv (Unit {0})
store_isr i p s =
    if ltb i (length s.uart_isrs)
    then ok tt (record s { uart_isrs = set s.uart_isrs i p })
    else fault

unfoldable pub store_handle : ℕ → Ptr → Cmd Drv (Unit {0})
store_handle i p s =
    if ltb i (length s.uart_handles)
    then ok tt (record s { uart_handles = set s.uart_handles i p })
    else fault

module _ (drv : Drivers) where
  unfoldable pub call : DrvCall → Cmd Drv ℕ
  call c s = ok (drv.answer s.calls c) (record s { calls = c ∷ s.calls })

  unfoldable pub run : DrvCall → Cmd Drv (Unit {0})
  unfolding call
  run c = do call c; pure tt

  abbrev pub gpio_in_pull_opt : List ℕ
  gpio_in_pull_opt = drv.in_nopull ∷ drv.in_pu ∷ drv.in_pd ∷ []

  abbrev pub gpio_int_type_opt : List ℕ
  gpio_int_type_opt =
      drv.in_int_none ∷ drv.in_int_falling ∷ drv.in_int_rising ∷ drv.in_int_both_edges ∷ []

  abbrev pub gpio_out_pull_opt : List ℕ
  gpio_out_pull_opt = drv.out_std ∷ drv.out_od_nopull ∷ drv.out_od_pu ∷ drv.out_od_pd ∷ []

  unfoldable pub hal_gpio_init : Cmd Drv (Unit {0})
  unfolding run
  hal_gpio_init s =
      if s.is_gpio_init
      then ok tt s
      else (do run gpio_init; modify (λ s'. record s' { is_gpio_init = true })) s

  unfoldable pub hal_gpio_create_in_pin : (pin pull int_type : ℕ) → Ptr → Cmd Drv (Unit {0})
  unfolding hal_gpio_init at run
  hal_gpio_create_in_pin pin pull int_type isr_fn = do
    hal_gpio_init
    pull_opt ← at gpio_in_pull_opt pull
    int_opt ← at gpio_int_type_opt int_type
    run (gpio_set_config pin (bit_or pull_opt int_opt))
    run (gpio_set_callback pin isr_fn)

  unfoldable pub hal_gpio_create_out_pin : (pin pull level : ℕ) → Cmd Drv (Unit {0})
  unfolding hal_gpio_init at run
  hal_gpio_create_out_pin pin pull level = do
    hal_gpio_init
    pull_opt ← at gpio_out_pull_opt pull
    run (gpio_set_config pin (bit_or pull_opt (if level == 0 then drv.out_low else drv.out_high)))

  unfoldable pub hal_gpio_enable_interrupt : (pin : ℕ) → Cmd Drv (Unit {0})
  unfolding run
  hal_gpio_enable_interrupt pin = run (gpio_enable_int pin)

  -- The result is a `uint8_t`.
  unfoldable pub hal_gpio_read_pin : (pin : ℕ) → Cmd Drv ℕ
  unfolding call
  hal_gpio_read_pin pin = do level ← call (gpio_read pin); pure (level % 2 ^ 8)

  unfoldable pub hal_gpio_write_pin : (pin level : ℕ) → Cmd Drv (Unit {0})
  unfolding run
  hal_gpio_write_pin pin level = run (gpio_write pin level)

  unfoldable pub hal_gpio_toggle_pin : (pin : ℕ) → Cmd Drv (Unit {0})
  unfolding run
  hal_gpio_toggle_pin pin = run (gpio_toggle pin)

  unfoldable pub hal_uart_init : (inst baud_rate : ℕ) → (isr_fn : Ptr) → Cmd Drv (Unit {0})
  unfolding call store_isr store_handle
  hal_uart_init inst baud_rate isr_fn = do
    (if isr_fn == null then pure tt else store_isr inst isr_fn)
    handle ← call (
        uart_open inst baud_rate
          (if isr_fn == null then none else some (if inst == 0 then 0 else 1)))
    store_handle inst handle

  -- Both return a `uint16_t`.
  unfoldable pub hal_uart_send : (inst : ℕ) → (p_data : Ptr) → (data_len : ℕ) → Cmd Drv ℕ
  unfolding call at
  hal_uart_send inst p_data data_len s =
      (do
        handle ← at s.uart_handles inst
        status ← call (uart_write handle p_data data_len)
        pure (status % 2 ^ 16))
        s

  unfoldable pub hal_uart_receive : (inst : ℕ) → (p_data : Ptr) → (data_len : ℕ) → Cmd Drv ℕ
  unfolding call at
  hal_uart_receive inst p_data data_len s =
      (do
        handle ← at s.uart_handles inst
        status ← call (uart_read handle p_data data_len)
        pure (status % 2 ^ 16))
        s

-- The handler of a port's read: it calls the function that is registered for the port, whose
-- address is the result. NULL is not called.
unfoldable pub uart_read_data_isr : (inst : ℕ) → Cmd Drv Ptr
unfolding at
uart_read_data_isr inst s =
    (do isr_fn ← at s.uart_isrs inst; (if isr_fn == null then (λ s'. fault) else pure isr_fn)) s
