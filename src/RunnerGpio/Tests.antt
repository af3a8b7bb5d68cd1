-- ===== src/RunnerGpio/Tests.antt =====
-- The theorem after two presses.
use cc2745_repo.Prelude.{◌≡◌, refl, true, [], ◌∷◌, ok}
use cc2745_repo.Hal.Drv.{
  Drivers, Drv, gpio_init, gpio_set_config, gpio_set_callback, gpio_enable_int, gpio_toggle,
  hal_gpio_create_in_pin, hal_gpio_create_out_pin, hal_gpio_enable_interrupt, hal_gpio_toggle_pin,
}
use cc2745_repo.RunnerGpio.{
  Board, sleeping, Runner, button_isr_left, statement, Reach, start, next, runs, pressed,
}
use cc2745_repo.RunnerGpio.Lamp.{Reach-calls}

abbrev drivers : Drivers
drivers = record {
  in_nopull = 1;
  in_pu = 2;
  in_pd = 4;
  in_int_none = 8;
  in_int_falling = 16;
  in_int_rising = 32;
  in_int_both_edges = 48;
  out_std = 0;
  out_od_nopull = 64;
  out_od_pu = 128;
  out_od_pd = 192;
  out_high = 256;
  out_low = 512;
  answer = λ calls c. 0;
}

abbrev board : Board
board = record { button = 9; led = 11; isr_fn = 4096 }

abbrev pressed_twice : Runner
pressed_twice = record {
  place = sleeping;
  drv = record {
    is_gpio_init = true;
    uart_handles = 0 ∷ 0 ∷ [];
    uart_isrs = 0 ∷ 0 ∷ [];
    calls =
        gpio_toggle 11
        ∷ gpio_toggle 11
        ∷ gpio_enable_int 9
        ∷ gpio_set_config 11 512
        ∷ gpio_set_callback 9 4096
        ∷ gpio_set_config 9 18
        ∷ gpio_init
        ∷ [];
  };
  presses = 2;
}

reached : Reach drivers board pressed_twice
unfolding statement button_isr_left hal_gpio_create_in_pin hal_gpio_create_out_pin
    hal_gpio_enable_interrupt hal_gpio_toggle_pin
reached =
    next (next (next (next (next start (runs refl)) (runs refl)) (runs refl)) (pressed refl refl))
      (pressed refl refl)

Reach-calls_example :
    (pressed_twice.drv.calls
      ≡ gpio_toggle 11
        ∷ gpio_toggle 11
        ∷ gpio_enable_int 9
        ∷ gpio_set_config 11 512
        ∷ gpio_set_callback 9 4096
        ∷ gpio_set_config 9 18
        ∷ gpio_init
        ∷ [])
    × ((d : Drv) × (statement drivers board sleeping pressed_twice.drv ≡ ok tt d))
Reach-calls_example = Reach-calls drivers board reached
