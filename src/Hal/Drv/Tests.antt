-- ===== src/Hal/Drv/Tests.antt =====
-- The theorem on a history of four operations.
use cc2745_repo.Prelude.{refl, true, none, [], ◌∷◌}
use cc2745_repo.Hal.Drv.{
  Drivers, Drv, uart_open, gpio_init, gpio_set_config, gpio_write, hal_gpio_create_out_pin,
  hal_gpio_write_pin, hal_uart_init,
}
use cc2745_repo.Hal.Drv.Order.{
  IsOrdered, Reach, start, next, init_uart, create_out_pin, write_pin, perform, Reach-IsOrdered,
}

abbrev drivers : Drivers
drivers = record {
  in_nopull = 1;
  in_pu = 2;
  in_pd = 4;
  in_int_none = 8;
  in_int_falling = 16;
  in_int_rising = 32;
  in_int_both_edges = 48;
  out_std = 0;
  out_od_nopull = 64;
  out_od_pu = 128;
  out_od_pd = 192;
  out_high = 256;
  out_low = 512;
  answer = λ calls c. 700;
}

abbrev used : Drv
used = record {
  is_gpio_init = true;
  uart_handles = 700 ∷ 0 ∷ [];
  uart_isrs = 0 ∷ 0 ∷ [];
  calls =
      gpio_write 6 1
      ∷ gpio_set_config 7 256
      ∷ gpio_set_config 6 512
      ∷ gpio_init
      ∷ uart_open 0 115200 none
      ∷ [];
}

reached : Reach drivers used
unfolding perform hal_uart_init hal_gpio_create_out_pin hal_gpio_write_pin
reached =
    next
      (next (next (next start (init_uart 0 115200 0) refl) (create_out_pin 6 0 0) refl)
        (create_out_pin 7 0 1) refl)
      (write_pin 6 1) refl

Reach-IsOrdered_example : IsOrdered used
Reach-IsOrdered_example = Reach-IsOrdered drivers reached
