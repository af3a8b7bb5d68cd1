-- ===== src/Hal/Drv/Ports.antt =====
-- The two serial ports.
use cc2745_repo.Prelude.{
  ℕ, ◌%◌, ◌^◌, ◌<◌, ◌≡◌, ◌≢◌, some, ◌∷◌, get_elem?, set, length, get_elem?-set_self,
  get_elem?-set_ne, arith, ◌==◌, if◌then◌else◌, ok,
}
use cc2745_repo.Links.{Ptr, null}
use cc2745_repo.Hal.Drv.{
  DrvCall, uart_open, uart_write, uart_read, Drivers, Drv, at, hal_uart_init, hal_uart_send,
  hal_uart_receive, uart_read_data_isr,
}

module _ (drv : Drivers) where
  abbrev opening : ℕ → ℕ → DrvCall
  opening inst baud_rate = uart_open inst baud_rate (some (if inst == 0 then 0 else 1))

  abbrev opened : Drv → ℕ → ℕ → Ptr → Drv
  opened s inst baud_rate isr_fn = record s {
    uart_isrs = set s.uart_isrs inst isr_fn;
    uart_handles = set s.uart_handles inst (drv.answer s.calls (opening inst baud_rate));
    calls = opening inst baud_rate ∷ s.calls;
  }

  init_run :
      (s : Drv) (inst baud_rate : ℕ) (isr_fn : Ptr)
      → isr_fn ≢ null
      → inst < length s.uart_isrs
      → inst < length s.uart_handles
      → hal_uart_init drv inst baud_rate isr_fn s ≡ ok tt (opened s inst baud_rate isr_fn)
  unfolding hal_uart_init
  init_run s inst baud_rate isr_fn given isrs handles = ground arith

  pub isr_run :
      (s : Drv) (inst : ℕ) (isr_fn : Ptr)
      → get_elem? s.uart_isrs inst ≡ some isr_fn
      → isr_fn ≢ null
      → uart_read_data_isr inst s ≡ ok isr_fn s
  unfolding uart_read_data_isr
  isr_run s inst isr_fn at given = ground (arith, at)

  pub receive_run :
      (s : Drv) (inst : ℕ) (handle p_data : Ptr) (data_len : ℕ)
      → get_elem? s.uart_handles inst ≡ some handle
      → hal_uart_receive drv inst p_data data_len s
        ≡ ok
            (drv.answer s.calls (uart_read handle p_data data_len) % 2 ^ 16)
            (record s { calls = uart_read handle p_data data_len ∷ s.calls })
  unfolding hal_uart_receive
  receive_run s inst handle p_data data_len at = ground (arith, at)

  pub send_run :
      (s : Drv) (inst : ℕ) (handle p_data : Ptr) (data_len : ℕ)
      → get_elem? s.uart_handles inst ≡ some handle
      → hal_uart_send drv inst p_data data_len s
        ≡ ok
            (drv.answer s.calls (uart_write handle p_data data_len) % 2 ^ 16)
            (record s { calls = uart_write handle p_data data_len ∷ s.calls })
  unfolding hal_uart_send
  send_run s inst handle p_data data_len at = ground (arith, at)

  -- A port that is initialised with a function: its reads end in a call of that function, what is
  -- sent to it goes to the handle that the driver has opened, and the other port keeps both.
  pub hal_uart_init_lem :
      (s : Drv) (inst other baud_rate : ℕ) (isr_fn p_data : Ptr) (data_len : ℕ)
      → isr_fn ≢ null
      → inst < length s.uart_isrs
      → inst < length s.uart_handles
      → inst ≢ other
      → (s' : Drv) × (hal_uart_init drv inst baud_rate isr_fn s ≡ ok tt s')
        × (uart_read_data_isr inst s' ≡ ok isr_fn s')
        × (hal_uart_send drv inst p_data data_len s'
            ≡ ok
                (drv.answer s'.calls
                    (uart_write (drv.answer s.calls (opening inst baud_rate)) p_data data_len)
                  % 2 ^ 16)
                (record s' {
                  calls =
                      uart_write (drv.answer s.calls (opening inst baud_rate)) p_data data_len
                      ∷ s'.calls;
                }))
        × (get_elem? s'.uart_isrs other ≡ get_elem? s.uart_isrs other)
        × (get_elem? s'.uart_handles other ≡ get_elem? s.uart_handles other)
  hal_uart_init_lem s inst other baud_rate isr_fn p_data data_len given isrs handles ne =
      let s' = opened s inst baud_rate isr_fn in
      (
        s',
        init_run s inst baud_rate isr_fn given isrs handles,
        isr_run s' inst isr_fn (get_elem?-set_self s.uart_isrs inst isr_fn isrs) given,
        send_run s' inst _ p_data data_len (get_elem?-set_self s.uart_handles inst _ handles),
        get_elem?-set_ne s.uart_isrs inst other isr_fn ne,
        get_elem?-set_ne s.uart_handles inst other _ ne,
      )
