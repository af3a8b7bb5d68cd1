-- ===== src/Log/Devices.antt =====
-- The two devices that log_backend.c writes to: ccs_project/src/lib/log/log_backend_uart.c on a
-- serial port, and log_backend_itm.c on the trace port.
use cc2745_repo.Prelude.{
  ℕ, ◌<◌, ◌≤◌, ◌≡◌, refl, Bool, true, false, Option, none, some, List, ◌∷◌, set, length,
  get_elem?-set_self, Bool-cases, ◌⊎◌, inl, inr, arith, ltb, if◌then◌else◌, Run, ok, fault, blocked,
  out_of_fuel, Cmd, pure, modify, ◌>>◌,
}
use cc2745_repo.Links.{Ptr, null}
use cc2745_repo.Hal.Drv.{DrvCall, uart_open, uart_write, Drivers, Drv, hal_uart_init, hal_uart_send}

abbrev pub log_uart_baud_rate : ℕ
log_uart_baud_rate = 115200

abbrev pub log_uart_instance : ℕ
log_uart_instance = 0

-- `m_enabled` of the serial device, and the drivers.
pub record LogUart : Type 0 where
  pub m_enabled : Bool
  pub drivers : Drv

drivers_result : {A : Type 0} → Run Drv A → Cmd LogUart A
drivers_result (ok a d) s = ok a (record s { drivers = d })
drivers_result fault s = fault
drivers_result blocked s = blocked
drivers_result out_of_fuel s = out_of_fuel

module _ (drv : Drivers) where
  unfoldable pub log_backend_uart_init : Cmd LogUart (Unit {0})
  unfolding drivers_result
  log_backend_uart_init s =
      if s.m_enabled
      then ok tt s
      else (do
        (λ s'.
            drivers_result (hal_uart_init drv log_uart_instance log_uart_baud_rate null s'.drivers)
              s')
        modify (λ s'. record s' { m_enabled = true }))
          s

  unfoldable pub log_backend_uart_write : (p_data : Ptr) → (data_len : ℕ) → Cmd LogUart (Unit {0})
  unfolding drivers_result
  log_backend_uart_write p_data data_len = do
    (λ s. drivers_result (hal_uart_send drv log_uart_instance p_data data_len s.drivers) s)
    pure tt

-- `m_enabled` of the trace device has no other use than to be set.
unfoldable pub log_backend_itm_init : Bool → Bool
log_backend_itm_init m_enabled = if m_enabled then m_enabled else true

-- `p_data` is the object that the text is in. The result is the object, which is what is printed:
-- the text gets an end behind it. A write outside the object is a fault, `none`.
unfoldable pub log_backend_itm_write : List ℕ → (data_len : ℕ) → Option (List ℕ)
log_backend_itm_write p_data data_len =
    if ltb data_len (length p_data) then some (set p_data data_len 0) else none

module _ (drv : Drivers) where
  abbrev opening : DrvCall
  opening = uart_open log_uart_instance log_uart_baud_rate none

  abbrev handle_of : Drv → Ptr
  handle_of d = drv.answer d.calls opening

  abbrev enabled : LogUart → LogUart
  enabled s = record {
    m_enabled = true;
    drivers = record (s.drivers) {
      uart_handles = set s.drivers.uart_handles 0 (handle_of s.drivers);
      calls = opening ∷ s.drivers.calls;
    };
  }

  -- The first initialisation opens the serial port, a second one changes nothing, and what is
  -- written after it goes to the port's handle.
  pub log_backend_uart_lem :
      (s : LogUart) (p_data : Ptr) (data_len : ℕ)
      → s.m_enabled ≡ false
      → 0 < length s.drivers.uart_handles
      → (log_backend_uart_init drv s ≡ ok tt (enabled s))
        × (log_backend_uart_init drv (enabled s) ≡ ok tt (enabled s))
        × (log_backend_uart_write drv p_data data_len (enabled s)
            ≡ ok tt (record (enabled s) {
              drivers = record ((enabled s).drivers) {
                calls =
                    uart_write (handle_of s.drivers) p_data data_len ∷ opening ∷ s.drivers.calls;
              };
            }))
  unfolding log_backend_uart_init log_backend_uart_write hal_uart_init hal_uart_send
  log_backend_uart_lem s p_data data_len off has =
      let handle = get_elem?-set_self s.drivers.uart_handles 0 (handle_of s.drivers) has in
      (ground (arith, off), refl, ground (arith, handle))

-- A text that fills its object has no room for the end: the trace device then writes outside.
pub log_backend_itm_write_lem :
    (p_data : List ℕ) (data_len : ℕ)
    → ((data_len < length p_data)
        × (log_backend_itm_write p_data data_len ≡ some (set p_data data_len 0)))
      ⊎ ((length p_data ≤ data_len) × (log_backend_itm_write p_data data_len ≡ none))
unfolding log_backend_itm_write
log_backend_itm_write_lem p_data data_len = elim (Bool-cases (ltb data_len (length p_data))) [
  | inl fits ↦ inl (ground arith, rw fits refl)
  | inr full ↦ inr (ground arith, rw full refl)
]
