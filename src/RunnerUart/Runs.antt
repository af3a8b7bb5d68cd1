-- ===== src/RunnerUart/Runs.antt =====
-- What each statement of the task and the interrupt does, on an open port.
use cc2745_repo.Prelude.{
  ℕ, ◌+◌, ◌%◌, ◌^◌, ◌≡◌, ◌≢◌, ◌∙◌, ap, refl, false, ◌||◌, ◌==◌, some, [], ◌∷◌, get_elem?, length,
  take, arith, ok, Os,
}
use cc2745_repo.Hal.Mutex
use cc2745_repo.Hal.Drv.{
  uart_open, uart_write, uart_read, Drivers, Drv, static_drv, hal_uart_init, hal_uart_send,
}
use cc2745_repo.Hal.Drv.Ports
use cc2745_repo.Links.{Ptr, null}
use cc2745_repo.RunnerUart.{
  Uart, receiving, locking, hello, hello_text, rx_buffer, uart_rx_isr_fn, fill, line, read_callback,
  IsSerial, begin_task, init_port, send, start_receive, send_line, complete_read, notify, call_isr,
  uart_rx_isr, lift, drv_result,
}

-- The port has a handle, and its reads end in `uart_rx_isr`.
pub record IsOpen (d : Drv) : Type 0 where
  pub handle : Ptr
  pub at : get_elem? d.uart_handles 0 ≡ some handle
  pub ne_null : handle ≢ null
  pub isr : get_elem? d.uart_isrs 0 ≡ some uart_rx_isr_fn
  pub callback : read_callback d.calls ≡ some 0

module _ (os : Os) (port : Uart → Drivers) where
  abbrev ready : Uart → Uart
  ready s = record s { m_uart_mutex = Mutex.init os; drv = static_drv }

  abbrev pub opened_handle : Uart → Ptr
  opened_handle s = (port (ready s)).answer [] (uart_open 0 115200 (some 0))

  abbrev pub began : Uart → Uart
  began s = record s {
    place = receiving;
    m_uart_mutex = Mutex.init os;
    drv = record {
      is_gpio_init = false;
      uart_handles = opened_handle s ∷ null ∷ [];
      uart_isrs = uart_rx_isr_fn ∷ null ∷ [];
      calls = uart_write (opened_handle s) hello_text 7 ∷ uart_open 0 115200 (some 0) ∷ [];
    };
    sent = hello ∷ s.sent;
  }

  static_run : (s : Uart) → begin_task os port (record s { drv = static_drv }) ≡ ok tt (began s)
  unfolding begin_task init_port send lift drv_result hal_uart_init hal_uart_send
  static_run s = refl

  pub begin_run : (s : Uart) → s.drv ≡ static_drv → begin_task os port s ≡ ok tt (began s)
  begin_run s e =
      let same : s ≡ record s { drv = static_drv } = ap (λ d. record s { drv = d }) e in
      ap (begin_task os port) same ∙ static_run s

  pub began-IsOpen : IsSerial port → (s : Uart) → IsOpen (began s).drv
  began-IsOpen serial s = record {
    handle = opened_handle s;
    at = refl;
    ne_null = serial.opens (ready s) [] 0 115200 (some 0);
    isr = refl;
    callback = refl;
  }

  module _ (s : Uart) (open_port : IsOpen s.drv) where
    abbrev pub received : Uart
    received = record s {
      place = locking;
      reading =
          s.reading
          || ((port s).answer s.drv.calls (uart_read open_port.handle rx_buffer 3) % 2 ^ 16 == 0);
      drv = record (s.drv) { calls = uart_read open_port.handle rx_buffer 3 ∷ s.drv.calls };
    }

    pub receive_run : start_receive os port s ≡ ok tt received
    unfolding start_receive lift drv_result
    receive_run =
        rw (Ports.receive_run (port s) s.drv 0 open_port.handle rx_buffer 3 open_port.at) refl

    abbrev pub echoed : Uart
    echoed = record s {
      place = receiving;
      m_uart_rx_buffer = line s.m_uart_rx_buffer;
      sent = take 5 (line s.m_uart_rx_buffer) ∷ s.sent;
      drv = record (s.drv) {
        calls =
            uart_write open_port.handle rx_buffer (length (take 5 (line s.m_uart_rx_buffer)))
            ∷ s.drv.calls;
      };
    }

    pub send_line_run : send_line os port s ≡ ok tt echoed
    unfolding send_line send lift drv_result
    send_line_run =
        let filled = record s { m_uart_rx_buffer = line s.m_uart_rx_buffer } in
        rw
          (Ports.send_run (port filled) s.drv 0 open_port.handle rx_buffer
            (length (take 5 (line s.m_uart_rx_buffer))) open_port.at)
          refl

    abbrev pub completed : (a b c : ℕ) → Uart
    completed a b c = record s {
      m_uart_rx_buffer = fill a b c s.m_uart_rx_buffer;
      reading = false;
      arrived = s.arrived + 1;
      m_uart_mutex = Mutex.unlock os s.m_uart_mutex;
    }

    pub complete_run : (a b c : ℕ) → complete_read os port a b c s ≡ ok tt (completed a b c)
    unfolding complete_read notify lift drv_result call_isr uart_rx_isr
    complete_run a b c =
        rw open_port.callback
          (rw (Ports.isr_run (port s) s.drv 0 uart_rx_isr_fn open_port.isr (omega arith)) refl)
