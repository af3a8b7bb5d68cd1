-- ===== src/RunnerUart.antt =====
-- ccs_project/src/runner/runner_uart.c: a task that echoes lines of three bytes, and the interrupt
-- of the serial port that wakes it. Each step of the one or the other is a step of the system. The
-- port is that of Hal/Drv, over drivers whose answers may depend on the whole state.
pub mod Runs
pub mod Schedule
mod Tests
use cc2745_repo.Prelude.{
  ℕ, zero, suc, ◌+◌, ◌≡◌, ◌≢◌, ◌||◌, ◌==◌, if◌then◌else◌, Bool, true, false, Option, none, some,
  List, [], ◌∷◌, length, take, set, replicate, Os, Cmd, Run, ok, fault, blocked, out_of_fuel,
  modify, ◌>>=◌, ◌>>◌,
}
use cc2745_repo.Hal.Mutex
use cc2745_repo.Hal.Rtos.{Rtos, Calls, hal_task_create}
use cc2745_repo.Hal.Drv.{
  DrvCall, uart_open, uart_read, Drivers, Drv, static_drv, hal_uart_init, hal_uart_send,
  hal_uart_receive, uart_read_data_isr,
}
use cc2745_repo.Links.{Ptr, null}

-- Where the task is: before its first statement, or before one of the three of its loop.
pub data Place : Type 0 where
  starting receiving locking echoing : Place

-- `drv` is the state of hal_drv_api.c, `reading` says whether the driver has a read to complete,
-- `sent` holds what was handed over to be sent, newest first, and `arrived` counts the completed
-- reads.
pub record Uart : Type 0 where
  pub place : Place
  pub m_uart_rx_buffer : List ℕ
  pub m_uart_mutex : ℕ
  pub drv : Drv
  pub reading : Bool
  pub sent : List (List ℕ)
  pub arrived : ℕ

-- Static storage starts at zero.
abbrev pub static_uart : Uart
static_uart = record {
  place = starting;
  m_uart_rx_buffer = replicate 16 0;
  m_uart_mutex = 0;
  drv = static_drv;
  reading = false;
  sent = [];
  arrived = 0;
}

-- "Hello\r\n"
abbrev pub hello : List ℕ
hello = 72 ∷ 101 ∷ 108 ∷ 108 ∷ 111 ∷ 13 ∷ 10 ∷ []

abbrev pub uart_inst : ℕ
uart_inst = 0

-- Addresses: of the function `uart_rx_isr`, of the greeting, and of the buffer.
abbrev pub uart_rx_isr_fn : Ptr
uart_rx_isr_fn = 1

abbrev pub hello_text : Ptr
hello_text = 2

abbrev pub rx_buffer : Ptr
rx_buffer = 3

-- The first three bytes of the buffer are what the driver has read.
abbrev pub fill : (a b c : ℕ) → List ℕ → List ℕ
fill a b c buffer = set (set (set buffer 0 a) 1 b) 2 c

abbrev pub line : List ℕ → List ℕ
line buffer = set (set buffer 3 13) 4 10

-- The handler that the port was last opened with.
abbrev pub read_callback : List DrvCall → Option ℕ
read_callback [] = none
read_callback (uart_open inst baud_rate callback ∷ cs) =
    if inst == uart_inst then callback else read_callback cs
read_callback (_ ∷ cs) = read_callback cs

drv_result : {A : Type 0} → Run Drv A → Cmd Uart A
drv_result (ok a d) s = ok a (record s { drv = d })
drv_result fault s = fault
drv_result blocked s = blocked
drv_result out_of_fuel s = out_of_fuel

lift : {A : Type 0} → Cmd Drv A → Cmd Uart A
unfolding drv_result
lift c s = drv_result (c s.drv) s

-- What the echo relies on: the port can be opened, and a read is accepted, with the status 0, while
-- none is going on. While one is, any answer will do.
pub record IsSerial (port : Uart → Drivers) : Type 0 where
  pub opens :
      (s : Uart) (calls : List DrvCall) (inst baud_rate : ℕ) (callback : Option ℕ)
      → (port s).answer calls (uart_open inst baud_rate callback) ≢ null
  pub reads :
      (s : Uart) (calls : List DrvCall) (handle p_data : Ptr) (data_len : ℕ)
      → handle ≢ null
      → s.reading ≡ false
      → (port s).answer calls (uart_read handle p_data data_len) ≡ 0

-- `port s` are the drivers as they answer in the state `s`.
module _ (os : Os) (port : Uart → Drivers) where
  unfoldable pub uart_rx_isr : Uart → Uart
  uart_rx_isr s = record s { m_uart_mutex = Mutex.unlock os s.m_uart_mutex }

  unfoldable pub send : (p_data : Ptr) → List ℕ → Cmd Uart (Unit {0})
  unfolding lift
  send p_data bytes s =
      (do
        status ← lift (hal_uart_send (port s) uart_inst p_data (length bytes))
        modify (λ s. record s { sent = bytes ∷ s.sent }))
        s

  unfoldable pub init_port : Cmd Uart (Unit {0})
  unfolding lift
  init_port s = lift (hal_uart_init (port s) uart_inst 115200 uart_rx_isr_fn) s

  unfoldable pub begin_task : Cmd Uart (Unit {0})
  unfolding init_port send
  begin_task = do
    modify (λ s. record s { m_uart_mutex = Mutex.init os })
    init_port
    send hello_text hello
    modify (λ s. record s { place = receiving })

  -- In the driver's callback mode a read returns at once. The code does not look at its status.
  unfoldable pub start_receive : Cmd Uart (Unit {0})
  unfolding lift
  start_receive s =
      (do
        status ← lift (hal_uart_receive (port s) uart_inst rx_buffer 3)
        modify (λ s. record s { place = locking; reading = s.reading || (status == 0) }))
        s

  unfoldable pub send_line : Cmd Uart (Unit {0})
  unfolding send
  send_line s =
      let buffer = line s.m_uart_rx_buffer in
      (do
        modify (λ s. record s { m_uart_rx_buffer = buffer })
        send rx_buffer (take 5 buffer)
        modify (λ s. record s { place = receiving }))
        s

  -- A call of a function by its address.
  unfoldable pub call_isr : Ptr → Cmd Uart (Unit {0})
  unfolding uart_rx_isr
  call_isr isr_fn s = if isr_fn == uart_rx_isr_fn then ok tt (uart_rx_isr s) else fault

  unfoldable pub notify : Option ℕ → Cmd Uart (Unit {0})
  unfolding lift call_isr
  notify none s = ok tt s
  notify (some handler) s = (do isr_fn ← lift (uart_read_data_isr handler); call_isr isr_fn) s

  -- The driver completes a read of three bytes, and calls the handler of the port, if it has one.
  unfoldable pub complete_read : (a b c : ℕ) → Cmd Uart (Unit {0})
  unfolding notify
  complete_read a b c s = notify (read_callback s.drv.calls) (record s {
    m_uart_rx_buffer = fill a b c s.m_uart_rx_buffer;
    reading = false;
    arrived = s.arrived + 1;
  })

  pub data Step (s : Uart) : Uart → Type 0 where
    begins : {s' : Uart} → s.place ≡ starting → begin_task s ≡ ok tt s' → Step s s'
    receives : {s' : Uart} → s.place ≡ receiving → start_receive s ≡ ok tt s' → Step s s'
    locks :
        {m : ℕ}
        → s.place ≡ locking
        → Mutex.lock os s.m_uart_mutex ≡ some m
        → Step s (record s { place = echoing; m_uart_mutex = m })
    echoes : {s' : Uart} → s.place ≡ echoing → send_line s ≡ ok tt s' → Step s s'
    completes :
        {s' : Uart} (a b c : ℕ) → s.reading ≡ true → complete_read a b c s ≡ ok tt s' → Step s s'

  pub data Reach : Uart → Type 0 where
    start : Reach static_uart
    next : {s s' : Uart} → Reach s → Step s s' → Reach s'

-- The name is at `name`, the task's function at `entry_fn`.
unfoldable pub runner_uart_create_task : Rtos → (name entry_fn : Ptr) → Cmd Calls Ptr
unfolding hal_task_create
runner_uart_create_task rtos name entry_fn =
    hal_task_create rtos
      (record { name = name; stack_size = 1024; priority = 5; entry_fn = entry_fn; arg = 0 })
