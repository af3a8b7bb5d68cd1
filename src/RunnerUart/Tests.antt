-- ===== src/RunnerUart/Tests.antt =====
-- The theorems on the first rounds of the task.
use cc2745_repo.Prelude.{ℕ, ◌+◌, ◌≡◌, refl, true, [], ◌∷◌, length, arith, ok}
use cc2745_repo.Hal.Mutex
use cc2745_repo.Hal.Drv.{DrvCall, uart_open, Drivers}
use cc2745_repo.Libc.Models.{counter, counter-IsSemaphore}
use cc2745_repo.RunnerUart.{
  Uart, echoing, hello, static_uart, IsSerial, complete_read, Step, begins, receives, locks, echoes,
  Reach, start, next,
}
use cc2745_repo.RunnerUart.Runs.{
  IsOpen, began, begin_run, began-IsOpen, received, receive_run, echoed, send_line_run,
}
use cc2745_repo.RunnerUart.Schedule.{echoes_ahead, never_stuck}

-- Drivers that open the port at 700 and accept every call.
abbrev answers : DrvCall → ℕ
answers (uart_open inst baud_rate callback) = 700
answers _ = 0

abbrev port : Uart → Drivers
port s = record {
  in_nopull = 1;
  in_pu = 2;
  in_pd = 4;
  in_int_none = 8;
  in_int_falling = 16;
  in_int_rising = 32;
  in_int_both_edges = 48;
  out_std = 0;
  out_od_nopull = 64;
  out_od_pu = 128;
  out_od_pd = 192;
  out_high = 256;
  out_low = 512;
  answer = λ calls c. answers c;
}

port-IsSerial : IsSerial port
port-IsSerial = record {
  opens = λ s calls inst baud_rate callback. omega arith;
  reads = λ s calls handle p_data data_len ne idle. refl;
}

abbrev begun : Uart
begun = began counter port static_uart

abbrev begun-IsOpen : IsOpen begun.drv
begun-IsOpen = began-IsOpen counter port port-IsSerial static_uart

abbrev asked : Uart
asked = received counter port begun begun-IsOpen

-- The mutex starts with a unit, so the task goes on before the read is completed.
abbrev locked : Uart
locked = record asked { place = echoing; m_uart_mutex = 0 }

abbrev locked-IsOpen : IsOpen locked.drv
locked-IsOpen = record {
  handle = 700;
  at = refl;
  ne_null = omega arith;
  isr = refl;
  callback = refl;
}

abbrev echoed_once : Uart
echoed_once = echoed counter port locked locked-IsOpen

abbrev echoed-IsOpen : IsOpen echoed_once.drv
echoed-IsOpen = record {
  handle = 700;
  at = refl;
  ne_null = omega arith;
  isr = refl;
  callback = refl;
}

-- The task has echoed once and waits, with no byte arrived.
abbrev waiting : Uart
waiting = received counter port echoed_once echoed-IsOpen

waiting_reached : Reach counter port waiting
unfolding counter Mutex.lock Mutex.init
waiting_reached =
    next
      (next
        (next
          (next (next start (begins refl (begin_run counter port static_uart refl)))
            (receives refl (receive_run counter port begun begun-IsOpen)))
          (locks refl refl))
        (echoes refl (send_line_run counter port locked locked-IsOpen)))
      (receives refl (receive_run counter port echoed_once echoed-IsOpen))

echoes_ahead_example : length waiting.sent ≡ waiting.arrived + 2
unfolding counter Mutex.lock
echoes_ahead_example = echoes_ahead counter-IsSemaphore port-IsSerial waiting_reached refl refl

never_stuck_example :
    ((s : Uart) × Step counter port waiting s)
    × (waiting.reading ≡ true
        → (a b c : ℕ) → (s : Uart) × (complete_read counter port a b c waiting ≡ ok tt s))
never_stuck_example = never_stuck counter-IsSemaphore port-IsSerial waiting_reached

-- What it has sent are three zero bytes and an end of line, after its greeting.
waiting_sent : waiting.sent ≡ (0 ∷ 0 ∷ 0 ∷ 13 ∷ 10 ∷ []) ∷ hello ∷ []
waiting_sent = refl
