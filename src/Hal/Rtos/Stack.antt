-- ===== src/Hal/Rtos/Stack.antt =====
-- The sizes and times that the operating system is asked for.
use native.Mathlib.Nat.{
  mod-eq_of_lt, div-lt_iff_lt-mul, div-mul-le_self, mul-div_cancel, lt-mul-div-succ, mul_comm,
}
use cc2745_repo.Prelude.{ℕ, ◌+◌, ◌*◌, ◌/◌, ◌%◌, ◌^◌, ◌<◌, ◌≤◌, ◌≡◌, refl, ◌∷◌, arith, ok}
use cc2745_repo.Hal.Rtos.{create_task, delay, Rtos, Calls, TaskParam, hal_task_create, hal_delay_ms}

quotient_bounds : (n m : ℕ) → 0 < m → (n / m * m ≤ n) × (n < (n / m + 1) * m)
quotient_bounds n m pos = (div-mul-le_self n m, rw (mul_comm (n / m + 1) m) (lt-mul-div-succ n pos))

mod_multiple : (k : ℕ) → k * 2 ^ 16 % 2 ^ 16 ≡ 0
mod_multiple k = omega arith

-- A delay ends no later than asked for, and less than one tick too early.
pub hal_delay_ms_bounds :
    (rtos : Rtos) (delay_ms : ℕ) (s : Calls)
    → 0 < rtos.tick_period_ms
    → (ticks : ℕ) × (hal_delay_ms rtos delay_ms s ≡ ok tt (delay ticks ∷ s))
      × (ticks * rtos.tick_period_ms ≤ delay_ms)
      × (delay_ms < (ticks + 1) * rtos.tick_period_ms)
unfolding hal_delay_ms
hal_delay_ms_bounds rtos delay_ms s pos =
    let (low, high) = quotient_bounds delay_ms rtos.tick_period_ms pos in
    (delay_ms / rtos.tick_period_ms, refl, low, high)

-- A new task gets the stack that it asks for, rounded down to words, if it asks for fewer than
-- 2 ^ 16 words.
pub hal_task_create_stack :
    (rtos : Rtos) (p : TaskParam) (s : Calls)
    → 0 < rtos.stack_type_size
    → p.stack_size < 2 ^ 16 * rtos.stack_type_size
    → (depth : ℕ) × (hal_task_create rtos p s
        ≡ ok
            (rtos.answer s (create_task p.entry_fn p.name depth p.arg p.priority))
            (create_task p.entry_fn p.name depth p.arg p.priority ∷ s))
      × (depth * rtos.stack_type_size ≤ p.stack_size)
      × (p.stack_size < (depth + 1) * rtos.stack_type_size)
unfolding hal_task_create
hal_task_create_stack rtos p s pos few =
    let (low, high) = quotient_bounds p.stack_size rtos.stack_type_size pos in
    let fits = mod-eq_of_lt ((div-lt_iff_lt-mul pos).1 few) in
    (p.stack_size / rtos.stack_type_size % 2 ^ 16, refl, rw fits low, rw fits high)

-- From 2 ^ 16 words on the depth wraps around, to no stack at all at every multiple.
pub hal_task_create_wraps :
    (rtos : Rtos) (p : TaskParam) (s : Calls) (k : ℕ)
    → 0 < rtos.stack_type_size
    → p.stack_size ≡ k * 2 ^ 16 * rtos.stack_type_size
    → hal_task_create rtos p s
      ≡ ok
          (rtos.answer s (create_task p.entry_fn p.name 0 p.arg p.priority))
          (create_task p.entry_fn p.name 0 p.arg p.priority ∷ s)
unfolding hal_task_create
hal_task_create_wraps rtos p s k pos asked =
    rw (asked, mul-div_cancel (k * 2 ^ 16) pos) (rw (mod_multiple k) refl)
