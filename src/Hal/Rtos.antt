-- ===== src/Hal/Rtos.antt =====
-- Tasks, delays and timers of ccs_project/src/hal/hal_os_api.c over FreeRTOS, which is a parameter:
-- its configuration, and what it answers after the calls made so far.
pub mod Stack
use cc2745_repo.Prelude.{
  ℕ, ◌/◌, ◌%◌, ◌^◌, Bool, List, [], ◌∷◌, ◌==◌, if◌then◌else◌, ok, Cmd, pure, ◌>>=◌, ◌>>◌,
}
use cc2745_repo.Links.{Ptr, null}

pub record TaskParam : Type 0 where
  pub name : Ptr
  pub stack_size : ℕ
  pub priority : ℕ
  pub entry_fn : Ptr
  pub arg : Ptr

pub record TimerParam : Type 0 where
  pub name : Ptr
  pub repeat : Bool
  pub period : ℕ
  pub arg : Ptr
  pub callback : Ptr

pub data RtosCall : Type 0 where
  create_task : (entry_fn name : Ptr) → (depth : ℕ) → (arg : Ptr) → (priority : ℕ) → RtosCall
  current_task : RtosCall
  task_name : (task : Ptr) → RtosCall
  start_scheduler : RtosCall
  suspend : (task : Ptr) → RtosCall
  delay : (ticks : ℕ) → RtosCall
  native32 : RtosCall
  native64 : RtosCall
  create_timer :
      (name : Ptr) → (period : ℕ) → (is_auto_load : Bool) → (arg callback : Ptr) → RtosCall
  start_timer : (timer : Ptr) → (ticks_to_wait : ℕ) → RtosCall
  stop_timer : (timer : Ptr) → (ticks_to_wait : ℕ) → RtosCall
  timer_active : (timer : Ptr) → RtosCall

-- The answer to the creation of a task is the handle that is stored, NULL where it fails.
pub record Rtos : Type 0 where
  pub stack_type_size : ℕ
  pub tick_period_ms : ℕ
  pub ms_to_ticks : ℕ → ℕ
  pub answer : List RtosCall → RtosCall → ℕ

-- The calls so far, newest first.
abbrev pub Calls : Type 0
Calls = List RtosCall

-- A name that is returned: that of the task, or one of the two texts.
pub data TaskName : Type 0 where
  named : Ptr → TaskName
  unknown host : TaskName

module _ (rtos : Rtos) where
  unfoldable pub call : RtosCall → Cmd Calls ℕ
  call c s = ok (rtos.answer s c) (c ∷ s)

  unfoldable pub hal_task_create : TaskParam → Cmd Calls Ptr
  unfolding call
  hal_task_create p = call (
      create_task p.entry_fn p.name (p.stack_size / rtos.stack_type_size % 2 ^ 16) p.arg p.priority)

  unfoldable pub hal_task_get_name : Cmd Calls TaskName
  unfolding call
  hal_task_get_name = do
    task_handle ← call current_task
    (if task_handle == null
        then pure host
        else (do name ← call (task_name null); pure (if name == null then unknown else named name)))

  unfoldable pub hal_task_start_scheduler : Cmd Calls (Unit {0})
  unfolding call
  hal_task_start_scheduler = do call start_scheduler; pure tt

  unfoldable pub hal_task_suspend_self : Cmd Calls (Unit {0})
  unfolding call
  hal_task_suspend_self = do call (suspend null); pure tt

  unfoldable pub hal_delay_ms : (delay_ms : ℕ) → Cmd Calls (Unit {0})
  unfolding call
  hal_delay_ms delay_ms = do call (delay (delay_ms / rtos.tick_period_ms)); pure tt

  unfoldable pub hal_get_timestamp32 : Cmd Calls ℕ
  unfolding call
  hal_get_timestamp32 = do t ← call native32; pure (t % 2 ^ 32)

  unfoldable pub hal_get_timestamp64 : Cmd Calls ℕ
  unfolding call
  hal_get_timestamp64 = do t ← call native64; pure (t % 2 ^ 64)

  -- The timer's handle is the result.
  unfoldable pub hal_timer_create : TimerParam → Cmd Calls Ptr
  unfolding call
  hal_timer_create p =
      call (create_timer p.name (rtos.ms_to_ticks p.period % 2 ^ 32) p.repeat p.arg p.callback)

  unfoldable pub hal_timer_start : (handle : Ptr) → (delay_ms : ℕ) → Cmd Calls (Unit {0})
  unfolding call
  hal_timer_start handle delay_ms = do
    call (start_timer handle (rtos.ms_to_ticks delay_ms))
    pure tt

  unfoldable pub hal_timer_stop : (handle : Ptr) → Cmd Calls (Unit {0})
  unfolding call
  hal_timer_stop handle = do call (stop_timer handle 0); pure tt

  -- The answer is dropped.
  unfoldable pub hal_timer_alive : (handle : Ptr) → Cmd Calls (Unit {0})
  unfolding call
  hal_timer_alive handle = do call (timer_active handle); pure tt
