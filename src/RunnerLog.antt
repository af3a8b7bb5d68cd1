-- ===== src/RunnerLog.antt =====
-- ccs_project/src/runner/runner_log.c: a task that logs a counter every second, for ever. A line is
-- what it hands to `log_info`; the log's own state after `log_init` is part of the task's.
use cc2745_repo.Prelude.{
  ℕ, zero, suc, ◌+◌, ◌/◌, ◌%◌, ◌^◌, ◌≡◌, refl, List, [], ◌∷◌, ◌++◌, replicate, arith, Os, ok, fault,
  blocked, out_of_fuel, Cmd, ◌>>◌,
}
use cc2745_repo.Links.{Ptr}
use cc2745_repo.Hal.Rtos.{delay, Rtos, Calls, hal_task_create, hal_delay_ms}
use cc2745_repo.Log.Print.{Log, log_init}

pub data Line : Type 0 where
  log_task_entry : Line
  dida : (count : ℕ) → Line

-- `lines` and `calls` are newest first.
pub record Runner : Type 0 where
  pub log : Log
  pub count : ℕ
  pub lines : List Line
  pub calls : Calls

module _ (os : Os) (rtos : Rtos) where
  unfoldable pub begin_task : Cmd Runner (Unit {0})
  begin_task s =
      ok tt (record s { log = log_init os s.log; count = 0; lines = log_task_entry ∷ s.lines })

  -- One round of the loop; `count` is a `uint32_t`.
  unfoldable pub round : Cmd Runner (Unit {0})
  unfolding hal_delay_ms
  round s = elim (hal_delay_ms rtos 1000 s.calls) [
    | ok a calls ↦
        ok a (record s {
          count = (s.count + 1) % 2 ^ 32;
          lines = dida s.count ∷ s.lines;
          calls = calls;
        })
    | fault ↦ fault
    | blocked ↦ blocked
    | out_of_fuel ↦ out_of_fuel
  ]

  unfoldable pub rounds : ℕ → Cmd Runner (Unit {0})
  unfolding round
  rounds zero s = ok tt s
  rounds (suc n) s = elim (rounds n s) [
    | ok a s' ↦ round s'
    | fault ↦ fault
    | blocked ↦ blocked
    | out_of_fuel ↦ out_of_fuel
  ]

  unfoldable pub runner_task_entry : (rounds_run : ℕ) → Cmd Runner (Unit {0})
  unfolding begin_task rounds
  runner_task_entry n = do begin_task; rounds n

  unfoldable pub runner_log_create_task : (name entry_fn : Ptr) → Cmd Calls Ptr
  unfolding hal_task_create
  runner_log_create_task name entry_fn =
      hal_task_create rtos
        (record { name = name; stack_size = 1024; priority = 5; entry_fn = entry_fn; arg = 0 })

  -- The lines of `n` rounds, newest first.
  abbrev pub didas : ℕ → List Line
  didas zero = []
  didas (suc n) = dida (n % 2 ^ 32) ∷ didas n

  -- However many rounds have run, the lines number them from 0 on, modulo 2 ^ 32, with one delay of
  -- a second, in whole ticks, behind each.
  pub runner_task_entry_lem :
      (n : ℕ) (s : Runner)
      → runner_task_entry n s
        ≡ ok tt (record {
          log = log_init os s.log;
          count = n % 2 ^ 32;
          lines = didas n ++ log_task_entry ∷ s.lines;
          calls = replicate n (delay (1000 / rtos.tick_period_ms)) ++ s.calls;
        })
  unfolding runner_task_entry begin_task rounds round
  runner_task_entry_lem zero s = refl
  runner_task_entry_lem (suc n) s = ground (arith, runner_task_entry_lem n s)
