-- ===== src/Framework.antt =====
-- ccs_project/src/module/framework and main.c: the trap for asserts of the stack, and the start of
-- the firmware up to the scheduler. What `main` logs is kept as a list of lines.
use cc2745_repo.Prelude.{
  ℕ, ◌%◌, ◌^◌, ◌≡◌, ◌==◌, refl, arith, Bool, true, if◌then◌else◌, List, ◌∷◌, Os, ok, fault, blocked,
  out_of_fuel, Cmd, pure, modify, ◌>>◌,
}
use cc2745_repo.Links.{Ptr}
use cc2745_repo.Hal.Mutex
use cc2745_repo.Hal.Rtos.{start_scheduler, Rtos, Calls, hal_task_start_scheduler}
use cc2745_repo.Log.Print.{Log, log_init}
use cc2745_repo.BleStart.{Config, Host, ble_task_init}

-- The causes that the `switch` names.
pub data AssertCause : Type 0 where
  out_of_memory internal_error icall_abort icall_timeout wrong_api_call : AssertCause
  stack_overflow_error ll_init_rng_noise_failure other_cause : AssertCause

-- The vendor's part: `spinlock` is HAL_ASSERT_SPINLOCK.
pub record Vendor (S : Type 0) : Type 0 where
  pub spinlock : Cmd S (Unit {0})
  pub fw_internal_error : ℕ
  pub tick_period : ℕ
  pub max_msecs : ℕ
  pub reset_reason : ℕ
  pub build_date : Ptr
  pub build_time : Ptr

module _ {S : Type 0} (vendor : Vendor S) where
  open vendor use {spinlock, fw_internal_error}

  unfoldable pub fwk_assert_handler :
      (assert_cause : AssertCause) → (assert_subcause : ℕ) → Cmd S (Unit {0})
  fwk_assert_handler out_of_memory sub = spinlock
  fwk_assert_handler internal_error sub = if sub == fw_internal_error then spinlock else spinlock
  fwk_assert_handler icall_abort sub = spinlock
  fwk_assert_handler icall_timeout sub = spinlock
  fwk_assert_handler wrong_api_call sub = spinlock
  fwk_assert_handler stack_overflow_error sub = spinlock
  fwk_assert_handler ll_init_rng_noise_failure sub = spinlock
  fwk_assert_handler other_cause sub = spinlock

  unfoldable pub application_stack_overflow_hook : Cmd S (Unit {0})
  unfolding fwk_assert_handler
  application_stack_overflow_hook = fwk_assert_handler stack_overflow_error 0

-- The callbacks for asserts are set or not; the rest is the user's configuration of the stack.
pub record Fwk : Type 0 where
  pub assert_cback : Bool
  pub assert_cback_registered : Bool
  pub board_ready : Bool
  pub timer_tick_period : ℕ
  pub timer_max_millisecond : ℕ

-- What `main` hands to `log_info`.
pub data Banner : Type 0 where
  new_line rule : Banner
  reset_by : ℕ → Banner
  build_date build_time device_name : Ptr → Banner

-- What `main` starts; `banner` and `calls` are newest first.
pub record Firmware : Type 0 where
  pub fwk : Fwk
  pub log : Log
  pub host : Host
  pub banner : List Banner
  pub calls : Calls

module _ (vendor : Vendor Firmware) where
  unfoldable pub fwk_init : Fwk → Fwk
  fwk_init f = record {
    assert_cback = true;
    assert_cback_registered = true;
    board_ready = true;
    timer_tick_period = vendor.tick_period;
    timer_max_millisecond = vendor.max_msecs;
  }

  unfoldable pub fwk_get_build_date : Ptr
  fwk_get_build_date = vendor.build_date

  unfoldable pub fwk_get_build_time : Ptr
  fwk_get_build_time = vendor.build_time

  unfoldable pub fwk_get_reset_reason : ℕ
  fwk_get_reset_reason = vendor.reset_reason % 2 ^ 32

  say : Banner → Cmd Firmware (Unit {0})
  say b = modify (λ s. record s { banner = b ∷ s.banner })

  unfoldable pub greet : Config → Cmd Firmware (Unit {0})
  unfolding say fwk_get_reset_reason fwk_get_build_date fwk_get_build_time
  greet config = do
    say new_line
    say rule
    say (reset_by fwk_get_reset_reason)
    say (build_date fwk_get_build_date)
    say (build_time fwk_get_build_time)
    say (device_name config.att_device_name)
    say rule

  unfoldable pub start_tasks : Rtos → Cmd Firmware (Unit {0})
  unfolding hal_task_start_scheduler
  start_tasks rtos s = elim (hal_task_start_scheduler rtos s.calls) [
    | ok a calls ↦ ok a (record s { calls = calls })
    | fault ↦ fault
    | blocked ↦ blocked
    | out_of_fuel ↦ out_of_fuel
  ]

  unfoldable pub main : Os → Rtos → Config → Cmd Firmware ℕ
  unfolding fwk_init greet start_tasks
  main os rtos config = do
    modify (λ s. record s { fwk = fwk_init s.fwk })
    modify (λ s. record s { log = log_init os s.log })
    greet config
    modify (λ s. record s { host = ble_task_init config s.host })
    start_tasks rtos
    pure 0

-- An assert of any cause, an overflow of a stack included, does not return where the vendor's spin
-- lock does not: the firmware never runs on.
pub assert_traps :
    {S : Type 0} (vendor : Vendor S) (cause : AssertCause) (sub : ℕ) (s : S)
    → vendor.spinlock s ≡ blocked
    → (fwk_assert_handler vendor cause sub s ≡ blocked)
      × (application_stack_overflow_hook vendor s ≡ blocked)
unfolding fwk_assert_handler application_stack_overflow_hook
assert_traps vendor out_of_memory sub s e = (e, e)
assert_traps vendor internal_error sub s e = (ground (arith, e), e)
assert_traps vendor icall_abort sub s e = (e, e)
assert_traps vendor icall_timeout sub s e = (e, e)
assert_traps vendor wrong_api_call sub s e = (e, e)
assert_traps vendor stack_overflow_error sub s e = (e, e)
assert_traps vendor ll_init_rng_noise_failure sub s e = (e, e)
assert_traps vendor other_cause sub s e = (e, e)

-- When the scheduler starts, which is the last thing that `main` asks for, both callbacks for
-- asserts are set, the board is ready, the log is initialised with its mutex free, and the task of
-- the host has been started once.
pub main_lem :
    (vendor : Vendor Firmware) (os : Os) (rtos : Rtos) (config : Config) (s : Firmware)
    → (s' : Firmware) × (main vendor os rtos config s ≡ ok 0 s')
      × (s'.calls ≡ start_scheduler ∷ s.calls)
      × (s'.fwk.assert_cback ≡ true)
      × (s'.fwk.assert_cback_registered ≡ true)
      × (s'.fwk.board_ready ≡ true)
      × (s'.log.m_log_mutex ≡ Mutex.init os)
      × (s'.host ≡ ble_task_init config s.host)
unfolding main log_init hal_task_start_scheduler
main_lem vendor os rtos config s = (_, refl, refl, refl, refl, refl, refl, refl)
