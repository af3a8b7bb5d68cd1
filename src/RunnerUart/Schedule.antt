-- ===== src/RunnerUart/Schedule.antt =====
-- What holds in whatever order the task and the interrupt run.
use cc2745_repo.Prelude.{
  ℕ, zero, suc, ◌+◌, ◌%◌, ◌^◌, ◌<◌, ◌≡◌, ◌⊎◌, ◌∙◌, subst, sym, inl, inr, refl, Bool, true, false,
  ◌||◌, ◌==◌, none, some, [], length, arith, ok, Run, Os, IsSemaphore,
}
use cc2745_repo.Hal.Mutex
use cc2745_repo.Hal.Drv.{Drivers, static_drv}
use cc2745_repo.RunnerUart.{
  Place, starting, receiving, locking, echoing, Uart, rx_buffer, IsSerial, complete_read, Step,
  begins, receives, locks, echoes, completes, Reach, start, next,
}
use cc2745_repo.RunnerUart.Runs.{
  IsOpen, began, begin_run, began-IsOpen, received, receive_run, echoed, send_line_run, completed,
  complete_run,
}

-- The units that the task has taken and not yet given an echo for.
abbrev held : Place → ℕ
held echoing = 1
held _ = 0

-- The read that the task waits for is going on, or the mutex has a unit for it.
abbrev Wakes : Place → Bool → ℕ → Type 0
Wakes locking reading n = (reading ≡ true) ⊎ (0 < n)
Wakes _ reading n = Unit {0}

-- Before the task begins nothing is sent; from then on the port is open and the mutex is a
-- semaphore of `n` units, and the sum of units and echoes is one more than the number of completed
-- reads.
abbrev Balanced : Os → Place → Uart → Type 0
Balanced os starting s =
    (s.arrived ≡ 0) × (s.reading ≡ false) × (s.sent ≡ []) × (s.drv ≡ static_drv)
Balanced os p s =
    (n : ℕ) × (s.m_uart_mutex ≡ os.sem_init n)
    × (n + held p + length s.sent ≡ s.arrived + 2)
    × Wakes p s.reading n
    × IsOpen s.drv

pub record IsBalanced (os : Os) (s : Uart) : Type 0 where
  place : Place
  here : s.place ≡ place
  balanced : Balanced os place s

module _ {os : Os} (sem : IsSemaphore os) {port : Uart → Drivers} (serial : IsSerial port) where
  ok-injective : {s t : Uart} → ◌≡◌ {A = Run Uart (Unit {0})} (ok tt s) (ok tt t) → s ≡ t
  ok-injective e = cc

  -- The place `p` and `s.place` are the same, so `s` is balanced at `q`.
  at_place :
      (p q : Place) (s : Uart) → s.place ≡ p → s.place ≡ q → Balanced os p s → Balanced os q s
  at_place p q s here at bal = subst (λ r. Balanced os r s) (sym here ∙ at) bal

  -- A read is going on, or has just been accepted.
  accepted :
      (reading : Bool) (status : ℕ)
      → (reading ≡ false → status ≡ 0)
      → (reading || (status % 2 ^ 16 == 0)) ≡ true
  accepted true status h = refl
  accepted false status h = rw (h refl) refl

  reading_on : (s : Uart) (o : IsOpen s.drv) → (received os port s o).reading ≡ true
  reading_on s o = accepted s.reading _ (serial.reads s s.drv.calls o.handle rx_buffer 3 o.ne_null)

  completed-Balanced :
      (a b c : ℕ) (p : Place) (s : Uart)
      → s.reading ≡ true
      → Balanced os p s
      → (o : IsOpen s.drv) × Balanced os p (completed os port s o a b c)
  unfolding Mutex.unlock
  completed-Balanced a b c starting s pending (none_yet, idle, nothing, closed) = absurd (cc)
  completed-Balanced a b c receiving s pending (n, units, sum, w, o) =
      (o, (suc n, rw units (sem.post_lem n), omega (arith, sum), tt, o))
  completed-Balanced a b c locking s pending (n, units, sum, w, o) =
      (o, (suc n, rw units (sem.post_lem n), omega (arith, sum), inr (omega arith), o))
  completed-Balanced a b c echoing s pending (n, units, sum, w, o) =
      (o, (suc n, rw units (sem.post_lem n), omega (arith, sum), tt, o))

  lock_units :
      (n m k : ℕ)
      → k ≡ os.sem_init n
      → Mutex.lock os k ≡ some m
      → (i : ℕ) × (n ≡ suc i) × (m ≡ os.sem_init i)
  unfolding Mutex.lock
  lock_units zero m k units e =
      let taken : os.sem_wait (os.sem_init 0) ≡ some m = rw units at e in
      let blocks = sem.wait_zero in absurd (cc)
  lock_units (suc i) m k units e =
      let taken : os.sem_wait (os.sem_init (suc i)) ≡ some m = rw units at e in
      let gives = sem.wait_suc i in (i, refl, cc)

  Step-Balanced :
      (p : Place) (s s' : Uart)
      → s.place ≡ p
      → Balanced os p s
      → Step os port s s'
      → IsBalanced os s'
  unfolding Mutex.init
  Step-Balanced p s s' here bal (begins at run) =
      let (none_yet, idle, nothing, closed) = at_place p starting s here at bal in
      subst (IsBalanced os) (ok-injective (sym (begin_run os port s closed) ∙ run)) (record {
        place = receiving;
        here = refl;
        balanced = (1, refl, ground (arith, none_yet, nothing), tt, began-IsOpen os port serial s);
      })
  Step-Balanced p s s' here bal (receives at run) =
      let (n, units, sum, w, o) = at_place p receiving s here at bal in
      subst (IsBalanced os) (ok-injective (sym (receive_run os port s o) ∙ run)) (record {
        place = locking;
        here = refl;
        balanced = (
          n,
          units,
          sum,
          inl (reading_on s o),
          record {
            handle = o.handle;
            at = o.at;
            ne_null = o.ne_null;
            isr = o.isr;
            callback = o.callback;
          },
        );
      })
  Step-Balanced p s s' here bal (locks at e) =
      let (n, units, sum, w, o) = at_place p locking s here at bal in
      let (i, same, left) = lock_units n _ _ units e in
      record { place = echoing; here = refl; balanced = (i, left, omega (arith, sum, same), tt, o) }
  Step-Balanced p s s' here bal (echoes at run) =
      let (n, units, sum, w, o) = at_place p echoing s here at bal in
      subst (IsBalanced os) (ok-injective (sym (send_line_run os port s o) ∙ run)) (record {
        place = receiving;
        here = refl;
        balanced = (
          n,
          units,
          omega (arith, sum),
          tt,
          record {
            handle = o.handle;
            at = o.at;
            ne_null = o.ne_null;
            isr = o.isr;
            callback = o.callback;
          },
        );
      })
  Step-Balanced p s s' here bal (completes a b c pending run) =
      let (o, done) = completed-Balanced a b c p s pending bal in
      subst (IsBalanced os) (ok-injective (sym (complete_run os port s o a b c) ∙ run))
        (record { place = p; here = here; balanced = done })

  Reach-IsBalanced : {s : Uart} → Reach os port s → IsBalanced os s
  Reach-IsBalanced start = record {
    place = starting;
    here = refl;
    balanced = (refl, refl, refl, refl);
  }
  Reach-IsBalanced (next {s} {s'} r step) =
      let b = Reach-IsBalanced r in Step-Balanced b.place s s' b.here b.balanced step

  blocked_units : (n k : ℕ) → k ≡ os.sem_init n → Mutex.lock os k ≡ none → n ≡ 0
  unfolding Mutex.lock
  blocked_units zero k units e = refl
  blocked_units (suc i) k units e =
      let waits : os.sem_wait (os.sem_init (suc i)) ≡ none = rw units at e in
      let gives = sem.wait_suc i in absurd (cc)

  -- On a port that can be opened and accepts a read while none is going on: whenever the echo task
  -- waits for its mutex and has to wait, in whatever order it and the interrupt have run, it has
  -- handed over, besides its greeting, one line more to be sent than reads were completed.
  pub echoes_ahead :
      {s : Uart}
      → Reach os port s
      → s.place ≡ locking
      → Mutex.lock os s.m_uart_mutex ≡ none
      → length s.sent ≡ s.arrived + 2
  echoes_ahead {s} r at waits =
      let b = Reach-IsBalanced r in
      let (n, units, sum, w, o) = at_place b.place locking s b.here at b.balanced in
      omega (arith, sum, blocked_units n s.m_uart_mutex units waits)

  can_lock :
      (n : ℕ) (s : Uart)
      → s.place ≡ locking
      → s.m_uart_mutex ≡ os.sem_init (suc n)
      → (s' : Uart) × Step os port s s'
  unfolding Mutex.lock
  can_lock n s at units =
      let gives : Mutex.lock os s.m_uart_mutex ≡ some (os.sem_init n) = rw units (sem.wait_suc n) in
      (_, locks at gives)

  moves : (p : Place) (s : Uart) → s.place ≡ p → Balanced os p s → (s' : Uart) × Step os port s s'
  moves starting s at (none_yet, idle, nothing, closed) =
      (began os port s, begins at (begin_run os port s closed))
  moves receiving s at (n, units, sum, w, o) =
      (received os port s o, receives at (receive_run os port s o))
  moves echoing s at (n, units, sum, w, o) =
      (echoed os port s o, echoes at (send_line_run os port s o))
  moves locking s at (n, units, sum, inl pending, o) =
      (completed os port s o 0 0 0, completes 0 0 0 pending (complete_run os port s o 0 0 0))
  moves locking s at (zero, units, sum, inr pos, o) = absurd (omega (arith, pos))
  moves locking s at (suc n, units, sum, inr pos, o) = can_lock n s at units

  -- On a port that can be opened and accepts a read while none is going on, the system of the echo
  -- task and its interrupt never stops: in every reachable state the task has a next step, or the
  -- driver has a read to complete; and whenever the driver completes a read, of whatever bytes, its
  -- handler finds the function of the task and runs without a fault.
  pub never_stuck :
      {s : Uart}
      → Reach os port s
      → ((s' : Uart) × Step os port s s')
        × (s.reading ≡ true
            → (a b c : ℕ) → (s' : Uart) × (complete_read os port a b c s ≡ ok tt s'))
  never_stuck {s} r =
      let b = Reach-IsBalanced r in
      (
        moves b.place s b.here b.balanced,
        λ pending a b' c.
            let (o, done) = completed-Balanced a b' c b.place s pending b.balanced in
            (completed os port s o a b' c, complete_run os port s o a b' c),
      )
