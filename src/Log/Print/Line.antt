-- ===== src/Log/Print/Line.antt =====
-- What the log sends, and that it gives its mutex back.
use cc2745_repo.Prelude.{
  ℕ, ◌%◌, ◌^◌, ◌<◌, ◌≤◌, ◌≡◌, ◌∙◌, ap, true, false, some, List, [], ◌∷◌, ◌++◌, arith, ltb, leb,
  length, take, ok, Cmd, Os, IsSemaphore,
}
use cc2745_repo.Hal.Mutex
use cc2745_repo.Hal.Mutex.{lock-init, unlock-held}
use cc2745_repo.Log.Buffer.{Buffer}
use cc2745_repo.Log.Print.{Log, Backend, log_backend_print, print_line, print_buffer, lock, unlock}

backend_run :
    (len : ℕ) (text : List ℕ) (l : Log) (b : Backend)
    → l.m_print_impl ≡ some b
    → len ≤ length text
    → log_backend_print text len l ≡ ok tt (record l { sent = l.sent ++ (b, take len text) ∷ [] })
unfolding log_backend_print
backend_run len text l b backend fits =
    let whole : leb len (length text) ≡ true = ground arith in ground (arith, whole)

print_buffer_run :
    (len : ℕ) (junk buffer : Buffer) (make : Cmd Buffer ℕ) (l : Log) (b : Backend)
    → l.m_print_impl ≡ some b
    → make junk ≡ ok len buffer
    → len ≤ length buffer
    → len < 2 ^ 16
    → print_buffer junk make l ≡ ok tt (record l { sent = l.sent ++ (b, take len buffer) ∷ [] })
unfolding print_buffer
print_buffer_run len junk buffer make l b backend made fits small =
    let narrow : len % 2 ^ 16 ≡ len = omega arith in
    rw (made, print_buffer)
      (ap (λ n. log_backend_print buffer n l) narrow ∙ backend_run len buffer l b backend fits)

module _ (os : Os) (sem : IsSemaphore os) (level len : ℕ) (junk buffer : Buffer)
    (make : Cmd Buffer ℕ) (l : Log) (b : Backend) (on : l.m_log_level ≤ level)
    (free : l.m_log_mutex ≡ Mutex.init os) (backend : l.m_print_impl ≡ some b)
    (made : make junk ≡ ok len buffer) (fits : len ≤ length buffer) (small : len < 2 ^ 16) where
  -- A line whose text is made within the buffer is sent once, whole, and the mutex is free again.
  pub print_line_lem :
      print_line os level junk make l
      ≡ ok tt (record l { sent = l.sent ++ (b, take len buffer) ∷ [] })
  unfolding print_line lock unlock
  print_line_lem =
      let locks : Mutex.lock os l.m_log_mutex ≡ some (Mutex.held os) = rw free (lock-init sem) in
      let unlocks : Mutex.unlock os (Mutex.held os) ≡ l.m_log_mutex = rw free (unlock-held sem) in
      let enabled : ltb level l.m_log_level ≡ false = ground arith in
      let run =
        print_buffer_run len junk buffer make (record l { m_log_mutex = Mutex.held os }) b backend
          made fits small in
      ground (arith, locks, unlocks, enabled, run)
