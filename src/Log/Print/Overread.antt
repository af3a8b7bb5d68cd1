-- ===== src/Log/Print/Overread.antt =====
-- The length of a formatted message.

use cc2745_repo.Prelude.{
  ℕ, ◌+◌, ◌%◌, ◌^◌, ◌<◌, ◌≤◌, ◌≡◌, ◌∙◌, refl, inl, inr, true, false, some, List, arith, ltb, leb,
  length, ok, fault, Cmd, Os, IsSemaphore,
}
use cc2745_repo.Hal.Mutex
use cc2745_repo.Hal.Mutex.{lock-init}
use cc2745_repo.Log.Buffer.{
  Buffer, put_all, put_all-Written, log_prepend_size_max, log_content_size_max, buffer_size,
}
use cc2745_repo.Log.Format.{get_min, log_format_append_eol, has_percent, log_format_string_args}
use cc2745_repo.Log.Bounds.{log_format_append_eol_lem}
use cc2745_repo.Log.Print.{
  Log, Backend, print_line, format_line, end_line, log_print_format, print_buffer,
  log_backend_print, lock,
}
use cc2745_repo.Log.Print.Dump.{task_name_run}

string_args_by :
    (vsnprintf : ℕ → List ℕ → List ℕ × ℕ) (format text : List ℕ) (r at : ℕ) (buf new : Buffer)
    → has_percent format ≡ true
    → vsnprintf log_content_size_max format ≡ (text, r)
    → at ≤ 20
    → r < 2 ^ 16
    → put_all at text buf ≡ ok tt new
    → log_format_string_args vsnprintf format at buf ≡ ok r new
unfolding log_format_string_args
string_args_by vsnprintf format text r at buf new percent out low small run =
    let clamp : get_min at log_prepend_size_max ≡ at = ground arith in
    let narrow : r % 2 ^ 16 ≡ r = omega arith in rw (clamp, percent, out) (rw run (rw narrow refl))

append_eol_over :
    (len : ℕ) (buf : Buffer)
    → length buf ≡ buffer_size
    → log_content_size_max < len
    → log_format_append_eol len buf ≡ ok len buf
append_eol_over len buf size over = elim (log_format_append_eol_lem len buf size) [
  | inl (le, _, _, _) ↦ absurd (omega arith)
  | inr (_, run) ↦ run
]

string_args_run :
    (vsnprintf : ℕ → List ℕ → List ℕ × ℕ) (format text : List ℕ) (r at : ℕ) (buf : Buffer)
    → has_percent format ≡ true
    → vsnprintf log_content_size_max format ≡ (text, r)
    → length text ≤ log_content_size_max
    → at ≤ 20
    → r < 2 ^ 16
    → length buf ≡ buffer_size
    → (new : Buffer) × (log_format_string_args vsnprintf format at buf ≡ ok r new)
      × (length new ≡ buffer_size)
string_args_run vsnprintf format text r at buf percent out short low small size =
    let (new, run, w) = put_all-Written at text buf (omega arith) in
    (
      new,
      string_args_by vsnprintf format text r at buf new percent out low small run,
      w.size ∙ size,
    )

module _ (os : Os) (sem : IsSemaphore os) where
  overread_fault :
      (level len : ℕ) (junk buffer : Buffer) (make : Cmd Buffer ℕ) (l : Log) (b : Backend)
      → l.m_log_level ≤ level
      → l.m_log_mutex ≡ Mutex.init os
      → l.m_print_impl ≡ some b
      → make junk ≡ ok len buffer
      → length buffer < len
      → len < 2 ^ 16
      → print_line os level junk make l ≡ fault
  unfolding print_line print_buffer log_backend_print lock
  overread_fault level len junk buffer make l b on free backend made over small =
      let locks : Mutex.lock os l.m_log_mutex ≡ some (Mutex.held os) = rw free (lock-init sem) in
      let narrow : len % 2 ^ 16 ≡ len = omega arith in
      let long : leb len (length buffer) ≡ false = ground arith in
      let enabled : ltb level l.m_log_level ≡ false = ground arith in
      ground (arith, locks, enabled, narrow, long)

  backend_fault :
      (len : ℕ) (text : List ℕ) (l : Log) (b : Backend)
      → l.m_print_impl ≡ some b
      → length text < len
      → log_backend_print text len l ≡ fault
  unfolding log_backend_print
  backend_fault len text l b backend over =
      let long : leb len (length text) ≡ false = ground arith in ground (arith, long)

  -- A message at an enabled level, whose format has a '%', from a task with a name of 1 to 18
  -- characters. `vsnprintf` stores at most as many characters as it is allowed, and returns how
  -- many the whole text has. Where prefix and whole text are longer than the buffer, but have less
  -- than 2 ^ 16 characters, `log_print_format` makes a line inside its buffer without a fault, with
  -- a length that is greater than the buffer. Such a call of the backend is a read outside of the
  -- buffer, in which the whole function ends.
  pub log_print_format_overreads :
      (vsnprintf : ℕ → List ℕ → List ℕ × ℕ) (name format text : List ℕ) (r : ℕ) (junk : Buffer)
      (level : ℕ) (l : Log) (b : Backend)
      → (0 < length name) × (length name ≤ 18)
      → has_percent format ≡ true
      → vsnprintf log_content_size_max format ≡ (text, r)
      → length text ≤ log_content_size_max
      → (buffer_size < length name + 2 + r) × (length name + 2 + r < 2 ^ 16)
      → length junk ≡ buffer_size
      → l.m_log_level ≤ level
      → l.m_log_mutex ≡ Mutex.init os
      → l.m_print_impl ≡ some b
      → (line : Buffer) × (format_line vsnprintf name format true junk
          ≡ ok (length name + 2 + r) line)
        × (length line ≡ buffer_size)
        × (log_backend_print line (length name + 2 + r) l ≡ fault)
        × (log_print_format os vsnprintf name junk level true (some format) l ≡ fault)
  unfolding log_print_format format_line end_line
  log_print_format_overreads vsnprintf name format text r junk level l b named percent out short
        long size on free backend =
      let (b1, run1, size1) = task_name_run name junk named.0 named.1 size in
      let (b2, run2, size2) =
        string_args_run vsnprintf format text r (length name + 2) b1 percent out short
          (omega (arith, named.1)) (omega (arith, long.1)) size1 in
      let narrow : (length name + 2 + r) % 2 ^ 16 ≡ length name + 2 + r = omega (arith, long.1) in
      let no_room : log_format_append_eol (length name + 2 + r) b2 ≡ ok (length name + 2 + r) b2 =
        append_eol_over (length name + 2 + r) b2 size2 (omega (arith, long.0)) in
      let made : format_line vsnprintf name format true junk ≡ ok (length name + 2 + r) b2 =
        rw run1 (rw run2 (rw narrow no_room)) in
      let over : length b2 < length name + 2 + r = omega (arith, long.0, size2) in
      (
        b2,
        made,
        size2,
        backend_fault (length name + 2 + r) b2 l b backend over,
        overread_fault level (length name + 2 + r) junk b2 (format_line vsnprintf name format true)
            l b on free backend made over long.1,
      )
