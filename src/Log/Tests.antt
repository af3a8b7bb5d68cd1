-- ===== src/Log/Tests.antt =====
-- The theorems on a fresh buffer.

use cc2745_repo.Prelude.{
  ℕ, ◌+◌, ◌≡◌, ◌≤◌, refl, true, some, List, [], ◌∷◌, ◌++◌, arith, length, replicate, ok, fault,
}
use cc2745_repo.Hal.Mutex
use cc2745_repo.Libc.Models.{counter, counter-IsSemaphore}
use cc2745_repo.Log.Buffer.{Buffer, bytes, Written, buffer_size}
use cc2745_repo.Log.Format.{log_format_number, log_format_hex_array, has_percent}
use cc2745_repo.Log.Number.{parse_hex, log_format_number_lem}
use cc2745_repo.Log.Bounds.{Kept, log_format_hex_array_lem}
use cc2745_repo.Log.Print.{
  Log, uart, format_line, log_backend_print, log_print_format, log_print_hex_array,
}
use cc2745_repo.Log.Print.Dump.{log_print_hex_array_lem}
use cc2745_repo.Log.Print.Overread.{log_print_format_overreads}

abbrev junk : Buffer
junk = replicate buffer_size 0xA5

-- The log of an initialised firmware.
abbrev ready : Log
ready = record {
  m_log_level = 2;
  m_log_mutex = 1;
  m_log_backend = 0;
  m_print_impl = some uart;
  sent = [];
}

log_format_number_lem_example :
    (new : Buffer) × (digits : List ℕ) × (log_format_number 0xBEEF 3 junk
      ≡ ok (2 + length digits) new)
    × Written 3 (bytes "0x" ++ digits) junk new
    × (length digits ≤ 8)
    × (parse_hex 0 digits ≡ 0xBEEF)
log_format_number_lem_example = log_format_number_lem 0xBEEF 3 junk (omega arith) (omega arith)

log_format_hex_array_lem_example :
    (new : Buffer) × (log_format_hex_array (bytes "RX") (1 ∷ 0xFF ∷ []) 2 6 junk ≡ ok 16 new)
    × Kept 6 316 junk new
log_format_hex_array_lem_example =
    log_format_hex_array_lem (bytes "RX") (1 ∷ 0xFF ∷ []) 6 junk (omega arith) refl

ready_unlocked : ready.m_log_mutex ≡ Mutex.init counter
unfolding counter Mutex.init
ready_unlocked = refl

log_print_hex_array_lem_example :
    (line : List ℕ) × (log_print_hex_array counter
        (bytes "ble")
        junk
        2
        true
        (bytes "RX")
        (some (1 ∷ 0xFF ∷ []))
        2
        ready
      ≡ ok tt (record ready { sent = (uart, line) ∷ [] }))
    × (length line ≡ 23)
log_print_hex_array_lem_example =
    log_print_hex_array_lem counter counter-IsSemaphore (bytes "ble") (bytes "RX") (1 ∷ 0xFF ∷ [])
      junk 2 ready uart (omega arith, omega arith) (omega arith) refl (omega arith) ready_unlocked
      refl

-- A `vsnprintf` whose text would have 500 characters.
abbrev cut_text : ℕ → List ℕ → List ℕ × ℕ
cut_text size format = (replicate 329 65 ++ 0 ∷ [], 500)

log_print_format_overreads_example :
    (line : Buffer) × (format_line cut_text (bytes "ble") (bytes "%s") true junk ≡ ok 505 line)
    × (length line ≡ buffer_size)
    × (log_backend_print line 505 ready ≡ fault)
    × (log_print_format counter cut_text (bytes "ble") junk 2 true (some (bytes "%s")) ready
        ≡ fault)
unfolding has_percent
log_print_format_overreads_example =
    log_print_format_overreads counter counter-IsSemaphore cut_text (bytes "ble") (bytes "%s")
      (replicate 329 65 ++ 0 ∷ []) 500 junk 2 ready uart (omega arith, omega arith) refl refl
      (omega arith) (omega arith, omega arith) refl (omega arith) ready_unlocked refl
