-- ===== src/Log/Print.antt =====
-- ccs_project/src/lib/log/log.c and log_backend.c, as the default configuration compiles them: a
-- line starts with the task's name. What a backend sends is appended to `sent`. The buffer that a
-- function declares holds anything at first: `junk`, of `buffer_size` bytes.
pub mod Line
pub mod Dump
pub mod Overread
use cc2745_repo.Prelude.{
  ℕ, ◌+◌, ◌%◌, ◌^◌, Bool, true, false, Option, none, some, List, [], ◌∷◌, ◌++◌, ltb, leb, ◌==◌,
  if◌then◌else◌, length, take, Run, ok, fault, blocked, out_of_fuel, Cmd, pure, modify, ◌>>=◌, ◌>>◌,
  Os,
}
use cc2745_repo.Hal.Mutex
use cc2745_repo.Log.Buffer.{Buffer}
use cc2745_repo.Log.Format.{
  log_format_string_args, log_format_string_number, log_format_hex_array, log_format_append_eol,
  log_format_prepend_task_name,
}

abbrev pub log_level_info : ℕ
log_level_info = 2

pub data Backend : Type 0 where
  uart : Backend
  itm : Backend

-- `m_print_impl` is `none` until a backend is set.
pub record Log : Type 0 where
  pub m_log_level : ℕ
  pub m_log_mutex : ℕ
  pub m_log_backend : ℕ
  pub m_print_impl : Option Backend
  pub sent : List (Backend × List ℕ)

unfoldable pub log_backend_init : ℕ → Log → Log
log_backend_init backend l =
    if backend == 0
    then record l { m_log_backend = backend; m_print_impl = some uart }
    else if backend == 1
    then record l { m_log_backend = backend; m_print_impl = some itm }
    else record l { m_log_backend = backend }

-- The backend reads `data_len` bytes of the data: more than there are is a read outside of it.
unfoldable pub log_backend_print : List ℕ → ℕ → Cmd Log (Unit {0})
log_backend_print p_data data_len l = elim l.m_print_impl [
  | none ↦ fault
  | some backend ↦
      if leb data_len (length p_data)
      then ok tt (record l { sent = l.sent ++ (backend, take data_len p_data) ∷ [] })
      else fault
]

unfoldable pub log_set_level : ℕ → Log → Log
log_set_level level l = record l { m_log_level = level }

-- A text is made in a buffer of the function's own and then sent.
unfoldable pub print_buffer : Buffer → Cmd Buffer ℕ → Cmd Log (Unit {0})
unfolding log_backend_print
print_buffer junk make l = elim (make junk) [
  | ok len buffer ↦ log_backend_print buffer (len % 2 ^ 16) l
  | fault ↦ fault
  | blocked ↦ blocked
  | out_of_fuel ↦ out_of_fuel
]

-- `task_name` is what `hal_task_get_name` gives.
abbrev pub prepend_state_info : List ℕ → Cmd Buffer ℕ
prepend_state_info task_name = log_format_prepend_task_name task_name 0

unfoldable pub end_line : Bool → ℕ → Cmd Buffer ℕ
unfolding log_format_append_eol
end_line eol len = if eol then log_format_append_eol len else pure len

-- What `log_print_format` makes in its buffer; the result is `len`, a `uint16_t`.
unfoldable pub format_line :
    (vsnprintf : ℕ → List ℕ → List ℕ × ℕ) → (task_name format : List ℕ) → Bool → Cmd Buffer ℕ
unfolding end_line log_format_prepend_task_name log_format_string_args
format_line vsnprintf task_name format eol = do
  prefix ← prepend_state_info task_name
  len ← log_format_string_args vsnprintf format prefix
  end_line eol ((prefix + len) % 2 ^ 16)

module _ (os : Os) where
  lock : Cmd Log (Unit {0})
  lock l = elim (Mutex.lock os l.m_log_mutex) [
    | none ↦ blocked
    | some m ↦ ok tt (record l { m_log_mutex = m })
  ]

  unlock : Cmd Log (Unit {0})
  unlock l = ok tt (record l { m_log_mutex = Mutex.unlock os l.m_log_mutex })

  unfoldable pub log_init : Log → Log
  unfolding log_backend_init
  log_init l = record (log_backend_init 0 (record l { m_log_level = log_level_info })) {
    m_log_mutex = Mutex.init os;
  }

  -- What the three functions share: a message below the level is dropped, and the text is made and
  -- sent under the mutex.
  unfoldable pub print_line : ℕ → Buffer → Cmd Buffer ℕ → Cmd Log (Unit {0})
  unfolding lock unlock print_buffer
  print_line level junk make l =
      if ltb level l.m_log_level then ok tt l else (do lock; print_buffer junk make; unlock) l

  unfoldable pub log_print_format :
      (vsnprintf : ℕ → List ℕ → List ℕ × ℕ)
      → (task_name : List ℕ) → Buffer
      → ℕ
      → Bool
      → Option (List ℕ)
      → Cmd Log (Unit {0})
  unfolding print_line format_line
  log_print_format vsnprintf task_name junk level eol none l = ok tt l
  log_print_format vsnprintf task_name junk level eol (some format) l =
      print_line level junk (format_line vsnprintf task_name format eol) l

  unfoldable pub log_print_string_number :
      (task_name : List ℕ) → Buffer → ℕ → Bool → Option (List ℕ) → ℕ → Cmd Log (Unit {0})
  unfolding print_line end_line log_format_prepend_task_name log_format_string_number
  log_print_string_number task_name junk level eol none number l = ok tt l
  log_print_string_number task_name junk level eol (some string) number l =
      print_line level junk
        (do
          prefix ← prepend_state_info task_name
          len ← log_format_string_number (some string) number prefix
          end_line eol ((prefix + len) % 2 ^ 16))
        l

  -- `none` is NULL data.
  unfoldable pub log_print_hex_array :
      (task_name : List ℕ) → Buffer → ℕ → Bool → List ℕ → Option (List ℕ) → ℕ → Cmd Log (Unit {0})
  unfolding print_line end_line log_format_prepend_task_name log_format_hex_array
  log_print_hex_array task_name junk level eol caption none data_len l = ok tt l
  log_print_hex_array task_name junk level eol caption (some p_data) data_len l =
      print_line level junk
        (do
          prefix ← prepend_state_info task_name
          len ← log_format_hex_array caption p_data data_len prefix
          end_line eol ((prefix + len) % 2 ^ 16))
        l

  unfoldable pub log_print_raw_string : ℕ → Option (List ℕ) → Cmd Log (Unit {0})
  unfolding lock unlock log_backend_print
  log_print_raw_string level none l = ok tt l
  log_print_raw_string level (some string) l =
      if ltb level l.m_log_level
      then ok tt l
      else (do lock; log_backend_print string (length string % 2 ^ 16); unlock) l
