-- ===== src/Log/Print/Dump.antt =====
-- The lines of `log_print_hex_array`.

use cc2745_repo.Prelude.{
  ℕ, ◌+◌, ◌*◌, ◌%◌, ◌^◌, ◌<◌, ◌≤◌, ◌≡◌, ◌∙◌, refl, ap, inl, inr, true, some, List, [], ◌∷◌, ◌++◌,
  arith, ltb, leb, if◌then◌else◌, length, take, take_all, length-take, length-append, ◌>>=◌, ok, Os,
  IsSemaphore,
}
use cc2745_repo.Hal.Mutex
use cc2745_repo.Log.Buffer.{
  Buffer, bytes, put_all, put_all-Written, log_content_size_max, buffer_size, log_caption_size_max,
  log_hex_count_max,
}
use cc2745_repo.Log.Format.{get_min, log_format_hex_array, log_format_prepend_task_name}
use cc2745_repo.Log.Bounds.{log_format_hex_array_lem, log_format_append_eol_lem}
use cc2745_repo.Log.Print.{Log, Backend, end_line, log_print_hex_array}
use cc2745_repo.Log.Print.Line.{print_line_lem}

task_name_by :
    (name : List ℕ) (buf new : Buffer)
    → 0 < length name
    → length name ≤ 18
    → put_all 0 (bytes "[" ++ name ++ bytes "]") buf ≡ ok tt new
    → log_format_prepend_task_name name 0 buf ≡ ok (length name + 2) new
unfolding log_format_prepend_task_name
task_name_by name buf new some_name short run =
    let narrow : length name % 2 ^ 8 ≡ length name = omega arith in
    let there : ltb 0 (length name) ≡ true = ground arith in
    rw narrow (rw there (rw (take_all name) (rw run refl)))

-- The prefix of a line: the task's name in brackets.
pub task_name_run :
    (name : List ℕ) (buf : Buffer)
    → 0 < length name
    → length name ≤ 18
    → length buf ≡ buffer_size
    → (new : Buffer) × (log_format_prepend_task_name name 0 buf ≡ ok (length name + 2) new)
      × (length new ≡ buffer_size)
task_name_run name buf some_name short size =
    let count : length (name ++ bytes "]") ≡ length name + 1 = length-append name (bytes "]") in
    let (new, run, w) =
      put_all-Written 0 (bytes "[" ++ name ++ bytes "]") buf (omega (arith, count)) in
    (new, task_name_by name buf new some_name short run, w.size ∙ size)

-- The length of the line: prefix, caption, its 8 characters and three for each byte up to 100, and
-- the end of line if it still counts as fitting.
abbrev pub dump_length : (name caption p_data : List ℕ) → ℕ
dump_length name caption p_data =
    let len =
      length name + 2 + (length caption + 8 + get_min log_hex_count_max (length p_data) * 3) in
    if leb len log_content_size_max then len + 2 else len

end_line_run :
    (len : ℕ) (buf : Buffer)
    → length buf ≡ buffer_size
    → len < 2 ^ 16
    → (new : Buffer) × (end_line true (len % 2 ^ 16) buf
        ≡ ok (if leb len log_content_size_max then len + 2 else len) new)
      × (length new ≡ buffer_size)
unfolding end_line
end_line_run len buf size small =
    let narrow : len % 2 ^ 16 ≡ len = omega arith in
    elim (log_format_append_eol_lem len buf size) [
      | inl (le, new, run, w) ↦
          (new, rw (narrow, run) (ap (λ n. ok n new) (ground arith)), w.size ∙ size)
      | inr (gt, run) ↦ (buf, rw (narrow, run) (ap (λ n. ok n buf) (ground arith)), size)
    ]

dump_length-fits :
    (name caption p_data : List ℕ)
    → length name ≤ 18
    → length caption ≤ log_caption_size_max
    → dump_length name caption p_data ≤ 392
dump_length-fits name caption p_data n c =
    let m : get_min log_hex_count_max (length p_data) ≤ 100 = ground arith in ground (arith, m)

line_length-lt :
    (name caption p_data : List ℕ)
    → length name ≤ 18
    → length caption ≤ log_caption_size_max
    → length name + 2 + (length caption + 8 + get_min log_hex_count_max (length p_data) * 3)
      < 2 ^ 16
line_length-lt name caption p_data n c =
    let m : get_min log_hex_count_max (length p_data) ≤ 100 = ground arith in omega (arith, m)

module _ (os : Os) (sem : IsSemaphore os) where
  -- A hex dump at an enabled level, of any data, from a task with a name of 1 to 18 characters and
  -- with a caption of at most 20: one line of `dump_length` bytes is sent, and the mutex is free
  -- again. It neither faults nor blocks.
  pub log_print_hex_array_lem :
      (name caption p_data : List ℕ) (junk : Buffer) (level : ℕ) (l : Log) (b : Backend)
      → (0 < length name) × (length name ≤ 18)
      → length caption ≤ log_caption_size_max
      → length junk ≡ buffer_size
      → l.m_log_level ≤ level
      → l.m_log_mutex ≡ Mutex.init os
      → l.m_print_impl ≡ some b
      → (line : List ℕ) × (log_print_hex_array os name junk level true caption
            (some p_data)
            (length p_data)
            l
          ≡ ok tt (record l { sent = l.sent ++ (b, line) ∷ [] }))
        × (length line ≡ dump_length name caption p_data)
  unfolding log_print_hex_array
  log_print_hex_array_lem name caption p_data junk level l b named short size on free backend =
      let (b1, run1, size1) = task_name_run name junk named.0 named.1 size in
      let (b2, run2, kept) =
        log_format_hex_array_lem caption p_data (length name + 2) b1 short size1 in
      let len =
        length name + 2 + (length caption + 8 + get_min log_hex_count_max (length p_data) * 3) in
      let (b3, run3, size3) =
        end_line_run len b2 (kept.size ∙ size1)
          (line_length-lt name caption p_data named.1 short) in
      let fits : dump_length name caption p_data ≤ 392 =
        dump_length-fits name caption p_data named.1 short in
      (
        take (dump_length name caption p_data) b3,
        print_line_lem os sem level (dump_length name caption p_data) junk b3
            (do
              prefix ← log_format_prepend_task_name name 0
              n ← log_format_hex_array caption p_data (length p_data) prefix
              end_line true ((prefix + n) % 2 ^ 16))
            l b on free backend (rw run1 (rw run2 run3)) (omega (arith, size3, fits))
            (omega (arith, fits)),
        length-take (dump_length name caption p_data) b3 (omega (arith, size3, fits)),
      )
