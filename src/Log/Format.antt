-- ===== src/Log/Format.antt =====
-- ccs_project/src/lib/log/log_format.c: each function stores its text from an index of the buffer
-- on and returns how far it has written. A pointer into the buffer is an index of it, and a string
-- is the list of its characters without the final NUL.

use cc2745_repo.Prelude.{
  ℕ, zero, suc, ◌+◌, ◌/◌, ◌%◌, ◌^◌, Bool, true, false, Option, none, some, List, [], ◌∷◌, ◌++◌, ltb,
  leb, ◌==◌, if◌then◌else◌, length, get_elem?, take, fault, Cmd, pure, ◌>>=◌, ◌>>◌,
}
use cc2745_repo.Log.Buffer.{
  Buffer, bytes, put_all, log_prepend_size_max, log_content_size_max, log_hex_count_max,
}

abbrev pub hex_char_table : List ℕ
hex_char_table = bytes "0123456789ABCDEF"

-- A read of the table. No index of the code is above 15.
unfoldable pub hex_char : ℕ → ℕ
hex_char n = elim (get_elem? hex_char_table n) [ none ↦ 0 | some c ↦ c ]

-- `HEX_CHAR_TABLE[(number >> k) & 0x0F]`
unfoldable pub nibble_char : ℕ → ℕ → ℕ
unfolding hex_char
nibble_char number k = hex_char (number / 2 ^ k % 16)

abbrev pub level_symbols : List ℕ
level_symbols = bytes ">.-~=* "

abbrev pub get_min : ℕ → ℕ → ℕ
get_min a b = if ltb a b then a else b

-- The digits that `log_format_number` stores, by the size of the number.
unfoldable pub number_digits : ℕ → List ℕ
unfolding nibble_char hex_char
number_digits number =
    if number == 0
    then bytes "0"
    else if leb number 255
    then hex_char (number / 2 ^ 4) ∷ nibble_char number 0 ∷ []
    else if leb number 65535
    then nibble_char number 12
      ∷ nibble_char number 8
      ∷ nibble_char number 4
      ∷ nibble_char number 0
      ∷ []
    else nibble_char number 28
      ∷ nibble_char number 24
      ∷ nibble_char number 20
      ∷ nibble_char number 16
      ∷ nibble_char number 12
      ∷ nibble_char number 8
      ∷ nibble_char number 4
      ∷ nibble_char number 0
      ∷ []

-- `at` is the index that `p_buffer` points at.
unfoldable pub log_format_number : ℕ → ℕ → Cmd Buffer ℕ
unfolding number_digits put_all
log_format_number number at = do
  put_all at (bytes "0x" ++ number_digits number)
  pure (2 + length (number_digits number))

-- `strchr(p_format, '%') != NULL`
unfoldable pub has_percent : List ℕ → Bool
has_percent [] = false
has_percent (c ∷ cs) = if c == 37 then true else has_percent cs

-- `vsnprintf` gets the size and the format, and gives what it stores and what it returns: the
-- arguments of the call are its own.
unfoldable pub log_format_string_args :
    (vsnprintf : ℕ → List ℕ → List ℕ × ℕ) → List ℕ → ℕ → Cmd Buffer ℕ
unfolding has_percent put_all
log_format_string_args vsnprintf format offset =
    let at = get_min offset log_prepend_size_max in
    let out = vsnprintf log_content_size_max format in
    if has_percent format
    then (do put_all at out.0; pure (out.1 % 2 ^ 16))
    else (do put_all at format; pure (length format % 2 ^ 16))

-- `none` is a NULL string.
unfoldable pub log_format_string_number : Option (List ℕ) → ℕ → ℕ → Cmd Buffer ℕ
unfolding log_format_number put_all
log_format_string_number none number offset =
    log_format_number number (get_min offset log_prepend_size_max)
log_format_string_number (some string) number offset =
    let at = get_min offset log_prepend_size_max in
    let string_len = length string + 2 in
    (do
      put_all at string
      put_all (at + length string) (bytes ": ")
      number_len ← log_format_number number (at + string_len)
      pure (number_len + string_len))

unfoldable pub hex_length : ℕ → ℕ → Cmd Buffer (Unit {0})
unfolding put_all nibble_char
hex_length data_len at =
    if leb data_len 4095
    then put_all at (nibble_char data_len 8 ∷ nibble_char data_len 4 ∷ nibble_char data_len 0 ∷ [])
    else pure tt

-- The caption, and the length of the data where it has three digits or fewer.
unfoldable pub hex_caption : List ℕ → ℕ → ℕ → Cmd Buffer (Unit {0})
unfolding put_all hex_length
hex_caption caption data_len at =
    if ltb 0 (length caption)
    then (do
      put_all at caption
      put_all (at + length caption) (bytes "[FFFh]: ")
      hex_length data_len (at + length caption + 1))
    else pure tt

-- The `for` loop over the next `n` bytes of the data, from `p_data[i]` on. It ends with the
-- `byte_index`.
unfoldable pub hex_loop : ℕ → List ℕ → ℕ → ℕ → ℕ → Cmd Buffer ℕ
unfolding put_all nibble_char
hex_loop zero p_data i offset byte_index = pure byte_index
hex_loop (suc n) p_data i offset byte_index = elim (get_elem? p_data i) [
  | none ↦ λ _. fault
  | some byte ↦ do
    put_all (offset + byte_index) (nibble_char byte 4 ∷ nibble_char byte 0 ∷ 32 ∷ [])
    hex_loop n p_data (suc i) offset (byte_index + 3)
]

unfoldable pub log_format_hex_array : List ℕ → List ℕ → ℕ → ℕ → Cmd Buffer ℕ
unfolding hex_caption hex_loop
log_format_hex_array caption p_data data_len offset =
    let at = get_min offset log_prepend_size_max in
    (do
      hex_caption caption data_len at
      hex_loop (get_min log_hex_count_max data_len) p_data 0 at (length caption + 8))

unfoldable pub log_format_append_eol : ℕ → Cmd Buffer ℕ
unfolding put_all
log_format_append_eol buffer_len =
    if leb buffer_len log_content_size_max
    then (do put_all buffer_len (13 ∷ 10 ∷ []); pure (buffer_len + 2))
    else pure buffer_len

unfoldable pub log_format_prepend_tick_time : ℕ → ℕ → Cmd Buffer ℕ
unfolding put_all nibble_char
log_format_prepend_tick_time timestamp offset = do
  put_all offset (
      bytes "["
      ++ nibble_char timestamp 16
        ∷ nibble_char timestamp 12
        ∷ nibble_char timestamp 8
        ∷ nibble_char timestamp 4
        ∷ nibble_char timestamp 0
        ∷ bytes "]")
  pure 7

unfoldable pub log_format_prepend_task_name : List ℕ → ℕ → Cmd Buffer ℕ
unfolding put_all
log_format_prepend_task_name name offset =
    let name_len = length name % 2 ^ 8 in
    let text = if ltb 0 name_len then take name_len name else bytes "@" in
    (do put_all offset (bytes "[" ++ text ++ bytes "]"); pure (length text + 2))

-- A level outside the table is a read outside of it.
unfoldable pub log_format_prepend_level_symbol : ℕ → ℕ → Cmd Buffer ℕ
unfolding put_all
log_format_prepend_level_symbol level offset = elim (get_elem? level_symbols level) [
  | none ↦ λ _. fault
  | some c ↦ do put_all offset (c ∷ c ∷ []); pure 2
]
