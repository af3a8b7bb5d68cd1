-- ===== src/Log/Bounds.antt =====
-- The stores of the log's text stay inside the buffer, and inside the part that they are for.

use cc2745_repo.Prelude.{
  ℕ, zero, suc, ◌+◌, ◌*◌, ◌<◌, ◌≤◌, ◌≡◌, ◌∙◌, refl, ap, ◌⊎◌, inl, inr, true, false, Bool-cases,
  List, [], ◌∷◌, arith, ltb, leb, length, get_elem?, get_elem?_of_lt, ok,
}
use cc2745_repo.Log.Buffer.{
  Buffer, bytes, put_all, Written, put_all-Written, log_hex_count_max, log_prepend_size_max,
  log_content_size_max, buffer_size, log_caption_size_max,
}
use cc2745_repo.Log.Format.{
  get_min, hex_caption, hex_length, hex_loop, log_format_hex_array, log_format_append_eol,
  nibble_char,
}

-- `new` is `old` but for the indices from `i` to below `j`.
pub record Kept (i j : ℕ) (old new : Buffer) : Type 0 where
  pub size : length new ≡ length old
  pub same : (k : ℕ) → (k < i) ⊎ (j ≤ k) → get_elem? new k ≡ get_elem? old k

Kept-refl : (i j : ℕ) (buf : Buffer) → Kept i j buf buf
Kept-refl i j buf = record { size = refl; same = λ k o. refl }

Kept-trans : (i j : ℕ) (a b c : Buffer) → Kept i j a b → Kept i j b c → Kept i j a c
Kept-trans i j a b c p q = record { size = q.size ∙ p.size; same = λ k o. q.same k o ∙ p.same k o }

-- A store inside of the part.
put_all-Kept :
    (at : ℕ) (text : List ℕ) (i j : ℕ) (buf : Buffer)
    → i ≤ at
    → at + length text ≤ j
    → j ≤ length buf
    → (new : Buffer) × (put_all at text buf ≡ ok tt new) × Kept i j buf new
put_all-Kept at text i j buf lo hi room =
    let (new, run, w) = put_all-Written at text buf (omega arith) in
    (
      new,
      run,
      record {
        size = w.size;
        same =
            λ k o. w.outside k (elim o [ inl h ↦ inl (omega arith) | inr h ↦ inr (omega arith) ]);
      },
    )

hex_loop-Kept :
    (n : ℕ) (p_data : List ℕ) (k offset byte_index i j : ℕ) (buf : Buffer)
    → k + n ≤ length p_data
    → i ≤ offset + byte_index
    → offset + byte_index + n * 3 ≤ j
    → j ≤ length buf
    → (new : Buffer) × (hex_loop n p_data k offset byte_index buf ≡ ok (byte_index + n * 3) new)
      × Kept i j buf new
unfolding hex_loop
hex_loop-Kept zero p_data k offset byte_index i j buf there lo hi room =
    (buf, ap (λ b. ok b buf) (omega arith), Kept-refl i j buf)
hex_loop-Kept (suc n) p_data k offset byte_index i j buf there lo hi room =
    let (byte, read) = get_elem?_of_lt p_data k (omega arith) in
    let (mid, run, first) =
      put_all-Kept (offset + byte_index) (nibble_char byte 4 ∷ nibble_char byte 0 ∷ 32 ∷ []) i j buf
        lo (omega arith) room in
    let (new, run', rest) =
      hex_loop-Kept n p_data (suc k) offset (byte_index + 3) i j mid (omega arith) (omega arith)
        (omega arith) (omega (arith, first.size)) in
    let total : byte_index + 3 + n * 3 ≡ byte_index + suc n * 3 = omega arith in
    (
      new,
      rw (read, hex_loop) (rw run (run' ∙ ap (λ b. ok b new) total)),
      Kept-trans i j buf mid new first rest,
    )

hex_length-Kept :
    (data_len at i j : ℕ) (buf : Buffer)
    → i ≤ at
    → at + 3 ≤ j
    → j ≤ length buf
    → (new : Buffer) × (hex_length data_len at buf ≡ ok tt new) × Kept i j buf new
unfolding hex_length
hex_length-Kept data_len at i j buf lo hi room = elim (Bool-cases (leb data_len 4095)) [
  | inl e ↦ rw e (
      put_all-Kept at
        (nibble_char data_len 8 ∷ nibble_char data_len 4 ∷ nibble_char data_len 0 ∷ []) i j buf lo
        hi room)
  | inr e ↦ rw e (buf, refl, Kept-refl i j buf)
]

get_min_left : (a b : ℕ) → get_min a b ≤ a
get_min_left a b = ground arith

get_min_right : (a b : ℕ) → get_min a b ≤ b
get_min_right a b = ground arith

leb_lem : (a b : ℕ) → leb a b ≡ true → a ≤ b
leb_lem a b h = ground arith

not_leb_lem : (a b : ℕ) → leb a b ≡ false → b < a
not_leb_lem a b h = ground arith

Kept-widen : (i j j' : ℕ) (old new : Buffer) → j ≤ j' → Kept i j old new → Kept i j' old new
Kept-widen i j j' old new le k = record {
  size = k.size;
  same = λ m o. k.same m (elim o [ inl h ↦ inl h | inr h ↦ inr (omega arith) ]);
}

hex_caption-Kept :
    (caption : List ℕ) (data_len at : ℕ) (buf : Buffer)
    → at + length caption + 8 ≤ length buf
    → (new : Buffer) × (hex_caption caption data_len at buf ≡ ok tt new)
      × Kept at (at + length caption + 8) buf new
unfolding hex_caption
hex_caption-Kept caption data_len at buf room = elim (Bool-cases (ltb 0 (length caption))) [
  | inr e ↦ (buf, rw e refl, Kept-refl at _ buf)
  | inl e ↦
      let j = at + length caption + 8 in
      let (a, run_a, kept_a) = put_all-Kept at caption at j buf (omega arith) (omega arith) room in
      let (b, run_b, kept_b) =
        put_all-Kept (at + length caption) (bytes "[FFFh]: ") at j a (omega arith) (omega arith)
          (omega (arith, kept_a.size)) in
      let (c, run_c, kept_c) =
        hex_length-Kept data_len (at + length caption + 1) at j b (omega arith) (omega arith)
          (omega (arith, kept_a.size, kept_b.size)) in
      (
        c,
        rw e (rw run_a (rw run_b run_c)),
        Kept-trans at j buf b c (Kept-trans at j buf a b kept_a kept_b) kept_c,
      )
]

-- A hex dump fits the part of the buffer from its offset (at most 20) on: with a caption of at most
-- 20 characters and any data, `log_format_hex_array` stores outside neither the buffer nor that
-- part, and returns the length of the caption, 8, and three for each of the first 100 bytes.
pub log_format_hex_array_lem :
    (caption p_data : List ℕ) (offset : ℕ) (buf : Buffer)
    → length caption ≤ log_caption_size_max
    → length buf ≡ buffer_size
    → (new : Buffer) × (log_format_hex_array caption p_data (length p_data) offset buf
        ≡ ok (length caption + 8 + get_min log_hex_count_max (length p_data) * 3) new)
      × Kept
          (get_min offset log_prepend_size_max)
          (get_min offset log_prepend_size_max + length caption + 308)
          buf
          new
unfolding log_format_hex_array
log_format_hex_array_lem caption p_data offset buf short size =
    let at = get_min offset log_prepend_size_max in
    let n = get_min log_hex_count_max (length p_data) in
    let at_small : at ≤ 20 = get_min_right offset 20 in
    let n_small : n ≤ 100 = get_min_left 100 (length p_data) in
    let n_there : n ≤ length p_data = get_min_right 100 (length p_data) in
    let (a, run_a, kept_a) = hex_caption-Kept caption (length p_data) at buf (omega arith) in
    let (b, run_b, kept_b) =
      hex_loop-Kept n p_data 0 at (length caption + 8) at (at + length caption + 308) a
        (omega arith) (omega arith) (omega arith) (omega (arith, kept_a.size)) in
    (
      b,
      rw run_a run_b,
      Kept-trans at _ buf a b (Kept-widen at _ _ buf a (omega arith) kept_a) kept_b,
    )

-- `log_format_append_eol` never stores outside the buffer. It adds the two characters only where
-- the text so far has at most 330: a longer one stays without an end of line.
pub log_format_append_eol_lem :
    (len : ℕ) (buf : Buffer)
    → length buf ≡ buffer_size
    → ((len ≤ log_content_size_max)
        × (new : Buffer) × (log_format_append_eol len buf ≡ ok (len + 2) new)
        × Written len (13 ∷ 10 ∷ []) buf new)
      ⊎ ((log_content_size_max < len) × (log_format_append_eol len buf ≡ ok len buf))
unfolding log_format_append_eol
log_format_append_eol_lem len buf size = elim (Bool-cases (leb len log_content_size_max)) [
  | inl e ↦
      let le = leb_lem len log_content_size_max e in
      let (new, run, w) = put_all-Written len (13 ∷ 10 ∷ []) buf (omega arith) in
      inl (le, new, rw e (rw run refl), w)
  | inr e ↦ inr (not_leb_lem len log_content_size_max e, rw e refl)
]
