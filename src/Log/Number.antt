-- ===== src/Log/Number.antt =====
-- The hexadecimal numbers of the log, read back.
use cc2745_repo.Prelude.{
  ℕ, zero, suc, ◌+◌, ◌*◌, ◌-◌, ◌/◌, ◌%◌, ◌^◌, ◌<◌, ◌≤◌, ◌≡◌, sym, refl, inl, inr, Bool, true, ◌&&◌,
  Bool-cases, List, [], ◌∷◌, ◌++◌, arith, ltb, leb, length, ok, ◌==◌, ==_iff, if◌then◌else◌,
}
use cc2745_repo.Log.Buffer.{Buffer, bytes, Written, put_all-Written}
use cc2745_repo.Log.Format.{log_format_number, hex_char, nibble_char, number_digits}

-- The value of a digit character.
abbrev hex_value : ℕ → ℕ
hex_value c = if ltb c 58 then c - 48 else c - 55

-- The number that a text of hexadecimal digits denotes, after the digits of `n`.
abbrev pub parse_hex : ℕ → List ℕ → ℕ
parse_hex n [] = n
parse_hex n (c ∷ cs) = parse_hex (n * 16 + hex_value c) cs

all_below : ℕ → (ℕ → Bool) → Bool
all_below zero p = true
all_below (suc n) p = p n && all_below n p

all_below_lem : (n : ℕ) (p : ℕ → Bool) → all_below n p ≡ true → (k : ℕ) → k < n → p k ≡ true
unfolding all_below
all_below_lem zero p h k lt = absurd (omega arith)
all_below_lem (suc n) p h k lt =
    ground (arith, λ (e : all_below n p ≡ true) (lt' : k < n). all_below_lem n p e k lt')

hex_value-hex_char : (k : ℕ) → k < 16 → hex_value (hex_char k) ≡ k
unfolding hex_char all_below
hex_value-hex_char k lt =
    (==_iff _ _).0 (all_below_lem 16 (λ d. hex_value (hex_char d) == d) refl k lt)

leb_lem : (a b : ℕ) → leb a b ≡ true → a ≤ b
leb_lem a b h = ground arith

mod_16 : (m : ℕ) → m % 16 < 16
mod_16 m = omega arith

hex_value-nibble_char : (n k : ℕ) → hex_value (nibble_char n k) ≡ n / 2 ^ k % 16
unfolding nibble_char
hex_value-nibble_char n k = hex_value-hex_char (n / 2 ^ k % 16) (mod_16 (n / 2 ^ k))

-- The digits that the log prints of a `uint32_t` denote that number.
pub parse_hex-number_digits : (n : ℕ) → n < 2 ^ 32 → parse_hex 0 (number_digits n) ≡ n
unfolding number_digits
parse_hex-number_digits n h = elim (Bool-cases (n == 0)) [
  | inl z ↦ rw z (sym ((==_iff n 0).0 z))
  | inr nz ↦ elim (Bool-cases (leb n 255)) [
    | inl b ↦
        rw (nz, b)
          (rw
            (
              hex_value-hex_char (n / 2 ^ 4) (omega (arith, leb_lem n 255 b)),
              hex_value-nibble_char n 0,
            )
            (omega (arith, leb_lem n 255 b)))
    | inr nb ↦ elim (Bool-cases (leb n 65535)) [
      | inl w ↦
          rw (nz, nb, w)
            (rw
              (
                hex_value-nibble_char n 12,
                hex_value-nibble_char n 8,
                hex_value-nibble_char n 4,
                hex_value-nibble_char n 0,
              )
              (omega (arith, leb_lem n 65535 w)))
      | inr nw ↦
          rw (nz, nb, nw)
            (rw
              (
                hex_value-nibble_char n 28,
                hex_value-nibble_char n 24,
                hex_value-nibble_char n 20,
                hex_value-nibble_char n 16,
                hex_value-nibble_char n 12,
                hex_value-nibble_char n 8,
                hex_value-nibble_char n 4,
                hex_value-nibble_char n 0,
              )
              (omega arith))
    ]
  ]
]

number_digits-fits : (n : ℕ) → length (number_digits n) ≤ 8
unfolding number_digits
number_digits-fits n = elim (Bool-cases (n == 0)) [
  | inl z ↦ rw z (omega arith)
  | inr nz ↦ elim (Bool-cases (leb n 255)) [
    | inl b ↦ rw (nz, b) (omega arith)
    | inr nb ↦ elim (Bool-cases (leb n 65535)) [
      | inl w ↦ rw (nz, nb, w) (omega arith)
      | inr nw ↦ rw (nz, nb, nw) (omega arith)
    ]
  ]
]

-- Where ten bytes are free from index `at` on, `log_format_number` of a `uint32_t` stores "0x" and
-- digits that denote the number, touches nothing else, and returns how many characters it stored.
pub log_format_number_lem :
    (n at : ℕ) (buf : Buffer)
    → n < 2 ^ 32
    → at + 10 ≤ length buf
    → (new : Buffer) × (digits : List ℕ) × (log_format_number n at buf ≡ ok (2 + length digits) new)
      × Written at (bytes "0x" ++ digits) buf new
      × (length digits ≤ 8)
      × (parse_hex 0 digits ≡ n)
unfolding log_format_number
log_format_number_lem n at buf h room =
    let fits = number_digits-fits n in
    let (new, run, w) = put_all-Written at (bytes "0x" ++ number_digits n) buf (omega arith) in
    (new, number_digits n, rw run refl, w, fits, parse_hex-number_digits n h)
