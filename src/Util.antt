-- ===== src/Util.antt =====
-- The integer macros of ccs_project/src/lib/util/util_tool.h, and the address reversal of
-- module/ble/lib/ble_util.c. An encoding is the list of the bytes that it stores from index 0 on.
pub mod SpinLock
mod Tests
use cc2745_repo.Prelude.{
  ℕ, ◌+◌, ◌*◌, ◌-◌, ◌/◌, ◌%◌, ◌^◌, ◌<◌, ◌≡◌, ◌≢◌, refl, ap, Bool, true, false, Option, none, some,
  List, [], ◌∷◌, arith, ltb, if◌then◌else◌,
}

unfoldable pub u16_encode_be : ℕ → List ℕ
u16_encode_be val = val / 2 ^ 8 % 256 ∷ val % 256 ∷ []

unfoldable pub u16_encode_le : ℕ → List ℕ
u16_encode_le val = val % 256 ∷ val / 2 ^ 8 % 256 ∷ []

unfoldable pub u32_encode_be : ℕ → List ℕ
u32_encode_be val = val / 2 ^ 24 % 256 ∷ val / 2 ^ 16 % 256 ∷ val / 2 ^ 8 % 256 ∷ val % 256 ∷ []

unfoldable pub u32_encode_le : ℕ → List ℕ
u32_encode_le val = val % 256 ∷ val / 2 ^ 8 % 256 ∷ val / 2 ^ 16 % 256 ∷ val / 2 ^ 24 % 256 ∷ []

-- `none` is a read behind the array.
unfoldable pub u16_decode_be : List ℕ → Option ℕ
u16_decode_be (a ∷ b ∷ _) = some ((a % 256 * 2 ^ 8 + b) % 2 ^ 16)
u16_decode_be _ = none

unfoldable pub u16_decode_le : List ℕ → Option ℕ
u16_decode_le (a ∷ b ∷ _) = some ((b % 256 * 2 ^ 8 + a) % 2 ^ 16)
u16_decode_le _ = none

-- The sum of two halves, the first of them shifted.
unfoldable pub join_halves : Option ℕ → Option ℕ → Option ℕ
join_halves (some high) (some low) = some ((high * 2 ^ 16 + low) % 2 ^ 32)
join_halves _ _ = none

unfoldable pub u32_decode_be : List ℕ → Option ℕ
unfolding join_halves u16_decode_be
u32_decode_be (a ∷ b ∷ rest) = join_halves (u16_decode_be (a ∷ b ∷ [])) (u16_decode_be rest)
u32_decode_be _ = none

unfoldable pub u32_decode_le : List ℕ → Option ℕ
unfolding join_halves u16_decode_le
u32_decode_le (a ∷ b ∷ rest) = join_halves (u16_decode_le (a ∷ b ∷ [])) (u16_decode_le rest)
u32_decode_le _ = none

unfoldable pub round_inc : ℕ → ℕ → ℕ
round_inc w value = if ltb value (2 ^ w - 1) then value + 1 else 0

unfoldable pub round_dec : ℕ → ℕ → ℕ
round_dec w value = if ltb 0 value then value - 1 else 2 ^ w - 1

unfoldable pub ble_util_reverse_addr : List ℕ → Option (List ℕ)
ble_util_reverse_addr (a ∷ b ∷ c ∷ d ∷ e ∷ f ∷ _) = some (f ∷ e ∷ d ∷ c ∷ b ∷ a ∷ [])
ble_util_reverse_addr _ = none

-- Both encodings of 16 bits are undone by their decodings, and the big-endian one of 32 bits is.
pub u16_u32_round_trip :
    (n m : ℕ)
    → n < 2 ^ 16
    → m < 2 ^ 32
    → (u16_decode_be (u16_encode_be n) ≡ some n)
      × (u16_decode_le (u16_encode_le n) ≡ some n)
      × (u32_decode_be (u32_encode_be m) ≡ some m)
unfolding u16_encode_be u16_decode_be u16_encode_le u16_decode_le u32_encode_be u32_decode_be
    join_halves
u16_u32_round_trip n m hn hm = (ap some (omega arith), ap some (omega arith), ap some (omega arith))

-- The little-endian decoding of 32 bits swaps the halves of what the little-endian encoding stores.
pub u32_decode_le-u32_encode_le :
    (high low : ℕ)
    → high < 2 ^ 16
    → low < 2 ^ 16
    → u32_decode_le (u32_encode_le (high * 2 ^ 16 + low)) ≡ some (low * 2 ^ 16 + high)
unfolding u32_encode_le u32_decode_le u16_decode_le join_halves
u32_decode_le-u32_encode_le high low hh hl = ap some (omega arith)

-- Counting a byte up and counting it down undo each other, also where they wrap.
pub round_dec-round_inc :
    (value : ℕ)
    → value < 2 ^ 8
    → (round_dec 8 (round_inc 8 value) ≡ value) × (round_inc 8 (round_dec 8 value) ≡ value)
unfolding round_dec round_inc
round_dec-round_inc value h = ground arith
