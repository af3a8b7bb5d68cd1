-- ===== src/Util/Tests.antt =====
-- The theorems at some numbers.
use cc2745_repo.Prelude.{◌≡◌, some, arith}
use cc2745_repo.Util.{
  u16_encode_be, u16_decode_be, u16_encode_le, u16_decode_le, u32_encode_be, u32_decode_be,
  round_inc, round_dec, u16_u32_round_trip, round_dec-round_inc,
}

u16_u32_round_trip_example :
    (u16_decode_be (u16_encode_be 0xBEEF) ≡ some 0xBEEF)
    × (u16_decode_le (u16_encode_le 0xBEEF) ≡ some 0xBEEF)
    × (u32_decode_be (u32_encode_be 0xDEADBEEF) ≡ some 0xDEADBEEF)
u16_u32_round_trip_example = u16_u32_round_trip 0xBEEF 0xDEADBEEF (omega arith) (omega arith)

round_dec-round_inc_example :
    (round_dec 8 (round_inc 8 255) ≡ 255) × (round_inc 8 (round_dec 8 255) ≡ 255)
round_dec-round_inc_example = round_dec-round_inc 255 (omega arith)
