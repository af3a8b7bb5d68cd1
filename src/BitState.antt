-- ===== src/BitState.antt =====
-- ccs_project/src/lib/util/bit_state.h: a state is one bit of 16, a mask any set of them.
use Prim.Native.Nat.{bit_and}
use cc2745_repo.Prelude.{
  ℕ, zero, suc, ◌^◌, ◌<◌, ◌≡◌, refl, Bool, true, false, not, ◌&&◌, arith, ◌==◌,
}

unfoldable pub bit_state_code : ℕ → ℕ
bit_state_code x = 2 ^ x

abbrev pub bit_state_mask_none : ℕ
bit_state_mask_none = 0x0000

abbrev pub bit_state_mask_any : ℕ
bit_state_mask_any = 0xFFFF

unfoldable pub bit_state_match : ℕ → ℕ → Bool
bit_state_match state state_mask = not (bit_and state state_mask == 0)

-- Over the 16 states, every case by evaluation.
all_below : ℕ → (ℕ → Bool) → Bool
all_below zero p = true
all_below (suc n) p = p n && all_below n p

all_below_lem : (n : ℕ) (p : ℕ → Bool) (x : ℕ) → all_below n p ≡ true → x < n → p x ≡ true
unfolding all_below
all_below_lem zero p x h lt = absurd (omega arith)
all_below_lem (suc n) p x h lt = ground (arith, all_below_lem n p x)

abbrev same_bool : Bool → Bool → Bool
same_bool true b = b
same_bool false b = not b

same_bool_eq : (a b : Bool) → same_bool a b ≡ true → a ≡ b
same_bool_eq a b h = ground arith

both : (a b : Bool) → (a && b) ≡ true → (a ≡ true) × (b ≡ true)
both a b h = ground arith

code_table :
    all_below 16 (λ i.
      all_below 16 (λ j. same_bool (bit_state_match (bit_state_code i) (bit_state_code j)) (i == j))
      && (bit_state_match (bit_state_code i) bit_state_mask_any
          && not (bit_state_match (bit_state_code i) bit_state_mask_none)))
    ≡ true
unfolding all_below bit_state_match bit_state_code
code_table = refl

-- A state matches the code of a state exactly if it is that one; it matches the mask of all states,
-- and not the empty mask.
pub bit_state_match_codes :
    (i j : ℕ)
    → i < 16
    → j < 16
    → (bit_state_match (bit_state_code i) (bit_state_code j) ≡ (i == j))
      × (bit_state_match (bit_state_code i) bit_state_mask_any ≡ true)
      × (bit_state_match (bit_state_code i) bit_state_mask_none ≡ false)
bit_state_match_codes i j hi hj =
    let row = all_below_lem 16 _ i code_table hi in
    let (left, right) = both _ _ row in
    let (any, other) = both _ _ right in
    (same_bool_eq _ _ (all_below_lem 16 _ j left hj), any, ground arith)
