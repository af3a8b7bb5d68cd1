-- ===== src/Prelude/Masks.antt =====
-- Facts about a mask: `x & (d - 1)` is `x % d` if `d` is a power of two.
use Prim.Native.Nat.{
  ℕ, zero, suc, ◌+◌, ◌-◌, ◌*◌, ◌/◌, ◌%◌, ◌≤◌, ◌<◌, min, bit_and, digits, bit_and-bitwise,
}
use mathlib.Core.Path.{◌≡◌, refl, ap, ◌∙◌}
use mathlib.Core.Logic.{◌⊎◌, inl, inr}
use native.Mathlib.Nat.{
  div-add-mod, mod-lt, mod-eq_of_lt, mul_comm, mul_assoc, mul-add-mod_self_right,
}
use native.Mathlib.Omega.{arith}
use cc2745_repo.Prelude.Tests.{◌==◌, Bool-cases}

-- Fuel beyond the number itself changes nothing.
digits_enough :
    (n m a b : ℕ) → n ≤ m → a ≤ n → digits (λ c. 0) min m a b ≡ digits (λ c. 0) min n a b
digits_enough zero zero a b more enough = refl
digits_enough zero (suc m) zero b more enough = refl
digits_enough (suc n) (suc m) zero b more enough = refl
digits_enough zero (suc m) (suc a) b more enough = absurd (omega arith)
digits_enough (suc n) zero a b more enough = absurd (omega arith)
digits_enough (suc n) (suc m) (suc a) b more enough =
    omega (arith, digits_enough n m (suc a / 2) (b / 2) (omega arith) (omega arith))

bit_and-halves : (a b : ℕ) → bit_and a b ≡ bit_and (a / 2) (b / 2) * 2 + min (a % 2) (b % 2)
bit_and-halves zero b = omega (arith, bit_and-bitwise 0 (b / 2), bit_and-bitwise 0 b)
bit_and-halves (suc a) b =
    let whole = bit_and-bitwise (suc a) b in
    let half = bit_and-bitwise (suc a / 2) (b / 2) in
    let fuel = digits_enough (suc a / 2) a (suc a / 2) (b / 2) (omega arith) (omega arith) in
    omega (arith, whole, half, fuel)

-- By induction on a bound: what `bit_and` does with no bits, and with the same bits.
bit_and-ends : (n a : ℕ) → a ≤ n → (bit_and a 0 ≡ 0) × (bit_and a a ≡ a)
bit_and-ends n zero h = (refl, refl)
bit_and-ends zero (suc a) h = absurd (omega arith)
bit_and-ends (suc n) (suc a) h =
    let (no_bits, same) = bit_and-ends n (suc a / 2) (omega arith) in
    (
      omega (arith, bit_and-halves (suc a) 0, no_bits),
      omega (arith, bit_and-halves (suc a) (suc a), same),
    )

-- The digits of a remainder: the last one of `x`, and those of the remainder of its half.
mod_half : (x k : ℕ) → 0 < k → x % (k * 2) ≡ x / 2 % k * 2 + x % 2
mod_half x k pos =
    let split = div-add-mod (x / 2) k in
    let below = mod-lt (x / 2) pos in
    let parts : x ≡ x / 2 / k * (k * 2) + (x / 2 % k * 2 + x % 2) =
      omega (arith, split, mul_comm k (x / 2 / k), mul_assoc (x / 2 / k) k 2) in
    ap (λ y. y % (k * 2)) parts
    ∙ mul-add-mod_self_right (x / 2 / k) (k * 2) (x / 2 % k * 2 + x % 2)
    ∙ mod-eq_of_lt (omega (arith, below))

-- An odd number that shares no bit with its predecessor is one.
mask_odd : (k x : ℕ) → bit_and (suc (k * 2)) (k * 2) ≡ 0 → bit_and x (k * 2) ≡ x % suc (k * 2)
mask_odd zero x p = omega (arith, (bit_and-ends x x (omega arith)).0)
mask_odd (suc k) x p =
    let same = (bit_and-ends (suc k) (suc k) (omega arith)).1 in
    absurd (grind (arith, bit_and-halves (suc (suc k * 2)) (suc k * 2), same))

mask_even :
    (k x : ℕ)
    → bit_and (x / 2) (suc k - 1) ≡ x / 2 % suc k
    → bit_and x (suc (k * 2)) ≡ x % (suc k * 2)
mask_even k x half =
    grind (arith, bit_and-halves x (suc (k * 2)), half, mod_half x (suc k) (omega arith))

halved : (k : ℕ) → bit_and (suc k * 2) (suc (k * 2)) ≡ 0 → bit_and (suc k) (suc k - 1) ≡ 0
halved k p = grind (arith, bit_and-halves (suc k * 2) (suc (k * 2)))

parity : (d : ℕ) → 0 < d → ((k : ℕ) × (d ≡ suc (k * 2))) ⊎ ((k : ℕ) × (d ≡ suc k * 2))
parity d pos = elim (Bool-cases (d % 2 == 1)) [
  | inl odd ↦ inl (d / 2, ground arith)
  | inr even ↦ inr (d / 2 - 1, ground arith)
]

mask_below : (n d x : ℕ) → d ≤ n → 0 < d → bit_and d (d - 1) ≡ 0 → bit_and x (d - 1) ≡ x % d
mask_below zero d x h pos p = absurd (omega arith)
mask_below (suc n) d x h pos p = elim (parity d pos) [
  | inl (k, e) ↦
      (let r : d - 1 ≡ k * 2 = omega (arith, e) in
        let q : bit_and (suc (k * 2)) (k * 2) ≡ 0 = rw (r, e) at p in rw (r, e) (mask_odd k x q))
  | inr (k, e) ↦
      (let r : d - 1 ≡ suc (k * 2) = omega (arith, e) in
        let q : bit_and (suc k * 2) (suc (k * 2)) ≡ 0 = rw (r, e) at p in
        rw (r, e)
          (mask_even k x (mask_below n (suc k) (x / 2) (omega arith) (omega arith) (halved k q))))
]

-- A number is a power of two, or zero, if it shares no bit with its predecessor.
pub mask_lem : (x d : ℕ) → 0 < d → bit_and d (d - 1) ≡ 0 → bit_and x (d - 1) ≡ x % d
mask_lem x d = mask_below d d x (omega arith)
