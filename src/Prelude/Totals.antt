-- ===== src/Prelude/Totals.antt =====
-- Sums of a weight over an array, which do not depend on the order of its entries.
use Prim.Native.Nat.{ℕ, zero, suc, ◌+◌, ◌≤◌}
use mathlib.Core.Path.{◌≡◌, refl, ap₂, ap, ◌∙◌}
use mathlib.Core.Logic.{◌≢◌, ∥∥₁_elim}
use mathlib.Core.List.{List, [], ◌∷◌, Perm, Permᴰ}
use mathlib.Core.Option.{some}
use native.Mathlib.Nat.{ℕ_set}
use native.Mathlib.Omega.{arith}
use cc2745_repo.Prelude.Lists.{get_elem?, set, length}

module _ {A : Type 0} (w : A → ℕ) where
  abbrev pub total : List A → ℕ
  total [] = 0
  total (x ∷ xs) = w x + total xs

  total_permᴰ : {xs ys : List A} → Permᴰ xs ys → total xs ≡ total ys
  total_permᴰ Permᴰ.nil = refl
  total_permᴰ (Permᴰ.cons e p) = ap₂ ◌+◌ (ap w e) (total_permᴰ p)
  total_permᴰ (Permᴰ.swap {a} {b} {a'} {b'} {l} e f) = omega (arith, ap w e, ap w f)
  total_permᴰ (Permᴰ.trans p q) = total_permᴰ p ∙ total_permᴰ q

  pub total_perm : {xs ys : List A} → Perm xs ys → total xs ≡ total ys
  total_perm p = ∥∥₁_elim p (ℕ_set _ _) total_permᴰ

  pub total-set :
      (xs : List A) (i : ℕ) {x : A} (y : A)
      → get_elem? xs i ≡ some x
      → total (set xs i y) + w x ≡ total xs + w y
  total-set [] i y h = absurd (cc)
  total-set (x ∷ xs) zero y h = ground arith
  total-set (x ∷ xs) (suc i) y h = omega (arith, total-set xs i y h)

  pub le-total : (xs : List A) (i : ℕ) {x : A} → get_elem? xs i ≡ some x → w x ≤ total xs
  le-total [] i h = absurd (cc)
  le-total (x ∷ xs) zero h = ground arith
  le-total (x ∷ xs) (suc i) h = omega (arith, le-total xs i h)

  pub add-le-total :
      (xs : List A) (i j : ℕ) {x y : A}
      → i ≢ j
      → get_elem? xs i ≡ some x
      → get_elem? xs j ≡ some y
      → w x + w y ≤ total xs
  add-le-total [] i j ne h k = absurd (cc)
  add-le-total (x ∷ xs) zero zero ne h k = absurd (ne refl)
  add-le-total (x ∷ xs) zero (suc j) ne h k = ground (arith, le-total xs j k)
  add-le-total (x ∷ xs) (suc i) zero ne h k = ground (arith, le-total xs i h)
  add-le-total (x ∷ xs) (suc i) (suc j) ne h k =
      omega (arith, add-le-total xs i j (λ e. ne (ap suc e)) h k)

pub length_permᴰ : {A : Type 0} {xs ys : List A} → Permᴰ xs ys → length xs ≡ length ys
length_permᴰ Permᴰ.nil = refl
length_permᴰ (Permᴰ.cons e p) = ap suc (length_permᴰ p)
length_permᴰ (Permᴰ.swap e f) = refl
length_permᴰ (Permᴰ.trans p q) = length_permᴰ p ∙ length_permᴰ q

pub length_perm : {A : Type 0} {xs ys : List A} → Perm xs ys → length xs ≡ length ys
length_perm p = ∥∥₁_elim p (ℕ_set _ _) length_permᴰ
