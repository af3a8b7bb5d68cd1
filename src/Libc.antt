-- ===== src/Libc.antt =====
-- The C library's `qsort` and `bsearch`, which the lists call. They are no code of the repository:
-- both are parameters, with their documented behaviour as hypotheses.
pub mod Models
use mathlib.Core.List.{Perm}
use cc2745_repo.Prelude.{ℕ, ◌≡◌, ◌≢◌, Option, none, some, List, [], ◌∷◌, get_elem?}

-- The sign of the `int` that a comparison function returns.
pub data Sign : Type 0 where
  negative equal positive : Sign

pub record Libc (A : Type 0) : Type 0 where
  pub qsort : (A → A → Sign) → List A → List A
  -- The index of the entry that the returned pointer points at; `none` is NULL.
  pub bsearch : (A → A → Sign) → A → List A → Option ℕ

module _ {A : Type 0} (compare : A → A → Sign) where
  abbrev pub NoneBelow : A → List A → Type 0
  NoneBelow x [] = Unit {0}
  NoneBelow x (y ∷ ys) = (compare x y ≢ positive) × NoneBelow x ys

  -- No entry compares greater than a later one.
  abbrev pub IsSorted : List A → Type 0
  IsSorted [] = Unit {0}
  IsSorted (x ∷ xs) = NoneBelow x xs × IsSorted xs

  -- `qsort` sorts the array in place.
  pub record IsQsort (c : Libc A) : Type 0 where
    pub perm : (xs : List A) → Perm (c.qsort compare xs) xs
    pub sorted : (xs : List A) → IsSorted (c.qsort compare xs)

  -- On a sorted array `bsearch` finds an entry that compares equal to the key, if there is one.
  pub record IsBsearch (c : Libc A) : Type 0 where
    pub found :
        (k : A) (xs : List A) (i : ℕ)
        → IsSorted xs
        → c.bsearch compare k xs ≡ some i
        → (x : A) × (get_elem? xs i ≡ some x) × (compare k x ≡ equal)
    pub missed :
        (k : A) (xs : List A) (i : ℕ) (x : A)
        → IsSorted xs
        → c.bsearch compare k xs ≡ none
        → get_elem? xs i ≡ some x
        → compare k x ≢ equal
