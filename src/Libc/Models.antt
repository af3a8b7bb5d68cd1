-- ===== src/Libc/Models.antt =====
-- Functions that meet the hypotheses about the C library and the semaphore, so that they can hold:
-- insertion sort, a linear search, and a counter.
use mathlib.Core.List.{Perm}
use mathlib.Core.List.Perm
use mathlib.Core.Option
use cc2745_repo.Prelude.{
  inl, inr, Bool, true, false, Bool-cases, if◌then◌else◌, ℕ, zero, suc, ◌≡◌, ◌≢◌, refl, Option,
  none, some, List, [], ◌∷◌, arith, get_elem?, Os, IsSemaphore,
}
use cc2745_repo.Libc.{Sign, equal, positive, Libc, NoneBelow, IsSorted, IsQsort, IsBsearch}

wait : ℕ → Option ℕ
wait zero = none
wait (suc n) = some n

unfoldable pub counter : Os
unfolding wait
counter = record { sem_init = λ n. n; sem_wait = wait; sem_post = suc }

pub counter-IsSemaphore : IsSemaphore counter
unfolding counter
counter-IsSemaphore = record { wait_zero = refl; wait_suc = λ n. refl; post_lem = λ n. refl }

abbrev is_positive : Sign → Bool
is_positive positive = true
is_positive _ = false

abbrev is_equal : Sign → Bool
is_equal equal = true
is_equal _ = false

module _ {A : Type 0} (compare : A → A → Sign) where
  insert : A → List A → List A
  insert x [] = x ∷ []
  insert x (y ∷ ys) =
      let rest = y ∷ insert x ys in if is_positive (compare x y) then rest else x ∷ y ∷ ys

  sort : List A → List A
  unfolding insert
  sort [] = []
  sort (x ∷ xs) = insert x (sort xs)

  find : A → List A → Option ℕ
  find k [] = none
  find k (x ∷ xs) =
      let rest = Option.map suc (find k xs) in if is_equal (compare k x) then some 0 else rest

unfoldable pub simple_libc : {A : Type 0} → Libc A
unfolding sort find
simple_libc = record { qsort = sort; bsearch = find }

module _ {A : Type 0} (compare : A → A → Sign) where
  missed :
      (k : A) (xs : List A) (i : ℕ) (x : A)
      → find compare k xs ≡ none
      → get_elem? xs i ≡ some x
      → compare k x ≢ equal
  unfolding find
  missed k [] i x e at = absurd (cc)
  missed k (y ∷ ys) zero x e at = ground arith
  missed k (y ∷ ys) (suc i) x e at = missed k ys i x (ground arith) at

  found :
      (k : A) (xs : List A) (i : ℕ)
      → find compare k xs ≡ some i
      → (x : A) × (get_elem? xs i ≡ some x) × (compare k x ≡ equal)
  unfolding find
  found k [] i e = absurd (cc)
  found k (y ∷ ys) zero e = (y, refl, ground arith)
  found k (y ∷ ys) (suc i) e = found k ys i (ground arith)

  pub simple_libc-IsBsearch : IsBsearch compare simple_libc
  unfolding simple_libc
  simple_libc-IsBsearch = record {
    found = λ k xs i s e. found k xs i e;
    missed = λ k xs i x s e at. missed k xs i x e at;
  }

module _ {A : Type 0} (compare : A → A → Sign)
    (total : (x y : A) → compare x y ≡ positive → compare y x ≢ positive)
    (transitive : (x y z : A)
      → compare x y ≢ positive
      → compare y z ≢ positive
      → compare x z ≢ positive) where
  perm-insert : (x : A) (ys : List A) → Perm (insert compare x ys) (x ∷ ys)
  unfolding insert
  perm-insert x [] = Perm.rfl
  perm-insert x (y ∷ ys) = elim (Bool-cases (is_positive (compare x y))) [
    | inl p ↦ rw p (Perm.trans (Perm.cons y (perm-insert x ys)) (Perm.swap x y ys))
    | inr np ↦ rw np Perm.rfl
  ]

  perm-sort : (xs : List A) → Perm (sort compare xs) xs
  unfolding sort
  perm-sort [] = Perm.rfl
  perm-sort (x ∷ xs) = Perm.trans (perm-insert x (sort compare xs)) (Perm.cons x (perm-sort xs))

  NoneBelow-insert :
      (z x : A) (ys : List A)
      → compare z x ≢ positive
      → NoneBelow compare z ys
      → NoneBelow compare z (insert compare x ys)
  unfolding insert
  NoneBelow-insert z x [] h b = (h, tt)
  NoneBelow-insert z x (y ∷ ys) h b = elim (Bool-cases (is_positive (compare x y))) [
    | inl p ↦ rw p (b.0, NoneBelow-insert z x ys h b.1)
    | inr np ↦ rw np (h, b)
  ]

  NoneBelow-trans :
      (x y : A) (ys : List A)
      → compare x y ≢ positive
      → NoneBelow compare y ys
      → NoneBelow compare x ys
  NoneBelow-trans x y [] h b = tt
  NoneBelow-trans x y (z ∷ ys) h b = (transitive x y z h b.0, NoneBelow-trans x y ys h b.1)

  IsSorted-insert :
      (x : A) (ys : List A) → IsSorted compare ys → IsSorted compare (insert compare x ys)
  unfolding insert
  IsSorted-insert x [] s = (tt, tt)
  IsSorted-insert x (y ∷ ys) s = elim (Bool-cases (is_positive (compare x y))) [
    | inl p ↦
        rw p (NoneBelow-insert y x ys (total x y (ground arith)) s.0, IsSorted-insert x ys s.1)
    | inr np ↦
        let below : compare x y ≢ positive = ground arith in
        rw np ((below, NoneBelow-trans x y ys below s.0), s)
  ]

  IsSorted-sort : (xs : List A) → IsSorted compare (sort compare xs)
  unfolding sort
  IsSorted-sort [] = tt
  IsSorted-sort (x ∷ xs) = IsSorted-insert x (sort compare xs) (IsSorted-sort xs)

  pub simple_libc-IsQsort : IsQsort compare simple_libc
  unfolding simple_libc
  simple_libc-IsQsort = record { perm = perm-sort; sorted = IsSorted-sort }
