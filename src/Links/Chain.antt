-- ===== src/Links/Chain.antt =====
-- What a doubly linked list is: the nodes `xs`, linked both ways from `head` to `tail`.
use cc2745_repo.Prelude.{◌≡◌, ◌≢◌, refl, Bool, true, false, ◌||◌, List, [], ◌∷◌, ◌++◌, arith, ◌==◌}
use cc2745_repo.Links.{Ptr, null, Links, update}

abbrev pub has : Ptr → List Ptr → Bool
has a [] = false
has a (x ∷ xs) = (a == x) || has a xs

abbrev pub first : List Ptr → Ptr
first [] = null
first (x ∷ xs) = x

-- The last node, or `d` if there is none.
abbrev pub last_of : Ptr → List Ptr → Ptr
last_of d [] = d
last_of d (x ∷ xs) = last_of x xs

-- The distinct nodes `xs` are linked both ways; `q` is before the first of them.
abbrev pub Chain : Links → Ptr → List Ptr → Type 0
Chain m q [] = Unit {0}
Chain m q (x ∷ xs) =
    (x ≢ null)
    × (m.live x ≡ true)
    × (m.prev x ≡ q)
    × (m.next x ≡ first xs)
    × (has x xs ≡ false)
    × Chain m x xs

pub record IsList (m : Links) (xs : List Ptr) : Type 0 where
  pub head : m.head ≡ first xs
  pub tail : m.tail ≡ last_of null xs
  pub chain : Chain m null xs

-- A chain survives what leaves its own nodes alone.
pub frame :
    (m k : Links) (q : Ptr) (xs : List Ptr)
    → ((a : Ptr)
        → has a xs ≡ true
        → (k.next a ≡ m.next a) × (k.prev a ≡ m.prev a) × (k.live a ≡ m.live a))
    → Chain m q xs
    → Chain k q xs
frame m k q [] same c = tt
frame m k q (x ∷ xs) same c =
    let (n, p, l) = same x (ground arith) in
    (
      c.0,
      ground arith,
      ground arith,
      ground arith,
      c.4,
      frame m k x xs (λ a h. same a (ground arith)) c.5,
    )

pub has-append : (a : Ptr) (xs ys : List Ptr) → has a (xs ++ ys) ≡ (has a xs || has a ys)
has-append a [] ys = refl
has-append a (x ∷ xs) ys = ground (arith, has-append a xs ys)

pub last_of-append : (d x : Ptr) (xs : List Ptr) → last_of d (xs ++ x ∷ []) ≡ x
last_of-append d x [] = refl
last_of-append d x (y ∷ xs) = last_of-append y x xs

-- The last node of a list that is not empty is one of its nodes.
pub has-last_of : (x : Ptr) (xs : List Ptr) → has (last_of x xs) (x ∷ xs) ≡ true
has-last_of x [] = ground arith
has-last_of x (y ∷ xs) = ground (arith, has-last_of y xs)

pub null_not_in : (m : Links) (q : Ptr) (xs : List Ptr) → Chain m q xs → has null xs ≡ false
null_not_in m q [] c = refl
null_not_in m q (x ∷ xs) c = ground (arith, null_not_in m x xs c.5)

-- `k` has the links of `m` at every node but those of `xs`, and the same nodes are live.
pub record SameOutside (xs : List Ptr) (m k : Links) : Type 0 where
  pub next : (a : Ptr) → has a xs ≡ false → k.next a ≡ m.next a
  pub prev : (a : Ptr) → has a xs ≡ false → k.prev a ≡ m.prev a
  pub live : (a : Ptr) → k.live a ≡ m.live a

-- A node that can be inserted: it exists, and is not in the list.
pub record IsFresh (m : Links) (xs : List Ptr) (x : Ptr) : Type 0 where
  pub ne_null : x ≢ null
  pub live : m.live x ≡ true
  pub outside : has x xs ≡ false

pub has-snoc : (y x : Ptr) (ys : List Ptr) → has y ys ≡ false → y ≢ x → has y (ys ++ x ∷ []) ≡ false
has-snoc y x [] h ne = ground arith
has-snoc y x (z ∷ ys) h ne = ground (arith, has-snoc y x ys)

-- The node before the fresh one is not it.
pub fresh_ne : (x y : Ptr) (ys : List Ptr) → has x (y ∷ ys) ≡ false → y ≢ x
fresh_ne x y ys h = ground arith

pub fresh_tail : (x y : Ptr) (ys : List Ptr) → has x (y ∷ ys) ≡ false → has x ys ≡ false
fresh_tail x y ys h = ground arith

pub update_ne : {A : Type 0} (f : Ptr → A) (p a : Ptr) (v : A) → a ≢ p → update f p v a ≡ f a
update_ne f p a v ne = ground arith

pub update_self : {A : Type 0} (f : Ptr → A) (p : Ptr) (v : A) → update f p v p ≡ v
update_self f p v = ground arith

-- A node that is not in `xs` is none of them.
pub has_ne : (a b : Ptr) (xs : List Ptr) → has a xs ≡ true → has b xs ≡ false → a ≢ b
has_ne a b [] h k = cc
has_ne a b (x ∷ xs) h k = ground (arith, has_ne a b xs)
