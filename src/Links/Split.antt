-- ===== src/Links/Split.antt =====
-- What a chain says of a node in its middle.
use cc2745_repo.Prelude.{◌≡◌, sym, ◌≢◌, refl, true, false, List, [], ◌∷◌, ◌++◌, arith}
use cc2745_repo.Links.{Ptr, null, Links}
use cc2745_repo.Links.Chain.{has, first, last_of, Chain, has-last_of, has_ne}

-- `x` stands between the nodes `xs` and `ys` of a chain that `q` is before.
pub record Between (m : Links) (q : Ptr) (xs : List Ptr) (x : Ptr) (ys : List Ptr) : Type 0 where
  pub ne_null : x ≢ null
  pub live : m.live x ≡ true
  pub prev : m.prev x ≡ last_of q xs
  pub next : m.next x ≡ first ys
  pub not_before : has x xs ≡ false
  pub not_after : has x ys ≡ false

has_middle : (x : Ptr) (xs ys : List Ptr) → has x (xs ++ x ∷ ys) ≡ true
has_middle x [] ys = ground arith
has_middle x (y ∷ xs) ys = ground (arith, has_middle x xs ys)

not_before_cons :
    (x y : Ptr) (xs ys : List Ptr)
    → has y (xs ++ x ∷ ys) ≡ false
    → has x xs ≡ false
    → has x (y ∷ xs) ≡ false
not_before_cons x y xs ys out rest = ground (arith, has_middle x xs ys)

pub between :
    (m : Links) (q x : Ptr) (xs ys : List Ptr) → Chain m q (xs ++ x ∷ ys) → Between m q xs x ys
between m q x [] ys c = record {
  ne_null = c.0;
  live = c.1;
  prev = c.2;
  next = c.3;
  not_before = refl;
  not_after = c.4;
}
between m q x (y ∷ xs) ys c =
    let b = between m y x xs ys c.5 in
    record {
      ne_null = b.ne_null;
      live = b.live;
      prev = b.prev;
      next = b.next;
      not_before = not_before_cons x y xs ys c.4 b.not_before;
      not_after = b.not_after;
    }

-- The last node of a chain exists, and nothing follows it.
pub last-node :
    (m : Links) (q x : Ptr) (xs : List Ptr)
    → Chain m q (x ∷ xs)
    → (last_of x xs ≢ null) × (m.live (last_of x xs) ≡ true) × (m.next (last_of x xs) ≡ null)
last-node m q x [] c = (c.0, c.1, c.3)
last-node m q x (y ∷ ys) c = last-node m x y ys c.5

-- The last of the nodes before `x` exists as well.
pub last_before :
    (m : Links) (q x h : Ptr) (t ys : List Ptr)
    → Chain m q (h ∷ t ++ x ∷ ys)
    → (last_of h t ≢ null) × (m.live (last_of h t) ≡ true)
last_before m q x h [] ys c = (c.0, c.1)
last_before m q x h (y ∷ t) ys c = last_before m h x y t ys c.5

pub last_of-append : (d x : Ptr) (xs ys : List Ptr) → last_of d (xs ++ x ∷ ys) ≡ last_of x ys
last_of-append d x [] ys = refl
last_of-append d x (y ∷ xs) ys = last_of-append y x xs ys

-- What is not among `xs` and `x` is no member of either.
pub split_out :
    (y x : Ptr) (xs ys : List Ptr) → has y (xs ++ x ∷ ys) ≡ false → (y ≢ x) × (has y xs ≡ false)
split_out y x [] ys h = (ground arith, refl)
split_out y x (z ∷ xs) ys h = ground (arith, split_out y x xs ys)

pub split_out_right :
    (y x : Ptr) (xs ys : List Ptr) → has y (xs ++ x ∷ ys) ≡ false → has y (x ∷ ys) ≡ false
split_out_right y x [] ys h = h
split_out_right y x (z ∷ xs) ys h = split_out_right y x xs ys (ground arith)

-- The node before `x` leads to it.
pub next_before :
    (m : Links) (q x h : Ptr) (t ys : List Ptr)
    → Chain m q (h ∷ t ++ x ∷ ys)
    → m.next (last_of h t) ≡ x
next_before m q x h [] ys c = c.3
next_before m q x h (y ∷ t) ys c = next_before m h x y t ys c.5

-- The head of a list with a later node is not its tail.
pub head_ne_last : (h x : Ptr) (t ys : List Ptr) → has h (t ++ x ∷ ys) ≡ false → h ≢ last_of x ys
head_ne_last h x t ys out e =
    has_ne (last_of x ys) h (x ∷ ys) (has-last_of x ys) (split_out_right h x t ys out) (sym e)

pub after_node :
    (m : Links) (q x y : Ptr) (xs ys : List Ptr)
    → Chain m q (xs ++ x ∷ y ∷ ys)
    → (y ≢ null) × (m.live y ≡ true)
after_node m q x y [] ys c = (c.5.0, c.5.1)
after_node m q x y (z ∷ xs) ys c = after_node m z x y xs ys c.5
