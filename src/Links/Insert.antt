-- ===== src/Links/Insert.antt =====
-- The insertions add a node at an end of the list.
use cc2745_repo.Prelude.{◌≡◌, ◌∙◌, sym, ◌≢◌, refl, true, false, List, [], ◌∷◌, ◌++◌, arith, ok}
use cc2745_repo.Links.{Ptr, null, Links, update, list_insert_head, list_insert_tail}
use cc2745_repo.Links.Chain.{
  has, last_of, Chain, IsList, SameOutside, IsFresh, frame, has-last_of, last_of-append, has-snoc,
  has_ne, update_ne, fresh_ne, fresh_tail,
}

abbrev only_node : Links → Ptr → Links
only_node m x = record m {
  prev = update m.prev x null;
  next = update m.next x null;
  head = x;
  tail = x;
}

only_node-IsList : (m : Links) (x : Ptr) → IsFresh m [] x → IsList (only_node m x) (x ∷ [])
only_node-IsList m x f = ground arith

abbrev with_head : Links → Ptr → Links
with_head m x = record m {
  prev = update (update m.prev x null) m.head x;
  next = update m.next x m.head;
  head = x;
}

head_frame :
    (m : Links) (x h : Ptr) (t : List Ptr) (a : Ptr)
    → m.head ≡ h
    → has h t ≡ false
    → has x (h ∷ t) ≡ false
    → has a t ≡ true
    → ((with_head m x).next a ≡ m.next a)
      × ((with_head m x).prev a ≡ m.prev a)
      × ((with_head m x).live a ≡ m.live a)
head_frame m x h t a e o f i = ground arith

with_head-Chain :
    (m : Links) (x h : Ptr) (t : List Ptr)
    → m.head ≡ h
    → IsFresh m (h ∷ t) x
    → Chain m null (h ∷ t)
    → Chain (with_head m x) null (x ∷ h ∷ t)
with_head-Chain m x h t e f c = (
  f.ne_null,
  f.live,
  ground (arith, f.outside),
  ground (arith, f.outside),
  f.outside,
  (
    c.0,
    c.1,
    ground arith,
    ground (arith, f.outside),
    c.4,
    frame m (with_head m x) h t (λ a i. head_frame m x h t a e c.4 f.outside i) c.5,
  ),
)

-- What an insertion of `x` leaves: the list of the nodes `ys`, and no write to other nodes.
pub record Linked (m : Links) (ys : List Ptr) (k : Links) : Type 0 where
  pub list : IsList k ys
  pub same : SameOutside ys m k

head_run :
    (m : Links) (x h : Ptr) (t : List Ptr)
    → IsList m (h ∷ t)
    → IsFresh m (h ∷ t) x
    → list_insert_head x m ≡ ok tt (with_head m x)
unfolding list_insert_head
head_run m x h t l f = ground arith

-- Inserting a fresh node at the head puts it in front.
pub list_insert_head_lem :
    (m : Links) (xs : List Ptr) (x : Ptr)
    → IsList m xs
    → IsFresh m xs x
    → (k : Links) × (list_insert_head x m ≡ ok tt k) × Linked m (x ∷ xs) k
unfolding list_insert_head
list_insert_head_lem m [] x l f = (
  only_node m x,
  ground arith,
  record {
    list = only_node-IsList m x f;
    same = record { next = λ a o. ground arith; prev = λ a o. ground arith; live = λ a. refl };
  },
)
list_insert_head_lem m (h ∷ t) x l f = (
  with_head m x,
  head_run m x h t l f,
  record {
    list = record { head = refl; tail = l.tail; chain = with_head-Chain m x h t l.head f l.chain };
    same = record { next = λ a o. ground arith; prev = λ a o. ground arith; live = λ a. refl };
  },
)

abbrev with_tail : Links → Ptr → Links
with_tail m x = record m {
  prev = update m.prev x m.tail;
  next = update (update m.next x null) m.tail x;
  tail = x;
}

tail_ne :
    (m : Links) (y z : Ptr) (ys : List Ptr)
    → m.tail ≡ last_of z ys
    → has y (z ∷ ys) ≡ false
    → y ≢ m.tail
tail_ne m y z ys e out =
    λ same. has_ne (last_of z ys) y (z ∷ ys) (has-last_of z ys) out (sym (same ∙ e))

-- By induction on the chain: only its last node, `m.tail`, changes.
with_tail-Chain :
    (m : Links) (x q y : Ptr) (ys : List Ptr)
    → m.tail ≡ last_of y ys
    → IsFresh m (y ∷ ys) x
    → Chain m q (y ∷ ys)
    → Chain (with_tail m x) q (y ∷ ys ++ x ∷ [])
with_tail-Chain m x q y [] e f c = (
  c.0,
  c.1,
  ground (arith, f.outside, c.2),
  ground arith,
  ground (arith, f.outside),
  (f.ne_null, f.live, ground arith, ground (arith, f.outside), refl, tt),
)
with_tail-Chain m x q y (z ∷ ys) e f c = (
  c.0,
  c.1,
  update_ne m.prev x y m.tail (fresh_ne x y (z ∷ ys) f.outside) ∙ c.2,
  update_ne (update m.next x null) m.tail y x (tail_ne m y z ys e c.4)
      ∙ update_ne m.next x y null (fresh_ne x y (z ∷ ys) f.outside)
      ∙ c.3,
  has-snoc y x (z ∷ ys) c.4 (fresh_ne x y (z ∷ ys) f.outside),
  with_tail-Chain m x y z ys e
      (record { ne_null = f.ne_null; live = f.live; outside = fresh_tail x y (z ∷ ys) f.outside })
      c.5,
)

-- What is outside of the new list is neither the new node nor the last one of before.
outside_tail :
    (x z a : Ptr) (ys : List Ptr) → has a (z ∷ ys ++ x ∷ []) ≡ false → (a ≢ x) × (a ≢ last_of z ys)
outside_tail x z a [] o = (λ e. ground arith, λ e. ground arith)
outside_tail x z a (y ∷ ys) o = outside_tail x y a ys (ground arith)

with_tail-SameOutside :
    (m : Links) (x h : Ptr) (t : List Ptr)
    → m.tail ≡ last_of h t
    → SameOutside (h ∷ t ++ x ∷ []) m (with_tail m x)
with_tail-SameOutside m x h t e = record {
  next = λ a o.
      let (new, last) = outside_tail x h a t o in
      update_ne (update m.next x null) m.tail a x (λ same. last (same ∙ e))
      ∙ update_ne m.next x a null new;
  prev = λ a o. update_ne m.prev x a m.tail (outside_tail x h a t o).0;
  live = λ a. refl;
}

tail_run :
    (m : Links) (x h : Ptr) (t : List Ptr)
    → IsList m (h ∷ t)
    → IsFresh m (h ∷ t) x
    → m.live m.tail ≡ true
    → m.tail ≢ null
    → list_insert_tail x m ≡ ok tt (with_tail m x)
unfolding list_insert_tail
tail_run m x h t l f lv ne = ground arith

last-live :
    (m : Links) (q x : Ptr) (xs : List Ptr)
    → Chain m q (x ∷ xs)
    → (last_of x xs ≢ null) × (m.live (last_of x xs) ≡ true)
last-live m q x [] c = (c.0, c.1)
last-live m q x (y ∷ ys) c = last-live m x y ys c.5

-- Inserting a fresh node at the tail puts it behind the others.
pub list_insert_tail_lem :
    (m : Links) (xs : List Ptr) (x : Ptr)
    → IsList m xs
    → IsFresh m xs x
    → (k : Links) × (list_insert_tail x m ≡ ok tt k) × Linked m (xs ++ x ∷ []) k
unfolding list_insert_tail
list_insert_tail_lem m [] x l f = (
  only_node m x,
  ground arith,
  record {
    list = only_node-IsList m x f;
    same = record { next = λ a o. ground arith; prev = λ a o. ground arith; live = λ a. refl };
  },
)
list_insert_tail_lem m (h ∷ t) x l f =
    let (ne, lv) = last-live m null h t l.chain in
    (
      with_tail m x,
      tail_run m x h t l f (rw l.tail lv) (rw l.tail ne),
      record {
        list = record {
          head = l.head;
          tail = rw (last_of-append h x t);
          chain = with_tail-Chain m x null h t l.tail f l.chain;
        };
        same = with_tail-SameOutside m x h t l.tail;
      },
    )
