-- ===== src/Links/Remove.antt =====
-- The removals at the two ends.
use cc2745_repo.Prelude.{
  ◌≡◌, ◌∙◌, sym, ◌≢◌, refl, true, false, List, [], ◌∷◌, ◌++◌, arith, ◌==◌, ok,
}
use cc2745_repo.Links.{Ptr, null, Links, update, list_remove_head, list_remove_tail}
use cc2745_repo.Links.Chain.{
  has, last_of, Chain, IsList, frame, has-last_of, has_ne, update_ne, update_self,
}
use cc2745_repo.Links.Split.{between, last_before, last_of-append, split_out}

-- What a removal of `x` leaves: the list of the other nodes, and `x` with no links.
pub record Unlinked (m : Links) (x : Ptr) (ys : List Ptr) (k : Links) : Type 0 where
  pub list : IsList k ys
  pub next : k.next x ≡ null
  pub prev : k.prev x ≡ null
  pub live : (a : Ptr) → k.live a ≡ m.live a

abbrev emptied : Links → Links
emptied m = record m { head = null; tail = null }

abbrev without_head : Links → (x y : Ptr) → Links
without_head m x y = record m { head = y; prev = update m.prev y null; next = update m.next x null }

head_frame :
    (m : Links) (x y a : Ptr) (ys : List Ptr)
    → has x (y ∷ ys) ≡ false
    → has y ys ≡ false
    → has a ys ≡ true
    → ((without_head m x y).next a ≡ m.next a)
      × ((without_head m x y).prev a ≡ m.prev a)
      × ((without_head m x y).live a ≡ m.live a)
head_frame m x y a ys out out' i = ground (arith, has_ne a x ys i, has_ne a y ys i)

without_head-Chain :
    (m : Links) (x y : Ptr) (ys : List Ptr)
    → Chain m null (x ∷ y ∷ ys)
    → Chain (without_head m x y) null (y ∷ ys)
without_head-Chain m x y ys c =
    let d = c.5 in
    (
      d.0,
      d.1,
      update_self m.prev y null,
      update_ne m.next x y null (has_ne y x (y ∷ ys) (ground arith) c.4) ∙ d.3,
      d.4,
      frame m (without_head m x y) y ys (λ a i. head_frame m x y a ys c.4 d.4 i) d.5,
    )

head_run :
    (m : Links) (x y : Ptr)
    → m.head ≡ x
    → (x == m.tail) ≡ false
    → x ≢ null
    → m.live x ≡ true
    → m.next x ≡ y
    → y ≢ null
    → m.live y ≡ true
    → list_remove_head x m ≡ ok tt (without_head m x y)
unfolding list_remove_head
head_run m x y e ne nx lx n ny ly = ground arith

not_last :
    (m : Links) (x y t : Ptr) (ys : List Ptr)
    → t ≡ last_of y ys
    → has x (y ∷ ys) ≡ false
    → (x == t) ≡ false
not_last m x y t ys e out =
    let ne = has_ne (last_of y ys) x (y ∷ ys) (has-last_of y ys) out in ground arith

-- Removing the head of a list leaves the rest, and the node unlinked.
pub list_remove_head_lem :
    (m : Links) (x : Ptr) (xs : List Ptr)
    → IsList m (x ∷ xs)
    → (k : Links) × (list_remove_head x m ≡ ok tt k) × Unlinked m x xs k
unfolding list_remove_head
list_remove_head_lem m x [] l = (
  emptied m,
  ground arith,
  record {
    list = record { head = refl; tail = refl; chain = tt };
    next = l.chain.3;
    prev = l.chain.2;
    live = λ a. refl;
  },
)
list_remove_head_lem m x (y ∷ ys) l =
    let c = l.chain in
    let d = c.5 in
    (
      without_head m x y,
      head_run m x y l.head (not_last m x y m.tail ys l.tail c.4) c.0 c.1 c.3 d.0 d.1,
      record {
        list = record { head = refl; tail = l.tail; chain = without_head-Chain m x y ys c };
        next = update_self m.next x null;
        prev =
            update_ne m.prev y x null (λ e. has_ne y x (y ∷ ys) (ground arith) c.4 (sym e)) ∙ c.2;
        live = λ a. refl;
      },
    )

abbrev without_tail : Links → (x z : Ptr) → Links
without_tail m x z = record m { tail = z; next = update m.next z null; prev = update m.prev x null }

tail_run :
    (m : Links) (x z : Ptr)
    → m.tail ≡ x
    → (m.head == x) ≡ false
    → x ≢ null
    → m.live x ≡ true
    → m.prev x ≡ z
    → z ≢ null
    → m.live z ≡ true
    → list_remove_tail x m ≡ ok tt (without_tail m x z)
unfolding list_remove_tail
tail_run m x z e ne nx lx n nz lz = ground arith

without_tail-Chain :
    (m : Links) (x q y : Ptr) (ys : List Ptr) (z : Ptr)
    → z ≡ last_of y ys
    → Chain m q (y ∷ ys ++ x ∷ [])
    → Chain (without_tail m x z) q (y ∷ ys)
without_tail-Chain m x q y [] z e c = (
  c.0,
  c.1,
  update_ne m.prev x y null (split_out y x [] [] c.4).0 ∙ c.2,
  rw e (update_self m.next y null),
  refl,
  tt,
)
without_tail-Chain m x q y (w ∷ ys) z e c = (
  c.0,
  c.1,
  update_ne m.prev x y null (split_out y x (w ∷ ys) [] c.4).0 ∙ c.2,
  update_ne m.next z y null (λ s.
        has_ne (last_of w ys) y (w ∷ ys) (has-last_of w ys) (split_out y x (w ∷ ys) [] c.4).1
          (sym (s ∙ e)))
      ∙ c.3,
  (split_out y x (w ∷ ys) [] c.4).1,
  without_tail-Chain m x y w ys z e c.5,
)

not_first :
    (m : Links) (h x : Ptr) (t : List Ptr)
    → m.head ≡ h
    → has h (t ++ x ∷ []) ≡ false
    → (m.head == x) ≡ false
not_first m h x t e out = let ne = (split_out h x t [] out).0 in ground arith

last-prev_null :
    (m : Links) (x z : Ptr) → z ≢ x → m.next x ≡ null → (without_tail m x z).next x ≡ null
last-prev_null m x z ne e = update_ne m.next z x null (λ s. ne (sym s)) ∙ e

-- Removing the tail of a list leaves the nodes before it, and the node unlinked.
pub list_remove_tail_lem :
    (m : Links) (xs : List Ptr) (x : Ptr)
    → IsList m (xs ++ x ∷ [])
    → (k : Links) × (list_remove_tail x m ≡ ok tt k) × Unlinked m x xs k
unfolding list_remove_tail
list_remove_tail_lem m [] x l = (
  emptied m,
  ground arith,
  record {
    list = record { head = refl; tail = refl; chain = tt };
    next = l.chain.3;
    prev = l.chain.2;
    live = λ a. refl;
  },
)
list_remove_tail_lem m (h ∷ t) x l =
    let c = l.chain in
    let b = between m null x (h ∷ t) [] c in
    let (nz, lz) = last_before m null x h t [] c in
    let other =
      λ (s : last_of h t ≡ x). has_ne (last_of h t) x (h ∷ t) (has-last_of h t) b.not_before s in
    (
      without_tail m x (last_of h t),
      tail_run m x (last_of h t) (l.tail ∙ last_of-append h x t []) (not_first m h x t l.head c.4)
          b.ne_null b.live b.prev nz lz,
      record {
        list = record {
          head = l.head;
          tail = refl;
          chain = without_tail-Chain m x null h t (last_of h t) refl c;
        };
        next = last-prev_null m x (last_of h t) other b.next;
        prev = update_self m.prev x null;
        live = λ a. refl;
      },
    )
