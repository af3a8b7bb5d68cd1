-- ===== src/Links/RemoveNode.antt =====
-- `LIST_REMOVE_NODE` on a node of a list.
use cc2745_repo.Prelude.{
  ℕ, ◌≡◌, ◌∙◌, sym, ◌≢◌, refl, true, false, List, [], ◌∷◌, ◌++◌, append-nil, arith, ◌==◌, ok,
}
use cc2745_repo.Links.{Ptr, null, Links, update, list_remove_node}
use cc2745_repo.Links.Chain.{last_of, IsList, has-last_of, has_ne, update_ne}
use cc2745_repo.Links.Split.{
  between, last-node, last_before, last_of-append, split_out, head_ne_last, next_before, after_node,
}

-- A list of one node: the node is removed, and any other node is refused with NULL.
pub list_remove_node_only :
    (m : Links) (x p : Ptr)
    → IsList m (x ∷ [])
    → (p ≡ x → list_remove_node p m ≡ ok x (record m { head = null; tail = null }))
      × (p ≢ x → list_remove_node p m ≡ ok null m)
unfolding list_remove_node
list_remove_node_only m x p l = ground arith

abbrev cut_head : Links → Ptr → Links
cut_head m x = record m { head = m.next x; prev = update m.prev x null }

abbrev cut_tail : Links → Ptr → Links
cut_tail m x = record m { tail = m.prev x; next = update m.next x null }

abbrev cut_middle : Links → Ptr → Links
cut_middle m x = record m {
  next = update (update m.next (m.prev x) (m.next x)) x null;
  prev = update (update m.prev x null) (m.next x) (update m.prev x null x);
}

module _ (m : Links) (x : Ptr) (ne : x ≢ null) (lx : m.live x ≡ true)
    (two : (m.head == m.tail) ≡ false) where
  head_run : m.head ≡ x → list_remove_node x m ≡ ok x (cut_head m x)
  unfolding list_remove_node
  head_run e = ground arith

  tail_run : (m.head == x) ≡ false → m.tail ≡ x → list_remove_node x m ≡ ok x (cut_tail m x)
  unfolding list_remove_node
  tail_run nh e = ground arith

  middle_run :
      (m.head == x) ≡ false
      → (m.tail == x) ≡ false
      → (a b : Ptr) → m.prev x ≡ a
      → a ≢ null
      → m.live a ≡ true
      → a ≢ x
      → m.next x ≡ b
      → b ≢ null
      → m.live b ≡ true
      → list_remove_node x m ≡ ok x (cut_middle m x)
  unfolding list_remove_node
  middle_run nh nt a b ea na la ax eb nb lb = ground arith

-- The nodes of `xs ++ y ∷ ys` are no list in `k` if `y` has another predecessor.
not-IsList_of_prev :
    (k : Links) (xs : List Ptr) (y : Ptr) (ys : List Ptr)
    → k.prev y ≢ last_of null xs
    → ¬ IsList k (xs ++ y ∷ ys)
not-IsList_of_prev k xs y ys h l = h (between k null y xs ys l.chain).prev

eqb_ne : (a b c d : ℕ) → a ≡ c → b ≡ d → c ≢ d → (a == b) ≡ false
eqb_ne a b c d e f ne = ground arith

-- What the removal of `x` between `xs` and `ys` leaves in `k`: the end is moved, but the node that
-- is the new head still has `x` before it, and the new tail has `x` behind it; the node before a
-- middle one gets its successor, which has no node before it.
abbrev pub Broken : (k : Links) (x : Ptr) (xs ys : List Ptr) → Type 0
Broken k x [] [] = Unit {0}
Broken k x [] (y ∷ ys) = (k.head ≡ y) × (k.prev y ≡ x)
Broken k x (h ∷ t) [] = (k.tail ≡ last_of h t) × (k.next (last_of h t) ≡ x)
Broken k x (h ∷ t) (y ∷ ys) = (k.next (last_of h t) ≡ y) × (k.prev y ≡ null)

module _ (m : Links) (x : Ptr) where
  first_breaks :
      (y : Ptr) (ys : List Ptr)
      → IsList m (x ∷ y ∷ ys)
      → (k : Links) × (list_remove_node x m ≡ ok x k)
        × Broken k x [] (y ∷ ys)
        × (¬ IsList k (y ∷ ys))
  first_breaks y ys l =
      let c = l.chain in
      let ne = has_ne (last_of y ys) x (y ∷ ys) (has-last_of y ys) c.4 in
      let two = eqb_ne m.head m.tail x (last_of y ys) l.head l.tail (λ e. ne (sym e)) in
      let other = has_ne y x (y ∷ ys) (ground arith) c.4 in
      (
        cut_head m x,
        head_run m x c.0 c.1 two l.head,
        (c.3, update_ne m.prev x y null other ∙ c.5.2),
        not-IsList_of_prev (cut_head m x) [] y ys
            λ e. c.0 (sym (update_ne m.prev x y null other ∙ c.5.2) ∙ e),
      )

  last_breaks :
      (h : Ptr) (t : List Ptr)
      → IsList m (h ∷ t ++ x ∷ [])
      → (k : Links) × (list_remove_node x m ≡ ok x k) × Broken k x (h ∷ t) [] × (¬ IsList k (h ∷ t))
  last_breaks h t l =
      let c = l.chain in
      let b = between m null x (h ∷ t) [] c in
      let tail = l.tail ∙ last_of-append h x t [] in
      let two = eqb_ne m.head m.tail h x l.head tail (head_ne_last h x t [] c.4) in
      let nh = eqb_ne m.head x h x l.head refl (head_ne_last h x t [] c.4) in
      let other = has_ne (last_of h t) x (h ∷ t) (has-last_of h t) b.not_before in
      (
        cut_tail m x,
        tail_run m x b.ne_null b.live two nh tail,
        (b.prev, update_ne m.next x (last_of h t) null other ∙ next_before m null x h t [] c),
        λ r. b.ne_null (
            sym (update_ne m.next x (last_of h t) null other ∙ next_before m null x h t [] c)
            ∙ (last-node (cut_tail m x) null h t r.chain).2),
      )

  middle_breaks :
      (h : Ptr) (t : List Ptr) (y : Ptr) (ys : List Ptr)
      → IsList m (h ∷ t ++ x ∷ y ∷ ys)
      → (k : Links) × (list_remove_node x m ≡ ok x k)
        × Broken k x (h ∷ t) (y ∷ ys)
        × (¬ IsList k (h ∷ t ++ y ∷ ys))
  middle_breaks h t y ys l =
      let c = l.chain in
      let b = between m null x (h ∷ t) (y ∷ ys) c in
      let tail = l.tail ∙ last_of-append h x t (y ∷ ys) in
      let apart = head_ne_last h x t (y ∷ ys) c.4 in
      let two = eqb_ne m.head m.tail h (last_of y ys) l.head tail apart in
      let nh = eqb_ne m.head x h x l.head refl (split_out h x t (y ∷ ys) c.4).0 in
      let last = has_ne (last_of y ys) x (y ∷ ys) (has-last_of y ys) b.not_after in
      let nt = eqb_ne m.tail x (last_of y ys) x tail refl last in
      let (na, la) = last_before m null x h t (y ∷ ys) c in
      let other = has_ne (last_of h t) x (h ∷ t) (has-last_of h t) b.not_before in
      let (nb, lb) = after_node m null x y (h ∷ t) ys c in
      (
        cut_middle m x,
        middle_run m x b.ne_null b.live two nh nt (last_of h t) y b.prev na la other b.next nb lb,
        (joined (last_of h t) y b.prev b.next other, cut y b.next),
        not-IsList_of_prev (cut_middle m x) (h ∷ t) y ys λ e. na (sym e ∙ cut y b.next),
      )
    where
      cut : (y : Ptr) → m.next x ≡ y → (cut_middle m x).prev y ≡ null
      cut y e = ground arith

      joined : (a y : Ptr) → m.prev x ≡ a → m.next x ≡ y → a ≢ x → (cut_middle m x).next a ≡ y
      joined a y before after ne = ground arith

  -- In a list of two or more nodes, removing any one of them by `LIST_REMOVE_NODE` returns the node
  -- and never leaves a well-formed list of the others. After the head is removed the next node is
  -- the head, but still has the removed one before it; after the tail the node before it is the
  -- tail, but still has the removed one behind it; after a middle node the one before it has the
  -- one behind it as its successor, which has lost its predecessor.
  pub list_remove_node_breaks :
      (xs ys : List Ptr)
      → IsList m (xs ++ x ∷ ys)
      → xs ++ ys ≢ []
      → (k : Links) × (list_remove_node x m ≡ ok x k) × Broken k x xs ys × (¬ IsList k (xs ++ ys))
  list_remove_node_breaks [] [] l two = absurd (two refl)
  list_remove_node_breaks [] (y ∷ ys) l two = first_breaks y ys l
  list_remove_node_breaks (h ∷ t) [] l two =
      let (k, run, wrong, broken) = last_breaks h t l in
      (k, run, wrong, λ r. broken (rw append-nil at r))
  list_remove_node_breaks (h ∷ t) (y ∷ ys) l two = middle_breaks h t y ys l
