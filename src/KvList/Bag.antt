-- ===== src/KvList/Bag.antt =====
-- The table as its user sees it, a bag of entries: what each call that returns does to the bag.
use mathlib.Core.List.{Perm}
use mathlib.Core.List.Perm
use mathlib.Core.Quot
use mathlib.Core.Quot.{Quot, Quot-set}
use cc2745_repo.Prelude.{
  ℕ, ◌≡◌, ap, sym, ◌∙◌, subst, inl, inr, true, Option, none, some, [], ◌∷◌, get_elem?, Os,
  IsSemaphore, ok, Option-cases, Bool-cases, arith,
}
use cc2745_repo.Libc.{Libc, IsQsort, IsBsearch}
use cc2745_repo.KvList.State.{Node, KvList}
use cc2745_repo.KvList.{compare_node_key, kv_list_add, kv_list_remove_node, kv_list_remove}
use cc2745_repo.KvList.Valid.{IsValid, entry, entry_lem, read_node}
use cc2745_repo.KvList.Stored.{entry-some}
use cc2745_repo.KvList.Items.{items, items_fill, items-eq-nil}
use cc2745_repo.KvList.Add.{Added, kv_list_add_lem}
use cc2745_repo.KvList.Remove.{Removed, kv_list_remove_node_lem}
use cc2745_repo.KvList.Init.{kv_list_clear_lem}
use cc2745_repo.KvList.Search.{IsHit, kv_list_search_lem}
use cc2745_repo.KvList.Sort.{kv_list_sort_lem}
use cc2745_repo.KvList.Reach.{Step, adds, removes_node, removes, clears, sorts, out_of_range}

ok_injective : {S A : Type 0} {a b : A} {s t : S} → ok a s ≡ ok b t → (a ≡ b) × (s ≡ t)
ok_injective e = (cc, cc)

-- Lists of entries up to their order.
abbrev pub Bag : Type 0 → Type 0
Bag V = Quot (Perm {A = ℕ × V})

module _ {V : Type 0} where
  abbrev pub empty : Bag V
  empty = Quot.mk []

  pub put : ℕ × V → Bag V → Bag V
  put e = Quot.lift Quot-set (λ xs. Quot.mk (e ∷ xs)) (λ xs ys p. Quot.sound (Perm.cons e p))

  abbrev pub view : KvList V → Bag V
  view l = Quot.mk (items l)

  -- What an addition that returns `r` makes of the bag `b`.
  abbrev pub Puts : ℕ × V → Option ℕ → Bag V → Bag V → Type 0
  Puts e none b b' = b' ≡ b
  Puts e (some i) b b' = b' ≡ put e b

  -- What `kv_list_remove_node` of node `i` does: it takes the node's entry out, if there is one.
  abbrev pub Takes : Option (ℕ × V) → Bag V → Bag V → Type 0
  Takes none b b' = b' ≡ b
  Takes (some e) b b' = b ≡ put e b'

  -- What a call that returns does to the bag: a NULL node cannot be removed.
  abbrev pub Refines : (os : Os) (libc : Libc Node) (l l' : KvList V) → Step os libc l l' → Type 0
  Refines os libc l l' (adds key value r e) = Puts (key, value) r (view l) (view l')
  Refines os libc l l' (removes_node none e) = ⊥
  Refines os libc l l' (removes_node (some i) e) = Takes (entry l i) (view l) (view l')
  Refines os libc l l' (removes key e) = (value : V) × (view l ≡ put (key, value) (view l'))
  Refines os libc l l' (clears e) = view l' ≡ empty
  Refines os libc l l' (sorts e) = view l' ≡ view l

module _ {V : Type 0} {os : Os} (sem : IsSemaphore os) {l : KvList V} (v : IsValid os l) where
  Added-put :
      (key : ℕ) (value : V) (i : ℕ) (k : KvList V)
      → Added sem key value v i k
      → view k ≡ put (key, value) (view l)
  unfolding put
  Added-put key value i k a = Quot.sound (
      items_fill l k i (key, value) (omega (arith, a.valid.table.size, v.table.size, a.depth))
        a.was_free a.new a.rest)

  Removed-put :
      (i : ℕ) (k : KvList V) (e : ℕ × V)
      → entry l i ≡ some e
      → Removed sem v i k
      → view l ≡ put e (view k)
  unfolding put
  Removed-put i k e there r = Quot.sound (
      items_fill k l i e (omega (arith, r.valid.table.size, v.table.size, r.depth)) r.gone there
        (λ j ne. sym (r.rest j ne)))

  removes_used :
      (i : ℕ) (n : Node) (l' : KvList V)
      → get_elem? l.node_array i ≡ some n
      → n.valid ≡ true
      → kv_list_remove_node os (some i) l ≡ ok tt l'
      → (value : V) × (entry l i ≡ some (n.key, value)) × (view l ≡ put (n.key, value) (view l'))
  removes_used i n l' at used e =
      let (value, there) = entry-some l i n v at used in
      elim (kv_list_remove_node_lem sem v i n at).1 [
        | inl (free, run) ↦ absurd (cc)
        | inr (k, used', run, r) ↦
            let same = (ok_injective (sym run ∙ e)).1 in
            (
              value,
              there,
              subst (λ m. view l ≡ put (n.key, value) (view m)) same
                  (Removed-put i k (n.key, value) there r),
            )
      ]

  removes-Takes :
      (i : ℕ) (l' : KvList V)
      → kv_list_remove_node os (some i) l ≡ ok tt l'
      → Takes (entry l i) (view l) (view l')
  removes-Takes i l' e = elim (Option-cases (get_elem? l.node_array i)) [
    | inl out ↦ absurd (let clash = sym (out_of_range os l i out) ∙ e in cc)
    | inr (n, at) ↦ elim (Bool-cases n.valid) [
      | inl used ↦ let (value, there, took) = removes_used i n l' at used e in rw there took
      | inr free ↦ elim (kv_list_remove_node_lem sem v i n at).1 [
        | inl (_, run) ↦
            let none_there : entry l i ≡ none = rw (entry_lem l i at, free, read_node) in
            rw none_there (ap view (sym (ok_injective (sym run ∙ e)).1))
        | inr (k, used, run, r) ↦ absurd (cc)
      ]
    ]
  ]

module _ {V : Type 0} {os : Os} (sem : IsSemaphore os) {libc : Libc Node}
    (sorts_lib : IsQsort compare_node_key libc) (finds_lib : IsBsearch compare_node_key libc)
    {l l' : KvList V} (v : IsValid os l) where
  add-Puts :
      (key : ℕ) (value : V) (r : Option ℕ)
      → kv_list_add os key value l ≡ ok r l'
      → Puts (key, value) r (view l) (view l')
  add-Puts key value r e = elim (kv_list_add_lem sem key value v) [
    | inl (full, run) ↦
        let (none_back, same) = ok_injective (sym run ∙ e) in
        subst (λ q. Puts (key, value) q (view l) (view l')) none_back (ap view (sym same))
    | inr (i, k, room, run, added) ↦
        let (index, same) = ok_injective (sym run ∙ e) in
        subst (λ q. Puts (key, value) q (view l) (view l')) index
          (subst (λ m. view m ≡ put (key, value) (view l)) same
            (Added-put sem v key value i k added))
  ]

  remove-put :
      (key : ℕ) (r : Option ℕ)
      → IsHit key l.node_array r
      → kv_list_remove_node os r l ≡ ok tt l'
      → (value : V) × (view l ≡ put (key, value) (view l'))
  unfolding kv_list_remove_node
  remove-put key none hit e = absurd (cc)
  remove-put key (some i) (n, at, used, named) e =
      let (value, there, took) = removes_used sem v i n l' at used e in
      (value, subst (λ q. view l ≡ put (q, value) (view l')) named took)

  -- The table implements a bag. On a well-formed table, an addition that returns a node puts the
  -- pair into the bag, one that returns NULL leaves the bag; removing a node takes its entry out,
  -- if it has one, and does not return for NULL; removing a key, if it returns, takes an entry of
  -- that key out; clearing leaves the empty bag, and sorting the same bag.
  pub Step-Refines : (s : Step os libc l l') → Refines os libc l l' s
  unfolding kv_list_remove_node kv_list_remove
  Step-Refines (adds key value r e) = add-Puts key value r e
  Step-Refines (removes_node none e) = cc
  Step-Refines (removes_node (some i) e) = removes-Takes sem v i l' e
  Step-Refines (removes key e) =
      let (r, run, hit) = kv_list_search_lem sem finds_lib key v in
      remove-put key r hit (ground arith)
  Step-Refines (clears e) =
      let (k, run, valid, depth, none_left) = kv_list_clear_lem sem v in
      let same = (ok_injective (sym run ∙ e)).1 in
      subst (λ m. view m ≡ empty) same (ap Quot.mk (items-eq-nil k none_left))
  Step-Refines (sorts e) =
      let (k, run, valid, _, _, p) = kv_list_sort_lem sem sorts_lib v in
      let same = (ok_injective (sym run ∙ e)).1 in
      subst (λ m. view m ≡ view l) same (Quot.sound (Perm.filter_map (λ (o : Option (ℕ × V)). o) p))
