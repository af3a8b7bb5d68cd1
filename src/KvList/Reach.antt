-- ===== src/KvList/Reach.antt =====
-- The calls on a table, in any order and number.
use cc2745_repo.Prelude.{
  ℕ, ◌≡◌, subst, sym, ◌∙◌, inl, inr, Option, none, some, arith, Option-cases, ok, fault, get_elem?,
  Os, IsSemaphore,
}
use cc2745_repo.Libc.{Libc, IsQsort, IsBsearch}
use cc2745_repo.KvList.State.{Node, KvList}
use cc2745_repo.KvList.{
  compare_node_key, kv_list_add, kv_list_clear, kv_list_sort, kv_list_remove_node, kv_list_remove,
}
use cc2745_repo.KvList.Valid.{IsValid}
use cc2745_repo.KvList.Add.{kv_list_add_lem}
use cc2745_repo.KvList.Init.{kv_list_clear_lem}
use cc2745_repo.KvList.Remove.{kv_list_remove_node_lem}
use cc2745_repo.KvList.Search.{kv_list_search_lem}
use cc2745_repo.KvList.Sort.{kv_list_sort_lem}

module _ {V : Type 0} (os : Os) (libc : Libc Node) where
  -- One call that returns. A search, a walk and `kv_list_at` leave the table as it is.
  pub data Step (l l' : KvList V) : Type 0 where
    adds : (key : ℕ) (value : V) (r : Option ℕ) → kv_list_add os key value l ≡ ok r l' → Step l l'
    removes_node : (i : Option ℕ) → kv_list_remove_node os i l ≡ ok tt l' → Step l l'
    removes : (key : ℕ) → kv_list_remove os libc key l ≡ ok tt l' → Step l l'
    clears : kv_list_clear os l ≡ ok tt l' → Step l l'
    sorts : kv_list_sort os libc l ≡ ok tt l' → Step l l'

  pub data Reach (l : KvList V) : KvList V → Type 0 where
    here : Reach l l
    next : {k m : KvList V} → Reach l k → Step k m → Reach l m

pub out_of_range :
    {V : Type 0} (os : Os) (l : KvList V) (i : ℕ)
    → get_elem? l.node_array i ≡ none
    → kv_list_remove_node os (some i) l ≡ fault
unfolding kv_list_remove_node
out_of_range os l i e = ground arith

ok-injective : {S A : Type 0} {a b : A} {s t : S} → ok a s ≡ ok b t → s ≡ t
ok-injective e = cc

module _ {V : Type 0} {os : Os} (sem : IsSemaphore os) {libc : Libc Node}
    (sorts_lib : IsQsort compare_node_key libc) (finds_lib : IsBsearch compare_node_key libc) where
  moved : {A : Type 0} {a b : A} {k l : KvList V} → ok a k ≡ ok b l → IsValid os k → IsValid os l
  moved e v = subst (IsValid os) (ok-injective e) v

  module _ {l l' : KvList V} (v : IsValid os l) where
    add-IsValid :
        (key : ℕ) (value : V) (r : Option ℕ) → kv_list_add os key value l ≡ ok r l' → IsValid os l'
    add-IsValid key value r e = elim (kv_list_add_lem sem key value v) [
      | inl (full, run) ↦ moved (sym run ∙ e) v
      | inr (i, k, room, run, added) ↦ moved (sym run ∙ e) added.valid
    ]

    remove_used :
        (i : ℕ) (n : Node)
        → get_elem? l.node_array i ≡ some n
        → kv_list_remove_node os (some i) l ≡ ok tt l'
        → IsValid os l'
    remove_used i n at e = elim (kv_list_remove_node_lem sem v i n at).1 [
      | inl (free, run) ↦ moved (sym run ∙ e) v
      | inr (k, used, run, removed) ↦ moved (sym run ∙ e) removed.valid
    ]

    remove_node-IsValid : (p : Option ℕ) → kv_list_remove_node os p l ≡ ok tt l' → IsValid os l'
    unfolding kv_list_remove_node
    remove_node-IsValid none e = absurd (cc)
    remove_node-IsValid (some i) e = elim (Option-cases (get_elem? l.node_array i)) [
      | inl out ↦ absurd (let clash = sym (out_of_range os l i out) ∙ e in cc)
      | inr (n, at) ↦ remove_used i n at e
    ]

    remove-IsValid : (key : ℕ) → kv_list_remove os libc key l ≡ ok tt l' → IsValid os l'
    unfolding kv_list_remove
    remove-IsValid key e =
        let (r, run, hit) = kv_list_search_lem sem finds_lib key v in
        remove_node-IsValid r (ground arith)

    Step-IsValid : Step os libc l l' → IsValid os l'
    Step-IsValid (adds key value r e) = add-IsValid key value r e
    Step-IsValid (removes_node i e) = remove_node-IsValid i e
    Step-IsValid (removes key e) = remove-IsValid key e
    Step-IsValid (clears e) =
        let (k, run, valid, _, _) = kv_list_clear_lem sem v in moved (sym run ∙ e) valid
    Step-IsValid (sorts e) =
        let (k, run, valid, _, _, _) = kv_list_sort_lem sem sorts_lib v in moved (sym run ∙ e) valid

  -- Every table that calls reach from a well-formed one is well formed.
  pub Reach-IsValid : {l k : KvList V} → IsValid os l → Reach os libc l k → IsValid os k
  Reach-IsValid v here = v
  Reach-IsValid v (next r s) = Step-IsValid (Reach-IsValid v r) s
