-- ===== src/KvList/Items.antt =====
-- The entries of the used nodes as a list, and how it changes when one entry is added or taken
-- away.
use mathlib.Core.List.{Perm, filter_map}
use mathlib.Core.List.Perm
use native.Mathlib.Decide.{dec_lt}
use cc2745_repo.Prelude.{
  ℕ, zero, suc, ◌<◌, ◌≤◌, ◌≡◌, ◌≢◌, refl, ap, sym, ◌∙◌, inl, inr, Option, none, some, List, [], ◌∷◌,
  map, arith, length, get_elem?, get_elem?_of_lt, lt_of_get_elem?, Option-cases,
}
use cc2745_repo.KvList.State.{KvList}
use cc2745_repo.KvList.Valid.{entry, read_node, entry_lem}
use cc2745_repo.KvList.Sort.{entries}

module _ {A : Type 0} where
  abbrev pub somes : List (Option A) → List A
  somes = filter_map (λ (o : Option A). o)

  -- Lists of one length that agree at every index are equal.
  list_ext :
      (xs ys : List A)
      → length xs ≡ length ys
      → ((i : ℕ) → get_elem? xs i ≡ get_elem? ys i)
      → xs ≡ ys
  list_ext [] [] n same = refl
  list_ext [] (y ∷ ys) n same = absurd (omega arith)
  list_ext (x ∷ xs) [] n same = absurd (omega arith)
  list_ext (x ∷ xs) (y ∷ ys) n same =
      let rest = list_ext xs ys (omega (arith, n)) (λ i. same (suc i)) in let head = same zero in cc

module _ {A : Type 0} where
  somes_nil :
      (xs : List (Option A)) → ((i : ℕ) (x : A) → get_elem? xs i ≢ some (some x)) → somes xs ≡ []
  unfolding filter_map
  somes_nil [] h = refl
  somes_nil (none ∷ xs) h = somes_nil xs (λ i. h (suc i))
  somes_nil (some x ∷ xs) h = absurd (h zero x refl)

  somes-cons :
      (x : Option A) (e : A) (xs ys : List (Option A))
      → Perm (somes ys) (e ∷ somes xs)
      → Perm (somes (x ∷ ys)) (e ∷ somes (x ∷ xs))
  unfolding filter_map
  somes-cons none e xs ys p = p
  somes-cons (some x) e xs ys p = Perm.trans (Perm.cons x p) (Perm.swap e x (somes xs))

  -- Filling one gap adds its entry.
  somes_fill :
      (xs ys : List (Option A)) (i : ℕ) (e : A)
      → length ys ≡ length xs
      → get_elem? xs i ≡ some none
      → get_elem? ys i ≡ some (some e)
      → ((j : ℕ) → j ≢ i → get_elem? ys j ≡ get_elem? xs j)
      → Perm (somes ys) (e ∷ somes xs)
  unfolding filter_map
  somes_fill [] ys i e n at at' rest = absurd (cc)
  somes_fill (x ∷ xs) [] i e n at at' rest = absurd (omega arith)
  somes_fill (x ∷ xs) (y ∷ ys) zero e n at at' rest =
      let gap : x ≡ none = cc in
      let filled : y ≡ some e = cc in
      let same =
        list_ext ys xs (omega (arith, n)) (λ j. rest (suc j) (λ eq. absurd (omega arith))) in
      rw (gap, filled, same) (Perm.refl (e ∷ somes xs))
  somes_fill (x ∷ xs) (y ∷ ys) (suc i) e n at at' rest =
      let head : y ≡ x = let h = rest zero (λ eq. absurd (omega arith)) in cc in
      let p =
        somes_fill xs ys i e (omega (arith, n)) at at'
          (λ j ne. rest (suc j) (λ eq. ne (omega (arith, eq)))) in
      rw head (somes-cons x e xs ys p)

  get_elem?-map :
      {B : Type 0} (f : A → B) (xs : List A) (i : ℕ) {x : A}
      → get_elem? xs i ≡ some x
      → get_elem? (map f xs) i ≡ some (f x)
  get_elem?-map f [] i at = absurd (cc)
  get_elem?-map f (x ∷ xs) zero at = cc
  get_elem?-map f (x ∷ xs) (suc i) at = get_elem?-map f xs i at

  get_elem?_out : (xs : List A) (i : ℕ) → length xs ≤ i → get_elem? xs i ≡ none
  get_elem?_out [] i h = refl
  get_elem?_out (x ∷ xs) zero h = absurd (omega arith)
  get_elem?_out (x ∷ xs) (suc i) h = get_elem?_out xs i (omega arith)

length-map : {A B : Type 0} (f : A → B) (xs : List A) → length (map f xs) ≡ length xs
length-map f [] = refl
length-map f (x ∷ xs) = ap suc (length-map f xs)

module _ {V : Type 0} where
  entry_lt : (l : KvList V) (i : ℕ) {e : ℕ × V} → entry l i ≡ some e → i < length l.node_array
  entry_lt l i h = elim (Option-cases (get_elem? l.node_array i)) [
    | inl out ↦ absurd (let missing : entry l i ≡ none = rw (out, entry) in cc)
    | inr (n, at) ↦ lt_of_get_elem? l.node_array i at
  ]

  get_elem?-entries :
      (l : KvList V) (i : ℕ) → i < length l.node_array → get_elem? (entries l) i ≡ some (entry l i)
  get_elem?-entries l i h =
      let (n, at) = get_elem?_of_lt l.node_array i h in
      get_elem?-map (read_node l.data_array) l.node_array i at ∙ ap some (sym (entry_lem l i at))

  entries_same :
      (l l' : KvList V) (j : ℕ)
      → length l'.node_array ≡ length l.node_array
      → entry l' j ≡ entry l j
      → get_elem? (entries l') j ≡ get_elem? (entries l) j
  entries_same l l' j n same = elim (dec_lt j (length l.node_array)) [
    | yes inside ↦
        get_elem?-entries l' j (omega (arith, n))
        ∙ ap some same
        ∙ sym (get_elem?-entries l j inside)
    | no outside ↦
        get_elem?_out (entries l') j
          (omega (arith, n, length-map (read_node l'.data_array) l'.node_array))
        ∙ sym (
            get_elem?_out (entries l) j
              (omega (arith, length-map (read_node l.data_array) l.node_array)))
  ]

  -- The entries of the used nodes, in their order.
  abbrev pub items : KvList V → List (ℕ × V)
  items l = somes (entries l)

  pub items_fill :
      (l l' : KvList V) (i : ℕ) (e : ℕ × V)
      → length l'.node_array ≡ length l.node_array
      → entry l i ≡ none
      → entry l' i ≡ some e
      → ((j : ℕ) → j ≢ i → entry l' j ≡ entry l j)
      → Perm (items l') (e ∷ items l)
  items_fill l l' i e n gap filled rest =
      let inside = entry_lt l' i filled in
      somes_fill (entries l) (entries l') i e
        (length-map (read_node l'.data_array) l'.node_array
          ∙ n
          ∙ sym (length-map (read_node l.data_array) l.node_array))
        (get_elem?-entries l i (omega (arith, n)) ∙ ap some gap)
        (get_elem?-entries l' i inside ∙ ap some filled) (λ j ne. entries_same l l' j n (rest j ne))

  pub items-eq-nil : (l : KvList V) → ((i : ℕ) → entry l i ≡ none) → items l ≡ []
  items-eq-nil l h = somes_nil (entries l) λ i x at.
      let inside : i < length l.node_array = omega (
        arith,
        lt_of_get_elem? (entries l) i at,
        length-map (read_node l.data_array) l.node_array,
      ) in
      let found = get_elem?-entries l i inside in let empty = h i in absurd (cc)
