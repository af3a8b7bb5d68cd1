-- ===== src/KvList/Stored.antt =====
-- What an entry of a table says of its node and its slot, and which node a search finds after an
-- `add`.
use cc2745_repo.Prelude.{
  ℕ, ◌≡◌, ◌≢◌, ◌∙◌, sym, refl, ap, inl, inr, Bool, true, false, Bool-cases, Option-cases, Option,
  none, some, arith, ◌==◌, ==_iff, get_elem?, get_elem?_of_lt, Os, IsSemaphore,
}
use cc2745_repo.KvList.State.{Node, KvList}
use cc2745_repo.KvList.Valid.{IsValid, entry, slot_of}
use cc2745_repo.KvList.Add.{Added}
use cc2745_repo.KvList.Search.{IsHit}

-- What an entry says of its node and its slot.
pub record Stored {V : Type 0} (l : KvList V) (i key : ℕ) (value : V) : Type 0 where
  pub node : Node
  pub at : get_elem? l.node_array i ≡ some node
  pub used : node.valid ≡ true
  pub named : node.key ≡ key
  pub slot : ℕ
  pub ptr : node.data_ptr ≡ some slot
  pub copied : get_elem? l.data_array slot ≡ some value

abbrev only_if : {V : Type 0} → Bool → ℕ → V → Option (ℕ × V)
only_if true k w = some (k, w)
only_if false k w = none

entry_at :
    {V : Type 0} (l : KvList V) (i : ℕ) (n : Node) (d : ℕ) (w : V)
    → get_elem? l.node_array i ≡ some n
    → n.data_ptr ≡ some d
    → get_elem? l.data_array d ≡ some w
    → entry l i ≡ only_if n.valid n.key w
entry_at l i n d w at ptr there = ground arith

missing : {V : Type 0} (l : KvList V) (i : ℕ) → get_elem? l.node_array i ≡ none → entry l i ≡ none
missing l i out = rw (out, entry) refl

guarded :
    {V : Type 0} (b : Bool) (k key : ℕ) (w value : V)
    → only_if b k w ≡ some (key, value)
    → (b ≡ true) × (k ≡ key) × (w ≡ value)
guarded true k key w value e = (refl, cc, cc)
guarded false k key w value e = absurd (cc)

entry-Stored :
    {V : Type 0} (l : KvList V) (i key : ℕ) (value : V) (n : Node) (d : ℕ) (w : V)
    → get_elem? l.node_array i ≡ some n
    → n.data_ptr ≡ some d
    → get_elem? l.data_array d ≡ some w
    → entry l i ≡ some (key, value)
    → Stored l i key value
entry-Stored l i key value n d w at ptr there e =
    let (used, named, same) =
      guarded n.valid n.key key w value (sym (entry_at l i n d w at ptr there) ∙ e) in
    record {
      node = n;
      at = at;
      used = used;
      named = named;
      slot = d;
      ptr = ptr;
      copied = there ∙ ap some same;
    }

-- A well-formed table has a node and a slot wherever it has an entry.
pub Valid-Stored :
    {V : Type 0} {os : Os} (l : KvList V) (i key : ℕ) (value : V)
    → IsValid os l
    → entry l i ≡ some (key, value)
    → Stored l i key value
Valid-Stored l i key value v e = elim (Option-cases (get_elem? l.node_array i)) [
  | inl out ↦ absurd (let none_there = missing l i out in cc)
  | inr (n, at) ↦
      let (d, ptr, lt) = slot_of i v.table at in
      let (w, there) = get_elem?_of_lt l.data_array d (omega (arith, v.slots)) in
      entry-Stored l i key value n d w at ptr there e
]

-- The entry of a used node.
pub entry-some :
    {V : Type 0} {os : Os} (l : KvList V) (j : ℕ) (n : Node)
    → IsValid os l
    → get_elem? l.node_array j ≡ some n
    → n.valid ≡ true
    → (w : V) × (entry l j ≡ some (n.key, w))
entry-some l j n v at used =
    let (d, ptr, lt) = slot_of j v.table at in
    let (w, there) = get_elem?_of_lt l.data_array d (omega (arith, lt, v.slots)) in
    (w, entry_at l j n d w at ptr there ∙ ground (arith, used))

module _ {V : Type 0} {os : Os} (sem : IsSemaphore os) (key : ℕ) (value : V) {l : KvList V}
    (v : IsValid os l) {i : ℕ} {l' : KvList V} (a : Added sem key value v i l') where
  -- No other node has the key, if none had it before.
  same_node :
      (j : ℕ) (n : Node)
      → IsHit key l.node_array none
      → get_elem? l'.node_array j ≡ some n
      → n.valid ≡ true
      → n.key ≡ key
      → j ≡ i
  same_node j n unused at used named = elim (Bool-cases (j == i)) [
    | inl same ↦ (==_iff j i).0 same
    | inr other ↦
        let ne : j ≢ i = ground arith in
        let (w, there) = entry-some l' j n a.valid at used in
        let old = Valid-Stored l j n.key w v (sym (a.rest j ne) ∙ there) in
        absurd (unused j old.node old.at old.used (old.named ∙ named))
  ]

  -- A search for the key of an `add` finds the node that it returned, if no node had the key
  -- before.
  pub IsHit-Added :
      (r : Option ℕ) → IsHit key l.node_array none → IsHit key l'.node_array r → r ≡ some i
  IsHit-Added none unused miss =
      let s = Valid-Stored l' i key value a.valid a.new in
      absurd (miss i s.node s.at s.used s.named)
  IsHit-Added (some j) unused (n, at, used, named) = ap some (same_node j n unused at used named)
