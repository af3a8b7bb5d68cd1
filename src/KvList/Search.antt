-- ===== src/KvList/Search.antt =====
-- `kv_list_search` finds a node with the key exactly if there is one, by either of its ways.
use cc2745_repo.Prelude.{
  ℕ, zero, suc, ◌+◌, ◌≡◌, ◌≢◌, refl, inl, inr, true, false, ◌&&◌, Option, none, some, List, [], ◌∷◌,
  arith, ltb, ◌==◌, if◌then◌else◌, Bool-cases, get_elem?, total, Os, IsSemaphore, ok,
}
use cc2745_repo.Hal.Mutex
use cc2745_repo.Hal.Mutex.{lock-init, unlock-held}
use cc2745_repo.Libc.{Libc, IsBsearch, IsSorted}
use cc2745_repo.KvList.State.{Node, KvList}
use cc2745_repo.KvList.{compare_node_key, search_loop, general_search, kv_list_search}
use cc2745_repo.KvList.Order.{compare_node_key_equal, compare_node_key_same}
use cc2745_repo.KvList.Valid.{is_used, IsValid}

-- `r` is the index of a used node with the key, or NULL if no used node has it.
abbrev pub IsHit : ℕ → List Node → Option ℕ → Type 0
IsHit key ns none = (i : ℕ) (n : Node) → get_elem? ns i ≡ some n → n.valid ≡ true → n.key ≢ key
IsHit key ns (some i) = (n : Node) × (get_elem? ns i ≡ some n) × (n.valid ≡ true) × (n.key ≡ key)

-- The loop's counter of used nodes, against the number that are left, ends the loop only when no
-- used node is left.
none_used : (ns : List Node) (key : ℕ) → total is_used ns ≡ 0 → IsHit key ns none
none_used [] key e i n at used = absurd (cc)
none_used (m ∷ ns) key e zero n at used = absurd (ground arith)
none_used (m ∷ ns) key e (suc i) n at used = none_used ns key (ground arith) i n at used

-- The loop from index `i` on finds its node at `i + m`.
abbrev Hits : ℕ → List Node → ℕ → Option ℕ → Type 0
Hits key ns i none = IsHit key ns none
Hits key ns i (some k) = (m : ℕ) × (k ≡ i + m) × IsHit key ns (some m)

none-cons :
    (key : ℕ) (n : Node) (ns : List Node)
    → (n.valid && n.key == key) ≡ false
    → IsHit key ns none
    → IsHit key (n ∷ ns) none
none-cons key n ns miss h zero m at used = ground arith
none-cons key n ns miss h (suc k) m at used = h k m at used

Hits-cons :
    (key : ℕ) (n : Node) (ns : List Node) (i : ℕ) (r : Option ℕ)
    → (n.valid && n.key == key) ≡ false
    → Hits key ns (suc i) r
    → Hits key (n ∷ ns) i r
Hits-cons key n ns i none miss h = λ k m at used. none-cons key n ns miss h k m at used
Hits-cons key n ns i (some k) miss (m, e, x) = (suc m, omega arith, x)

search_loop-Hits :
    (key count : ℕ) (ns : List Node) (i j : ℕ)
    → count ≡ j + total is_used ns
    → Hits key ns i (search_loop key count ns i j)
unfolding search_loop
search_loop-Hits key count [] i j e = none_used [] key refl
search_loop-Hits key count (n ∷ ns) i j e = elim (Bool-cases (ltb j count)) [
  | inr stop ↦ rw stop (none_used (n ∷ ns) key (ground arith))
  | inl go ↦ elim (Bool-cases (n.valid && n.key == key)) [
    | inl hit ↦ rw (go, hit) (0, omega arith, (n, refl, ground arith, ground arith))
    | inr miss ↦
        rw (go, miss)
          (Hits-cons key n ns i _ miss
            (search_loop-Hits key count ns (suc i) (if n.valid then suc j else j) (ground arith)))
  ]
]

Hits-IsHit : (key : ℕ) (ns : List Node) (r : Option ℕ) → Hits key ns 0 r → IsHit key ns r
Hits-IsHit key ns none h = h
Hits-IsHit key ns (some k) (m, e, h) = let same : k ≡ m = omega arith in rw same h

module _ {V : Type 0} {os : Os} (sem : IsSemaphore os) {libc : Libc Node}
    (lib : IsBsearch compare_node_key libc) (key : ℕ) {l : KvList V} (v : IsValid os l) where
  abbrev target : Node
  target = record { valid = true; key = key; data_ptr = none }

  general_search-IsHit : IsHit key l.node_array (general_search os key l)
  unfolding general_search
  general_search-IsHit =
      Hits-IsHit key l.node_array _
        (search_loop-Hits key l.count l.node_array 0 0 (omega (arith, v.counted)))

  bsearch-IsHit :
      (r : Option ℕ)
      → IsSorted compare_node_key l.node_array
      → libc.bsearch compare_node_key target l.node_array ≡ r
      → IsHit key l.node_array r
  bsearch-IsHit none sorted e = λ i n at used same.
      lib.missed target l.node_array i n sorted e at (compare_node_key_same target n refl used same)
  bsearch-IsHit (some i) sorted e =
      let (n, at, eq) = lib.found target l.node_array i sorted e in
      let (used, same) = compare_node_key_equal target n refl eq in (n, at, used, same)

  -- On a well-formed table `kv_list_search` changes nothing and returns a used node with the key,
  -- and NULL exactly if no used node has it. An unsorted array is scanned; on one that is marked
  -- as sorted the C library's `bsearch` does the search.
  pub kv_list_search_lem :
      (r : Option ℕ) × (kv_list_search os libc key l ≡ ok r l) × IsHit key l.node_array r
  unfolding kv_list_search
  kv_list_search_lem =
      let locks : Mutex.lock os l.mutex ≡ some (Mutex.held os) = rw v.unlocked (lock-init sem) in
      let unlocks : Mutex.unlock os (Mutex.held os) ≡ l.mutex = rw v.unlocked (unlock-held sem) in
      elim (Bool-cases l.sorted) [
        | inl yes' ↦ (
          libc.bsearch compare_node_key target l.node_array,
          ground arith,
          bsearch-IsHit _ (v.ordered yes') refl,
        )
        | inr no' ↦ (general_search os key l, ground arith, general_search-IsHit)
      ]
