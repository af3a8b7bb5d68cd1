-- ===== src/KvList/Walk.antt =====
-- `kv_list_walk` lists the keys of the used nodes in the order of the array.
use cc2745_repo.Prelude.{
  ℕ, suc, ◌+◌, ◌≤◌, ◌≡◌, refl, ap, inl, inr, Bool, true, none, some, List, [], ◌∷◌, ◌++◌,
  append_assoc, arith, Bool-cases, if◌then◌else◌, length, length-append, set, drop, total, Os,
  IsSemaphore, ok,
}
use cc2745_repo.Hal.Mutex
use cc2745_repo.Hal.Mutex.{lock-init, unlock-held}
use cc2745_repo.KvList.State.{Node, KvList}
use cc2745_repo.KvList.{walk_loop, kv_list_walk}
use cc2745_repo.KvList.Valid.{is_used, IsValid}

abbrev pub used_keys : List Node → List ℕ
used_keys [] = []
used_keys (n ∷ ns) = let rest = used_keys ns in if n.valid then n.key ∷ rest else rest

length-used_keys : (ns : List Node) → length (used_keys ns) ≡ total is_used ns
length-used_keys [] = refl
length-used_keys (n ∷ ns) = ground (arith, length-used_keys ns)

-- What is written so far, and the untouched rest of the caller's array.
set-append :
    (front : List ℕ) (x y : ℕ) (rest : List ℕ)
    → set (front ++ x ∷ rest) (length front) y ≡ (front ++ y ∷ []) ++ rest
set-append [] x y rest = refl
set-append (z ∷ front) x y rest = ap (λ t. z ∷ t) (set-append front x y rest)

drop_next : (k t x : ℕ) (rest : List ℕ) → k ≡ suc t → drop k (x ∷ rest) ≡ drop t rest
drop_next k t x rest e = rw e

walk_used :
    (n : Node) (ns : List Node) (c : ℕ) (front rest : List ℕ)
    → c ≡ length front
    → n.valid ≡ true
    → total is_used (n ∷ ns) ≤ length rest
    → ((front' rest' : List ℕ)
        → suc c ≡ length front'
        → total is_used ns ≤ length rest'
        → walk_loop ns (suc c) (front' ++ rest')
          ≡ some
              (suc c + total is_used ns, front' ++ (used_keys ns ++ drop (total is_used ns) rest')))
    → walk_loop (n ∷ ns) c (front ++ rest)
      ≡ some (
        c + total is_used (n ∷ ns),
        front ++ (used_keys (n ∷ ns) ++ drop (total is_used (n ∷ ns)) rest),
      )
unfolding walk_loop
walk_used n ns c front [] e used h ih = absurd (ground arith)
walk_used n ns c front (x ∷ rest) e used h ih = ground (
  arith,
  drop_next (total is_used (n ∷ ns)) (total is_used ns) x rest,
  length-append front (x ∷ rest),
  set-append front x n.key rest,
  length-append front (n.key ∷ []),
  ih (front ++ n.key ∷ []) rest,
  append_assoc front (n.key ∷ []) (used_keys ns ++ drop (total is_used ns) rest),
)

walk_loop_lem :
    (ns : List Node) (c : ℕ) (front rest : List ℕ)
    → c ≡ length front
    → total is_used ns ≤ length rest
    → walk_loop ns c (front ++ rest)
      ≡ some (c + total is_used ns, front ++ (used_keys ns ++ drop (total is_used ns) rest))
unfolding walk_loop
walk_loop_lem [] c front rest e h = ground arith
walk_loop_lem (n ∷ ns) c front rest e h = elim (Bool-cases n.valid) [
  | inl used ↦
      walk_used n ns c front rest e used h (λ front' rest'. walk_loop_lem ns (suc c) front' rest')
  | inr free ↦ ground (arith, walk_loop_lem ns c front rest e)
]

module _ {V : Type 0} {os : Os} (sem : IsSemaphore os) {l : KvList V} (v : IsValid os l) where
  -- On a well-formed table, and a caller's array with room for the used keys, `kv_list_walk`
  -- changes no entry, writes the used nodes' keys in the order of the array to the front of the
  -- caller's array and nothing behind them, and reports their number where it is asked to.
  pub kv_list_walk_lem :
      (out : List ℕ) (counted : Bool)
      → l.count ≤ length out
      → kv_list_walk os out counted l
        ≡ ok (used_keys l.node_array ++ drop l.count out, if counted then some l.count else none) l
  unfolding kv_list_walk
  kv_list_walk_lem out counted room =
      let locks : Mutex.lock os l.mutex ≡ some (Mutex.held os) = rw v.unlocked (lock-init sem) in
      let unlocks : Mutex.unlock os (Mutex.held os) ≡ l.mutex = rw v.unlocked (unlock-held sem) in
      ground (arith, walk_loop_lem l.node_array 0 [] out refl, v.counted)
