-- ===== src/KvList/At.antt =====
-- `kv_list_at`: its answers, and the inputs on which it never returns.
use cc2745_repo.Prelude.{
  ◌⊎◌, inl, inr, Bool-cases, ℕ, zero, suc, ◌+◌, ◌≤◌, ◌<◌, ◌≡◌, refl, true, false, none, some, arith,
  get_elem?, Os, IsSemaphore, ok, out_of_fuel,
}
use cc2745_repo.Hal.Mutex
use cc2745_repo.Hal.Mutex.{lock-init, unlock-held}
use cc2745_repo.KvList.State.{Node, KvList}
use cc2745_repo.KvList.{at_loop, kv_list_at}
use cc2745_repo.KvList.Valid.{IsValid}

-- At a used node the counter climbs to `index`.
at_loop-used :
    (fuel count index i : ℕ)
    → i < index
    → index < count
    → index < fuel + i + 1
    → at_loop fuel true count index i ≡ some (some index)
unfolding at_loop
at_loop-used zero count index i lt below enough = absurd (omega arith)
at_loop-used (suc fuel) count index i lt below enough =
    ground (arith, at_loop-used fuel count index (suc i))

-- At index 0 the counter is past the index before it is compared.
at_loop-past :
    (fuel count i : ℕ) → i ≤ count → count < fuel + i → at_loop fuel true count 0 i ≡ some none
unfolding at_loop
at_loop-past zero count i le enough = absurd (omega arith)
at_loop-past (suc fuel) count i le enough = ground (arith, at_loop-past fuel count (suc i))

at_loop-first :
    (fuel count : ℕ) → 0 < fuel → 0 < count → at_loop fuel false count 0 0 ≡ some (some 0)
unfolding at_loop
at_loop-first zero count pos some' = absurd (omega arith)
at_loop-first (suc fuel) count pos some' = ground arith

-- At a free node the counter stands still.
at_loop-free :
    (fuel count index : ℕ) → 0 < index → index < count → at_loop fuel false count index 0 ≡ none
unfolding at_loop
at_loop-free zero count index pos below = refl
at_loop-free (suc fuel) count index pos below = ground (arith, at_loop-free fuel count index)

zero_or_pos : (i : ℕ) → (i ≡ 0) ⊎ (0 < i)
zero_or_pos zero = inl refl
zero_or_pos (suc i) = inr (omega arith)

module _ {V : Type 0} {os : Os} (sem : IsSemaphore os) {l : KvList V} (v : IsValid os l)
    (fuel index : ℕ) (n : Node) (at : get_elem? l.node_array index ≡ some n)
    (below : index < l.count) where
  locks : Mutex.lock os l.mutex ≡ some (Mutex.held os)
  locks = rw v.unlocked (lock-init sem)

  unlocks : Mutex.unlock os (Mutex.held os) ≡ l.mutex
  unlocks = rw v.unlocked (unlock-held sem)

  -- At an index below the count, `kv_list_at` returns the node at this place of the array if that
  -- node is used and the index is not 0. At a used node 0 it returns NULL, and at a free node 0
  -- that free node. In each of these cases `count + 1` rounds of its loop are enough.
  pub kv_list_at_lem :
      l.count < fuel
      → ((n.valid ≡ true) × (0 < index) × (kv_list_at os fuel index l ≡ ok (some index) l))
        ⊎ ((n.valid ≡ true) × (index ≡ 0) × (kv_list_at os fuel index l ≡ ok none l))
        ⊎ ((n.valid ≡ false) × (index ≡ 0) × (kv_list_at os fuel index l ≡ ok (some 0) l))
        ⊎ ((n.valid ≡ false) × (0 < index))
  unfolding kv_list_at
  kv_list_at_lem enough = elim (Bool-cases n.valid) [
    | inl used ↦ elim (zero_or_pos index) [
      | inl first ↦
          inr (inl (used, first, ground (arith, locks, unlocks, at_loop-past fuel l.count 0)))
      | inr pos ↦ inl (used, pos, ground (arith, locks, unlocks, at_loop-used fuel l.count index 0))
    ]
    | inr free ↦ elim (zero_or_pos index) [
      | inl first ↦
          inr (inr (inl (free, first, ground (arith, locks, unlocks, at_loop-first fuel l.count))))
      | inr pos ↦ inr (inr (inr (free, pos)))
    ]
  ]

  -- At a free node of an index between 1 and the count `kv_list_at` does not return, whatever the
  -- fuel: its loop's counter never moves.
  pub kv_list_at_spins : n.valid ≡ false → 0 < index → kv_list_at os fuel index l ≡ out_of_fuel
  unfolding kv_list_at
  kv_list_at_spins free pos = ground (arith, locks, at_loop-free fuel l.count index)
