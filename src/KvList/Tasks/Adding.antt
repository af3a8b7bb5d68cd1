-- ===== src/KvList/Tasks/Adding.antt =====
-- Tasks that only add: the test of the count before the lock does no harm.

use cc2745_repo.Prelude.{
  ℕ, suc, ◌+◌, set, ◌≡◌, inl, inr, refl, sym, ap, subst, ◌∙◌, Bool, true, false, Bool-cases,
  Option-cases, Option, none, some, List, [], ◌∷◌, get_elem?, arith, ok, Os, IsSemaphore,
}
use cc2745_repo.Links.{update}
use cc2745_repo.Hal.Mutex
use cc2745_repo.Hal.Mutex.{unlock-held}
use cc2745_repo.KvList.State.{Node, KvList}
use cc2745_repo.KvList.{find_free, add_node, lock, unlock}
use cc2745_repo.KvList.Valid.{IsValid, slot_of}
use cc2745_repo.KvList.Add.{added-IsValid}
use cc2745_repo.KvList.Tasks.{
  Place, outside, adding, add_locked, removing, remove_locked, leaving, System, Step, tests_count,
  locks_add, stores, tests_node, locks_remove, clears, unlocks, Reach, start, next,
}
use cc2745_repo.KvList.Tasks.Owner.{holds, Owned, moves_outside, moves_inside, enters, leaves}

some_pair :
    {A B : Type 0} {a c : A} {b d : B}
    → ◌≡◌ {A = Option (A × B)} (some (a, b)) (some (c, d))
    → (a ≡ c) × (b ≡ d)
some_pair e = (cc, cc)

find_free_at :
    (ns : List Node) (i : ℕ) (n : Node)
    → find_free ns ≡ some (i, n)
    → (get_elem? ns i ≡ some n) × (n.valid ≡ false)
unfolding find_free
find_free_at [] i n e = absurd (cc)
find_free_at (m ∷ ns) i n e = elim (Bool-cases m.valid) [
  | inr free ↦
      let first : find_free (m ∷ ns) ≡ some (0, m) = rw free refl in
      let (index, same) = some_pair (sym first ∙ e) in rw (← index, ← same) (refl, free)
  | inl used ↦ elim (Option-cases (find_free ns)) [
    | inl nowhere ↦ absurd (ground (arith, used, nowhere))
    | inr ((j, k), found) ↦
        let later : find_free (m ∷ ns) ≡ some (suc j, k) = rw (used, found) refl in
        let (index, same) = some_pair (sym later ∙ e) in
        rw (← index, ← same) (find_free_at ns j k found)
  ]
]

ok_state : {S A : Type 0} {a b : A} {s t : S} → ok a s ≡ ok b t → s ≡ t
ok_state e = cc

abbrev is_removal : {V : Type 0} → Place V → Bool
is_removal (removing i) = true
is_removal (remove_locked i) = true
is_removal _ = false

module _ {V : Type 0} {os : Os} (sem : IsSemaphore os) where
  -- The table with its lock free.
  abbrev pub unlocked : KvList V → KvList V
  unlocked l = record l { mutex = Mutex.init os }

  add_node-IsValid :
      (key : ℕ) (value : V) (r : Option ℕ) (l l' : KvList V)
      → IsValid os (unlocked l)
      → add_node key value l ≡ ok r l'
      → IsValid os (unlocked l') × (l'.mutex ≡ l.mutex)
  unfolding add_node
  add_node-IsValid key value r l l' v e = elim (Option-cases (find_free l.node_array)) [
    | inl full ↦
        let same : l ≡ l' = ground (arith, full) in
        (subst (λ k. IsValid os (unlocked k)) same v, ap (λ (k : KvList V). k.mutex) (sym same))
    | inr ((i, n), found) ↦
        let (at, free) = find_free_at l.node_array i n found in
        let (d, ptr, lt) = slot_of i v.table at in
        let put : KvList V = record l {
          node_array = set l.node_array i (record n { valid = true; key = key });
          data_array = set l.data_array d value;
          count = l.count + 1;
          sorted = false;
        } in
        let stored : add_node key value l ≡ ok (some i) put = ground (arith, found, ptr) in
        let same = ok_state (sym stored ∙ e) in
        let valid = added-IsValid sem key value v i d n at free ptr in
        (
          subst (λ k. IsValid os (unlocked k)) same
              (subst (λ m. IsValid os (record put { mutex = m })) (unlock-held sem) valid),
          ap (λ (k : KvList V). k.mutex) (sym same),
        )
  ]

  lock_inv :
      (k l : KvList V)
      → lock os k ≡ ok tt l
      → (m : ℕ) × (Mutex.lock os k.mutex ≡ some m) × (l ≡ record k { mutex = m })
  unfolding lock
  lock_inv k l e = elim (Option-cases (Mutex.lock os k.mutex)) [
    | inl waits ↦ absurd (ground (arith, waits))
    | inr (m, taken) ↦ (m, taken, ground (arith, taken))
  ]

  -- Apart from the lock the table is well formed, whoever holds the lock; nobody removes nodes.
  record IsSafe (s : System V) : Type 0 where
    valid : IsValid os (unlocked s.table)
    owner : Option ℕ
    owned : Owned os owner s.table.mutex s.place
    adds_only : (t : ℕ) → is_removal (s.place t) ≡ false

  adds-update :
      (place : ℕ → Place V) (t : ℕ) (p : Place V)
      → ((u : ℕ) → is_removal (place u) ≡ false)
      → is_removal p ≡ false
      → (u : ℕ) → is_removal (update place t p u) ≡ false
  adds-update place t p before h u = ground (arith, before u)

  Step-IsSafe : {s s' : System V} → IsSafe s → Step os false s s' → IsSafe s'
  unfolding unlock
  Step-IsSafe {s} safe (tests_count t key value at room) = record {
    valid = safe.valid;
    owner = safe.owner;
    owned =
        moves_outside os t (adding key value) s.place safe.owner s.table.mutex (rw at refl) refl
          safe.owned;
    adds_only = adds-update s.place t (adding key value) safe.adds_only refl;
  }
  Step-IsSafe {s} safe (locks_add t key value {l} at e) =
      let (m, taken, same) = lock_inv s.table l e in
      record {
        valid = rw same safe.valid;
        owner = some t;
        owned = rw same (
            enters os t (add_locked key value) s.place sem safe.owner s.table.mutex m taken refl
              safe.owned);
        adds_only = adds-update s.place t (add_locked key value) safe.adds_only refl;
      }
  Step-IsSafe {s} safe (stores t key value r {l} at e) =
      let (valid, same) = add_node-IsValid key value r s.table l safe.valid e in
      record {
        valid = valid;
        owner = safe.owner;
        owned = rw same (
            moves_inside os t leaving s.place safe.owner s.table.mutex (rw at refl) refl
              safe.owned);
        adds_only = adds-update s.place t leaving safe.adds_only refl;
      }
  Step-IsSafe safe (tests_node t i n allowed at there used) = absurd (cc)
  Step-IsSafe safe (locks_remove t i at e) =
      absurd (let adds = safe.adds_only t in ground (arith, adds, at))
  Step-IsSafe safe (clears t i at e) =
      absurd (let adds = safe.adds_only t in ground (arith, adds, at))
  Step-IsSafe {s} safe (unlocks t {l} at e) =
      let same = ok_state e in
      record {
        valid = subst (λ k. IsValid os (unlocked k)) same safe.valid;
        owner = none;
        owned =
            subst (λ (k : KvList V). Owned os none k.mutex (update s.place t outside)) same
              (leaves os t outside s.place sem safe.owner s.table.mutex (rw at refl) refl
                safe.owned);
        adds_only = adds-update s.place t outside safe.adds_only refl;
      }

  Reach-IsSafe : {l : KvList V} {s : System V} → IsValid os l → Reach os false l s → IsSafe s
  Reach-IsSafe v start = record {
    valid = record {
      table = v.table;
      slots = v.slots;
      counted = v.counted;
      ordered = v.ordered;
      unlocked = refl;
    };
    owner = none;
    owned = (v.unlocked, λ t. refl);
    adds_only = λ t. refl;
  }
  Reach-IsSafe v (next r step) = Step-IsSafe (Reach-IsSafe v r) step

  add_node_runs :
      (key : ℕ) (value : V) (l : KvList V)
      → IsValid os (unlocked l)
      → (r : Option ℕ) × (l' : KvList V) × (add_node key value l ≡ ok r l')
  unfolding add_node
  add_node_runs key value l v = elim (Option-cases (find_free l.node_array)) [
    | inl full ↦ (none, l, ground (arith, full))
    | inr ((i, n), found) ↦
        let (at, free) = find_free_at l.node_array i n found in
        let (d, ptr, lt) = slot_of i v.table at in
        (
          some i,
          record l {
            node_array = set l.node_array i (record n { valid = true; key = key });
            data_array = set l.data_array d value;
            count = l.count + 1;
            sorted = false;
          },
          ground (arith, found, ptr),
        )
  ]

  one_owner :
      (o : Option ℕ) (m : ℕ) (place : ℕ → Place V) (t u : ℕ)
      → Owned os o m place
      → holds (place t) ≡ true
      → holds (place u) ≡ true
      → t ≡ u
  one_owner none m place t u (free, nobody) in_t in_u = absurd (let clash = nobody t in cc)
  one_owner (some o) m place t u (taken, owner, alone) in_t in_u = alone t in_t ∙ sym (alone u in_u)

  no_owner :
      (o : Option ℕ) (m : ℕ) (place : ℕ → Place V)
      → Owned os o m place
      → ((t : ℕ) → holds (place t) ≡ false)
      → m ≡ Mutex.init os
  no_owner none m place (free, nobody) quiet = free
  no_owner (some o) m place (taken, owner, alone) quiet = absurd (let clash = quiet o in cc)

  -- From a well-formed table, however many tasks add to it and however the parts of their calls are
  -- interleaved, two are never behind the lock together, a task behind it finishes its body without
  -- a fault although others may have filled the table since its test, and whenever no task is
  -- behind the lock the table is well formed.
  pub adds_are_safe :
      {l : KvList V} {s : System V}
      → IsValid os l
      → Reach os false l s
      → ((t u : ℕ) → holds (s.place t) ≡ true → holds (s.place u) ≡ true → t ≡ u)
        × ((t key : ℕ) (value : V)
            → s.place t ≡ add_locked key value
            → (r : Option ℕ) × (l' : KvList V) × (add_node key value s.table ≡ ok r l'))
        × (((t : ℕ) → holds (s.place t) ≡ false) → IsValid os s.table)
  adds_are_safe {l} {s} v r =
      let safe = Reach-IsSafe v r in
      (
        λ t u. one_owner safe.owner s.table.mutex s.place t u safe.owned,
        λ t key value at. add_node_runs key value s.table safe.valid,
        λ quiet. record {
          table = safe.valid.table;
          slots = safe.valid.slots;
          counted = safe.valid.counted;
          ordered = safe.valid.ordered;
          unlocked = no_owner safe.owner s.table.mutex s.place safe.owned quiet;
        },
      )
