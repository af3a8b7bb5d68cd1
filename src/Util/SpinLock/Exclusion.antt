-- ===== src/Util/SpinLock/Exclusion.antt =====
-- At most one task is behind the lock, and one may always go in when none is.
use cc2745_repo.Prelude.{ℕ, ◌≡◌, ◌≢◌, ◌⊎◌, inl, inr, refl, Bool, true, false, Bool-cases, arith}
use cc2745_repo.Util.SpinLock.{
  Place, outside, spinning, inside, Flag, move, test_and_set, atomic_unlock_flag, Step, arrives,
  tests, leaves, Reach, start, next,
}

-- While the flag is clear nobody is inside, and never two are. A flag that is set has an owner.
record IsExclusive (s : Flag) : Type 0 where
  free : s.flag ≡ false → (i : ℕ) → s.place i ≢ inside
  alone : (i j : ℕ) → s.place i ≡ inside → s.place j ≡ inside → i ≡ j
  owned : s.flag ≡ true → (i : ℕ) × (s.place i ≡ inside)

move_self : (place : ℕ → Place) (i : ℕ) (p : Place) → move place i p i ≡ p
move_self place i p = ground arith

move_ne : (place : ℕ → Place) (i j : ℕ) (p : Place) → i ≢ j → move place i p j ≡ place j
move_ne place i j p ne = ground arith

arrives-IsExclusive :
    (s : Flag) (i : ℕ)
    → s.place i ≡ outside
    → IsExclusive s
    → IsExclusive (record s { place = move s.place i spinning })
arrives-IsExclusive s i at e = record {
  free = λ clear j in_j. ground (arith, e.free clear j);
  alone = λ j k in_j in_k. ground (arith, e.alone j k);
  owned = λ taken. let (k, in_k) = e.owned taken in (k, ground (arith, in_k));
}

tests-IsExclusive :
    (b : Bool) (s : Flag) (i : ℕ)
    → s.flag ≡ b
    → s.place i ≡ spinning
    → IsExclusive s
    → IsExclusive (test_and_set i s)
unfolding test_and_set
tests-IsExclusive true s i taken at e = record {
  free = λ clear. absurd (cc);
  alone = λ j k in_j in_k. ground (arith, e.alone j k);
  owned = λ _. let (k, in_k) = e.owned taken in (k, ground (arith, in_k));
}
tests-IsExclusive false s i clear at e = record {
  free = λ clear'. absurd (cc);
  alone = λ j k in_j in_k. ground (arith, e.free clear j, e.free clear k);
  owned = λ _. (i, rw clear (move_self s.place i inside));
}

leaves-IsExclusive :
    (s : Flag) (i : ℕ) → s.place i ≡ inside → IsExclusive s → IsExclusive (atomic_unlock_flag i s)
unfolding atomic_unlock_flag
leaves-IsExclusive s i at e = record {
  free = λ clear j in_j. ground (arith, e.alone j i);
  alone = λ j k in_j in_k. ground (arith, e.alone j k);
  owned = λ taken. absurd (cc);
}

Step-IsExclusive : {s s' : Flag} → Step s s' → IsExclusive s → IsExclusive s'
Step-IsExclusive {s} (arrives i at) e = arrives-IsExclusive s i at e
Step-IsExclusive {s} (tests i at) e = tests-IsExclusive s.flag s i refl at e
Step-IsExclusive {s} (leaves i at) e = leaves-IsExclusive s i at e

Reach-IsExclusive : {s : Flag} → Reach s → IsExclusive s
Reach-IsExclusive start = record {
  free = λ clear i in_i. cc;
  alone = λ i j in_i in_j. absurd (cc);
  owned = λ taken. absurd (cc);
}
Reach-IsExclusive (next r step) = Step-IsExclusive step (Reach-IsExclusive r)

-- However many tasks use the lock, in whatever order their steps come, two are never behind
-- ATOMIC_LOCK_FLAG together.
pub mutual_exclusion :
    {s : Flag} → Reach s → (i j : ℕ) → s.place i ≡ inside → s.place j ≡ inside → i ≡ j
mutual_exclusion r = let e = Reach-IsExclusive r in e.alone

-- No deadlock: while a task waits in the loop, either some task is behind the lock and may unlock
-- it, or the waiting one goes in by its next test.
pub no_deadlock :
    {s : Flag} (i : ℕ)
    → Reach s
    → s.place i ≡ spinning
    → ((j : ℕ) × (s.place j ≡ inside)) ⊎ ((s' : Flag) × Step s s' × (s'.place i ≡ inside))
unfolding test_and_set
no_deadlock {s} i r at =
    let e = Reach-IsExclusive r in
    elim (Bool-cases s.flag) [
      | inl taken ↦ inl (e.owned taken)
      | inr clear ↦ inr (test_and_set i s, tests i at, rw clear (move_self s.place i inside))
    ]
