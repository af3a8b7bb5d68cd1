-- ===== src/KvList/Undo.antt =====
-- A removal of the node that an addition has filled: the table's entries are as before both.
use cc2745_repo.Prelude.{
  ℕ, ◌≡◌, ◌≢◌, ◌∙◌, sym, inl, inr, none, Bool-cases, arith, ◌==◌, ==_iff, Os, IsSemaphore,
}
use cc2745_repo.KvList.State.{KvList}
use cc2745_repo.KvList.Valid.{IsValid, entry}
use cc2745_repo.KvList.Stored.{Valid-Stored, entry-some}
use cc2745_repo.KvList.Add.{Added}
use cc2745_repo.KvList.Remove.{Removed}
use cc2745_repo.KvList.Search.{IsHit}

-- Tables with the same entries have the same keys in use.
pub unused_same :
    {V : Type 0} {os : Os} (key : ℕ) (l k : KvList V)
    → IsValid os l
    → IsValid os k
    → ((j : ℕ) → entry k j ≡ entry l j)
    → IsHit key l.node_array none
    → IsHit key k.node_array none
unused_same key l k v w same unused i n at used named =
    let (x, there) = entry-some k i n w at used in
    let old = Valid-Stored l i n.key x v (sym (same i) ∙ there) in
    unused i old.node old.at old.used (old.named ∙ named)

module _ {V : Type 0} {os : Os} (sem : IsSemaphore os) (key : ℕ) (value : V) {l : KvList V}
    (v : IsValid os l) {i : ℕ} {l' : KvList V} (a : Added sem key value v i l') {k : KvList V}
    (r : Removed sem a.valid i k) where
  pub undone : (j : ℕ) → entry k j ≡ entry l j
  undone j = elim (Bool-cases (j == i)) [
    | inl same ↦ let e = (==_iff j i).0 same in rw e (r.gone ∙ sym a.was_free)
    | inr other ↦ let ne : j ≢ i = ground arith in r.rest j ne ∙ a.rest j ne
  ]
