-- ===== src/LinkedList/Slots/Scan.antt =====
-- The search for a free slot, against the slots in cyclic order.
use Prim.Native.Nat.{bit_and}
use native.Mathlib.Nat.{mod-eq_of_lt, add-mod_right}
use cc2745_repo.Prelude.{
  ℕ, zero, suc, ◌+◌, ◌-◌, ◌%◌, ◌^◌, ◌<◌, ◌≤◌, ◌≡◌, ◌∙◌, ◌≢◌, inl, inr, refl, ◌==◌, leb,
  if◌then◌else◌, ap, ==_iff, Bool-cases, arith, ok, mask_lem,
}
use cc2745_repo.Links.{null, update}
use cc2745_repo.LinkedList.State.{LinkedList, node_at}
use cc2745_repo.LinkedList.Slots.{power2_check, power2_get_mod, slot_index, scan_slots}

-- The fast way to a slot, and the sums of 32 bits, give the slot that is `i` steps after the last
-- one, around the array: for a last slot and a step inside an array of at most 2 ^ 31 nodes.
pub slot_index_lem :
    (last depth i : ℕ)
    → last < depth
    → i ≤ depth
    → depth ≤ 2 ^ 31
    → slot_index last depth i ≡ (last + i) % depth
unfolding slot_index power2_check power2_get_mod
slot_index_lem last depth i below step small =
    let whole : (last + i) % 2 ^ 32 ≡ last + i = mod-eq_of_lt (omega arith) in
    rw whole (elim (Bool-cases (bit_and depth (depth - 1) == 0)) [
      | inl p ↦
          (let mask = mask_lem (last + i) depth (omega arith) ((==_iff _ 0).0 p) in ground arith)
      | inr p ↦ ground arith
    ])

-- Every slot is some number of steps after the last one.
pub steps_to :
    (last depth j : ℕ) → last < depth → j < depth → (i : ℕ) × (i < depth) × ((last + i) % depth ≡ j)
steps_to last depth j below h = elim (Bool-cases (leb last j)) [
  | inl p ↦
      (let sum : last + (j - last) ≡ j = ground arith in
        (j - last, omega arith, ap (λ y. y % depth) sum ∙ mod-eq_of_lt h))
  | inr p ↦
      (let sum : last + (j + depth - last) ≡ j + depth = ground arith in
        (
          j + depth - last,
          ground arith,
          ap (λ y. y % depth) sum ∙ add-mod_right j depth ∙ mod-eq_of_lt h,
        ))
]

module _ {D : Type 0} where
  abbrev pub slot : LinkedList D → ℕ → ℕ
  slot l i = (l.last_slot_index + i) % l.depth

  -- The list after the node at `index` is handed out.
  abbrev pub taken : LinkedList D → ℕ → LinkedList D
  taken l index = record l { opt = update l.opt (node_at l index) 1; last_slot_index = index }

  -- The first `n` nodes of the array that are free.
  unfoldable pub free_count : (n : ℕ) → LinkedList D → ℕ
  free_count zero l = 0
  free_count (suc n) l = (if l.opt (node_at l n) == 0 then 1 else 0) + free_count n l

  pub free_count-used :
      (n : ℕ) (l : LinkedList D) → ((j : ℕ) → j < n → l.opt (node_at l j) ≢ 0) → free_count n l ≡ 0
  unfolding free_count
  free_count-used zero l used = refl
  free_count-used (suc n) l used =
      let rest = free_count-used n l (λ j h. used j (omega arith)) in
      let last = used n (omega arith) in ground arith

  free_count-above :
      (n index : ℕ) (l : LinkedList D) → n ≤ index → free_count n (taken l index) ≡ free_count n l
  unfolding free_count
  free_count-above zero index l h = refl
  free_count-above (suc n) index l h =
      let rest = free_count-above n index l (omega arith) in ground arith

  pub free_count-taken :
      (n index : ℕ) (l : LinkedList D)
      → index < n
      → l.opt (node_at l index) ≡ 0
      → free_count n (taken l index) + 1 ≡ free_count n l
  unfolding free_count
  free_count-taken zero index l h e = absurd (omega arith)
  free_count-taken (suc n) index l h e = elim (Bool-cases (index == n)) [
    | inl p ↦ (let rest = free_count-above n index l (ground arith) in ground arith)
    | inr p ↦ (let rest = free_count-taken n index l (ground arith) e in ground arith)
  ]

  module _ (l : LinkedList D) (below : l.last_slot_index < l.depth) (small : l.depth ≤ 2 ^ 31) where
    pub scan_first :
        (n i step : ℕ)
        → n + i ≡ l.depth
        → i ≤ step
        → step < l.depth
        → ((j : ℕ) → j < step → l.opt (node_at l (slot l j)) ≢ 0)
        → l.opt (node_at l (slot l step)) ≡ 0
        → scan_slots n i l.last_slot_index l ≡ ok (node_at l (slot l step)) (taken l (slot l step))
    unfolding scan_slots
    scan_first zero i step e le lt used free = absurd (omega arith)
    scan_first (suc n) i step e le lt used free =
        let index = slot_index_lem l.last_slot_index l.depth i below (omega arith) small in
        rw index (elim (Bool-cases (i == step)) [
          | inl p ↦ (let same : i ≡ step = (==_iff i step).0 p in rw same (ground arith))
          | inr p ↦
              (let rest = scan_first n (suc i) step (omega arith) (ground arith) lt used free in
                let busy = used i (ground arith) in ground (arith, rest))
        ])

    pub scan_none :
        (n i : ℕ)
        → n + i ≡ l.depth
        → ((j : ℕ) → j < l.depth → l.opt (node_at l (slot l j)) ≢ 0)
        → scan_slots n i l.last_slot_index l ≡ ok null l
    unfolding scan_slots
    scan_none zero i e used = refl
    scan_none (suc n) i e used =
        let index = slot_index_lem l.last_slot_index l.depth i below (omega arith) small in
        let rest = scan_none n (suc i) (omega arith) used in
        let busy = used i (omega arith) in rw index (ground (arith, rest))
