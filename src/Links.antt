-- ===== src/Links.antt =====
-- The list macros of ccs_project/src/lib/linked_list/list_algo_macro.h, over an explicit memory.
-- A pointer is a number, NULL is 0. `live` says which addresses hold a node: an access to any
-- other address is a fault.
pub mod Chain
pub mod Split
pub mod Insert
pub mod Remove
pub mod RemoveNode
pub mod Exists
use cc2745_repo.Prelude.{
  ℕ, zero, suc, Bool, true, false, not, ◌||◌, ◌==◌, if◌then◌else◌, ok, fault, out_of_fuel, Cmd,
  pure, modify, and_then, ◌>>=◌, ◌>>◌,
}

abbrev pub Ptr : Type 0
Ptr = ℕ

abbrev pub null : Ptr
null = 0

-- The links of all nodes, and the two ends of one list.
pub record Links : Type 0 where
  pub live : Ptr → Bool
  pub next : Ptr → Ptr
  pub prev : Ptr → Ptr
  pub head : Ptr
  pub tail : Ptr

abbrev pub update {ℓ} : {A : Type ℓ} → (Ptr → A) → Ptr → A → Ptr → A
update f p v q = if q == p then v else f q

-- Whether `p->next` and `p->prev` may be read and written.
abbrev pub is_node : Links → Ptr → Bool
is_node m p = if p == null then false else m.live p

get_next : Ptr → Cmd Links Ptr
get_next p m = if is_node m p then ok (m.next p) m else fault

get_prev : Ptr → Cmd Links Ptr
get_prev p m = if is_node m p then ok (m.prev p) m else fault

set_next : Ptr → Ptr → Cmd Links (Unit {0})
set_next p q m = if is_node m p then ok tt (record m { next = update m.next p q }) else fault

set_prev : Ptr → Ptr → Cmd Links (Unit {0})
set_prev p q m = if is_node m p then ok tt (record m { prev = update m.prev p q }) else fault

set_head : Ptr → Cmd Links (Unit {0})
set_head p = modify (λ m. record m { head = p })

set_tail : Ptr → Cmd Links (Unit {0})
set_tail p = modify (λ m. record m { tail = p })

-- The branch for an empty list is the same in both insertions.
insert_only : Ptr → Cmd Links (Unit {0})
unfolding set_next set_prev set_head set_tail
insert_only p = do set_prev p null; set_next p null; set_head p; set_tail p

unfoldable pub list_insert_head : Ptr → Cmd Links (Unit {0})
unfolding insert_only set_next set_prev set_head
list_insert_head p m =
    if m.head == null
    then insert_only p m
    else (do set_prev p null; set_next p m.head; set_prev m.head p; set_head p) m

unfoldable pub list_insert_tail : Ptr → Cmd Links (Unit {0})
unfolding insert_only set_next set_prev set_tail
list_insert_tail p m =
    if m.head == null
    then insert_only p m
    else (do set_prev p m.tail; set_next p null; set_next m.tail p; set_tail p) m

-- The branch for a list of one node, in both removals.
remove_only : Cmd Links (Unit {0})
unfolding set_head set_tail
remove_only = do set_head null; set_tail null

unfoldable pub list_remove_head : Ptr → Cmd Links (Unit {0})
unfolding remove_only get_next set_next set_prev set_head
list_remove_head p m =
    if m.head == m.tail
    then remove_only m
    else (do n ← get_next p; set_head n; n' ← get_next p; set_prev n' null; set_next p null) m

unfoldable pub list_remove_tail : Ptr → Cmd Links (Unit {0})
unfolding remove_only get_prev set_next set_prev set_tail
list_remove_tail p m =
    if m.head == m.tail
    then remove_only m
    else (do n ← get_prev p; set_tail n; n' ← get_prev p; set_next n' null; set_prev p null) m

remove_first : Ptr → Cmd Links (Unit {0})
unfolding get_next set_prev set_head
remove_first p = do n ← get_next p; set_head n; set_prev p null

remove_last : Ptr → Cmd Links (Unit {0})
unfolding get_prev set_next set_tail
remove_last p = do n ← get_prev p; set_tail n; set_next p null

unlink_left : Ptr → Cmd Links (Unit {0})
unfolding get_prev get_next set_next set_prev
unlink_left p = do
  before ← get_prev p
  if before == null
      then pure tt
      else (do after ← get_next p; set_next before after; set_prev p null)

unlink_right : Ptr → Cmd Links (Unit {0})
unfolding get_prev get_next set_next set_prev
unlink_right p = do
  after ← get_next p
  if after == null
      then pure tt
      else (do before ← get_prev p; set_prev after before; set_next p null)

-- The result is `p_out_node`.
unfoldable pub list_remove_node : Ptr → Cmd Links Ptr
unfolding remove_only remove_first remove_last unlink_left unlink_right
list_remove_node p m =
    if m.head == m.tail
    then (if m.head == p then (do remove_only; pure p) m else ok null m)
    else if m.head == p
    then (do remove_first p; pure p) m
    else if m.tail == p
    then (do remove_last p; pure p) m
    else (do unlink_left p; unlink_right p; pure p) m

exists_loop : ℕ → Ptr → Ptr → Cmd Links Bool
unfolding get_next
exists_loop zero iter p m = out_of_fuel
exists_loop (suc fuel) iter p m =
    let rest = and_then (get_next iter m) (λ q. exists_loop fuel q p) in
    if iter == null then ok false m else if iter == p then ok true m else rest

-- On fuel: a list that is a cycle has no end.
unfoldable pub list_node_exists : ℕ → Ptr → Cmd Links Bool
unfolding exists_loop
list_node_exists fuel p m = exists_loop fuel m.head p m
