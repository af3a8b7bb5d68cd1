-- ===== src/LwList.antt =====
-- ccs_project/src/lib/linked_list/lw_list.c: an intrusive list, its elements the caller's.
pub mod Refine
mod Tests
use cc2745_repo.Prelude.{
  decrement, ℕ, suc, ◌+◌, ◌-◌, Bool, true, false, ◌==◌, if◌then◌else◌, Run, ok, fault, blocked,
  out_of_fuel, Cmd, pure, modify, and_then, ◌>>=◌, ◌>>◌, none, some, Os,
}
use cc2745_repo.Hal.Mutex
use cc2745_repo.Links.{
  Ptr, null, Links, list_insert_head, list_insert_tail, list_remove_head, list_remove_tail,
  list_remove_node, list_node_exists,
}

pub record LwList : Type 0 where
  pub links : Links
  pub mutex : ℕ
  pub count : ℕ

-- A macro works on the list's own ends and the links of all elements.
pub on_links : {A : Type 0} → Run Links A → Cmd LwList A
on_links (ok a m) l = ok a (record l { links = m })
on_links fault l = fault
on_links blocked l = blocked
on_links out_of_fuel l = out_of_fuel

lift : {A : Type 0} → Cmd Links A → Cmd LwList A
unfolding on_links
lift c l = on_links (c l.links) l

unfoldable pub lw_list_empty : LwList → Bool
lw_list_empty l = l.links.head == null

unfoldable pub lw_list_peek : LwList → Ptr
lw_list_peek l = l.links.head

unfoldable pub lw_list_count : LwList → ℕ
lw_list_count l = l.count

unfoldable pub lw_list_exist : ℕ → Ptr → Cmd LwList Bool
unfolding lift
lw_list_exist fuel p = lift (list_node_exists fuel p)

module _ (os : Os) where
  lock : Cmd LwList (Unit {0})
  lock l = elim (Mutex.lock os l.mutex) [ none ↦ blocked | some m ↦ ok tt (record l { mutex = m }) ]

  unlock : Cmd LwList (Unit {0})
  unlock l = ok tt (record l { mutex = Mutex.unlock os l.mutex })

  unfoldable pub lw_list_init : Cmd LwList (Unit {0})
  lw_list_init l = ok tt (record l {
    links = record (l.links) { head = null; tail = null };
    count = 0;
    mutex = Mutex.init os;
  })

  unfoldable pub lw_list_insert_head : Ptr → Cmd LwList Ptr
  unfolding lock unlock lift
  lw_list_insert_head p = do
    lock
    lift (list_insert_head p)
    modify (λ l. record l { count = l.count + 1 })
    unlock
    pure p

  unfoldable pub lw_list_insert_tail : Ptr → Cmd LwList Ptr
  unfolding lock unlock lift
  lw_list_insert_tail p = do
    lock
    lift (list_insert_tail p)
    modify (λ l. record l { count = l.count + 1 })
    unlock
    pure p

  remove_from_head : Cmd LwList Ptr
  unfolding lift
  remove_from_head l =
      if l.links.head == null
      then ok l.links.head l
      else (do
        lift (list_remove_head l.links.head)
        modify (λ k. record k { count = decrement k.count })
        pure l.links.head)
          l

  unfoldable pub lw_list_remove_head : Cmd LwList Ptr
  unfolding lock unlock remove_from_head
  lw_list_remove_head = do lock; p ← remove_from_head; unlock; pure p

  remove_from_tail : Cmd LwList Ptr
  unfolding lift
  remove_from_tail l =
      if l.links.tail == null
      then ok l.links.tail l
      else (do
        lift (list_remove_tail l.links.tail)
        modify (λ k. record k { count = decrement k.count })
        pure l.links.tail)
          l

  unfoldable pub lw_list_remove_tail : Cmd LwList Ptr
  unfolding lock unlock remove_from_tail
  lw_list_remove_tail = do lock; p ← remove_from_tail; unlock; pure p

  remove_given : Ptr → Cmd LwList Ptr
  unfolding lift
  remove_given p l =
      if p == null
      then ok p l
      else (do
        out ← lift (list_remove_node p)
        modify (λ k. record k { count = decrement k.count })
        pure out)
          l

  unfoldable pub lw_list_remove_node : Ptr → Cmd LwList Ptr
  unfolding lock unlock remove_given
  lw_list_remove_node p = do lock; out ← remove_given p; unlock; pure out
