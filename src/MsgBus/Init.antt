-- ===== src/MsgBus/Init.antt =====
-- What `mbus_init` makes of a bus, and what it leaves out.
use cc2745_repo.Prelude.{
  ℕ, zero, suc, ◌+◌, ◌≤◌, ◌≡◌, refl, Bool-cases, inl, inr, false, Option, some, List, [], ◌∷◌,
  arith, length, get_elem?, get_elem?_of_lt, ◌==◌, ok, fault, Run, Os,
}
use cc2745_repo.Hal.Mutex
use cc2745_repo.Hal.Event
use cc2745_repo.Links.{Ptr, update}
use cc2745_repo.KvList.State.{KvList}
use cc2745_repo.KvList.{kv_list_init}
use cc2745_repo.LinkedList.Slots.{linked_list_init_for_heap, empty_list}
use cc2745_repo.MsgBus.State.{Topic, Chann, MBus}
use cc2745_repo.MsgBus.{on_topics, chann_at, each_chann, mbus_init, mbus_register_topic}
use cc2745_repo.MsgBus.Queue.{Pending}

-- Every channel has a topic list in memory.
abbrev pub HasTopics : (Ptr → Option (KvList Topic)) → List Chann → Type 0
HasTopics lists [] = Unit {0}
HasTopics lists (c ∷ cs) = ((l : KvList Topic) × (lists c.topic_list ≡ some l)) × HasTopics lists cs

HasTopics-at :
    (lists : Ptr → Option (KvList Topic)) (cs : List Chann) (i : ℕ) {c : Chann}
    → HasTopics lists cs
    → get_elem? cs i ≡ some c
    → (l : KvList Topic) × (lists c.topic_list ≡ some l)
HasTopics-at lists [] i h at = absurd (cc)
HasTopics-at lists (c ∷ cs) zero h at = (h.0.0, ground (arith, at, h.0.1))
HasTopics-at lists (c ∷ cs) (suc i) h at = HasTopics-at lists cs i h.1 at

HasTopics-update :
    (lists : Ptr → Option (KvList Topic)) (p : Ptr) (l : KvList Topic) (cs : List Chann)
    → HasTopics lists cs
    → HasTopics (update lists p (some l)) cs
HasTopics-update lists p l [] h = tt
HasTopics-update lists p l (c ∷ cs) ((k, at), h) = (
  elim (Bool-cases (c.topic_list == p)) [
    | inl same ↦ (l, rw same refl)
    | inr other ↦ (k, rw other at)
  ],
  HasTopics-update lists p l cs h,
)

module _ {W : Type 0} where
  -- The loop over the channels ends if the command does.
  each_chann_lem :
      {c : KvList Topic → Run (KvList Topic) (Unit {0})} (n i : ℕ) (cs : List Chann) (b : MBus W)
      → ((l : KvList Topic) → (l' : KvList Topic) × (c l ≡ ok tt l'))
      → HasTopics b.topic_lists cs
      → i + n ≤ length cs
      → (lists : Ptr → Option (KvList Topic)) × (each_chann n i cs c b
          ≡ ok tt (record b { topic_lists = lists }))
  unfolding each_chann on_topics chann_at
  each_chann_lem zero i cs b total h fits = (b.topic_lists, refl)
  each_chann_lem (suc n) i cs b total h fits =
      let (p_chann, at) = get_elem?_of_lt cs i (omega (arith, fits)) in
      let (l, list) = HasTopics-at b.topic_lists cs i h at in
      let (l', run) = total l in
      let p = p_chann.topic_list in
      let (lists, rest) =
        each_chann_lem n (suc i) cs (record b { topic_lists = update b.topic_lists p (some l') })
          total (HasTopics-update b.topic_lists p l' cs h) (omega (arith, fits)) in
      (lists, ground (arith, at, list, run, rest))

module _ (os : Os) {W : Type 0} where
  -- `mbus_init` with as many channels as the array has, each with a topic list, ends with an empty
  -- queue. It does not store the array: on a bus that starts as zeros, as static storage does, the
  -- first registration of a topic reads through NULL.
  pub mbus_init_unbound :
      (channs : List Chann) (b : MBus W) (chann_id : ℕ) (topic : Topic)
      → HasTopics b.topic_lists channs
      → b.chann_array ≡ []
      → b.msg_queue.array_based ≡ false
      → (b' : MBus W) × (mbus_init os channs (length channs) b ≡ ok tt b')
        × Pending os b' []
        × (b'.chann_array ≡ [])
        × (mbus_register_topic os chann_id topic b' ≡ fault)
  unfolding mbus_init mbus_register_topic linked_list_init_for_heap Event.create kv_list_init
  mbus_init_unbound channs b chann_id topic h unset heap =
      let q = record (empty_list b.msg_queue) { mutex = Mutex.init os } in
      let (lists, run) =
        each_chann_lem {c = kv_list_init os} (length channs) 0 channs (record b { msg_queue = q })
          (λ l. (_, refl)) h (omega arith) in
      (
        record b { msg_queue = q; topic_lists = lists },
        run,
        record {
          nodes = [];
          holds = record {
            list = record { head = refl; tail = refl; chain = tt };
            count = refl;
            unlocked = refl;
          };
          carries = tt;
          heap = heap;
        },
        unset,
        ground (arith, unset),
      )
