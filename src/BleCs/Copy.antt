-- ===== src/BleCs/Copy.antt =====
-- The copy of a continuation, and what the handler of messages ends in.
use cc2745_repo.Prelude.{
  ℕ, ◌+◌, ◌^◌, ◌<◌, ◌≡◌, ◌∙◌, inl, inr, refl, ap, true, false, Bool-cases, Option, ◌>>◌, none, some,
  ◌∷◌, [], ◌++◌, arith, if◌then◌else◌, ◌==◌, ltb, ok, fault, Run,
}
use cc2745_repo.Links.{update}
use cc2745_repo.Links.Chain.{update_self}
use cc2745_repo.BleCs.State.{
  Cs, Stack, CsEvent, ContinueResults, icall_malloc, icall_free, max_num_ble_conns,
  invalid_procedure_counter, security_enable_complete, procedure_enable_complete, subevent_result,
  subevent_continue_result, other_event, config_complete, read_remote_capabilities_complete,
  read_remote_fae_table_complete,
}
use cc2745_repo.BleCs.{
  handle_sub_continue_event, copy_continue, cs_event_handler, on_continue_result, handle_opcode,
  event_size, end_current, alloc_block, use_block, copy_event, free_block,
}
use cc2745_repo.BleCs.Safety.{
  IsSized, Safe, Safe-bind, end_current-Safe, on_subevent-Safe, enable-Safe, logged-IsSized,
  sub_continue-Safe,
}

module _ (stack : Stack) where
  sub_continue_live :
      (ev : ContinueResults) (s s' : Cs) (status : ℕ)
      → handle_sub_continue_event stack (some ev) s ≡ ok status s'
      → s'.live ≡ s.live
  unfolding handle_sub_continue_event
  sub_continue_live ev s s' status run = ground arith

  free_run :
      (p : ℕ) (s : Cs)
      → s.live p ≡ true
      → free_block stack (some p) s
        ≡ ok tt
            (record s { calls = s.calls ++ icall_free (some p) ∷ []; live = update s.live p false })
  unfolding free_block
  free_run p s alive = rw alive refl

  free_twice : (p : ℕ) (s : Cs) → s.live p ≡ false → free_block stack (some p) s ≡ fault
  unfolding free_block
  free_twice p s dead = rw dead refl

  module _ (ev : ContinueResults) (lt : ev.conn_handle < max_num_ble_conns) where
    use_run :
        (p : ℕ) (s : Cs)
        → ltb (event_size stack ev) (stack.continue_size + ev.data_len) ≡ false
        → s.live p ≡ true
        → IsSized s
        → (s' : Cs) × (use_block stack ev (some p) s ≡ ok tt s') × (s'.live p ≡ false)
    unfolding use_block copy_event
    use_run p s fits alive sized =
        let (status, s', run, _) = sub_continue-Safe stack ev s lt sized in
        let kept = sub_continue_live ev s s' status run in
        (
          record s' { calls = s'.calls ++ icall_free (some p) ∷ []; live = update s'.live p false },
          rw (fits) (rw run (free_run p s' (ap (λ f. f p) kept ∙ alive))),
          update_self s'.live p false,
        )

    small_run :
        (p : ℕ) (s : Cs)
        → ltb (event_size stack ev) (stack.continue_size + ev.data_len) ≡ true
        → use_block stack ev (some p) s ≡ fault
    unfolding use_block copy_event
    small_run p s short = rw short refl

    fits :
        stack.continue_size + ev.data_len < 2 ^ 16
        → ltb (event_size stack ev) (stack.continue_size + ev.data_len) ≡ false
    unfolding event_size
    fits small = ground arith

    abbrev with_block : ℕ → Cs → Cs
    with_block p s = record s {
      calls = s.calls ++ icall_malloc (event_size stack ev) ∷ [];
      live = update s.live p true;
    }

    alloc_some :
        (p : ℕ) (s : Cs)
        → stack.malloc s.calls (event_size stack ev) ≡ some p
        → alloc_block stack (event_size stack ev) s ≡ ok (some p) (with_block p s)
    unfolding alloc_block
    alloc_some p s room = rw (room, alloc_block) refl

    with_block-IsSized : (p : ℕ) (s : Cs) → IsSized s → IsSized (with_block p s)
    with_block-IsSized p s h = record { counts = h.counts; paths = h.paths }

    copy_faults :
        (p : ℕ) (s : Cs)
        → stack.malloc s.calls (event_size stack ev) ≡ some p
        → IsSized s
        → copy_continue stack ev s ≡ fault
    unfolding copy_continue
    copy_faults p s room h =
        elim (Bool-cases (ltb (event_size stack ev) (stack.continue_size + ev.data_len))) [
          | inl short ↦ rw (alloc_some p s room) (rw (small_run p (with_block p s) short) refl)
          | inr fits ↦
              (let (s', run, dead) =
                  use_run p (with_block p s) fits (update_self s.live p true)
                    (with_block-IsSized p s h) in
                rw (alloc_some p s room) (rw run (free_twice p s' dead)))
        ]

    -- A continuation for one of the first four connections, of a size that fits 16 bits. Whenever
    -- its block is allocated, the copy is made, handled and freed without a fault; the handler then
    -- frees the block, which is not allocated any more, a second time.
    pub copy_continue_frees_twice :
        (p : ℕ) (s : Cs)
        → stack.continue_size + ev.data_len < 2 ^ 16
        → stack.malloc s.calls (event_size stack ev) ≡ some p
        → IsSized s
        → (s1 s2 : Cs) × (alloc_block stack (event_size stack ev) s ≡ ok (some p) s1)
          × (use_block stack ev (some p) s1 ≡ ok tt s2)
          × (s2.live p ≡ false)
          × (free_block stack (some p) s2 ≡ fault)
          × (copy_continue stack ev s ≡ fault)
    copy_continue_frees_twice p s small room h =
        let (s', run, dead) =
          use_run p (with_block p s) (fits small) (update_self s.live p true)
            (with_block-IsSized p s h) in
        (
          with_block p s,
          s',
          alloc_some p s room,
          run,
          dead,
          free_twice p s' dead,
          copy_faults p s room h,
        )

    abbrev without_block : Cs → Cs
    without_block s = record s { calls = s.calls ++ icall_malloc (event_size stack ev) ∷ [] }

    alloc_none :
        (s : Cs)
        → stack.malloc s.calls (event_size stack ev) ≡ none
        → alloc_block stack (event_size stack ev) s ≡ ok none (without_block s)
    unfolding alloc_block
    alloc_none s full = rw (full, alloc_block) refl

    copy-Safe :
        (s : Cs)
        → stack.malloc s.calls (event_size stack ev) ≡ none
        → IsSized s
        → Safe (copy_continue stack ev s)
    unfolding copy_continue use_block free_block
    copy-Safe s full h =
        rw (alloc_none s full) (tt, _, refl, record { counts = h.counts; paths = h.paths })

  -- The block that a message makes the handler allocate: for a continuation while a procedure is
  -- current, if there is memory.
  abbrev pub opcode_block : CsEvent → Cs → Option ℕ
  opcode_block (subevent_continue_result ev) s =
      if s.m_curr_proc_count == invalid_procedure_counter
      then none
      else stack.malloc s.calls (event_size stack ev)
  opcode_block _ s = none

  abbrev pub message_block : (event : ℕ) → CsEvent → Cs → Option ℕ
  message_block event ev s = if event == stack.cs_event_code then opcode_block ev s else none

  -- The connection that a message is about has entries in the tables.
  abbrev pub Addressed : CsEvent → Type 0
  Addressed (procedure_enable_complete ev) = ev.conn_handle < max_num_ble_conns
  Addressed (subevent_result ev) = ev.conn_handle < max_num_ble_conns
  Addressed (subevent_continue_result ev) = ev.conn_handle < max_num_ble_conns
  Addressed _ = Unit {0}

  -- Without a block the run ends well, and with one it ends in a fault.
  abbrev pub Ends : Option ℕ → Run Cs (Unit {0}) → Type 0
  Ends none r = Safe r
  Ends (some p) r = r ≡ fault

  continue-Ends :
      (ev : ContinueResults) (s : Cs) (m : Option ℕ)
      → stack.malloc s.calls (event_size stack ev) ≡ m
      → ev.conn_handle < max_num_ble_conns
      → IsSized s
      → Ends m ((copy_continue stack ev >> end_current stack ev.procedure_done_status) s)
  continue-Ends ev s none full lt h =
      Safe-bind (copy-Safe ev lt s full h)
        (λ _ s' h'. end_current-Safe stack ev.procedure_done_status s' h')
  continue-Ends ev s (some p) room lt h = rw (copy_faults ev lt p s room h) refl

  on_continue-Ends :
      (ev : ContinueResults) (s : Cs)
      → ev.conn_handle < max_num_ble_conns
      → IsSized s
      → Ends (opcode_block (subevent_continue_result ev) s) (on_continue_result stack ev s)
  unfolding on_continue_result
  on_continue-Ends ev s lt h =
      elim (Bool-cases (s.m_curr_proc_count == invalid_procedure_counter)) [
        | inl idle ↦ rw idle (end_current-Safe stack ev.procedure_done_status s h)
        | inr running ↦ rw running (continue-Ends ev s _ refl lt h)
      ]

  opcode-Ends :
      (ev : CsEvent) (s : Cs)
      → Addressed ev
      → IsSized s
      → Ends (opcode_block ev s) (handle_opcode stack ev s)
  unfolding handle_opcode
  opcode-Ends security_enable_complete s _ h = (tt, _, refl, logged-IsSized stack _ s h)
  opcode-Ends (procedure_enable_complete ev) s lt h =
      Safe-bind (enable-Safe stack ev s lt h) (λ _ s' h'. (tt, s', refl, h'))
  opcode-Ends (subevent_result ev) s lt h = on_subevent-Safe stack ev s lt h
  opcode-Ends (subevent_continue_result ev) s lt h = on_continue-Ends ev s lt h
  opcode-Ends other_event s _ h = (tt, s, refl, h)
  opcode-Ends config_complete s _ h = (tt, s, refl, h)
  opcode-Ends read_remote_capabilities_complete s _ h = (tt, s, refl, h)
  opcode-Ends read_remote_fae_table_complete s _ h = (tt, s, refl, h)

  -- A message about one of the first four connections, whatever the stack answers. Unless the
  -- message is a continuation of a current procedure for whose copy there is memory, the handler
  -- ends without a fault and keeps the sizes of its tables. For such a continuation it ends in a
  -- fault.
  pub cs_event_handler_lem :
      (event : ℕ) (ev : CsEvent) (s : Cs)
      → Addressed ev
      → IsSized s
      → Ends (message_block event ev s) (cs_event_handler stack event ev s)
  unfolding cs_event_handler
  cs_event_handler_lem event ev s lt h = elim (Bool-cases (event == stack.cs_event_code)) [
    | inl ours ↦ rw ours (opcode-Ends ev s lt h)
    | inr other ↦ rw other (tt, s, refl, h)
  ]
