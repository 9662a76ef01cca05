-- ===== src/Kprintf/Interleave/Shutdown.antt =====
-- The event thread ends with every message delivered: what _stop waits for.
use libkprintf.Platform.{Platform}
use libkprintf.Kprintf.{HandlerFlags, Ptr, Sys, is_started, Msg, null, stopped}
use libkprintf.Prelude.{
  ℤ, Bool, int_eq, pos, ◌≡◌, true, ℕ, List, some, ◌∷◌, [], none, false, drop, ◌+◌, subst, sym,
  Bool-cases, ◌∙◌, inr, inl,
}
use libkprintf.Kprintf.Interleave.Flags.{FlagLaws, TermLaws, Delivers-Keeps}
use libkprintf.Kprintf.Interleave.{
  ask_end, unhook, later, begin, again, refuse, Pc, Step, arrive, waiting, Reach, at_msg, ended,
  next_read, later, unhook, invoked, woken, ask_end, begin, wake, no_flush, lock, read_head, invoke,
  read_next, remove, unlock_end, terminate,
}
use libkprintf.Kprintf.Queue.Chain.{IsQueue, Chain, Chain-unique, payload}
use libkprintf.Kprintf.Interleave.Pending.{Known}
use libkprintf.Kprintf.Interleave.Stopping.{
  Quits, Calm, arrive-Quits, Stopping, Stopping-started, Chain-empty,
}
use libkprintf.Kprintf.Queue.{write, remove_delete_msg, invoke_at}
use libkprintf.Prelude.Run.{ok}
use libkprintf.Kprintf.Hook.{ev_flush, ev_terminate}
use libkprintf.Kprintf.Interleave.Safety.{Reach-Inv}
use libkprintf.Kprintf.Interleave.Texts.{deliveries, arrivals}
use libkprintf.Kprintf.Interleave.Moves.{
  remove-runs, invoke-runs, IsQueue-world, remove-Keeps, remove-IsQueue, invoke-IsQueue,
}
use libkprintf.Kprintf.Dispatch.Order.{invoke-Delivers_iff}
use libkprintf.Kprintf.Queue.Remove.{free_world}
use libkprintf.Kprintf.Interleave.Order.{Reach-InOrder, all_delivered}

module _ {W : Type 0} (p : Platform W) (flags : HandlerFlags) (default_cb : Ptr)
    (flag : ℤ → W → Bool) (laws : FlagLaws p flag) (term : ℤ → W → Bool) (terms : TermLaws p term)
    (takes : (id : ℤ) (w : W) → int_eq (p.wait_sema id w).0 (pos 0) ≡ true) where
  abbrev Full : Pc → Sys W → Type 0
  Full pc s =
      (ms : List Ptr) × IsQueue s ms
      × Known p flags default_cb flag laws pc s ms
      × Calm p term s
      × Stopping p term pc s ms

  wake-Quits :
      (s : Sys W) (ms : List Ptr)
      → IsQueue s ms
      → Known p flags default_cb flag laws waiting s ms
      → Calm p term s
      → let r = p.wait_event_flag s.evid (ev_flush + ev_terminate) s.world in
        Quits p term (woken r.0) (record s { world = r.1 })
  wake-Quits s ms q k calm = (
    ms,
    IsQueue-world s _ ms q,
    λ on. terms.at_wait s.evid (ev_flush + ev_terminate) s.world (calm on),
    λ ends. (
      elim (Bool-cases (is_started s.state)) [
        | inr off ↦ off
        | inl on ↦
            let missed = terms.not_found s.evid s.world (calm on) in
            absurd (let x : true ≡ false = sym ends ∙ missed in cc)
      ],
      elim k [ inl empty ↦ inl empty | inr due ↦ inr (laws.found s.evid s.world due) ],
    ),
  )

  invoke-Quits :
      (s s' : Sys W) (m : Ptr) (before : Msg) (ev : ℕ) (ms : List Ptr)
      → s.heap m ≡ some before
      → invoke_at p flags default_cb m before s ≡ ok tt s'
      → IsQueue s ms
      → Calm p term s
      → Stopping p term (at_msg m ev) s ms
      → Quits p term (invoked m ev) s'
  invoke-Quits s s' m before ev ms at run q calm stopping =
      let (after, w, good, link, same) =
        invoke-runs p flags default_cb flag laws s s' m before run in
      let s1 : Sys W = record s { heap = write s.heap m (some after); world = w } in
      let delivers =
        (invoke-Delivers_iff p flags default_cb s.handlers before after s.world w).0 good in
      let calm1 : Calm p term s1 = λ on.
        Delivers-Keeps p flags default_cb (λ id v. term id v ≡ false) terms.keeps s.evid delivers
          (calm on) in
      (
        ms,
        invoke-IsQueue p flags default_cb flag laws s s' m before ms at run q,
        subst (Calm p term) same calm1,
        λ ends.
            subst (λ (t : Sys W). (is_started t.state ≡ false) × Unit) same ((stopping ends).0, tt),
      )

  next-Emptied :
      (s : Sys W) (m : Ptr) (after : Msg) (ms rest : List Ptr)
      → IsQueue s ms
      → ms ≡ m ∷ rest
      → s.heap m ≡ some after
      → after.next ≡ null
      → drop 1 ms ≡ []
  next-Emptied s m after ms rest q front at end =
      let c : Chain s.heap s.head (m ∷ rest) = rw front at q.chain in
      let (n, at', links) = c.2 in
      let is_n : n ≡ after = cc in
      rw front (
        Chain-empty s.heap after.next rest
          (subst (λ (x : Msg). Chain s.heap x.next rest) is_n links) end)

  remove-Quits :
      (s s' : Sys W) (m next : Ptr) (ev fuel : ℕ) (ret : ℤ) (ms rest : List Ptr)
      → ms ≡ m ∷ rest
      → remove_delete_msg p fuel m s ≡ ok ret s'
      → IsQueue s ms
      → Calm p term s
      → Stopping p term (next_read m next ev) s ms
      → Quits p term (at_msg next ev) s'
  remove-Quits s s' m next ev fuel ret ms rest front run q calm stopping =
      let q1 : IsQueue s (m ∷ rest) = subst (IsQueue s) front q in
      let (first, c, same) = remove-runs p flags default_cb flag laws s s' m rest fuel ret q1 run in
      let s1 : Sys W = record s {
        head = first;
        heap = write s.heap m none;
        world = free_world p s m;
      } in
      let calm1 : Calm p term s1 =
        λ on. remove-Keeps p (λ id v. term id v ≡ false) terms.keeps s.evid s m (calm on) in
      (
        rest,
        remove-IsQueue p flags default_cb flag laws s s' m rest fuel ret q1 run,
        subst (Calm p term) same calm1,
        λ ends.
            let (off, emptied) = stopping ends in
            (
              subst (λ (t : Sys W). is_started t.state ≡ false) same off,
              λ end. rw front at (emptied end),
            ),
      )

  Step-Quits :
      {pc pc' : Pc} {s s' : Sys W} (step : Step p flags default_cb pc s pc' s')
      → Full pc s
      → Quits p term pc' s'
  unfolding is_started
  Step-Quits {pc} {s = s} {s' = s'} (arrive fuel fmt va is_user ret gives run)
        (ms, q, k, calm, stopping) =
      arrive-Quits p term terms pc fuel fmt va is_user ret s s' ms gives run q calm stopping
  Step-Quits {pc} (unhook {s} on) (ms, q, k, calm, stopping) = (
    ms,
    record { chain = q.chain; distinct = q.distinct },
    λ on'. absurd (cc),
    Stopping-started p term pc s (record s { state = stopped }) ms ms on stopping,
  )
  Step-Quits {pc} (ask_end {s} off) (ms, q, k, calm, stopping) = (
    ms,
    IsQueue-world s _ ms q,
    λ on. absurd (let x : true ≡ false = sym on ∙ off in cc),
    stopping,
  )
  Step-Quits (wake {s} found after) (ms, q, k, calm, stopping) =
      rw (found, after) (wake-Quits s ms q k calm)
  Step-Quits (no_flush none_found) (ms, q, k, calm, stopping) = (
    ms,
    q,
    calm,
    λ ends.
        let (off, emptied) = stopping ends in
        (off, elim emptied [ inl empty ↦ empty | inr found ↦ absurd (cc) ]),
  )
  Step-Quits (lock {s} found taken) (ms, q, k, calm, stopping) = (
    ms,
    IsQueue-world s _ ms q,
    λ on. terms.at_wait_sema s.evid s.semid s.world (calm on),
    λ ends. ((stopping ends).0, tt),
  )
  Step-Quits (refuse {s} found refused after) (ms, q, k, calm, stopping) =
      absurd (let x : true ≡ false = sym (takes s.semid s.world) ∙ refused in cc)
  Step-Quits (read_head {s}) (ms, q, k, calm, stopping) =
      (ms, q, calm, λ ends. ((stopping ends).0, λ end. Chain-empty s.heap s.head ms q.chain end))
  Step-Quits (invoke {s} {s'} {m} {ev} before ne at run) (ms, q, k, calm, stopping) =
      invoke-Quits s s' m before ev ms at run q calm stopping
  Step-Quits (read_next {s} {m} after at) (ms, q, (rest, front), calm, stopping) = (
    ms,
    q,
    calm,
    λ ends. ((stopping ends).0, λ end. next-Emptied s m after ms rest q front at end),
  )
  Step-Quits (remove {s} {s'} {m} {next} {ev} fuel ret run)
        (ms, q, (rest, front, k), calm, stopping) =
      remove-Quits s s' m next ev fuel ret ms rest front run q calm stopping
  Step-Quits (unlock_end {s} end) (ms, q, k, calm, stopping) = (
    ms,
    IsQueue-world s _ ms q,
    λ on. terms.at_signal_sema s.evid s.semid s.world (calm on),
    λ ends. let (off, emptied) = stopping ends in (off, emptied end),
  )
  Step-Quits (again goes_on) (ms, q, k, calm, stopping) = (ms, q, calm, λ ends. absurd ends)
  Step-Quits (terminate {s} ends) (ms, q, k, calm, stopping) =
      let (off, emptied) = stopping ends in
      (
        ms,
        IsQueue-world s _ ms q,
        λ on. absurd (let x : true ≡ false = sym on ∙ off in cc),
        λ u. (off, emptied),
      )

  Reach-Quits :
      {start : Sys W} {pc : Pc} {s : Sys W}
      → IsQueue start []
      → Calm p term start
      → Reach p flags default_cb start pc s
      → Quits p term pc s
  Reach-Quits q calm begin = ([], q, calm, λ ends. absurd ends)
  Reach-Quits q calm (later {pc} {s} r step) =
      let (ms, qs, k) = Reach-Inv p flags default_cb flag laws q r in
      let (ms', qs', still, stopping) = Reach-Quits q calm r in
      let same : ms' ≡ ms = Chain-unique s.heap s.head ms' ms qs'.chain qs.chain in
      Step-Quits step (ms, qs, k, still, subst (Stopping p term pc s) same stopping)

  -- From an empty queue, an empty pool and EV_TERMINATE clear while the module is started, in every
  -- order of the steps of the event thread, of arriving messages and of _stop, on a kernel that keeps
  -- the laws of FlagLaws and TermLaws, whose pool gives blocks that are not in use and whose
  -- semaphore is always given: when the event thread has ended, the module is stopped, every
  -- text that was queued has been given to the handlers, in the order of arrival, the queue is empty,
  -- and the memory of all messages is free.
  pub ended-delivered :
      {start s : Sys W}
      → IsQueue start []
      → ((b : Ptr) → start.heap b ≡ none)
      → (is_started start.state ≡ true → term start.evid start.world ≡ false)
      → (r : Reach p flags default_cb start ended s)
      → (is_started s.state ≡ false)
        × (deliveries r ≡ arrivals r)
        × (s.head ≡ null)
        × ((b : Ptr) → payload (s.heap b) ≡ none)
  ended-delivered {s} q clean calm r =
      let (ms, qs, leak, e) = Reach-InOrder p flags default_cb flag laws q clean r in
      let (ms', qs', still, stopping) = Reach-Quits q calm r in
      let (off, empty) = stopping tt in
      let same : ms' ≡ ms = Chain-unique s.heap s.head ms' ms qs'.chain qs.chain in
      let (order, ended_head, free) =
        all_delivered (arrivals r) (deliveries r) s ms qs leak e (sym same ∙ empty) in
      (off, order, ended_head, free)
