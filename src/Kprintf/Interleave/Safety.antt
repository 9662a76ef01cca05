-- ===== src/Kprintf/Interleave/Safety.antt =====
-- What holds whenever the event thread waits, in every order of its steps and the arrivals.
use libkprintf.Platform.{Platform}
use libkprintf.Kprintf.{HandlerFlags, Ptr, Sys, null, stopped}
use libkprintf.Prelude.{
  subst, ℤ, Bool, List, ℕ, [], ◌≡◌, inl, ◌≢◌, ◌⊎◌, true, inr, refl, ◌+◌, ◌∷◌, length, ◌<◌, int_eq,
  pos, some, sym, ◌∙◌, if◌then◌else◌,
}
use libkprintf.Kprintf.Interleave.Flags.{FlagLaws}
use libkprintf.Kprintf.Interleave.{
  ask_end, unhook, again, Pc, Step, arrive, Reach, waiting, later, wake, begin, no_flush, lock,
  refuse, read_head, invoke, read_next, remove, unlock_end, terminate,
}
use libkprintf.Kprintf.Queue.Chain.{IsQueue, Chain}
use libkprintf.Kprintf.Interleave.Pending.{Inv, arrive-Inv, AtFront, Settled, Settled-grown}
use libkprintf.Kprintf.Interleave.Arrivals.{kprintf_handler-Arrived, Grown-Arrived}
use libkprintf.Kprintf.Hook.{ev_flush, ev_terminate, ev_stop_ok}
use libkprintf.Kprintf.Interleave.Moves.{
  wake-Inv, IsQueue-world, head-AtFront, invoke-IsQueue, next-AtFront, remove-Inv,
}
use libkprintf.Kprintf.Queue.Flush.{deliver_all, free_all}
use libkprintf.Kprintf.Events.{event_round, has_event}
use libkprintf.Prelude.Run.{ok}
use libkprintf.Kprintf.Events.Rounds.{event_round-flushes}
use libkprintf.Kprintf.Interleave.Texts.{accepted}

module _ {W : Type 0} (p : Platform W) (flags : HandlerFlags) (default_cb : Ptr)
    (flag : ℤ → W → Bool) (laws : FlagLaws p flag) where
  abbrev pub Holds : Pc → Sys W → Type 0
  Holds = Inv p flags default_cb flag laws

  end-Settled :
      (m : Ptr) (s : Sys W) (ms : List Ptr)
      → m ≡ null
      → IsQueue s ms
      → AtFront p flags default_cb flag laws m s ms
      → Settled p flags default_cb flag laws s ms
  end-Settled m s ms e q (inl (_, settled)) = settled
  end-Settled m s ms e q (inr (rest, front)) =
      let c : Chain s.heap s.head (m ∷ rest) = rw front at q.chain in absurd (c.1 e)

  pub Step-Inv :
      {pc pc' : Pc} {s s' : Sys W} → Step p flags default_cb pc s pc' s' → Holds pc s → Holds pc' s'
  Step-Inv {pc} {s = s} {s' = s'} (arrive fuel fmt va is_user ret gives run) (ms, q, k) =
      arrive-Inv p flags default_cb flag laws pc s s' ms k (
        Grown-Arrived p flag laws (accepted p fmt va is_user s) s s' ms
          (kprintf_handler-Arrived p fuel s ms q fmt va is_user ret s' gives run))
  Step-Inv {pc} (unhook {s} on) (ms, q, k) =
      let w : W = p.register_kprintf_handler null s.world in
      arrive-Inv p flags default_cb flag laws pc s (record s { state = stopped; world = w }) ms k
        (inl (
          record { chain = q.chain; distinct = q.distinct },
          laws.keeps.at_hook s.evid null s.world,
        ))
  Step-Inv {pc} (ask_end {s} off) (ms, q, k) =
      arrive-Inv p flags default_cb flag laws pc s _ ms k
        (inl (IsQueue-world s _ ms q, laws.stays s.evid (ev_flush + ev_terminate) s.world))
  Step-Inv (wake {s} found after) (ms, q, settled) =
      rw (found, after) (wake-Inv p flags default_cb flag laws s ms q settled)
  Step-Inv (no_flush none_found) (ms, q, inl settled) = (ms, q, settled)
  Step-Inv (no_flush none_found) (ms, q, inr found) = absurd (cc)
  Step-Inv (lock {s} found taken) (ms, q, k) = (ms, IsQueue-world s _ ms q, tt)
  Step-Inv (refuse {s} found refused after) (ms, q, k) = rw after (
    ms,
    IsQueue-world s _ ms q,
    inr (laws.keeps.at_delay s.evid 1000 _ (laws.sets s.evid (p.wait_sema s.semid s.world).1)),
  )
  Step-Inv (read_head {s}) (ms, q, k) =
      (ms, q, head-AtFront p flags default_cb flag laws s.head s ms q.chain)
  Step-Inv (invoke {s} {s'} {m} before ne at run) (ms, q, inl (e, settled)) = absurd (ne e)
  Step-Inv (invoke {s} {s'} {m} before ne at run) (ms, q, inr front) =
      (ms, invoke-IsQueue p flags default_cb flag laws s s' m before ms at run q, front)
  Step-Inv (read_next {s} {m} after at) (ms, q, (rest, e)) = (
    ms,
    q,
    (rest, e, next-AtFront p flags default_cb flag laws m s rest after (rw e at q.chain) at),
  )
  Step-Inv (remove {s} {s'} {m} {next} {ev} fuel ret run) (ms, q, (rest, e, front)) =
      remove-Inv p flags default_cb flag laws s s' m next rest ev fuel ret
        (subst (λ xs. IsQueue s xs) e q) front run
  Step-Inv (unlock_end {s} {m} e) (ms, q, front) =
      let s' : Sys W = record s { world = (p.signal_sema s.semid s.world).1 } in
      (
        ms,
        IsQueue-world s s'.world ms q,
        Settled-grown p flags default_cb flag laws s s' ms
            (laws.at_signal_sema s.evid s.semid s.world) (end-Settled m s ms e q front),
      )
  Step-Inv (again goes_on) (ms, q, settled) = (ms, q, settled)
  Step-Inv (terminate {s} ends) (ms, q, settled) = (ms, IsQueue-world s _ ms q, tt)

  pub Reach-Inv :
      {start : Sys W} {pc : Pc} {s : Sys W}
      → IsQueue start []
      → Reach p flags default_cb start pc s
      → Holds pc s
  Reach-Inv q begin = ([], q, inl refl)
  Reach-Inv q (later r step) = Step-Inv step (Reach-Inv q r)

  -- From an empty queue, in every order of the steps of the event thread and of arriving messages,
  -- on a kernel that keeps the laws of FlagLaws and whose pool gives blocks that are not in use:
  -- when the thread waits, the queue is well formed, and it is empty or EV_FLUSH is set, so that no
  -- queued message is left behind unseen.
  pub waiting-Settled :
      (start s : Sys W)
      → IsQueue start []
      → Reach p flags default_cb start waiting s
      → (ms : List Ptr) × IsQueue s ms × ((ms ≡ []) ⊎ (flag s.evid s.world ≡ true))
  waiting-Settled start s q r = Reach-Inv q r

  head-ne-null : (s : Sys W) (ms : List Ptr) → ms ≢ [] → IsQueue s ms → s.head ≢ null
  head-ne-null s [] some_msg q e = some_msg refl
  head-ne-null s (a ∷ ms) some_msg q e = let (same, ne, rest) = q.chain in ne (sym same ∙ e)

  Settled-due :
      (s : Sys W) (ms : List Ptr)
      → s.head ≢ null
      → IsQueue s ms
      → Settled p flags default_cb flag laws s ms
      → flag s.evid s.world ≡ true
  Settled-due s ms some_msg q (inr due) = due
  Settled-due s ms some_msg q (inl empty) =
      let c : Chain s.heap s.head [] = rw empty at q.chain in absurd (some_msg c)

  -- From an empty queue, in every order of the steps of the event thread, of arriving messages and
  -- of _stop, on a kernel that keeps the laws of FlagLaws and whose pool gives blocks that are not in
  -- use, when the thread waits with the messages `ms` in the queue: where the fuel is more than the
  -- messages, the semaphore is given and no handler goes out of bounds, the next round of the loop
  -- finds EV_FLUSH, empties the queue, frees the messages and leaves the platform as the handlers of
  -- all these messages leave it, in the order of the queue, with the semaphore given back and, if
  -- EV_TERMINATE was found, EV_STOP_OK set.
  pub waiting-flushes :
      (start s : Sys W) (fuel : ℕ) (ms : List Ptr) (v : W)
      → IsQueue start []
      → Reach p flags default_cb start waiting s
      → IsQueue s ms
      → ms ≢ []
      → length ms < fuel
      → let found = p.wait_event_flag s.evid (ev_flush + ev_terminate) s.world in
        let taken = p.wait_sema s.semid found.1 in
        int_eq taken.0 (pos 0) ≡ true
        → deliver_all p flags default_cb s.handlers s.vplid s.heap ms taken.1 ≡ some v
        → (s' : Sys W) × (event_round p flags default_cb fuel s
            ≡ ok (has_event found.0 ev_terminate) s')
          × IsQueue s' []
          × (s'.heap ≡ free_all s.heap ms)
          × (s'.world ≡ (
              if has_event found.0 ev_terminate
              then p.set_event_flag s.evid ev_stop_ok (p.signal_sema s.semid v).1
              else (p.signal_sema s.semid v).1))
  waiting-flushes start s fuel ms v q r qs some_msg enough got delivered =
      let (ms', qs', settled) = Reach-Inv q r in
      let due : flag s.evid s.world ≡ true =
        Settled-due s ms' (head-ne-null s ms some_msg qs) qs' settled in
      event_round-flushes p flags default_cb fuel s ms qs enough v (laws.found s.evid s.world due)
        got delivered
