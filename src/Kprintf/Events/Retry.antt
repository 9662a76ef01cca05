-- ===== src/Kprintf/Events/Retry.antt =====
-- event.c: a round that does not get the semaphore, and the round behind it.
use libkprintf.Kprintf.Queue.Flush.{free_all}
use libkprintf.Prelude.{
  ℕ, ℤ, Bool, List, length, ◌<◌, ◌+◌, ◌≡◌, true, false, int_eq, pos, some, [], if◌then◌else◌,
}
use libkprintf.Platform.{Platform}
use libkprintf.Kprintf.{HandlerFlags, Ptr, Sys}
use libkprintf.Kprintf.Interleave.Flags.{FlagLaws}
use libkprintf.Kprintf.Queue.Chain.{IsQueue}
use libkprintf.Kprintf.Hook.{ev_flush, ev_terminate, ev_stop_ok}
use libkprintf.Kprintf.Events.{has_event, event_round}
use libkprintf.Prelude.Run.{ok}
use libkprintf.Kprintf.Queue.Flush.{deliver_all}
use libkprintf.Kprintf.Events.Rounds.{event_round-flushes, event_round-refused}

module _ {W : Type 0} (p : Platform W) (flags : HandlerFlags) (default_cb : Ptr)
    (flag : ℤ → W → Bool) (laws : FlagLaws p flag) (fuel : ℕ) (s : Sys W) (ms : List Ptr)
    (q : IsQueue s ms) (enough : length ms < fuel) where
  -- On a kernel that keeps the laws of FlagLaws, with EV_FLUSH set, EV_TERMINATE not, and more fuel
  -- than messages: a round that does not get the semaphore goes on with the thread, and the round
  -- behind it, if it gets the semaphore and no handler goes out of bounds, finds EV_FLUSH again and
  -- gives every message that was queued at the first round to the handlers, in the order of the
  -- queue, and frees them all.
  pub refused-flushes :
      (v : W)
      → let found = p.wait_event_flag s.evid (ev_flush + ev_terminate) s.world in
        let refused = p.wait_sema s.semid found.1 in
        let later = p.delay_thread 1000 (p.set_event_flag s.evid ev_flush refused.1) in
        let again = p.wait_event_flag s.evid (ev_flush + ev_terminate) later in
        let taken = p.wait_sema s.semid again.1 in
        flag s.evid s.world ≡ true
        → has_event found.0 ev_terminate ≡ false
        → int_eq refused.0 (pos 0) ≡ false
        → int_eq taken.0 (pos 0) ≡ true
        → deliver_all p flags default_cb s.handlers s.vplid s.heap ms taken.1 ≡ some v
        → (s1 s2 : Sys W) × (event_round p flags default_cb fuel s ≡ ok false s1)
          × (event_round p flags default_cb fuel s1 ≡ ok (has_event again.0 ev_terminate) s2)
          × IsQueue s2 []
          × (s2.heap ≡ free_all s.heap ms)
          × (s2.world ≡ (
              if has_event again.0 ev_terminate
              then p.set_event_flag s.evid ev_stop_ok (p.signal_sema s.semid v).1
              else (p.signal_sema s.semid v).1))
  refused-flushes v due goes refused taken delivered =
      let found = p.wait_event_flag s.evid (ev_flush + ev_terminate) s.world in
      let w1 : W = (p.wait_sema s.semid found.1).1 in
      let s1 : Sys W = record s {
        world = p.delay_thread 1000 (p.set_event_flag s.evid ev_flush w1);
      } in
      let q1 : IsQueue s1 ms = record { chain = q.chain; distinct = q.distinct } in
      let due1 = laws.keeps.at_delay s.evid 1000 _ (laws.sets s.evid w1) in
      let (s2, run, empty, freed, left) =
        event_round-flushes p flags default_cb fuel s1 ms q1 enough v
          (laws.found s.evid s1.world due1) taken delivered in
      (
        s1,
        s2,
        event_round-refused p flags default_cb fuel s ms q enough (laws.found s.evid s.world due)
            goes refused,
        run,
        empty,
        freed,
        left,
      )
