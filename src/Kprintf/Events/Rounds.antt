-- ===== src/Kprintf/Events/Rounds.antt =====
-- event.c: what one round of the event loop does to the queue.
use libkprintf.Platform.{Platform}
use libkprintf.Kprintf.{HandlerFlags, Ptr, Sys, null}
use libkprintf.Prelude.{
  ℕ, List, length, ◌<◌, ◌≡◌, ◌+◌, Bool-cases, true, int_eq, inl, false, pos, inr, refl, some, [],
  if◌then◌else◌,
}
use libkprintf.Kprintf.Queue.Chain.{IsQueue}
use libkprintf.Kprintf.Events.{on_terminate, event_round, on_flush, has_event}
use libkprintf.Kprintf.Hook.{set_event, ev_flush, ev_terminate, ev_stop_ok}
use libkprintf.Kprintf.Queue.Flush.{flushed, deliver_all, free_all, flush_messages-flushed}
use libkprintf.Prelude.Run.{ok}

module _ {W : Type 0} (p : Platform W) (flags : HandlerFlags) (default_cb : Ptr) (fuel : ℕ)
    (s : Sys W) (ms : List Ptr) (q : IsQueue s ms) (enough : length ms < fuel) where
  -- What the round's end leaves of the platform: EV_STOP_OK is set where EV_TERMINATE was found.
  abbrev pub closed : ℕ → W → W
  closed ev w = if has_event ev ev_terminate then p.set_event_flag s.evid ev_stop_ok w else w

  on_terminate-runs :
      (ev : ℕ) (t : Sys W)
      → t.evid ≡ s.evid
      → on_terminate p flags default_cb fuel ev t
        ≡ ok (has_event ev ev_terminate) (record t { world = closed ev t.world })
  unfolding on_terminate set_event
  on_terminate-runs ev t same = elim (Bool-cases (has_event ev ev_terminate)) [
    | inl ends ↦ rw (ends, same) refl
    | inr goes ↦ rw goes refl
  ]

  -- With more fuel than messages, a round that finds EV_FLUSH set and gets the semaphore, where no
  -- handler goes out of bounds, ends with the queue empty, its blocks free and the platform as the
  -- handlers of all messages leave it, in the order of the queue, with the semaphore given back; it
  -- ends the thread exactly if EV_TERMINATE was set as well.
  pub event_round-flushes :
      (v : W)
      → let r = p.wait_event_flag s.evid (ev_flush + ev_terminate) s.world in
        let taken = p.wait_sema s.semid r.1 in
        has_event r.0 ev_flush ≡ true
        → int_eq taken.0 (pos 0) ≡ true
        → deliver_all p flags default_cb s.handlers s.vplid s.heap ms taken.1 ≡ some v
        → (s' : Sys W) × (event_round p flags default_cb fuel s
            ≡ ok (has_event r.0 ev_terminate) s')
          × IsQueue s' []
          × (s'.heap ≡ free_all s.heap ms)
          × (s'.world ≡ closed r.0 (p.signal_sema s.semid v).1)
  unfolding event_round on_flush flushed
  event_round-flushes v flush got delivered =
      let r = p.wait_event_flag s.evid (ev_flush + ev_terminate) s.world in
      let taken = p.wait_sema s.semid r.1 in
      let s1 : Sys W = record s { world = taken.1 } in
      let q1 : IsQueue s1 ms = record { chain = q.chain; distinct = q.distinct } in
      let run = flush_messages-flushed p flags default_cb fuel ms s1 q1 enough in
      let s2 : Sys W = record s {
        head = null;
        heap = free_all s.heap ms;
        world = (p.signal_sema s.semid v).1;
      } in
      (
        record s2 { world = closed r.0 s2.world },
        rw (flush, got, run, delivered, on_terminate-runs r.0 s2 refl),
        record { chain = refl; distinct = tt },
        refl,
        refl,
      )

  -- A round that finds EV_FLUSH set and does not get the semaphore.
  pub event_round-refused :
      let r = p.wait_event_flag s.evid (ev_flush + ev_terminate) s.world in
      let taken = p.wait_sema s.semid r.1 in
      has_event r.0 ev_flush ≡ true
      → has_event r.0 ev_terminate ≡ false
      → int_eq taken.0 (pos 0) ≡ false
      → event_round p flags default_cb fuel s
        ≡ ok false
            (record s { world = p.delay_thread 1000 (p.set_event_flag s.evid ev_flush taken.1) })
  unfolding event_round on_flush on_terminate set_event
  event_round-refused flush goes refused = rw (flush, goes, refused) refl
