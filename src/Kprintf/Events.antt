-- ===== src/Kprintf/Events.antt =====
-- event.c: the thread that waits for events and flushes the queue.
pub mod Rounds
pub mod Retry
use libkprintf.Prelude.Run.{◌>>◌, ok, Cmd}
use libkprintf.Prelude.{ℕ, Bool, not, bit_and, ◌==◌, ◌+◌, if◌then◌else◌, int_eq, false, pos, true}
use libkprintf.Platform.{Platform}
use libkprintf.Kprintf.{HandlerFlags, Ptr, Sys}
use libkprintf.Kprintf.Hook.{set_event, ev_flush, ev_terminate, ev_stop_ok}
use libkprintf.Kprintf.Queue.{flush_messages}

-- `(ev & bit) != 0`
unfoldable pub has_event : ℕ → ℕ → Bool
has_event ev bit = not (bit_and ev bit == 0)

module _ {W : Type 0} (p : Platform W) where
  module _ (flags : HandlerFlags) (default_cb : Ptr) (fuel : ℕ) where
    -- The branch of EV_FLUSH.
    unfoldable pub on_flush : Cmd (Sys W) (Unit {0})
    unfolding flush_messages set_event
    on_flush s =
        let (ret, w) = p.wait_sema s.semid s.world in
        let s1 : Sys W = record s { world = w } in
        if int_eq ret (pos 0)
        then (do
          flush_messages p flags default_cb fuel
          λ t. ok tt (record t { world = (p.signal_sema t.semid t.world).1 }))
            s1
        else (do
          set_event p fuel ev_flush
          λ t. ok tt (record t { world = p.delay_thread 1000 t.world }))
            s1

    -- The branch of EV_TERMINATE: true ends the thread.
    unfoldable pub on_terminate : ℕ → Cmd (Sys W) Bool
    unfolding has_event set_event
    on_terminate ev =
        if has_event ev ev_terminate then (do set_event p fuel ev_stop_ok; ok true) else ok false

    -- One round of the event loop.
    unfoldable pub event_round : Cmd (Sys W) Bool
    unfolding has_event on_flush on_terminate
    event_round s =
        let (ev, w) = p.wait_event_flag s.evid (ev_flush + ev_terminate) s.world in
        (do if has_event ev ev_flush then on_flush else ok tt; on_terminate ev)
          (record s { world = w })
