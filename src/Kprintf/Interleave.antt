-- ===== src/Kprintf/Interleave.antt =====
-- event.c, handler.c and startup.c together: the event thread in its loop, one access of the queue
-- at a time, while Kprintf messages arrive and _stop runs at any point. kprintf_handler and
-- remove_delete_msg run with interrupts disabled: nothing comes between their accesses.
pub mod Flags
pub mod Texts
pub mod Arrivals
pub mod Pending
pub mod Moves
pub mod Safety
pub mod Positions
pub mod Order
pub mod Stopping
pub mod Shutdown
use libkprintf.Prelude.{ℕ, Bool, is_neg, ◌≡◌, ℤ, false, ◌≢◌, none, ◌+◌, true, int_eq, pos, some}
use libkprintf.Platform.{Platform}
use libkprintf.Kprintf.{Ptr, HandlerFlags, Sys, null, Msg, is_started, stopped}
use libkprintf.Kprintf.Hook.{kprintf_handler, ev_flush, ev_terminate, ev_stop_ok}
use libkprintf.Prelude.Run.{ok}
use libkprintf.Kprintf.Events.{has_event}
use libkprintf.Kprintf.Queue.{invoke_at, remove_delete_msg}
use libkprintf.Kprintf.Queue.Fresh.{PoolGives}

-- Where the event thread stands. `ev` are the events that it has found, `m` the message that it is
-- at, `next` the local `n` of flush_messages.
pub data Pc : Type 0 where
  waiting : Pc  -- in sceKernelWaitEventFlagCB
  woken : (ev : ℕ) → Pc
  locked : (ev : ℕ) → Pc  -- at the start of flush_messages
  at_msg : (m : Ptr) (ev : ℕ) → Pc  -- at the test `m != NULL`
  invoked : (m : Ptr) (ev : ℕ) → Pc  -- behind invoke_handlers
  next_read : (m next : Ptr) (ev : ℕ) → Pc  -- before remove_delete_msg
  flush_done : (ev : ℕ) → Pc  -- before the test of EV_TERMINATE
  ended : Pc

module _ {W : Type 0} (p : Platform W) (flags : HandlerFlags) (default_cb : Ptr) where
  pub data Step : Pc → Sys W → Pc → Sys W → Type 0 where
    -- a message arrives, whatever the event thread is doing
    arrive :
        {pc : Pc} {s s' : Sys W} (fuel fmt va : ℕ) (is_user : Bool) (ret : ℤ)
        → PoolGives p s
        → kprintf_handler p fuel fmt va is_user s ≡ ok ret s'
        → Step pc s pc s'
    -- _stop, behind its message: the hook is gone and the module is stopped,
    unhook :
        {pc : Pc} {s : Sys W}
        → is_started s.state ≡ true
        → Step pc s pc
            (record s { state = stopped; world = p.register_kprintf_handler null s.world })
    -- and then the event thread is asked to flush and to end.
    ask_end :
        {pc : Pc} {s : Sys W}
        → is_started s.state ≡ false
        → Step pc s pc
            (record s { world = p.set_event_flag s.evid (ev_flush + ev_terminate) s.world })
    wake :
        {s s' : Sys W} {ev : ℕ}
        → ev ≡ (p.wait_event_flag s.evid (ev_flush + ev_terminate) s.world).0
        → s' ≡ record s { world = (p.wait_event_flag s.evid (ev_flush + ev_terminate) s.world).1 }
        → Step waiting s (woken ev) s'
    no_flush :
        {s : Sys W} {ev : ℕ} → has_event ev ev_flush ≡ false → Step (woken ev) s (flush_done ev) s
    lock :
        {s : Sys W} {ev : ℕ}
        → has_event ev ev_flush ≡ true
        → int_eq (p.wait_sema s.semid s.world).0 (pos 0) ≡ true
        → Step (woken ev) s (locked ev) (record s { world = (p.wait_sema s.semid s.world).1 })
    refuse :
        {s s' : Sys W} {ev : ℕ}
        → has_event ev ev_flush ≡ true
        → int_eq (p.wait_sema s.semid s.world).0 (pos 0) ≡ false
        → s' ≡ record s {
          world =
              p.delay_thread 1000
                (p.set_event_flag s.evid ev_flush (p.wait_sema s.semid s.world).1);
        }
        → Step (woken ev) s (flush_done ev) s'
    read_head : {s : Sys W} {ev : ℕ} → Step (locked ev) s (at_msg s.head ev) s
    invoke :
        {s s' : Sys W} {m : Ptr} {ev : ℕ} (before : Msg)
        → m ≢ null
        → s.heap m ≡ some before
        → invoke_at p flags default_cb m before s ≡ ok tt s'
        → Step (at_msg m ev) s (invoked m ev) s'
    read_next :
        {s : Sys W} {m : Ptr} {ev : ℕ} (after : Msg)
        → s.heap m ≡ some after
        → Step (invoked m ev) s (next_read m after.next ev) s
    remove :
        {s s' : Sys W} {m next : Ptr} {ev : ℕ} (fuel : ℕ) (ret : ℤ)
        → remove_delete_msg p fuel m s ≡ ok ret s'
        → Step (next_read m next ev) s (at_msg next ev) s'
    unlock_end :
        {s : Sys W} {m : Ptr} {ev : ℕ}
        → m ≡ null
        → Step
            (at_msg m ev)
            s
            (flush_done ev)
            (record s { world = (p.signal_sema s.semid s.world).1 })
    again :
        {s : Sys W} {ev : ℕ} → has_event ev ev_terminate ≡ false → Step (flush_done ev) s waiting s
    terminate :
        {s : Sys W} {ev : ℕ}
        → has_event ev ev_terminate ≡ true
        → Step
            (flush_done ev)
            s
            ended
            (record s { world = p.set_event_flag s.evid ev_stop_ok s.world })

  -- What can follow from the state in which the event thread first waits.
  pub data Reach (start : Sys W) : Pc → Sys W → Type 0 where
    begin : Reach start waiting start
    later : {pc pc' : Pc} {s s' : Sys W} → Reach start pc s → Step pc s pc' s' → Reach start pc' s'
