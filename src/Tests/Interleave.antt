-- ===== src/Tests/Interleave.antt =====
-- Witnesses for the event thread among arriving messages: the platform's state is 1 while EV_FLUSH
-- is set.
use libkprintf.Platform.{Platform}
use libkprintf.Prelude.{
  ℤ, [], ℕ, Bool, ◌≡◌, Bool-cases, ◌∷◌, none, refl, some, arith, ◌==◌, if◌then◌else◌, inl, pos,
  true, inr,
}
use libkprintf.Kprintf.Queue.Chain.{IsQueue}
use libkprintf.Kprintf.{Sys, Ptr, null, Msg}
use libkprintf.Kprintf.Queue.Flush.{deliver_all, free_all}
use libkprintf.Kprintf.Events.{has_event, event_round}
use libkprintf.Kprintf.Hook.{kprintf_handler, ev_flush, ev_terminate}
use libkprintf.Kprintf.Interleave.{
  again, Reach, waiting, later, begin, arrive, wake, lock, read_head, invoke, read_next, remove,
  unlock_end,
}
use libkprintf.Kprintf.Queue.{write, fresh_msg, invoke_at, remove_delete_msg, store}
use libkprintf.Kprintf.Dispatch.{invoke_from, invoke_handlers}
use libkprintf.Kprintf.Interleave.Flags.{FlagLaws}
use libkprintf.Tests.Queue.{all_on}
use libkprintf.Tests.Demo.{table, busy, free_demo}
use libkprintf.Prelude.Run.{ok}
use libkprintf.Kprintf.Interleave.Safety.{waiting-flushes}
use libkprintf.Kprintf.Interleave.Texts.{deliveries, arrivals}
use libkprintf.Kprintf.Interleave.Positions.{InOrder}
use libkprintf.Kprintf.Interleave.Order.{Reach-InOrder}

abbrev flagged : Platform ℕ
flagged = record free_demo {
  set_event_flag = λ id bits w. if has_event bits ev_flush then 1 else w;
  wait_event_flag = λ id bits w. (w, 0);
}

abbrev is_set : ℤ → ℕ → Bool
is_set id w = w == 1

flagged-FlagLaws : FlagLaws flagged is_set
unfolding has_event
flagged-FlagLaws = record {
  sets = λ id w. refl;
  stays = λ id bits w on. elim (Bool-cases (has_event bits ev_flush)) [
    | inl flush ↦ rw flush refl
    | inr other ↦ rw other on
  ];
  found = λ id w on. let e : w ≡ 1 = ground arith in rw e refl;
  at_wait_sema = λ id sem w on. on;
  at_signal_sema = λ id sem w on. on;
  keeps = record {
    at_allocate = λ id vpl n w on. on;
    at_free = λ id vpl a w on. on;
    at_suspend = λ id w on. on;
    at_resume = λ id i w on. on;
    at_delay = λ id n w on. on;
    at_write = λ id fd text w on. on;
    at_callback = λ id cb arg text len size is_user w on. on;
    at_hook = λ id a w on. on;
  };
}

abbrev idle : Sys ℕ
idle = record busy { head = null; heap = λ a. none; world = 0 }

idle-IsQueue : IsQueue idle []
idle-IsQueue = record { chain = refl; distinct = tt }

-- The message "hi" has arrived, and the event thread waits still.
abbrev one_due : Sys ℕ
one_due = record idle {
  head = 0x1000;
  heap = write (λ a. none) 0x1000 (some (fresh_msg (b'h' ∷ b'i' ∷ 0 ∷ []) 2 true));
  world = 1;
}

one_due-Reach : Reach flagged all_on 0x70 idle waiting one_due
unfolding kprintf_handler has_event
one_due-Reach = later begin (arrive 3 0 0 true (pos 2) (λ n got. (omega arith, refl)) refl)

one_due-IsQueue : IsQueue one_due (0x1000 ∷ [])
unfolding write fresh_msg
one_due-IsQueue = record {
  chain = (refl, omega arith, (fresh_msg (b'h' ∷ b'i' ∷ 0 ∷ []) 2 true, refl, refl));
  distinct = (tt, tt);
}

one_due-delivered :
    deliver_all flagged all_on 0x70 table (pos 1) one_due.heap (0x1000 ∷ []) 0 ≡ some 0
unfolding deliver_all invoke_from fresh_msg write
one_due-delivered = refl

waiting-flushes_example :
    (s' : Sys ℕ) × (event_round flagged all_on 0x70 3 one_due ≡ ok (has_event 1 ev_terminate) s')
    × IsQueue s' []
    × (s'.heap ≡ free_all one_due.heap (0x1000 ∷ []))
    × (s'.world ≡ 0)
unfolding has_event
waiting-flushes_example =
    waiting-flushes flagged all_on 0x70 is_set flagged-FlagLaws idle one_due 3 (0x1000 ∷ []) 0
      idle-IsQueue one_due-Reach one_due-IsQueue (λ e. cc) (omega arith) refl one_due-delivered

-- The message "hi" is delivered and removed, and the event thread waits again.
abbrev hi : Msg
hi = fresh_msg (b'h' ∷ b'i' ∷ 0 ∷ []) 2 true

abbrev hi_done : Sys ℕ
hi_done = record idle { heap = write (write one_due.heap 0x1000 (some hi)) 0x1000 none }

hi_done-Reach : Reach flagged all_on 0x70 idle waiting hi_done
unfolding has_event invoke_at invoke_handlers invoke_from remove_delete_msg fresh_msg write store
hi_done-Reach =
    later
      (later
        (later
          (later
            (later (later (later (later one_due-Reach (wake refl refl)) (lock refl refl)) read_head)
              (invoke hi (omega arith) refl refl))
            (read_next hi refl))
          (remove 3 (pos 0) refl))
        (unlock_end refl))
      (again refl)

hi_done-clean : (b : Ptr) → idle.heap b ≡ none
hi_done-clean b = refl

Reach-InOrder_example : InOrder (arrivals hi_done-Reach) (deliveries hi_done-Reach) waiting hi_done
Reach-InOrder_example =
    Reach-InOrder flagged all_on 0x70 is_set flagged-FlagLaws idle-IsQueue hi_done-clean
      hi_done-Reach
