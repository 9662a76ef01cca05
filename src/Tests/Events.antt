-- ===== src/Tests/Events.antt =====
-- Witness for the rounds of the event loop: the platform's state is 1 or 3 while EV_FLUSH is set, and 2
-- or 3 while the next wait for the semaphore is refused.
use libkprintf.Prelude.{
  ℕ, ◌%◌, ℤ, ◌∷◌, Bool, ◌==◌, [], arith, if◌then◌else◌, ◌≡◌, ◌/◌, true, some, false, Bool-cases,
  refl, pos, inl, negsuc, inr, ◌*◌, ◌+◌,
}
use libkprintf.Platform.{Platform}
use libkprintf.Kprintf.Events.{has_event, event_round}
use libkprintf.Kprintf.{Sys}
use libkprintf.Kprintf.Queue.Chain.{IsQueue}
use libkprintf.Kprintf.Queue.Flush.{deliver_all, free_all}
use libkprintf.Tests.Demo.{busy, free_demo, busy-IsQueue}
use libkprintf.Kprintf.Interleave.Flags.{FlagLaws}
use libkprintf.Kprintf.Dispatch.{invoke_from}
use libkprintf.Kprintf.Hook.{ev_terminate, ev_flush}
use libkprintf.Tests.Queue.{all_on}
use libkprintf.Prelude.Run.{ok}
use libkprintf.Kprintf.Events.Retry.{refused-flushes}

abbrev refusing : Platform ℕ
refusing = record free_demo {
  wait_sema = λ id w. if w / 2 == 0 then (pos 0, w) else (negsuc 0, w % 2);
  set_event_flag = λ id bits w. if has_event bits ev_flush then w / 2 * 2 + 1 else w;
  wait_event_flag = λ id bits w. (w % 2, w / 2 * 2);
}

abbrev is_odd : ℤ → ℕ → Bool
is_odd id w = w % 2 == 1

odd_after : (w : ℕ) → (w % 2 == 1) ≡ true → (w % 2 % 2 == 1) ≡ true
odd_after w e = ground arith

refusing-FlagLaws : FlagLaws refusing is_odd
unfolding has_event
refusing-FlagLaws = record {
  sets = λ id w. ground arith;
  stays = λ id bits w on. elim (Bool-cases (has_event bits ev_flush)) [
    | inl flush ↦ rw flush (ground arith)
    | inr silent ↦ rw silent on
  ];
  found = λ id w on. let e : w % 2 ≡ 1 = ground arith in rw e refl;
  at_wait_sema = λ id sem w on. elim (Bool-cases (w / 2 == 0)) [
    | inl given ↦ rw given on
    | inr refused ↦ rw refused (odd_after w on)
  ];
  at_signal_sema = λ id sem w on. on;
  keeps = record {
    at_allocate = λ id vpl n w on. on;
    at_free = λ id vpl a w on. on;
    at_suspend = λ id w on. on;
    at_resume = λ id i w on. on;
    at_delay = λ id n w on. on;
    at_hook = λ id a w on. on;
    at_write = λ id fd text w on. on;
    at_callback = λ id cb arg text len size is_user w on. on;
  };
}

abbrev locked : Sys ℕ
locked = record busy { world = 3 }

locked-IsQueue : IsQueue locked (0x10 ∷ 0x20 ∷ [])
locked-IsQueue = record { chain = busy-IsQueue.chain; distinct = busy-IsQueue.distinct }

goes_on : has_event 1 ev_terminate ≡ false
unfolding has_event
goes_on = refl

locked-delivered :
    deliver_all refusing all_on 0x70 locked.handlers locked.vplid locked.heap (0x10 ∷ 0x20 ∷ []) 0
    ≡ some 0
unfolding deliver_all invoke_from
locked-delivered = refl

refused-flushes_example :
    (s1 s2 : Sys ℕ) × (event_round refusing all_on 0x70 3 locked ≡ ok false s1)
    × (event_round refusing all_on 0x70 3 s1 ≡ ok false s2)
    × IsQueue s2 []
    × (s2.heap ≡ free_all locked.heap (0x10 ∷ 0x20 ∷ []))
    × (s2.world ≡ 0)
unfolding has_event
refused-flushes_example =
    refused-flushes refusing all_on 0x70 is_odd refusing-FlagLaws 3 locked (0x10 ∷ 0x20 ∷ [])
      locked-IsQueue (omega arith) 0 refl goes_on refl refl locked-delivered
