-- ===== src/Tests/Shutdown.antt =====
-- Witness for the end of the event thread: the platform's state are EV_FLUSH and EV_TERMINATE.
use libkprintf.Tests.Demo.{table}
use libkprintf.Kprintf.{Msg, is_started, Sys, started, stopped, null, Ptr}
use libkprintf.Kprintf.Events.{has_event}
use libkprintf.Kprintf.Interleave.Flags.{Keeps, FlagLaws, TermLaws}
use libkprintf.Kprintf.Hook.{kprintf_handler, ev_terminate, ev_flush}
use libkprintf.Kprintf.Queue.Chain.{IsQueue, payload}
use libkprintf.Platform.{Platform}
use libkprintf.Prelude.{
  Bool, pos, [], ℕ, ◌≡◌, Bool-cases, if◌then◌else◌, ◌∷◌, refl, false, true, ◌+◌, none, some, inl,
  inr, arith,
}
use libkprintf.Kprintf.Queue.{write, fresh_msg, invoke_at, remove_delete_msg, store}
use libkprintf.Kprintf.Dispatch.{invoke_handlers, invoke_from}
use libkprintf.Kprintf.Interleave.Texts.{deliveries, arrivals}
use libkprintf.Kprintf.Interleave.{
  later, begin, ask_end, unhook, Reach, ended, later, begin, arrive, unhook, ask_end, wake, lock,
  read_head, invoke, read_next, remove, unlock_end, terminate,
}
use libkprintf.Tests.Queue.{all_on}
use libkprintf.Kprintf.Interleave.Shutdown.{ended-delivered}

abbrev Latch : Type 0
Latch = Bool × Bool

-- The bits that are set.
abbrev bits_of : Bool → Bool → ℕ
bits_of flush term = (if flush then 1 else 0) + (if term then 2 else 0)

abbrev latched : Platform Latch
latched = record {
  wait_sema = λ id w. (pos 0, w);
  signal_sema = λ id w. (pos 0, w);
  try_allocate_vpl = λ id n w. (pos 0, 0x1000, w);
  free_vpl = λ id a w. (pos 0, w);
  suspend_intr = λ w. (1, w);
  resume_intr = λ i w. w;
  set_event_flag = λ id bits w. (
    if has_event bits ev_flush then true else w.0,
    if has_event bits ev_terminate then true else w.1,
  );
  wait_event_flag = λ id bits w. (bits_of w.0 w.1, (false, false));
  create_vpl = λ n w. (pos 1, w);
  create_event_flag = λ w. (pos 2, w);
  create_sema = λ n m w. (pos 3, w);
  create_thread = λ n m w. (pos 4, w);
  delete_vpl = λ id w. w;
  delete_event_flag = λ id w. w;
  delete_sema = λ id w. w;
  start_thread = λ id w. (pos 0, w);
  terminate_delete_thread = λ id w. w;
  delay_thread = λ n w. w;
  find_psplink = λ w. (false, w);
  dipsw_set = λ r w. (pos 0, w);
  register_kprintf_handler = λ a w. w;
  stdout = λ w. (pos 1, w);
  io_write = λ fd text w. w;
  vsnprintf = λ n fmt va w. (pos 2, b'h' ∷ b'i' ∷ 0 ∷ []);
  callback =
      λ cb arg text len size is_user w. record { res = pos 0; text = text; len = len; world = w };
}

found_flush : (a b : Bool) → a ≡ true → has_event (bits_of a b) ev_flush ≡ true
unfolding has_event
found_flush true true e = refl
found_flush true false e = refl
found_flush false b e = absurd (cc)

missed_term : (a b : Bool) → b ≡ false → has_event (bits_of a b) ev_terminate ≡ false
unfolding has_event
missed_term true false e = refl
missed_term false false e = refl
missed_term a true e = absurd (cc)

-- Only the event flag's own calls change a state.
keeps_all : (P : Latch → Type 0) → Keeps latched (λ id w. P w)
keeps_all P = record {
  at_allocate = λ id vpl n w on. on;
  at_free = λ id vpl a w on. on;
  at_suspend = λ id w on. on;
  at_resume = λ id i w on. on;
  at_delay = λ id n w on. on;
  at_hook = λ id a w on. on;
  at_write = λ id fd text w on. on;
  at_callback = λ id cb arg text len size is_user w on. on;
}

latched-FlagLaws : FlagLaws latched (λ id w. w.0)
unfolding has_event
latched-FlagLaws = record {
  sets = λ id w. refl;
  stays = λ id bits w on. elim (Bool-cases (has_event bits ev_flush)) [
    | inl flush ↦ rw flush refl
    | inr other ↦ rw other on
  ];
  found = λ id w on. found_flush w.0 w.1 on;
  at_wait_sema = λ id sem w on. on;
  at_signal_sema = λ id sem w on. on;
  keeps = keeps_all (λ w. w.0 ≡ true);
}

latched-TermLaws : TermLaws latched (λ id w. w.1)
unfolding has_event
latched-TermLaws = record {
  not_found = λ id w off. missed_term w.0 w.1 off;
  at_wait = λ id bits w off. refl;
  at_flush = λ id w off. off;
  at_wait_sema = λ id sem w on. on;
  at_signal_sema = λ id sem w on. on;
  keeps = keeps_all (λ w. w.1 ≡ false);
}

abbrev quiet : Sys Latch
quiet = record {
  state = started;
  stdout = pos 1;
  vplid = pos 1;
  evid = pos 2;
  semid = pos 3;
  thid = pos 4;
  default_handler_index = pos 0;
  handler_count = 2;
  handlers = table;
  head = null;
  heap = λ a. none;
  k1 = 0;
  world = (false, false);
}

quiet-IsQueue : IsQueue quiet []
quiet-IsQueue = record { chain = refl; distinct = tt }

abbrev hi : Msg
hi = fresh_msg (b'h' ∷ b'i' ∷ 0 ∷ []) 2 true

-- Once the message "hi" has arrived, been delivered and removed, and the module is stopped.
abbrev stopped_done : Sys Latch
stopped_done = record quiet {
  state = stopped;
  heap = write (write (write (λ a. none) 0x1000 (some hi)) 0x1000 (some hi)) 0x1000 none;
}

-- The message arrives, _stop runs, and the event thread does its last round.
stopped_done-Reach : Reach latched all_on 0x70 quiet ended stopped_done
unfolding kprintf_handler has_event invoke_at invoke_handlers invoke_from remove_delete_msg
    fresh_msg write store is_started
stopped_done-Reach =
    let arrived = later begin (arrive 3 0 0 true (pos 2) (λ n got. (omega arith, refl)) refl) in
    let asked = later (later arrived (unhook refl)) (ask_end refl) in
    let found = later (later (later asked (wake refl refl)) (lock refl refl)) read_head in
    let delivered = later (later found (invoke hi (omega arith) refl refl)) (read_next hi refl) in
    later (later (later delivered (remove 3 (pos 0) refl)) (unlock_end refl)) (terminate refl)

ended-delivered_example :
    (is_started stopped_done.state ≡ false)
    × (deliveries stopped_done-Reach ≡ arrivals stopped_done-Reach)
    × (stopped_done.head ≡ null)
    × ((b : Ptr) → payload (stopped_done.heap b) ≡ none)
ended-delivered_example =
    ended-delivered latched all_on 0x70 (λ id w. w.0) latched-FlagLaws (λ id w. w.1)
      latched-TermLaws (λ id w. refl) quiet-IsQueue (λ b. refl) (λ on. refl) stopped_done-Reach
