-- ===== src/Tests/Exclusion.antt =====
-- Witnesses for the threads at the table of handlers.
use libkprintf.Prelude.{ℕ, ◌≡◌, is_neg, ℤ, arith, false, [], pos, true, none, refl, some, ◌∷◌}
use libkprintf.Kprintf.Exclusion.{
  Stage, advance, Request, commit, testing, outside, register, choose, unregister, slot_of, writing,
  Reach, asking, used_slot, leaving, meanwhile, begin, later, enter, acquire, pick, put, leave,
  choose_used, clear_slot, IsGiven,
}
use libkprintf.Kprintf.Queue.Chain.{payload}
use libkprintf.Kprintf.{Sys, is_started, null, Msg, Ptr}
use libkprintf.Kprintf.Exclusion.Steady.{locks}
use libkprintf.Kprintf.History.Frames.{SameTable}
use libkprintf.Kprintf.Hook.{kprintf_handler}
use libkprintf.Kprintf.Exclusion.Parties.{party, holds}
use libkprintf.Kprintf.Events.{has_event}
use libkprintf.Kprintf.Exclusion.Serial.{Leads, answered, Reach-Serial}
use libkprintf.Kprintf.Interleave.{
  again, locked, read_head, arrive, waiting, wake, lock, invoke, read_next, remove, unlock_end,
}
use libkprintf.Kprintf.Handlers.Cases.{IsTable}
use libkprintf.Kprintf.Exclusion.Safety.{locks-SameTable, exclusive}
use libkprintf.Tests.Queue.{all_on}
use libkprintf.Kprintf.Handlers.{store_handler, find_free_from}
use libkprintf.Kprintf.Queue.{write, fresh_msg, invoke_at, remove_delete_msg, store}
use libkprintf.Kprintf.Exclusion.Channel.{given, queued, waiting-given}
use libkprintf.Kprintf.Dispatch.{invoke_handlers, invoke_from}
use libkprintf.Kprintf.Exclusion.Progress.{Finishes, holds-Finishes}
use libkprintf.Tests.Shared.{
  is_due, shared, Kernel, calm, shared-FlagLaws, units_of, shared-UnitLaws, calm-IsQueue,
  calm-IsTable,
}

abbrev first : Request
first = register 0xa0 (pos 5) false

abbrev second : Request
second = unregister (pos 2)

first-IsGiven : IsGiven first
first-IsGiven = omega arith

-- Thread 0 registers a handler and thread 1, in the midst of it, asks to remove another one.
abbrev both_ask : ℕ → Stage
both_ask = advance (advance (λ i. outside) 0 (asking first)) 1 (asking second)

abbrev first_done : ℕ → Stage
first_done =
    advance
      (advance (advance (advance both_ask 0 (testing first)) 0 (writing first 1)) 0
        (leaving (pos 1)))
      0 outside

abbrev second_left : ℕ → Stage
second_left =
    advance (advance (advance first_done 1 (testing second)) 1 (writing second 2)) 1
      (leaving (pos 0))

abbrev first_state : Sys Kernel
first_state = (commit first 1 (record calm { world = (0, 0) })).1

abbrev second_state : Sys Kernel
second_state = (commit second 2 (record first_state { world = (0, 0) })).1

both-Reach : Reach shared all_on 0x70 calm waiting second_left second_state
unfolding advance choose choose_used clear_slot commit slot_of used_slot store_handler
    find_free_from is_started
both-Reach =
    let asked =
      later (later begin (enter 0 first refl refl first-IsGiven)) (enter 1 second refl refl tt) in
    let wrote =
      later (later (later asked (acquire 0 first refl refl)) (pick 0 first 1 refl refl))
        (put 0 first 1 (pos 1) refl refl) in
    let next = later (later wrote (leave 0 (pos 1) refl)) (acquire 1 second refl refl) in
    later (later next (pick 1 second 2 refl refl)) (put 1 second 2 (pos 0) refl refl)

Reach-Serial_example :
    Leads (answered shared all_on 0x70 both-Reach) calm second_state × IsTable second_state
Reach-Serial_example =
    Reach-Serial shared all_on 0x70 is_due shared-FlagLaws units_of shared-UnitLaws calm-IsQueue
      calm-IsTable (omega arith) both-Reach

-- A message has arrived, the event thread is about to deliver it, and thread 0 waits to register a
-- handler.
abbrev one_asks : ℕ → Stage
one_asks = advance (λ i. outside) 0 (asking first)

abbrev delivering : Sys Kernel
delivering = record calm {
  head = 0x1000;
  heap = write (λ a. none) 0x1000 (some (fresh_msg (b'h' ∷ b'i' ∷ 0 ∷ []) 2 true));
  world = (0, 0);
}

delivering-Reach : Reach shared all_on 0x70 calm (locked 1) one_asks delivering
unfolding kprintf_handler has_event advance is_started
delivering-Reach =
    let arrived =
      later begin (meanwhile (arrive 3 0 0 true (pos 2) (λ n got. (omega arith, refl)) refl)) in
    let asked = later arrived (enter 0 first refl refl first-IsGiven) in
    later (later asked (meanwhile (wake refl refl))) (meanwhile (lock refl refl))

delivering_locks : party (locked 1) one_asks 0 ≡ true
unfolding party locks
delivering_locks = refl

exclusive_example : party (locked 1) one_asks 1 ≡ false
exclusive_example =
    exclusive shared all_on 0x70 is_due shared-FlagLaws units_of shared-UnitLaws calm-IsQueue
      calm-IsTable (omega arith) delivering-Reach 0 1 (omega arith) delivering_locks

now_locks : locks (locked 1) ≡ true
unfolding locks
now_locks = refl

locks-SameTable_example : SameTable delivering delivering
locks-SameTable_example =
    locks-SameTable shared all_on 0x70 is_due shared-FlagLaws units_of shared-UnitLaws calm-IsQueue
      calm-IsTable (omega arith) delivering-Reach (meanwhile read_head) now_locks

-- The message is delivered while thread 0 waits, which registers its handler behind it.
abbrev hi : Msg
hi = fresh_msg (b'h' ∷ b'i' ∷ 0 ∷ []) 2 true

abbrev hi_given : Sys Kernel
hi_given = record calm {
  heap = write (write delivering.heap 0x1000 (some hi)) 0x1000 none;
  world = (0, 1);
}

abbrev first_wrote : Sys Kernel
first_wrote = (commit first 1 (record hi_given { world = (0, 0) })).1

abbrev one_left : ℕ → Stage
one_left =
    advance (advance (advance one_asks 0 (testing first)) 0 (writing first 1)) 0 (leaving (pos 1))

hi_given-Reach : Reach shared all_on 0x70 calm waiting one_left first_wrote
unfolding has_event invoke_at invoke_handlers invoke_from remove_delete_msg fresh_msg write store
    advance choose clear_slot commit slot_of store_handler find_free_from
hi_given-Reach =
    let found = later delivering-Reach (meanwhile read_head) in
    let told = later found (meanwhile (invoke hi (omega arith) refl refl)) in
    let removed =
      later (later told (meanwhile (read_next hi refl))) (meanwhile (remove 3 (pos 0) refl)) in
    let free = later (later removed (meanwhile (unlock_end refl))) (meanwhile (again refl)) in
    later (later (later free (acquire 0 first refl refl)) (pick 0 first 1 refl refl))
      (put 0 first 1 (pos 1) refl refl)

first_wrote_clear : is_due first_wrote.evid first_wrote.world ≡ false
unfolding commit
first_wrote_clear = refl

waiting-given_example :
    (given hi_given-Reach ≡ queued hi_given-Reach)
    × (first_wrote.head ≡ null)
    × ((b : Ptr) → payload (first_wrote.heap b) ≡ none)
waiting-given_example =
    waiting-given shared all_on 0x70 is_due shared-FlagLaws units_of shared-UnitLaws calm-IsQueue
      calm-IsTable (omega arith) (λ b. refl) hi_given-Reach first_wrote_clear

first_wrote_holds : holds (one_left 0) ≡ true
unfolding holds advance
first_wrote_holds = refl

shared_signals : (id : ℤ) (w : Kernel) → is_neg (shared.signal_sema id w).0 ≡ false
shared_signals id w = refl

holds-Finishes_example : Finishes shared all_on 0x70 waiting 0 units_of one_left first_wrote
holds-Finishes_example =
    holds-Finishes shared all_on 0x70 is_due shared-FlagLaws units_of shared-UnitLaws calm-IsQueue
      calm-IsTable (omega arith) shared_signals 0 hi_given-Reach first_wrote_holds
