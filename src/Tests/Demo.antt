-- ===== src/Tests/Demo.antt =====
-- A small platform: its state is the count of the one semaphore. Callbacks change nothing.
use libkprintf.Platform.{Platform}
use libkprintf.Kprintf.{Msg, Sys, Ptr, Heap, is_started, started, RegHandler, null, free_slot}
use libkprintf.Prelude.{
  List, ℕ, ◌≡◌, arith, pos, if◌then◌else◌, true, is_neg, ◌∷◌, zero, refl, false, negsuc, [], suc,
  ◌==◌, replicate, ◌+◌, some, none,
}
use libkprintf.Kprintf.Handlers.Slots.{registered}
use libkprintf.Kprintf.Queue.Chain.{IsQueue}
use libkprintf.Platform.Laws.{SemaWorks, SemaLaws}
use libkprintf.Kprintf.Handlers.Cases.{IsTable}

abbrev pub demo : Platform ℕ
demo = record {
  wait_sema = λ id w. elim w [ zero ↦ (negsuc 0, 0) | suc n ↦ (pos 0, n) ];
  signal_sema = λ id w. (pos 0, suc w);
  try_allocate_vpl = λ id n w. (pos 0, 0x1000, w);
  free_vpl = λ id a w. (pos 0, w);
  suspend_intr = λ w. (1, w);
  resume_intr = λ i w. w;
  set_event_flag = λ id bits w. w;
  wait_event_flag = λ id bits w. (bits, w);
  create_vpl = λ n w. (pos 1, w);
  create_event_flag = λ w. (pos 2, w);
  create_sema = λ n m w. (pos 3, w);
  create_thread = λ n m w. (pos 4, w);
  delete_vpl = λ id w. w;
  delete_event_flag = λ id w. w;
  delete_sema = λ id w. w;
  start_thread = λ id w. (pos 0, w);
  terminate_delete_thread = λ id w. w;
  delay_thread = λ n w. w;
  find_psplink = λ w. (false, w);
  dipsw_set = λ r w. (pos 0, w);
  register_kprintf_handler = λ a w. w;
  stdout = λ w. (pos 1, w);
  io_write = λ fd text w. w;
  vsnprintf = λ n fmt va w. (pos 2, b'h' ∷ b'i' ∷ 0 ∷ []);
  callback =
      λ cb arg text len size is_user w. record { res = pos 0; text = text; len = len; world = w };
}

-- The same with a semaphore that is always free.
abbrev pub free_demo : Platform ℕ
free_demo = record demo { wait_sema = λ id w. (pos 0, w); signal_sema = λ id w. (pos 0, w) }

pub free_demo-SemaWorks : SemaWorks free_demo
free_demo-SemaWorks = record { waits = λ id w. refl; signals = λ id w. refl }

wait_takes :
    (w : ℕ) → is_neg (demo.wait_sema (pos 0) w).0 ≡ false → (demo.wait_sema (pos 0) w).1 + 1 ≡ w
wait_takes zero e = absurd (cc)
wait_takes (suc w) e = omega arith

wait_fails : (w : ℕ) → is_neg (demo.wait_sema (pos 0) w).0 ≡ true → (demo.wait_sema (pos 0) w).1 ≡ w
wait_fails zero e = refl
wait_fails (suc w) e = absurd (cc)

pub demo-SemaLaws : SemaLaws demo (λ id w. w)
demo-SemaLaws = record {
  wait_takes = λ id w. wait_takes w;
  wait_fails = λ id w. wait_fails w;
  signal_gives = λ id w e. omega arith;
}

abbrev pub slot : ℕ → ℕ → RegHandler
slot cb arg = record { cb = cb; arg = pos arg }

-- A started module with the default handler in slot 0, slot 1 free, and a handler in slot 2.
abbrev pub table : List RegHandler
table = slot 0x80 1 ∷ free_slot ∷ slot 0x90 7 ∷ free_slot ∷ free_slot ∷ free_slot ∷ []

abbrev pub msg_at : Ptr → List ℕ → Msg
msg_at next text = record { next = next; is_user = true; len = 2; size = 18; text = text }

abbrev pub first_msg : Msg
first_msg = msg_at 0x20 (b'h' ∷ b'i' ∷ replicate 16 0)

abbrev pub second_msg : Msg
second_msg = msg_at null (b'y' ∷ b'o' ∷ replicate 16 0)

abbrev pub third_msg : Msg
third_msg = msg_at null (b'o' ∷ b'k' ∷ replicate 16 0)

-- Two queued messages, and a third one beside the queue.
abbrev pub two_msgs : Heap
two_msgs a =
    if a == 0x10
    then some first_msg
    else if a == 0x20
    then some second_msg
    else if a == 0x30
    then some third_msg
    else none

abbrev pub busy : Sys ℕ
busy = record {
  state = started;
  stdout = pos 1;
  vplid = pos 1;
  evid = pos 2;
  semid = pos 3;
  thid = pos 4;
  default_handler_index = pos 0;
  handler_count = 2;
  handlers = table;
  head = 0x10;
  heap = two_msgs;
  k1 = 0;
  world = 1;
}

pub busy-IsTable : IsTable busy
unfolding registered
busy-IsTable = record {
  slots = refl;
  counted = refl;
  zeros = (λ e. cc, (λ e. refl, (λ e. cc, (λ e. refl, (λ e. refl, (λ e. refl, tt))))));
  default_valid = (slot 0x80 1, refl, omega arith);
}

pub busy_on : is_started busy.state ≡ true
unfolding is_started
busy_on = refl

pub busy-IsQueue : IsQueue busy (0x10 ∷ 0x20 ∷ [])
busy-IsQueue = record {
  chain = (refl, omega arith, (first_msg, refl, (refl, omega arith, (second_msg, refl, refl))));
  distinct = ((omega arith, tt), (tt, tt));
}
