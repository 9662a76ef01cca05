-- ===== src/Tests/Shared.antt =====
-- A platform whose state is 1 while EV_FLUSH is set, and the units of the semaphore.
use libkprintf.Prelude.{
  ℕ, ◌≡◌, is_neg, ℤ, int_eq, arith, suc, false, [], Bool, negsuc, pos, true, none, ◌==◌,
  if◌then◌else◌, refl, Bool-cases, ◌+◌, zero, inl, ◌∷◌, inr,
}
use libkprintf.Platform.{Platform}
use libkprintf.Kprintf.Queue.Chain.{IsQueue}
use libkprintf.Kprintf.{Sys, started, null}
use libkprintf.Kprintf.Handlers.Slots.{registered}
use libkprintf.Kprintf.Exclusion.Steady.{UnitLaws}
use libkprintf.Kprintf.Interleave.Flags.{Keeps, FlagLaws}
use libkprintf.Kprintf.Hook.{ev_flush}
use libkprintf.Kprintf.Events.{has_event}
use libkprintf.Kprintf.Handlers.Cases.{IsTable}
use libkprintf.Tests.Demo.{table, slot}

abbrev pub Kernel : Type 0
Kernel = ℕ × ℕ

abbrev sema_after : ℕ → ℕ → ℤ × Kernel
sema_after flag zero = (negsuc 0, (flag, 0))
sema_after flag (suc n) = (pos 0, (flag, n))

abbrev pub shared : Platform Kernel
shared = record {
  wait_sema = λ id w. sema_after w.0 w.1;
  signal_sema = λ id w. (pos 0, (w.0, suc w.1));
  try_allocate_vpl = λ id n w. (pos 0, 0x1000, w);
  free_vpl = λ id a w. (pos 0, w);
  suspend_intr = λ w. (1, w);
  resume_intr = λ i w. w;
  set_event_flag = λ id bits w. (if has_event bits ev_flush then 1 else w.0, w.1);
  wait_event_flag = λ id bits w. (w.0, (0, w.1));
  create_vpl = λ n w. (pos 1, w);
  create_event_flag = λ w. (pos 2, w);
  create_sema = λ n m w. (pos 3, w);
  create_thread = λ n m w. (pos 4, w);
  delete_vpl = λ id w. w;
  delete_event_flag = λ id w. w;
  delete_sema = λ id w. w;
  start_thread = λ id w. (pos 0, w);
  terminate_delete_thread = λ id w. w;
  delay_thread = λ n w. w;
  find_psplink = λ w. (false, w);
  dipsw_set = λ r w. (pos 0, w);
  register_kprintf_handler = λ a w. w;
  stdout = λ w. (pos 1, w);
  io_write = λ fd text w. w;
  vsnprintf = λ n fmt va w. (pos 2, b'h' ∷ b'i' ∷ 0 ∷ []);
  callback =
      λ cb arg text len size is_user w. record { res = pos 0; text = text; len = len; world = w };
}

abbrev pub is_due : ℤ → Kernel → Bool
is_due id w = w.0 == 1

abbrev pub units_of : ℤ → Kernel → ℕ
units_of id w = w.1

keeps_all : (P : Kernel → Type 0) → Keeps shared (λ id w. P w)
keeps_all P = record {
  at_allocate = λ id vpl n w on. on;
  at_free = λ id vpl a w on. on;
  at_suspend = λ id w on. on;
  at_resume = λ id i w on. on;
  at_delay = λ id n w on. on;
  at_hook = λ id a w on. on;
  at_write = λ id fd text w on. on;
  at_callback = λ id cb arg text len size is_user w on. on;
}

same_flag : (f n : ℕ) → (sema_after f n).1.0 ≡ f
same_flag f zero = refl
same_flag f (suc n) = refl

pub shared-FlagLaws : FlagLaws shared is_due
unfolding has_event
shared-FlagLaws = record {
  sets = λ id w. refl;
  stays = λ id bits w on. elim (Bool-cases (has_event bits ev_flush)) [
    | inl flush ↦ rw flush refl
    | inr silent ↦ rw silent on
  ];
  found = λ id w on. let e : w.0 ≡ 1 = ground arith in rw e refl;
  at_wait_sema = λ id sem w on. rw (same_flag w.0 w.1) on;
  at_signal_sema = λ id sem w on. on;
  keeps = keeps_all (λ w. (w.0 == 1) ≡ true);
}

wait_takes : (f n : ℕ) → is_neg (sema_after f n).0 ≡ false → (sema_after f n).1.1 + 1 ≡ n
wait_takes f zero e = absurd (cc)
wait_takes f (suc n) e = omega arith

wait_fails : (f n : ℕ) → is_neg (sema_after f n).0 ≡ true → (sema_after f n).1.1 ≡ n
wait_fails f zero e = refl
wait_fails f (suc n) e = absurd (cc)

wait_result :
    (f n : ℕ) → int_eq (sema_after f n).0 (pos 0) ≡ false → is_neg (sema_after f n).0 ≡ true
wait_result f zero e = refl
wait_result f (suc n) e = absurd (cc)

pub shared-UnitLaws : UnitLaws shared units_of
shared-UnitLaws = record {
  sema = record {
    wait_takes = λ id w. wait_takes w.0 w.1;
    wait_fails = λ id w. wait_fails w.0 w.1;
    signal_gives = λ id w e. omega arith;
  };
  wait_result = λ id w. wait_result w.0 w.1;
  signal_fails = λ id w e. absurd (cc);
  at_wait_event = λ id flag bits w. refl;
  at_set_event = λ id flag bits w. refl;
  keeps = λ n. keeps_all (λ w. w.1 ≡ n);
}

-- A started module with two handlers and an empty queue.
abbrev pub calm : Sys Kernel
calm = record {
  state = started;
  stdout = pos 1;
  vplid = pos 1;
  evid = pos 2;
  semid = pos 3;
  thid = pos 4;
  default_handler_index = pos 0;
  handler_count = 2;
  handlers = table;
  head = null;
  heap = λ a. none;
  k1 = 0;
  world = (0, 1);
}

pub calm-IsQueue : IsQueue calm []
calm-IsQueue = record { chain = refl; distinct = tt }

pub calm-IsTable : IsTable calm
unfolding registered
calm-IsTable = record {
  slots = refl;
  counted = refl;
  zeros = (
    λ e. absurd (cc),
    (λ e. refl, (λ e. absurd (cc), (λ e. refl, (λ e. refl, (λ e. refl, tt))))),
  );
  default_valid = (slot 0x80 1, refl, omega arith);
}
