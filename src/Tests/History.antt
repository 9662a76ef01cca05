-- ===== src/Tests/History.antt =====
-- Witness for the module's history: the demo platform with its semaphore free.
use libkprintf.Kprintf.Startup.{start}
use libkprintf.Prelude.{
  List, ℕ, ◌≡◌, false, pos, refl, true, some, arith, Option, ℤ, none, inl, inr,
}
use libkprintf.Kprintf.{Sys, loaded, HandlerFlags, Msg}
use libkprintf.Kprintf.History.{History, unregister, register, started_up, register_default}
use libkprintf.Kprintf.Handlers.Cases.{IsTable}
use libkprintf.Tests.Demo.{demo}
use libkprintf.Kprintf.History.Tables.{History-IsTable}
use libkprintf.Kprintf.Api.{
  kprintf_unregister_handler, kprintf_register_handler, kprintf_register_default_handler,
}
use libkprintf.Kprintf.Hook.{kprintf_handler}
use libkprintf.Kprintf.History.Chains.{HasQueue, History-HasQueue, ByHook}
use libkprintf.Prelude.Run.{Run, ok, fault, out_of_fuel}

abbrev first : Sys ℕ
first = (start demo 0x80 (loaded 1)).1

abbrev second : Sys ℕ
second = (kprintf_register_handler demo 0x90 (pos 7) first).1

abbrev third : Sys ℕ
third = (kprintf_unregister_handler demo (pos 0) second).1

starts : start demo 0x80 (loaded 1) ≡ (0, first)
unfolding start loaded
starts = refl

abbrev options : HandlerFlags
options = record {
  auto_register = true;
  auto_newline = false;
  write_kprintf = true;
  write_printf = true;
}

abbrev silent : List ℕ → Sys ℕ → Sys ℕ
silent text s = s

used : History demo options 0x80 0x88 silent third
unfolding kprintf_register_handler start loaded kprintf_unregister_handler
used = unregister (pos 0) (pos 0) (register 0x90 (pos 7) (pos 0) (started_up 1 starts) refl) refl

History-IsTable_example : IsTable third
History-IsTable_example =
    History-IsTable demo options 0x80 0x88 silent (λ text s. (refl, refl, refl)) third used

-- What is left when kprintf_handler returns; where it does not, nothing has happened.
abbrev left : Sys ℕ → Run (Sys ℕ) ℤ → Sys ℕ
left s (ok ret t) = t
left s fault = s
left s out_of_fuel = s

-- The kernel's Kprintf with kprintf_handler registered, while the pool's one block is free.
abbrev run_hook : Option Msg → Sys ℕ → Sys ℕ
run_hook none s = left s (kprintf_handler demo 3 0 0 false s)
run_hook (some m) s = s

abbrev hooked : List ℕ → Sys ℕ → Sys ℕ
hooked text s = run_hook (s.heap 0x1000) s

left-ByHook :
    (s : Sys ℕ) (r : Run (Sys ℕ) ℤ)
    → s.heap 0x1000 ≡ none
    → kprintf_handler demo 3 0 0 false s ≡ r
    → ByHook demo s (left s r)
left-ByHook s (ok ret t) free e = (s.world, inr (3, 0, 0, ret, (λ n got. (omega arith, free)), e))
left-ByHook s fault free e = (s.world, inl refl)
left-ByHook s out_of_fuel free e = (s.world, inl refl)

run_hook-ByHook : (s : Sys ℕ) (m : Option Msg) → s.heap 0x1000 ≡ m → ByHook demo s (run_hook m s)
run_hook-ByHook s none free = left-ByHook s (kprintf_handler demo 3 0 0 false s) free refl
run_hook-ByHook s (some m) held = (s.world, inl refl)

hooked-ByHook : (text : List ℕ) (s : Sys ℕ) → ByHook demo s (hooked text s)
hooked-ByHook text s = run_hook-ByHook s (s.heap 0x1000) refl

-- The default handler is registered in slot 0, and its announcement is in the queue.
abbrev announced : Sys ℕ
announced = (kprintf_register_default_handler demo hooked 0x88 first).1

announced_used : History demo options 0x80 0x88 hooked announced
unfolding start loaded kprintf_register_default_handler
announced_used = register_default (pos 0) (started_up 1 starts) refl

History-HasQueue_example : HasQueue announced
History-HasQueue_example =
    History-HasQueue demo options 0x80 0x88 hooked hooked-ByHook announced announced_used
