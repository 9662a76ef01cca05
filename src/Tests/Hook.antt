-- ===== src/Tests/Hook.antt =====
-- Witnesses for the Kprintf hook.
use libkprintf.Kprintf.{Sys, Msg, Ptr}
use libkprintf.Kprintf.Hook.{kprintf_handler}
use libkprintf.Tests.Demo.{demo, busy, two_msgs, busy_on, busy-IsQueue}
use libkprintf.Prelude.{ℕ, true, ◌≡◌, pos, ◌∷◌, [], refl, arith, some, ◌≢◌}
use libkprintf.Prelude.Run.{ok}
use libkprintf.Kprintf.Hook.Queues.{kprintf_handler-queued}
use libkprintf.Kprintf.Queue.Chain.{IsQueue, payload}
use libkprintf.Kprintf.Queue.Fresh.{IsFresh}
use libkprintf.Kprintf.Hook.Outcome.{Outcome, kprintf_handler-outcome}

-- "hi" is accepted, and the pool gives the block 0x1000.
kprintf_handler-outcome_example : Outcome demo 3 0 0 true busy (0x10 ∷ 0x20 ∷ [])
kprintf_handler-outcome_example =
    kprintf_handler-outcome demo 3 0 0 true busy (0x10 ∷ 0x20 ∷ []) busy-IsQueue (omega arith)
      (λ n got. (omega arith, refl))

kprintf_handler-queued_example :
    (s' : Sys ℕ) × (kprintf_handler demo 3 0 0 true busy ≡ ok (pos 2) s')
    × IsQueue s' (0x10 ∷ 0x20 ∷ 0x1000 ∷ [])
    × ((m : Msg) × (payload (s'.heap 0x1000) ≡ payload (some m))
        × IsFresh (b'h' ∷ b'i' ∷ 0 ∷ []) 2 true m)
    × ((b : Ptr) → b ≢ 0x1000 → payload (s'.heap b) ≡ payload (two_msgs b))
    × (s'.world ≡ 1)
kprintf_handler-queued_example =
    kprintf_handler-queued demo 3 0 0 true busy 2 busy_on refl (omega arith) (omega arith)
      (0x10 ∷ 0x20 ∷ []) busy-IsQueue (omega arith) (omega arith, (omega arith, tt)) refl
      (omega arith) refl
