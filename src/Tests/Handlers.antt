-- ===== src/Tests/Handlers.antt =====
-- Witnesses for the table of handlers.
use libkprintf.Kprintf.Handlers.{unregister_handler, register_handler}
use libkprintf.Kprintf.{Sys, max_handlers, RegHandler, free_slot, null}
use libkprintf.Kprintf.Handlers.Cases.{IsTable}
use libkprintf.Kprintf.Handlers.Slots.{registered}
use libkprintf.Tests.Demo.{
  free_demo, demo, busy-IsTable, busy, slot, table, demo-SemaLaws, free_demo-SemaWorks, busy_on,
}
use libkprintf.Prelude.{
  ℕ, pos, refl, false, true, negsuc, ◌≡◌, set, ◌↔◌, ◌<◌, get_elem?, some, arith, ◌≢◌, ◌+◌, inr,
}
use libkprintf.Kprintf.Handlers.Locking.{register_handler-units}
use libkprintf.Kprintf.Handlers.Unregister.{
  unregister_handler-register_handler, unregister_handler-zero_iff,
}
use libkprintf.Kprintf.Handlers.Register.{register_handler-lowest}

register_handler-lowest_example :
    let r = register_handler free_demo 0xa0 (pos 5) false busy in
    (i : ℕ) × (i < max_handlers)
    × (r.0 ≡ pos i)
    × (get_elem? table i ≡ some free_slot)
    × ((m : ℕ) (g : RegHandler) → m < i → get_elem? table m ≡ some g → g.cb ≢ null)
    × (r.1.handlers ≡ set table i (slot 0xa0 5))
    × (r.1.handler_count ≡ 2 + 1)
    × (r.1.default_handler_index ≡ pos 0)
unfolding registered
register_handler-lowest_example =
    register_handler-lowest free_demo free_demo-SemaWorks 0xa0 (pos 5) busy busy-IsTable busy_on
      (omega arith) (omega arith)

-- The same table with no default handler among its two.
abbrev plain : Sys ℕ
plain = record busy { default_handler_index = negsuc 0 }

plain-IsTable : IsTable plain
plain-IsTable = record {
  slots = busy-IsTable.slots;
  counted = busy-IsTable.counted;
  zeros = busy-IsTable.zeros;
  default_valid = refl;
}

unregister_handler-register_handler_example :
    let r = register_handler free_demo 0xa0 (pos 5) true plain in
    let u = unregister_handler free_demo r.0 r.1 in
    (u.0 ≡ pos 0)
    × (u.1.handlers ≡ table)
    × (u.1.handler_count ≡ 2)
    × (u.1.default_handler_index ≡ negsuc 0)
unfolding registered
unregister_handler-register_handler_example =
    unregister_handler-register_handler free_demo free_demo-SemaWorks 0xa0 (pos 5) true plain
      plain-IsTable busy_on (omega arith) (omega arith) (inr refl)

unregister_handler-zero_iff_example :
    ((unregister_handler free_demo (pos 2) busy).0 ≡ pos 0)
    ↔ ((i : ℕ) × (h : RegHandler) × (pos 2 ≡ pos i) × (get_elem? table i ≡ some h) × (h.cb ≢ null))
unregister_handler-zero_iff_example =
    unregister_handler-zero_iff free_demo free_demo-SemaWorks busy busy-IsTable busy_on (pos 2)

register_handler-units_example : (register_handler demo 0xa0 (pos 5) false busy).1.world ≡ 1
register_handler-units_example =
    register_handler-units demo (λ id w. w) demo-SemaLaws (λ id w. refl) 0xa0 (pos 5) false busy
