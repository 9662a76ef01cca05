-- ===== src/Tests/Queue.antt =====
-- Witnesses for the message queue.
use libkprintf.Kprintf.{Sys, HandlerFlags, Ptr}
use libkprintf.Kprintf.Queue.{flush_messages, add_msg, remove_delete_msg}
use libkprintf.Prelude.{ℤ, ℕ, true, ◌∷◌, [], ◌≡◌, pos, arith, refl}
use libkprintf.Tests.Demo.{demo, busy, table, two_msgs, busy-IsQueue, third_msg}
use libkprintf.Prelude.Run.{ok}
use libkprintf.Kprintf.Queue.Flush.{flushed, deliver_all, flush_messages-flushed}
use libkprintf.Kprintf.Queue.Remove.{Removed, remove_delete_msg-Removed}
use libkprintf.Kprintf.Queue.Chain.{IsQueue, payload}
use libkprintf.Kprintf.Queue.Add.{add_msg-IsQueue}

add_msg-IsQueue_example :
    (s' : Sys ℕ) × (add_msg 3 0x30 busy ≡ ok tt s')
    × IsQueue s' (0x10 ∷ 0x20 ∷ 0x30 ∷ [])
    × ((b : Ptr) → payload (s'.heap b) ≡ payload (two_msgs b))
    × (s' ≡ record busy { head = s'.head; heap = s'.heap })
add_msg-IsQueue_example =
    add_msg-IsQueue 3 0x30 third_msg busy (0x10 ∷ 0x20 ∷ []) busy-IsQueue
      (omega arith, (omega arith, tt)) (omega arith) refl refl (omega arith)

remove_delete_msg-Removed_example :
    (ret : ℤ) × (s' : Sys ℕ) × (remove_delete_msg demo 3 0x20 busy ≡ ok ret s')
    × Removed busy 0x20 (0x10 ∷ []) s'
remove_delete_msg-Removed_example =
    remove_delete_msg-Removed demo busy 0x20 3 (0x10 ∷ []) [] busy-IsQueue (omega arith)

abbrev pub all_on : HandlerFlags
all_on = record {
  auto_register = true;
  auto_newline = true;
  write_kprintf = true;
  write_printf = true;
}

flush_messages-flushed_example :
    flush_messages demo all_on 0x80 3 busy
    ≡ flushed demo all_on 0x80 busy
        (0x10 ∷ 0x20 ∷ [])
        (deliver_all demo all_on 0x80 table (pos 1) two_msgs (0x10 ∷ 0x20 ∷ []) 1)
flush_messages-flushed_example =
    flush_messages-flushed demo all_on 0x80 3 (0x10 ∷ 0x20 ∷ []) busy busy-IsQueue (omega arith)
