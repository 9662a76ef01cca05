-- ===== src/Kprintf/History.antt =====
-- What can happen to the module between its start and its stop: calls of the exported functions,
-- messages, and flushes of the queue, in any order.
pub mod Frames
pub mod Tables
pub mod Chains
use libkprintf.Platform.{Platform}
use libkprintf.Kprintf.{HandlerFlags, Ptr, Sys, loaded}
use libkprintf.Prelude.{List, ℕ, ◌≡◌, ℤ, Bool, length, ◌<◌}
use libkprintf.Kprintf.Startup.{start}
use libkprintf.Kprintf.Api.{
  kprintf_register_handler, kprintf_register_default_handler, kprintf_unregister_handler,
  kprintf_install,
}
use libkprintf.Kprintf.Hook.{kprintf_handler, enqueue}
use libkprintf.Prelude.Run.{ok}
use libkprintf.Kprintf.Queue.Chain.{IsQueue}
use libkprintf.Kprintf.Queue.{flush_messages}
use libkprintf.Kprintf.Queue.Fresh.{PoolGives}

module _ {W : Type 0} (p : Platform W) (flags : HandlerFlags) (handler default_cb : Ptr)
    (kprintf : List ℕ → Sys W → Sys W) where
  -- The states of a module that was loaded and started, and used since.
  pub data History : Sys W → Type 0 where
    started_up : {s : Sys W} (w : W) → start p handler (loaded w) ≡ (0, s) → History s
    register :
        {s s' : Sys W} (cb : Ptr) (arg ret : ℤ)
        → History s
        → kprintf_register_handler p cb arg s ≡ (ret, s')
        → History s'
    register_default :
        {s s' : Sys W} (ret : ℤ)
        → History s
        → kprintf_register_default_handler p kprintf default_cb s ≡ (ret, s')
        → History s'
    unregister :
        {s s' : Sys W} (index ret : ℤ)
        → History s
        → kprintf_unregister_handler p index s ≡ (ret, s')
        → History s'
    install :
        {s s' : Sys W} (ret : ℤ) → History s → kprintf_install p handler s ≡ (ret, s') → History s'
    message :
        {s s' : Sys W} (fuel fmt va : ℕ) (is_user : Bool) (ret : ℤ)
        → History s
        → PoolGives p s
        → kprintf_handler p fuel fmt va is_user s ≡ ok ret s'
        → History s'
    flush :
        {s s' : Sys W} (fuel : ℕ) (ms : List Ptr)
        → History s
        → IsQueue s ms
        → length ms < fuel
        → flush_messages p flags default_cb fuel s ≡ ok tt s'
        → History s'
