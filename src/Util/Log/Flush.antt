-- ===== src/Util/Log/Flush.antt =====
-- libs/psp/util/log.c, log_flush: it goes through the first g_handler_count slots, not through the
-- slots in use.
use libkprintf.Prelude.{ℕ, pos, ◌≢◌, ◌≡◌, arith}
use libkprintf.Util.Log.{
  log_flush, Log, log_register_handler, log_unregister_handler, empty_log, LogCalls,
}

-- Two handlers are registered, and the first one is unregistered.
abbrev pub second_only : (cb1 flush1 arg1 cb2 flush2 arg2 : ℕ) → Log
second_only cb1 flush1 arg1 cb2 flush2 arg2 =
    let l1 = (log_register_handler cb1 flush1 arg1 empty_log).1 in
    let l2 = (log_register_handler cb2 flush2 arg2 l1).1 in (log_unregister_handler (pos 0) l2).1

-- Two handlers are registered in an empty log, each with a callback and the first with a `flush`,
-- and the first is unregistered: log_flush then calls the flush of the handler that is gone, with a
-- null argument, and does not call that of the handler that is registered.
pub log_flush-stale :
    {W : Type 0} (c : LogCalls W) (cb1 flush1 arg1 cb2 flush2 arg2 : ℕ) (w : W)
    → cb1 ≢ 0
    → cb2 ≢ 0
    → flush1 ≢ 0
    → log_flush c (second_only cb1 flush1 arg1 cb2 flush2 arg2) w ≡ c.call_flush flush1 0 w
unfolding log_flush log_register_handler log_unregister_handler empty_log
log_flush-stale c cb1 flush1 arg1 cb2 flush2 arg2 w ne1 ne2 nf = ground arith
