-- ===== src/Util/Log/Lifetime.antt =====
-- log.c: the log over its whole life.
use libkprintf.Prelude.{ℕ, ℤ, refl}
use libkprintf.Util.Log.{Log, empty_log, log_register_handler, log_unregister_handler}
use libkprintf.Util.Log.Table.{
  in_use, IsLog, log_register_handler-IsLog, log_unregister_handler-IsLog,
}

-- The logs that any sequence of calls leads to from the program's start.
pub data Life : Log → Type 0 where
  opened : Life empty_log
  registering : {l : Log} (cb flush arg : ℕ) → Life l → Life (log_register_handler cb flush arg l).1
  unregistering : {l : Log} (index : ℤ) → Life l → Life (log_unregister_handler index l).1

empty_log-IsLog : IsLog empty_log
unfolding empty_log in_use
empty_log-IsLog = record { slots = refl; counted = refl }

-- Whatever calls of log_register_handler and log_unregister_handler follow one another from the
-- start of the program, with any arguments: the table keeps its five slots, and the counter is the
-- number of those in use.
pub Life-IsLog : {l : Log} → Life l → IsLog l
Life-IsLog opened = empty_log-IsLog
Life-IsLog (registering {l} cb flush arg before) =
    log_register_handler-IsLog cb flush arg l (Life-IsLog before)
Life-IsLog (unregistering {l} index before) =
    log_unregister_handler-IsLog index l (Life-IsLog before)
