-- ===== src/Tests/Util.antt =====
-- Witnesses for the log of the utility library.
use libkprintf.Util.Log.Table.{IsLog}
use libkprintf.Util.Log.{
  LogCalls, Log, log_flush, log_register_handler, log_unregister_handler, empty_log,
}
use libkprintf.Prelude.{
  ◌∷◌, List, refl, [], ℕ, pos, ◌≡◌, arith, ◌+◌, negsuc, true, codes, some, ◌++◌,
}
use libkprintf.Util.Log.Flush.{second_only, log_flush-stale}
use libkprintf.Util.Umd.{UmdCalls, read_title_id}
use libkprintf.Util.Umd.Title.{read_title_id-joins}
use libkprintf.Util.Log.Lifetime.{Life-IsLog, registering, unregistering, opened}

-- A log with one handler that came in the place of another one.
abbrev one_log : Log
one_log =
    (log_register_handler 0x90 0 7
      (log_unregister_handler (pos 0) (log_register_handler 0x80 0 6 empty_log).1).1).1

Life-IsLog_example : IsLog one_log
Life-IsLog_example =
    Life-IsLog (registering 0x90 0 7 (unregistering (pos 0) (registering 0x80 0 6 opened)))

-- The callbacks' state is the list of the flushes that were called.
abbrev calls : LogCalls (List ℕ)
calls = record {
  vsnprintf = λ fmt va w. (pos 0, []);
  call = λ cb text len arg w. w;
  call_flush = λ flush arg w. flush ∷ w;
}

log_flush-stale_example : log_flush calls (second_only 0x70 0x78 5 0x80 0x88 6) [] ≡ 0x78 ∷ []
log_flush-stale_example =
    log_flush-stale calls 0x70 0x78 5 0x80 0x88 6 [] (omega arith) (omega arith) (omega arith)

-- A disc with the title UCUS-98645.
abbrev disc : UmdCalls ℕ
disc = record {
  open_umd = λ w. (pos 3, w + 1);
  read_umd = λ fd w. (pos 10, codes "UCUS-98645", w);
  close_umd = λ fd w. 0;
}

read_title_id-joins_example :
    read_title_id disc (negsuc 2) true 0
    ≡ (pos 0, some (codes "UCUS" ++ (codes "98645" ++ 0 ∷ [])), 0)
read_title_id-joins_example =
    read_title_id-joins disc (negsuc 2) (codes "UCUS") (codes "98645") b'-' 0 refl refl refl refl
      refl
