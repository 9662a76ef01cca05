-- ===== src/Util/Log.antt =====
-- libs/psp/util/log.c: the log with its own table of handlers. `flush` may be missing.
pub mod Table
pub mod Flush
pub mod Lifetime
use libkprintf.Prelude.{
  ℕ, Option, List, ℤ, replicate, negsuc, ◌∷◌, suc, if◌then◌else◌, pos, some, ◌==◌, leb, ◌+◌, zero,
  [], set, ◌||◌, ◌%◌, get_elem?, ◌^◌, ◌-◌, none,
}

-- LOG_MAX_HANDLERS and LOG_VSNPRINTF_BUFSZ
abbrev pub log_max_handlers : ℕ
log_max_handlers = 5

abbrev pub log_bufsz : ℕ
log_bufsz = 512

-- log_handler_t; 0 is NULL.
pub record LogHandler : Type 0 where
  pub cb : ℕ
  pub flush : ℕ
  pub arg : ℕ

abbrev pub no_handler : LogHandler
no_handler = record { cb = 0; flush = 0; arg = 0 }

-- g_handlers and g_handler_count
pub record Log : Type 0 where
  pub handlers : List LogHandler
  pub count : ℕ

-- What stands outside: vsnprintf, and the callbacks by their addresses.
pub record LogCalls (W : Type 0) : Type 0 where
  pub vsnprintf : ℕ → ℕ → W → ℤ × List ℕ
  pub call : ℕ → List ℕ → ℕ → ℕ → W → W
  pub call_flush : ℕ → ℕ → W → W

unfoldable pub empty_log : Log
empty_log = record { handlers = replicate log_max_handlers no_handler; count = 0 }

-- find_free_handler_index, from index `i` on.
unfoldable pub find_free_log : ℕ → List LogHandler → ℤ
find_free_log i [] = negsuc 0
find_free_log i (h ∷ hs) = if h.cb == 0 then pos i else find_free_log (i + 1) hs

unfoldable pub place_log : LogHandler → ℤ → Log → ℤ × Log
place_log h (negsuc _) l = (negsuc 2, l)
place_log h (pos i) l =
    (pos i, record { handlers = set l.handlers i h; count = (l.count + 1) % 2 ^ 32 })

unfoldable pub log_register_handler : (cb flush arg : ℕ) → Log → ℤ × Log
unfolding place_log find_free_log
log_register_handler cb flush arg l =
    if cb == 0
    then (negsuc 0, l)
    else if leb log_max_handlers l.count
    then (negsuc 1, l)
    else place_log (record { cb = cb; flush = flush; arg = arg }) (find_free_log 0 l.handlers) l

-- The handler's `flush` is left in place.
unfoldable pub clear_log : ℕ → Option LogHandler → Log → ℤ × Log
clear_log i none l = (negsuc 0, l)
clear_log i (some h) l = if h.cb == 0 then (negsuc 1, l) else (
  pos 0,
  record {
    handlers = set l.handlers i (record h { cb = 0; arg = 0 });
    count = (l.count + 2 ^ 32 - 1) % 2 ^ 32;
  },
)

unfoldable pub log_unregister_handler : ℤ → Log → ℤ × Log
unfolding clear_log
log_unregister_handler (negsuc _) l = (negsuc 0, l)
log_unregister_handler (pos i) l =
    if leb log_max_handlers i then (negsuc 0, l) else clear_log i (get_elem? l.handlers i) l

module _ {W : Type 0} (c : LogCalls W) where
  -- The loop of log_printf.
  unfoldable pub log_each : List LogHandler → List ℕ → ℕ → W → W
  log_each [] buf len w = w
  log_each (h ∷ hs) buf len w =
      log_each hs buf len (if h.cb == 0 then w else c.call h.cb buf len h.arg w)

  unfoldable pub log_text : ℤ → List ℕ → Log → W → ℤ × W
  unfolding log_each
  log_text (negsuc _) buf l w = (pos 0, w)
  log_text (pos n) buf l w =
      if n == 0 || leb log_bufsz n then (pos 0, w) else (pos n, log_each l.handlers buf n w)

  unfoldable pub log_printf : ℕ → ℕ → Log → W → ℤ × W
  unfolding log_text
  log_printf fmt va l w =
      let (len, buf) = c.vsnprintf fmt va w in
      if l.count == 0 then (pos 0, w) else log_text len buf l w

  -- The loop of log_flush, with `n` rounds to go: one for each of the first g_handler_count slots.
  unfoldable pub flush_each : ℕ → List LogHandler → W → W
  flush_each zero hs w = w
  flush_each (suc n) [] w = w
  flush_each (suc n) (h ∷ hs) w =
      flush_each n hs (if h.flush == 0 then w else c.call_flush h.flush h.arg w)

  unfoldable pub log_flush : Log → W → W
  unfolding flush_each
  log_flush l w = flush_each l.count l.handlers w
