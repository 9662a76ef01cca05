-- ===== src/Kprintf.antt =====
-- The module `libkprintf` itself (src/libkprintf): its globals and the data that they hold.
-- globals.c, kprintf.h, kprintf_int.h, config.h.in with the values of src/config.cmake.
pub mod Handlers
pub mod Dispatch
pub mod Api
pub mod Queue
pub mod Hook
pub mod Startup
pub mod Events
pub mod Interleave
pub mod Exclusion
pub mod History
pub mod Boot
pub mod Output
use libkprintf.Prelude.{
  ℕ, ◌+◌, ◌*◌, ◌^◌, List, Bool, true, false, Option, none, ℤ, pos, negsuc, replicate,
}

abbrev pub Ptr : Type 0
Ptr = ℕ

abbrev pub null : Ptr
null = 0

-- STATE_STOPPED to STATE_BROKEN
pub data ModState : Type 0 where
  stopped started stopping starting broken : ModState

-- g_state == STATE_STARTED
unfoldable pub is_started : ModState → Bool
is_started started = true
is_started _ = false

-- kprintf_error_t
abbrev pub err_not_started : ℤ
err_not_started = negsuc 0

abbrev pub err_invalid_argument : ℤ
err_invalid_argument = negsuc 1

abbrev pub err_invalid_index : ℤ
err_invalid_index = negsuc 2

abbrev pub err_max_handlers : ℤ
err_max_handlers = negsuc 3

abbrev pub err_no_handler : ℤ
err_no_handler = negsuc 4

-- KPRINTF_MSG_OK and KPRINTF_MSG_STOP
abbrev pub msg_ok : ℤ
msg_ok = pos 0

abbrev pub msg_stop : ℤ
msg_stop = pos 1

-- KPRINTF_BUFSZ, KPRINTF_MAX_HANDLERS, KPRINTF_MSG_VPLSIZE_KIB
abbrev pub buf_size : ℕ
buf_size = 256

abbrev pub max_handlers : ℕ
max_handlers = 6

abbrev pub msg_vplsize_kib : ℕ
msg_vplsize_kib = 2

-- The KPRINTF_DH_* switches.
pub record HandlerFlags : Type 0 where
  pub auto_register : Bool
  pub auto_newline : Bool
  pub write_kprintf : Bool
  pub write_printf : Bool

-- kprintf_reghandler_t
pub record RegHandler : Type 0 where
  pub cb : Ptr
  pub arg : ℤ

-- What `= {0}` and an unregistered slot hold.
abbrev pub free_slot : RegHandler
free_slot = record { cb = null; arg = pos 0 }

-- kprintf_msg_t: `text` is the flexible array `msg`.
pub record Msg : Type 0 where
  pub next : Ptr
  pub is_user : Bool
  pub len : ℕ
  pub size : ℕ
  pub text : List ℕ

abbrev pub Heap : Type 0
Heap = Ptr → Option Msg

-- The globals, the messages in the pool, and the platform.
pub record Sys (W : Type 0) : Type 0 where
  pub state : ModState
  pub stdout : ℤ
  pub vplid : ℤ
  pub evid : ℤ
  pub semid : ℤ
  pub thid : ℤ
  pub default_handler_index : ℤ
  pub handler_count : ℕ
  pub handlers : List RegHandler
  pub head : Ptr
  pub heap : Heap
  -- the caller's $k1 register
  pub k1 : ℕ
  pub world : W

-- The globals when the module is loaded (globals.c).
unfoldable pub loaded : {W : Type 0} → W → Sys W
loaded w = record {
  state = stopped;
  stdout = negsuc 0;
  vplid = negsuc 0;
  evid = negsuc 0;
  semid = negsuc 0;
  thid = negsuc 0;
  default_handler_index = negsuc 0;
  handler_count = 0;
  handlers = replicate max_handlers free_slot;
  head = null;
  heap = λ _. none;
  k1 = 0;
  world = w;
}
