-- ===== src/Lib.antt =====
-- libkprintf: a PSP kernel module that catches the kernel's Kprintf and the games' sceKernelPrintf
-- and passes each message to registered handlers, with the utility libraries beside it.
--
-- The parts, and the files that model them.
--
-- * The module's globals and data (src/libkprintf/globals.c, kprintf.h, kprintf_int.h, and the
--   values that src/config.cmake gives to config.h.in): Kprintf. `Sys W` is the record of the
--   globals, the messages in the pool and the state `W` of everything outside. `loaded` is the
--   state when the module is loaded.
-- * The table of handlers (register_handler and unregister_handler of src/libkprintf/handler.c):
--   Kprintf/Handlers. The body between the semaphore calls is `register_locked` and
--   `unregister_locked`, the frame around it `with_sema`. Invariant, Register, Unregister and
--   Locking hold the theorems, Slots and Cases their lemmas.
-- * The delivery of a message (invoke_handlers and default_file_handler of handler.c):
--   Kprintf/Dispatch, with the default handler's newline in Newline, the delivery as a relation in
--   Order, and the sequence of calls that a message makes in Calls.
-- * The exported functions (src/libkprintf/api.c): Kprintf/Api, with the $k1 register set and
--   restored around each.
-- * The queue of messages (src/libkprintf/msg.c): Kprintf/Queue. The messages stand in a heap,
--   linked by address as in the source, and the walks go from link to link. Chain says which
--   sequence of addresses the links stand for; Add, Remove, Flush and Fresh hold the theorems.
-- * The hook that the kernel calls for each message (kprintf_handler of handler.c): Kprintf/Hook.
--   It formats the text, makes a message of it, queues it and sets the event flag. Queues is about
--   the queue that it leaves, Outcome about all its outcomes.
-- * The event thread (src/libkprintf/event.c): Kprintf/Boot is what it does before its loop,
--   Kprintf/Events one round of the loop: it flushes the queue when the hook has set the flag, and
--   ends when the module is stopped. Rounds is about one round, Retry about a flush that finds the
--   semaphore taken. Kprintf/Boot/Debug is what the thread reports in a DEBUG
--   build.
-- * The event thread, the hook and _stop together: Kprintf/Interleave. The loop of the event thread
--   and the loop of flush_messages are steps with a program counter, and between any two of them a
--   message can arrive or _stop go on. Texts says what arrives and what is delivered on the way,
--   Order how the two compare, and Shutdown what holds at the end. kprintf_handler and
--   remove_delete_msg, which run with interrupts disabled, are one step each, and so are the
--   handlers of one message.
-- * Threads at the table of handlers: Kprintf/Exclusion. Any number of threads in register_handler
--   and unregister_handler, whose wait for the semaphore, tests, writes and signal are steps of
--   their own, among the steps of Kprintf/Interleave. Mutex is about the semaphore, Choices says
--   that the tests (`choose`) and the writes (`commit`) are what `register_locked` and
--   `unregister_locked` do, Steady what the other steps do to the semaphore and the table, Parties
--   who holds the semaphore, Invariant what every step keeps; Safety, Serial, Channel and Progress
--   hold the theorems. The return value of the signal is not followed.
--   The steps of _stop go as far as its wait for the event thread, behind which it returns.
-- * The module over its whole life: Kprintf/History, the states that calls of the exported
--   functions, messages and flushes lead to from the start. The kernel's Kprintf, by which the
--   default handler announces itself, is known by what it may do (ByHook in Chains): it works
--   outside, and can call kprintf_handler.
-- * The output of single characters (putchar_.c): Kprintf/Output.
-- * The start and the stop of the module (src/libkprintf/startup.c): Kprintf/Startup. A chain of
--   `goto end` is a chain of functions, one for each object that init creates. Resources and States
--   are about init, Stop about _stop.
-- * The utility library (libs/psp/util): the log (log.c, log.h) in Util/Log, the disc's title
--   (umd.c) in Util/Umd, the exit callbacks (cb.c) in Util/Exit, and the wrappers around the kernel
--   (sys.c) in Util/System.
-- * The debug screen (libs/psp/debug/scr.c, scr.h): Screen. Screen/Setup opens it (scr_init,
--   scr_initex), Screen/Draw writes the frame buffer, Screen/Print the text, Screen/Colour converts
--   the colours of the 16-bit modes (Fields and Exact compare them with the channels),
--   Screen/Cursor, Overrun, Glyph and Frame say where the cursor goes and what is drawn,
--   Screen/Font holds the glyphs (font.c), Screen/Output is putchar_.c, and Screen/Kernel the
--   screen's printf in the kernel (scrk.c), over the characters that the kernel's prnt calls back
--   with.
-- * The sample programs (src/test_kprintf, src/test_sce_printf, src/test_tiny_printf): Samples,
--   with their endless loops cut after a number of rounds.
--
-- How the source is rendered.
--
-- * Platform is the record of all that the library calls and does not implement: the PSP kernel's
--   calls, vsnprintf of the printf library (a submodule) and the callbacks of other modules. The
--   development is for any such record. Platform/Laws names the documented behaviour that some
--   theorems need: what a semaphore counts, and which kernel objects a creation or a deletion
--   leaves. UnitLaws (Kprintf/Exclusion/Steady) adds that other calls leave the semaphore alone.
--   FlagLaws and TermLaws (Kprintf/Interleave/Flags) say which calls keep EV_FLUSH set and
--   EV_TERMINATE clear, DisplayLaws (Screen/Setup/Outcome) what the display driver does with its
--   mode, and CbLaws (Util/Exit/Lifetime) which objects the exit callbacks' calls make and delete.
-- * An int is an ℤ of the Prelude, an unsigned integer a native number with its wrap-around written
--   out. A pointer is a number, 0 is NULL. A function of another module is its address.
-- * Memory that C leaves undefined is `fault` (Prelude/Run) for a message and `none` for a byte
--   beyond a buffer.
-- * A walk along the queue runs on fuel, one unit for each message and one more for NULL. The
--   theorems on add_msg, remove_delete_msg and flush_messages ask for more fuel than there are
--   messages, and then the walk ends. detect_psplink has enough with one unit for each millisecond
--   of its timeout and one more.
-- * The values of src/config.cmake are fixed: 6 handlers, a buffer of 256 bytes and a pool of 2
--   KiB. The switches KPRINTF_DH_* are the parameter `HandlerFlags`.
-- * A callback works on the text and the length that it is given and on the state outside. It does
--   not change the table, which the semaphore protects, nor another message. In Kprintf/Events a
--   round is one sequence of steps; messages that arrive during a flush are in Kprintf/Interleave.
-- * The frame buffer is a memory of bytes. USE_DEBUG_SCREEN_16, which the build sets, is the
--   parameter `use16`.
--
-- Not modelled: the formatted printing (a submodule that is not in the repository), the headers of
-- the PSP SDK, the macros of log.h, module attributes, and sys_is_emu_portable, which stands under
-- #if 0.
pub mod Kprintf
pub mod Platform
pub mod Prelude
pub mod Samples
pub mod Screen
pub mod Tests
pub mod Util
