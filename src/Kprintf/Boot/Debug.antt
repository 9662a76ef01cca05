-- ===== src/Kprintf/Boot/Debug.antt =====
-- event.c in a DEBUG build: the report of the settings, and the writer to a file.
use libkprintf.Kprintf.{HandlerFlags, msg_vplsize_kib, Sys}
use libkprintf.Prelude.{ℕ, List, ℤ, Bool, if◌then◌else◌, codes, ◌∷◌, pos, take, [], pos_part, ◌++◌}
use libkprintf.Kprintf.Hook.{bad_length}
use libkprintf.Kprintf.Boot.{psplink_detect_timeout, psplink_usb_delay}

-- What stands outside: vsnprintf of a format with one argument, into a buffer of the given size, the
-- write to the module's stdout, and sceIoOpen, sceIoWrite, sceIoClose and sceIoSync on a file.
pub record DebugCalls (W : Type 0) : Type 0 where
  pub format : ℕ → List ℕ → ℕ → W → ℤ × List ℕ
  pub write : ℤ → List ℕ → W → ℤ × W
  pub open_file : List ℕ → W → ℤ × W
  pub close_file : ℤ → W → W
  pub sync : W → W

abbrev debug_bufsz : ℕ
debug_bufsz = 256

module _ {W : Type 0} (d : DebugCalls W) where
  -- The file is opened to append, and synchronised once it is closed.
  unfoldable pub append_file : List ℕ → List ℕ → W → ℤ × W
  append_file path text w =
      let (fd, w1) = d.open_file path w in
      let (ret, w2) = d.write fd text w1 in (ret, d.sync (d.close_file fd w2))

  unfoldable pub debug_file_write : List ℕ → List ℕ → ℕ → W → ℤ × W
  unfolding append_file bad_length
  debug_file_write path fmt arg w =
      let (len, buf) = d.format debug_bufsz fmt arg w in
      if bad_length len then (pos 0, w) else append_file path (take (pos_part len) buf) w

  unfoldable pub dmsg : ℤ → List ℕ → ℕ → W → ℤ × W
  unfolding bad_length
  dmsg out fmt arg w =
      let (len, buf) = d.format debug_bufsz fmt arg w in
      if bad_length len then (pos 0, w) else d.write out (take (pos_part len) buf) w

  -- A sequence of such messages, each with its argument (0 where it has none).
  unfoldable pub dmsgs : ℤ → List (List ℕ × ℕ) → W → W
  unfolding dmsg
  dmsgs out [] w = w
  dmsgs out ((fmt, arg) ∷ ms) w = dmsgs out ms (dmsg out fmt arg w).1

-- KPRINTF_EV_THREAD_PRIORITY and KPRINTF_EV_THREAD_STACKSIZE_KIB
abbrev pub ev_thread_priority : ℕ
ev_thread_priority = 10

abbrev pub ev_thread_stacksize_kib : ℕ
ev_thread_stacksize_kib = 3

-- A message that the build has under a switch.
abbrev only : Bool → List ℕ → List (List ℕ × ℕ)
only on text = if on then (text, 0) ∷ [] else []

-- What event_thread reports before its loop.
unfoldable pub report : HandlerFlags → List (List ℕ × ℕ)
report f =
    (codes "\n", 0)
    ∷ (codes "msg_vplsize_kib:         %d\n", msg_vplsize_kib)
    ∷ (codes "ev_thread_priority:      %d\n", ev_thread_priority)
    ∷ (codes "ev_thread_stacksize_kib: %d\n", ev_thread_stacksize_kib)
    ∷ (codes "dh_flags: ", 0)
    ∷ (only f.auto_register (codes "AUTO_REGISTER ")
        ++ (only f.auto_newline (codes "AUTO_NEWLINE ")
            ++ (only f.write_kprintf (codes "WRITE_KPRINTF ")
                ++ (only f.write_printf (codes "WRITE_PRINTF")
                    ++ (codes "\n", 0)
                      ∷ (codes "psplink_detect_timeout:  %u\n", psplink_detect_timeout)
                      ∷ (codes "psplink_usb_delay:       %u\n", psplink_usb_delay)
                      ∷ []))))

-- The report, which stands between event_prologue and the loop.
unfoldable pub event_report : {W : Type 0} → DebugCalls W → HandlerFlags → Sys W → Sys W
unfolding dmsgs report
event_report d f s = record s { world = dmsgs d s.stdout (report f) s.world }
