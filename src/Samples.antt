-- ===== src/Samples.antt =====
-- The sample programs (src/test_kprintf, src/test_sce_printf, src/test_tiny_printf): each prints a
-- numbered message every second, for ever. A run is cut after a number of messages.
pub mod Counting
use libkprintf.Util.System.{sys_get_username, SysCalls}
use libkprintf.Prelude.{
  ℕ, List, suc, ◌*◌, ℤ, codes, ◌+◌, if◌then◌else◌, Bool, is_neg, ◌%◌, int_eq, ◌^◌, zero, pos, ◌++◌,
  some,
}
use libkprintf.Util.Exit.{CbCalls, Callbacks, setup_callbacks}
use libkprintf.Screen.Setup.{DisplayCalls, scr_initex}
use libkprintf.Screen.{scr_setxy, Scr, Vram}
use libkprintf.Screen.Print.{scr_puts}

-- What stands outside, beside the parts of the library: the three ways to print a format with a name
-- and a number (Kprintf, sceKernelPrintf and the printf library's printf), sceKernelDelayThread,
-- sceDisplaySetHoldMode, sceDisplayWaitVblankStartCB, sceKernelCreateThread(priority, stack) and
-- sceKernelStartThread.
pub record SampleCalls (W : Type 0) : Type 0 where
  pub kprintf : List ℕ → List ℕ → ℕ → W → W
  pub sce_printf : List ℕ → List ℕ → ℕ → W → W
  pub printf : List ℕ → List ℕ → ℕ → W → W
  pub delay_thread : ℕ → W → W
  pub set_hold_mode : ℕ → W → W
  pub wait_vblank : W → W
  pub create_thread : ℕ → ℕ → W → ℤ × W
  pub start_thread : ℤ → W → ℤ × W

module _ {W : Type 0} (c : SampleCalls W) where
  -- The loop that the three programs share, from the counter `i` on, with `n` rounds to go; `say`
  -- prints the message with the counter's new value.
  unfoldable pub say_rounds : (ℕ → W → W) → ℕ → ℕ → W → W
  say_rounds say zero i w = w
  say_rounds say (suc n) i w =
      let i1 = (i + 1) % 2 ^ 32 in say_rounds say n i1 (c.delay_thread (1 * 1000 * 1000) (say i1 w))

  -- test_kprintf/main.c, _main
  unfoldable pub kprintf_main : SysCalls W → ℕ → W → W
  unfolding say_rounds sys_get_username
  kprintf_main y n w =
      let (ret, username, w1) = sys_get_username y 128 w in
      say_rounds (c.kprintf (codes "Hello %s %d from Kprintf!\n") username) n 0 w1

  -- test_kprintf/startup.c, _start and _stop: the thread has priority 16 and 2 KiB of stack.
  unfoldable pub test_start : W → ℕ × W
  test_start w =
      let (thid, w1) = c.create_thread 16 (2 * 1024) w in
      let (ret, w2) = c.start_thread thid w1 in
      if is_neg thid then (1, w1) else (if int_eq ret (pos 0) then 0 else 1, w2)

  unfoldable pub test_stop : W → ℕ × W
  test_stop w = (0, w)

  module _ (b : CbCalls W) (d : DisplayCalls W) (y : SysCalls W) (use16 : Bool) where
    -- The start of both programs with a screen: the callbacks, the display and the user's name.
    unfoldable pub open_screen : Callbacks W → Scr × Vram → Callbacks W × List ℕ × (Scr × Vram)
    unfolding setup_callbacks scr_initex sys_get_username
    open_screen s t =
        let s1 = (setup_callbacks b 0 0 s).1 in
        let (ret, t1, w2) = scr_initex d use16 0 3 6 t (c.set_hold_mode 1 s1.world) in
        let (ret2, username, w3) = sys_get_username y 128 w2 in
        (record s1 { world = c.wait_vblank w3 }, username, t1)

    -- draw_frame, which is called once and does not return: kill_callbacks behind it is not reached.
    unfoldable pub draw_frame : List ℕ → (ℕ → W → W) → ℕ → Scr × Vram → W → (Scr × Vram) × W
    unfolding scr_setxy scr_puts say_rounds
    draw_frame banner say n t w =
        ((scr_puts use16 (some banner) (scr_setxy 0 0 t.0, t.1)).1, say_rounds say n 0 w)

    -- test_sce_printf/main.c
    unfoldable pub sce_printf_main : ℕ → Callbacks W → Scr × Vram → Callbacks W × (Scr × Vram)
    unfolding open_screen draw_frame
    sce_printf_main n s t =
        let (s1, username, t1) = open_screen s t in
        let say = c.sce_printf (codes "Hello %s %lu from sceKernelPrintf!\n") username in
        let banner =
          codes "Calling sceKernelPrintf every second...\n"
          ++ codes "Use psplink's pspsh terminal to see the messages." in
        let (t2, w) = draw_frame banner say n t1 s1.world in (record s1 { world = w }, t2)

    -- test_tiny_printf/main.c
    unfoldable pub tiny_printf_main : ℕ → Callbacks W → Scr × Vram → Callbacks W × (Scr × Vram)
    unfolding open_screen draw_frame
    tiny_printf_main n s t =
        let (s1, username, t1) = open_screen s t in
        let say = c.printf (codes "Hello %s %lu from printf!\n") username in
        let (t2, w) =
          draw_frame (codes "Calling libkprintf's printf every second...") say n t1 s1.world in
        (record s1 { world = w }, t2)
