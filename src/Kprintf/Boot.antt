-- ===== src/Kprintf/Boot.antt =====
-- event.c: what the event thread does before its loop.
pub mod Detect
pub mod Debug
use libkprintf.Prelude.{
  ◌>>=◌, ℕ, List, Option, suc, if◌then◌else◌, ◌+◌, some, ◌%◌, ◌^◌, zero, ltb, Bool, false, none,
  true,
}
use libkprintf.Platform.{Platform}
use libkprintf.Kprintf.{is_started, Sys, ModState, HandlerFlags, Ptr, started}
use libkprintf.Kprintf.Api.{register_default_handler}

-- KPRINTF_PSPLINK_DETECT_TIMEOUT and KPRINTF_PSPLINK_USB_DELAY (microseconds)
abbrev pub psplink_detect_timeout : ℕ
psplink_detect_timeout = 2_000_000

abbrev pub psplink_usb_delay : ℕ
psplink_usb_delay = 7_000_000

module _ {W : Type 0} (p : Platform W) where
  -- detect_psplink from `t` on: the answer, and the platform; `none` when the fuel runs out.
  unfoldable pub detect_loop : ℕ → ℕ → ℕ → W → Option (Bool × W)
  detect_loop zero timeout t w = none
  detect_loop (suc k) timeout t w =
      let rest =
        detect_loop k timeout ((t + 1000) % 2 ^ 32) (p.delay_thread 1000 (p.find_psplink w).1) in
      if ltb t timeout
      then if (p.find_psplink w).0 then some (true, (p.find_psplink w).1) else rest
      else some (false, w)

  abbrev pub detect_psplink : ℕ → ℕ → W → Option (Bool × W)
  detect_psplink fuel timeout w = detect_loop fuel timeout 0 w

  -- `while (g_state != STATE_STARTED)`: `read i` is what the i-th read of the volatile g_state gives.
  unfoldable pub wait_started : ℕ → (ℕ → ModState) → ℕ → W → Option W
  unfolding is_started
  wait_started zero read i w = none
  wait_started (suc k) read i w =
      let rest = wait_started k read (i + 1) (p.delay_thread 100 w) in
      if is_started (read i) then some w else rest

  -- event_thread before its loop: wait for the start, register the default handler where
  -- KPRINTF_DH_AUTO_REGISTER says so, and give PSPLINK time to set up.
  unfoldable pub auto_register : (List ℕ → Sys W → Sys W) → HandlerFlags → Ptr → Sys W → Sys W
  unfolding register_default_handler
  auto_register kprintf flags default_cb s =
      if flags.auto_register then (register_default_handler p kprintf default_cb s).1 else s

  unfoldable pub event_prologue :
      (List ℕ → Sys W → Sys W) → HandlerFlags → Ptr → ℕ → (ℕ → ModState) → Sys W → Option (Sys W)
  unfolding wait_started auto_register detect_loop
  event_prologue kprintf flags default_cb fuel read s = do
    w ← wait_started fuel read 0 s.world
    let s1 = auto_register kprintf flags default_cb (record s { state = started; world = w })
    (found, w1) ← detect_psplink fuel psplink_detect_timeout s1.world
    some (record s1 { world = if found then p.delay_thread psplink_usb_delay w1 else w1 })
