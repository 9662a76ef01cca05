-- ===== src/Util/Exit.antt =====
-- libs/psp/util/cb.c: the thread that waits for the system's exit callback.
pub mod Lifetime
use libkprintf.Prelude.{
  ◌>>=◌, ℕ, true, ℤ, false, if◌then◌else◌, ◌*◌, Option, negsuc, Bool, none, ◌==◌, is_neg, pos, suc,
  some, zero,
}

-- What stands outside: the kernel, and the user's callback by its address.
pub record CbCalls (W : Type 0) : Type 0 where
  -- sceKernelCreateCallback, sceKernelRegisterExitCallback, sceKernelDeleteCallback
  pub create_callback : W → ℤ × W
  pub register_exit_callback : ℤ → W → W
  pub delete_callback : ℤ → W → W
  -- sceKernelCreateThread(priority, stack), sceKernelStartThread, sceKernelTerminateDeleteThread
  pub create_thread : ℕ → ℕ → W → ℤ × W
  pub start_thread : ℤ → W → ℤ × W
  pub terminate_delete_thread : ℤ → W → W
  -- sceKernelSleepThread, sceKernelSleepThreadCB, sceKernelExitGame
  pub sleep_thread : W → W
  pub sleep_thread_cb : W → W
  pub exit_game : W → W
  pub user_exit_cb : ℕ → ℕ → W → W

-- The file's static variables; 0 is NULL.
pub record Callbacks (W : Type 0) : Type 0 where
  pub user_exit_cb : ℕ
  pub user_common : ℕ
  pub sleeping : Bool
  pub exit_cbid : ℤ
  pub thid : ℤ
  pub world : W

unfoldable pub no_callbacks : {W : Type 0} → W → Callbacks W
no_callbacks w = record {
  user_exit_cb = 0;
  user_common = 0;
  sleeping = false;
  exit_cbid = negsuc 0;
  thid = negsuc 0;
  world = w;
}

module _ {W : Type 0} (c : CbCalls W) where
  unfoldable pub exit_callback : Callbacks W → ℤ × Callbacks W
  exit_callback s =
      let w1 =
        if s.user_exit_cb == 0
        then s.world
        else c.user_exit_cb s.user_exit_cb s.user_common s.world in
      (pos 0, record s { world = c.sleep_thread (c.exit_game w1) })

  unfoldable pub create_callbacks : Callbacks W → Callbacks W
  create_callbacks s =
      let (id, w) = c.create_callback s.world in
      record s { exit_cbid = id; world = c.register_exit_callback id w }

  -- callback_thread, up to its sleep.
  unfoldable pub callback_thread : Callbacks W → Callbacks W
  unfolding create_callbacks
  callback_thread s =
      let s1 = create_callbacks s in
      record s1 { sleeping = true; world = c.sleep_thread_cb s1.world }

  -- `while (!g_sleeping)`: `delay` is sceKernelDelayThread(1000), with what the other threads do
  -- meanwhile.
  unfoldable pub wait_sleeping :
      (Callbacks W → Callbacks W) → ℕ → Callbacks W → Option (Callbacks W)
  wait_sleeping delay zero s = none
  wait_sleeping delay (suc k) s =
      let rest = wait_sleeping delay k (delay s) in if s.sleeping then some s else rest

  unfoldable pub kill_callbacks :
      (Callbacks W → Callbacks W) → ℕ → Callbacks W → Option (Callbacks W)
  unfolding wait_sleeping
  kill_callbacks delay fuel s = do
    s1 ← wait_sleeping delay fuel s
    let w1 = c.delete_callback s1.exit_cbid s1.world
    let w2 = c.terminate_delete_thread s1.thid w1
    some (record s1 { exit_cbid = negsuc 0; thid = negsuc 0; world = w2 })

  unfoldable pub setup_callbacks : (cb common : ℕ) → Callbacks W → ℤ × Callbacks W
  setup_callbacks cb common s =
      let (id, w1) = c.create_thread 16 (3 * 1024) s.world in
      let (ret, w2) = c.start_thread id w1 in
      let s1 : Callbacks W = record s { user_exit_cb = cb; user_common = common } in
      if is_neg id
      then (id, record s1 { world = w1 })
      else (ret, record s1 { thid = id; world = w2 })
