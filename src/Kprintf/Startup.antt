-- ===== src/Kprintf/Startup.antt =====
-- startup.c: the module's start, with its clean-up on failure, and its stop.
pub mod Resources
pub mod States
pub mod Stop
use libkprintf.Platform.{Platform}
use libkprintf.Kprintf.{Ptr, is_started, Sys, msg_vplsize_kib, null, stopped, starting, started}
use libkprintf.Kprintf.Api.{install_kernel_handler}
use libkprintf.Prelude.{
  ℤ, if◌then◌else◌, codes, is_positive, is_neg, int_eq, ◌*◌, ◌+◌, List, negsuc, pos, ℕ,
}
use libkprintf.Kprintf.Hook.{ev_flush, ev_terminate, ev_stop_ok}

module _ {W : Type 0} (p : Platform W) where
  -- The labels of `end` when `ret != 0`: what was created is deleted, in the reverse order.
  unfoldable pub cleanup : (vplid evid semid thid : ℤ) → Sys W → Sys W
  cleanup vplid evid semid thid s =
      let w1 = if is_positive thid then p.terminate_delete_thread thid s.world else s.world in
      let w2 = if is_positive semid then p.delete_sema semid w1 else w1 in
      let w3 = if is_positive evid then p.delete_event_flag evid w2 else w2 in
      let w4 = if is_positive vplid then p.delete_vpl vplid w3 else w3 in
      record s { state = stopped; world = w4 }

  -- From sceKernelStartThread on; `handler` is the address of kprintf_handler.
  unfoldable pub launch : Ptr → (vplid evid semid thid : ℤ) → Sys W → ℤ × Sys W
  unfolding cleanup install_kernel_handler
  launch handler vplid evid semid thid s =
      let (ret, w) = p.start_thread thid s.world in
      let s1 : Sys W = record s { world = w } in
      let (ret2, s2) = install_kernel_handler p handler s1 in
      if is_neg ret
      then (ret, cleanup vplid evid semid thid s1)
      else if is_neg ret2
      then (ret2, cleanup vplid evid semid thid s2)
      else (pos 0, record s2 { state = started })

  -- The globals that init sets once every object is created.
  unfoldable pub publish : (vplid evid semid thid : ℤ) → Sys W → Sys W
  publish vplid evid semid thid s = record s {
    vplid = vplid;
    evid = evid;
    semid = semid;
    thid = thid;
    default_handler_index = negsuc 0;
    handler_count = 0;
    head = null;
  }

  -- sceKernelCreateThread, and what follows it.
  unfoldable pub init_thread : Ptr → (vplid evid semid : ℤ) → Sys W → ℤ × Sys W
  unfolding cleanup publish launch
  init_thread handler vplid evid semid s =
      let (thid, w) = p.create_thread 10 3072 s.world in
      let s1 : Sys W = record s { world = w } in
      if is_neg thid
      then (thid, cleanup vplid evid semid thid s1)
      else launch handler vplid evid semid thid (publish vplid evid semid thid s1)

  unfoldable pub init_sema : Ptr → (vplid evid : ℤ) → Sys W → ℤ × Sys W
  unfolding cleanup init_thread
  init_sema handler vplid evid s =
      let (semid, w) = p.create_sema 1 1 s.world in
      let s1 : Sys W = record s { world = w } in
      if is_neg semid
      then (semid, cleanup vplid evid semid (negsuc 0) s1)
      else init_thread handler vplid evid semid s1

  unfoldable pub init_event_flag : Ptr → (vplid : ℤ) → Sys W → ℤ × Sys W
  unfolding cleanup init_sema
  init_event_flag handler vplid s =
      let (evid, w) = p.create_event_flag s.world in
      let s1 : Sys W = record s { world = w } in
      if is_neg evid
      then (evid, cleanup vplid evid (negsuc 0) (negsuc 0) s1)
      else init_sema handler vplid evid s1

  -- init
  unfoldable pub init : Ptr → Sys W → ℤ × Sys W
  unfolding cleanup init_event_flag
  init handler s =
      let (vplid, w) = p.create_vpl (msg_vplsize_kib * 1024) s.world in
      let s1 : Sys W = record s { state = starting; world = w } in
      if is_neg vplid
      then (vplid, cleanup vplid (negsuc 0) (negsuc 0) (negsuc 0) s1)
      else init_event_flag handler vplid s1

  -- _start: 0 is SCE_KERNEL_RESIDENT, 1 is SCE_KERNEL_NO_RESIDENT.
  unfoldable pub start : Ptr → Sys W → ℕ × Sys W
  unfolding init
  start handler s =
      let (out, w) = p.stdout s.world in
      let (ret, s') = init handler (record s { stdout = out; world = w }) in
      (if int_eq ret (pos 0) then 0 else 1, s')

  -- _stop; `kprintf` is the kernel's Kprintf, which runs the registered handler.
  unfoldable pub stop : (List ℕ → Sys W → Sys W) → Sys W → ℕ × Sys W
  unfolding is_started
  stop kprintf s =
      if is_started s.state
      then (let s1 = kprintf (codes "KprintfLibrary: unregister internal Kprintf handler\n") s in
          let w1 = p.register_kprintf_handler null s1.world in
          let w2 = p.set_event_flag s1.evid (ev_flush + ev_terminate) w1 in
          let w3 = (p.wait_event_flag s1.evid ev_stop_ok w2).1 in
          (0, record s1 { state = stopped; world = w3 }))
      else (0, s)
