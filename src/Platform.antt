-- ===== src/Platform.antt =====
-- What the library calls and does not implement: the PSP kernel (sce*), the printf library's
-- vsnprintf and the callbacks of other modules. `W` is the state of all of that. Each field is one
-- call, from its arguments and the state before to its result and the state after.
pub mod Laws
use libkprintf.Prelude.{ℕ, List, Bool, ℤ}

-- What a callback leaves behind: its result, the text buffer and the length behind `pLen`.
pub record CallReturn (W : Type 0) : Type 0 where
  pub res : ℤ
  pub text : List ℕ
  pub len : ℕ
  pub world : W

pub record Platform (W : Type 0) : Type 0 where
  -- sceKernelWaitSema(id, 1, NULL) and sceKernelSignalSema(id, 1)
  pub wait_sema : ℤ → W → ℤ × W
  pub signal_sema : ℤ → W → ℤ × W
  -- sceKernelTryAllocateVpl(id, size, &block): the result, the block's address, and the state
  pub try_allocate_vpl : ℤ → ℕ → W → ℤ × ℕ × W
  pub free_vpl : ℤ → ℕ → W → ℤ × W
  -- sceKernelCpuSuspendIntr and sceKernelCpuResumeIntrWithSync
  pub suspend_intr : W → ℕ × W
  pub resume_intr : ℕ → W → W
  -- sceKernelSetEventFlag(id, bits), and sceKernelWaitEventFlag[CB] for any of the bits, which
  -- clears them: the bits that were set, and the state
  pub set_event_flag : ℤ → ℕ → W → W
  pub wait_event_flag : ℤ → ℕ → W → ℕ × W
  -- sceKernelCreateVpl(..., size), CreateEventFlag, CreateSema(initial, max), CreateThread
  pub create_vpl : ℕ → W → ℤ × W
  pub create_event_flag : W → ℤ × W
  pub create_sema : ℕ → ℕ → W → ℤ × W
  pub create_thread : ℕ → ℕ → W → ℤ × W
  pub delete_vpl : ℤ → W → W
  pub delete_event_flag : ℤ → W → W
  pub delete_sema : ℤ → W → W
  pub start_thread : ℤ → W → ℤ × W
  pub terminate_delete_thread : ℤ → W → W
  pub delay_thread : ℕ → W → W
  -- sceKernelFindModuleByName("PSPLINK") != NULL
  pub find_psplink : W → Bool × W
  -- sceKernelDipswSet(reg) and sceKernelRegisterKprintfHandler(handler, NULL)
  pub dipsw_set : ℕ → W → ℤ × W
  pub register_kprintf_handler : ℕ → W → W
  -- sceKernelStdout, sceIoWrite(fd, bytes)
  pub stdout : W → ℤ × W
  pub io_write : ℤ → List ℕ → W → W
  -- vsnprintf(buf, size, fmt, va): its result and the `size` bytes of `buf`
  pub vsnprintf : ℕ → ℕ → ℕ → W → ℤ × List ℕ
  -- A callback of another module: its address, `arg`, the message's text, length, capacity, isUser
  pub callback : ℕ → ℤ → List ℕ → ℕ → ℕ → Bool → W → CallReturn W
