-- ===== src/Util/System.antt =====
-- libs/psp/util/sys.c: what the system is, the user's name, and the way out.
use libkprintf.Prelude.{ℕ, ℤ, Bool, int_eq, List, if◌then◌else◌, pos}

-- sceIoDevctl("emulator:", 3, ...), sceUtilityGetSystemParamString(id, buf, size) with what it leaves
-- in `buf`, sceKernelExitVSHVSH(NULL) and sceKernelExitGame().
pub record SysCalls (W : Type 0) : Type 0 where
  pub devctl_emulator : W → ℤ × W
  pub get_system_param_string : ℕ → ℕ → W → ℤ × List ℕ × W
  pub exit_vsh : W → ℤ × W
  pub exit_game : W → ℤ × W

module _ {W : Type 0} (c : SysCalls W) where
  unfoldable pub sys_is_emu : W → Bool × W
  sys_is_emu w = let (ret, w1) = c.devctl_emulator w in (int_eq ret (pos 0), w1)

  unfoldable pub sys_get_username : ℕ → W → ℤ × List ℕ × W
  sys_get_username bufsz w = c.get_system_param_string 1 bufsz w

  -- `kernel` is the build's KERNEL_MODULE.
  unfoldable pub sys_exit : Bool → W → ℤ × W
  sys_exit kernel w = if kernel then c.exit_vsh w else c.exit_game w
