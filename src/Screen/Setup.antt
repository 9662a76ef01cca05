-- ===== src/Screen/Setup.antt =====
-- scr.c: set_display and scr_initex, which choose the settings and switch the display to them.
pub mod Outcome
use libkprintf.Screen.{
  has_flag, init_debug_scr, Scr, Vram, scr_width, get_valid_mode, vram_width, rgba8888, scr_height,
  flag_clear, flag_default, flag_set_display,
}
use libkprintf.Prelude.{ℕ, Bool, ℤ, bit_or, if◌then◌else◌, ◌+◌, true, ◌%◌, is_neg, ◌==◌, pos, ◌^◌}
use libkprintf.Screen.Draw.{clear_screen}

-- The calls of the display driver: sceDisplayGetMode, which gives the mode, the width and the
-- height, sceDisplaySetMode, sceDisplaySetFrameBuf(base, width, format, timing) and
-- sceGeEdramGetAddr.
pub record DisplayCalls (W : Type 0) : Type 0 where
  pub get_mode : W → ℤ × (ℕ × ℕ × ℕ) × W
  pub set_mode : ℕ → ℕ → ℕ → W → ℤ × W
  pub set_frame_buf : ℕ → ℕ → ℕ → ℕ → W → ℤ × W
  pub edram_addr : W → ℕ

-- SCE_DISPLAY_MODE_LCD, SCE_DISPLAY_UPDATETIMING_NEXTVSYNC and VRAM_BP32_0
abbrev pub mode_lcd : ℕ
mode_lcd = 0

abbrev pub next_vsync : ℕ
next_vsync = 1

abbrev pub vram_bp32_0 : ℕ
vram_bp32_0 = 0

-- The clearing, and the copy to g_scr, in the source's order.
unfoldable pub adopt : Bool → Scr → ℕ → Scr × Vram → Scr × Vram
adopt use16 scr flags (s, v) = (
  record scr { init = true },
  if has_flag flags flag_clear then clear_screen use16 s scr.bgcol v else v,
)

module _ {W : Type 0} (d : DisplayCalls W) where
  unfoldable pub get_default_vram_base : ℕ → W → ℕ
  get_default_vram_base offset w = (bit_or 0x4000_0000 (d.edram_addr w) + offset) % 2 ^ 32

  -- set_display behind sceDisplaySetMode: a refused frame buffer sets the previous mode again.
  unfoldable pub set_buffer : Scr → ℕ × ℕ × ℕ → W → ℤ × W
  set_buffer s (mode, width, height) w =
      let (ret, w1) = d.set_frame_buf s.vram_base vram_width s.vram_mode next_vsync w in
      if is_neg ret then (ret, (d.set_mode mode width height w1).1) else (pos 0, w1)

  unfoldable pub set_display : Scr → W → ℤ × W
  unfolding set_buffer
  set_display s w =
      let (ret, before, w1) = d.get_mode w in
      let (ret2, w2) = d.set_mode mode_lcd scr_width scr_height w1 in
      if is_neg ret then (ret, w1) else if is_neg ret2 then (ret2, w2) else set_buffer s before w2

  -- The local `scr` of scr_initex: the default settings with those that the caller gives.
  unfoldable pub settings : (vram_base mode flags : ℕ) → Scr → W → Scr
  unfolding init_debug_scr get_valid_mode get_default_vram_base has_flag
  settings vram_base mode flags s w =
      let fresh = init_debug_scr s in
      record fresh {
        vram_mode = get_valid_mode mode;
        vram_base = if vram_base == 0 then get_default_vram_base vram_bp32_0 w else vram_base;
        flags = if has_flag flags flag_default then fresh.flags else flags % 2 ^ 16;
      }

  unfoldable pub scr_initex :
      Bool → (vram_base mode flags : ℕ) → Scr × Vram → W → ℤ × (Scr × Vram) × W
  scr_initex use16 vram_base mode flags t w =
      let scr = settings vram_base mode flags t.0 w in
      let (ret, w1) = if has_flag flags flag_set_display then set_display scr w else (pos 0, w) in
      if is_neg ret then (ret, t, w1) else (pos 0, adopt use16 scr flags t, w1)

  unfoldable pub scr_init : Bool → Scr × Vram → W → ℤ × (Scr × Vram) × W
  unfolding scr_initex
  scr_init use16 = scr_initex use16 0 rgba8888 flag_default
