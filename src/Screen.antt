-- ===== src/Screen.antt =====
-- libs/psp/debug/scr.c: the debug screen, its settings and its cursor. `init` is g_init and the other fields are g_scr.
pub mod Font
pub mod Colour
pub mod Draw
pub mod Print
pub mod Cursor
pub mod Overrun
pub mod Frame
pub mod Glyph
pub mod Setup
pub mod Kernel
pub mod Output
use libkprintf.Prelude.{
  ℕ, bit_or, bit_and, Bool, if◌then◌else◌, leb, not, ltb, ◌^◌, ◌==◌, ◌-◌, false,
}
use libkprintf.Screen.Font.{g_msx}

-- VRAM_WIDTH, SCR_HEIGHT, MX and MY (68 and 34 characters), FONTCHAR_WIDTH_PX, FONTCHAR_HEIGHT_PX
abbrev pub vram_width : ℕ
vram_width = 512

abbrev pub scr_width : ℕ
scr_width = 480

abbrev pub scr_height : ℕ
scr_height = 272

abbrev pub max_x : ℕ
max_x = 68

abbrev pub max_y : ℕ
max_y = 34

-- The bits of debug_scr_flags_t.
abbrev pub flag_default : ℕ
flag_default = 1

abbrev pub flag_set_display : ℕ
flag_set_display = 2

abbrev pub flag_clear : ℕ
flag_clear = 4

abbrev pub flag_use_bgcol : ℕ
flag_use_bgcol = 8

abbrev pub flag_use_clearline : ℕ
flag_use_clearline = 16

-- SCE_DISPLAY_PIXEL_RGB565 to SCE_DISPLAY_PIXEL_RGBA8888
abbrev pub rgb565 : ℕ
rgb565 = 0

abbrev pub rgba5551 : ℕ
rgba5551 = 1

abbrev pub rgba4444 : ℕ
rgba4444 = 2

abbrev pub rgba8888 : ℕ
rgba8888 = 3

-- The bytes of memory, and of a font, by their addresses.
abbrev pub Vram : Type 0
Vram = ℕ → ℕ

abbrev pub Font : Type 0
Font = ℕ → ℕ

-- debug_scr_t with g_init. `vram_offset` is the int's bit pattern.
pub record Scr : Type 0 where
  pub init : Bool
  pub x : ℕ
  pub y : ℕ
  pub fgcol : ℕ
  pub bgcol : ℕ
  pub flags : ℕ
  pub vram_mode : ℕ
  pub vram_base : ℕ
  pub vram_offset : ℕ
  pub font : Font

-- g_init and g_scr when the program is loaded.
unfoldable pub initial_scr : Scr
unfolding g_msx
initial_scr = record {
  init = false;
  x = 0;
  y = 0;
  fgcol = 0xffff_ffff;
  bgcol = 0;
  flags = bit_or flag_use_bgcol flag_use_clearline;
  vram_mode = rgba8888;
  vram_base = 0x0400_0000;
  vram_offset = 0;
  font = g_msx;
}

-- `(flags & bit) != 0`
unfoldable pub has_flag : ℕ → ℕ → Bool
has_flag flags bit = not (bit_and flags bit == 0)

-- init_debug_scr
unfoldable pub init_debug_scr : Scr → Scr
unfolding g_msx
init_debug_scr s = record s {
  x = 0;
  y = 0;
  fgcol = 0xffff_ffff;
  bgcol = 0;
  flags = bit_or flag_use_bgcol flag_use_clearline;
  vram_mode = rgba8888;
  vram_base = 0x0400_0000;
  vram_offset = 0;
  font = g_msx;
}

-- get_valid_mode: the four pixel formats are 0 to 3.
unfoldable pub get_valid_mode : ℕ → ℕ
get_valid_mode mode = if leb mode rgba8888 then mode else rgba8888

-- scr_setx and scr_sety return the value before.
unfoldable pub scr_setx : ℕ → Scr → ℕ × Scr
scr_setx x s = (s.x, if ltb x max_x then record s { x = x } else s)

unfoldable pub scr_sety : ℕ → Scr → ℕ × Scr
scr_sety y s = (s.y, if ltb y max_y then record s { y = y } else s)

unfoldable pub scr_setxy : ℕ → ℕ → Scr → Scr
unfolding scr_setx scr_sety
scr_setxy x y s = (scr_sety y (scr_setx x s).1).1

unfoldable pub scr_set_fgcol : ℕ → Scr → ℕ × Scr
scr_set_fgcol color s = (s.fgcol, record s { fgcol = color })

unfoldable pub scr_set_bgcol : ℕ → Scr → ℕ × Scr
scr_set_bgcol color s = (s.bgcol, record s { bgcol = color })

unfoldable pub scr_set_vram_mode : ℕ → Scr → ℕ × Scr
unfolding get_valid_mode
scr_set_vram_mode mode s = (s.vram_mode, record s { vram_mode = get_valid_mode mode })

unfoldable pub scr_set_vram_base : ℕ → Scr → ℕ × Scr
scr_set_vram_base base s = (s.vram_base, record s { vram_base = base })

unfoldable pub scr_set_vram_offset : ℕ → Scr → ℕ × Scr
scr_set_vram_offset offset s = (s.vram_offset, record s { vram_offset = offset })

-- `f & ~bit` on 16 bits.
unfoldable pub flag_off : ℕ → ℕ → ℕ
flag_off flags bit = bit_and flags (2 ^ 16 - 1 - bit)

unfoldable pub scr_use_bgcol : Bool → Scr → Bool × Scr
unfolding has_flag flag_off
scr_use_bgcol on s = (
  has_flag s.flags flag_use_bgcol,
  record s {
    flags = if on then bit_or s.flags flag_use_bgcol else flag_off s.flags flag_use_bgcol;
  },
)

unfoldable pub scr_use_clearline : Bool → Scr → Bool × Scr
unfolding has_flag flag_off
scr_use_clearline on s = (
  has_flag s.flags flag_use_clearline,
  record s {
    flags = if on then bit_or s.flags flag_use_clearline else flag_off s.flags flag_use_clearline;
  },
)

-- scr_fgcol to scr_y, which read g_scr.
unfoldable pub scr_fgcol : Scr → ℕ
scr_fgcol s = s.fgcol

unfoldable pub scr_bgcol : Scr → ℕ
scr_bgcol s = s.bgcol

unfoldable pub scr_vram_mode : Scr → ℕ
scr_vram_mode s = s.vram_mode

unfoldable pub scr_vram_base : Scr → ℕ
scr_vram_base s = s.vram_base

unfoldable pub scr_vram_offset : Scr → ℕ
scr_vram_offset s = s.vram_offset

unfoldable pub scr_font : Scr → Font
scr_font s = s.font

unfoldable pub scr_x : Scr → ℕ
scr_x s = s.x

unfoldable pub scr_y : Scr → ℕ
scr_y s = s.y
