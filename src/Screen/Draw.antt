-- ===== src/Screen/Draw.antt =====
-- scr.c: the writes to the frame buffer, in 32-bit and in 16-bit pixels. `use16` is the build's
-- USE_DEBUG_SCREEN_16, off by default. A pixel has `size` bytes, 4 or 2, lowest byte first.
use libkprintf.Prelude.{
  Bool, ℕ, not, ◌+◌, if◌then◌else◌, bit_and, suc, leb, ◌||◌, ◌*◌, ltb, ◌==◌, ◌/◌, ◌^◌, ◌&&◌, zero,
  ◌-◌, ◌%◌,
}
use libkprintf.Screen.Colour.{convert_8888_to_565, convert_8888_to_5551, convert_8888_to_4444}
use libkprintf.Screen.{
  has_flag, Scr, Vram, Font, flag_use_clearline, vram_width, flag_use_bgcol, scr_height, max_x,
  rgb565, rgba8888, rgba5551, rgba4444,
}

-- `offset >> n` on an int's bit pattern, where `d` is 2 ^ n: towards minus infinity.
unfoldable pub sar : ℕ → ℕ → ℕ
sar w d = if ltb w (2 ^ 31) then w / d else 2 ^ 32 - (2 ^ 32 - w + d - 1) / d

-- `*(uN *)a = c`, for a pixel of `size` bytes.
unfoldable pub poke : ℕ → ℕ → ℕ → Vram → Vram
poke size a c v b = if leb a b && ltb b (a + size) then c / 256 ^ (b - a) % 256 else v b

-- The pixels from `a` on, `n` of them, are set to `color`.
unfoldable pub fill : ℕ → ℕ → ℕ → ℕ → Vram → Vram
unfolding poke
fill size zero a color v = v
fill size (suc n) a color v = fill size n (a + size) color (poke size a color v)

-- Here the offset counts pixels: it is added to a pointer to them, which has 32 bits.
unfoldable pub clear_screen_32 : Scr → ℕ → Vram → Vram
unfolding fill sar
clear_screen_32 s color =
    fill 4 (vram_width * scr_height) ((s.vram_base + 4 * sar s.vram_offset 4) % 2 ^ 32) color

unfoldable pub clear_screen_16 : Scr → ℕ → Vram → Vram
unfolding fill sar
clear_screen_16 s color =
    fill 2 (vram_width * scr_height) ((s.vram_base + 2 * sar s.vram_offset 2) % 2 ^ 32) color

-- The `switch` on a 16-bit mode, in clear_screen and in scr_putchar.
unfoldable pub convert : ℕ → ℕ → ℕ
unfolding convert_8888_to_565 convert_8888_to_5551 convert_8888_to_4444
convert mode color =
    if mode == rgb565
    then convert_8888_to_565 color
    else if mode == rgba5551
    then convert_8888_to_5551 color
    else if mode == rgba4444
    then convert_8888_to_4444 color
    else 0

unfoldable pub clear_screen : Bool → Scr → ℕ → Vram → Vram
unfolding clear_screen_32 clear_screen_16 convert
clear_screen use16 s color v =
    if not use16 || s.vram_mode == rgba8888
    then clear_screen_32 s color v
    else clear_screen_16 s (convert s.vram_mode color) v

-- One pixel of a glyph's row.
unfoldable pub draw_pixel : ℕ → Bool → Bool → (fgcol bgcol : ℕ) → ℕ → Vram → Vram
unfolding poke
draw_pixel size lit use_bgcol fgcol bgcol a v =
    if lit then poke size a fgcol v else if use_bgcol then poke size a bgcol v else v

-- `*font & (128 >> j)`
unfoldable pub is_lit : ℕ → ℕ → Bool
is_lit bits j = not (bit_and bits (128 / 2 ^ j) == 0)

-- The pixels `j` to 7 of a row that starts at `a`, with `n` left.
unfoldable pub draw_row : ℕ → ℕ → ℕ → ℕ → Bool → (fgcol bgcol : ℕ) → ℕ → Vram → Vram
unfolding draw_pixel is_lit
draw_row size zero j bits use_bgcol fgcol bgcol a v = v
draw_row size (suc n) j bits use_bgcol fgcol bgcol a v =
    draw_row size n (j + 1) bits use_bgcol fgcol bgcol a
      (draw_pixel size (is_lit bits j) use_bgcol fgcol bgcol (a + size * j) v)

-- The rows `i` to 7 of the glyph at `font + glyph`, with `n` left; a row of the screen has 512
-- pixels.
unfoldable pub draw_rows : ℕ → ℕ → ℕ → Font → ℕ → Bool → (fgcol bgcol : ℕ) → ℕ → Vram → Vram
unfolding draw_row
draw_rows size zero i font glyph use_bgcol fgcol bgcol a v = v
draw_rows size (suc n) i font glyph use_bgcol fgcol bgcol a v =
    draw_rows size n (i + 1) font glyph use_bgcol fgcol bgcol a
      (draw_row size 8 0 (font (glyph + i)) use_bgcol fgcol bgcol (a + size * (vram_width * i)) v)

-- The address at which a glyph at pixel (x, y) starts, for the bit patterns of the ints x and y. Here
-- the offset counts bytes: vram_base is a `void *` when `offset >> 2` (`>> 1` with 2 bytes) is added
-- to it.
unfoldable pub glyph_start : ℕ → Scr → ℕ → ℕ → ℕ
unfolding sar
glyph_start size s x y =
    (s.vram_base + sar s.vram_offset size + size * (x + y * vram_width)) % 2 ^ 32

-- What drawchar_32 and drawchar_16 share.
unfoldable pub drawchar : ℕ → Scr → (x y fgcol bgcol ch : ℕ) → Vram → Vram
unfolding draw_rows glyph_start has_flag
drawchar size s x y fgcol bgcol ch v =
    if not s.init
    then v
    else draw_rows size 8 0 s.font (ch * 8) (has_flag s.flags flag_use_bgcol) fgcol bgcol
        (glyph_start size s x y) v

unfoldable pub drawchar_32 : Scr → (x y fgcol bgcol ch : ℕ) → Vram → Vram
unfolding drawchar
drawchar_32 = drawchar 4

unfoldable pub drawchar_16 : Scr → (x y fgcol bgcol ch : ℕ) → Vram → Vram
unfolding drawchar
drawchar_16 = drawchar 2

unfoldable pub scr_putchar : Bool → Scr → (x y fgcol ch : ℕ) → Vram → Vram
unfolding drawchar_32 drawchar_16 convert
scr_putchar use16 s x y fgcol ch v =
    if not use16 || s.vram_mode == rgba8888
    then drawchar_32 s x y fgcol s.bgcol ch v
    else drawchar_16 s x y (convert s.vram_mode fgcol) (convert s.vram_mode s.bgcol) ch v

-- The loop of scr_clearline over the columns from `i` on, with `n` left: the full block, 219.
unfoldable pub clear_columns : Bool → ℕ → ℕ → Scr → Vram → Vram
unfolding scr_putchar
clear_columns use16 zero i s v = v
clear_columns use16 (suc n) i s v =
    clear_columns use16 n (i + 1) s (scr_putchar use16 s (i * 7) (s.y * 8) s.bgcol 219 v)

-- scr_clearline(y): the argument is not read, the cursor's line is cleared.
unfoldable pub scr_clearline : Bool → ℕ → Scr → Vram → Vram
unfolding has_flag clear_columns
scr_clearline use16 y s v =
    if not (has_flag s.flags flag_use_clearline)
    then v
    else if not (has_flag s.flags flag_use_bgcol)
    then v
    else clear_columns use16 max_x 0 s v
