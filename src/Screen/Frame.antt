-- ===== src/Screen/Frame.antt =====
-- scr.c, scr_printdata: which bytes the text output can write.
use libkprintf.Prelude.{
  true, ℕ, ◌<◌, ◌≡◌, ◌⊎◌, ◌+◌, false, Bool, refl, ◌≤◌, ◌*◌, Bool-cases, arith, inr, not, suc, ◌∙◌,
  ◌||◌, inl, zero, ◌==◌, List, if◌then◌else◌, ◌≢◌, ◌∷◌, ap, [], ◌^◌, ◌%◌,
}
use libkprintf.Screen.{
  Scr, Vram, max_y, max_x, has_flag, flag_use_clearline, flag_use_bgcol, rgba8888,
}
use libkprintf.Screen.Draw.{
  scr_clearline, scr_putchar, clear_columns, drawchar, drawchar_32, drawchar_16,
}
use libkprintf.Screen.Glyph.{drawchar-draws, shifted}
use libkprintf.Screen.Print.{wrap, newline, put_glyph, print_char, advance, next_line, print_chars}
use libkprintf.Screen.Cursor.{
  move, InBounds, NoTab, print_chars-nil, print_char-move, print_chars-cons, print_char-InBounds,
}

-- The bytes of a pixel: 4 in the 32-bit build and in RGBA8888, else 2.
abbrev pub pixel_bytes : Bool → Scr → ℕ
pixel_bytes use16 s = if not use16 || s.vram_mode == rgba8888 then 4 else 2

-- Outside the 272 rows of 512 pixels of `size` bytes that start at `base`.
abbrev pub Beyond : (size base b : ℕ) → Type 0
Beyond size base b = (b < base) ⊎ (base + size * (512 * 272) ≤ b)

-- The screen's frame buffer, with no offset, lies in the address space.
abbrev pub Fits : Bool → Scr → Type 0
Fits use16 s = (s.vram_offset ≡ 0) × (s.vram_base + pixel_bytes use16 s * (512 * 272) ≤ 2 ^ 32)

-- The two guards of scr_clearline.
either_way :
    (P : Vram → Type 0) (c d : Bool) (v w : Vram)
    → P v
    → P w
    → P (if not c then v else if not d then v else w)
either_way P false d v w at_v at_w = at_v
either_way P true false v w at_v at_w = at_v
either_way P true true v w at_v at_w = at_w

module _ (s : Scr) (b : ℕ) (flat : s.vram_offset ≡ 0) where
  start_4 :
      (x y : ℕ)
      → s.vram_base + 4 * (512 * 272) ≤ 2 ^ 32
      → x + 8 ≤ 512
      → y + 8 ≤ 272
      → s.vram_base + 4 * (x + y * 512)
        ≡ (s.vram_base + shifted 4 s.vram_offset + 4 * (x + y * 512)) % 2 ^ 32
  start_4 x y fits fits_x fits_y = rw flat (omega arith)

  start_2 :
      (x y : ℕ)
      → s.vram_base + 2 * (512 * 272) ≤ 2 ^ 32
      → x + 8 ≤ 512
      → y + 8 ≤ 272
      → s.vram_base + 2 * (x + y * 512)
        ≡ (s.vram_base + shifted 2 s.vram_offset + 2 * (x + y * 512)) % 2 ^ 32
  start_2 x y fits fits_x fits_y = rw flat (omega arith)

  drawchar_off :
      (size x y fgcol bgcol ch : ℕ) (v : Vram)
      → s.init ≡ false
      → drawchar size s x y fgcol bgcol ch v b ≡ v b
  unfolding drawchar
  drawchar_off size x y fgcol bgcol ch v off = rw off refl

  drawchar_32-Beyond :
      (x y fgcol bgcol ch : ℕ) (v : Vram)
      → s.vram_base + 4 * (512 * 272) ≤ 2 ^ 32
      → Beyond 4 s.vram_base b
      → x + 8 ≤ 512
      → y + 8 ≤ 272
      → drawchar_32 s x y fgcol bgcol ch v b ≡ v b
  unfolding drawchar_32
  drawchar_32-Beyond x y fgcol bgcol ch v fits out fits_x fits_y = elim (Bool-cases s.init) [
    | inr off ↦ drawchar_off 4 x y fgcol bgcol ch v off
    | inl on ↦
        (drawchar-draws 4 s x y fgcol bgcol ch v on (s.vram_base + 4 * (x + y * 512))
            (start_4 x y fits fits_x fits_y)).1
          b (λ r k row col. omega arith)
  ]

  drawchar_16-Beyond :
      (x y fgcol bgcol ch : ℕ) (v : Vram)
      → s.vram_base + 2 * (512 * 272) ≤ 2 ^ 32
      → Beyond 2 s.vram_base b
      → x + 8 ≤ 512
      → y + 8 ≤ 272
      → drawchar_16 s x y fgcol bgcol ch v b ≡ v b
  unfolding drawchar_16
  drawchar_16-Beyond x y fgcol bgcol ch v fits out fits_x fits_y = elim (Bool-cases s.init) [
    | inr off ↦ drawchar_off 2 x y fgcol bgcol ch v off
    | inl on ↦
        (drawchar-draws 2 s x y fgcol bgcol ch v on (s.vram_base + 2 * (x + y * 512))
            (start_2 x y fits fits_x fits_y)).1
          b (λ r k row col. omega arith)
  ]

module _ (use16 : Bool) (s : Scr) (b : ℕ) (fits : Fits use16 s)
    (out : Beyond (pixel_bytes use16 s) s.vram_base b) where
  scr_putchar-Beyond :
      (x y fgcol ch : ℕ) (v : Vram)
      → x + 8 ≤ 512
      → y + 8 ≤ 272
      → scr_putchar use16 s x y fgcol ch v b ≡ v b
  unfolding scr_putchar
  scr_putchar-Beyond x y fgcol ch v fits_x fits_y =
      elim (Bool-cases (not use16 || s.vram_mode == rgba8888)) [
        | inl wide ↦ rw wide (
            drawchar_32-Beyond s b fits.0 x y fgcol s.bgcol ch v (rw wide at fits.1)
              (rw wide at out) fits_x fits_y)
        | inr narrow ↦ rw narrow (
            drawchar_16-Beyond s b fits.0 x y _ _ ch v (rw narrow at fits.1) (rw narrow at out)
              fits_x fits_y)
      ]

  clear_columns-Beyond :
      (n i : ℕ) (v : Vram) → n + i ≤ max_x → s.y < max_y → clear_columns use16 n i s v b ≡ v b
  unfolding clear_columns
  clear_columns-Beyond zero i v few on_screen = refl
  clear_columns-Beyond (suc n) i v few on_screen =
      clear_columns-Beyond n (i + 1) _ (omega arith) on_screen
      ∙ scr_putchar-Beyond (i * 7) (s.y * 8) s.bgcol 219 v (omega arith) (omega arith)

  scr_clearline-Beyond : (y : ℕ) (v : Vram) → s.y < max_y → scr_clearline use16 y s v b ≡ v b
  unfolding scr_clearline
  scr_clearline-Beyond y v on_screen =
      either_way (λ (m : Vram). m b ≡ v b) (has_flag s.flags flag_use_clearline)
        (has_flag s.flags flag_use_bgcol) v (clear_columns use16 max_x 0 s v) refl
        (clear_columns-Beyond max_x 0 v (omega arith) on_screen)

move-settings :
    (c : ℕ) (s : Scr)
    → ((move c s).vram_base ≡ s.vram_base)
      × ((move c s).vram_offset ≡ s.vram_offset)
      × ((move c s).vram_mode ≡ s.vram_mode)
unfolding move next_line advance
move-settings c s = ground arith

module _ (use16 : Bool) (b : ℕ) where
  newline-Beyond :
      (s : Scr) (v : Vram)
      → Fits use16 s
      → Beyond (pixel_bytes use16 s) s.vram_base b
      → s.y < max_y
      → (newline use16 (s, v)).1 b ≡ v b
  unfolding newline next_line
  newline-Beyond s v fits out on_screen =
      scr_clearline-Beyond use16 (next_line s) b fits out (next_line s).y v (ground arith)

  put_glyph-Beyond :
      (c : ℕ) (s : Scr) (v : Vram)
      → Fits use16 s
      → Beyond (pixel_bytes use16 s) s.vram_base b
      → InBounds s
      → (put_glyph use16 c (s, v)).1 b ≡ v b
  unfolding put_glyph
  put_glyph-Beyond c s v fits out inside =
      scr_putchar-Beyond use16 s b fits out (s.x * 7) (s.y * 8) s.fgcol c v (omega arith)
        (omega arith)

  wrap-Beyond :
      (s : Scr) (v : Vram)
      → Fits use16 s
      → Beyond (pixel_bytes use16 s) s.vram_base b
      → s.y < max_y
      → (wrap use16 (s, v)).1 b ≡ v b
  unfolding wrap
  wrap-Beyond s v fits out on_screen = elim (Bool-cases (s.x == max_x)) [
    | inl edge ↦ rw edge (newline-Beyond s v fits out on_screen)
    | inr inside ↦ rw inside refl
  ]

  print_char-Beyond :
      (c : ℕ) (s : Scr) (v : Vram)
      → Fits use16 s
      → Beyond (pixel_bytes use16 s) s.vram_base b
      → c ≢ 9
      → InBounds s
      → (print_char use16 c (s, v)).1 b ≡ v b
  unfolding print_char put_glyph advance
  print_char-Beyond c s v fits out no_tab inside =
      let not_tab : (c == 9) ≡ false = ground arith in
      elim (Bool-cases (c == 13)) [
        | inl cr ↦ rw cr refl
        | inr no_cr ↦ elim (Bool-cases (c == 10)) [
          | inl nl ↦ rw (no_cr, nl) (newline-Beyond s v fits out inside.1)
          | inr no_nl ↦
              let t = put_glyph use16 c (s, v) in
              rw (no_cr, no_nl, not_tab)
                (wrap-Beyond t.0 t.1 fits out inside.1 ∙ put_glyph-Beyond c s v fits out inside)
        ]
      ]

-- On a screen with no offset, whose frame buffer lies in the 32-bit address space, and with the
-- cursor in its 68 columns and 34 lines: text without tabs writes nothing outside the frame buffer,
-- which is, from vram_base on, 272 rows of 512 pixels, of 4 bytes in the 32-bit build and in RGBA8888
-- and of 2 bytes in the 16-bit modes.
pub print_chars-Beyond :
    (use16 : Bool) (cs : List ℕ) (s : Scr) (v : Vram) (b : ℕ)
    → Fits use16 s
    → NoTab cs
    → InBounds s
    → Beyond (pixel_bytes use16 s) s.vram_base b
    → (print_chars use16 cs (s, v)).1 b ≡ v b
print_chars-Beyond use16 [] s v b fits no_tab inside out = rw (print_chars-nil use16 (s, v)) refl
print_chars-Beyond use16 (c ∷ cs) s v b fits (ne, no_tab) inside out =
    let r = print_char use16 c (s, v) in
    let (base, offset, mode) = move-settings c s in
    let moved : r.0 ≡ move c s = print_char-move use16 c s v in
    let at_base : r.0.vram_base ≡ s.vram_base = ap (λ (x : Scr). x.vram_base) moved ∙ base in
    let in_mode : r.0.vram_mode ≡ s.vram_mode = ap (λ (x : Scr). x.vram_mode) moved ∙ mode in
    let flat : r.0.vram_offset ≡ 0 = ap (λ (x : Scr). x.vram_offset) moved ∙ offset ∙ fits.0 in
    rw (print_chars-cons use16 c cs (s, v)) (
      print_chars-Beyond use16 cs r.0 r.1 b (flat, rw (at_base, in_mode) fits.1) no_tab
        (print_char-InBounds use16 c s v ne inside) (rw (at_base, in_mode) out)
      ∙ print_char-Beyond use16 b c s v fits out ne inside)
