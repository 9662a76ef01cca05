-- ===== src/Screen/Print.antt =====
-- scr.c: scr_printdata, which moves the cursor and draws, and scr_clear.
use libkprintf.Screen.{Scr, Vram, scr_setxy, max_y, max_x}
use libkprintf.Screen.Draw.{scr_clearline, clear_screen, scr_putchar}
use libkprintf.Prelude.{
  ◌+◌, List, ℤ, ◌%◌, ◌*◌, suc, ◌^◌, negsuc, ◌∷◌, if◌then◌else◌, [], not, ◌==◌, zero, pos, length,
  take, leb, ℕ, Bool, Option, some, none,
}

-- The cursor goes to the next line, or from the last one to the first. `y` is a u16.
unfoldable pub next_line : Scr → Scr
next_line s = let y1 = (s.y + 1) % 2 ^ 16 in record s { x = 0; y = if y1 == max_y then 0 else y1 }

unfoldable pub newline : Bool → Scr × Vram → Scr × Vram
unfolding next_line
newline use16 (s, v) = let s1 = next_line s in (s1, scr_clearline use16 s1.y s1 v)

unfoldable pub advance : Scr → Scr
advance s = record s { x = (s.x + 1) % 2 ^ 16 }

-- Drawing one character at the cursor and moving on by one column.
unfoldable pub put_glyph : Bool → ℕ → Scr × Vram → Scr × Vram
unfolding advance
put_glyph use16 ch (s, v) = (advance s, scr_putchar use16 s (s.x * 7) (s.y * 8) s.fgcol ch v)

-- The rounds of a tab.
unfoldable pub put_blanks : ℕ → Bool → Scr × Vram → Scr × Vram
unfolding put_glyph
put_blanks zero use16 t = t
put_blanks (suc n) use16 t = put_blanks n use16 (put_glyph use16 b' ' t)

-- `if (g_scr.x == MX)`, and then the next line.
unfoldable pub wrap : Bool → Scr × Vram → Scr × Vram
unfolding newline
wrap use16 t = if t.0.x == max_x then newline use16 t else t

-- One round of scr_printdata's loop.
unfoldable pub print_char : Bool → ℕ → Scr × Vram → Scr × Vram
unfolding newline put_blanks wrap put_glyph
print_char use16 c t =
    if c == 13
    then (record t.0 { x = 0 }, t.1)
    else if c == 10
    then newline use16 t
    else if c == 9
    then put_blanks 4 use16 t
    else wrap use16 (put_glyph use16 c t)

unfoldable pub print_chars : Bool → List ℕ → Scr × Vram → Scr × Vram
unfolding print_char
print_chars use16 [] t = t
print_chars use16 (c ∷ cs) t = print_chars use16 cs (print_char use16 c t)

-- scr_printdata(buf, bufsz), where `buf` is those `bufsz` bytes.
unfoldable pub scr_printdata : Bool → List ℕ → Scr × Vram → ℕ × (Scr × Vram)
unfolding print_chars
scr_printdata use16 buf t = if not t.0.init then (0, t) else (length buf, print_chars use16 buf t)

-- SCR_PRINTF_BUFSZ
abbrev pub scr_printf_bufsz : ℕ
scr_printf_bufsz = 512

-- scr_printf behind vsnprintf: what it printed, in its buffer.
unfoldable pub scr_print_text : Bool → ℤ → List ℕ → Scr × Vram → ℤ × (Scr × Vram)
unfolding scr_printdata
scr_print_text use16 (negsuc n) buf t = (negsuc n, t)
scr_print_text use16 (pos n) buf t =
    let (k, t') = scr_printdata use16 (take n buf) t in
    if leb scr_printf_bufsz n then (pos 0, t) else (pos k, t')

-- scr_printf: `vsnprintf` takes the size of the buffer, the format and the arguments.
unfoldable pub scr_printf :
    {W : Type 0}
    → (ℕ → ℕ → ℕ → W → ℤ × List ℕ)
    → Bool
    → (fmt va : ℕ) → W
    → Scr × Vram
    → ℤ × (Scr × Vram)
unfolding scr_print_text
scr_printf vsnprintf use16 fmt va w t =
    let (len, buf) = vsnprintf scr_printf_bufsz fmt va w in scr_print_text use16 len buf t

-- The loop of scr_clear, with `n` lines left.
unfoldable pub clear_lines : Bool → ℕ → ℕ → Scr → Vram → Vram
unfolding scr_clearline
clear_lines use16 zero y s v = v
clear_lines use16 (suc n) y s v = clear_lines use16 n (y + 1) s (scr_clearline use16 y s v)

unfoldable pub scr_clear : Bool → Scr × Vram → Scr × Vram
unfolding clear_lines clear_screen scr_setxy
scr_clear use16 (s, v) =
    if not s.init
    then (s, v)
    else (let s1 = scr_setxy 0 0 s in
        (s1, clear_screen use16 s1 s1.bgcol (clear_lines use16 max_y 0 s v)))

-- scr_puts: `none` is NULL, `some` the bytes in front of the NUL.
unfoldable pub scr_puts : Bool → Option (List ℕ) → Scr × Vram → ℕ × (Scr × Vram)
unfolding scr_printdata
scr_puts use16 none t = scr_printdata use16 [] t
scr_puts use16 (some str) t = scr_printdata use16 str t

-- scr_putsl: and then a newline.
unfoldable pub scr_putsl : Bool → Option (List ℕ) → Scr × Vram → ℕ × (Scr × Vram)
unfolding scr_puts
scr_putsl use16 str t =
    let (n, t1) = scr_puts use16 str t in
    let (k, t2) = scr_printdata use16 (10 ∷ []) t1 in (n + k, t2)
