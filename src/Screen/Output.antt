-- ===== src/Screen/Output.antt =====
-- libs/psp/debug/putchar_.c: the output of the printf library's printf, to the terminal or to the
-- screen. `tty` is the build's PRINTF_TO_TTY_STDOUT.
use libkprintf.Screen.Print.{scr_printdata}
use libkprintf.Prelude.{List, ℕ, Bool, ◌∷◌, if◌then◌else◌, false, ◌≡◌, [], ap, sym, ◌∙◌}
use libkprintf.Screen.{Scr, Vram}
use libkprintf.Screen.Kernel.Chunks.{shown, shown-nil, shown-append}

-- sceIoWrite(sceKernelStdout(), bytes)
unfoldable pub putchar_ :
    {W : Type 0} → (List ℕ → W → W) → (tty use16 : Bool) → ℕ → (Scr × Vram) × W → (Scr × Vram) × W
unfolding scr_printdata
putchar_ write tty use16 c (t, w) =
    if tty then (t, write (c ∷ []) w) else ((scr_printdata use16 (c ∷ []) t).1, w)

-- The calls that printf makes for a text.
unfoldable pub put_all :
    {W : Type 0}
    → (List ℕ → W → W)
    → (tty use16 : Bool) → List ℕ
    → (Scr × Vram) × W
    → (Scr × Vram) × W
unfolding putchar_
put_all write tty use16 [] tw = tw
put_all write tty use16 (c ∷ cs) tw = put_all write tty use16 cs (putchar_ write tty use16 c tw)

-- A text that printf puts on the screen character by character is shown as scr_printdata shows it
-- whole, and nothing goes to the terminal.
pub put_all-shown :
    {W : Type 0} (write : List ℕ → W → W) (use16 : Bool) (cs : List ℕ) (t : Scr × Vram) (w : W)
    → put_all write false use16 cs (t, w) ≡ (shown use16 cs t, w)
unfolding put_all putchar_
put_all-shown write use16 [] t w = ap (λ (x : Scr × Vram). (x, w)) (sym (shown-nil use16 t))
put_all-shown write use16 (c ∷ cs) t w =
    put_all-shown write use16 cs (shown use16 (c ∷ []) t) w
    ∙ ap (λ (x : Scr × Vram). (x, w)) (sym (shown-append use16 (c ∷ []) cs t))
