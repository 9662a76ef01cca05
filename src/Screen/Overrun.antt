-- ===== src/Screen/Overrun.antt =====
-- scr.c, scr_printdata: a tab near the right edge. The cursor is compared with the edge by `==`
-- behind a drawn character only, so four columns added by a tab can step over it.
use libkprintf.Screen.{Scr, Vram, max_x}
use libkprintf.Screen.Cursor.{
  move, IsPlain, AllPlain, print_chars-nil, print_char-move, print_chars-cons,
}
use libkprintf.Screen.Print.{advance, print_chars, print_char}
use libkprintf.Prelude.{List, ℕ, ◌+◌, ◌<◌, ◌≤◌, ◌^◌, length, ◌≢◌, ◌≡◌, ◌∷◌, arith, [], Bool}

move-beyond :
    (c : ℕ) (s : Scr)
    → IsPlain c
    → max_x < s.x + 1
    → s.x + 1 < 2 ^ 16
    → max_x ≢ s.x + 1
    → ((move c s).x ≡ s.x + 1) × ((move c s).y ≡ s.y)
unfolding move advance
move-beyond c s pl far small ne = ground arith

move-tab : (s : Scr) → s.x + 4 < 2 ^ 16 → ((move 9 s).x ≡ s.x + 4) × ((move 9 s).y ≡ s.y)
unfolding move advance
move-tab s small = omega arith

-- A cursor beyond the edge goes further with each plain byte.
beyond :
    (use16 : Bool) (cs : List ℕ) (s : Scr) (v : Vram)
    → AllPlain cs
    → max_x < s.x
    → s.x + length cs < 2 ^ 16
    → let s' = (print_chars use16 cs (s, v)).0 in (s'.x ≡ s.x + length cs) × (s'.y ≡ s.y)
beyond use16 [] s v n far small = rw (print_chars-nil use16 (s, v)) (omega arith)
beyond use16 (c ∷ cs) s v (pl, n) far small =
    let r = print_char use16 c (s, v) in
    let step : (r.0.x ≡ s.x + 1) × (r.0.y ≡ s.y) =
      rw (print_char-move use16 c s v)
        (move-beyond c s pl (omega arith) (omega arith) (omega arith)) in
    let rest : ((print_chars use16 cs r).0.x ≡ r.0.x + length cs)
        × ((print_chars use16 cs r).0.y ≡ r.0.y) =
      beyond use16 cs r.0 r.1 n (omega arith) (omega arith) in
    rw (print_chars-cons use16 c cs (s, v)) (omega arith)

-- A tab in one of the columns 65 to 67, and then plain text, as long as the u16 column does not
-- wrap: the line is never ended, and the column grows with the text beyond the 68 columns of the
-- screen.
pub print_chars-overrun :
    (use16 : Bool) (cs : List ℕ) (s : Scr) (v : Vram)
    → AllPlain cs
    → 65 ≤ s.x
    → s.x < max_x
    → s.x + 4 + length cs < 2 ^ 16
    → let s' = (print_chars use16 (9 ∷ cs) (s, v)).0 in
      (s'.x ≡ s.x + 4 + length cs) × (max_x < s'.x) × (s'.y ≡ s.y)
print_chars-overrun use16 cs s v n late on_screen small =
    let r = print_char use16 9 (s, v) in
    let tab : (r.0.x ≡ s.x + 4) × (r.0.y ≡ s.y) =
      rw (print_char-move use16 9 s v) (move-tab s (omega arith)) in
    let rest : ((print_chars use16 cs r).0.x ≡ r.0.x + length cs)
        × ((print_chars use16 cs r).0.y ≡ r.0.y) =
      beyond use16 cs r.0 r.1 n (omega arith) (omega arith) in
    rw (print_chars-cons use16 9 cs (s, v)) (omega arith)
