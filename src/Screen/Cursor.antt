-- ===== src/Screen/Cursor.antt =====
-- scr.c, scr_printdata: where the cursor goes.
use libkprintf.Screen.Print.{print_chars, print_char, next_line, advance}
use libkprintf.Prelude.{
  List, ℕ, ◌*◌, ◌∷◌, ◌≢◌, ◌<◌, [], ◌+◌, arith, ◌≡◌, ◌%◌, if◌then◌else◌, length, Bool-cases, ◌==◌,
  inl, inr, ◌^◌, refl, Bool,
}
use libkprintf.Screen.{Scr, max_x, Vram, max_y}

abbrev pub InBounds : Scr → Type 0
InBounds s = (s.x < max_x) × (s.y < max_y)

-- A byte that is drawn: no carriage return, no newline, no tab.
abbrev pub IsPlain : ℕ → Type 0
IsPlain c = (c ≢ 13) × (c ≢ 10) × (c ≢ 9)

abbrev pub AllPlain : List ℕ → Type 0
AllPlain [] = Unit
AllPlain (c ∷ cs) = IsPlain c × AllPlain cs

abbrev pub NoTab : List ℕ → Type 0
NoTab [] = Unit
NoTab (c ∷ cs) = (c ≢ 9) × NoTab cs

-- The cursor's place, counted in characters along the lines.
abbrev pub place : Scr → ℕ
place s = s.y * max_x + s.x

-- What a byte does to the cursor, whatever is drawn.
unfoldable pub move : ℕ → Scr → Scr
unfolding next_line advance
move c s =
    if c == 13
    then record s { x = 0 }
    else if c == 10
    then next_line s
    else if c == 9
    then advance (advance (advance (advance s)))
    else if (advance s).x == max_x
    then next_line (advance s)
    else advance s

pub print_char-move :
    (use16 : Bool) (c : ℕ) (s : Scr) (v : Vram) → (print_char use16 c (s, v)).0 ≡ move c s
unfolding print_char move
print_char-move use16 c s v = elim (Bool-cases (c == 13)) [
  | inl cr ↦ rw cr
  | inr no_cr ↦ elim (Bool-cases (c == 10)) [
    | inl nl ↦ rw (no_cr, nl)
    | inr no_nl ↦ elim (Bool-cases (c == 9)) [
      | inl tab ↦ rw (no_cr, no_nl, tab)
      | inr no_tab ↦ elim (Bool-cases ((s.x + 1) % 2 ^ 16 == max_x)) [
        | inl edge ↦ rw (no_cr, no_nl, no_tab, edge)
        | inr inside ↦ rw (no_cr, no_nl, no_tab, inside)
      ]
    ]
  ]
]

move-InBounds : (c : ℕ) (s : Scr) → c ≢ 9 → InBounds s → InBounds (move c s)
unfolding move next_line advance
move-InBounds c s ne b = ground arith

move-place :
    (c : ℕ) (s : Scr) → IsPlain c → InBounds s → place (move c s) ≡ (place s + 1) % (max_x * max_y)
unfolding move next_line advance
move-place c s ne b = ground arith

pub print_chars-nil : (use16 : Bool) (t : Scr × Vram) → print_chars use16 [] t ≡ t
unfolding print_chars
print_chars-nil use16 t = refl

pub print_chars-cons :
    (use16 : Bool) (c : ℕ) (cs : List ℕ) (t : Scr × Vram)
    → print_chars use16 (c ∷ cs) t ≡ print_chars use16 cs (print_char use16 c t)
unfolding print_chars
print_chars-cons use16 c cs t = refl

pub print_char-InBounds :
    (use16 : Bool) (c : ℕ) (s : Scr) (v : Vram)
    → c ≢ 9
    → InBounds s
    → InBounds (print_char use16 c (s, v)).0
print_char-InBounds use16 c s v ne b = rw (print_char-move use16 c s v) (move-InBounds c s ne b)

-- From a cursor on the screen, text without tabs keeps it on the screen's 68 columns and 34 lines.
pub print_chars-InBounds :
    (use16 : Bool) (cs : List ℕ) (t : Scr × Vram)
    → NoTab cs
    → InBounds t.0
    → InBounds (print_chars use16 cs t).0
print_chars-InBounds use16 [] t n b = rw (print_chars-nil use16 t) b
print_chars-InBounds use16 (c ∷ cs) (s, v) (ne, n) b = rw (print_chars-cons use16 c cs (s, v)) (
    print_chars-InBounds use16 cs (print_char use16 c (s, v)) n
      (print_char-InBounds use16 c s v ne b))

-- From a cursor on the screen, plain text (no tab, newline or carriage return) moves it on by one
-- place for each byte: to the right, from the end of a line to the start of the next, and from the
-- last place of the screen to the first.
pub print_chars-place :
    (use16 : Bool) (cs : List ℕ) (s : Scr) (v : Vram)
    → AllPlain cs
    → InBounds s
    → place (print_chars use16 cs (s, v)).0 ≡ (place s + length cs) % (max_x * max_y)
print_chars-place use16 [] s v n b = rw (print_chars-nil use16 (s, v)) (omega arith)
print_chars-place use16 (c ∷ cs) s v (pl, n) b =
    let r = print_char use16 c (s, v) in
    let step : place r.0 ≡ (place s + 1) % (max_x * max_y) =
      rw (print_char-move use16 c s v) (move-place c s pl b) in
    let rest : place (print_chars use16 cs r).0 ≡ (place r.0 + length cs) % (max_x * max_y) =
      print_chars-place use16 cs r.0 r.1 n (print_char-InBounds use16 c s v pl.2 b) in
    rw (print_chars-cons use16 c cs (s, v)) (omega arith)
