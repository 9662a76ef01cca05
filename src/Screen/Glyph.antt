-- ===== src/Screen/Glyph.antt =====
-- scr.c, drawchar_32 and drawchar_16: what each byte of a glyph's cell holds, and that no other byte
-- changes.
use Prim.Native.Nat.{digits, min, bit_and-bitwise}
use native.Mathlib.Nat.{pow-suc, div-div-eq-div-mul, zero-div, one-le-pow}
use libkprintf.Prelude.{
  ℕ, ◌/◌, ◌^◌, ◌<◌, ◌+◌, ◌%◌, ◌⊎◌, ◌≡◌, ◌≤◌, ◌-◌, arith, ◌*◌, ◌≢◌, ap, inr, inl, Bool, true,
  if◌then◌else◌, Bool-cases, suc, ◌∙◌, false, sym, refl, zero, ltb, ◌==◌, bit_and, not,
}
use libkprintf.Screen.Draw.{
  poke, draw_pixel, draw_row, draw_rows, drawchar, is_lit, glyph_start, sar,
}
use libkprintf.Screen.{Vram, Scr, Font, has_flag, flag_use_bgcol}
use native.Mathlib.Decide.{dec_lt, ℕ_discrete}

-- The byte `b` of a pixel.
abbrev pub byte : ℕ → ℕ → ℕ
byte color b = color / 256 ^ b % 256

pub poke_self : (size : ℕ) (v : Vram) (a c b : ℕ) → b < size → poke size a c v (a + b) ≡ byte c b
unfolding poke
poke_self size v a c b lt = let e : a + b - a ≡ b = omega arith in ground arith

pub poke_ne : (size : ℕ) (v : Vram) (a c b : ℕ) → (b < a) ⊎ (a + size ≤ b) → poke size a c v b ≡ v b
unfolding poke
poke_ne size v a c b out = ground arith

-- Two pixels of a row do not overlap.
apart_lt : (size a j k b : ℕ) → j < k → a + size * j + size ≤ a + size * k + b
apart_lt size a j k b lt =
    let e : k ≡ j + 1 + (k - j - 1) = omega arith in
    let d : size * k ≡ size * (j + 1 + (k - j - 1)) = ap (λ (t : ℕ). size * t) e in grind arith

apart_gt : (size a j k b : ℕ) → k < j → b < size → a + size * k + b < a + size * j
apart_gt size a j k b lt small =
    let e : j ≡ k + 1 + (j - k - 1) = omega arith in
    let d : size * j ≡ size * (k + 1 + (j - k - 1)) = ap (λ (t : ℕ). size * t) e in grind arith

apart :
    (size a j k b : ℕ)
    → k ≢ j
    → b < size
    → (a + size * k + b < a + size * j) ⊎ (a + size * j + size ≤ a + size * k + b)
apart size a j k b ne small = elim (dec_lt j k) [
  | yes lt ↦ inr (apart_lt size a j k b lt)
  | no ge ↦ inl (apart_gt size a j k b (omega arith) small)
]

-- The byte `b` is none of the pixel at `a`.
abbrev pub Outside : ℕ → ℕ → ℕ → Type 0
Outside size a b = (b < a) ⊎ (a + size ≤ b)

module _ (size : ℕ) (use_bgcol : Bool) (fgcol bgcol : ℕ) where
  -- The byte `b` of a pixel, where `old` stood.
  unfoldable pub pixel : Bool → ℕ → ℕ → ℕ
  pixel lit old b = if lit then byte fgcol b else if use_bgcol then byte bgcol b else old

  draw_pixel_self :
      (lit : Bool) (a : ℕ) (v : Vram) (b : ℕ)
      → b < size
      → draw_pixel size lit use_bgcol fgcol bgcol a v (a + b) ≡ pixel lit (v (a + b)) b
  unfolding draw_pixel pixel
  draw_pixel_self true a v b lt = poke_self size v a fgcol b lt
  draw_pixel_self false a v b lt = elim (Bool-cases use_bgcol) [
    | inl on ↦ rw on (poke_self size v a bgcol b lt)
    | inr off ↦ rw off refl
  ]

  draw_pixel_other :
      (lit : Bool) (a : ℕ) (v : Vram) (b : ℕ)
      → Outside size a b
      → draw_pixel size lit use_bgcol fgcol bgcol a v b ≡ v b
  unfolding draw_pixel
  draw_pixel_other true a v b out = poke_ne size v a fgcol b out
  draw_pixel_other false a v b out = elim (Bool-cases use_bgcol) [
    | inl on ↦ rw on (poke_ne size v a bgcol b out)
    | inr off ↦ rw off refl
  ]

  draw_row_other :
      (n j bits a : ℕ) (v : Vram) (b : ℕ)
      → ((k : ℕ) → j ≤ k → k < j + n → Outside size (a + size * k) b)
      → draw_row size n j bits use_bgcol fgcol bgcol a v b ≡ v b
  unfolding draw_row
  draw_row_other zero j bits a v b out = refl
  draw_row_other (suc n) j bits a v b out =
      draw_row_other n (j + 1) bits a _ b (λ k lo hi. out k (omega arith) (omega arith))
      ∙ draw_pixel_other (is_lit bits j) (a + size * j) v b (out j (omega arith) (omega arith))

  draw_row-pixel :
      (n j bits a : ℕ) (v : Vram) (k b : ℕ)
      → j ≤ k
      → k < j + n
      → b < size
      → draw_row size n j bits use_bgcol fgcol bgcol a v (a + size * k + b)
        ≡ pixel (is_lit bits k) (v (a + size * k + b)) b
  unfolding draw_row
  draw_row-pixel zero j bits a v k b lo hi small = absurd (omega arith)
  draw_row-pixel (suc n) j bits a v k b lo hi small = elim (ℕ_discrete j k) [
    | yes e ↦
        draw_row_other n (j + 1) bits a _ (a + size * k + b)
          (λ i lo' hi'. apart size a i k b (omega arith) small)
        ∙ rw (sym e) (draw_pixel_self (is_lit bits j) (a + size * j) v b small)
    | no ne ↦
        draw_row-pixel n (j + 1) bits a _ k b (omega arith) (omega arith) small
        ∙ ap (λ (old : ℕ). pixel (is_lit bits k) old b)
            (draw_pixel_other (is_lit bits j) (a + size * j) v (a + size * k + b)
              (apart size a j k b (omega arith) small))
  ]

  -- Pixel `k` of row `r`, from the address of the glyph's first one.
  abbrev pub at : ℕ → ℕ → ℕ → ℕ
  at a r k = a + size * (512 * r) + size * k

  rows_apart :
      (a r k i j b : ℕ) → k < 8 → j < 8 → i ≢ r → b < size → Outside size (at a i j) (at a r k + b)
  rows_apart a r k i j b k8 j8 ne small =
      let e1 : at a i j ≡ a + size * (512 * i + j) = grind arith in
      let e2 : at a r k ≡ a + size * (512 * r + k) = grind arith in
      rw (e1, e2) (apart size a (512 * i + j) (512 * r + k) b (omega arith) small)

  module _ (font : Font) (glyph a : ℕ) where
    draw_rows_other :
        (n i : ℕ) (v : Vram) (b : ℕ)
        → ((r k : ℕ) → i ≤ r → r < i + n → k < 8 → Outside size (at a r k) b)
        → draw_rows size n i font glyph use_bgcol fgcol bgcol a v b ≡ v b
    unfolding draw_rows
    draw_rows_other zero i v b out = refl
    draw_rows_other (suc n) i v b out =
        draw_rows_other n (i + 1) _ b (λ r k lo hi. out r k (omega arith) (omega arith))
        ∙ draw_row_other 8 0 (font (glyph + i)) (a + size * (512 * i)) v b
            (λ k lo hi. out i k (omega arith) (omega arith) hi)

    draw_rows-pixel :
        (n i : ℕ) (v : Vram) (r k b : ℕ)
        → i ≤ r
        → r < i + n
        → k < 8
        → b < size
        → draw_rows size n i font glyph use_bgcol fgcol bgcol a v (at a r k + b)
          ≡ pixel (is_lit (font (glyph + r)) k) (v (at a r k + b)) b
    unfolding draw_rows
    draw_rows-pixel zero i v r k b lo hi near small = absurd (omega arith)
    draw_rows-pixel (suc n) i v r k b lo hi near small = elim (ℕ_discrete i r) [
      | yes e ↦
          draw_rows_other n (i + 1) _ (at a r k + b)
            (λ i' j lo' hi' near'. rows_apart a r k i' j b near near' (omega arith) small)
          ∙ rw (sym e) (
              draw_row-pixel 8 0 (font (glyph + i)) (a + size * (512 * i)) v k b (omega arith) near
                small)
      | no ne ↦
          draw_rows-pixel n (i + 1) _ r k b (omega arith) (omega arith) near small
          ∙ ap (λ (old : ℕ). pixel (is_lit (font (glyph + r)) k) old b)
              (draw_row_other 8 0 (font (glyph + i)) (a + size * (512 * i)) v (at a r k + b)
                (λ j lo' hi'. rows_apart a r k i j b near hi' ne small))
    ]

-- `&` on the binary digits, with a count of the digits to go.
abbrev and_digits : ℕ → ℕ → ℕ → ℕ
and_digits = digits (λ b. zero) min

and_digits-zero : (n b : ℕ) → and_digits n 0 b ≡ 0
and_digits-zero zero b = refl
and_digits-zero (suc n) b = refl

and_digits-half :
    (n a b : ℕ) → and_digits (suc n) a b ≡ and_digits n (a / 2) (b / 2) * 2 + min (a % 2) (b % 2)
and_digits-half n zero b = let rest = and_digits-zero n (b / 2) in rw rest (omega arith)
and_digits-half n (suc a) b = refl

and_digits-none : (n a : ℕ) → and_digits n a 0 ≡ 0
and_digits-none zero a = refl
and_digits-none (suc n) a =
    let rest = and_digits-none n (a / 2) in and_digits-half n a 0 ∙ rw rest (omega arith)

-- `&` with a single bit.
and_digits-bit : (i n a : ℕ) → a ≤ n → and_digits n a (2 ^ i) ≡ a / 2 ^ i % 2 * 2 ^ i
and_digits-bit i n zero le =
    let none : 0 / 2 ^ i ≡ 0 = zero-div (2 ^ i) in and_digits-zero n (2 ^ i) ∙ rw none (omega arith)
and_digits-bit i zero (suc a) le = absurd (omega arith)
and_digits-bit zero (suc n) (suc a) le =
    let rest = and_digits-none n (suc a / 2) in and_digits-half n (suc a) 1 ∙ rw rest (omega arith)
and_digits-bit (suc i) (suc n) (suc a) le =
    let p = pow-suc 2 i in
    let half : 2 ^ suc i / 2 ≡ 2 ^ i = omega arith in
    let even : 2 ^ suc i % 2 ≡ 0 = omega arith in
    let rest = and_digits-bit i n (suc a / 2) (omega arith) in
    let same : 2 * 2 ^ i ≡ 2 ^ suc i = omega arith in
    let far = div-div-eq-div-mul (suc a) 2 (2 ^ i) ∙ ap (λ (t : ℕ). suc a / t) same in
    and_digits-half n (suc a) (2 ^ suc i) ∙ rw (half, even, rest, far, p) (grind arith)

-- The pixel `k` of a glyph's row stands in the bit 7 - k.
abbrev pub bit_is_set : ℕ → ℕ → Bool
bit_is_set bits i = bits / 2 ^ i % 2 == 1

mask-bit : (k : ℕ) → k < 8 → 128 / 2 ^ k ≡ 2 ^ (7 - k)
mask-bit zero near = refl
mask-bit (suc zero) near = refl
mask-bit (suc (suc zero)) near = refl
mask-bit (suc (suc (suc zero))) near = refl
mask-bit (suc (suc (suc (suc zero)))) near = refl
mask-bit (suc (suc (suc (suc (suc zero))))) near = refl
mask-bit (suc (suc (suc (suc (suc (suc zero)))))) near = refl
mask-bit (suc (suc (suc (suc (suc (suc (suc zero))))))) near = refl
mask-bit (suc (suc (suc (suc (suc (suc (suc (suc k)))))))) near = absurd (omega arith)

digit_tests : (d b : ℕ) → d < 2 → b ≢ 0 → not (d * b == 0) ≡ (d == 1)
digit_tests zero b small some_bit = let none : 0 * b ≡ 0 = omega arith in rw none refl
digit_tests (suc zero) b small some_bit = ground arith
digit_tests (suc (suc d)) b small some_bit = absurd (omega arith)

is_lit-bit : (bits k : ℕ) → k < 8 → is_lit bits k ≡ bit_is_set bits (7 - k)
unfolding is_lit
is_lit-bit bits k near =
    let bit : bit_and bits (2 ^ (7 - k)) ≡ bits / 2 ^ (7 - k) % 2 * 2 ^ (7 - k) =
      simp bit_and-bitwise (and_digits-bit (7 - k) bits bits (omega arith)) in
    rw (mask-bit k near, bit)
      (digit_tests (bits / 2 ^ (7 - k) % 2) (2 ^ (7 - k)) (omega arith)
        (let some_bit = one-le-pow (7 - k) 2 (omega arith) in omega arith))

-- Two's complement, shifted to the right by one bit for 2-byte and two bits for 4-byte pixels.
abbrev pub shifted : ℕ → ℕ → ℕ
shifted size offset =
    if ltb offset (2 ^ 31) then offset / size else 2 ^ 32 - (2 ^ 32 - offset + size - 1) / size

module _ (size : ℕ) (s : Scr) (x y fgcol bgcol ch : ℕ) (v : Vram) (on : s.init ≡ true) where
  -- On an initialised screen, with pixels of `size` bytes and `start` the 32-bit address of the pixel
  -- (x, y), from vram_base on and behind vram_offset >> 2 or >> 1 bytes, drawchar writes the 8 by 8
  -- pixels from there on, 512 to a row, and nothing else: pixel k of row r gets the foreground colour
  -- if bit 7 - k of the glyph's byte r is set in the font, else the background colour or, without the
  -- flag for it, what it held before.
  pub drawchar-draws :
      (start : ℕ)
      → start ≡ (s.vram_base + shifted size s.vram_offset + size * (x + y * 512)) % 2 ^ 32
      → let after = drawchar size s x y fgcol bgcol ch v in
        ((r k b : ℕ)
          → r < 8
          → k < 8
          → b < size
          → after (start + size * (512 * r) + size * k + b) ≡ (
              if bit_is_set (s.font (ch * 8 + r)) (7 - k)
              then byte fgcol b
              else if has_flag s.flags flag_use_bgcol
              then byte bgcol b
              else v (start + size * (512 * r) + size * k + b)))
        × ((b : ℕ)
            → ((r k : ℕ) → r < 8 → k < 8 → Outside size (start + size * (512 * r) + size * k) b)
            → after b ≡ v b)
  unfolding drawchar pixel glyph_start sar
  drawchar-draws start e = (
    λ r k b row col small.
        rw (on, sym (is_lit-bit (s.font (ch * 8 + r)) k col), e)
          (draw_rows-pixel size (has_flag s.flags flag_use_bgcol) fgcol bgcol s.font (ch * 8)
            (glyph_start size s x y) 8 0 v r k b (omega arith) row col small),
    λ b out. rw on (
        draw_rows_other size (has_flag s.flags flag_use_bgcol) fgcol bgcol s.font (ch * 8)
          (glyph_start size s x y) 8 0 v b (λ r k lo hi near. rw (sym e) (out r k hi near))),
  )
