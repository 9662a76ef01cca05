-- ===== src/Screen/Colour/Exact.antt =====
-- scr.c: what a converted colour holds.
-- The channels of a 32-bit colour: red, green, blue and alpha, from 0 to 3.
use libkprintf.Prelude.{
  ℕ, ◌≡◌, ◌<◌, ◌/◌, ◌^◌, ◌%◌, ◌+◌, ◌*◌, bit_or, arith, ◌∙◌, if◌then◌else◌, ap, ◌==◌,
}
use libkprintf.Screen.Colour.{convert_8888_to_565, bits, convert_8888_to_4444, convert_8888_to_5551}
use libkprintf.Screen.Colour.Fields.{bit_or-low, bit_or-high}
use libkprintf.Screen.Draw.{convert}
use libkprintf.Screen.{rgb565, rgba5551, rgba4444}

abbrev pub channel : ℕ → ℕ → ℕ
channel i color = color / 256 ^ i % 256

convert_8888_to_565-sum :
    (color : ℕ)
    → convert_8888_to_565 color
      ≡ bits color 3 5 + bits color 10 6 * 2 ^ 5 + bits color 19 5 * 2 ^ 11
unfolding convert_8888_to_565
convert_8888_to_565-sum color =
    let r = bits color 3 5 in
    let g = bits color 10 6 in
    rw (bit_or-low 5 r g (omega arith))
      (bit_or-low 11 (r + g * 2 ^ 5) (bits color 19 5) (omega arith))

-- A field between the high one and the low ones.
or_between :
    (m k h x y : ℕ)
    → x < 2 ^ k
    → x < 2 ^ m
    → y * 2 ^ k < 2 ^ m
    → bit_or (h * 2 ^ m + x) (y * 2 ^ k) ≡ h * 2 ^ m + (x + y * 2 ^ k)
or_between m k h x y fits small_x small_y =
    bit_or-high m h x (y * 2 ^ k) small_x small_y
    ∙ ap (λ (t : ℕ). h * 2 ^ m + t) (bit_or-low k x y fits)

or_bottom : (m h y : ℕ) → y < 2 ^ m → bit_or (h * 2 ^ m) y ≡ h * 2 ^ m + y
or_bottom m h y fits =
    let one : y * 2 ^ 0 ≡ y = omega arith in
    let sum : h * 2 ^ m + 0 ≡ h * 2 ^ m = omega arith in
    let all : bit_or (h * 2 ^ m + 0) (y * 2 ^ 0) ≡ h * 2 ^ m + (0 + y * 2 ^ 0) =
      or_between m 0 h 0 y (omega arith) (omega arith) (omega arith) in
    rw (sum, one) at all ∙ omega arith

convert_8888_to_4444-sum :
    (color : ℕ)
    → convert_8888_to_4444 color
      ≡ bits color 28 4 * 2 ^ 12
        + (bits color 4 4 + bits color 12 4 * 2 ^ 4 + bits color 20 4 * 2 ^ 8)
unfolding convert_8888_to_4444
convert_8888_to_4444-sum color =
    let a = bits color 28 4 in
    let r = bits color 4 4 in
    let g = bits color 12 4 in
    rw
      (
        or_bottom 12 a r (omega arith),
        or_between 12 4 a r g (omega arith) (omega arith) (omega arith),
      )
      (or_between 12 8 a (r + g * 2 ^ 4) (bits color 20 4) (omega arith) (omega arith)
        (omega arith))

convert_8888_to_5551-sum :
    (color : ℕ)
    → convert_8888_to_5551 color
      ≡ (if color / 2 ^ 24 == 0 then 0 else 1) * 2 ^ 15
        + (bits color 3 5 + bits color 11 5 * 2 ^ 5 + bits color 19 5 * 2 ^ 10)
unfolding convert_8888_to_5551
convert_8888_to_5551-sum color =
    let a : ℕ = if color / 2 ^ 24 == 0 then 0 else 1 in
    let top : (if color / 2 ^ 24 == 0 then 0 else 0x8000) ≡ a * 2 ^ 15 = ground arith in
    let r = bits color 3 5 in
    let g = bits color 11 5 in
    rw
      (
        top,
        or_bottom 15 a r (omega arith),
        or_between 15 5 a r g (omega arith) (omega arith) (omega arith),
      )
      (or_between 15 10 a (r + g * 2 ^ 5) (bits color 19 5) (omega arith) (omega arith)
        (omega arith))

-- For a 32-bit colour: the 16-bit formats hold the highest bits of its channels, from the lowest
-- field on red, green, blue and alpha: 5, 6 and 5 bits in RGB565; 5, 5 and 5 bits and one that says
-- whether alpha is not 0 in RGBA5551; 4 bits of each in RGBA4444. Nothing of one channel gets into
-- the field of another.
pub convert-channels :
    (color : ℕ)
    → color < 2 ^ 32
    → let r = channel 0 color in
      let g = channel 1 color in
      let b = channel 2 color in
      let a = channel 3 color in
      (convert rgb565 color ≡ r / 8 + g / 4 * 2 ^ 5 + b / 8 * 2 ^ 11)
      × (convert rgba5551 color
          ≡ r / 8 + g / 8 * 2 ^ 5 + b / 8 * 2 ^ 10 + (if a == 0 then 0 else 2 ^ 15))
      × (convert rgba4444 color ≡ r / 16 + g / 16 * 2 ^ 4 + b / 16 * 2 ^ 8 + a / 16 * 2 ^ 12)
unfolding convert
convert-channels color fits = (
  convert_8888_to_565-sum color ∙ omega arith,
  convert_8888_to_5551-sum color ∙ ground arith,
  convert_8888_to_4444-sum color ∙ omega arith,
)
