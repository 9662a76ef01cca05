-- ===== src/Screen/Colour.antt =====
-- scr.c: the conversions of a 32-bit colour (8 bits each of red, green, blue and alpha, from the
-- lowest) to the 16-bit pixel formats.
pub mod Fields
pub mod Exact
use libkprintf.Prelude.{ℕ, ◌/◌, ◌%◌, ◌^◌, ◌*◌, bit_or, ◌==◌, if◌then◌else◌}

-- `(color >> n) & (2 ^ w - 1)`
abbrev pub bits : ℕ → ℕ → ℕ → ℕ
bits color n w = color / 2 ^ n % 2 ^ w

unfoldable pub convert_8888_to_565 : ℕ → ℕ
convert_8888_to_565 color =
    let b = bits color 19 5 in
    let g = bits color 10 6 in let r = bits color 3 5 in bit_or (bit_or r (g * 2 ^ 5)) (b * 2 ^ 11)

unfoldable pub convert_8888_to_5551 : ℕ → ℕ
convert_8888_to_5551 color =
    let a = if color / 2 ^ 24 == 0 then 0 else 0x8000 in
    let b = bits color 19 5 in
    let g = bits color 11 5 in
    let r = bits color 3 5 in bit_or (bit_or (bit_or a r) (g * 2 ^ 5)) (b * 2 ^ 10)

unfoldable pub convert_8888_to_4444 : ℕ → ℕ
convert_8888_to_4444 color =
    let a = bits color 28 4 in
    let b = bits color 20 4 in
    let g = bits color 12 4 in
    let r = bits color 4 4 in bit_or (bit_or (bit_or (a * 2 ^ 12) r) (g * 2 ^ 4)) (b * 2 ^ 8)
