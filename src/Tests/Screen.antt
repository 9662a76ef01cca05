-- ===== src/Tests/Screen.antt =====
-- Witnesses for the debug screen.
use libkprintf.Screen.{Vram, Font, Scr, has_flag, flag_use_bgcol, rgb565, rgba5551, rgba4444}
use libkprintf.Screen.Cursor.{InBounds, place, print_chars-InBounds, print_chars-place}
use libkprintf.Screen.Print.{print_chars, scr_printdata}
use libkprintf.Prelude.{
  true, ◌∷◌, [], ◌≡◌, ◌+◌, arith, ◌*◌, ◌<◌, ◌%◌, ℕ, if◌then◌else◌, refl, false, ◌⊎◌, pos, negsuc,
  is_neg, replicate, some, inr, ◌/◌, ◌^◌, ◌-◌, ◌≤◌,
}
use libkprintf.Screen.Overrun.{print_chars-overrun}
use libkprintf.Screen.Draw.{drawchar, convert}
use libkprintf.Screen.Glyph.{drawchar-draws, byte, Outside, drawchar-draws, bit_is_set}
use libkprintf.Screen.Setup.{DisplayCalls, scr_initex}
use libkprintf.Screen.Setup.Outcome.{
  DisplayLaws, IsReady, scr_initex-clears_old, scr_initex-outcome, Stuck,
}
use libkprintf.Screen.Kernel.{scr_kprintf}
use libkprintf.Screen.Kernel.Chunks.{printed, scr_kprintf-shown}
use libkprintf.Screen.Frame.{print_chars-Beyond}
use libkprintf.Screen.Colour.Exact.{convert-channels}

abbrev solid : Font
solid i = 255

-- The cursor in column 66 of the last line.
abbrev near_edge : Scr
near_edge = record {
  init = true;
  x = 66;
  y = 33;
  fgcol = 0xffff_ffff;
  bgcol = 0;
  flags = 24;
  vram_mode = 3;
  vram_base = 0x4400_0000;
  vram_offset = 0;
  font = solid;
}

abbrev blank : Vram
blank a = 0

print_chars-place_example :
    place (print_chars false (b'a' ∷ b'b' ∷ b'c' ∷ []) (near_edge, blank)).0
    ≡ (33 * 68 + 66 + 3) % (68 * 34)
print_chars-place_example =
    print_chars-place false (b'a' ∷ b'b' ∷ b'c' ∷ []) near_edge blank (omega arith) (omega arith)

print_chars-InBounds_example :
    InBounds (print_chars false (b'a' ∷ 10 ∷ b'c' ∷ []) (near_edge, blank)).0
print_chars-InBounds_example =
    print_chars-InBounds false (b'a' ∷ 10 ∷ b'c' ∷ []) (near_edge, blank) (omega arith)
      (omega arith)

print_chars-overrun_example :
    let s' = (print_chars false (9 ∷ b'a' ∷ b'b' ∷ []) (near_edge, blank)).0 in
    (s'.x ≡ 66 + 4 + 2) × (68 < s'.x) × (s'.y ≡ 33)
print_chars-overrun_example =
    print_chars-overrun false (b'a' ∷ b'b' ∷ []) near_edge blank (omega arith) (omega arith)
      (omega arith) (omega arith)

drawchar-draws_example :
    let after = drawchar 4 near_edge 8 16 5 6 b'a' blank in
    let start : ℕ = 0x4400_8020 in
    ((r k b : ℕ)
      → r < 8
      → k < 8
      → b < 4
      → after (start + 4 * (512 * r) + 4 * k + b) ≡ (
          if bit_is_set (solid (b'a' * 8 + r)) (7 - k)
          then byte 5 b
          else if has_flag 24 flag_use_bgcol
          then byte 6 b
          else blank (start + 4 * (512 * r) + 4 * k + b)))
    × ((b : ℕ)
        → ((r k : ℕ) → r < 8 → k < 8 → Outside 4 (start + 4 * (512 * r) + 4 * k) b)
        → after b ≡ blank b)
drawchar-draws_example = drawchar-draws 4 near_edge 8 16 5 6 b'a' blank refl 0x4400_8020 refl

-- A display in the mode that its state names, which refuses every frame buffer.
abbrev Mode : Type 0
Mode = ℕ × ℕ × ℕ

abbrev no_buffer : DisplayCalls Mode
no_buffer = record {
  get_mode = λ w. (pos 0, w, w);
  set_mode = λ m x y w. (pos 0, (m, x, y));
  set_frame_buf = λ a x f t w. (negsuc 0, w);
  edram_addr = λ w. 0x0400_0000;
}

no_buffer-DisplayLaws : DisplayLaws no_buffer (λ w. w)
no_buffer-DisplayLaws = record {
  answers = λ w. refl;
  get_keeps = λ w. refl;
  sets = λ m x y w e. refl;
  set_fails = λ m x y w e. absurd (cc);
  buffer_keeps = λ a x f t w. refl;
}

scr_initex-outcome_example :
    let r = scr_initex no_buffer false 0 3 6 (near_edge, blank) (0x1a, 720, 480) in
    ((r.0 ≡ pos 0) × IsReady r.1.0)
    ⊎ ((is_neg r.0 ≡ true)
        × (r.1 ≡ (near_edge, blank))
        × ((r.2 ≡ (0x1a, 720, 480))
            ⊎ Stuck no_buffer (λ w. w) no_buffer-DisplayLaws (0x1a, 720, 480) r.2))
scr_initex-outcome_example =
    scr_initex-outcome no_buffer (λ w. w) no_buffer-DisplayLaws false 0 3 6 near_edge blank
      (0x1a, 720, 480)

-- The frame buffer before has a negative offset; the new one is elsewhere.
abbrev moved_back : Scr
moved_back = record near_edge { vram_offset = 2 ^ 32 - 2048 }

scr_initex-clears_old_example :
    let after =
      (scr_initex no_buffer false 0x0410_0000 3 4 (moved_back, blank) (0, 480, 272)).1.1 in
    ((k b : ℕ) → k < 512 * 272 → b < 4 → after (0x43ff_f800 + 4 * k + b) ≡ 0)
    × ((b : ℕ) → (b < 0x43ff_f800) ⊎ (0x43ff_f800 + 4 * (512 * 272) ≤ b) → after b ≡ blank b)
unfolding has_flag
scr_initex-clears_old_example =
    scr_initex-clears_old no_buffer 0x0410_0000 3 4 moved_back blank (0, 480, 272) 0x43ff_f800 refl
      (omega arith) refl refl

-- The text "hi" with a carriage return.
scr_kprintf-shown_example :
    scr_kprintf false (replicate 256 0) (0x200 ∷ b'h' ∷ 13 ∷ b'i' ∷ 0x201 ∷ []) (near_edge, blank)
    ≡ some (scr_printdata false (printed (b'h' ∷ 13 ∷ b'i' ∷ [])) (near_edge, blank)).1
scr_kprintf-shown_example =
    scr_kprintf-shown false (replicate 256 0) (0x200 ∷ b'h' ∷ 13 ∷ b'i' ∷ 0x201 ∷ [])
      (b'h' ∷ 13 ∷ b'i' ∷ []) (near_edge, blank) refl
      (omega arith, (omega arith, (omega arith, tt))) refl

-- The text runs round the end of a screen in a 16-bit mode; the byte just behind the frame buffer
-- stays.
abbrev narrow_edge : Scr
narrow_edge = record near_edge { vram_mode = 0 }

print_chars-Beyond_example :
    (print_chars true (b'a' ∷ b'b' ∷ 10 ∷ b'c' ∷ []) (narrow_edge, blank)).1
      (0x4400_0000 + 2 * (512 * 272))
    ≡ 0
print_chars-Beyond_example =
    print_chars-Beyond true (b'a' ∷ b'b' ∷ 10 ∷ b'c' ∷ []) narrow_edge blank
      (0x4400_0000 + 2 * (512 * 272)) (refl, omega arith)
      (omega arith, (omega arith, (omega arith, (omega arith, tt)))) (omega arith, omega arith)
      (inr (omega arith))

convert-channels_example :
    (convert rgb565 0x80a0_c0e0 ≡ 0xe0 / 8 + 0xc0 / 4 * 2 ^ 5 + 0xa0 / 8 * 2 ^ 11)
    × (convert rgba5551 0x80a0_c0e0 ≡ 0xe0 / 8 + 0xc0 / 8 * 2 ^ 5 + 0xa0 / 8 * 2 ^ 10 + 2 ^ 15)
    × (convert rgba4444 0x80a0_c0e0
        ≡ 0xe0 / 16 + 0xc0 / 16 * 2 ^ 4 + 0xa0 / 16 * 2 ^ 8 + 0x80 / 16 * 2 ^ 12)
convert-channels_example = convert-channels 0x80a0_c0e0 (omega arith)
