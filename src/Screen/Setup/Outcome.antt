-- ===== src/Screen/Setup/Outcome.antt =====
-- scr.c, scr_initex: its outcomes, and which frame buffer it clears.
use libkprintf.Screen.Setup.{
  DisplayCalls, set_buffer, set_display, mode_lcd, next_vsync, scr_initex, adopt, settings,
}
use native.Mathlib.Nat.{zero-div}
use libkprintf.Prelude.{
  ℕ, ◌≡◌, ℤ, is_neg, true, false, Bool-cases, inl, inr, ◌∙◌, ◌≤◌, Bool, ◌<◌, pos, ◌⊎◌, arith, ◌+◌,
  ◌*◌, suc, refl, zero, ◌%◌, ◌^◌, sym, ◌/◌, ap,
}
use libkprintf.Screen.{
  Scr, vram_width, scr_width, scr_height, Vram, rgba8888, get_valid_mode, init_debug_scr, has_flag,
  flag_set_display, flag_clear,
}
use libkprintf.Screen.Draw.{fill, clear_screen, clear_screen_32, sar}
use libkprintf.Screen.Glyph.{poke_ne, shifted, byte, poke_self}

-- Documented behaviour of the display driver, where `mode` is the mode in force: it is what the
-- driver answers, a call that succeeds sets it and one that fails does not, and the frame buffer does
-- not change it.
pub record DisplayLaws {W : Type 0} (d : DisplayCalls W) (mode : W → ℕ × ℕ × ℕ) : Type 0 where
  pub answers : (w : W) → (d.get_mode w).1 ≡ mode w
  pub get_keeps : (w : W) → mode (d.get_mode w).2 ≡ mode w
  pub sets :
      (m x y : ℕ) (w : W)
      → is_neg (d.set_mode m x y w).0 ≡ false
      → mode (d.set_mode m x y w).1 ≡ (m, x, y)
  pub set_fails :
      (m x y : ℕ) (w : W)
      → is_neg (d.set_mode m x y w).0 ≡ true
      → mode (d.set_mode m x y w).1 ≡ mode w
  pub buffer_keeps : (a x f t : ℕ) (w : W) → mode (d.set_frame_buf a x f t w).1 ≡ mode w

module _ {W : Type 0} (d : DisplayCalls W) (mode : W → ℕ × ℕ × ℕ) (laws : DisplayLaws d mode) where
  -- The driver refuses to set the mode that was in force at `w` again, in some state where it is
  -- asked to.
  abbrev pub Stuck : W → W → Type 0
  Stuck w w' =
      (mode w' ≡ (mode_lcd, scr_width, scr_height))
      × ((u : W) × (is_neg (d.set_mode (mode w).0 (mode w).1 (mode w).2 u).0 ≡ true)
          × (w' ≡ (d.set_mode (mode w).0 (mode w).1 (mode w).2 u).1))

  -- A failure leaves the mode as it was, or the driver refuses to go back to it.
  abbrev pub Undone : W → ℤ × W → Type 0
  Undone w r = is_neg r.0 ≡ true → (mode r.1 ≡ mode w) ⊎ Stuck w r.1

  set_buffer-Undone :
      (s : Scr) (w0 w : W)
      → mode w ≡ (mode_lcd, scr_width, scr_height)
      → Undone w0 (set_buffer d s (mode w0) w)
  unfolding set_buffer
  set_buffer-Undone s w0 w lcd =
      let r = d.set_frame_buf s.vram_base vram_width s.vram_mode next_vsync w in
      let back = d.set_mode (mode w0).0 (mode w0).1 (mode w0).2 r.1 in
      elim (Bool-cases (is_neg r.0)) [
        | inl failed ↦ rw failed (λ e. elim (Bool-cases (is_neg back.0)) [
          | inr good ↦ inl (laws.sets (mode w0).0 (mode w0).1 (mode w0).2 r.1 good)
          | inl refused ↦ inr (
            laws.set_fails (mode w0).0 (mode w0).1 (mode w0).2 r.1 refused
                ∙ laws.buffer_keeps s.vram_base vram_width s.vram_mode next_vsync w
                ∙ lcd,
            (r.1, refused, refl),
          )
        ])
        | inr good ↦ rw good (λ e. absurd (cc))
      ]

  pub set_display-Undone : (s : Scr) (w : W) → Undone w (set_display d s w)
  unfolding set_display
  set_display-Undone s w =
      let g = d.get_mode w in
      let m = d.set_mode mode_lcd scr_width scr_height g.2 in
      elim (Bool-cases (is_neg g.0)) [
        | inl failed ↦ rw failed (λ e. inl (laws.get_keeps w))
        | inr good ↦ elim (Bool-cases (is_neg m.0)) [
          | inl refused ↦
              rw (good, refused)
                (λ e.
                  inl (laws.set_fails mode_lcd scr_width scr_height g.2 refused ∙ laws.get_keeps w))
          | inr set ↦
              rw (good, set, laws.answers w)
                (set_buffer-Undone s w m.1 (laws.sets mode_lcd scr_width scr_height g.2 set))
        ]
      ]

-- The cursor at the top left corner of a screen that can be drawn on, in one of the four formats,
-- with the default colours.
pub record IsReady (s : Scr) : Type 0 where
  pub on : s.init ≡ true
  pub left : s.x ≡ 0
  pub top : s.y ≡ 0
  pub format : s.vram_mode ≤ rgba8888
  pub white : s.fgcol ≡ 0xffff_ffff
  pub black : s.bgcol ≡ 0

module _ {W : Type 0} (d : DisplayCalls W) (mode : W → ℕ × ℕ × ℕ) (laws : DisplayLaws d mode)
    (use16 : Bool) (vram_base m flags : ℕ) (s : Scr) (v : Vram) (w : W) where
  get_valid_mode-le : (n : ℕ) → get_valid_mode n ≤ rgba8888
  unfolding get_valid_mode
  get_valid_mode-le n = ground arith

  adopt-IsReady : IsReady (adopt use16 (settings d vram_base m flags s w) flags (s, v)).0
  unfolding adopt settings init_debug_scr
  adopt-IsReady = record {
    on = refl;
    left = refl;
    top = refl;
    format = get_valid_mode-le m;
    white = refl;
    black = refl;
  }

  -- For any base, mode and flags, and a display driver that keeps the laws of DisplayLaws,
  -- scr_initex ends in one of two ways: with 0 and a screen that is ready; or with a negative result
  -- and the screen and the frame buffer as they were, and then the display's mode is as it was too,
  -- or the driver has refused the last call, which was to set that mode again, and the display is in
  -- the LCD mode of 480 by 272 pixels.
  pub scr_initex-outcome :
      let r = scr_initex d use16 vram_base m flags (s, v) w in
      ((r.0 ≡ pos 0) × IsReady r.1.0)
      ⊎ ((is_neg r.0 ≡ true) × (r.1 ≡ (s, v)) × ((mode r.2 ≡ mode w) ⊎ Stuck d mode laws w r.2))
  unfolding scr_initex
  scr_initex-outcome =
      let scr = settings d vram_base m flags s w in
      let shown = set_display d scr w in
      elim (Bool-cases (has_flag flags flag_set_display)) [
        | inr no_display ↦ rw no_display (inl (refl, adopt-IsReady))
        | inl display ↦ elim (Bool-cases (is_neg shown.0)) [
          | inr good ↦ rw (display, good) (inl (refl, adopt-IsReady))
          | inl failed ↦
              rw (display, failed) (inr (failed, refl, set_display-Undone d mode laws scr w failed))
        ]
      ]

fill_other :
    (size n a color : ℕ) (v : Vram) (b : ℕ)
    → (b < a) ⊎ (a + size * n ≤ b)
    → fill size n a color v b ≡ v b
unfolding fill
fill_other size zero a color v b out = refl
fill_other size (suc n) a color v b out =
    let e : size * suc n ≡ size + size * n = grind arith in
    fill_other size n (a + size) color _ b (ground arith) ∙ poke_ne size v a color b (ground arith)

clear_screen_32-fill :
    (s : Scr) (c : ℕ) (v : Vram) (start : ℕ)
    → start ≡ (s.vram_base + 4 * shifted 4 s.vram_offset) % 2 ^ 32
    → clear_screen_32 s c v ≡ fill 4 (512 * 272) start c v
unfolding clear_screen_32 sar
clear_screen_32-fill s c v start e = ap (λ (a : ℕ). fill 4 (512 * 272) a c v) (sym e)

byte_of_zero : (b : ℕ) → byte 0 b ≡ 0
byte_of_zero b = let none : 0 / 256 ^ b ≡ 0 = zero-div (256 ^ b) in rw none refl

fill-byte :
    (size n a color : ℕ) (v : Vram) (k b : ℕ)
    → k < n
    → b < size
    → fill size n a color v (a + size * k + b) ≡ byte color b
unfolding fill
fill-byte size zero a color v k b small low = absurd (omega arith)
fill-byte size (suc n) a color v zero b small low =
    let first : a + size * 0 + b ≡ a + b = grind arith in
    rw first (
      fill_other size n (a + size) color _ (a + b) (inl (omega arith))
      ∙ poke_self size v a color b low)
fill-byte size (suc n) a color v (suc k) b small low =
    let next : a + size * suc k + b ≡ a + size + size * k + b = grind arith in
    rw next (fill-byte size n (a + size) color _ k b (omega arith) low)

module _ {W : Type 0} (d : DisplayCalls W) (vram_base m flags : ℕ) (s : Scr) (v : Vram)
    (w : W) where
  settings-black : (settings d vram_base m flags s w).bgcol ≡ 0
  unfolding settings init_debug_scr
  settings-black = refl

  clear_screen-wide : (c : ℕ) → clear_screen false s c v ≡ clear_screen_32 s c v
  unfolding clear_screen
  clear_screen-wide c = refl

  initex-clear_screen :
      (after : Vram)
      → clear_screen false s (settings d vram_base m flags s w).bgcol v ≡ after
      → has_flag flags flag_set_display ≡ false
      → has_flag flags flag_clear ≡ true
      → (scr_initex d false vram_base m flags (s, v) w).1.1 ≡ after
  unfolding scr_initex adopt
  initex-clear_screen after e no_display clear = rw (no_display, clear) e

  -- In the build with 32-bit pixels, scr_initex with FLAG_SCR_CLEAR and without FLAG_SCR_SET_DISPLAY
  -- makes the frame buffer of the settings before it black, `start` being its 32-bit address, from
  -- the vram_base and the vram_offset of those settings, and writes nothing else: whatever base it is
  -- given, the new frame buffer is not cleared where it lies elsewhere.
  pub scr_initex-clears_old :
      (start : ℕ)
      → start ≡ (s.vram_base + 4 * shifted 4 s.vram_offset) % 2 ^ 32
      → start + 4 * (512 * 272) ≤ 2 ^ 32
      → has_flag flags flag_set_display ≡ false
      → has_flag flags flag_clear ≡ true
      → let after = (scr_initex d false vram_base m flags (s, v) w).1.1 in
        ((k b : ℕ) → k < 512 * 272 → b < 4 → after (start + 4 * k + b) ≡ 0)
        × ((b : ℕ) → (b < start) ⊎ (start + 4 * (512 * 272) ≤ b) → after b ≡ v b)
  scr_initex-clears_old start e fits no_display clear =
      let drawn =
        initex-clear_screen (fill 4 (512 * 272) start 0 v)
          (clear_screen-wide _
            ∙ ap (λ (c : ℕ). clear_screen_32 s c v) settings-black
            ∙ clear_screen_32-fill s 0 v start e)
          no_display clear in
      (
        λ k b near low.
            ap (λ (x : Vram). x (start + 4 * k + b)) drawn
            ∙ fill-byte 4 (512 * 272) start 0 v k b near low
            ∙ byte_of_zero b,
        λ b out. ap (λ (x : Vram). x b) drawn ∙ fill_other 4 (512 * 272) start 0 v b out,
      )
