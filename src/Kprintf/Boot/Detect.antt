-- ===== src/Kprintf/Boot/Detect.antt =====
-- event.c, detect_psplink: it ends.
use libkprintf.Platform.{Platform}
use libkprintf.Kprintf.Boot.{detect_loop, detect_psplink}
use libkprintf.Prelude.{
  ℕ, Bool, ◌+◌, ◌≡◌, false, ◌<◌, ◌⊎◌, ◌^◌, true, ◌*◌, some, arith, suc, Bool-cases, ltb, inr, inl,
  ◌%◌, zero, refl, ◌≤◌,
}

module _ {W : Type 0} (p : Platform W) where
  -- The answer is `false`, or PSPLINK was found at the last poll.
  abbrev pub Detected : Bool × W → Type 0
  Detected r =
      (r.0 ≡ false) ⊎ ((w : W) × ((p.find_psplink w).0 ≡ true) × (r ≡ (true, (p.find_psplink w).1)))

  detect_loop-ends :
      (k timeout t : ℕ) (w : W)
      → timeout + 1000 < 2 ^ 32
      → t < timeout + 1000
      → timeout + 1000 ≤ t + 1000 * k
      → (r : Bool × W) × (detect_loop p k timeout t w ≡ some r) × Detected r
  unfolding detect_loop
  detect_loop-ends zero timeout t w small near enough = absurd (omega arith)
  detect_loop-ends (suc k) timeout t w small near enough = elim (Bool-cases (ltb t timeout)) [
    | inr late ↦ rw late ((false, w), refl, inl refl)
    | inl early ↦ elim (Bool-cases (p.find_psplink w).0) [
      | inl found ↦ rw (early, found) ((true, (p.find_psplink w).1), refl, inr (w, found, refl))
      | inr not_yet ↦
          let next : (t + 1000) % 2 ^ 32 ≡ t + 1000 = ground arith in
          rw (early, not_yet, next)
            (detect_loop-ends k timeout (t + 1000) (p.delay_thread 1000 (p.find_psplink w).1) small
              (ground arith) (omega arith))
    ]
  ]

  -- With one unit of fuel for each millisecond of the timeout and one more, detect_psplink ends,
  -- if the timeout leaves room for one more step in a u32; it answers `true` only if the last
  -- poll found PSPLINK.
  pub detect_psplink-ends :
      (fuel timeout : ℕ) (w : W)
      → timeout + 1000 < 2 ^ 32
      → timeout + 1000 ≤ 1000 * fuel
      → (r : Bool × W) × (detect_psplink p fuel timeout w ≡ some r) × Detected r
  detect_psplink-ends fuel timeout w small enough =
      detect_loop-ends fuel timeout 0 w small (omega arith) (omega arith)
