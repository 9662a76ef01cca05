-- ===== src/Screen/Colour/Fields.antt =====
-- `|` of fields that do not overlap is their sum.
use Prim.Native.Nat.{digits, max, bit_or-bitwise}
use native.Mathlib.Nat.{pow-suc}
use libkprintf.Prelude.{
  ℕ, ◌≤◌, ◌*◌, ◌<◌, ◌≡◌, ◌^◌, suc, ◌+◌, ◌/◌, arith, zero, ap, ◌%◌, refl, ◌∙◌, bit_or,
}

-- `|` on the binary digits, with a count of the digits to go.
abbrev or_digits : ℕ → ℕ → ℕ → ℕ
or_digits = digits (λ b. b) max

or_digits-zero : (n b : ℕ) → or_digits n 0 b ≡ b
or_digits-zero zero b = refl
or_digits-zero (suc n) b = refl

or_digits-half :
    (n a b : ℕ) → or_digits (suc n) a b ≡ or_digits n (a / 2) (b / 2) * 2 + max (a % 2) (b % 2)
or_digits-half n zero b = let rest = or_digits-zero n (b / 2) in rw rest (omega arith)
or_digits-half n (suc a) b = refl

-- A number with no digits on the other side.
or_digits_self : (n a : ℕ) → a ≤ n → or_digits n a 0 ≡ a
or_digits_self n zero le = or_digits-zero n 0
or_digits_self zero (suc a) le = absurd (omega arith)
or_digits_self (suc n) (suc a) le =
    let rest = or_digits_self n (suc a / 2) (omega arith) in omega (arith, rest)

double : (y k : ℕ) → y * 2 ^ suc k ≡ 2 * (y * 2 ^ k)
double y k = omega (arith, ap (λ (t : ℕ). y * t) (pow-suc 2 k))

-- A high field on the right.
or_digits-low : (k n x y : ℕ) → x < 2 ^ k → x ≤ n → or_digits n x (y * 2 ^ k) ≡ x + y * 2 ^ k
or_digits-low k n zero y fits le = omega (arith, or_digits-zero n (y * 2 ^ k))
or_digits-low zero n (suc x) y fits le = absurd (omega arith)
or_digits-low (suc k) zero (suc x) y fits le = absurd (omega arith)
or_digits-low (suc k) (suc n) (suc x) y fits le =
    let d = double y k in
    let half : y * 2 ^ suc k / 2 ≡ y * 2 ^ k = omega arith in
    let even : y * 2 ^ suc k % 2 ≡ 0 = omega arith in
    let p = pow-suc 2 k in
    let rest = or_digits-low k n (suc x / 2) y (omega arith) (omega arith) in
    or_digits-half n (suc x) (y * 2 ^ suc k) ∙ rw (half, even, rest) (omega arith)

-- A high field on the left.
or_digits-high :
    (k n i h x y : ℕ)
    → x < 2 ^ k
    → y < 2 ^ k
    → h * 2 ^ k + x ≤ n
    → x ≤ i
    → or_digits n (h * 2 ^ k + x) y ≡ h * 2 ^ k + or_digits i x y
or_digits-high zero n i h x y fits_x fits_y le_n le_i =
    let no_x : x ≡ 0 = omega arith in
    let no_y : y ≡ 0 = omega arith in
    let whole : h * 2 ^ 0 + x ≡ h = omega arith in
    let same : h * 2 ^ 0 ≡ h = omega arith in
    rw (whole, no_y, or_digits_self n h (omega arith), no_x, or_digits-zero i 0, same) (omega arith)
or_digits-high (suc k) zero i h x y fits_x fits_y le_n le_i =
    let no_x : x ≡ 0 = omega arith in
    let no_h : h * 2 ^ suc k ≡ 0 = omega arith in rw (no_h, no_x, or_digits-zero i y) (omega arith)
or_digits-high (suc k) (suc n) zero h x y fits_x fits_y le_n le_i =
    let no_x : x ≡ 0 = omega arith in
    let d = double h k in
    let p = pow-suc 2 k in
    let a = h * 2 ^ suc k + x in
    let half : a / 2 ≡ h * 2 ^ k + x / 2 = omega arith in
    let digit : a % 2 ≡ x % 2 = omega arith in
    let rest =
      or_digits-high k n zero h (x / 2) (y / 2) (omega arith) (omega arith) (omega arith)
        (omega arith) in
    or_digits-half n a y ∙ rw (half, digit, rest) (omega arith)
or_digits-high (suc k) (suc n) (suc i) h x y fits_x fits_y le_n le_i =
    let d = double h k in
    let p = pow-suc 2 k in
    let a = h * 2 ^ suc k + x in
    let half : a / 2 ≡ h * 2 ^ k + x / 2 = omega arith in
    let digit : a % 2 ≡ x % 2 = omega arith in
    let rest =
      or_digits-high k n i h (x / 2) (y / 2) (omega arith) (omega arith) (omega arith)
        (omega arith) in
    or_digits-half n a y ∙ rw (half, digit, rest, or_digits-half i x y) (omega arith)

-- `x | (y << k)` where `x` has `k` bits.
pub bit_or-low : (k x y : ℕ) → x < 2 ^ k → bit_or x (y * 2 ^ k) ≡ x + y * 2 ^ k
bit_or-low k x y fits = simp bit_or-bitwise (or_digits-low k x x y fits (omega arith))

-- `((h << k) + x) | y` where `x` and `y` have `k` bits.
pub bit_or-high :
    (k h x y : ℕ) → x < 2 ^ k → y < 2 ^ k → bit_or (h * 2 ^ k + x) y ≡ h * 2 ^ k + bit_or x y
bit_or-high k h x y fits_x fits_y =
    simp bit_or-bitwise
      (or_digits-high k (h * 2 ^ k + x) x h x y fits_x fits_y (omega arith) (omega arith))
