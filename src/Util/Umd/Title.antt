-- ===== src/Util/Umd/Title.antt =====
-- libs/psp/util/umd.c: which title the disc has.
use libkprintf.Util.Umd.{UmdCalls, squeeze, read_title_id, title_of}
use libkprintf.Prelude.{
  List, ℕ, ℤ, length, ◌≡◌, drop, is_neg, ◌++◌, take, suc, false, ◌∷◌, arith, pos, [], ap, zero,
  true, some, refl,
}

take-append : (xs ys : List ℕ) (n : ℕ) → length xs ≡ n → take n (xs ++ ys) ≡ xs
take-append [] ys zero e = refl
take-append [] ys (suc n) e = absurd (omega arith)
take-append (x ∷ xs) ys zero e = absurd (omega arith)
take-append (x ∷ xs) ys (suc n) e = ap (◌∷◌ x) (take-append xs ys n (omega arith))

take_all : (xs : List ℕ) (n : ℕ) → length xs ≡ n → take n xs ≡ xs
take_all [] zero e = refl
take_all [] (suc n) e = refl
take_all (x ∷ xs) zero e = absurd (omega arith)
take_all (x ∷ xs) (suc n) e = ap (◌∷◌ x) (take_all xs n (omega arith))

drop_past : (xs ys : List ℕ) (y n : ℕ) → length xs ≡ n → drop (suc n) (xs ++ y ∷ ys) ≡ ys
drop_past [] ys y zero e = refl
drop_past [] ys y (suc n) e = absurd (omega arith)
drop_past (x ∷ xs) ys y zero e = absurd (omega arith)
drop_past (x ∷ xs) ys y (suc n) e = drop_past xs ys y n (omega arith)

module _ {W : Type 0} (c : UmdCalls W) (invalid_pointer : ℤ) where
  squeeze-join :
      (xs ys : List ℕ) (sep : ℕ)
      → length xs ≡ 4
      → length ys ≡ 5
      → squeeze c invalid_pointer (xs ++ sep ∷ ys) ≡ xs ++ (ys ++ 0 ∷ [])
  unfolding squeeze
  squeeze-join xs ys sep four five =
      rw (take-append xs (sep ∷ ys) 4 four, drop_past xs ys sep 4 four, take_all ys 5 five) refl

  -- On a disc whose data begin with 4 characters, a separator and 5 characters, read_title_id
  -- succeeds, the title is the 9 characters with NUL behind them, and the file is closed.
  pub read_title_id-joins :
      (xs ys : List ℕ) (sep : ℕ) (w : W)
      → length xs ≡ 4
      → length ys ≡ 5
      → let fd = c.open_umd w in
        let data_read = c.read_umd fd.0 fd.1 in
        is_neg fd.0 ≡ false
        → data_read.0 ≡ pos 10
        → data_read.1 ≡ xs ++ sep ∷ ys
        → read_title_id c invalid_pointer true w
          ≡ (pos 0, some (xs ++ (ys ++ 0 ∷ [])), c.close_umd fd.0 data_read.2)
  unfolding read_title_id title_of
  read_title_id-joins xs ys sep w four five opened ten bytes =
      rw (opened, ten, bytes, squeeze-join xs ys sep four five) refl
