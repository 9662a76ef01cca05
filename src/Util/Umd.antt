-- ===== src/Util/Umd.antt =====
-- libs/psp/util/umd.c: the title of the disc.
pub mod Title
use libkprintf.Prelude.{
  ℤ, Bool, List, ℕ, Option, negsuc, take, if◌then◌else◌, ◌++◌, none, not, pos, is_neg, drop, ◌∷◌,
  ◌==◌, some, [],
}

-- sceIoOpen("disc0:/UMD_DATA.BIN"), sceIoRead(fd, buf, 10) with the bytes that it stores, sceIoClose.
pub record UmdCalls (W : Type 0) : Type 0 where
  pub open_umd : W → ℤ × W
  pub read_umd : ℤ → W → ℤ × List ℕ × W
  pub close_umd : ℤ → W → W

-- SCE_ERROR_INVALID_POINTER, as the negative number that it is.
module _ {W : Type 0} (c : UmdCalls W) (invalid_pointer : ℤ) where
  -- memmove(buf + 4, buf + 5, 5) and buf[9] = 0, on the 10 bytes read.
  unfoldable pub squeeze : List ℕ → List ℕ
  squeeze buf = take 4 buf ++ (take 5 (drop 5 buf) ++ 0 ∷ [])

  -- Behind the read: the result and what is copied to `title_id`.
  unfoldable pub title_of : ℤ → List ℕ → ℤ × Option (List ℕ)
  unfolding squeeze
  title_of (negsuc n) buf = (negsuc n, none)
  title_of (pos n) buf = if n == 10 then (pos 0, some (squeeze buf)) else (pos 1, none)

  -- read_title_id; `given` says whether `title_id` is not NULL.
  unfoldable pub read_title_id : Bool → W → ℤ × Option (List ℕ) × W
  unfolding title_of
  read_title_id given w =
      let (fd, w1) = c.open_umd w in
      let (n, buf, w2) = c.read_umd fd w1 in
      let (ret, title) = title_of n buf in
      if not given
      then (invalid_pointer, none, w)
      else if is_neg fd
      then (fd, none, w1)
      else (ret, title, c.close_umd fd w2)
