-- ===== src/Kprintf/Output.antt =====
-- src/libkprintf/putchar_.c: the output of the printf library's printf, character by character.
use libkprintf.Platform.{Platform}
use libkprintf.Prelude.{ℕ, ◌∷◌, []}
use libkprintf.Kprintf.{Sys}

module _ {W : Type 0} (p : Platform W) where
  -- putchar_: one byte to the module's stdout, with $k1 set and restored around it.
  unfoldable pub putchar_ : ℕ → Sys W → Sys W
  putchar_ c s =
      let s1 : Sys W = record s { k1 = 0; world = p.io_write s.stdout (c ∷ []) s.world } in
      record s1 { k1 = s.k1 }
