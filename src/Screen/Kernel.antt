-- ===== src/Screen/Kernel.antt =====
-- libs/psp/debug/scrk.c: scr_kprintf, the screen's printf in the kernel. The kernel's prnt calls
-- prnt_cb for each character, between 0x200 and 0x201.
pub mod Chunks
use libkprintf.Prelude.{
  ◌>>=◌, Bool, ℕ, List, Option, if◌then◌else◌, ◌==◌, take, some, none, ltb, length, ◌∷◌, ◌+◌, [],
  ◌%◌, ◌++◌, ◌^◌, set,
}
use libkprintf.Screen.Print.{scr_printdata}
use libkprintf.Screen.{Scr, Vram}

-- PRNT_CTX_BUFSZ
abbrev pub prnt_ctx_bufsz : ℕ
prnt_ctx_bufsz = 256

-- prnt_ctx: `len` and the bytes of `buf`.
pub record PrntCtx : Type 0 where
  pub len : ℕ
  pub buf : List ℕ

-- `scr_printdata(ctx->buf, ctx->len); ctx->len = 0`
unfoldable pub print_ctx : Bool → PrntCtx × (Scr × Vram) → PrntCtx × (Scr × Vram)
unfolding scr_printdata
print_ctx use16 (ctx, t) =
    (record ctx { len = 0 }, (scr_printdata use16 (take ctx.len ctx.buf) t).1)

-- `ctx->buf[ctx->len++] = ch`: a char has 8 bits, `len` is a u16. A write out of bounds is undefined.
unfoldable pub push : ℕ → PrntCtx → Option PrntCtx
push ch ctx =
    if ltb ctx.len (length ctx.buf)
    then some (record { len = (ctx.len + 1) % 2 ^ 16; buf = set ctx.buf ctx.len (ch % 256) })
    else none

-- Behind the write: a full buffer is printed.
unfoldable pub print_full : Bool → Option PrntCtx → Scr × Vram → Option (PrntCtx × (Scr × Vram))
unfolding print_ctx
print_full use16 none t = none
print_full use16 (some ctx) t =
    some (if ctx.len == prnt_ctx_bufsz then print_ctx use16 (ctx, t) else (ctx, t))

-- The regular character.
unfoldable pub put_char : Bool → ℕ → PrntCtx × (Scr × Vram) → Option (PrntCtx × (Scr × Vram))
unfolding push print_full
put_char use16 ch (ctx, t) = print_full use16 (push ch ctx) t

unfoldable pub prnt_cb : Bool → ℕ → PrntCtx × (Scr × Vram) → Option (PrntCtx × (Scr × Vram))
unfolding put_char print_ctx
prnt_cb use16 ch (ctx, t) =
    if ch == 0x200
    then some (record ctx { len = 0 }, t)
    else if ch == 0x201
    then some (print_ctx use16 (ctx, t))
    else if ch == 13
    then some (ctx, t)
    else put_char use16 ch (ctx, t)

-- The characters that prnt calls back with, one after the other.
unfoldable pub prnt_calls : Bool → List ℕ → PrntCtx × (Scr × Vram) → Option (PrntCtx × (Scr × Vram))
unfolding prnt_cb
prnt_calls use16 [] c = some c
prnt_calls use16 (ch ∷ chs) c = prnt_cb use16 ch c >>= prnt_calls use16 chs

-- scr_kprintf, where `calls` are the characters that prnt, which is the kernel's, calls back with for
-- the format and the arguments, and `buf` is what stands on the stack.
unfoldable pub scr_kprintf : Bool → List ℕ → List ℕ → Scr × Vram → Option (Scr × Vram)
unfolding prnt_calls
scr_kprintf use16 buf calls t = do
  c ← prnt_calls use16 calls (record { len = 0; buf = buf }, t)
  some c.1
