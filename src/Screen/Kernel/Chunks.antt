-- ===== src/Screen/Kernel/Chunks.antt =====
-- scrk.c: the chunks of scr_kprintf, and the text that they make together.
use libkprintf.Screen.Cursor.{move, print_char-move}
use libkprintf.Screen.Print.{scr_printdata, print_chars, print_char}
use libkprintf.Prelude.{
  Bool, List, ℕ, ◌∷◌, ◌<◌, ◌≡◌, [], if◌then◌else◌, length, ◌==◌, arith, ◌++◌, take, ◌%◌, suc,
  Bool-cases, refl, ◌∙◌, inl, set, inr, ap, zero, false, true, sym, some, append-nil, ◌+◌, ◌^◌, ltb,
  subst, length-set, append_assoc, not,
}
use libkprintf.Screen.{Scr, Vram}
use libkprintf.Screen.Kernel.{
  PrntCtx, scr_kprintf, put_char, push, prnt_cb, print_ctx, prnt_ctx_bufsz, print_full, prnt_calls,
}

-- What reaches the screen: every character but the carriage returns, as a byte.
unfoldable pub printed : List ℕ → List ℕ
printed [] = []
printed (c ∷ cs) = if c == 13 then printed cs else c % 256 ∷ printed cs

-- Characters of a text, none of them one of the marks 0x200 and 0x201.
abbrev pub AllText : List ℕ → Type 0
AllText [] = Unit
AllText (c ∷ cs) = (c < 0x200) × AllText cs

print_chars-append :
    (use16 : Bool) (xs ys : List ℕ) (t : Scr × Vram)
    → print_chars use16 (xs ++ ys) t ≡ print_chars use16 ys (print_chars use16 xs t)
unfolding print_chars
print_chars-append use16 [] ys t = refl
print_chars-append use16 (x ∷ xs) ys t = print_chars-append use16 xs ys (print_char use16 x t)

move-init : (c : ℕ) (s : Scr) → (move c s).init ≡ s.init
unfolding move
move-init c s = ground arith

print_chars-init :
    (use16 : Bool) (cs : List ℕ) (t : Scr × Vram) → (print_chars use16 cs t).0.init ≡ t.0.init
unfolding print_chars
print_chars-init use16 [] t = refl
print_chars-init use16 (c ∷ cs) (s, v) =
    print_chars-init use16 cs (print_char use16 c (s, v))
    ∙ rw (print_char-move use16 c s v) (move-init c s)

-- The effect of scr_printdata.
abbrev pub shown : Bool → List ℕ → Scr × Vram → Scr × Vram
shown use16 cs t = (scr_printdata use16 cs t).1

shown_on :
    (use16 : Bool) (cs : List ℕ) (t : Scr × Vram)
    → t.0.init ≡ true
    → shown use16 cs t ≡ print_chars use16 cs t
unfolding scr_printdata
shown_on use16 cs t on =
    ap
      (λ (b : Bool).
        let r : ℕ × (Scr × Vram) = if not b then (0, t) else (length cs, print_chars use16 cs t) in
        r.1)
      on

shown_off : (use16 : Bool) (cs : List ℕ) (t : Scr × Vram) → t.0.init ≡ false → shown use16 cs t ≡ t
unfolding scr_printdata
shown_off use16 cs t off =
    ap
      (λ (b : Bool).
        let r : ℕ × (Scr × Vram) = if not b then (0, t) else (length cs, print_chars use16 cs t) in
        r.1)
      off

-- A text is shown as one, or in two parts.
pub shown-append :
    (use16 : Bool) (xs ys : List ℕ) (t : Scr × Vram)
    → shown use16 (xs ++ ys) t ≡ shown use16 ys (shown use16 xs t)
shown-append use16 xs ys t = elim (Bool-cases t.0.init) [
  | inl on ↦
      shown_on use16 (xs ++ ys) t on
      ∙ print_chars-append use16 xs ys t
      ∙ sym (shown_on use16 ys (print_chars use16 xs t) (print_chars-init use16 xs t ∙ on))
      ∙ ap (shown use16 ys) (sym (shown_on use16 xs t on))
  | inr off ↦
      shown_off use16 (xs ++ ys) t off
      ∙ sym (shown_off use16 ys t off)
      ∙ ap (shown use16 ys) (sym (shown_off use16 xs t off))
]

pub shown-nil : (use16 : Bool) (t : Scr × Vram) → shown use16 [] t ≡ t
unfolding print_chars
shown-nil use16 t = elim (Bool-cases t.0.init) [
  | inl on ↦ shown_on use16 [] t on
  | inr off ↦ shown_off use16 [] t off
]

take-suc-set :
    (buf : List ℕ) (n c : ℕ) → n < length buf → take (suc n) (set buf n c) ≡ take n buf ++ c ∷ []
take-suc-set [] n c lt = absurd (omega arith)
take-suc-set (x ∷ xs) zero c lt = refl
take-suc-set (x ∷ xs) (suc n) c lt = ap (◌∷◌ x) (take-suc-set xs n c (omega arith))

-- What the screen will show once the text in the context is printed as well.
abbrev due : Bool → PrntCtx → List ℕ → Scr × Vram → Scr × Vram
due use16 ctx cs t = shown use16 (take ctx.len ctx.buf ++ cs) t

push_lem :
    (c : ℕ) (ctx : PrntCtx)
    → ctx.len < 256
    → length ctx.buf ≡ 256
    → push c ctx ≡ some (record { len = ctx.len + 1; buf = set ctx.buf ctx.len (c % 256) })
unfolding push
push_lem c ctx room size =
    let len' : (ctx.len + 1) % 2 ^ 16 ≡ ctx.len + 1 = omega arith in
    let fits : ltb ctx.len (length ctx.buf) ≡ true = ground arith in rw (fits, len')

-- One regular character: the buffer stays within its 256 bytes, and nothing of the text is lost.
put_char-due :
    (use16 : Bool) (c : ℕ) (ctx : PrntCtx) (t : Scr × Vram)
    → ctx.len < 256
    → length ctx.buf ≡ 256
    → (ctx' : PrntCtx) × (t' : Scr × Vram) × (put_char use16 c (ctx, t) ≡ some (ctx', t'))
      × (ctx'.len < 256)
      × (length ctx'.buf ≡ 256)
      × ((cs : List ℕ) → due use16 ctx' cs t' ≡ due use16 ctx (c % 256 ∷ cs) t)
unfolding put_char print_full print_ctx
put_char-due use16 c ctx t room size =
    let buf' : List ℕ = set ctx.buf ctx.len (c % 256) in
    let one_more : suc ctx.len ≡ ctx.len + 1 = omega arith in
    let text : take (ctx.len + 1) buf' ≡ take ctx.len ctx.buf ++ c % 256 ∷ [] =
      subst (λ k. take k buf' ≡ take ctx.len ctx.buf ++ c % 256 ∷ []) one_more
        (take-suc-set ctx.buf ctx.len (c % 256) (omega arith)) in
    let next : PrntCtx = record { len = ctx.len + 1; buf = buf' } in
    let pushed = ap (λ o. print_full use16 o t) (push_lem c ctx room size) in
    elim (Bool-cases (ctx.len + 1 == 256)) [
      | inr more ↦ (
        record { len = ctx.len + 1; buf = buf' },
        t,
        pushed ∙ ap (λ (b : Bool). some (if b then print_ctx use16 (next, t) else (next, t))) more,
        ground arith,
        length-set ctx.buf ctx.len (c % 256) ∙ size,
        λ cs.
            ap (λ xs. shown use16 (xs ++ cs) t) text
            ∙ ap (λ xs. shown use16 xs t) (append_assoc (take ctx.len ctx.buf) (c % 256 ∷ []) cs),
      )
      | inl full ↦ (
        record { len = 0; buf = buf' },
        shown use16 (take (ctx.len + 1) buf') t,
        pushed ∙ ap (λ (b : Bool). some (if b then print_ctx use16 (next, t) else (next, t))) full,
        omega arith,
        length-set ctx.buf ctx.len (c % 256) ∙ size,
        λ cs.
            sym (shown-append use16 (take (ctx.len + 1) buf') cs t)
            ∙ ap (λ xs. shown use16 (xs ++ cs) t) text
            ∙ ap (λ xs. shown use16 xs t) (append_assoc (take ctx.len ctx.buf) (c % 256 ∷ []) cs),
      )
    ]

-- The rest of a text and the mark of its end, from any state of the context.
prnt_calls-shown :
    (use16 : Bool) (cs : List ℕ) (ctx : PrntCtx) (t : Scr × Vram)
    → AllText cs
    → ctx.len < 256
    → length ctx.buf ≡ 256
    → (ctx' : PrntCtx) × (prnt_calls use16 (cs ++ 0x201 ∷ []) (ctx, t)
        ≡ some (ctx', due use16 ctx (printed cs) t))
unfolding prnt_calls prnt_cb printed print_ctx
prnt_calls-shown use16 [] ctx t text room size = (
  record ctx { len = 0 },
  ap (λ (xs : List ℕ). some (record ctx { len = 0 }, shown use16 xs t)) (sym (append-nil _)),
)
prnt_calls-shown use16 (c ∷ cs) ctx t (lt, text) room size =
    let no_start : (c == 0x200) ≡ false = ground arith in
    let no_end : (c == 0x201) ≡ false = ground arith in
    elim (Bool-cases (c == 13)) [
      | inl cr ↦ simp (no_start, no_end, cr) (prnt_calls-shown use16 cs ctx t text room size)
      | inr no_cr ↦
          let (ctx1, t1, run, room1, size1, same) = put_char-due use16 c ctx t room size in
          let (ctx', rest) = prnt_calls-shown use16 cs ctx1 t1 text room1 size1 in
          (
            ctx',
            simp (no_start, no_end, no_cr, run)
                (rest ∙ ap (λ (x : Scr × Vram). some (ctx', x)) (same (printed cs))),
          )
    ]

-- Where prnt calls back with 0x200, a text of characters below 0x200 and 0x201, and the buffer has
-- its 256 bytes: scr_kprintf never writes beyond the buffer, and shows the text whole, as
-- scr_printdata would at once, without its carriage returns.
pub scr_kprintf-shown :
    (use16 : Bool) (buf calls cs : List ℕ) (t : Scr × Vram)
    → calls ≡ 0x200 ∷ (cs ++ 0x201 ∷ [])
    → AllText cs
    → length buf ≡ prnt_ctx_bufsz
    → scr_kprintf use16 buf calls t ≡ some (scr_printdata use16 (printed cs) t).1
unfolding scr_kprintf prnt_calls prnt_cb
scr_kprintf-shown use16 buf calls cs t marks text size =
    let (ctx', run) =
      prnt_calls-shown use16 cs (record { len = 0; buf = buf }) t text (omega arith) size in
    rw (marks, run) refl
