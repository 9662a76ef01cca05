-- ===== src/Kprintf/Dispatch.antt =====
-- handler.c: default_file_handler, and invoke_handlers, which passes a message to the handlers.
pub mod Newline
pub mod Order
pub mod Calls
use libkprintf.Prelude.{◌>>=◌, ◌+◌, false, ◌%◌, true, ◌^◌, int_eq, zero, [], Option, none, ℕ, ℤ}
use libkprintf.Prelude.{
  List, Bool, if◌then◌else◌, some, get_elem?, leb, ltb, ◌==◌, length, ◌∷◌, suc, take, set,
}
use libkprintf.Kprintf.{HandlerFlags, Msg, Ptr, RegHandler, null, Sys, msg_ok, msg_stop}
use libkprintf.Platform.{Platform, CallReturn}

-- A byte of a buffer; `none` where C would read or write out of bounds.
unfoldable pub read_byte : List ℕ → ℕ → Option ℕ
read_byte buf i = get_elem? buf i

unfoldable pub write_byte : List ℕ → ℕ → ℕ → Option (List ℕ)
write_byte buf i c = if ltb i (length buf) then some (set buf i c) else none

-- `sceIoWrite(fd, msg, len)` reads `len` bytes of the buffer.
unfoldable pub read_bytes : List ℕ → ℕ → Option (List ℕ)
read_bytes buf n = if leb n (length buf) then some (take n buf) else none

-- KPRINTF_DH_AUTO_NEWLINE: the message gets a newline, and a NUL behind it, unless it ends in one.
-- At `len = 0` the source reads msg[-1].
unfoldable pub add_newline : Bool → List ℕ → ℕ → Option (List ℕ × ℕ)
unfolding read_byte write_byte
add_newline false buf len = some (buf, len)
add_newline true buf zero = none
add_newline true buf (suc n) = do
  last ← read_byte buf n
  if last == b'\n' then some (buf, suc n) else do
    buf1 ← write_byte buf (suc n) b'\n'
    buf2 ← write_byte buf1 (suc n + 1) 0
    some (buf2, suc n + 1)

-- KPRINTF_DH_WRITE_PRINTF and KPRINTF_DH_WRITE_KPRINTF
unfoldable pub can_write : HandlerFlags → Bool → Bool
can_write f is_user = if is_user then f.write_printf else f.write_kprintf

module _ {W : Type 0} (p : Platform W) (flags : HandlerFlags) where
  -- `if (can_write) sceIoWrite(fd, msg, len)`
  unfoldable pub write_out : ℤ → List ℕ → ℕ → Bool → W → Option W
  unfolding can_write read_bytes
  write_out fd buf n is_user w =
      if can_write flags is_user
      then (do out ← read_bytes buf n; some (p.io_write fd out w))
      else some w

  -- `len` is stored back as an unsigned short.
  unfoldable pub default_file_handler : ℤ → List ℕ → ℕ → Bool → W → Option (CallReturn W)
  unfolding add_newline write_out
  default_file_handler fd msg len is_user w = do
    (buf, n) ← add_newline flags.auto_newline msg len
    w1 ← write_out fd buf n is_user w
    some (record { res = msg_ok; text = buf; len = n % 2 ^ 16; world = w1 })

  -- A call through the pointer `cb`: the default handler stands at the address `default_cb`.
  unfoldable pub call_cb : Ptr → RegHandler → Msg → W → Option (CallReturn W)
  unfolding default_file_handler
  call_cb default_cb h m w =
      if h.cb == default_cb
      then default_file_handler h.arg m.text m.len m.is_user w
      else some (p.callback h.cb h.arg m.text m.len m.size m.is_user w)

  -- The message as the callback leaves it for the next one.
  unfoldable pub updated : Msg → CallReturn W → Msg
  updated m r = record m { text = r.text; len = r.len }

  -- invoke_handlers, from a slot on: the handlers in the order of the table, up to the one that
  -- stops the message.
  unfoldable pub invoke_from : Ptr → List RegHandler → Msg → W → Option (Msg × W)
  unfolding call_cb updated
  invoke_from default_cb [] m w = some (m, w)
  invoke_from default_cb (h ∷ hs) m w = elim (h.cb == null) [
    | true ↦ invoke_from default_cb hs m w
    | false ↦ (do
      r ← call_cb default_cb h m w
      elim (int_eq r.res msg_stop) [
        | true ↦ some (updated m r, r.world)
        | false ↦ invoke_from default_cb hs (updated m r) r.world
      ])
  ]

  -- invoke_handlers(m): the message as the handlers leave it.
  unfoldable pub invoke_handlers : Ptr → Msg → Sys W → Option (Msg × Sys W)
  unfolding invoke_from
  invoke_handlers default_cb m s = do
    (m', w) ← invoke_from default_cb s.handlers m s.world
    some (m', record s { world = w })
