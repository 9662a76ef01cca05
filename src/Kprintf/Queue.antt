-- ===== src/Kprintf/Queue.antt =====
-- msg.c: the queue of formatted messages, a list linked through the pool's blocks. A loop runs on
-- fuel: `out_of_fuel` ends a walk of more rounds than it is given.
pub mod Chain
pub mod Add
pub mod Remove
pub mod Flush
pub mod Fresh
use libkprintf.Prelude.Run.{◌>>=◌, ◌>>◌, Cmd, out_of_fuel, ok, fault}
use libkprintf.Kprintf.{Ptr, Heap, Msg, HandlerFlags, Sys, null}
use libkprintf.Kprintf.Dispatch.{invoke_handlers}
use libkprintf.Platform.{Platform}
use libkprintf.Prelude.{
  true, false, List, ℕ, ◌+◌, suc, if◌then◌else◌, ◌∷◌, is_neg, ◌%◌, ◌==◌, ◌^◌, zero, some, set, [],
  Bool, Option, none, pos, replicate, ℤ,
}

-- KPRINTF_MSG_SIZE and SIZEOF_KPRINTF_MSG
unfoldable pub msg_size : ℕ → ℕ
msg_size msglen = msglen + 1 + 1 + 14

unfoldable pub sizeof_msg : ℕ → ℕ
unfolding msg_size
sizeof_msg msglen = 12 + msg_size msglen

-- `strncpy(dst, src, n)` into a buffer of zeros: the bytes up to a NUL, at most `n`.
unfoldable pub strncpy : List ℕ → List ℕ → ℕ → List ℕ
strncpy dst src zero = dst
strncpy [] src (suc n) = []
strncpy (d ∷ dst) [] (suc n) = d ∷ dst
strncpy (d ∷ dst) (c ∷ src) (suc n) = elim (c == 0) [
  | true ↦ d ∷ dst
  | false ↦ c ∷ strncpy dst src n
]

-- The fields that new_msg writes into a block.
unfoldable pub fresh_msg : List ℕ → ℕ → Bool → Msg
unfolding strncpy msg_size
fresh_msg buf len is_user = record {
  next = null;
  is_user = is_user;
  len = len % 2 ^ 16;
  size = msg_size len % 2 ^ 16;
  text = set (strncpy (replicate (msg_size len) 0) buf len) len 0;
}

unfoldable pub write : Heap → Ptr → Option Msg → Heap
write h a c b = if b == a then c else h b

module _ {W : Type 0} where
  -- `*a`, undefined at NULL and where no message stands.
  unfoldable pub load : Ptr → Cmd (Sys W) Msg
  load a s = if a == null then fault else elim (s.heap a) [ none ↦ fault | some m ↦ ok m s ]

  unfoldable pub store : Ptr → Msg → Cmd (Sys W) (Unit {0})
  unfolding write
  store a m s = ok tt (record s { heap = write s.heap a (some m) })

  -- `a->next = b`
  unfoldable pub set_next : Ptr → Ptr → Cmd (Sys W) (Unit {0})
  unfolding load store
  set_next a b = do m ← load a; store a (record m { next = b })

  unfoldable pub set_head : Ptr → Cmd (Sys W) (Unit {0})
  set_head a s = ok tt (record s { head = a })

  -- new_msg: the result and the address of the message.
  unfoldable pub new_msg : Platform W → List ℕ → ℕ → Bool → Sys W → ℤ × Ptr × Sys W
  unfolding sizeof_msg fresh_msg write
  new_msg p buf len is_user s =
      let (ret, m, w) = p.try_allocate_vpl s.vplid (sizeof_msg len) s.world in
      if is_neg ret then (ret, null, record s { world = w }) else (
        pos 0,
        m,
        record s { heap = write s.heap m (some (fresh_msg buf len is_user)); world = w },
      )

  -- The writes of add_msg behind its walk.
  unfoldable pub link : Ptr → Ptr → Cmd (Sys W) (Unit {0})
  unfolding set_next set_head
  link prev m = if prev == null then set_head m else set_next prev m

  add_loop : ℕ → (m prev cur : Ptr) → Cmd (Sys W) (Unit {0})
  add_loop zero m prev cur s = out_of_fuel
  add_loop (suc k) m prev cur s =
      if cur == null then link prev m s else (do n ← load cur; add_loop k m cur n.next) s

  -- add_msg: from g_head to the rear of the queue.
  unfoldable pub add_msg : ℕ → Ptr → Cmd (Sys W) (Unit {0})
  unfolding add_loop link
  add_msg fuel m s = add_loop fuel m null s.head s

  -- sceKernelFreeVpl(g_vplid, m)
  unfoldable pub free : Platform W → Ptr → Cmd (Sys W) ℤ
  unfolding write
  free p m s =
      let (ret, w) = p.free_vpl s.vplid m s.world in
      ok ret (record s { heap = write s.heap m none; world = w })

  -- The writes of remove_delete_msg once `cur == m`.
  unfoldable pub unlink : Ptr → Ptr → Cmd (Sys W) (Unit {0})
  unfolding load set_next set_head
  unlink prev m s =
      if s.head == m
      then (do n ← load m; set_head n.next) s
      else if prev == null
      then ok tt s
      else (do n ← load m; set_next prev n.next) s

  remove_loop : Platform W → ℕ → (m prev cur : Ptr) → Cmd (Sys W) ℤ
  remove_loop p zero m prev cur s = out_of_fuel
  remove_loop p (suc k) m prev cur s =
      if cur == null
      then ok (pos 0) s
      else if cur == m
      then (do unlink prev m; free p m) s
      else (do n ← load cur; remove_loop p k m cur n.next) s

  abbrev suspend : Platform W → Cmd (Sys W) ℕ
  suspend p s = let (intr, w) = p.suspend_intr s.world in ok intr (record s { world = w })

  abbrev resume : Platform W → ℕ → ℤ → Cmd (Sys W) ℤ
  resume p intr ret s = ok ret (record s { world = p.resume_intr intr s.world })

  -- remove_delete_msg
  unfoldable pub remove_delete_msg : Platform W → ℕ → Ptr → Cmd (Sys W) ℤ
  unfolding remove_loop unlink free
  remove_delete_msg p fuel m s =
      if s.head == null
      then ok (pos 0) s
      else (do intr ← suspend p; ret ← (λ t. remove_loop p fuel m null t.head t); resume p intr ret)
          s

  -- invoke_handlers(m), whose handlers work on the message in place.
  unfoldable pub invoke_at : Platform W → HandlerFlags → Ptr → Ptr → Msg → Cmd (Sys W) (Unit {0})
  unfolding invoke_handlers store
  invoke_at p flags default_cb a m s = elim (invoke_handlers p flags default_cb m s) [
    | none ↦ fault
    | some (m', s') ↦ store a m' s'
  ]

  flush_loop : Platform W → HandlerFlags → Ptr → ℕ → Ptr → Cmd (Sys W) (Unit {0})
  flush_loop p flags default_cb zero m s = out_of_fuel
  flush_loop p flags default_cb (suc k) m s =
      if m == null
      then ok tt s
      else (do
        before ← load m
        invoke_at p flags default_cb m before
        after ← load m
        ret ← remove_delete_msg p (suc k) m
        flush_loop p flags default_cb k after.next)
          s

  -- flush_messages
  unfoldable pub flush_messages : Platform W → HandlerFlags → Ptr → ℕ → Cmd (Sys W) (Unit {0})
  unfolding flush_loop remove_delete_msg invoke_at load
  flush_messages p flags default_cb fuel s = flush_loop p flags default_cb fuel s.head s
