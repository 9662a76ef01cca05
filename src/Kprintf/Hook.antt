-- ===== src/Kprintf/Hook.antt =====
-- handler.c, kprintf_handler: what the kernel calls for each Kprintf and sceKernelPrintf, with
-- interrupts disabled.
pub mod Queues
pub mod Outcome
use libkprintf.Prelude.Run.{◌>>=◌, ◌>>◌, ok, Cmd}
use libkprintf.Prelude.{
  ℕ, ℤ, if◌then◌else◌, not, is_neg, pos_part, ◌==◌, ◌||◌, leb, Bool, List, negsuc, pos, true,
}
use libkprintf.Platform.{Platform}
use libkprintf.Kprintf.Queue.{new_msg, add_msg}
use libkprintf.Kprintf.{is_started, Ptr, Sys, buf_size}

-- EV_FLUSH, EV_TERMINATE, EV_STOP_OK
abbrev pub ev_flush : ℕ
ev_flush = 1

abbrev pub ev_terminate : ℕ
ev_terminate = 2

abbrev pub ev_stop_ok : ℕ
ev_stop_ok = 4

-- `len <= 0 || len >= sizeof(buf)`
unfoldable pub bad_length : ℤ → Bool
bad_length (negsuc n) = true
bad_length (pos n) = n == 0 || leb buf_size n

module _ {W : Type 0} (p : Platform W) (fuel : ℕ) where
  -- sceKernelSetEventFlag(g_evid, bits)
  unfoldable pub set_event : ℕ → Cmd (Sys W) (Unit {0})
  set_event bits s = ok tt (record s { world = p.set_event_flag s.evid bits s.world })

  -- add_msg(m), the flush event, and the length as the result.
  unfoldable pub enqueue : Ptr → ℕ → Cmd (Sys W) ℤ
  unfolding add_msg set_event
  enqueue m len = do add_msg fuel m; set_event ev_flush; ok (pos len)

  -- Behind the test of `len`: a text of 1 to 255 bytes.
  unfoldable pub handle_text : List ℕ → ℕ → Bool → Cmd (Sys W) ℤ
  unfolding new_msg enqueue
  handle_text buf len is_user s =
      let (ret, m, s') = new_msg p buf len is_user s in
      if is_neg ret then ok ret s' else enqueue m len s'

  unfoldable pub kprintf_handler : ℕ → ℕ → Bool → Cmd (Sys W) ℤ
  unfolding is_started bad_length handle_text
  kprintf_handler fmt va is_user s =
      let (len, buf) = p.vsnprintf buf_size fmt va s.world in
      if not (is_started s.state)
      then ok (pos 0) s
      else if bad_length len
      then ok (pos 0) s
      else handle_text buf (pos_part len) is_user s
