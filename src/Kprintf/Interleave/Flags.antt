-- ===== src/Kprintf/Interleave/Flags.antt =====
-- The event flag, as far as EV_FLUSH and EV_TERMINATE go.
use libkprintf.Platform.{Platform, CallReturn}
use libkprintf.Kprintf.{HandlerFlags, Ptr, RegHandler, Msg}
use libkprintf.Prelude.{
  ℤ, Bool, List, ℕ, ◌≡◌, true, some, Bool-cases, ◌+◌, ◌==◌, inl, inr, Option-cases, none, false,
}
use libkprintf.Kprintf.Hook.{ev_flush, ev_terminate}
use libkprintf.Kprintf.Dispatch.{
  call_cb, default_file_handler, add_newline, read_bytes, can_write, write_out,
}
use libkprintf.Kprintf.Events.{has_event}
use libkprintf.Kprintf.Dispatch.Order.{Delivers, at_end, skip, stop, pass}

-- What no call of the event thread, the hook and _stop changes, but those on event flags and on
-- semaphores: `P id w` speaks of the object `id`.
pub record Keeps {W : Type 0} (p : Platform W) (P : ℤ → W → Type 0) : Type 0 where
  pub at_allocate : (id vpl : ℤ) (n : ℕ) (w : W) → P id w → P id (p.try_allocate_vpl vpl n w).2
  pub at_free : (id vpl : ℤ) (a : ℕ) (w : W) → P id w → P id (p.free_vpl vpl a w).1
  pub at_suspend : (id : ℤ) (w : W) → P id w → P id (p.suspend_intr w).1
  pub at_resume : (id : ℤ) (i : ℕ) (w : W) → P id w → P id (p.resume_intr i w)
  pub at_delay : (id : ℤ) (n : ℕ) (w : W) → P id w → P id (p.delay_thread n w)
  pub at_hook : (id : ℤ) (a : ℕ) (w : W) → P id w → P id (p.register_kprintf_handler a w)
  pub at_write : (id fd : ℤ) (text : List ℕ) (w : W) → P id w → P id (p.io_write fd text w)
  pub at_callback :
      (id : ℤ) (cb : ℕ) (arg : ℤ) (text : List ℕ) (len size : ℕ) (is_user : Bool) (w : W)
      → P id w
      → P id (p.callback cb arg text len size is_user w).world

-- Documented behaviour: `flag id w` says whether EV_FLUSH is set in the event flag `id`. Setting bits
-- sets it or leaves it, a wait for EV_FLUSH among others finds it if it is set, and no other call
-- clears it.
pub record FlagLaws {W : Type 0} (p : Platform W) (flag : ℤ → W → Bool) : Type 0 where
  pub sets : (id : ℤ) (w : W) → flag id (p.set_event_flag id ev_flush w) ≡ true
  pub stays :
      (id : ℤ) (bits : ℕ) (w : W) → flag id w ≡ true → flag id (p.set_event_flag id bits w) ≡ true
  pub found :
      (id : ℤ) (w : W)
      → flag id w ≡ true
      → has_event (p.wait_event_flag id (ev_flush + ev_terminate) w).0 ev_flush ≡ true
  pub at_wait_sema : (id sem : ℤ) (w : W) → flag id w ≡ true → flag id (p.wait_sema sem w).1 ≡ true
  pub at_signal_sema :
      (id sem : ℤ) (w : W) → flag id w ≡ true → flag id (p.signal_sema sem w).1 ≡ true
  pub keeps : Keeps p (λ id w. flag id w ≡ true)

-- The same of EV_TERMINATE, by `term id w`: while it is clear, a wait does not find it, and only
-- setting it sets it.
pub record TermLaws {W : Type 0} (p : Platform W) (term : ℤ → W → Bool) : Type 0 where
  pub not_found :
      (id : ℤ) (w : W)
      → term id w ≡ false
      → has_event (p.wait_event_flag id (ev_flush + ev_terminate) w).0 ev_terminate ≡ false
  pub at_wait :
      (id : ℤ) (bits : ℕ) (w : W)
      → term id w ≡ false
      → term id (p.wait_event_flag id bits w).1 ≡ false
  pub at_flush :
      (id : ℤ) (w : W) → term id w ≡ false → term id (p.set_event_flag id ev_flush w) ≡ false
  pub at_wait_sema :
      (id sem : ℤ) (w : W) → term id w ≡ false → term id (p.wait_sema sem w).1 ≡ false
  pub at_signal_sema :
      (id sem : ℤ) (w : W) → term id w ≡ false → term id (p.signal_sema sem w).1 ≡ false
  pub keeps : Keeps p (λ id w. term id w ≡ false)

module _ {W : Type 0} (p : Platform W) (flags : HandlerFlags) (default_cb : Ptr)
    (P : ℤ → W → Type 0) (laws : Keeps p P) (id : ℤ) where
  ap_world : {a b : CallReturn W} → some a ≡ some b → a.world ≡ b.world
  ap_world e = cc

  write_out-Keeps :
      (fd : ℤ) (buf : List ℕ) (n : ℕ) (is_user : Bool) (w w' : W)
      → write_out p flags fd buf n is_user w ≡ some w'
      → P id w
      → P id w'
  unfolding write_out
  write_out-Keeps fd buf n is_user w w' e on = elim (Bool-cases (can_write flags is_user)) [
    | inr silent ↦ let x : some w ≡ some w' = rw silent at e in let y : w ≡ w' = cc in rw (← y) on
    | inl writes ↦ elim (Option-cases (read_bytes buf n)) [
      | inl short ↦ absurd (let x : none ≡ some w' = rw (writes, short) at e in cc)
      | inr (out, read) ↦
          let x : some (p.io_write fd out w) ≡ some w' = rw (writes, read) at e in
          let y : p.io_write fd out w ≡ w' = cc in rw (← y) (laws.at_write id fd out w on)
    ]
  ]

  default_file_handler-Keeps :
      (fd : ℤ) (msg : List ℕ) (len : ℕ) (is_user : Bool) (w : W) (r : CallReturn W)
      → default_file_handler p flags fd msg len is_user w ≡ some r
      → P id w
      → P id r.world
  unfolding default_file_handler
  default_file_handler-Keeps fd msg len is_user w r e on =
      elim (Option-cases (add_newline flags.auto_newline msg len)) [
        | inl bad ↦ absurd (let x : none ≡ some r = rw bad at e in cc)
        | inr ((buf, n), good) ↦ elim (Option-cases (write_out p flags fd buf n is_user w)) [
          | inl short ↦ absurd (let x : none ≡ some r = rw (good, short) at e in cc)
          | inr (w1, wrote) ↦
              let x = rw (good, wrote) at e in
              let y : w1 ≡ r.world = ap_world x in
              rw (← y) (write_out-Keeps fd buf n is_user w w1 wrote on)
        ]
      ]

  call_cb-Keeps :
      (h : RegHandler) (m : Msg) (w : W) (r : CallReturn W)
      → call_cb p flags default_cb h m w ≡ some r
      → P id w
      → P id r.world
  unfolding call_cb
  call_cb-Keeps h m w r e on = elim (Bool-cases (h.cb == default_cb)) [
    | inl own ↦ default_file_handler-Keeps h.arg m.text m.len m.is_user w r (rw own at e) on
    | inr other ↦
        let x : some (p.callback h.cb h.arg m.text m.len m.size m.is_user w) ≡ some r =
          rw other at e in
        let y : (p.callback h.cb h.arg m.text m.len m.size m.is_user w).world ≡ r.world = cc in
        rw (← y) (laws.at_callback id h.cb h.arg m.text m.len m.size m.is_user w on)
  ]

  -- The handlers of a message keep it.
  pub Delivers-Keeps :
      {hs : List RegHandler} {m m' : Msg} {w w' : W}
      → Delivers p flags default_cb hs m w m' w'
      → P id w
      → P id w'
  Delivers-Keeps at_end on = on
  Delivers-Keeps (skip free d) on = Delivers-Keeps d on
  Delivers-Keeps (stop {h} {hs} {m} {w} r used call stopped) on = call_cb-Keeps h m w r call on
  Delivers-Keeps (pass {h} {hs} {m} {m'} {w} r used call goes_on d) on =
      Delivers-Keeps d (call_cb-Keeps h m w r call on)
