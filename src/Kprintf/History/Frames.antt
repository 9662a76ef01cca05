-- ===== src/Kprintf/History/Frames.antt =====
-- handler.c, kprintf_handler: a message leaves the table of handlers alone.
use libkprintf.Platform.{Platform}
use libkprintf.Kprintf.{Sys, Ptr, buf_size, is_started}
use libkprintf.Prelude.{
  ◌≡◌, ℕ, List, Bool, ℤ, Bool-cases, is_neg, inr, inl, pos, ap, some, pos_part, refl,
}
use libkprintf.Kprintf.Hook.{kprintf_handler, enqueue, handle_text, set_event, ev_flush, bad_length}
use libkprintf.Prelude.Run.{ok, ok_transport, Run, fault, out_of_fuel}
use libkprintf.Kprintf.Queue.{write, new_msg, sizeof_msg, add_msg, fresh_msg}
use libkprintf.Kprintf.Queue.Add.{add_msg-HeapOnly}

module _ {W : Type 0} where
  -- The table, its counter and the default index are the same.
  abbrev pub SameTable : Sys W → Sys W → Type 0
  SameTable s t =
      (t.handlers ≡ s.handlers)
      × (t.handler_count ≡ s.handler_count)
      × (t.default_handler_index ≡ s.default_handler_index)

module _ {W : Type 0} (p : Platform W) where
  table-through :
      {A : Type 0} (a b : A) (s0 s s' : Sys W) → ok a s ≡ ok b s' → SameTable s0 s → SameTable s0 s'
  table-through a b s0 s s' e same = ok_transport (SameTable s0) a b s s' e same

  queued-SameTable :
      (fuel : ℕ) (m : Ptr) (n : ℕ) (ret : ℤ) (s s' : Sys W) (r : Run (Sys W) (Unit {0}))
      → add_msg fuel m s ≡ r
      → enqueue p fuel m n s ≡ ok ret s'
      → SameTable s s'
  unfolding enqueue set_event
  queued-SameTable fuel m n ret s s' fault e run =
      absurd (let x : fault ≡ ok ret s' = rw e at run in cc)
  queued-SameTable fuel m n ret s s' out_of_fuel e run =
      absurd (let x : out_of_fuel ≡ ok ret s' = rw e at run in cc)
  queued-SameTable fuel m n ret s s' (ok u s2) e run =
      let frame : s2 ≡ record s { head = s2.head; heap = s2.heap } =
        add_msg-HeapOnly fuel m s s2 e in
      let s3 : Sys W = record s2 { world = p.set_event_flag s2.evid ev_flush s2.world } in
      table-through (pos n) ret s s3 s' (rw e at run) (
        ap (λ (x : Sys W). x.handlers) frame,
        ap (λ (x : Sys W). x.handler_count) frame,
        ap (λ (x : Sys W). x.default_handler_index) frame,
      )

  text-SameTable :
      (fuel : ℕ) (buf : List ℕ) (n : ℕ) (is_user : Bool) (ret : ℤ) (s s' : Sys W)
      → handle_text p fuel buf n is_user s ≡ ok ret s'
      → SameTable s s'
  unfolding handle_text new_msg
  text-SameTable fuel buf n is_user ret s s' run =
      let a = p.try_allocate_vpl s.vplid (sizeof_msg n) s.world in
      let s1 : Sys W = record s { world = a.2 } in
      elim (Bool-cases (is_neg a.0)) [
        | inl failed ↦ table-through a.0 ret s s1 s' (rw (failed, failed) at run) (refl, refl, refl)
        | inr got ↦
            let s2 : Sys W = record s {
              heap = write s.heap a.1 (some (fresh_msg buf n is_user));
              world = a.2;
            } in
            queued-SameTable fuel a.1 n ret s2 s' (add_msg fuel a.1 s2) refl (rw got at run)
      ]

  -- A message leaves the table alone, on every path.
  pub message-SameTable :
      (fuel fmt va : ℕ) (is_user : Bool) (ret : ℤ) (s s' : Sys W)
      → kprintf_handler p fuel fmt va is_user s ≡ ok ret s'
      → SameTable s s'
  unfolding kprintf_handler
  message-SameTable fuel fmt va is_user ret s s' run =
      let printed = p.vsnprintf buf_size fmt va s.world in
      elim (Bool-cases (is_started s.state)) [
        | inr off ↦ table-through (pos 0) ret s s s' (rw off at run) (refl, refl, refl)
        | inl on ↦ elim (Bool-cases (bad_length printed.0)) [
          | inl bad ↦ table-through (pos 0) ret s s s' (rw (on, bad) at run) (refl, refl, refl)
          | inr good ↦
              text-SameTable fuel printed.1 (pos_part printed.0) is_user ret s s'
                (rw (on, good) at run)
        ]
      ]
