-- ===== src/Kprintf/Interleave/Arrivals.antt =====
-- A message that arrives: what kprintf_handler does to the queue and to the event flag, on every
-- path.
use libkprintf.Platform.{Platform}
use libkprintf.Prelude.{
  ℤ, Bool, ℕ, ◌≡◌, List, true, ◌⊎◌, ◌++◌, ◌∷◌, [], ◌≢◌, none, some, length, arith, pos, inr,
  Bool-cases, is_neg, inl, pos_part, refl, ◌∙◌, ap, sym,
}
use libkprintf.Kprintf.Interleave.Flags.{FlagLaws}
use libkprintf.Kprintf.{Sys, Ptr, Msg, null, buf_size, is_started}
use libkprintf.Prelude.Run.{ok, out_of_fuel, ok_transport}
use libkprintf.Kprintf.Queue.Chain.{IsQueue, NotIn, Chain-write, write_self, payload, write_ne}
use libkprintf.Kprintf.Hook.{enqueue, set_event, ev_flush, kprintf_handler, handle_text, bad_length}
use libkprintf.Kprintf.Queue.{write, new_msg, fresh_msg, sizeof_msg}
use libkprintf.Kprintf.Hook.Queues.{NotIn-free}
use native.Mathlib.Decide.{dec_lt}
use libkprintf.Kprintf.Queue.Add.{add_msg-out_of_fuel, add_msg-IsQueue}
use libkprintf.Kprintf.Queue.Fresh.{PoolGives}
use libkprintf.Kprintf.Interleave.Texts.{allocated, Text, accepted}

module _ {W : Type 0} (p : Platform W) where
  abbrev pub SameIds : Sys W → Sys W → Type 0
  SameIds s s' = (s'.evid ≡ s.evid) × (s'.state ≡ s.state) × (s'.semid ≡ s.semid)

  -- Nothing has happened outside but an attempt to allocate.
  abbrev pub Quiet : Sys W → Sys W → Type 0
  Quiet s s' =
      SameIds s s'
      × ((s'.world ≡ s.world) ⊎ ((n : ℕ) × (s'.world ≡ (p.try_allocate_vpl s.vplid n s.world).2)))

  -- Behind an allocation EV_FLUSH was set.
  abbrev pub Marked : Sys W → Sys W → Type 0
  Marked s s' =
      SameIds s s'
      × ((n : ℕ) × (s'.world
            ≡ p.set_event_flag s'.evid ev_flush (p.try_allocate_vpl s.vplid n s.world).2))

  -- Nothing is queued, and every message is as it was.
  abbrev pub Unchanged : List Text → Sys W → Sys W → Type 0
  Unchanged texts s s' = (texts ≡ []) × (s'.heap ≡ s.heap)

  -- One message is new, with the text, and the others keep theirs.
  abbrev pub Added : List Text → Sys W → List Ptr → Sys W → Ptr → Type 0
  Added texts s ms s' a =
      NotIn a ms
      × (texts ≡ payload (s'.heap a) ∷ [])
      × ((b : Ptr) → b ≢ a → payload (s'.heap b) ≡ payload (s.heap b))

  -- The queue is as it was, or there is one more message at its rear; `texts` are those queued.
  abbrev pub Arrived : List Text → Sys W → List Ptr → Sys W → Type 0
  Arrived texts s ms s' =
      (IsQueue s' ms × Quiet s s' × Unchanged texts s s')
      ⊎ ((a : Ptr) × IsQueue s' (ms ++ a ∷ []) × Marked s s' × Added texts s ms s' a)

  module _ (fuel : ℕ) (s : Sys W) (ms : List Ptr) (q : IsQueue s ms) where
    enqueue-Arrived :
        (a : Ptr) (m : Msg) (n : ℕ) (w : W) (ret : ℤ) (s' : Sys W)
        → ((k : ℕ) × (w ≡ (p.try_allocate_vpl s.vplid k s.world).2))
        → a ≢ null
        → s.heap a ≡ none
        → m.next ≡ null
        → enqueue p fuel a n (record s { heap = write s.heap a (some m); world = w }) ≡ ok ret s'
        → Arrived (payload (some m) ∷ []) s ms s'
    unfolding enqueue set_event
    enqueue-Arrived a m n w ret s' (k, asked) ne free end_m run =
        let s1 : Sys W = record s { heap = write s.heap a (some m); world = w } in
        let out : NotIn a ms = NotIn-free s.heap s.head a ms free q.chain in
        let q1 : IsQueue s1 ms = record {
          chain = Chain-write s.heap a s.head (some m) ms out q.chain;
          distinct = q.distinct;
        } in
        elim (dec_lt (length ms) fuel) [
          | no few ↦
              let stuck : out_of_fuel ≡ ok ret s' =
                rw (add_msg-out_of_fuel fuel a ms s1 q1 (omega arith)) at run in
              absurd (cc)
          | yes enough ↦
              let (s2, added, q2, kept, frame) =
                add_msg-IsQueue fuel a m s1 ms q1 out ne (write_self s.heap a (some m)) end_m
                  enough in
              let s3 : Sys W = record s2 { world = p.set_event_flag s2.evid ev_flush s2.world } in
              let fresh : payload (s2.heap a) ≡ payload (some m) =
                kept a ∙ ap payload (write_self s.heap a (some m)) in
              ok_transport (Arrived (payload (some m) ∷ []) s ms) (pos n) ret s3 s'
                (rw added at run)
                (inr (
                  a,
                  record { chain = q2.chain; distinct = q2.distinct },
                  (
                    (
                      ap (λ (x : Sys W). x.evid) frame,
                      ap (λ (x : Sys W). x.state) frame,
                      ap (λ (x : Sys W). x.semid) frame,
                    ),
                    (
                      k,
                      ap (p.set_event_flag s2.evid ev_flush)
                          (ap (λ (x : Sys W). x.world) frame ∙ asked),
                    ),
                  ),
                  (
                    out,
                    ap (λ x. x ∷ []) (sym fresh),
                    λ b other. kept b ∙ ap payload (write_ne s.heap a b (some m) other),
                  ),
                ))
        ]

    handle_text-Arrived :
        (buf : List ℕ) (n : ℕ) (is_user : Bool) (ret : ℤ) (s' : Sys W)
        → PoolGives p s
        → handle_text p fuel buf n is_user s ≡ ok ret s'
        → Arrived (allocated p buf n is_user s) s ms s'
    unfolding handle_text new_msg fresh_msg
    handle_text-Arrived buf n is_user ret s' gives run =
        let a = p.try_allocate_vpl s.vplid (sizeof_msg n) s.world in
        let s1 : Sys W = record s { world = a.2 } in
        elim (Bool-cases (is_neg a.0)) [
          | inl failed ↦
              ok_transport (Arrived (allocated p buf n is_user s) s ms) a.0 ret s1 s'
                (rw (failed, failed) at run)
                (inl (
                  record { chain = q.chain; distinct = q.distinct },
                  ((refl, refl, refl), inr (sizeof_msg n, refl)),
                  (rw failed refl, refl),
                ))
          | inr got ↦
              let (ne, free) = gives (sizeof_msg n) got in
              rw got (
                enqueue-Arrived a.1 (fresh_msg buf n is_user) n a.2 ret s' (sizeof_msg n, refl) ne
                  free refl (rw got at run))
        ]

    -- A message that arrives at a queue of any length.
    pub kprintf_handler-Arrived :
        (fmt va : ℕ) (is_user : Bool) (ret : ℤ) (s' : Sys W)
        → PoolGives p s
        → kprintf_handler p fuel fmt va is_user s ≡ ok ret s'
        → Arrived (accepted p fmt va is_user s) s ms s'
    unfolding kprintf_handler
    kprintf_handler-Arrived fmt va is_user ret s' gives run =
        let printed = p.vsnprintf buf_size fmt va s.world in
        elim (Bool-cases (is_started s.state)) [
          | inr off ↦
              ok_transport (Arrived (accepted p fmt va is_user s) s ms) (pos 0) ret s s'
                (rw off at run) (inl (q, ((refl, refl, refl), inl refl), (rw off refl, refl)))
          | inl on ↦ elim (Bool-cases (bad_length printed.0)) [
            | inl bad ↦
                ok_transport (Arrived (accepted p fmt va is_user s) s ms) (pos 0) ret s s'
                  (rw (on, bad) at run)
                  (inl (q, ((refl, refl, refl), inl refl), (rw (on, bad) refl, refl)))
            | inr good ↦
                rw (on, good)
                  (handle_text-Arrived printed.1 (pos_part printed.0) is_user ret s' gives
                    (rw (on, good) at run))
          ]
        ]

module _ {W : Type 0} (p : Platform W) (flag : ℤ → W → Bool) (laws : FlagLaws p flag) where
  -- EV_FLUSH is set.
  abbrev pub IsDue : Sys W → Type 0
  IsDue s = flag s.evid s.world ≡ true

  -- The queue is as it was and a set flag is still set, or there is one more message at its rear and
  -- the flag is set.
  abbrev pub Grown : Sys W → List Ptr → Sys W → Type 0
  Grown s ms s' =
      (IsQueue s' ms × (IsDue s → IsDue s')) ⊎ ((a : Ptr) × IsQueue s' (ms ++ a ∷ []) × IsDue s')

  pub Grown-Arrived :
      (texts : List Text) (s s' : Sys W) (ms : List Ptr) → Arrived p texts s ms s' → Grown s ms s'
  Grown-Arrived texts s s' ms (inl (q, ((same, state, sem), inl still), kept)) =
      inl (q, λ on. rw (same, still) on)
  Grown-Arrived texts s s' ms (inl (q, ((same, state, sem), inr (n, asked)), kept)) =
      inl (q, λ on. rw (same, asked) (laws.keeps.at_allocate s.evid s.vplid n s.world on))
  Grown-Arrived texts s s' ms (inr (a, q, (same, (n, marked)), added)) =
      inr (a, q, rw marked (laws.sets s'.evid (p.try_allocate_vpl s.vplid n s.world).2))
