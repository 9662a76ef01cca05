-- ===== src/Kprintf/Hook/Queues.antt =====
-- handler.c, kprintf_handler: what a call of Kprintf leaves in the queue.
use libkprintf.Prelude.Run.{ok}
use libkprintf.Platform.{Platform}
use libkprintf.Kprintf.{Heap, Ptr, Sys, is_started, buf_size, null, Msg}
use libkprintf.Prelude.{
  ℕ, List, Bool, ◌≡◌, none, true, false, ◌⊎◌, ◌∷◌, pos, ◌<◌, some, inl, inr, sym, Bool-cases, arith,
  ◌∙◌, ap, [], is_neg, ◌+◌, refl, length, ◌≢◌, ◌++◌,
}
use libkprintf.Kprintf.Hook.{kprintf_handler, bad_length, handle_text, enqueue, set_event, ev_flush}
use libkprintf.Kprintf.Queue.Chain.{
  Chain, NotIn, IsQueue, payload, Chain-write, write_self, write_ne,
}
use libkprintf.Kprintf.Queue.{new_msg, sizeof_msg, msg_size, fresh_msg, write}
use libkprintf.Kprintf.Queue.Fresh.{Printed, IsFresh, fresh_msg-IsFresh}
use libkprintf.Kprintf.Queue.Add.{add_msg-IsQueue}

-- A block that holds no message is none of the queue's.
pub NotIn-free : (h : Heap) (a b : Ptr) (ms : List Ptr) → h b ≡ none → Chain h a ms → NotIn b ms
NotIn-free h a b [] free c = tt
NotIn-free h a b (x ∷ ms) free (e, ne, (m, at, rest)) = (
  λ same. absurd (let two : none ≡ some m = sym free ∙ ap h same ∙ at in cc),
  NotIn-free h m.next b ms free rest,
)

module _ {W : Type 0} (p : Platform W) (fuel fmt va : ℕ) (is_user : Bool) (s : Sys W) where
  -- Nothing is queued before the module is started, for an empty text, for one that does not fit
  -- the buffer, or when vsnprintf fails: the result is 0 and the state is as it was.
  pub kprintf_handler-dropped :
      (is_started s.state ≡ false) ⊎ (bad_length (p.vsnprintf buf_size fmt va s.world).0 ≡ true)
      → kprintf_handler p fuel fmt va is_user s ≡ ok (pos 0) s
  unfolding kprintf_handler
  kprintf_handler-dropped (inl off) = rw off
  kprintf_handler-dropped (inr bad) = elim (Bool-cases (is_started s.state)) [
    | inl on ↦ rw (on, bad)
    | inr off ↦ rw off
  ]

  module _ (n : ℕ) (on : is_started s.state ≡ true)
      (printed : (p.vsnprintf buf_size fmt va s.world).0 ≡ pos n) (some_text : 0 < n)
      (fits : n < buf_size) where
    handler-text :
        kprintf_handler p fuel fmt va is_user s
        ≡ handle_text p fuel (p.vsnprintf buf_size fmt va s.world).1 n is_user s
    unfolding kprintf_handler bad_length
    handler-text = let good : bad_length (pos n) ≡ false = ground arith in rw (on, printed, good)

    -- In a started module, for a text of 1 to 255 bytes: with the pool exhausted, the error of
    -- the pool is the result and no message changes.
    pub kprintf_handler-no_memory :
        is_neg (p.try_allocate_vpl s.vplid (n + 28) s.world).0 ≡ true
        → (s' : Sys W) × (kprintf_handler p fuel fmt va is_user s
            ≡ ok (p.try_allocate_vpl s.vplid (n + 28) s.world).0 s')
          × (s'.heap ≡ s.heap)
          × (s'.head ≡ s.head)
    unfolding handle_text new_msg sizeof_msg msg_size
    kprintf_handler-no_memory failed =
        let size : 12 + (n + 1 + 1 + 14) ≡ n + 28 = omega arith in
        let a = p.try_allocate_vpl s.vplid (n + 28) s.world in
        (record s { world = a.2 }, handler-text ∙ rw (size, failed, failed), refl, refl)

    pub handler-queues :
        (ms : List Ptr)
        → IsQueue s ms
        → length ms < fuel
        → let buf = (p.vsnprintf buf_size fmt va s.world).1 in
          let a = p.try_allocate_vpl s.vplid (n + 28) s.world in
          is_neg a.0 ≡ false
          → a.1 ≢ null
          → s.heap a.1 ≡ none
          → (s' : Sys W) × (kprintf_handler p fuel fmt va is_user s ≡ ok (pos n) s')
            × IsQueue s' (ms ++ a.1 ∷ [])
            × (payload (s'.heap a.1) ≡ payload (some (fresh_msg buf n is_user)))
            × ((b : Ptr) → b ≢ a.1 → payload (s'.heap b) ≡ payload (s.heap b))
            × (s'.world ≡ p.set_event_flag s.evid ev_flush a.2)
    unfolding handle_text new_msg sizeof_msg msg_size enqueue set_event fresh_msg
    handler-queues ms q enough got ne free =
        let size : 12 + (n + 1 + 1 + 14) ≡ n + 28 = omega arith in
        let buf = (p.vsnprintf buf_size fmt va s.world).1 in
        let a = p.try_allocate_vpl s.vplid (n + 28) s.world in
        let m : Msg = fresh_msg buf n is_user in
        let s1 : Sys W = record s { heap = write s.heap a.1 (some m); world = a.2 } in
        let out : NotIn a.1 ms = NotIn-free s.heap s.head a.1 ms free q.chain in
        let q1 : IsQueue s1 ms = record {
          chain = Chain-write s.heap a.1 s.head (some m) ms out q.chain;
          distinct = q.distinct;
        } in
        let (s2, run, q2, kept, frame) =
          add_msg-IsQueue fuel a.1 m s1 ms q1 out ne (write_self s.heap a.1 (some m)) refl enough in
        (
          record s2 { world = p.set_event_flag s2.evid ev_flush s2.world },
          handler-text ∙ rw (size, got, run),
          record { chain = q2.chain; distinct = q2.distinct },
          kept a.1 ∙ ap payload (write_self s.heap a.1 (some m)),
          λ b other. kept b ∙ ap payload (write_ne s.heap a.1 b (some m) other),
          ap (λ t. p.set_event_flag t.evid ev_flush t.world) frame,
        )

    -- In a started module, for a text of 1 to 255 bytes with no NUL among them, a block from
    -- the pool that no message occupies, and more fuel than messages: the text is queued behind
    -- the messages that are waiting, no other message changes its contents, the flush event is
    -- set, and the result is the length of the text.
    pub kprintf_handler-queued :
        (ms : List Ptr)
        → IsQueue s ms
        → length ms < fuel
        → let buf = (p.vsnprintf buf_size fmt va s.world).1 in
          let a = p.try_allocate_vpl s.vplid (n + 28) s.world in
          Printed buf n
          → is_neg a.0 ≡ false
          → a.1 ≢ null
          → s.heap a.1 ≡ none
          → (s' : Sys W) × (kprintf_handler p fuel fmt va is_user s ≡ ok (pos n) s')
            × IsQueue s' (ms ++ a.1 ∷ [])
            × ((m : Msg) × (payload (s'.heap a.1) ≡ payload (some m)) × IsFresh buf n is_user m)
            × ((b : Ptr) → b ≢ a.1 → payload (s'.heap b) ≡ payload (s.heap b))
            × (s'.world ≡ p.set_event_flag s.evid ev_flush a.2)
    kprintf_handler-queued ms q enough pr got ne free =
        let buf = (p.vsnprintf buf_size fmt va s.world).1 in
        let (s', run, q', kept, others, world) = handler-queues ms q enough got ne free in
        let fresh = fresh_msg-IsFresh buf n is_user (omega arith) pr in
        (s', run, q', (fresh_msg buf n is_user, kept, fresh), others, world)
