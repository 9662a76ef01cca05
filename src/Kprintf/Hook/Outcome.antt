-- ===== src/Kprintf/Hook/Outcome.antt =====
-- handler.c, kprintf_handler: its outcomes, for every call.
-- A length that is not refused.
use libkprintf.Kprintf.Hook.{bad_length, kprintf_handler, ev_flush}
use libkprintf.Platform.{Platform}
use libkprintf.Prelude.{
  ℤ, ℕ, Bool, ◌≡◌, false, pos, List, ◌<◌, ◌+◌, ◌⊎◌, length, negsuc, is_neg, true, arith, refl,
  Bool-cases, ◌++◌, inr, inl, ◌∷◌, [], ◌≢◌,
}
use libkprintf.Kprintf.{Sys, Ptr, buf_size, is_started}
use libkprintf.Kprintf.Queue.Chain.{IsQueue, payload}
use libkprintf.Kprintf.Queue.Fresh.{PoolGives}
use libkprintf.Prelude.Run.{ok}
use libkprintf.Kprintf.Hook.Queues.{
  kprintf_handler-dropped, kprintf_handler-no_memory, handler-queues,
}

good_length :
    (len : ℤ) → bad_length len ≡ false → (n : ℕ) × (len ≡ pos n) × (0 < n) × (n < buf_size)
unfolding bad_length
good_length (negsuc n) good = absurd (cc)
good_length (pos n) good = (n, refl, ground arith, ground arith)

module _ {W : Type 0} (p : Platform W) (fuel fmt va : ℕ) (is_user : Bool) (s : Sys W)
    (ms : List Ptr) where
  -- Nothing is printed, or the module is not started.
  abbrev Drops : Type 0
  Drops =
      ((is_started s.state ≡ false) ⊎ (bad_length (p.vsnprintf buf_size fmt va s.world).0 ≡ true))
      × (kprintf_handler p fuel fmt va is_user s ≡ ok (pos 0) s)

  -- The started module accepts a text of `n` bytes.
  abbrev Accepts : ℕ → Type 0
  Accepts n =
      (is_started s.state ≡ true)
      × ((p.vsnprintf buf_size fmt va s.world).0 ≡ pos n)
      × (0 < n)
      × (n < buf_size)

  -- The pool is exhausted.
  abbrev Fails : ℕ → Type 0
  Fails n =
      let a = p.try_allocate_vpl s.vplid (n + 28) s.world in
      (is_neg a.0 ≡ true)
      × ((s' : Sys W) × (kprintf_handler p fuel fmt va is_user s ≡ ok a.0 s')
          × (s'.heap ≡ s.heap)
          × (s'.head ≡ s.head))

  -- The text is queued in the block that the pool gives.
  abbrev Queues : ℕ → Type 0
  Queues n =
      let a = p.try_allocate_vpl s.vplid (n + 28) s.world in
      (is_neg a.0 ≡ false)
      × ((s' : Sys W) × (kprintf_handler p fuel fmt va is_user s ≡ ok (pos n) s')
          × IsQueue s' (ms ++ a.1 ∷ [])
          × ((b : Ptr) → b ≢ a.1 → payload (s'.heap b) ≡ payload (s.heap b))
          × (s'.world ≡ p.set_event_flag s.evid ev_flush a.2))

  abbrev pub Outcome : Type 0
  Outcome = Drops ⊎ ((n : ℕ) × Accepts n × (Fails n ⊎ Queues n))

  -- Every call of kprintf_handler with a well-formed queue, more fuel than messages, and a pool that
  -- gives no block in use returns, with no fault. It drops the message with the result 0 and the
  -- state as it was, when the module is not started or the length is not 1 to 255; it fails with
  -- the pool's error and the messages as they were; or it queues the message behind the others, whose
  -- contents stay, sets EV_FLUSH, and the result is the length.
  pub kprintf_handler-outcome : IsQueue s ms → length ms < fuel → PoolGives p s → Outcome
  kprintf_handler-outcome q enough gives =
      let printed = p.vsnprintf buf_size fmt va s.world in
      elim (Bool-cases (is_started s.state)) [
        | inr off ↦ inl (inl off, kprintf_handler-dropped p fuel fmt va is_user s (inl off))
        | inl on ↦ elim (Bool-cases (bad_length printed.0)) [
          | inl bad ↦ inl (inr bad, kprintf_handler-dropped p fuel fmt va is_user s (inr bad))
          | inr good ↦
              let (n, len, some_text, fits) = good_length printed.0 good in
              let a = p.try_allocate_vpl s.vplid (n + 28) s.world in
              let rest : Fails n ⊎ Queues n = elim (Bool-cases (is_neg a.0)) [
                | inl failed ↦ inl (
                  failed,
                  kprintf_handler-no_memory p fuel fmt va is_user s n on len some_text fits failed,
                )
                | inr got ↦
                    let (ne, free) = gives (n + 28) got in
                    let (s', run, q', kept, others, world) =
                      handler-queues p fuel fmt va is_user s n on len some_text fits ms q enough got
                        ne free in
                    inr (got, (s', run, q', others, world))
              ] in
              inr (n, (on, len, some_text, fits), rest)
        ]
      ]
