-- ===== src/Kprintf/Interleave/Pending.antt =====
-- No message is forgotten: whatever arrives while the event thread works, a message that is queued
-- when the thread waits is one for which EV_FLUSH is set.
use libkprintf.Platform.{Platform}
use libkprintf.Kprintf.{HandlerFlags, Ptr, Sys, null}
use libkprintf.Prelude.{ℤ, Bool, List, ◌≡◌, ◌⊎◌, [], ◌++◌, inl, ◌∷◌, inr, ap, true}
use libkprintf.Kprintf.Interleave.Flags.{FlagLaws}
use libkprintf.Kprintf.Interleave.{
  Pc, woken, locked, at_msg, invoked, next_read, flush_done, waiting, ended,
}
use libkprintf.Kprintf.Queue.Chain.{IsQueue}
use libkprintf.Kprintf.Interleave.Arrivals.{IsDue, Grown}
use libkprintf.Kprintf.Events.{has_event}
use libkprintf.Kprintf.Hook.{ev_flush}

module _ {W : Type 0} (p : Platform W) (flags : HandlerFlags) (default_cb : Ptr)
    (flag : ℤ → W → Bool) (laws : FlagLaws p flag) where
  -- The queue is empty or EV_FLUSH is set.
  abbrev pub Settled : Sys W → List Ptr → Type 0
  Settled s ms = (ms ≡ []) ⊎ IsDue p flag laws s

  -- The event thread is at the first message of the queue, or at its end.
  abbrev pub AtFront : Ptr → Sys W → List Ptr → Type 0
  AtFront m s ms = ((m ≡ null) × Settled s ms) ⊎ ((rest : List Ptr) × (ms ≡ m ∷ rest))

  -- What is known of the queue `ms` wherever the event thread stands.
  abbrev pub Known : Pc → Sys W → List Ptr → Type 0
  Known waiting s ms = Settled s ms
  Known (woken ev) s ms = Settled s ms ⊎ (has_event ev ev_flush ≡ true)
  Known (locked ev) s ms = Unit
  Known (at_msg m ev) s ms = AtFront m s ms
  Known (invoked m ev) s ms = (rest : List Ptr) × (ms ≡ m ∷ rest)
  Known (next_read m next ev) s ms = (rest : List Ptr) × (ms ≡ m ∷ rest) × AtFront next s rest
  Known (flush_done ev) s ms = Settled s ms
  Known ended s ms = Unit

  -- The queue is well formed.
  abbrev pub Inv : Pc → Sys W → Type 0
  Inv pc s = (ms : List Ptr) × IsQueue s ms × Known pc s ms

  -- An arrival: a longer queue with the flag set, or the same queue and no flag lost.
  pub Settled-grown :
      (s s' : Sys W) (ms : List Ptr)
      → (IsDue p flag laws s → IsDue p flag laws s')
      → Settled s ms
      → Settled s' ms
  Settled-grown s s' ms keeps (inl empty) = inl empty
  Settled-grown s s' ms keeps (inr due) = inr (keeps due)

  pub AtFront-keeps :
      (m : Ptr) (s s' : Sys W) (ms : List Ptr)
      → (IsDue p flag laws s → IsDue p flag laws s')
      → AtFront m s ms
      → AtFront m s' ms
  AtFront-keeps m s s' ms keeps (inl (e, settled)) = inl (e, Settled-grown s s' ms keeps settled)
  AtFront-keeps m s s' ms keeps (inr front) = inr front

  AtFront-append :
      (m : Ptr) (s s' : Sys W) (ms : List Ptr) (a : Ptr)
      → IsDue p flag laws s'
      → AtFront m s ms
      → AtFront m s' (ms ++ a ∷ [])
  AtFront-append m s s' ms a due (inl (e, settled)) = inl (e, inr due)
  AtFront-append m s s' ms a due (inr (rest, e)) = inr (rest ++ a ∷ [], ap (λ xs. xs ++ a ∷ []) e)

  Known-keeps :
      (pc : Pc) (s s' : Sys W) (ms : List Ptr)
      → (IsDue p flag laws s → IsDue p flag laws s')
      → Known pc s ms
      → Known pc s' ms
  Known-keeps waiting s s' ms keeps k = Settled-grown s s' ms keeps k
  Known-keeps (woken ev) s s' ms keeps (inl k) = inl (Settled-grown s s' ms keeps k)
  Known-keeps (woken ev) s s' ms keeps (inr found) = inr found
  Known-keeps (locked ev) s s' ms keeps k = tt
  Known-keeps (at_msg m ev) s s' ms keeps k = AtFront-keeps m s s' ms keeps k
  Known-keeps (invoked m ev) s s' ms keeps k = k
  Known-keeps (next_read m next ev) s s' ms keeps (rest, e, k) =
      (rest, e, AtFront-keeps next s s' rest keeps k)
  Known-keeps (flush_done ev) s s' ms keeps k = Settled-grown s s' ms keeps k
  Known-keeps ended s s' ms keeps k = tt

  Known-append :
      (pc : Pc) (s s' : Sys W) (ms : List Ptr) (a : Ptr)
      → IsDue p flag laws s'
      → Known pc s ms
      → Known pc s' (ms ++ a ∷ [])
  Known-append waiting s s' ms a due k = inr due
  Known-append (woken ev) s s' ms a due k = inl (inr due)
  Known-append (locked ev) s s' ms a due k = tt
  Known-append (at_msg m ev) s s' ms a due k = AtFront-append m s s' ms a due k
  Known-append (invoked m ev) s s' ms a due (rest, e) = (rest ++ a ∷ [], ap (λ xs. xs ++ a ∷ []) e)
  Known-append (next_read m next ev) s s' ms a due (rest, e, k) =
      (rest ++ a ∷ [], ap (λ xs. xs ++ a ∷ []) e, AtFront-append next s s' rest a due k)
  Known-append (flush_done ev) s s' ms a due k = inr due
  Known-append ended s s' ms a due k = tt

  pub arrive-Inv :
      (pc : Pc) (s s' : Sys W) (ms : List Ptr)
      → Known pc s ms
      → Grown p flag laws s ms s'
      → Inv pc s'
  arrive-Inv pc s s' ms k (inl (q, keeps)) = (ms, q, Known-keeps pc s s' ms keeps k)
  arrive-Inv pc s s' ms k (inr (a, q, due)) = (ms ++ a ∷ [], q, Known-append pc s s' ms a due k)
