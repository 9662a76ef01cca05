-- ===== src/Kprintf/Interleave/Stopping.antt =====
-- What is known of the queue once the event thread is asked to end.
-- The event thread is going to end in this round, or has ended.
use libkprintf.Kprintf.Interleave.{
  Pc, woken, locked, at_msg, next_read, invoked, flush_done, ended, waiting,
}
use libkprintf.Platform.{Platform}
use libkprintf.Kprintf.{Heap, Ptr, Sys, null, is_started}
use libkprintf.Prelude.{
  ℤ, List, ◌≡◌, Bool, [], true, ◌∷◌, ℕ, ◌⊎◌, false, sym, ◌∙◌, refl, inl, Bool-cases, inr, drop,
  ◌++◌, pos,
}
use libkprintf.Kprintf.Events.{has_event}
use libkprintf.Kprintf.Queue.Chain.{Chain, IsQueue}
use libkprintf.Kprintf.Hook.{ev_terminate, ev_flush, kprintf_handler}
use libkprintf.Kprintf.Interleave.Flags.{TermLaws}
use libkprintf.Kprintf.Interleave.Texts.{Text, accepted}
use libkprintf.Kprintf.Queue.Fresh.{PoolGives}
use libkprintf.Kprintf.Interleave.Arrivals.{Arrived, kprintf_handler-Arrived}
use libkprintf.Prelude.Run.{ok, ok_transport}
use libkprintf.Kprintf.Hook.Queues.{kprintf_handler-dropped}

abbrev pub Ends : Pc → Type 0
Ends waiting = ⊥
Ends (woken ev) = has_event ev ev_terminate ≡ true
Ends (locked ev) = has_event ev ev_terminate ≡ true
Ends (at_msg m ev) = has_event ev ev_terminate ≡ true
Ends (invoked m ev) = has_event ev ev_terminate ≡ true
Ends (next_read m next ev) = has_event ev ev_terminate ≡ true
Ends (flush_done ev) = has_event ev ev_terminate ≡ true
Ends ended = Unit

-- What the round will have emptied is empty.
abbrev pub Emptied : Pc → List Ptr → Type 0
Emptied (woken ev) ms = (ms ≡ []) ⊎ (has_event ev ev_flush ≡ true)
Emptied (at_msg m ev) ms = m ≡ null → ms ≡ []
Emptied (next_read m next ev) ms = next ≡ null → drop 1 ms ≡ []
Emptied (flush_done ev) ms = ms ≡ []
Emptied ended ms = ms ≡ []
Emptied pc ms = Unit

pub Chain-empty : (h : Heap) (a : Ptr) (ms : List Ptr) → Chain h a ms → a ≡ null → ms ≡ []
Chain-empty h a [] c end = refl
Chain-empty h a (m ∷ ms) (e, ne, rest) end = absurd (ne (sym e ∙ end))

module _ {W : Type 0} (p : Platform W) (term : ℤ → W → Bool) where
  -- While the module is started nobody has asked the event thread to end.
  abbrev pub Calm : Sys W → Type 0
  Calm s = is_started s.state ≡ true → term s.evid s.world ≡ false

  -- When the event thread is going to end, the module is stopped and nothing more arrives.
  abbrev pub Stopping : Pc → Sys W → List Ptr → Type 0
  Stopping pc s ms = Ends pc → (is_started s.state ≡ false) × Emptied pc ms

  abbrev pub Quits : Pc → Sys W → Type 0
  Quits pc s = (ms : List Ptr) × IsQueue s ms × Calm s × Stopping pc s ms

  -- While the module is started, the event thread is not going to end.
  pub Stopping-started :
      (pc : Pc) (s s' : Sys W) (ms ms' : List Ptr)
      → is_started s.state ≡ true
      → Stopping pc s ms
      → Stopping pc s' ms'
  Stopping-started pc s s' ms ms' on stopping ends =
      let (off, rest) = stopping ends in absurd (let x : true ≡ false = sym on ∙ off in cc)

  module _ (terms : TermLaws p term) where
    -- An arrival does not ask for the end.
    Arrived-term :
        (texts : List Text) (s s' : Sys W) (ms : List Ptr)
        → term s.evid s.world ≡ false
        → Arrived p texts s ms s'
        → (ms' : List Ptr) × IsQueue s' ms' × (term s'.evid s'.world ≡ false)
    Arrived-term texts s s' ms calm (inl (q, ((same, state, sem), inl still), kept)) =
        (ms, q, rw (same, still) calm)
    Arrived-term texts s s' ms calm (inl (q, ((same, state, sem), inr (n, asked)), kept)) =
        (ms, q, rw (same, asked) (terms.keeps.at_allocate s.evid s.vplid n s.world calm))
    Arrived-term texts s s' ms calm (inr (a, q, ((same, state, sem), (n, marked)), added)) = (
      ms ++ a ∷ [],
      q,
      rw (marked, same)
          (terms.at_flush s.evid _ (terms.keeps.at_allocate s.evid s.vplid n s.world calm)),
    )

    pub arrive-Quits :
        (pc : Pc) (fuel fmt va : ℕ) (is_user : Bool) (ret : ℤ) (s s' : Sys W) (ms : List Ptr)
        → PoolGives p s
        → kprintf_handler p fuel fmt va is_user s ≡ ok ret s'
        → IsQueue s ms
        → Calm s
        → Stopping pc s ms
        → Quits pc s'
    arrive-Quits pc fuel fmt va is_user ret s s' ms gives run q calm stopping =
        elim (Bool-cases (is_started s.state)) [
          | inr off ↦
              let dropped = kprintf_handler-dropped p fuel fmt va is_user s (inl off) in
              ok_transport (Quits pc) (pos 0) ret s s' (sym dropped ∙ run) (ms, q, calm, stopping)
          | inl on ↦
              let (ms', q', clear) =
                Arrived-term (accepted p fmt va is_user s) s s' ms (calm on)
                  (kprintf_handler-Arrived p fuel s ms q fmt va is_user ret s' gives run) in
              (ms', q', λ on'. clear, Stopping-started pc s s' ms ms' on stopping)
        ]
