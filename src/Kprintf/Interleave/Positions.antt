-- ===== src/Kprintf/Interleave/Positions.antt =====
-- Which of the queued messages the event thread has still to deliver, and what an arrival adds.
use libkprintf.Kprintf.Queue.{write}
use libkprintf.Prelude.{
  List, Option, ◌∷◌, ◌++◌, ℤ, drop, Bool, ◌≡◌, [], ◌≢◌, none, append-nil, inl, inr, ap, ◌∙◌,
  append_assoc, refl,
}
use libkprintf.Kprintf.{Heap, Ptr, Sys, HandlerFlags, Msg}
use libkprintf.Kprintf.Interleave.{
  Pc, invoked, next_read, woken, locked, at_msg, flush_done, waiting, ended,
}
use libkprintf.Platform.{Platform}
use libkprintf.Kprintf.Interleave.Texts.{Text, contents, contents-keep, contents-append}
use libkprintf.Kprintf.Queue.Chain.{NotIn, IsQueue, payload, write_ne}
use libkprintf.Kprintf.Interleave.Flags.{FlagLaws}
use libkprintf.Kprintf.Interleave.Pending.{Known}
use libkprintf.Kprintf.Interleave.Arrivals.{Arrived}
use native.Mathlib.Decide.{ℕ_discrete}

-- At `invoked` and `next_read` the first message is delivered and not yet removed.
abbrev pub left : Pc → List Ptr → List Ptr
left (invoked m ev) ms = drop 1 ms
left (next_read m next ev) ms = drop 1 ms
left pc ms = ms

left-NotIn : (pc : Pc) (ms : List Ptr) (b : Ptr) → NotIn b ms → NotIn b (left pc ms)
left-NotIn (invoked m ev) [] b out = tt
left-NotIn (invoked m ev) (a ∷ ms) b out = out.1
left-NotIn (next_read m next ev) [] b out = tt
left-NotIn (next_read m next ev) (a ∷ ms) b out = out.1
left-NotIn waiting ms b out = out
left-NotIn (woken ev) ms b out = out
left-NotIn (locked ev) ms b out = out
left-NotIn (at_msg m ev) ms b out = out
left-NotIn (flush_done ev) ms b out = out
left-NotIn ended ms b out = out

NotIn-split : (b a : Ptr) (ms : List Ptr) → NotIn b (ms ++ a ∷ []) → NotIn b ms × (b ≢ a)
NotIn-split b a [] out = (tt, out.0)
NotIn-split b a (x ∷ xs) out = let (rest, ne) = NotIn-split b a xs out.1 in ((out.0, rest), ne)

pub write-contents :
    (h : Heap) (m : Ptr) (n : Option Msg) (ms : List Ptr)
    → NotIn m ms
    → contents (write h m n) ms ≡ contents h ms
write-contents h m n ms out = contents-keep (write h m n) h ms (λ b. elim (ℕ_discrete b m) [
  | yes here ↦ inl (rw here out)
  | no other ↦ inr (ap payload (write_ne h m b n other))
])

module _ {W : Type 0} where
  -- No memory is lost: every message that exists is in the queue.
  abbrev pub NoLeak : Sys W → List Ptr → Type 0
  NoLeak s ms = (b : Ptr) → NotIn b ms → payload (s.heap b) ≡ none

  -- The texts `ins` that arrived are the texts `outs` that were delivered and those left in the queue.
  abbrev pub InOrder : List Text → List Text → Pc → Sys W → Type 0
  InOrder ins outs pc s =
      (ms : List Ptr) × IsQueue s ms × NoLeak s ms × (ins ≡ outs ++ contents s.heap (left pc ms))

  -- A step that neither queues nor delivers a text.
  pub InOrder-idle :
      (ins outs : List Text) (pc : Pc) (s : Sys W)
      → InOrder ins outs pc s
      → InOrder (ins ++ []) (outs ++ []) pc s
  InOrder-idle ins outs pc s (ms, q, kept, e) =
      (ms, q, kept, rw (append-nil ins, append-nil outs) e)

module _ {W : Type 0} (p : Platform W) (flags : HandlerFlags) (default_cb : Ptr)
    (flag : ℤ → W → Bool) (laws : FlagLaws p flag) where
  left-append :
      (pc : Pc) (s : Sys W) (ms : List Ptr) (a : Ptr)
      → Known p flags default_cb flag laws pc s ms
      → left pc (ms ++ a ∷ []) ≡ left pc ms ++ a ∷ []
  left-append (invoked m ev) s ms a (rest, e) = rw e refl
  left-append (next_read m next ev) s ms a (rest, e, k) = rw e refl
  left-append waiting s ms a k = refl
  left-append (woken ev) s ms a k = refl
  left-append (locked ev) s ms a k = refl
  left-append (at_msg m ev) s ms a k = refl
  left-append (flush_done ev) s ms a k = refl
  left-append ended s ms a k = refl

  -- An arrival puts its text behind those that are left.
  pub arrive-InOrder :
      (pc : Pc) (texts ins outs : List Text) (s s' : Sys W) (ms : List Ptr)
      → Known p flags default_cb flag laws pc s ms
      → NoLeak s ms
      → ins ≡ outs ++ contents s.heap (left pc ms)
      → Arrived p texts s ms s'
      → InOrder (ins ++ texts) (outs ++ []) pc s'
  arrive-InOrder pc texts ins outs s s' ms k leak e (inl (q, quiet, (silent, heap))) =
      (ms, q, rw heap leak, rw (silent, append-nil ins, append-nil outs, heap) e)
  arrive-InOrder pc texts ins outs s s' ms k leak e (inr (a, q, marked, (out, text, others))) =
      let same : contents s'.heap (left pc ms) ≡ contents s.heap (left pc ms) =
        contents-keep s'.heap s.heap (left pc ms) (λ b. elim (ℕ_discrete b a) [
          | yes here ↦ inl (left-NotIn pc ms b (rw here out))
          | no other ↦ inr (others b other)
        ]) in
      (
        ms ++ a ∷ [],
        q,
        λ b far. let (rest, ne) = NotIn-split b a ms far in others b ne ∙ leak b rest,
        rw
            (
              left-append pc s ms a k,
              contents-append s'.heap (left pc ms) (a ∷ []),
              same,
              append-nil outs,
              e,
              text,
            )
            (append_assoc outs (contents s.heap (left pc ms)) (payload (s'.heap a) ∷ [])),
      )
