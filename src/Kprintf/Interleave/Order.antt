-- ===== src/Kprintf/Interleave/Order.antt =====
-- Messages are delivered in the order in which they arrive, each once, and none is lost.
use libkprintf.Platform.{Platform}
use libkprintf.Kprintf.{HandlerFlags, Ptr, Sys, Msg, null}
use libkprintf.Prelude.{
  ℤ, Bool, List, ℕ, ◌∷◌, [], ◌≡◌, ◌++◌, none, subst, some, ap, sym, ◌∙◌, append-nil, append_assoc,
  inl, inr, false, refl, true,
}
use libkprintf.Kprintf.Interleave.Flags.{FlagLaws}
use libkprintf.Kprintf.Interleave.{
  ask_end, unhook, later, begin, again, refuse, Pc, Step, Reach, arrive, at_msg, invoked, wake,
  woken, no_flush, flush_done, lock, locked, read_head, invoke, read_next, next_read, remove,
  unlock_end, waiting, terminate, ended,
}
use libkprintf.Kprintf.Interleave.Texts.{
  Text, contents, arrived_by, delivered_by, arrivals, deliveries, accepted,
}
use libkprintf.Kprintf.Interleave.Safety.{Holds, Reach-Inv}
use libkprintf.Kprintf.Queue.Chain.{IsQueue, Chain-unique, payload, write_ne, write_self}
use libkprintf.Kprintf.Interleave.Positions.{
  InOrder, NoLeak, left, arrive-InOrder, InOrder-idle, write-contents,
}
use libkprintf.Kprintf.Interleave.Pending.{Known}
use libkprintf.Kprintf.Queue.{write, remove_delete_msg, invoke_at}
use libkprintf.Prelude.Run.{ok}
use libkprintf.Kprintf.Interleave.Moves.{
  remove-runs, invoke-runs, invoke-IsQueue, remove-IsQueue, IsQueue-world,
}
use libkprintf.Kprintf.Interleave.Arrivals.{kprintf_handler-Arrived}
use native.Mathlib.Decide.{ℕ_discrete}

module _ {W : Type 0} where
  -- With an empty queue everything is delivered and free.
  pub all_delivered :
      (ins outs : List Text) (s : Sys W) (ms : List Ptr)
      → IsQueue s ms
      → NoLeak s ms
      → ins ≡ outs ++ contents s.heap ms
      → ms ≡ []
      → (outs ≡ ins) × (s.head ≡ null) × ((b : Ptr) → payload (s.heap b) ≡ none)
  all_delivered ins outs s ms q leak e empty =
      (sym (rw empty at e ∙ append-nil outs), rw empty at q.chain, λ b. leak b (rw empty tt))

module _ {W : Type 0} (p : Platform W) (flags : HandlerFlags) (default_cb : Ptr)
    (flag : ℤ → W → Bool) (laws : FlagLaws p flag) where
  invoke-InOrder :
      (ins outs : List Text) (m : Ptr) (ev : ℕ) (before : Msg) (s s' : Sys W) (rest : List Ptr)
      → IsQueue s (m ∷ rest)
      → NoLeak s (m ∷ rest)
      → ins ≡ outs ++ contents s.heap (m ∷ rest)
      → s.heap m ≡ some before
      → invoke_at p flags default_cb m before s ≡ ok tt s'
      → InOrder (ins ++ []) (outs ++ payload (some before) ∷ []) (invoked m ev) s'
  invoke-InOrder ins outs m ev before s s' rest q leak e at run =
      let (after, w, good, link, same) =
        invoke-runs p flags default_cb flag laws s s' m before run in
      let heap : s'.heap ≡ write s.heap m (some after) = ap (λ (t : Sys W). t.heap) (sym same) in
      let kept : contents s'.heap rest ≡ contents s.heap rest =
        rw heap (write-contents s.heap m (some after) rest q.distinct.0) in
      (
        m ∷ rest,
        invoke-IsQueue p flags default_cb flag laws s s' m before (m ∷ rest) at run q,
        λ b out. rw heap (ap payload (write_ne s.heap m b (some after) out.0) ∙ leak b out),
        rw (append-nil ins, kept, e, at)
            (sym (append_assoc outs (payload (some before) ∷ []) (contents s.heap rest))),
      )

  remove-InOrder :
      (ins outs : List Text) (m next : Ptr) (ev fuel : ℕ) (ret : ℤ) (s s' : Sys W) (rest : List Ptr)
      → IsQueue s (m ∷ rest)
      → NoLeak s (m ∷ rest)
      → ins ≡ outs ++ contents s.heap rest
      → remove_delete_msg p fuel m s ≡ ok ret s'
      → InOrder (ins ++ []) (outs ++ []) (at_msg next ev) s'
  remove-InOrder ins outs m next ev fuel ret s s' rest q leak e run =
      let (first, c, same) = remove-runs p flags default_cb flag laws s s' m rest fuel ret q run in
      let heap : s'.heap ≡ write s.heap m none = ap (λ (t : Sys W). t.heap) (sym same) in
      let kept : contents s'.heap rest ≡ contents s.heap rest =
        rw heap (write-contents s.heap m none rest q.distinct.0) in
      InOrder-idle ins outs (at_msg next ev) s' (
        rest,
        remove-IsQueue p flags default_cb flag laws s s' m rest fuel ret q run,
        λ b out. elim (ℕ_discrete b m) [
          | yes here ↦ rw (heap, here) (ap payload (write_self s.heap m none))
          | no other ↦ rw heap (ap payload (write_ne s.heap m b none other) ∙ leak b (other, out))
        ],
        rw kept e,
      )

  -- What is known of the queue where the event thread stands, and of the texts.
  abbrev pub Ordered : List Text → List Text → Pc → Sys W → Type 0
  Ordered ins outs pc s =
      (ms : List Ptr) × IsQueue s ms
      × Known p flags default_cb flag laws pc s ms
      × NoLeak s ms
      × (ins ≡ outs ++ contents s.heap (left pc ms))

  pub meet :
      (ins outs : List Text) (pc : Pc) (s : Sys W)
      → Holds p flags default_cb flag laws pc s
      → InOrder ins outs pc s
      → Ordered ins outs pc s
  meet ins outs pc s (ms, q, k) (ms', q', leak, e) =
      let same : ms' ≡ ms = Chain-unique s.heap s.head ms' ms q'.chain q.chain in
      (ms, q, k, subst (NoLeak s) same leak, rw (← same) e)

  pub Step-InOrder :
      (ins outs : List Text) {pc pc' : Pc} {s s' : Sys W}
      (step : Step p flags default_cb pc s pc' s')
      → Ordered ins outs pc s
      → InOrder (ins ++ arrived_by step) (outs ++ delivered_by step) pc' s'
  Step-InOrder ins outs {pc} {s = s} {s' = s'} (arrive fuel fmt va is_user ret gives run)
        (ms, q, k, leak, e) =
      arrive-InOrder p flags default_cb flag laws pc (accepted p fmt va is_user s) ins outs s s' ms
        k leak e (kprintf_handler-Arrived p fuel s ms q fmt va is_user ret s' gives run)
  Step-InOrder ins outs {pc} (unhook {s} on) (ms, q, k, leak, e) =
      InOrder-idle ins outs pc _ (ms, record { chain = q.chain; distinct = q.distinct }, leak, e)
  Step-InOrder ins outs {pc} (ask_end {s} off) (ms, q, k, leak, e) =
      InOrder-idle ins outs pc _ (ms, IsQueue-world s _ ms q, leak, e)
  Step-InOrder ins outs (wake {s} {s'} {ev} found after) (ms, q, k, leak, e) =
      InOrder-idle ins outs (woken ev) s'
        (ms, rw after (IsQueue-world s _ ms q), rw after leak, rw after e)
  Step-InOrder ins outs (no_flush {s} {ev} none_found) (ms, q, k, leak, e) =
      InOrder-idle ins outs (flush_done ev) s (ms, q, leak, e)
  Step-InOrder ins outs (lock {s} {ev} found taken) (ms, q, k, leak, e) =
      InOrder-idle ins outs (locked ev) _ (ms, IsQueue-world s _ ms q, leak, e)
  Step-InOrder ins outs (refuse {s} {s'} {ev} found refused after) (ms, q, k, leak, e) =
      InOrder-idle ins outs (flush_done ev) s'
        (ms, rw after (IsQueue-world s _ ms q), rw after leak, rw after e)
  Step-InOrder ins outs (read_head {s} {ev}) (ms, q, k, leak, e) =
      InOrder-idle ins outs (at_msg s.head ev) s (ms, q, leak, e)
  Step-InOrder ins outs (invoke {s} {s'} {m} before ne at run) (ms, q, inl (end, k), leak, e) =
      absurd (ne end)
  Step-InOrder ins outs (invoke {s} {s'} {m} {ev} before ne at run)
        (ms, q, inr (rest, front), leak, e) =
      invoke-InOrder ins outs m ev before s s' rest (subst (IsQueue s) front q)
        (subst (NoLeak s) front leak) (rw front at e) at run
  Step-InOrder ins outs (read_next {s} {m} {ev} after at) (ms, q, k, leak, e) =
      InOrder-idle ins outs (next_read m after.next ev) s (ms, q, leak, e)
  Step-InOrder ins outs (remove {s} {s'} {m} {next} {ev} fuel ret run)
        (ms, q, (rest, front, k), leak, e) =
      remove-InOrder ins outs m next ev fuel ret s s' rest (subst (IsQueue s) front q)
        (subst (NoLeak s) front leak) (rw front at e) run
  Step-InOrder ins outs (unlock_end {s} {m} {ev} end) (ms, q, k, leak, e) =
      InOrder-idle ins outs (flush_done ev) _ (ms, IsQueue-world s _ ms q, leak, e)
  Step-InOrder ins outs (again {s} goes_on) (ms, q, k, leak, e) =
      InOrder-idle ins outs waiting s (ms, q, leak, e)
  Step-InOrder ins outs (terminate {s} ends) (ms, q, k, leak, e) =
      InOrder-idle ins outs ended _ (ms, IsQueue-world s _ ms q, leak, e)

  -- From an empty queue and an empty pool, in every order of the steps of the event thread, of
  -- arriving messages and of _stop, on a kernel that keeps the laws of FlagLaws and whose pool gives
  -- blocks that are not in use: at every point the queue is well formed, every message that exists is
  -- in it, and the texts that were queued are, in this order, those that the handlers were given and
  -- those of the queued messages, without the one whose handlers have just run. No text is lost,
  -- doubled or overtaken by another.
  pub Reach-InOrder :
      {start : Sys W} {pc : Pc} {s : Sys W}
      → IsQueue start []
      → ((b : Ptr) → start.heap b ≡ none)
      → (r : Reach p flags default_cb start pc s) → InOrder (arrivals r) (deliveries r) pc s
  Reach-InOrder q clean begin = ([], q, λ b out. ap payload (clean b), refl)
  Reach-InOrder q clean (later {pc} {s} r step) = Step-InOrder (arrivals r) (deliveries r) step (
      meet (arrivals r) (deliveries r) pc s (Reach-Inv p flags default_cb flag laws q r)
        (Reach-InOrder q clean r))

  -- In such a run, whenever the event thread waits and EV_FLUSH is clear, every text that was queued
  -- has been given to the handlers, in the order of arrival, the queue is empty, and the memory of
  -- all messages is free.
  pub waiting-delivered :
      {start s : Sys W}
      → IsQueue start []
      → ((b : Ptr) → start.heap b ≡ none)
      → flag s.evid s.world ≡ false
      → (r : Reach p flags default_cb start waiting s)
      → (deliveries r ≡ arrivals r) × (s.head ≡ null) × ((b : Ptr) → payload (s.heap b) ≡ none)
  waiting-delivered {s} q clean clear r =
      let (ms, qs, leak, e) = Reach-InOrder q clean r in
      let (ms', qs', settled) = Reach-Inv p flags default_cb flag laws q r in
      let same : ms' ≡ ms = Chain-unique s.heap s.head ms' ms qs'.chain qs.chain in
      elim settled [
        | inr due ↦ absurd (let x : true ≡ false = sym due ∙ clear in cc)
        | inl empty ↦ all_delivered (arrivals r) (deliveries r) s ms qs leak e (sym same ∙ empty)
      ]
