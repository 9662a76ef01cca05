-- ===== src/Kprintf/Exclusion/Channel.antt =====
-- The messages, among threads that register and unregister handlers: still first in, first out.
use libkprintf.Prelude.{
  ℕ, List, ℤ, Bool, subst, [], sym, ◌++◌, ◌≤◌, ◌≡◌, none, ap, false, inr, true, ◌∙◌, inl, refl,
}
use libkprintf.Platform.{Platform}
use libkprintf.Kprintf.{HandlerFlags, Ptr, Sys, null}
use libkprintf.Kprintf.Interleave.Texts.{Text, delivered_by, arrived_by}
use libkprintf.Kprintf.Interleave.{Pc, waiting}
use libkprintf.Kprintf.Exclusion.{
  Request, Stage, commit, Reach, meanwhile, begin, enter, acquire, give_up, reject, pick, put,
  leave, later,
}
use libkprintf.Kprintf.Interleave.Positions.{InOrder}
use libkprintf.Kprintf.Interleave.Flags.{FlagLaws}
use libkprintf.Kprintf.Interleave.Moves.{IsQueue-world}
use libkprintf.Kprintf.Exclusion.Steady.{UnitLaws}
use libkprintf.Kprintf.Queue.Chain.{IsQueue, payload, Chain-unique}
use libkprintf.Kprintf.Exclusion.Choices.{commit-frame}
use libkprintf.Kprintf.Handlers.Cases.{IsTable}
use libkprintf.Kprintf.Interleave.Order.{Step-InOrder, meet, all_delivered}
use libkprintf.Kprintf.Exclusion.Invariant.{Reach-Guarded}

module _ {W : Type 0} {p : Platform W} {flags : HandlerFlags} {default_cb : Ptr}
    {start : Sys W} where
  -- The texts that were queued on the way, the first one first.
  abbrev pub queued :
      {pc : Pc} {cs : ℕ → Stage} {s : Sys W} → Reach p flags default_cb start pc cs s → List Text
  queued begin = []
  queued (later r (meanwhile step)) = queued r ++ arrived_by step
  queued (later r step) = queued r

  -- The texts that the handlers were given on the way, the first one first.
  abbrev pub given :
      {pc : Pc} {cs : ℕ → Stage} {s : Sys W} → Reach p flags default_cb start pc cs s → List Text
  given begin = []
  given (later r (meanwhile step)) = given r ++ delivered_by step
  given (later r step) = given r

module _ {W : Type 0} where
  InOrder-world :
      (ins outs : List Text) (pc : Pc) (s : Sys W) (w : W)
      → InOrder ins outs pc s
      → InOrder ins outs pc (record s { world = w })
  InOrder-world ins outs pc s w (ms, q, leak, e) = (ms, IsQueue-world s w ms q, leak, e)

  InOrder-commit :
      (ins outs : List Text) (pc : Pc) (s : Sys W) (r : Request) (k : ℕ)
      → InOrder ins outs pc s
      → InOrder ins outs pc (commit r k s).1
  InOrder-commit ins outs pc s r k (ms, q, leak, e) =
      subst (InOrder ins outs pc) (sym (commit-frame r k s))
        (ms, record { chain = q.chain; distinct = q.distinct }, leak, e)

module _ {W : Type 0} (p : Platform W) (flags : HandlerFlags) (default_cb : Ptr)
    (flag : ℤ → W → Bool) (flaws : FlagLaws p flag) (units : ℤ → W → ℕ) (laws : UnitLaws p units)
    {start : Sys W} (q : IsQueue start []) (t : IsTable start)
    (one : units start.semid start.world ≤ 1) (clean : (b : Ptr) → start.heap b ≡ none) where
  -- In every order of the steps of the event thread, of arriving messages, of _stop and of threads in
  -- register_handler and unregister_handler, the texts that were queued are those that the handlers
  -- were given and those of the queued messages.
  Reach-Channel :
      {pc : Pc} {cs : ℕ → Stage} {s : Sys W} (r : Reach p flags default_cb start pc cs s)
      → InOrder (queued r) (given r) pc s
  Reach-Channel begin = ([], q, λ b out. ap payload (clean b), refl)
  Reach-Channel (later {pc} {s} r (meanwhile step)) =
      Step-InOrder p flags default_cb flag flaws (queued r) (given r) step (
        meet p flags default_cb flag flaws (queued r) (given r) pc s
          (Reach-Guarded p flags default_cb flag flaws units laws q t one r).queue
          (Reach-Channel r))
  Reach-Channel (later r (enter i req at on args)) = Reach-Channel r
  Reach-Channel (later {pc} {s} r (acquire i req at got)) =
      InOrder-world (queued r) (given r) pc s _ (Reach-Channel r)
  Reach-Channel (later {pc} {s} r (give_up i req at failed)) =
      InOrder-world (queued r) (given r) pc s _ (Reach-Channel r)
  Reach-Channel (later r (reject i req ret at no_slot)) = Reach-Channel r
  Reach-Channel (later r (pick i req slot at chosen)) = Reach-Channel r
  Reach-Channel (later {pc} {s} r (put i req slot ret at run)) =
      subst (λ (x : ℤ × Sys W). InOrder (queued r) (given r) pc x.1) run
        (InOrder-commit (queued r) (given r) pc s req slot (Reach-Channel r))
  Reach-Channel (later {pc} {s} r (leave i ret at)) =
      InOrder-world (queued r) (given r) pc s _ (Reach-Channel r)

  -- From an empty queue, an empty pool, a well-formed table and a semaphore of at most one unit, in
  -- every order of the steps of the event thread, of arriving messages, of _stop and of any number
  -- of threads in register_handler and unregister_handler, on a kernel that keeps the laws of
  -- FlagLaws and UnitLaws and whose pool gives blocks that are not in use: whenever the event thread
  -- waits and EV_FLUSH is clear, every text that was queued has been given to the handlers, in the
  -- order of arrival, the queue is empty, and the memory of all messages is free.
  pub waiting-given :
      {cs : ℕ → Stage} {s : Sys W} (r : Reach p flags default_cb start waiting cs s)
      → flag s.evid s.world ≡ false
      → (given r ≡ queued r) × (s.head ≡ null) × ((b : Ptr) → payload (s.heap b) ≡ none)
  waiting-given {cs} {s} r clear =
      let (ms, qs, leak, e) = Reach-Channel r in
      let (ms', qs', settled) =
        (Reach-Guarded p flags default_cb flag flaws units laws q t one r).queue in
      let same : ms' ≡ ms = Chain-unique s.heap s.head ms' ms qs'.chain qs.chain in
      elim settled [
        | inr due ↦ absurd (let x : true ≡ false = sym due ∙ clear in cc)
        | inl empty ↦ all_delivered (queued r) (given r) s ms qs leak e (sym same ∙ empty)
      ]
