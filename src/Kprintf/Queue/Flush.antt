-- ===== src/Kprintf/Queue/Flush.antt =====
-- msg.c, flush_messages: every queued message goes to the handlers, first in first out, and is
-- freed.
use libkprintf.Prelude.{
  ◌>>=◌, refl, arith, ◌≢◌, length, ◌<◌, zero, ◌==◌, Option-cases, sym, inl, inr, ap, subst, ◌∙◌,
  List, Option, false, none, some, suc, true, ℕ, ℤ, ◌∷◌,
}
use libkprintf.Platform.{Platform}
use libkprintf.Kprintf.{Heap, HandlerFlags, Ptr, RegHandler, Sys, Msg, null}
use libkprintf.Kprintf.Queue.{write, fault, ok, flush_messages, flush_loop, invoke_at, store}
use libkprintf.Prelude.Run.{Run}
use libkprintf.Prelude.{◌≡◌, []}
use mathlib.Core.Path.{fun_ext}
use libkprintf.Kprintf.Dispatch.{invoke_from, invoke_handlers}
use libkprintf.Kprintf.Queue.Chain.{
  NotIn, Chain, IsQueue, Distinct, load-ok, write_ne, write_self, Chain-write,
}
use libkprintf.Kprintf.Queue.Remove.{free_world, remove_head}
use libkprintf.Kprintf.Dispatch.Order.{invoke-SameFrame}

-- The blocks at `ms` are free.
unfoldable pub free_all : Heap → List Ptr → Heap
free_all h [] = h
free_all h (a ∷ ms) = free_all (write h a none) ms

write-write : (h : Heap) (a : Ptr) (c d : Option Msg) → write (write h a c) a d ≡ write h a d
unfolding write
write-write h a c d = fun_ext (λ b. ground arith)

module _ {W : Type 0} (p : Platform W) (flags : HandlerFlags) (default_cb : Ptr) where
  -- What flush_messages is to do with the messages at `ms`, from the handlers' view: the first one
  -- goes along the table of handlers, its block is given back, then the others follow.
  unfoldable pub deliver_all : List RegHandler → ℤ → Heap → List Ptr → W → Option W
  deliver_all hs vplid h [] w = some w
  deliver_all hs vplid h (a ∷ ms) w = do
    m ← h a
    (m', w1) ← invoke_from p flags default_cb hs m w
    let (intr, w2) = p.suspend_intr w1
    deliver_all hs vplid h ms (p.resume_intr intr (p.free_vpl vplid a w2).1)

  -- The state when all is delivered.
  unfoldable pub flushed : Sys W → List Ptr → Option W → Run (Sys W) (Unit {0})
  flushed s ms none = fault
  flushed s ms (some w) = ok tt (record s { head = null; heap = free_all s.heap ms; world = w })

  deliver_all-frame :
      (hs : List RegHandler) (vplid : ℤ) (h : Heap) (x : Ptr) (c : Option Msg) (ms : List Ptr)
      (w : W)
      → NotIn x ms
      → deliver_all hs vplid (write h x c) ms w ≡ deliver_all hs vplid h ms w
  unfolding deliver_all
  deliver_all-frame hs vplid h x c [] w out = refl
  deliver_all-frame hs vplid h x c (a ∷ ms) w out = rw (write_ne h x a c (λ e. out.0 (sym e))) (
      ap
        (λ (next : W → Option W). h a >>= λ m. invoke_from p flags default_cb hs m w >>= λ r.
          next (p.resume_intr (p.suspend_intr r.1).0 (p.free_vpl vplid a (p.suspend_intr r.1).1).1))
        (fun_ext (λ v. deliver_all-frame hs vplid h x c ms v out.1)))

  module _ (hs : List RegHandler) (vplid : ℤ) (h : Heap) (a : Ptr) (m : Msg) (ms : List Ptr) (w : W)
      (at : h a ≡ some m) where
    deliver_all-none :
        invoke_from p flags default_cb hs m w ≡ none → deliver_all hs vplid h (a ∷ ms) w ≡ none
    unfolding deliver_all
    deliver_all-none fails = rw (at, fails)

    deliver_all-some :
        (m' : Msg) (v : W)
        → invoke_from p flags default_cb hs m w ≡ some (m', v)
        → deliver_all hs vplid h (a ∷ ms) w
          ≡ deliver_all hs vplid h ms
              (p.resume_intr (p.suspend_intr v).0 (p.free_vpl vplid a (p.suspend_intr v).1).1)
    unfolding deliver_all
    deliver_all-some m' v called = rw (at, called)

  module _ (a : Ptr) (m : Msg) (s : Sys W) where
    invoke_at-ok :
        (m' : Msg) (w : W)
        → invoke_from p flags default_cb s.handlers m s.world ≡ some (m', w)
        → invoke_at p flags default_cb a m s
          ≡ ok tt (record s { heap = write s.heap a (some m'); world = w })
    unfolding invoke_at invoke_handlers store
    invoke_at-ok m' w called = rw (invoke_at, invoke_handlers, called)

    invoke_at-fault :
        invoke_from p flags default_cb s.handlers m s.world ≡ none
        → invoke_at p flags default_cb a m s ≡ fault
    unfolding invoke_at invoke_handlers
    invoke_at-fault fails = rw (invoke_at, invoke_handlers, fails)

  -- One round: the first message is delivered as `m'` and removed.
  flush_step :
      (k : ℕ) (a : Ptr) (m m' : Msg) (w : W) (s : Sys W)
      → s.head ≡ a
      → a ≢ null
      → s.heap a ≡ some m
      → invoke_from p flags default_cb s.handlers m s.world ≡ some (m', w)
      → flush_loop p flags default_cb (suc k) a s
        ≡ flush_loop p flags default_cb k m.next (record s {
          head = m.next;
          heap = write s.heap a none;
          world = p.resume_intr (p.suspend_intr w).0 (p.free_vpl s.vplid a (p.suspend_intr w).1).1;
        })
  unfolding flush_loop free_world
  flush_step k a m m' w s e ne at called =
      let some_a : (a == null) ≡ false = ground arith in
      let s1 : Sys W = record s { heap = write s.heap a (some m'); world = w } in
      let same : m'.next ≡ m.next =
        (invoke-SameFrame p flags default_cb s.handlers m m' s.world w called).0 in
      rw (
        some_a,
        load-ok a m s ne at,
        invoke_at-ok a m s m' w called,
        load-ok a m' s1 ne (write_self s.heap a (some m')),
        remove_head p s1 a k m' e ne (write_self s.heap a (some m')),
        write-write s.heap a (some m') none,
        same,
      )

  flush_fault :
      (k : ℕ) (a : Ptr) (m : Msg) (s : Sys W)
      → a ≢ null
      → s.heap a ≡ some m
      → invoke_from p flags default_cb s.handlers m s.world ≡ none
      → flush_loop p flags default_cb (suc k) a s ≡ fault
  unfolding flush_loop
  flush_fault k a m s ne at fails =
      let e : (a == null) ≡ false = ground arith in
      rw (e, load-ok a m s ne at, invoke_at-fault a m s fails)

  flush_loop-flushed :
      (k : ℕ) (ms : List Ptr) (s : Sys W)
      → Chain s.heap s.head ms
      → Distinct ms
      → length ms < k
      → flush_loop p flags default_cb k s.head s
        ≡ flushed s ms (deliver_all s.handlers s.vplid s.heap ms s.world)
  unfolding flush_loop flushed deliver_all free_all
  flush_loop-flushed zero ms s c d enough = absurd (omega arith)
  flush_loop-flushed (suc k) [] s c d enough =
      let e : (s.head == null) ≡ true = ground arith in
      rw e (ap (λ x. ok tt (record s { head = x })) c)
  flush_loop-flushed (suc k) (a ∷ ms) s (e, ne, (m, at, rest)) d enough =
      subst
        (λ x.
          flush_loop p flags default_cb (suc k) x s
          ≡ flushed s (a ∷ ms) (deliver_all s.handlers s.vplid s.heap (a ∷ ms) s.world))
        (sym e)
        (elim (Option-cases (invoke_from p flags default_cb s.handlers m s.world)) [
          | inl fails ↦
              flush_fault k a m s ne at fails
              ∙ ap (flushed s (a ∷ ms))
                  (sym (deliver_all-none s.handlers s.vplid s.heap a m ms s.world at fails))
          | inr ((m', w), called) ↦
              let s' : Sys W = record s {
                head = m.next;
                heap = write s.heap a none;
                world =
                    p.resume_intr (p.suspend_intr w).0
                      (p.free_vpl s.vplid a (p.suspend_intr w).1).1;
              } in
              flush_step k a m m' w s e ne at called
              ∙ flush_loop-flushed k ms s' (Chain-write s.heap a m.next none ms d.0 rest) d.1
                  (omega arith)
              ∙ ap (flushed s (a ∷ ms)) (
                  deliver_all-frame s.handlers s.vplid s.heap a none ms s'.world d.0
                  ∙ sym (deliver_all-some s.handlers s.vplid s.heap a m ms s.world at m' w called))
        ])

  -- flush_messages on a queue of any length, with more fuel than messages: the handlers get the
  -- messages in their order, each once; the queue is empty and every block of it is free
  -- afterwards. It goes out of bounds only if a handler does.
  pub flush_messages-flushed :
      (fuel : ℕ) (ms : List Ptr) (s : Sys W)
      → IsQueue s ms
      → length ms < fuel
      → flush_messages p flags default_cb fuel s
        ≡ flushed s ms (deliver_all s.handlers s.vplid s.heap ms s.world)
  unfolding flush_messages
  flush_messages-flushed fuel ms s q enough = flush_loop-flushed fuel ms s q.chain q.distinct enough
