-- ===== src/Kprintf/Interleave/Moves.antt =====
-- Every step of the event thread keeps what is known of the queue.
use libkprintf.Platform.{Platform}
use libkprintf.Kprintf.{Heap, Sys, HandlerFlags, Ptr, Msg}
use libkprintf.Prelude.{
  List, ℤ, Bool, ◌≡◌, some, ◌∷◌, ℕ, subst, ◌+◌, inl, inr, ap, Option-cases, ◌∙◌, sym, suc, [], none,
  refl, zero, true,
}
use libkprintf.Kprintf.Queue.Chain.{IsQueue, Chain, write_self, write_ne, Chain-write}
use libkprintf.Kprintf.Interleave.Flags.{FlagLaws, Keeps}
use libkprintf.Kprintf.Queue.{write, invoke_at, remove_delete_msg, store}
use libkprintf.Kprintf.Interleave.Pending.{Settled, AtFront, Inv, AtFront-keeps}
use libkprintf.Kprintf.Hook.{ev_flush, ev_terminate}
use libkprintf.Kprintf.Dispatch.{invoke_handlers, invoke_from}
use native.Mathlib.Decide.{ℕ_discrete}
use libkprintf.Prelude.Run.{ok_transport, ok, fault, out_of_fuel}
use libkprintf.Kprintf.Interleave.{woken, at_msg}
use libkprintf.Kprintf.Dispatch.Order.{invoke-SameFrame}
use libkprintf.Kprintf.Queue.Remove.{
  free_world, remove_delete_msg-out_of_fuel, free_result, remove_head,
}

-- A message whose text changes, and not its link, leaves the queue as it is.
Chain-relabel :
    (h : Heap) (m : Ptr) (before after : Msg) (a : Ptr) (ms : List Ptr)
    → h m ≡ some before
    → after.next ≡ before.next
    → Chain h a ms
    → Chain (write h m (some after)) a ms
Chain-relabel h m before after a [] at same c = c
Chain-relabel h m before after a (b ∷ bs) at same (e, ne, (n, at', rest)) = elim (ℕ_discrete b m) [
  | yes here ↦
      let is_n : n ≡ before = cc (ap h here) in
      let link : after.next ≡ n.next = same ∙ sym (ap (λ (x : Msg). x.next) is_n) in
      (
        e,
        ne,
        (
          after,
          rw here (write_self h m (some after)),
          Chain-relabel h m before after after.next bs at same
              (subst (λ x. Chain h x bs) (sym link) rest),
        ),
      )
  | no other ↦ (
    e,
    ne,
    (
      n,
      write_ne h m b (some after) other ∙ at',
      Chain-relabel h m before after n.next bs at same rest,
    ),
  )
]

module _ {W : Type 0} where
  pub IsQueue-world :
      (s : Sys W) (w : W) (ms : List Ptr) → IsQueue s ms → IsQueue (record s { world = w }) ms
  IsQueue-world s w ms q = record { chain = q.chain; distinct = q.distinct }

module _ {W : Type 0} (p : Platform W) (P : ℤ → W → Type 0) (keeps : Keeps p P) where
  pub remove-Keeps : (id : ℤ) (s : Sys W) (m : Ptr) → P id s.world → P id (free_world p s m)
  unfolding free_world
  remove-Keeps id s m x =
      keeps.at_resume id _ _ (keeps.at_free id s.vplid m _ (keeps.at_suspend id s.world x))

module _ {W : Type 0} (p : Platform W) (flags : HandlerFlags) (default_cb : Ptr)
    (flag : ℤ → W → Bool) (laws : FlagLaws p flag) where
  pub wake-Inv :
      (s : Sys W) (ms : List Ptr)
      → IsQueue s ms
      → Settled p flags default_cb flag laws s ms
      → let r = p.wait_event_flag s.evid (ev_flush + ev_terminate) s.world in
        Inv p flags default_cb flag laws (woken r.0) (record s { world = r.1 })
  wake-Inv s ms q (inl empty) = (ms, IsQueue-world s _ ms q, inl (inl empty))
  wake-Inv s ms q (inr due) = (ms, IsQueue-world s _ ms q, inr (laws.found s.evid s.world due))

  pub head-AtFront :
      (a : Ptr) (s : Sys W) (ms : List Ptr)
      → Chain s.heap a ms
      → AtFront p flags default_cb flag laws a s ms
  head-AtFront a s [] c = inl (c, inl refl)
  head-AtFront a s (b ∷ bs) c = inr (bs, ap (λ x. x ∷ bs) (sym c.0))

  pub next-AtFront :
      (m : Ptr) (s : Sys W) (rest : List Ptr) (after : Msg)
      → Chain s.heap s.head (m ∷ rest)
      → s.heap m ≡ some after
      → AtFront p flags default_cb flag laws after.next s rest
  next-AtFront m s rest after (e, ne, (n, at', c)) at =
      let is_n : n ≡ after = cc in
      head-AtFront after.next s rest (subst (λ (x : Msg). Chain s.heap x.next rest) is_n c)

  -- The handlers change the text of their message, not its link.
  pub invoke-runs :
      (s s' : Sys W) (m : Ptr) (before : Msg)
      → invoke_at p flags default_cb m before s ≡ ok tt s'
      → (after : Msg) × (w : W) × (invoke_from p flags default_cb s.handlers before s.world
          ≡ some (after, w))
        × (after.next ≡ before.next)
        × (record s { heap = write s.heap m (some after); world = w } ≡ s')
  unfolding invoke_at invoke_handlers store
  invoke-runs s s' m before run =
      elim (Option-cases (invoke_from p flags default_cb s.handlers before s.world)) [
        | inl bad ↦ absurd (let x : fault ≡ ok tt s' = rw (invoke_at, bad) at run in cc)
        | inr ((after, w), good) ↦
            let frame =
              invoke-SameFrame p flags default_cb s.handlers before after s.world w good in
            let s1 : Sys W = record s { heap = write s.heap m (some after); world = w } in
            (
              after,
              w,
              good,
              frame.0,
              ok_transport (λ t. s1 ≡ t) tt tt s1 s' (rw (invoke_at, good) at run) refl,
            )
      ]

  pub invoke-IsQueue :
      (s s' : Sys W) (m : Ptr) (before : Msg) (ms : List Ptr)
      → s.heap m ≡ some before
      → invoke_at p flags default_cb m before s ≡ ok tt s'
      → IsQueue s ms
      → IsQueue s' ms
  invoke-IsQueue s s' m before ms at run q =
      let (after, w, good, link, same) = invoke-runs s s' m before run in
      subst (λ t. IsQueue t ms) same
        (record {
          chain = Chain-relabel s.heap m before after s.head ms at link q.chain;
          distinct = q.distinct;
        })

  -- Removing the first message takes it out of the queue and of the heap.
  pub remove-runs :
      (s s' : Sys W) (m : Ptr) (rest : List Ptr) (fuel : ℕ) (ret : ℤ)
      → IsQueue s (m ∷ rest)
      → remove_delete_msg p fuel m s ≡ ok ret s'
      → (next : Ptr) × Chain s.heap next rest
        × (record s { head = next; heap = write s.heap m none; world = free_world p s m } ≡ s')
  remove-runs s s' m rest zero ret q run =
      let (e, ne, c) = q.chain in
      let x : out_of_fuel ≡ ok ret s' = rw (remove_delete_msg-out_of_fuel p s m e ne) at run in
      absurd (cc)
  remove-runs s s' m rest (suc k) ret q run =
      let (e, ne, (nm, at, c)) = q.chain in
      let s1 : Sys W = record s {
        head = nm.next;
        heap = write s.heap m none;
        world = free_world p s m;
      } in
      (
        nm.next,
        c,
        ok_transport (λ t. s1 ≡ t) (free_result p s m) ret s1 s'
            (rw (remove_head p s m k nm e ne at) at run) refl,
      )

  pub remove-IsQueue :
      (s s' : Sys W) (m : Ptr) (rest : List Ptr) (fuel : ℕ) (ret : ℤ)
      → IsQueue s (m ∷ rest)
      → remove_delete_msg p fuel m s ≡ ok ret s'
      → IsQueue s' rest
  remove-IsQueue s s' m rest fuel ret q run =
      let (next, c, same) = remove-runs s s' m rest fuel ret q run in
      subst (λ t. IsQueue t rest) same
        (record {
          chain = Chain-write s.heap m next none rest q.distinct.0 c;
          distinct = q.distinct.1;
        })

  pub remove-Inv :
      (s s' : Sys W) (m next : Ptr) (rest : List Ptr) (ev fuel : ℕ) (ret : ℤ)
      → IsQueue s (m ∷ rest)
      → AtFront p flags default_cb flag laws next s rest
      → remove_delete_msg p fuel m s ≡ ok ret s'
      → Inv p flags default_cb flag laws (at_msg next ev) s'
  remove-Inv s s' m next rest ev fuel ret q front run =
      let (first, c, same) = remove-runs s s' m rest fuel ret q run in
      let s1 : Sys W = record s {
        head = first;
        heap = write s.heap m none;
        world = free_world p s m;
      } in
      (
        rest,
        remove-IsQueue s s' m rest fuel ret q run,
        subst (λ t. AtFront p flags default_cb flag laws next t rest) same
            (AtFront-keeps p flags default_cb flag laws next s s1 rest
              (remove-Keeps p (λ id w. flag id w ≡ true) laws.keeps s.evid s m) front),
      )
