-- ===== src/Kprintf/Queue/Add.antt =====
-- msg.c, add_msg: a message goes to the rear of the queue.
use libkprintf.Kprintf.Queue.{write, link, add_loop, set_next, store, ok, add_msg, set_head, load}
use libkprintf.Kprintf.{Heap, Ptr, Msg, Sys, null}
use libkprintf.Kprintf.Queue.Chain.{
  NotIn, Chain, Distinct, load-ok, write_self, write_ne, payload, IsQueue, Distinct-append,
}
use libkprintf.Prelude.{
  ◌≡◌, ◌≢◌, arith, [], ◌++◌, length, ◌<◌, ◌==◌, ◌∙◌, zero, none, refl, ap, subst, sym, List, false,
  some, suc, true, ℕ, ◌∷◌, ◌≤◌, Bool-cases, ◌⊎◌, inl, inr, Option-cases,
}
use libkprintf.Prelude.Run.{out_of_fuel, Run, fault}

-- The heap once the last of `prev ∷ ms` is linked to `m`.
unfoldable pub link_last : Heap → Ptr → List Ptr → Ptr → Heap
link_last h prev [] m = elim (h prev) [
  | none ↦ h
  | some n ↦ write h prev (some (record n { next = m }))
]
link_last h prev (a ∷ ms) m = link_last h a ms m

pub link_last-nil :
    (h : Heap) (prev m : Ptr) (n : Msg)
    → h prev ≡ some n
    → link_last h prev [] m ≡ write h prev (some (record n { next = m }))
unfolding link_last
link_last-nil h prev m n at = rw (at, link_last)

pub link_last_ne :
    (h : Heap) (prev : Ptr) (ms : List Ptr) (m b : Ptr)
    → NotIn b (prev ∷ ms)
    → link_last h prev ms m b ≡ h b
unfolding link_last write
link_last_ne h prev [] m b out = ground arith
link_last_ne h prev (a ∷ ms) m b out = link_last_ne h a ms m b out.1

module _ {W : Type 0} where
  link-ok :
      (prev m : Ptr) (n : Msg) (s : Sys W)
      → prev ≢ null
      → s.heap prev ≡ some n
      → link prev m s ≡ ok tt (record s { heap = link_last s.heap prev [] m })
  unfolding link set_next store
  link-ok prev m n s ne at =
      let e : (prev == null) ≡ false = ground arith in
      rw (e, load-ok prev n s ne at, link_last-nil s.heap prev m n at)

  add_loop-link_last :
      (k : ℕ) (m prev cur : Ptr) (n : Msg) (ms : List Ptr) (s : Sys W)
      → prev ≢ null
      → s.heap prev ≡ some n
      → Chain s.heap cur ms
      → length ms < k
      → add_loop k m prev cur s ≡ ok tt (record s { heap = link_last s.heap prev ms m })
  unfolding add_loop link_last
  add_loop-link_last zero m prev cur n ms s ne at c fuel = absurd (omega arith)
  add_loop-link_last (suc k) m prev cur n [] s ne at c fuel =
      let e : (cur == null) ≡ true = ground arith in rw e (link-ok prev m n s ne at)
  add_loop-link_last (suc k) m prev cur n (a ∷ ms) s ne at (same, ne', (n', at', rest)) fuel =
      let e : (cur == null) ≡ false = ground arith in
      rw (e, load-ok cur n' s (ground arith) (rw same at'))
        (rw same (add_loop-link_last k m a n'.next n' ms s ne' at' rest (omega arith)))

link_last-Chain_nil :
    (h : Heap) (p prev m : Ptr) (n new : Msg)
    → p ≡ prev
    → prev ≢ null
    → h prev ≡ some n
    → m ≢ prev
    → m ≢ null
    → h m ≡ some new
    → new.next ≡ null
    → Chain (link_last h prev [] m) p (prev ∷ m ∷ [])
link_last-Chain_nil h p prev m n new e ne at out ne_m at_m end_m =
    let linked : Msg = record n { next = m } in
    rw (link_last-nil h prev m n at) (
      e,
      ne,
      (
        linked,
        write_self h prev (some linked),
        (refl, ne_m, (new, write_ne h prev m (some linked) out ∙ at_m, end_m)),
      ),
    )

-- Linking the last message extends the chain by the new one.
link_last-Chain :
    (h : Heap) (p prev : Ptr) (ms : List Ptr) (m : Ptr) (new : Msg)
    → Chain h p (prev ∷ ms)
    → Distinct (prev ∷ ms)
    → NotIn m (prev ∷ ms)
    → m ≢ null
    → h m ≡ some new
    → new.next ≡ null
    → Chain (link_last h prev ms m) p (prev ∷ (ms ++ m ∷ []))
unfolding link_last
link_last-Chain h p prev [] m new (e, ne, (n, at, rest)) d out ne_m at_m end_m =
    link_last-Chain_nil h p prev m n new e ne at out.0 ne_m at_m end_m
link_last-Chain h p prev (a ∷ ms) m new (e, ne, (n, at, rest)) d out ne_m at_m end_m = (
  e,
  ne,
  (
    n,
    link_last_ne h a ms m prev d.0 ∙ at,
    link_last-Chain h n.next a ms m new rest d.1 out.1 ne_m at_m end_m,
  ),
)

pub link_last-payload :
    (h : Heap) (prev : Ptr) (ms : List Ptr) (m b : Ptr)
    → payload (link_last h prev ms m b) ≡ payload (h b)
unfolding link_last write
link_last-payload h prev [] m b = ground arith
link_last-payload h prev (a ∷ ms) m b = link_last-payload h a ms m b

module _ {W : Type 0} (m : Ptr) (s : Sys W) where
  add_loop-empty :
      (k : ℕ) → 0 < k → s.head ≡ null → add_loop k m null s.head s ≡ ok tt (record s { head = m })
  unfolding add_loop link set_head
  add_loop-empty zero pos_k e = absurd (omega arith)
  add_loop-empty (suc k) pos_k e = let e' : (s.head == null) ≡ true = ground arith in rw e'

  add_loop-rear :
      (k : ℕ) (a : Ptr) (ms : List Ptr)
      → Chain s.heap s.head (a ∷ ms)
      → length (a ∷ ms) < k
      → add_loop k m null s.head s ≡ ok tt (record s { heap = link_last s.heap a ms m })
  unfolding add_loop
  add_loop-rear zero a ms c enough = absurd (omega arith)
  add_loop-rear (suc k) a ms (e, ne, (n, at, rest)) enough =
      let e' : (s.head == null) ≡ false = ground arith in
      let start : load s.head s ≡ ok n s = load-ok s.head n s (ground arith) (ap s.heap e ∙ at) in
      rw (e', start)
        (subst (λ x. add_loop k m x n.next s ≡ ok tt (record s { heap = link_last s.heap a ms m }))
          (sym e) (add_loop-link_last k m a n.next n ms s ne at rest (omega arith)))

module _ {W : Type 0} (fuel : ℕ) (m : Ptr) (new : Msg) (s : Sys W) where
  -- With more fuel than messages, add_msg puts a message that is outside the queue and linked to
  -- nothing behind the last one, whatever the length of the queue: the queue then holds it once,
  -- at its rear, and every message keeps its contents. Nothing but the head and the links
  -- changes.
  pub add_msg-IsQueue :
      (ms : List Ptr)
      → IsQueue s ms
      → NotIn m ms
      → m ≢ null
      → s.heap m ≡ some new
      → new.next ≡ null
      → length ms < fuel
      → (s' : Sys W) × (add_msg fuel m s ≡ ok tt s')
        × IsQueue s' (ms ++ m ∷ [])
        × ((b : Ptr) → payload (s'.heap b) ≡ payload (s.heap b))
        × (s' ≡ record s { head = s'.head; heap = s'.heap })
  unfolding add_msg
  add_msg-IsQueue [] q out ne at end_m enough = (
    record s { head = m },
    add_loop-empty m s fuel (omega arith) q.chain,
    record { chain = (refl, ne, (new, at, end_m)); distinct = (tt, tt) },
    λ b. refl,
    refl,
  )
  add_msg-IsQueue (a ∷ ms) q out ne at end_m enough = (
    record s { heap = link_last s.heap a ms m },
    add_loop-rear m s fuel a ms q.chain enough,
    record {
      chain = link_last-Chain s.heap s.head a ms m new q.chain q.distinct out ne at end_m;
      distinct = Distinct-append (a ∷ ms) m q.distinct out;
    },
    link_last-payload s.heap a ms m,
    refl,
  )

module _ {W : Type 0} where
  add_loop-out_of_fuel :
      (k : ℕ) (m prev cur : Ptr) (ms : List Ptr) (s : Sys W)
      → Chain s.heap cur ms
      → k ≤ length ms
      → add_loop k m prev cur s ≡ out_of_fuel
  unfolding add_loop
  add_loop-out_of_fuel zero m prev cur ms s c le = refl
  add_loop-out_of_fuel (suc k) m prev cur [] s c le = absurd (omega arith)
  add_loop-out_of_fuel (suc k) m prev cur (a ∷ ms) s (e, ne, (n, at, rest)) le =
      let used : (cur == null) ≡ false = ground arith in
      let got : load cur s ≡ ok n s = load-ok cur n s (rw e ne) (rw e at) in
      rw (used, got) (add_loop-out_of_fuel k m cur n.next ms s rest (omega arith))

  -- With too little fuel the walk to the rear does not end.
  pub add_msg-out_of_fuel :
      (fuel : ℕ) (m : Ptr) (ms : List Ptr) (s : Sys W)
      → IsQueue s ms
      → fuel ≤ length ms
      → add_msg fuel m s ≡ out_of_fuel
  unfolding add_msg
  add_msg-out_of_fuel fuel m ms s q le = add_loop-out_of_fuel fuel m null s.head ms s q.chain le

module _ {W : Type 0} where
  -- Whatever it walks through, add_msg writes the head and the heap only.
  abbrev pub HeapOnly : Sys W → Sys W → Type 0
  HeapOnly s s' = s' ≡ record s { head = s'.head; heap = s'.heap }

  HeapOnly-ok :
      (s t s' : Sys W)
      → HeapOnly s t
      → ◌≡◌ {A = Run (Sys W) (Unit {0})} (ok tt t) (ok tt s')
      → HeapOnly s s'
  HeapOnly-ok s t s' h e = let same : t ≡ s' = cc in subst (λ x. HeapOnly s x) same h

  load-cases : (a : Ptr) (s : Sys W) → ((m : Msg) × (load a s ≡ ok m s)) ⊎ (load a s ≡ fault)
  unfolding load
  load-cases a s = elim (Bool-cases (a == null)) [
    | inl nil ↦ inr (rw nil)
    | inr used ↦ elim (Option-cases (s.heap a)) [
      | inl none_there ↦ inr (rw (used, none_there))
      | inr (m, there) ↦ inl (m, rw (used, there))
    ]
  ]

  link-HeapOnly : (prev m : Ptr) (s s' : Sys W) → link prev m s ≡ ok tt s' → HeapOnly s s'
  unfolding link set_next store
  link-HeapOnly prev m s s' run = elim (Bool-cases (prev == null)) [
    | inl first ↦ HeapOnly-ok s (record s { head = m }) s' refl (rw first at run)
    | inr behind ↦ elim (load-cases prev s) [
      | inr bad ↦ absurd (let x : fault ≡ ok tt s' = rw (behind, bad) at run in cc)
      | inl (n, got) ↦
          HeapOnly-ok s (record s { heap = write s.heap prev (some (record n { next = m })) }) s'
            refl (rw (behind, got) at run)
    ]
  ]

  add_loop-HeapOnly :
      (k : ℕ) (m prev cur : Ptr) (s s' : Sys W) → add_loop k m prev cur s ≡ ok tt s' → HeapOnly s s'
  unfolding add_loop
  add_loop-HeapOnly zero m prev cur s s' run = absurd (cc)
  add_loop-HeapOnly (suc k) m prev cur s s' run = elim (Bool-cases (cur == null)) [
    | inl end ↦ link-HeapOnly prev m s s' (rw end at run)
    | inr more ↦ elim (load-cases cur s) [
      | inr bad ↦ absurd (let x : fault ≡ ok tt s' = rw (more, bad) at run in cc)
      | inl (n, got) ↦ add_loop-HeapOnly k m cur n.next s s' (rw (more, got) at run)
    ]
  ]

  pub add_msg-HeapOnly :
      (fuel : ℕ) (m : Ptr) (s s' : Sys W) → add_msg fuel m s ≡ ok tt s' → HeapOnly s s'
  unfolding add_msg
  add_msg-HeapOnly fuel m s s' run = add_loop-HeapOnly fuel m null s.head s s' run
