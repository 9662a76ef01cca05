-- ===== src/Kprintf/Queue/Remove.antt =====
-- msg.c, remove_delete_msg: a message is taken out from anywhere in the queue, and freed.
use libkprintf.Prelude.Run.{◌>>◌, ok, out_of_fuel}
use libkprintf.Platform.{Platform}
use libkprintf.Kprintf.{Heap, Ptr, Sys, Msg, null}
use libkprintf.Prelude.{
  List, ◌++◌, ◌∷◌, [], ◌≢◌, ◌≡◌, ◌==◌, length, arith, ◌<◌, ap, ◌∙◌, zero, sym, ◌+◌, refl, subst,
  false, none, some, suc, true, ℕ, ℤ,
}
use libkprintf.Kprintf.Queue.{unlink, write, set_next, remove_loop, store, free, remove_delete_msg}
use libkprintf.Kprintf.Queue.Chain.{
  NotIn, Distinct, Chain, load-ok, IsQueue, write_ne, write_self, payload, Chain-write,
}
use libkprintf.Kprintf.Queue.Add.{link_last, link_last-nil, link_last_ne, link_last-payload}

NotIn-left :
    (b : Ptr) (xs : List Ptr) (m : Ptr) (ys : List Ptr) → NotIn b (xs ++ m ∷ ys) → NotIn b xs
NotIn-left b [] m ys out = tt
NotIn-left b (x ∷ xs) m ys out = (out.0, NotIn-left b xs m ys out.1)

NotIn-mid : (b : Ptr) (xs : List Ptr) (m : Ptr) (ys : List Ptr) → NotIn b (xs ++ m ∷ ys) → b ≢ m
NotIn-mid b [] m ys out = out.0
NotIn-mid b (x ∷ xs) m ys out = NotIn-mid b xs m ys out.1

NotIn-drop :
    (b : Ptr) (xs : List Ptr) (m : Ptr) (ys : List Ptr)
    → NotIn b (xs ++ m ∷ ys)
    → NotIn b (xs ++ ys)
NotIn-drop b [] m ys out = out.1
NotIn-drop b (x ∷ xs) m ys out = (out.0, NotIn-drop b xs m ys out.1)

Distinct-drop :
    (xs : List Ptr) (m : Ptr) (ys : List Ptr) → Distinct (xs ++ m ∷ ys) → Distinct (xs ++ ys)
Distinct-drop [] m ys d = d.1
Distinct-drop (x ∷ xs) m ys d = (NotIn-drop x xs m ys d.0, Distinct-drop xs m ys d.1)

-- The heap once `m`, whose successor is `next`, is unlinked from behind `prev ∷ xs` and freed.
abbrev dropped : Heap → Ptr → List Ptr → Ptr → Ptr → Heap
dropped h prev xs m next = write (link_last h prev xs next) m none

module _ {W : Type 0} (p : Platform W) where
  -- The state once `m` is freed, its blocks relinked as in `h`.
  freed : Sys W → Heap → Ptr → Sys W
  freed s h m = record s { heap = write h m none; world = (p.free_vpl s.vplid m s.world).1 }

  unlink-free :
      (m prev : Ptr) (n nm : Msg) (s : Sys W)
      → s.head ≢ m
      → prev ≢ null
      → s.heap prev ≡ some n
      → m ≢ null
      → s.heap m ≡ some nm
      → (do unlink prev m; free p m) s
        ≡ ok (p.free_vpl s.vplid m s.world).0 (freed s (link_last s.heap prev [] nm.next) m)
  unfolding unlink freed set_next store free
  unlink-free m prev n nm s other ne at ne_m at_m =
      let e : (s.head == m) ≡ false = ground arith in
      let e' : (prev == null) ≡ false = ground arith in
      rw (
        e,
        e',
        load-ok m nm s ne_m at_m,
        load-ok prev n s ne at,
        link_last-nil s.heap prev nm.next n at,
      )

  remove_loop-dropped :
      (k : ℕ) (m prev cur : Ptr) (n nm : Msg) (xs ys : List Ptr) (s : Sys W)
      → s.head ≢ m
      → prev ≢ null
      → s.heap prev ≡ some n
      → m ≢ null
      → s.heap m ≡ some nm
      → NotIn m xs
      → Chain s.heap cur (xs ++ m ∷ ys)
      → length xs < k
      → remove_loop p k m prev cur s
        ≡ ok (p.free_vpl s.vplid m s.world).0 (freed s (link_last s.heap prev xs nm.next) m)
  unfolding remove_loop link_last
  remove_loop-dropped zero m prev cur n nm xs ys s other ne at ne_m at_m out c enough =
      absurd (omega arith)
  remove_loop-dropped (suc k) m prev cur n nm [] ys s other ne at ne_m at_m out c enough =
      let e : (cur == null) ≡ false = ground arith in
      let e' : (cur == m) ≡ true = ground arith in
      rw (e, e') (unlink-free m prev n nm s other ne at ne_m at_m)
  remove_loop-dropped (suc k) m prev cur n nm (x ∷ xs) ys s other ne at ne_m at_m out
        (same, ne_x, (nx, at_x, rest)) enough =
      let e : (cur == null) ≡ false = ground arith in
      let e' : (cur == m) ≡ false = ground (arith, out.0) in
      rw (e, e', load-ok cur nx s (ground arith) (ap s.heap same ∙ at_x))
        (rw same (
          remove_loop-dropped k m x nx.next nx nm xs ys s other ne_x at_x ne_m at_m out.1 rest
            (omega arith)))

-- The chain without `m`.
dropped-Chain :
    (h : Heap) (a prev : Ptr) (xs : List Ptr) (m : Ptr) (nm : Msg) (ys : List Ptr)
    → Chain h a (prev ∷ (xs ++ m ∷ ys))
    → Distinct (prev ∷ (xs ++ m ∷ ys))
    → h m ≡ some nm
    → Chain (dropped h prev xs m nm.next) a (prev ∷ (xs ++ ys))
unfolding link_last
dropped-Chain h a prev [] m nm ys (e, ne, (n, at, (_, _, (nm', at_m', rest)))) d at_m =
    let linked : Msg = record n { next = nm.next } in
    let one : Heap = write h prev (some linked) in
    let same_msg : nm' ≡ nm = cc in
    let same : nm'.next ≡ nm.next = ap (λ (x : Msg). x.next) same_msg in
    subst (λ g. Chain (write g m none) a (prev ∷ ys)) (sym (link_last-nil h prev nm.next n at))
      (
        e,
        ne,
        (
          linked,
          write_ne one m prev none d.0.0 ∙ write_self h prev (some linked),
          Chain-write one m nm.next none ys d.1.0 (
              Chain-write h prev nm.next (some linked) ys d.0.1
                (subst (λ x. Chain h x ys) same rest)),
        ),
      )
dropped-Chain h a prev (x ∷ xs) m nm ys (e, ne, (n, at, rest)) d at_m = (
  e,
  ne,
  (
    n,
    write_ne (link_last h x xs nm.next) m prev none (NotIn-mid prev xs m ys d.0.1)
        ∙ link_last_ne h x xs nm.next prev (NotIn-left prev (x ∷ xs) m ys d.0)
        ∙ at,
    dropped-Chain h n.next x xs m nm ys rest d.1 at_m,
  ),
)

Chain-get :
    (h : Heap) (a : Ptr) (xs : List Ptr) (m : Ptr) (ys : List Ptr)
    → Chain h a (xs ++ m ∷ ys)
    → (m ≢ null) × ((nm : Msg) × (h m ≡ some nm))
Chain-get h a [] m ys (e, ne, (nm, at, rest)) = (ne, (nm, at))
Chain-get h a (x ∷ xs) m ys (e, ne, (n, at, rest)) = Chain-get h n.next xs m ys rest

NotIn-of_Distinct : (xs : List Ptr) (m : Ptr) (ys : List Ptr) → Distinct (xs ++ m ∷ ys) → NotIn m xs
NotIn-of_Distinct [] m ys d = tt
NotIn-of_Distinct (x ∷ xs) m ys d =
    (λ e. NotIn-mid x xs m ys d.0 (sym e), NotIn-of_Distinct xs m ys d.1)

-- What is left when `m` was removed: the queue without it, its block free, and every other message
-- with its contents; the table of handlers is not touched.
pub record Removed {W : Type 0} (s : Sys W) (m : Ptr) (ms : List Ptr) (s' : Sys W) : Type 0 where
  pub queue : IsQueue s' ms
  pub freed_block : s'.heap m ≡ none
  pub kept : (b : Ptr) → b ≢ m → payload (s'.heap b) ≡ payload (s.heap b)
  pub table : s'.handlers ≡ s.handlers

module _ {W : Type 0} (p : Platform W) (s : Sys W) (m : Ptr) where
  suspended : Sys W
  suspended = record s { world = (p.suspend_intr s.world).1 }

  -- The result of sceKernelFreeVpl and the platform once interrupts are enabled again.
  pub free_result : ℤ
  free_result = (p.free_vpl s.vplid m (p.suspend_intr s.world).1).0

  unfoldable pub free_world : W
  free_world =
      p.resume_intr (p.suspend_intr s.world).0 (p.free_vpl s.vplid m (p.suspend_intr s.world).1).1

  pub remove_head :
      (k : ℕ) (nm : Msg)
      → s.head ≡ m
      → m ≢ null
      → s.heap m ≡ some nm
      → remove_delete_msg p (suc k) m s
        ≡ ok free_result
            (record s { head = nm.next; heap = write s.heap m none; world = free_world })
  unfolding remove_delete_msg remove_loop unlink free free_result free_world
  remove_head k nm e ne at =
      let some_head : (s.head == null) ≡ false = ground arith in
      let is_head : (s.head == m) ≡ true = ground arith in
      rw (some_head, is_head, load-ok m nm (record s { world = (p.suspend_intr s.world).1 }) ne at)

  -- With no fuel the walk does not end.
  pub remove_delete_msg-out_of_fuel :
      s.head ≡ m → m ≢ null → remove_delete_msg p zero m s ≡ out_of_fuel
  unfolding remove_delete_msg remove_loop
  remove_delete_msg-out_of_fuel e ne =
      let some_head : (s.head == null) ≡ false = ground arith in rw some_head

  remove_behind :
      (k : ℕ) (a : Ptr) (n nm : Msg) (xs ys : List Ptr)
      → s.head ≡ a
      → a ≢ null
      → a ≢ m
      → s.heap a ≡ some n
      → m ≢ null
      → s.heap m ≡ some nm
      → NotIn m xs
      → Chain s.heap n.next (xs ++ m ∷ ys)
      → length xs < k
      → remove_delete_msg p (suc k) m s
        ≡ ok free_result (record s { heap = dropped s.heap a xs m nm.next; world = free_world })
  unfolding remove_delete_msg remove_loop suspended free_result free_world freed
  remove_behind k a n nm xs ys e ne other at ne_m at_m out c enough =
      let some_head : (s.head == null) ≡ false = ground arith in
      let not_head : (s.head == m) ≡ false = ground arith in
      let start : s.heap s.head ≡ some n = ap s.heap e ∙ at in
      rw (some_head, not_head, start)
        (rw
          (remove_loop-dropped p k m s.head n.next n nm xs ys suspended (ground arith)
            (ground arith) (ap s.heap e ∙ at) ne_m at_m out c enough)
          (ap
            (λ x.
              ok free_result
                (record s { heap = dropped s.heap x xs m nm.next; world = free_world }))
            e))

  Removed-head :
      (ys : List Ptr) (nm : Msg) (w : W)
      → NotIn m ys
      → Distinct ys
      → Chain s.heap nm.next ys
      → Removed s m ys (record s { head = nm.next; heap = write s.heap m none; world = w })
  Removed-head ys nm w out d c = record {
    queue = record { chain = Chain-write s.heap m nm.next none ys out c; distinct = d };
    freed_block = write_self s.heap m none;
    kept = λ b ne. ap payload (write_ne s.heap m b none ne);
    table = refl;
  }

  -- With more fuel than messages, remove_delete_msg takes a queued message out from anywhere in
  -- the queue: the queue keeps the others in their order, the message's block is free, and no
  -- other message loses its contents.
  pub remove_delete_msg-Removed :
      (fuel : ℕ) (xs ys : List Ptr)
      → IsQueue s (xs ++ m ∷ ys)
      → length xs + 1 < fuel
      → (ret : ℤ) × (s' : Sys W) × (remove_delete_msg p fuel m s ≡ ok ret s')
        × Removed s m (xs ++ ys) s'
  remove_delete_msg-Removed zero xs ys q enough = absurd (omega arith)
  remove_delete_msg-Removed (suc k) [] ys q enough =
      let (e, ne, (nm, at, rest)) = q.chain in
      (
        free_result,
        record s { head = nm.next; heap = write s.heap m none; world = free_world },
        remove_head k nm e ne at,
        Removed-head ys nm free_world q.distinct.0 q.distinct.1 rest,
      )
  remove_delete_msg-Removed (suc k) (a ∷ xs) ys q enough =
      let (e, ne, (n, at, rest)) = q.chain in
      let (ne_m, (nm, at_m)) = Chain-get s.heap n.next xs m ys rest in
      let other : a ≢ m = NotIn-mid a xs m ys q.distinct.0 in
      (
        free_result,
        record s { heap = dropped s.heap a xs m nm.next; world = free_world },
        remove_behind k a n nm xs ys e ne other at ne_m at_m
            (NotIn-of_Distinct xs m ys q.distinct.1) rest (omega arith),
        record {
          queue = record {
            chain = dropped-Chain s.heap s.head a xs m nm ys q.chain q.distinct at_m;
            distinct = Distinct-drop (a ∷ xs) m ys q.distinct;
          };
          freed_block = write_self (link_last s.heap a xs nm.next) m none;
          kept = λ b ne_b.
              ap payload (write_ne (link_last s.heap a xs nm.next) m b none ne_b)
              ∙ link_last-payload s.heap a xs nm.next b;
          table = refl;
        },
      )
