-- ===== src/Kprintf/History/Chains.antt =====
-- The queue of messages is well formed throughout.
use libkprintf.Kprintf.Handlers.{
  register_locked, place_handler, clear_handler, unregister_locked, store_handler,
  unregister_handler, register_handler, with_sema, unlock, find_free_handler_index,
}
use libkprintf.Kprintf.{Sys, Ptr, HandlerFlags, null, is_started, RegHandler, loaded, max_handlers}
use libkprintf.Platform.{Platform}
use libkprintf.Kprintf.Api.{
  with_k1, install_kernel_handler, register_default_handler, kprintf_register_handler,
  kprintf_register_default_handler, kprintf_unregister_handler, kprintf_install,
}
use libkprintf.Prelude.{
  List, ℕ, ℤ, ◌≡◌, Option, true, ap, negsuc, Bool-cases, Bool, int_eq, subst, ◌&&◌, [], pos, inl,
  is_neg, not, some, inr, leb, refl, ◌==◌, ◌++◌, none, ◌∷◌, get_elem?, false, ◌⊎◌,
}
use libkprintf.Kprintf.Queue.Flush.{flushed, free_all, deliver_all, flush_messages-flushed}
use libkprintf.Kprintf.Interleave.Arrivals.{Arrived, kprintf_handler-Arrived}
use libkprintf.Kprintf.Startup.{start}
use libkprintf.Kprintf.Queue.Chain.{IsQueue}
use libkprintf.Prelude.Run.{ok, ok_transport}
use libkprintf.Kprintf.History.Tables.{started-Reset}
use libkprintf.Kprintf.History.{
  flush, History, started_up, register, register_default, unregister, install, message,
}
use libkprintf.Kprintf.Interleave.Texts.{Text, accepted}
use libkprintf.Kprintf.Queue.Fresh.{PoolGives}
use libkprintf.Kprintf.Hook.{kprintf_handler}

module _ {W : Type 0} where
  abbrev pub HasQueue : Sys W → Type 0
  HasQueue s = (ms : List Ptr) × IsQueue s ms

  -- The head and the messages are the same.
  abbrev SameQueue : Sys W → Sys W → Type 0
  SameQueue s t = (t.head ≡ s.head) × (t.heap ≡ s.heap)

  HasQueue-same : (s t : Sys W) → SameQueue s t → HasQueue s → HasQueue t
  HasQueue-same s t (head, heap) (ms, q) =
      (ms, record { chain = rw (head, heap) q.chain; distinct = q.distinct })

  HasQueue-empty : (s : Sys W) → s.head ≡ null → HasQueue s
  HasQueue-empty s empty = ([], record { chain = empty; distinct = tt })

  place_handler-SameQueue :
      (cb : Ptr) (arg : ℤ) (is_default : Bool) (i : ℤ) (s : Sys W)
      → SameQueue s (place_handler cb arg is_default i s).1
  unfolding place_handler store_handler
  place_handler-SameQueue cb arg is_default (negsuc n) s = (refl, refl)
  place_handler-SameQueue cb arg is_default (pos n) s = (refl, refl)

  register_locked-SameQueue :
      (cb : Ptr) (arg : ℤ) (is_default : Bool) (s : Sys W)
      → SameQueue s (register_locked cb arg is_default s).1
  unfolding register_locked
  register_locked-SameQueue cb arg is_default s =
      elim (Bool-cases (is_default && not (is_neg s.default_handler_index))) [
        | inl again ↦ rw again (refl, refl)
        | inr first ↦ elim (Bool-cases (leb max_handlers s.handler_count)) [
          | inl full ↦ rw (first, full) (refl, refl)
          | inr room ↦
              rw (first, room)
                (place_handler-SameQueue cb arg is_default (find_free_handler_index s.handlers) s)
        ]
      ]

  clear_handler-SameQueue :
      (i : ℕ) (h : Option RegHandler) (s : Sys W) → SameQueue s (clear_handler i h s).1
  unfolding clear_handler
  clear_handler-SameQueue i none s = (refl, refl)
  clear_handler-SameQueue i (some h) s = elim (Bool-cases (h.cb == null)) [
    | inl free ↦ rw free (refl, refl)
    | inr used ↦ rw used (refl, refl)
  ]

  unregister_locked-SameQueue : (i : ℤ) (s : Sys W) → SameQueue s (unregister_locked i s).1
  unfolding unregister_locked
  unregister_locked-SameQueue (negsuc n) s = (refl, refl)
  unregister_locked-SameQueue (pos n) s = elim (Bool-cases (leb max_handlers n)) [
    | inl beyond ↦ rw beyond (refl, refl)
    | inr inside ↦ rw inside (clear_handler-SameQueue n (get_elem? s.handlers n) s)
  ]

  with_k1-HasQueue :
      (body : Sys W → ℤ × Sys W)
      → ((s : Sys W) → HasQueue s → HasQueue (body s).1)
      → (s s' : Sys W) (ret : ℤ) → with_k1 body s ≡ (ret, s')
      → HasQueue s
      → HasQueue s'
  unfolding with_k1
  with_k1-HasQueue body keep s s' ret run q =
      let s1 : Sys W = record s { k1 = 0 } in
      let done : record (body s1).1 { k1 = s.k1 } ≡ s' = ap (λ (r : ℤ × Sys W). r.1) run in
      subst HasQueue done
        (HasQueue-same (body s1).1 _ (refl, refl) (keep s1 (HasQueue-same s s1 (refl, refl) q)))

module _ {W : Type 0} (p : Platform W) where
  with_sema-SameQueue :
      (body : Sys W → ℤ × Sys W)
      → ((s : Sys W) → SameQueue s (body s).1)
      → (s : Sys W) → SameQueue s (with_sema p body s).1
  unfolding with_sema unlock
  with_sema-SameQueue body keep s =
      let taken = p.wait_sema s.semid s.world in
      elim (Bool-cases (is_neg taken.0)) [
        | inl failed ↦ rw failed (refl, refl)
        | inr got ↦ rw got (keep (record s { world = taken.1 }))
      ]

  register_handler-SameQueue :
      (cb : Ptr) (arg : ℤ) (is_default : Bool) (s : Sys W)
      → SameQueue s (register_handler p cb arg is_default s).1
  unfolding register_handler
  register_handler-SameQueue cb arg is_default s = elim (Bool-cases (is_started s.state)) [
    | inr off ↦ rw off (refl, refl)
    | inl on ↦ elim (Bool-cases (cb == null)) [
      | inl no_cb ↦ rw (on, no_cb) (refl, refl)
      | inr has_cb ↦
          rw (on, has_cb)
            (with_sema-SameQueue (register_locked cb arg is_default)
              (register_locked-SameQueue cb arg is_default) s)
    ]
  ]

  unregister_handler-SameQueue : (i : ℤ) (s : Sys W) → SameQueue s (unregister_handler p i s).1
  unfolding unregister_handler
  unregister_handler-SameQueue i s = elim (Bool-cases (is_started s.state)) [
    | inr off ↦ rw off (refl, refl)
    | inl on ↦ rw on (with_sema-SameQueue (unregister_locked i) (unregister_locked-SameQueue i) s)
  ]

  install-SameQueue :
      (handler : Ptr) (s : Sys W) → SameQueue s (install_kernel_handler p handler s).1
  unfolding install_kernel_handler
  install-SameQueue handler s = elim (Bool-cases (is_neg (p.dipsw_set 56 s.world).0)) [
    | inl failed ↦ rw failed (refl, refl)
    | inr good ↦ rw good (refl, refl)
  ]

  default-HasQueue :
      (kprintf : List ℕ → Sys W → Sys W) (default_cb : Ptr)
      → ((text : List ℕ) (s : Sys W) → HasQueue s → HasQueue (kprintf text s))
      → (s : Sys W) → HasQueue s
      → HasQueue (register_default_handler p kprintf default_cb s).1
  unfolding register_default_handler
  default-HasQueue kprintf default_cb keeps s q =
      let r = register_handler p default_cb s.stdout true s in
      let q' = HasQueue-same s r.1 (register_handler-SameQueue default_cb s.stdout true s) q in
      elim (Bool-cases (int_eq r.0 (pos 0))) [
        | inl first ↦ rw first (keeps _ r.1 q')
        | inr other ↦ rw other q'
      ]

  flushed-HasQueue :
      (flags : HandlerFlags) (default_cb : Ptr) (s s' : Sys W) (ms : List Ptr) (o : Option W)
      → flushed p flags default_cb s ms o ≡ ok tt s'
      → HasQueue s'
  unfolding flushed
  flushed-HasQueue flags default_cb s s' ms none run = absurd (cc)
  flushed-HasQueue flags default_cb s s' ms (some w) run =
      let s1 : Sys W = record s { head = null; heap = free_all s.heap ms; world = w } in
      ok_transport HasQueue tt tt s1 s' run (HasQueue-empty s1 refl)

  HasQueue-Arrived :
      (texts : List Text) (s s' : Sys W) (ms : List Ptr) → Arrived p texts s ms s' → HasQueue s'
  HasQueue-Arrived texts s s' ms (inl (q, quiet, kept)) = (ms, q)
  HasQueue-Arrived texts s s' ms (inr (a, q, marked, added)) = (ms ++ a ∷ [], q)

  started-HasQueue :
      (handler : Ptr) (w : W) (s : Sys W) → start p handler (loaded w) ≡ (0, s) → HasQueue s
  started-HasQueue handler w s run =
      let (hs, count, default, no_head, same_heap, same_k1) = started-Reset p handler w s run in
      HasQueue-empty s no_head

module _ {W : Type 0} (p : Platform W) where
  -- Documented behaviour of the kernel's Kprintf, from `s` to `t`: it does what it does outside, and
  -- if a handler is registered, it calls it with isUser = 0. That handler is kprintf_handler, for
  -- which the pool gives no block in use.
  abbrev pub ByHook : Sys W → Sys W → Type 0
  ByHook s t =
      (w : W) × ((t ≡ record s { world = w })
        ⊎ ((fuel fmt va : ℕ) × (ret : ℤ) × PoolGives p (record s { world = w })
            × (kprintf_handler p fuel fmt va false (record s { world = w }) ≡ ok ret t)))

  HasQueue-ByHook : (s t : Sys W) → ByHook s t → HasQueue s → HasQueue t
  HasQueue-ByHook s t (w, inl outside) queue =
      rw outside (HasQueue-same s (record s { world = w }) (refl, refl) queue)
  HasQueue-ByHook s t (w, inr (fuel, fmt, va, ret, gives, run)) queue =
      let s1 : Sys W = record s { world = w } in
      let (ms, q) = HasQueue-same s s1 (refl, refl) queue in
      HasQueue-Arrived p (accepted p fmt va false s1) s1 t ms
        (kprintf_handler-Arrived p fuel s1 ms q fmt va false ret t gives run)

module _ {W : Type 0} (p : Platform W) (flags : HandlerFlags) (handler default_cb : Ptr)
    (kprintf : List ℕ → Sys W → Sys W)
    (calls : (text : List ℕ) (s : Sys W) → ByHook p s (kprintf text s)) where
  -- However the module is used since it was started, by calls of the exported functions, messages
  -- and flushes in any order, the queue stays well formed: from g_head on the links lead through
  -- messages that exist, each once, to NULL. The pool must give no block in use, a flush have more
  -- fuel than messages, and the kernel's Kprintf, by which the default handler is announced, change
  -- nothing of the module but by a call of kprintf_handler.
  pub History-HasQueue : (s : Sys W) → History p flags handler default_cb kprintf s → HasQueue s
  unfolding kprintf_register_handler kprintf_register_default_handler kprintf_unregister_handler
      kprintf_install
  History-HasQueue s (started_up w run) = started-HasQueue p handler w s run
  History-HasQueue s (register {s = s0} cb arg ret before run) =
      with_k1-HasQueue (register_handler p cb arg false)
        (λ t. HasQueue-same t _ (register_handler-SameQueue p cb arg false t)) s0 s ret run
        (History-HasQueue s0 before)
  History-HasQueue s (register_default {s = s0} ret before run) =
      with_k1-HasQueue (register_default_handler p kprintf default_cb)
        (default-HasQueue p kprintf default_cb
          (λ text t queue. HasQueue-ByHook p t (kprintf text t) (calls text t) queue))
        s0 s ret run (History-HasQueue s0 before)
  History-HasQueue s (unregister {s = s0} index ret before run) =
      with_k1-HasQueue (unregister_handler p index)
        (λ t. HasQueue-same t _ (unregister_handler-SameQueue p index t)) s0 s ret run
        (History-HasQueue s0 before)
  History-HasQueue s (install {s = s0} ret before run) =
      with_k1-HasQueue (install_kernel_handler p handler)
        (λ t. HasQueue-same t _ (install-SameQueue p handler t)) s0 s ret run
        (History-HasQueue s0 before)
  History-HasQueue s (message {s = s0} fuel fmt va is_user ret before gives run) =
      let (ms, q) = History-HasQueue s0 before in
      HasQueue-Arrived p (accepted p fmt va is_user s0) s0 s ms
        (kprintf_handler-Arrived p fuel s0 ms q fmt va is_user ret s gives run)
  History-HasQueue s (flush {s = s0} fuel ms before q enough run) =
      flushed-HasQueue p flags default_cb s0 s ms
        (deliver_all p flags default_cb s0.handlers s0.vplid s0.heap ms s0.world)
        (rw (flush_messages-flushed p flags default_cb fuel ms s0 q enough) at run)
