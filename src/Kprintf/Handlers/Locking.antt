-- ===== src/Kprintf/Handlers/Locking.antt =====
-- handler.c: the semaphore around the table of handlers.
use libkprintf.Kprintf.{Sys, Ptr, RegHandler, max_handlers}
use libkprintf.Platform.{Platform}
use libkprintf.Kprintf.Handlers.{
  clear_handler, unregister_locked, place_handler, register_locked, find_free_handler_index,
  with_sema, register_handler, unregister_handler, unlock,
}
use libkprintf.Prelude.{
  ◌≡◌, Bool-cases, refl, arith, none, inl, ◌+◌, inr, ◌∙◌, Bool, Option, false, get_elem?, is_neg,
  leb, negsuc, pos, some, ℕ, ℤ,
}
use libkprintf.Platform.Laws.{SemaLaws}

module _ {W : Type 0} where
  -- What the bodies under the semaphore leave alone: the semaphore's identifier, the module's
  -- state and the platform.
  abbrev pub Spares : Sys W → ℤ × Sys W → Type 0
  Spares s r = (r.1.semid ≡ s.semid) × (r.1.state ≡ s.state) × (r.1.world ≡ s.world)

  place_handler-Spares :
      (cb : Ptr) (arg : ℤ) (is_default : Bool) (i : ℤ) (s : Sys W)
      → Spares s (place_handler cb arg is_default i s)
  unfolding place_handler
  place_handler-Spares cb arg is_default (negsuc n) s = (refl, refl, refl)
  place_handler-Spares cb arg is_default (pos i) s = (refl, refl, refl)

  register_locked-Spares :
      (cb : Ptr) (arg : ℤ) (is_default : Bool) (s : Sys W)
      → Spares s (register_locked cb arg is_default s)
  unfolding register_locked
  register_locked-Spares cb arg is_default s =
      let free : ℤ = find_free_handler_index s.handlers in
      ground (arith, place_handler-Spares cb arg is_default free s)

  clear_handler-Spares :
      (i : ℕ) (o : Option RegHandler) (s : Sys W) → Spares s (clear_handler i o s)
  unfolding clear_handler
  clear_handler-Spares i none s = (refl, refl, refl)
  clear_handler-Spares i (some h) s = ground arith

  unregister_locked-Spares : (index : ℤ) (s : Sys W) → Spares s (unregister_locked index s)
  unfolding unregister_locked
  unregister_locked-Spares (negsuc n) s = (refl, refl, refl)
  unregister_locked-Spares (pos i) s = elim (Bool-cases (leb max_handlers i)) [
    | inl far ↦ rw far (refl, refl, refl)
    | inr near ↦ rw near (clear_handler-Spares i (get_elem? s.handlers i) s)
  ]

module _ {W : Type 0} (p : Platform W) (units : ℤ → W → ℕ) (laws : SemaLaws p units)
    (signals : (id : ℤ) (w : W) → is_neg (p.signal_sema id w).0 ≡ false) where
  unlock-units :
      (s : Sys W) (r : ℤ × Sys W)
      → Spares s r
      → units s.semid (unlock p r).1.world ≡ units s.semid s.world + 1
  unfolding unlock
  unlock-units s (ret, u) (sem, st, wo) =
      rw (sem, wo) (laws.signal_gives s.semid s.world (signals s.semid s.world))

  with_sema-units :
      (body : Sys W → ℤ × Sys W)
      → ((s : Sys W) → Spares s (body s))
      → (s : Sys W) → units s.semid (with_sema p body s).1.world ≡ units s.semid s.world
  unfolding with_sema
  with_sema-units body spares s = elim (Bool-cases (is_neg (p.wait_sema s.semid s.world).0)) [
    | inl failed ↦ rw failed (laws.wait_fails s.semid s.world failed)
    | inr taken ↦
        let locked : Sys W = record s { world = (p.wait_sema s.semid s.world).1 } in
        rw taken (
          unlock-units locked (body locked) (spares locked) ∙ laws.wait_takes s.semid s.world taken)
  ]

  -- If signalling the semaphore never fails, register_handler gives back what it takes of the
  -- semaphore, on every path: also when it is called too early, without a callback, with a full
  -- table, or when the wait fails.
  pub register_handler-units :
      (cb : Ptr) (arg : ℤ) (is_default : Bool) (s : Sys W)
      → units s.semid (register_handler p cb arg is_default s).1.world ≡ units s.semid s.world
  unfolding register_handler
  register_handler-units cb arg is_default s = ground (
    arith,
    with_sema-units (register_locked cb arg is_default) (register_locked-Spares cb arg is_default)
        s,
  )

  -- If signalling the semaphore never fails, unregister_handler gives back what it takes of the
  -- semaphore, on every path.
  pub unregister_handler-units :
      (index : ℤ) (s : Sys W)
      → units s.semid (unregister_handler p index s).1.world ≡ units s.semid s.world
  unfolding unregister_handler
  unregister_handler-units index s =
      ground (arith, with_sema-units (unregister_locked index) (unregister_locked-Spares index) s)
