-- ===== src/Kprintf/Handlers/Register.antt =====
-- handler.c, register_handler: what it promises its callers.
use libkprintf.Platform.{Platform}
use libkprintf.Platform.Laws.{SemaWorks}
use libkprintf.Kprintf.Handlers.{
  with_sema, Sys, Ptr, is_started, register_handler, register_locked, store_handler,
}
use libkprintf.Prelude.{
  ◌≡◌, ◌≢◌, ◌<◌, ◌==◌, arith, ◌+◌, refl, inl, inr, lt_of_get_elem?, ap, Bool, false, get_elem?,
  negsuc, pos, set, some, true, ℕ, ℤ,
}
use libkprintf.Kprintf.Handlers.Cases.{IsTable, register_locked-cases, register_locked-default}
use libkprintf.Kprintf.{null, max_handlers, free_slot, RegHandler, err_max_handlers}
use libkprintf.Kprintf.Handlers.Slots.{registered, registered-lt-length, FreeAreZero-get}
use libkprintf.Kprintf.Handlers.Invariant.{IsTable-world}

module _ {W : Type 0} (p : Platform W) where
  -- Between the semaphore calls: a body runs on the state after the wait, and the caller sees its
  -- result and its state, but for the platform's.
  pub with_sema-works :
      (works : SemaWorks p) (body : Sys W → ℤ × Sys W) (s : Sys W)
      → let r = body (record s { world = (p.wait_sema s.semid s.world).1 }) in
        with_sema p body s ≡ (r.0, record r.1 { world = (p.signal_sema r.1.semid r.1.world).1 })
  unfolding with_sema
  with_sema-works works body s = rw (works.waits s.semid s.world) (
      rw
        (works.signals (body (record s { world = (p.wait_sema s.semid s.world).1 })).1.semid
          (body (record s { world = (p.wait_sema s.semid s.world).1 })).1.world)
        refl)

  module _ (works : SemaWorks p) (cb : Ptr) (arg : ℤ) (s : Sys W) (t : IsTable s)
      (on : is_started s.state ≡ true) (used : cb ≢ null) where
    pub register_handler-runs :
        (is_default : Bool)
        → let r =
            register_locked cb arg is_default
              (record s { world = (p.wait_sema s.semid s.world).1 }) in
          register_handler p cb arg is_default s
          ≡ (r.0, record r.1 { world = (p.signal_sema r.1.semid r.1.world).1 })
    unfolding register_handler
    register_handler-runs is_default =
        let e : (cb == null) ≡ false = ground arith in
        rw (on, e) (with_sema-works works (register_locked cb arg is_default) s)

    -- In a started module with a well-formed table that has a free slot, and with semaphore
    -- calls that do not fail, a handler (not a default one, with a callback) is put into the
    -- lowest free slot, whose index is returned; no other slot changes, the default handler
    -- stays, and the counter grows by one.
    pub register_handler-lowest :
        registered s.handlers < max_handlers
        → let r = register_handler p cb arg false s in
          (i : ℕ) × (i < max_handlers)
          × (r.0 ≡ pos i)
          × (get_elem? s.handlers i ≡ some free_slot)
          × ((m : ℕ) (g : RegHandler) → m < i → get_elem? s.handlers m ≡ some g → g.cb ≢ null)
          × (r.1.handlers ≡ set s.handlers i (record { cb = cb; arg = arg }))
          × (r.1.handler_count ≡ s.handler_count + 1)
          × (r.1.default_handler_index ≡ s.default_handler_index)
    unfolding store_handler
    register_handler-lowest room =
        rw (register_handler-runs false)
          (elim (register_locked-cases cb arg false locked (IsTable-world _ t)) [
            | inl (d, e, at, r) ↦ absurd (cc)
            | inr (inl (full, r)) ↦ absurd (omega arith)
            | inr (inr (i, h, at, free, first, r, nodef)) ↦ rw r (
              i,
              omega (arith, t.slots, lt_of_get_elem? s.handlers i h at),
              refl,
              rw at (ap some (FreeAreZero-get s.handlers i h t.zeros at free)),
              first,
              refl,
              omega (arith, t.counted),
              refl,
            )
          ])
      where
        locked : Sys W
        locked = record s { world = (p.wait_sema s.semid s.world).1 }

    -- In a started module with a well-formed table, and with semaphore calls that do not fail:
    -- with every slot in use no further handler (not a default one, with a callback) is
    -- registered, the result is the error for it, and the table stays as it is.
    pub register_handler-full :
        registered s.handlers ≡ max_handlers
        → let r = register_handler p cb arg false s in
          (r.0 ≡ err_max_handlers)
          × (r.1.handlers ≡ s.handlers)
          × (r.1.handler_count ≡ s.handler_count)
          × (r.1.default_handler_index ≡ s.default_handler_index)
    register_handler-full full =
        rw (register_handler-runs false)
          (elim (register_locked-cases cb arg false locked (IsTable-world _ t)) [
            | inl (d, e, at, r) ↦ absurd (cc)
            | inr (inl (_, r)) ↦ rw r (refl, refl, refl, refl)
            | inr (inr (i, h, at, free, first, r, nodef)) ↦
                absurd (omega (arith, t.slots, registered-lt-length s.handlers i h at free))
          ])
      where
        locked : Sys W
        locked = record s { world = (p.wait_sema s.semid s.world).1 }

    -- In a started module with a well-formed table, and with semaphore calls that do not fail,
    -- the default handler is registered once: while one is, a further registration of a default
    -- handler (with a callback) returns its index and changes nothing of the table.
    pub register_handler-default_once :
        (d : ℕ)
        → s.default_handler_index ≡ pos d
        → let r = register_handler p cb arg true s in
          (r.0 ≡ pos d)
          × (r.1.handlers ≡ s.handlers)
          × (r.1.handler_count ≡ s.handler_count)
          × (r.1.default_handler_index ≡ s.default_handler_index)
    register_handler-default_once d have = rw (register_handler-runs true) (
        rw
          (register_locked-default cb arg d (record s { world = (p.wait_sema s.semid s.world).1 })
            have)
          (refl, refl, refl, refl))

    -- In a started module with a well-formed table that has a free slot and no default handler,
    -- and with semaphore calls that do not fail, a default handler (with a callback) is put
    -- into the lowest free slot, and its index is kept as the default handler's.
    pub register_handler-default_first :
        s.default_handler_index ≡ negsuc 0
        → registered s.handlers < max_handlers
        → let r = register_handler p cb arg true s in
          (i : ℕ) × (r.0 ≡ pos i)
          × (r.1.default_handler_index ≡ pos i)
          × (r.1.handlers ≡ set s.handlers i (record { cb = cb; arg = arg }))
          × ((m : ℕ) (g : RegHandler) → m < i → get_elem? s.handlers m ≡ some g → g.cb ≢ null)
    unfolding store_handler
    register_handler-default_first none_yet room =
        rw (register_handler-runs true)
          (elim (register_locked-cases cb arg true locked (IsTable-world _ t)) [
            | inl (d, e, at, r) ↦ absurd (cc)
            | inr (inl (full, r)) ↦ absurd (omega arith)
            | inr (inr (i, h, at, free, first, r, nodef)) ↦ rw r (i, refl, refl, refl, first)
          ])
      where
        locked : Sys W
        locked = record s { world = (p.wait_sema s.semid s.world).1 }
