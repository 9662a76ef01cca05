-- ===== src/Kprintf/Handlers/Unregister.antt =====
-- handler.c, unregister_handler: what it promises its callers, and that it undoes register_handler.
use libkprintf.Kprintf.Handlers.{
  clear_handler, unregister_locked, Sys, RegHandler, is_started, unregister_handler, max_handlers,
  err_invalid_index, null, err_no_handler, store_handler, Ptr, register_handler, free_slot, dec_u32,
  inc_u32,
}
use libkprintf.Prelude.{
  ℤ, ◌≡◌, inl, ◌⊎◌, ◌↔◌, Bool-cases, ◌==◌, ◌≢◌, ◌≤◌, inr, arith, leb→le, get_elem?-some, refl,
  lt_of_get_elem?, ◌<◌, length, set-set, ◌∙◌, set_same, ap, get_elem?-set_self, List, false,
  get_elem?, int_eq, leb, negsuc, pos, set, some, true, ℕ, Bool, if◌then◌else◌, sym,
}
use libkprintf.Platform.{Platform}
use libkprintf.Platform.Laws.{SemaWorks}
use libkprintf.Kprintf.Handlers.Cases.{IsTable, DefaultIsValid, register_locked-cases}
use libkprintf.Kprintf.Handlers.Register.{with_sema-works, register_handler-runs}
use libkprintf.Kprintf.Handlers.Invariant.{IsTable-world, store_handler-IsTable}
use libkprintf.Kprintf.Handlers.Slots.{registered, FreeAreZero-get, registered-le-length}

module _ {W : Type 0} where
  -- The three outcomes of unregister_handler under the semaphore.
  abbrev pub UnregisterCases : ℤ → Sys W → ℤ × Sys W → Type 0
  UnregisterCases index s r =
      ((((n : ℕ) × (index ≡ negsuc n)) ⊎ ((i : ℕ) × (index ≡ pos i) × (max_handlers ≤ i)))
        × (r ≡ (err_invalid_index, s)))
      ⊎ (((i : ℕ) × (h : RegHandler) × (index ≡ pos i)
            × (get_elem? s.handlers i ≡ some h)
            × (h.cb ≡ null)
            × (r ≡ (err_no_handler, s)))
          ⊎ ((i : ℕ) × (h : RegHandler) × (index ≡ pos i)
              × (get_elem? s.handlers i ≡ some h)
              × (h.cb ≢ null)
              × (r ≡ clear_handler i (some h) s)
              × (r.0 ≡ pos 0)))

  clear_handler-cases :
      (i : ℕ) (h : RegHandler) (s : Sys W)
      → get_elem? s.handlers i ≡ some h
      → UnregisterCases (pos i) s (clear_handler i (some h) s)
  unfolding clear_handler
  clear_handler-cases i h s at = elim (Bool-cases (h.cb == null)) [
    | inl free ↦ inr (inl (i, h, refl, at, ground arith, rw free))
    | inr taken ↦ inr (inr (i, h, refl, at, ground arith, refl, rw taken))
  ]

  pub unregister_locked-cases :
      (index : ℤ) (s : Sys W) → IsTable s → UnregisterCases index s (unregister_locked index s)
  unfolding unregister_locked
  unregister_locked-cases (negsuc n) s t = inl (inl (n, refl), refl)
  unregister_locked-cases (pos i) s t = elim (Bool-cases (leb max_handlers i)) [
    | inl far ↦ rw far (inl (inr (i, refl, leb→le max_handlers i far), refl))
    | inr near ↦
        let (h, at) = get_elem?-some s.handlers i (ground (arith, t.slots)) in
        rw (near, at) (clear_handler-cases i h s at)
  ]

-- A free slot is not the default handler's.
default_ne_free :
    (d : ℤ) (hs : List RegHandler) (i : ℕ) (h : RegHandler)
    → DefaultIsValid d hs
    → get_elem? hs i ≡ some h
    → h.cb ≡ null
    → int_eq (pos i) d ≡ false
default_ne_free (negsuc n) hs i h v at free = refl
default_ne_free (pos d) hs i h (g, at', taken) at free = ground arith

-- The default index after filling the slot `i` and clearing it again.
default_restored :
    (is_default : Bool) (d : ℤ) (hs : List RegHandler) (i : ℕ) (h : RegHandler)
    → DefaultIsValid d hs
    → get_elem? hs i ≡ some h
    → h.cb ≡ null
    → (is_default ≡ false) ⊎ (d ≡ negsuc 0)
    → let now = if is_default then pos i else d in
      (if int_eq (pos i) now then negsuc 0 else now) ≡ d
default_restored false d hs i h v at free fresh = rw (default_ne_free d hs i h v at free) refl
default_restored true d hs i h v at free (inl e) = absurd (cc)
default_restored true d hs i h v at free (inr e) =
    let same : (i == i) ≡ true = ground arith in rw same (sym e)

module _ {W : Type 0} where
  -- Clearing the slot just filled gives the table, the counter and the default index back.
  unregister_locked-store :
      (cb : Ptr) (arg : ℤ) (is_default : Bool) (i : ℕ) (h : RegHandler) (w : W) (s : Sys W)
      → IsTable s
      → cb ≢ null
      → get_elem? s.handlers i ≡ some h
      → h.cb ≡ null
      → (is_default ≡ false) ⊎ (s.default_handler_index ≡ negsuc 0)
      → unregister_locked (pos i) (record (store_handler cb arg is_default i s).1 { world = w })
        ≡ (pos 0, record s { world = w })
  unfolding unregister_locked store_handler
  unregister_locked-store cb arg is_default i h w s t used at free fresh =
      let lt : i < length s.handlers = lt_of_get_elem? s.handlers i h at in
      let near : leb max_handlers i ≡ false = ground (arith, t.slots) in
      let new : RegHandler = record { cb = cb; arg = arg } in
      let in_use : (cb == null) ≡ false = ground arith in
      let same : set (set s.handlers i new) i free_slot ≡ s.handlers =
        set-set s.handlers i new free_slot
        ∙ set_same s.handlers i free_slot
            (at ∙ ap some (FreeAreZero-get s.handlers i h t.zeros at free)) in
      let back : dec_u32 (inc_u32 s.handler_count) ≡ s.handler_count =
        omega (arith, t.counted, t.slots, registered-le-length s.handlers) in
      rw (
        near,
        get_elem?-set_self s.handlers i new lt,
        in_use,
        default_restored is_default s.default_handler_index s.handlers i h t.default_valid at free
            fresh,
        same,
        back,
      )

module _ {W : Type 0} (p : Platform W) (works : SemaWorks p) (s : Sys W) (t : IsTable s)
    (on : is_started s.state ≡ true) where
  pub unregister_handler-runs :
      (index : ℤ)
      → let r = unregister_locked index (record s { world = (p.wait_sema s.semid s.world).1 }) in
        unregister_handler p index s
        ≡ (r.0, record r.1 { world = (p.signal_sema r.1.semid r.1.world).1 })
  unfolding unregister_handler
  unregister_handler-runs index = rw on (with_sema-works p works (unregister_locked index) s)

  -- In a started module with a well-formed table, and with semaphore calls that do not fail, the
  -- result of unregister_handler is 0 exactly when the index is that of a slot in use.
  pub unregister_handler-zero_iff :
      (index : ℤ)
      → ((unregister_handler p index s).0 ≡ pos 0) ↔ (
          (i : ℕ) × (h : RegHandler) × (index ≡ pos i)
          × (get_elem? s.handlers i ≡ some h)
          × (h.cb ≢ null))
  unregister_handler-zero_iff index =
      rw (unregister_handler-runs index)
        (elim (unregister_locked-cases index locked (IsTable-world _ t)) [
          | inl (inl (n, e), r) ↦ rw r (λ z. absurd (cc), λ (i, h, e', at, used). absurd (cc))
          | inl (inr (i, e, far), r) ↦ rw r (
            λ z. absurd (cc),
            λ (j, h, e', at, used).
                absurd (ground (arith, t.slots, lt_of_get_elem? s.handlers j h at)),
          )
          | inr (inl (i, h, e, at, free, r)) ↦
              rw r (λ z. absurd (cc), λ (j, g, e', at', used). absurd (ground arith))
          | inr (inr (i, h, e, at, used, r, z)) ↦ (λ z'. (i, h, e, at, used), λ w. z)
        ])
    where
      locked : Sys W
      locked = record s { world = (p.wait_sema s.semid s.world).1 }

module _ {W : Type 0} (p : Platform W) (works : SemaWorks p) (cb : Ptr) (arg : ℤ)
    (is_default : Bool) (s : Sys W) (t : IsTable s) (on : is_started s.state ≡ true)
    (used : cb ≢ null) where
  -- In a started module with a well-formed table that has a free slot, with semaphore calls that
  -- do not fail, and for a handler with a callback, which is a default one only if the table has
  -- none: unregistering the index that register_handler has just returned succeeds, and gives
  -- back the table of handlers, the counter and the default handler's index as they were.
  pub unregister_handler-register_handler :
      registered s.handlers < max_handlers
      → (is_default ≡ false) ⊎ (s.default_handler_index ≡ negsuc 0)
      → let r = register_handler p cb arg is_default s in
        let u = unregister_handler p r.0 r.1 in
        (u.0 ≡ pos 0)
        × (u.1.handlers ≡ s.handlers)
        × (u.1.handler_count ≡ s.handler_count)
        × (u.1.default_handler_index ≡ s.default_handler_index)
  unfolding store_handler
  unregister_handler-register_handler room fresh =
      rw (register_handler-runs p works cb arg s t on used is_default)
        (elim (register_locked-cases cb arg is_default locked (IsTable-world _ t)) [
          | inl (d, e, at, r) ↦ absurd (elim fresh [ inl f ↦ cc | inr f ↦ cc ])
          | inr (inl (full, r)) ↦ absurd (omega arith)
          | inr (inr (i, h, at, free, first, r, nodef)) ↦ rw r (
              rw
                (unregister_handler-runs p works (after i)
                  (IsTable-world _ (store_handler-IsTable cb arg is_default i h used at free t)) on
                  (pos i))
                (rw (unregister_locked-store cb arg is_default i h _ s t used at free fresh)
                  (refl, refl, refl, refl)))
        ])
    where
      locked : Sys W
      locked = record s { world = (p.wait_sema s.semid s.world).1 }

      after : ℕ → Sys W
      after i = record (store_handler cb arg is_default i s).1 {
        world = (p.signal_sema s.semid (p.wait_sema s.semid s.world).1).1;
      }
