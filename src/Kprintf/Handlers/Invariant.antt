-- ===== src/Kprintf/Handlers/Invariant.antt =====
-- handler.c: what the table of handlers and its counters keep, and that registering and
-- unregistering keep it.
use libkprintf.Prelude.{
  Bool, ℤ, Bool-cases, length, ◌≡◌, ◌≢◌, inr, ◌<◌, get_elem?-set_self, lt_of_get_elem?, inl,
  get_elem?-set_ne, ◌∙◌, arith, if◌then◌else◌, refl, ==_iff, ◌==◌, length-set, none, List, Option,
  false, get_elem?, int_eq, is_neg, leb, negsuc, pos, set, some, true, ℕ,
}
use libkprintf.Kprintf.{Sys, Ptr, RegHandler, max_handlers, null, free_slot, is_started}
use libkprintf.Kprintf.Handlers.{
  register_locked, store_handler, Platform, clear_handler, unregister_locked, register_handler,
  unregister_handler, with_sema,
}
use libkprintf.Kprintf.Handlers.Slots.{
  registered-le-length, registered-set_taken, FreeAreZero-set, registered-set_free,
}
use native.Mathlib.Decide.{ℕ_discrete}
use libkprintf.Kprintf.Handlers.Cases.{IsTable, DefaultIsValid, register_locked-cases}

pub DefaultIsValid-set :
    (d : ℤ) (hs : List RegHandler) (i : ℕ) (new : RegHandler)
    → new.cb ≢ null
    → DefaultIsValid d hs
    → DefaultIsValid d (set hs i new)
DefaultIsValid-set (negsuc n) hs i new used v = v
DefaultIsValid-set (pos d) hs i new used (h, at, taken) = elim (ℕ_discrete i d) [
  | yes same ↦ (
    new,
    rw (← same) (get_elem?-set_self hs i new (rw (← same) at (lt_of_get_elem? hs d h at))),
    used,
  )
  | no other ↦ (h, rw (get_elem?-set_ne hs new other) at, taken)
]

pub DefaultIsValid-clear :
    (d : ℤ) (hs : List RegHandler) (i : ℕ)
    → DefaultIsValid d hs
    → DefaultIsValid (if int_eq (pos i) d then negsuc 0 else d) (set hs i free_slot)
DefaultIsValid-clear (negsuc n) hs i v = v
DefaultIsValid-clear (pos d) hs i (h, at, taken) = elim (ℕ_discrete i d) [
  | yes same ↦ rw ((==_iff i d).1 same) refl
  | no other ↦
      let e : (i == d) ≡ false = ground arith in
      rw e (h, rw (get_elem?-set_ne hs free_slot other) at, taken)
]

DefaultIsValid-store :
    (is_default : Bool) (d : ℤ) (hs : List RegHandler) (i : ℕ) (new : RegHandler)
    → new.cb ≢ null
    → i < length hs
    → DefaultIsValid d hs
    → DefaultIsValid (if is_default then pos i else d) (set hs i new)
DefaultIsValid-store false d hs i new used lt v = DefaultIsValid-set d hs i new used v
DefaultIsValid-store true d hs i new used lt v = (new, get_elem?-set_self hs i new lt, used)

module _ {W : Type 0} where
  -- The fields that the table's invariant speaks of are not the platform's.
  pub IsTable-world : {s : Sys W} (w : W) → IsTable s → IsTable (record s { world = w })
  IsTable-world w t = record {
    slots = t.slots;
    counted = t.counted;
    zeros = t.zeros;
    default_valid = t.default_valid;
  }

  pub store_handler-IsTable :
      (cb : Ptr) (arg : ℤ) (is_default : Bool) (i : ℕ) (h : RegHandler) {s : Sys W}
      → cb ≢ null
      → get_elem? s.handlers i ≡ some h
      → h.cb ≡ null
      → IsTable s
      → IsTable (store_handler cb arg is_default i s).1
  unfolding store_handler
  store_handler-IsTable cb arg is_default i h {s} used at free t = record {
    slots = length-set s.handlers i new ∙ t.slots;
    counted = omega (
      arith,
      t.counted,
      t.slots,
      registered-le-length s.handlers,
      registered-set_taken s.handlers i h new at free used,
    );
    zeros = FreeAreZero-set s.handlers i new (λ e. absurd (used e)) t.zeros;
    default_valid =
        DefaultIsValid-store is_default s.default_handler_index s.handlers i new used
          (lt_of_get_elem? s.handlers i h at) t.default_valid;
  }
    where
      new : RegHandler
      new = record { cb = cb; arg = arg }

  pub register_locked-IsTable :
      (cb : Ptr) (arg : ℤ) (is_default : Bool) {s : Sys W}
      → cb ≢ null
      → IsTable s
      → IsTable (register_locked cb arg is_default s).1
  register_locked-IsTable cb arg is_default {s} used t =
      elim (register_locked-cases cb arg is_default s t) [
        | inl (d, e, at, r) ↦ rw r t
        | inr (inl (full, r)) ↦ rw r t
        | inr (inr (i, h, at, free, first, r, nodef)) ↦
            rw r (store_handler-IsTable cb arg is_default i h used at free t)
      ]

  clear_handler-IsTable :
      (i : ℕ) (o : Option RegHandler) {s : Sys W}
      → get_elem? s.handlers i ≡ o
      → IsTable s
      → IsTable (clear_handler i o s).1
  unfolding clear_handler
  clear_handler-IsTable i none at t = t
  clear_handler-IsTable i (some h) {s} at t = elim (Bool-cases (h.cb == null)) [
    | inl free ↦ rw free t
    | inr used ↦ rw used (record {
      slots = length-set s.handlers i free_slot ∙ t.slots;
      counted = omega (
        arith,
        t.counted,
        t.slots,
        registered-le-length s.handlers,
        registered-set_free s.handlers i h at (ground arith),
      );
      zeros = FreeAreZero-set s.handlers i free_slot (λ e. refl) t.zeros;
      default_valid = DefaultIsValid-clear s.default_handler_index s.handlers i t.default_valid;
    })
  ]

  pub unregister_locked-IsTable :
      (index : ℤ) {s : Sys W} → IsTable s → IsTable (unregister_locked index s).1
  unfolding unregister_locked
  unregister_locked-IsTable (negsuc n) t = t
  unregister_locked-IsTable (pos i) {s} t = elim (Bool-cases (leb max_handlers i)) [
    | inl far ↦ rw far t
    | inr near ↦ rw near (clear_handler-IsTable i (get_elem? s.handlers i) refl t)
  ]

  module _ (p : Platform W) where
    with_sema-IsTable :
        (body : Sys W → ℤ × Sys W)
        → ((s : Sys W) → IsTable s → IsTable (body s).1)
        → (s : Sys W) → IsTable s
        → IsTable (with_sema p body s).1
    unfolding with_sema
    with_sema-IsTable body keep s t = elim (Bool-cases (is_neg (p.wait_sema s.semid s.world).0)) [
      | inl failed ↦ rw failed (IsTable-world _ t)
      | inr taken ↦ rw taken (IsTable-world _ (keep _ (IsTable-world _ t)))
    ]

    -- From a well-formed table, register_handler keeps it well formed: its size, the counter,
    -- the zeros in unused slots and the default handler's index; on every path, errors
    -- included.
    pub register_handler-IsTable :
        (cb : Ptr) (arg : ℤ) (is_default : Bool) (s : Sys W)
        → IsTable s
        → IsTable (register_handler p cb arg is_default s).1
    unfolding register_handler
    register_handler-IsTable cb arg is_default s t = elim (Bool-cases (is_started s.state)) [
      | inr off ↦ rw off t
      | inl on ↦ rw on (elim (Bool-cases (cb == null)) [
        | inl no_cb ↦ rw no_cb t
        | inr used ↦ rw used (
            with_sema-IsTable (register_locked cb arg is_default)
              (λ u v. register_locked-IsTable cb arg is_default (ground arith) v) s t)
      ])
    ]

    -- From a well-formed table, unregister_handler keeps it well formed, for any index; on
    -- every path, errors included.
    pub unregister_handler-IsTable :
        (index : ℤ) (s : Sys W) → IsTable s → IsTable (unregister_handler p index s).1
    unfolding unregister_handler
    unregister_handler-IsTable index s t = elim (Bool-cases (is_started s.state)) [
      | inr off ↦ rw off t
      | inl on ↦ rw on (
          with_sema-IsTable (unregister_locked index) (λ u v. unregister_locked-IsTable index v) s
            t)
    ]
