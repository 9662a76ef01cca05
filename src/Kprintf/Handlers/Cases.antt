-- ===== src/Kprintf/Handlers/Cases.antt =====
-- handler.c: what the table of handlers and its counters keep, and the outcomes of
-- register_handler under the semaphore.
use libkprintf.Prelude.{
  Bool, ℤ, Bool-cases, length, ◌≡◌, ◌≢◌, ◌⊎◌, inr, ◌<◌, inl, ◌∙◌, arith, ◌&&◌, refl, ap, List,
  false, get_elem?, is_neg, leb, negsuc, not, pos, some, true, ℕ,
}
use libkprintf.Kprintf.{Sys, Ptr, RegHandler, max_handlers, null, err_max_handlers}
use libkprintf.Kprintf.Handlers.{register_locked, place_handler, store_handler, find_free_from}
use libkprintf.Kprintf.Handlers.Slots.{
  registered, FreeAreZero, Found, registered-le-length, find_free-Found,
}

-- The default handler's index is -1, or the index of a slot that is in use.
abbrev pub DefaultIsValid : ℤ → List RegHandler → Type 0
DefaultIsValid (negsuc n) hs = n ≡ 0
DefaultIsValid (pos d) hs = (h : RegHandler) × (get_elem? hs d ≡ some h) × (h.cb ≢ null)

-- The table has its fixed size, the counter counts the slots in use, unused slots are zero.
pub record IsTable {W : Type 0} (s : Sys W) : Type 0 where
  pub slots : length s.handlers ≡ max_handlers
  pub counted : s.handler_count ≡ registered s.handlers
  pub zeros : FreeAreZero s.handlers
  pub default_valid : DefaultIsValid s.default_handler_index s.handlers

default_free :
    (is_default : Bool) (d : ℤ) (hs : List RegHandler)
    → DefaultIsValid d hs
    → (is_default && not (is_neg d)) ≡ false
    → ((is_default ≡ false) ⊎ (d ≡ negsuc 0))
default_free false d hs v e = inl refl
default_free true (pos n) hs v e = absurd (cc)
default_free true (negsuc n) hs v e = inr (ap negsuc v)

default_taken :
    (is_default : Bool) (d : ℤ)
    → (is_default && not (is_neg d)) ≡ true
    → (n : ℕ) × (is_default ≡ true) × (d ≡ pos n)
default_taken false d e = absurd (cc)
default_taken true (pos n) e = (n, refl, refl)
default_taken true (negsuc n) e = absurd (cc)

module _ {W : Type 0} where
  -- What register_handler does under the semaphore: the default handler that is there already,
  -- a full table, or the first free slot filled.
  abbrev pub RegisterCases : Ptr → ℤ → Bool → Sys W → ℤ × Sys W → Type 0
  RegisterCases cb arg is_default s r =
      ((d : ℕ) × (is_default ≡ true) × (s.default_handler_index ≡ pos d) × (r ≡ (pos d, s)))
      ⊎ (((registered s.handlers ≡ max_handlers) × (r ≡ (err_max_handlers, s)))
          ⊎ ((i : ℕ) × (h : RegHandler) × (get_elem? s.handlers i ≡ some h)
              × (h.cb ≡ null)
              × ((m : ℕ) (g : RegHandler) → m < i → get_elem? s.handlers m ≡ some g → g.cb ≢ null)
              × (r ≡ store_handler cb arg is_default i s)
              × ((is_default ≡ false) ⊎ (s.default_handler_index ≡ negsuc 0))))

  place_handler-cases :
      (cb : Ptr) (arg : ℤ) (is_default : Bool) (s : Sys W) (r : ℤ)
      → length s.handlers ≡ max_handlers
      → ((is_default ≡ false) ⊎ (s.default_handler_index ≡ negsuc 0))
      → Found 0 s.handlers r
      → RegisterCases cb arg is_default s (place_handler cb arg is_default r s)
  unfolding place_handler
  place_handler-cases cb arg is_default s (negsuc n) slots free (e, full) =
      inr (inl (full ∙ slots, refl))
  place_handler-cases cb arg is_default s (pos j) slots free (k, h, e, at, zero_cb, first) =
      let same : j ≡ k = omega arith in
      inr (inr (j, h, rw same at, zero_cb, rw same first, refl, free))

  pub register_locked-cases :
      (cb : Ptr) (arg : ℤ) (is_default : Bool) (s : Sys W)
      → IsTable s
      → RegisterCases cb arg is_default s (register_locked cb arg is_default s)
  unfolding register_locked
  register_locked-cases cb arg is_default s t =
      elim (Bool-cases (is_default && not (is_neg s.default_handler_index))) [
        | inl taken ↦
            let (n, d, e) = default_taken is_default s.default_handler_index taken in
            rw taken (inl (n, d, e, rw e))
        | inr open_ ↦ rw open_ (elim (Bool-cases (leb max_handlers s.handler_count)) [
          | inl full ↦ rw full (inr (inl (ground (arith, registered-le-length s.handlers), refl)))
          | inr room ↦ rw room (
              place_handler-cases cb arg is_default s (find_free_from 0 s.handlers) t.slots
                (default_free is_default s.default_handler_index s.handlers t.default_valid open_)
                (find_free-Found 0 s.handlers))
        ])
      ]

  pub register_locked-default :
      (cb : Ptr) (arg : ℤ) (d : ℕ) (s : Sys W)
      → s.default_handler_index ≡ pos d
      → register_locked cb arg true s ≡ (pos d, s)
  unfolding register_locked
  register_locked-default cb arg d s have =
      let taken : (true && not (is_neg s.default_handler_index)) ≡ true =
        ap (λ x. not (is_neg x)) have in
      rw taken (ap (λ x. (x, s)) have)
