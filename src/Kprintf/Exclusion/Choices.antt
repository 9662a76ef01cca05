-- ===== src/Kprintf/Exclusion/Choices.antt =====
-- handler.c: a call's tests and its writes, apart, are what the call does under the semaphore.
use libkprintf.Prelude.{
  ℕ, ◌≡◌, some, Option, Bool-cases, refl, ℤ, negsuc, ◌&&◌, Bool, pos, ◌==◌, not, is_neg, inl, none,
  inr, leb, get_elem?, ◌⊎◌, sym, ◌∙◌, ap, subst,
}
use libkprintf.Kprintf.Exclusion.{
  Request, choose, commit, used_slot, slot_of, register, IsGiven, unregister, choose_used,
  clear_slot,
}
use libkprintf.Kprintf.{Sys, Ptr, RegHandler, null, max_handlers}
use libkprintf.Kprintf.Handlers.{
  register_locked, clear_handler, unregister_locked, place_handler, find_free_handler_index,
  store_handler,
}
use libkprintf.Kprintf.History.Frames.{SameTable}
use libkprintf.Kprintf.Handlers.Cases.{IsTable}
use libkprintf.Kprintf.Handlers.Invariant.{register_locked-IsTable, unregister_locked-IsTable}

-- The whole of what a call does under the semaphore, in one go.
module _ {W : Type 0} where
  abbrev pub whole : Request → Sys W → ℤ × Sys W
  whole (register cb arg is_default) s = register_locked cb arg is_default s
  whole (unregister index) s = unregister_locked index s

  -- What comes of a choice: the result and no change, or the writes.
  abbrev pub decided : Request → ℤ ⊎ ℕ → Sys W → ℤ × Sys W
  decided r (inl ret) s = (ret, s)
  decided r (inr k) s = commit r k s

  clear-decided :
      (i : ℕ) (o : Option RegHandler) (s : Sys W)
      → decided (unregister (pos i)) (used_slot i o) s ≡ clear_handler i o s
  unfolding commit clear_slot used_slot clear_handler
  clear-decided i none s = refl
  clear-decided i (some h) s = elim (Bool-cases (h.cb == null)) [
    | inl free ↦ rw free refl
    | inr used ↦ rw used refl
  ]

  place-decided :
      (cb : Ptr) (arg : ℤ) (is_default : Bool) (i : ℤ) (s : Sys W)
      → decided (register cb arg is_default) (slot_of i) s ≡ place_handler cb arg is_default i s
  unfolding commit slot_of place_handler
  place-decided cb arg is_default (negsuc n) s = refl
  place-decided cb arg is_default (pos n) s = refl

  register-decided :
      (cb : Ptr) (arg : ℤ) (is_default : Bool) (s : Sys W)
      → let r : Request = register cb arg is_default in
        decided r (choose r s) s ≡ register_locked cb arg is_default s
  unfolding choose register_locked
  register-decided cb arg is_default s =
      elim (Bool-cases (is_default && not (is_neg s.default_handler_index))) [
        | inl again ↦ rw again refl
        | inr first ↦ elim (Bool-cases (leb max_handlers s.handler_count)) [
          | inl full ↦ rw (first, full) refl
          | inr room ↦
              rw (first, room)
                (place-decided cb arg is_default (find_free_handler_index s.handlers) s)
        ]
      ]

  unregister-decided :
      (i : ℤ) (s : Sys W)
      → decided (unregister i) (choose (unregister i) s) s ≡ unregister_locked i s
  unfolding choose choose_used unregister_locked
  unregister-decided (negsuc n) s = refl
  unregister-decided (pos i) s = elim (Bool-cases (leb max_handlers i)) [
    | inl far ↦ rw far refl
    | inr near ↦ rw near (clear-decided i (get_elem? s.handlers i) s)
  ]

  -- The tests and the writes, one after the other, are the whole.
  pub decided-whole : (r : Request) (s : Sys W) → decided r (choose r s) s ≡ whole r s
  decided-whole (register cb arg is_default) s = register-decided cb arg is_default s
  decided-whole (unregister i) s = unregister-decided i s

  pub whole-IsTable : (r : Request) (s : Sys W) → IsGiven r → IsTable s → IsTable (whole r s).1
  whole-IsTable (register cb arg is_default) s used t =
      register_locked-IsTable cb arg is_default used t
  whole-IsTable (unregister index) s given t = unregister_locked-IsTable index t

  -- The tests read nothing but the table.
  pub choose-same : (r : Request) (s t : Sys W) → SameTable s t → choose r t ≡ choose r s
  unfolding choose choose_used
  choose-same (register cb arg is_default) s t (hs, count, default) = rw (hs, count, default) refl
  choose-same (unregister (negsuc n)) s t same = refl
  choose-same (unregister (pos i)) s t (hs, count, default) = rw hs refl

  -- The writes are to the table alone, and read nothing but the table.
  pub commit-frame :
      (r : Request) (k : ℕ) (s : Sys W)
      → (commit r k s).1 ≡ record s {
        default_handler_index = (commit r k s).1.default_handler_index;
        handlers = (commit r k s).1.handlers;
        handler_count = (commit r k s).1.handler_count;
      }
  unfolding commit clear_slot store_handler
  commit-frame (register cb arg is_default) k s = refl
  commit-frame (unregister index) k s = refl

  commit-same :
      (r : Request) (k : ℕ) (s t : Sys W)
      → SameTable s t
      → ((commit r k t).0 ≡ (commit r k s).0) × SameTable (commit r k s).1 (commit r k t).1
  unfolding commit clear_slot store_handler
  commit-same (register cb arg is_default) k s t (hs, count, default) =
      (refl, (rw hs refl, rw count refl, rw default refl))
  commit-same (unregister i) k s t (hs, count, default) =
      (refl, (rw hs refl, rw count refl, rw default refl))

  pub decided-same :
      (r : Request) (c : ℤ ⊎ ℕ) (s t : Sys W)
      → SameTable s t
      → ((decided r c t).0 ≡ (decided r c s).0) × SameTable (decided r c s).1 (decided r c t).1
  decided-same r (inl ret) s t same = (refl, same)
  decided-same r (inr k) s t same = commit-same r k s t same

  -- A choice made in one state, and followed there, is what the whole call does in another state
  -- with the same table.
  pub decided-serial :
      (r : Request) (c : ℤ ⊎ ℕ) (s t : Sys W)
      → SameTable s t
      → choose r t ≡ c
      → ((decided r c t).0 ≡ (whole r s).0) × SameTable (whole r s).1 (decided r c t).1
  decided-serial r c s t same chosen =
      let e : c ≡ choose r s = sym chosen ∙ choose-same r s t same in
      let w : decided r c s ≡ whole r s = ap (λ x. decided r x s) e ∙ decided-whole r s in
      subst (λ x. ((decided r c t).0 ≡ x.0) × SameTable x.1 (decided r c t).1) w
        (decided-same r c s t same)
