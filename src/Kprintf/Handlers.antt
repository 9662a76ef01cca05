-- ===== src/Kprintf/Handlers.antt =====
-- handler.c: the table of handlers (register_handler, unregister_handler).
pub mod Slots
pub mod Cases
pub mod Invariant
pub mod Register
pub mod Unregister
pub mod Locking
use libkprintf.Prelude.{
  ℕ, ◌+◌, ◌-◌, ◌^◌, ◌%◌, List, [], ◌∷◌, Bool, true, false, ◌&&◌, not, ◌||◌, Option, none, some, ℤ,
  pos, negsuc, is_neg, int_eq, leb, ltb, ◌==◌, if◌then◌else◌, get_elem?, set,
}
use libkprintf.Platform.{Platform}
use libkprintf.Kprintf.{
  Ptr, null, is_started, err_not_started, err_invalid_argument, err_invalid_index, err_max_handlers,
  err_no_handler, max_handlers, RegHandler, free_slot, Sys,
}

-- find_free_handler_index, from index `i` on: -1 if no slot of the rest is free.
unfoldable pub find_free_from : ℕ → List RegHandler → ℤ
find_free_from i [] = negsuc 0
find_free_from i (h ∷ hs) = if h.cb == null then pos i else find_free_from (i + 1) hs

abbrev pub find_free_handler_index : List RegHandler → ℤ
find_free_handler_index hs = find_free_from 0 hs

-- A u32 counter's `++` and `--`.
abbrev pub inc_u32 : ℕ → ℕ
inc_u32 n = (n + 1) % 2 ^ 32

abbrev pub dec_u32 : ℕ → ℕ
dec_u32 n = (n + 2 ^ 32 - 1) % 2 ^ 32

module _ {W : Type 0} where
  -- The writes to g_handlers[index] and the counters once a free slot is found.
  unfoldable pub store_handler : Ptr → ℤ → Bool → ℕ → Sys W → ℤ × Sys W
  store_handler cb arg is_default i s = (
    pos i,
    record s {
      default_handler_index = if is_default then pos i else s.default_handler_index;
      handlers = set s.handlers i (record { cb = cb; arg = arg });
      handler_count = inc_u32 s.handler_count;
    },
  )

  unfoldable pub place_handler : Ptr → ℤ → Bool → ℤ → Sys W → ℤ × Sys W
  unfolding store_handler
  place_handler cb arg is_default (negsuc _) s = (err_max_handlers, s)
  place_handler cb arg is_default (pos i) s = store_handler cb arg is_default i s

  -- register_handler between the wait for the semaphore and `end`.
  unfoldable pub register_locked : Ptr → ℤ → Bool → Sys W → ℤ × Sys W
  unfolding place_handler find_free_from
  register_locked cb arg is_default s =
      if is_default && not (is_neg s.default_handler_index)
      then (s.default_handler_index, s)
      else if leb max_handlers s.handler_count
      then (err_max_handlers, s)
      else place_handler cb arg is_default (find_free_handler_index s.handlers) s

  -- The writes of unregister_handler to the slot `i`, which holds `h`.
  unfoldable pub clear_handler : ℕ → Option RegHandler → Sys W → ℤ × Sys W
  clear_handler i none s = (err_invalid_index, s)
  clear_handler i (some h) s = if h.cb == null then (err_no_handler, s) else (
    pos 0,
    record s {
      default_handler_index =
          if int_eq (pos i) s.default_handler_index then negsuc 0 else s.default_handler_index;
      handlers = set s.handlers i free_slot;
      handler_count = dec_u32 s.handler_count;
    },
  )

  -- unregister_handler between the wait for the semaphore and `end`.
  unfoldable pub unregister_locked : ℤ → Sys W → ℤ × Sys W
  unfolding clear_handler
  unregister_locked (negsuc _) s = (err_invalid_index, s)
  unregister_locked (pos i) s =
      if leb max_handlers i
      then (err_invalid_index, s)
      else clear_handler i (get_elem? s.handlers i) s

  module _ (p : Platform W) where
    -- sceKernelSignalSema at `end`: its error takes the place of the result.
    unfoldable pub unlock : ℤ × Sys W → ℤ × Sys W
    unlock (ret, s) =
        let (sret, w) = p.signal_sema s.semid s.world in
        (if is_neg sret then sret else ret, record s { world = w })

    -- The frame that register_handler and unregister_handler share: wait for the semaphore, run
    -- the body, signal the semaphore.
    unfoldable pub with_sema : (Sys W → ℤ × Sys W) → Sys W → ℤ × Sys W
    unfolding unlock
    with_sema body s =
        let (sret, w) = p.wait_sema s.semid s.world in
        if is_neg sret
        then (sret, record s { world = w })
        else unlock (body (record s { world = w }))

    unfoldable pub register_handler : Ptr → ℤ → Bool → Sys W → ℤ × Sys W
    unfolding is_started with_sema register_locked
    register_handler cb arg is_default s =
        if not (is_started s.state)
        then (err_not_started, s)
        else if cb == null
        then (err_invalid_argument, s)
        else with_sema (register_locked cb arg is_default) s

    unfoldable pub unregister_handler : ℤ → Sys W → ℤ × Sys W
    unfolding is_started with_sema unregister_locked
    unregister_handler index s =
        if not (is_started s.state)
        then (err_not_started, s)
        else with_sema (unregister_locked index) s
