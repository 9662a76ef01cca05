-- ===== src/Kprintf/Exclusion.antt =====
-- handler.c, event.c and startup.c together: any number of threads in register_handler and
-- unregister_handler, one access of the table at a time, among the steps of Interleave. What keeps
-- them apart is the semaphore g_semid.
pub mod Mutex
pub mod Choices
pub mod Steady
pub mod Parties
pub mod Invariant
pub mod Safety
pub mod Serial
pub mod Channel
pub mod Progress
use libkprintf.Prelude.{
  ℕ, ◌≡◌, ◌≢◌, Bool, true, false, ◌&&◌, not, Option, none, some, ℤ, pos, negsuc, is_neg, leb, ◌==◌,
  int_eq, if◌then◌else◌, get_elem?, set, ◌⊎◌, inl, inr,
}
use libkprintf.Platform.{Platform}
use libkprintf.Kprintf.{
  Ptr, HandlerFlags, Sys, null, RegHandler, is_started, free_slot, max_handlers, err_max_handlers,
  err_invalid_index, err_no_handler,
}
use libkprintf.Kprintf.Handlers.{find_free_handler_index, store_handler, dec_u32}
use libkprintf.Kprintf.Interleave
use libkprintf.Kprintf.Interleave.{Pc, waiting}

-- A call of register_handler or of unregister_handler.
pub data Request : Type 0 where
  register : (cb : Ptr) (arg : ℤ) (is_default : Bool) → Request
  unregister : (index : ℤ) → Request

-- What find_free_handler_index gives, and the slot of unregister_handler: the slot, or the result of
-- the call.
unfoldable pub slot_of : ℤ → ℤ ⊎ ℕ
slot_of (pos i) = inr i
slot_of (negsuc n) = inl err_max_handlers

unfoldable pub used_slot : ℕ → Option RegHandler → ℤ ⊎ ℕ
used_slot i none = inl err_invalid_index
used_slot i (some h) = if h.cb == null then inl err_no_handler else inr i

module _ {W : Type 0} where
  -- The tests of unregister_handler, and its writes to the slot `i`.
  unfoldable pub choose_used : ℤ → Sys W → ℤ ⊎ ℕ
  unfolding used_slot
  choose_used (negsuc n) s = inl err_invalid_index
  choose_used (pos i) s =
      if leb max_handlers i then inl err_invalid_index else used_slot i (get_elem? s.handlers i)

  unfoldable pub clear_slot : ℕ → Sys W → ℤ × Sys W
  clear_slot i s = (
    pos 0,
    record s {
      default_handler_index =
          if int_eq (pos i) s.default_handler_index then negsuc 0 else s.default_handler_index;
      handlers = set s.handlers i free_slot;
      handler_count = dec_u32 s.handler_count;
    },
  )

  -- The tests behind the wait for the semaphore: the slot that is going to be written, or the result
  -- with which the call goes to `end`.
  unfoldable pub choose : Request → Sys W → ℤ ⊎ ℕ
  unfolding slot_of choose_used
  choose (register cb arg is_default) s =
      if is_default && not (is_neg s.default_handler_index)
      then inl s.default_handler_index
      else if leb max_handlers s.handler_count
      then inl err_max_handlers
      else slot_of (find_free_handler_index s.handlers)
  choose (unregister index) s = choose_used index s

  -- The writes to that slot and to the counters, and the result.
  unfoldable pub commit : Request → ℕ → Sys W → ℤ × Sys W
  unfolding store_handler clear_slot
  commit (register cb arg is_default) i s = store_handler cb arg is_default i s
  commit (unregister index) i s = clear_slot i s

-- Where a thread stands in its call.
pub data Stage : Type 0 where
  outside : Stage
  asking : (r : Request) → Stage  -- before sceKernelWaitSema
  testing : (r : Request) → Stage  -- behind it
  writing : (r : Request) (i : ℕ) → Stage  -- the slot `i` is chosen
  leaving : (ret : ℤ) → Stage  -- at `end`

-- The threads by number, once one of them has moved on.
unfoldable pub advance : (ℕ → Stage) → ℕ → Stage → ℕ → Stage
advance cs i st j = if j == i then st else cs j

-- The test of the arguments.
abbrev pub IsGiven : Request → Type 0
IsGiven (register cb arg is_default) = cb ≢ null
IsGiven (unregister index) = Unit

module _ {W : Type 0} (p : Platform W) (flags : HandlerFlags) (default_cb : Ptr) where
  pub data Step : Pc → (ℕ → Stage) → Sys W → Pc → (ℕ → Stage) → Sys W → Type 0 where
    -- the event thread, a message or _stop
    meanwhile :
        {pc pc' : Pc} {cs : ℕ → Stage} {s s' : Sys W}
        → Interleave.Step p flags default_cb pc s pc' s'
        → Step pc cs s pc' cs s'
    enter :
        {pc : Pc} {cs : ℕ → Stage} {s : Sys W} (i : ℕ) (r : Request)
        → cs i ≡ outside
        → is_started s.state ≡ true
        → IsGiven r
        → Step pc cs s pc (advance cs i (asking r)) s
    acquire :
        {pc : Pc} {cs : ℕ → Stage} {s : Sys W} (i : ℕ) (r : Request)
        → cs i ≡ asking r
        → is_neg (p.wait_sema s.semid s.world).0 ≡ false
        → Step pc cs s pc
            (advance cs i (testing r))
            (record s { world = (p.wait_sema s.semid s.world).1 })
    give_up :
        {pc : Pc} {cs : ℕ → Stage} {s : Sys W} (i : ℕ) (r : Request)
        → cs i ≡ asking r
        → is_neg (p.wait_sema s.semid s.world).0 ≡ true
        → Step pc cs s pc
            (advance cs i outside)
            (record s { world = (p.wait_sema s.semid s.world).1 })
    reject :
        {pc : Pc} {cs : ℕ → Stage} {s : Sys W} (i : ℕ) (r : Request) (ret : ℤ)
        → cs i ≡ testing r
        → choose r s ≡ inl ret
        → Step pc cs s pc (advance cs i (leaving ret)) s
    pick :
        {pc : Pc} {cs : ℕ → Stage} {s : Sys W} (i : ℕ) (r : Request) (slot : ℕ)
        → cs i ≡ testing r
        → choose r s ≡ inr slot
        → Step pc cs s pc (advance cs i (writing r slot)) s
    put :
        {pc : Pc} {cs : ℕ → Stage} {s s' : Sys W} (i : ℕ) (r : Request) (slot : ℕ) (ret : ℤ)
        → cs i ≡ writing r slot
        → commit r slot s ≡ (ret, s')
        → Step pc cs s pc (advance cs i (leaving ret)) s'
    leave :
        {pc : Pc} {cs : ℕ → Stage} {s : Sys W} (i : ℕ) (ret : ℤ)
        → cs i ≡ leaving ret
        → Step pc cs s pc
            (advance cs i outside)
            (record s { world = (p.signal_sema s.semid s.world).1 })

  -- What can follow from the state in which the event thread first waits, with no thread in a call.
  pub data Reach (start : Sys W) : Pc → (ℕ → Stage) → Sys W → Type 0 where
    begin : Reach start waiting (λ i. outside) start
    later :
        {pc pc' : Pc} {cs cs' : ℕ → Stage} {s s' : Sys W}
        → Reach start pc cs s
        → Step pc cs s pc' cs' s'
        → Reach start pc' cs' s'
