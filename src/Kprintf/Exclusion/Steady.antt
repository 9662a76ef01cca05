-- ===== src/Kprintf/Exclusion/Steady.antt =====
-- What the steps of Interleave do to the semaphore and to the table of handlers.
use libkprintf.Prelude.{
  ℕ, Bool, ℤ, int_eq, List, ◌≤◌, ◌≡◌, ◌+◌, pos, true, ◌⊎◌, false, Bool-cases, inl, is_neg, inr,
  negsuc, ◌∷◌, arith, refl, ◌∙◌, subst,
}
use libkprintf.Kprintf.Interleave.{
  Pc, Step, arrive, no_flush, locked, at_msg, invoked, next_read, unhook, ask_end, wake, lock,
  refuse, read_head, invoke, read_next, remove, unlock_end, again, terminate,
}
use libkprintf.Platform.{Platform}
use libkprintf.Kprintf.{Sys, HandlerFlags, Ptr, Msg, null}
use libkprintf.Platform.Laws.{SemaLaws}
use libkprintf.Kprintf.Interleave.Texts.{Text, accepted}
use libkprintf.Kprintf.Interleave.Arrivals.{Arrived, kprintf_handler-Arrived}
use libkprintf.Kprintf.Interleave.Flags.{FlagLaws, Keeps, Delivers-Keeps}
use libkprintf.Kprintf.Queue.Chain.{IsQueue}
use libkprintf.Kprintf.Queue.{invoke_at, remove_delete_msg}
use libkprintf.Kprintf.Hook.{ev_flush, ev_stop_ok}
use libkprintf.Prelude.Run.{ok}
use libkprintf.Kprintf.History.Frames.{SameTable, message-SameTable}
use libkprintf.Kprintf.Interleave.Moves.{invoke-runs, remove-runs, remove-Keeps}
use libkprintf.Kprintf.Queue.Remove.{free_world}
use libkprintf.Kprintf.Dispatch.Order.{invoke-Delivers_iff}
use libkprintf.Kprintf.Interleave.Pending.{Inv}

-- The event thread is between its wait for the semaphore and its signal.
unfoldable pub locks : Pc → Bool
locks (locked ev) = true
locks (at_msg m ev) = true
locks (invoked m ev) = true
locks (next_read m next ev) = true
locks pc = false

-- Documented behaviour of the semaphore of g_semid, `units id w` the units that are left: besides
-- SemaLaws, a wait gives 0 or an error, a signal that fails changes nothing, and no call on another
-- object changes the units.
pub record UnitLaws {W : Type 0} (p : Platform W) (units : ℤ → W → ℕ) : Type 0 where
  pub sema : SemaLaws p units
  pub wait_result :
      (id : ℤ) (w : W)
      → int_eq (p.wait_sema id w).0 (pos 0) ≡ false
      → is_neg (p.wait_sema id w).0 ≡ true
  pub signal_fails :
      (id : ℤ) (w : W)
      → is_neg (p.signal_sema id w).0 ≡ true
      → units id (p.signal_sema id w).1 ≡ units id w
  pub at_wait_event :
      (id flag : ℤ) (bits : ℕ) (w : W) → units id (p.wait_event_flag flag bits w).1 ≡ units id w
  pub at_set_event :
      (id flag : ℤ) (bits : ℕ) (w : W) → units id (p.set_event_flag flag bits w) ≡ units id w
  pub keeps : (n : ℕ) → Keeps p (λ id w. units id w ≡ n)

module _ {W : Type 0} (units : ℤ → W → ℕ) where
  -- What is left of the semaphore.
  abbrev pub left : Sys W → ℕ
  left s = units s.semid s.world

module _ {W : Type 0} (p : Platform W) (units : ℤ → W → ℕ) (laws : UnitLaws p units) where
  pub signal-left : (id : ℤ) (w : W) → units id (p.signal_sema id w).1 ≤ units id w + 1
  signal-left id w = elim (Bool-cases (is_neg (p.signal_sema id w).0)) [
    | inl failed ↦ let x = laws.signal_fails id w failed in omega arith
    | inr gave ↦ let x = laws.sema.signal_gives id w gave in omega arith
  ]

  is_zero-good : (r : ℤ) → int_eq r (pos 0) ≡ true → is_neg r ≡ false
  is_zero-good (pos n) e = refl
  is_zero-good (negsuc n) e = absurd (cc)

  -- What a step of the event thread, a message or _stop does to the semaphore: nothing, or it is the
  -- event thread that takes it or gives it back.
  abbrev pub Moved : Pc → Sys W → Pc → Sys W → Type 0
  Moved pc s pc' s' =
      ((locks pc' ≡ locks pc) × (left units s' ≡ left units s))
      ⊎ (((locks pc' ≡ true) × (left units s' + 1 ≡ left units s))
          ⊎ ((locks pc ≡ true) × (locks pc' ≡ false) × (left units s' ≤ left units s + 1)))

  Arrived-left :
      (texts : List Text) (s s' : Sys W) (ms : List Ptr)
      → Arrived p texts s ms s'
      → left units s' ≡ left units s
  Arrived-left texts s s' ms (inl (q, ((evid, state, sem), inl still), kept)) = rw (sem, still) refl
  Arrived-left texts s s' ms (inl (q, ((evid, state, sem), inr (n, asked)), kept)) =
      rw (sem, asked) ((laws.keeps (left units s)).at_allocate s.semid s.vplid n s.world refl)
  Arrived-left texts s s' ms (inr (a, q, ((evid, state, sem), (n, marked)), added)) =
      rw (sem, marked)
        (laws.at_set_event s.semid s'.evid ev_flush _
          ∙ (laws.keeps (left units s)).at_allocate s.semid s.vplid n s.world refl)

  module _ (flags : HandlerFlags) (default_cb : Ptr) (flag : ℤ → W → Bool)
      (flaws : FlagLaws p flag) where
    invoke-left :
        (s s' : Sys W) (m : Ptr) (before : Msg)
        → invoke_at p flags default_cb m before s ≡ ok tt s'
        → (left units s' ≡ left units s) × SameTable s s'
    invoke-left s s' m before run =
        let (after, w, good, link, same) =
          invoke-runs p flags default_cb flag flaws s s' m before run in
        let delivers =
          (invoke-Delivers_iff p flags default_cb s.handlers before after s.world w).0 good in
        let n : ℕ = left units s in
        let kept : units s.semid w ≡ left units s =
          Delivers-Keeps p flags default_cb (λ id v. units id v ≡ n) (laws.keeps n) s.semid delivers
            refl in
        subst (λ (t : Sys W). (left units t ≡ left units s) × SameTable s t) same
          (kept, (refl, refl, refl))

    remove-left :
        (s s' : Sys W) (m : Ptr) (rest : List Ptr) (fuel : ℕ) (ret : ℤ)
        → IsQueue s (m ∷ rest)
        → remove_delete_msg p fuel m s ≡ ok ret s'
        → (left units s' ≡ left units s) × SameTable s s'
    remove-left s s' m rest fuel ret q run =
        let (next, c, same) =
          remove-runs p flags default_cb flag flaws s s' m rest fuel ret q run in
        let n : ℕ = left units s in
        let kept : units s.semid (free_world p s m) ≡ left units s =
          remove-Keeps p (λ id v. units id v ≡ n) (laws.keeps n) s.semid s m refl in
        subst (λ (t : Sys W). (left units t ≡ left units s) × SameTable s t) same
          (kept, (refl, refl, refl))

    -- Every step of Interleave leaves the table alone and treats the semaphore as it should.
    pub Step-Moved :
        {pc pc' : Pc} {s s' : Sys W}
        → Step p flags default_cb pc s pc' s'
        → Inv p flags default_cb flag flaws pc s
        → Moved pc s pc' s' × SameTable s s'
    unfolding locks
    Step-Moved {s = s} {s' = s'} (arrive fuel fmt va is_user ret gives run) (ms, q, k) = (
      inl (
        refl,
        Arrived-left (accepted p fmt va is_user s) s s' ms
            (kprintf_handler-Arrived p fuel s ms q fmt va is_user ret s' gives run),
      ),
      message-SameTable p fuel fmt va is_user ret s s' run,
    )
    Step-Moved (unhook {s} on) k = (
      inl (refl, (laws.keeps (left units s)).at_hook s.semid null s.world refl),
      (refl, refl, refl),
    )
    Step-Moved (ask_end {s} off) k =
        (inl (refl, laws.at_set_event s.semid s.evid _ s.world), (refl, refl, refl))
    Step-Moved (wake {s} found after) k =
        rw after (inl (refl, laws.at_wait_event s.semid s.evid _ s.world), (refl, refl, refl))
    Step-Moved (no_flush none_found) k = (inl (refl, refl), (refl, refl, refl))
    Step-Moved (lock {s} found taken) k = (
      inr (inl (refl, laws.sema.wait_takes s.semid s.world (is_zero-good _ taken))),
      (refl, refl, refl),
    )
    Step-Moved (refuse {s} found refused after) k =
        let failed =
          laws.sema.wait_fails s.semid s.world (laws.wait_result s.semid s.world refused) in
        rw after (
          inl (
            refl,
            (laws.keeps (left units s)).at_delay s.semid 1000 _
                (laws.at_set_event s.semid s.evid ev_flush _ ∙ failed),
          ),
          (refl, refl, refl),
        )
    Step-Moved read_head k = (inl (refl, refl), (refl, refl, refl))
    Step-Moved (invoke {s} {s'} {m} before ne at run) k =
        let (kept, table) = invoke-left s s' m before run in (inl (refl, kept), table)
    Step-Moved (read_next after at) k = (inl (refl, refl), (refl, refl, refl))
    Step-Moved (remove {s} {s'} {m} fuel ret run) (ms, q, (rest, front, k)) =
        let (kept, table) = remove-left s s' m rest fuel ret (subst (IsQueue s) front q) run in
        (inl (refl, kept), table)
    Step-Moved (unlock_end {s} e) k =
        (inr (inr (refl, refl, signal-left s.semid s.world)), (refl, refl, refl))
    Step-Moved (again goes_on) k = (inl (refl, refl), (refl, refl, refl))
    Step-Moved (terminate {s} ends) k =
        (inl (refl, laws.at_set_event s.semid s.evid ev_stop_ok s.world), (refl, refl, refl))
