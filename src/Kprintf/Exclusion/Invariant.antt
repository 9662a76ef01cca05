-- ===== src/Kprintf/Exclusion/Invariant.antt =====
-- What every step of Exclusion keeps: of the queue, the semaphore, the table and the threads.
use libkprintf.Prelude.{
  ℕ, ℤ, Bool, ◌≡◌, [], true, suc, ◌≤◌, arith, inl, zero, subst, refl, sym, ◌∙◌, ap, inr, ◌≢◌,
}
use libkprintf.Platform.{Platform}
use libkprintf.Kprintf.{HandlerFlags, Ptr, Sys}
use libkprintf.Kprintf.Interleave.Flags.{FlagLaws}
use libkprintf.Kprintf.Exclusion.Steady.{UnitLaws, left, locks, Step-Moved, signal-left}
use libkprintf.Kprintf.Exclusion.Parties.{
  holds, party, Fits, AllFit, advance-same, AllFit-advance, AllFit-same, AllFit-alone, advance_self,
  advance-Others, advance-party,
}
use libkprintf.Kprintf.Interleave.{Pc, waiting}
use libkprintf.Kprintf.Exclusion.{
  Stage, Step, Request, writing, meanwhile, enter, advance, Reach, asking, leaving, commit, begin,
  later, acquire, give_up, reject, pick, put, leave, testing, outside,
}
use libkprintf.Kprintf.Queue.Chain.{IsQueue}
use libkprintf.Kprintf.Interleave.Safety.{Holds, Step-Inv}
use libkprintf.Kprintf.Handlers.Cases.{IsTable}
use libkprintf.Kprintf.Exclusion.Mutex.{Mutex, Mutex-same, Others, Mutex-take, Mutex-release}
use libkprintf.Kprintf.Interleave.Pending.{arrive-Inv}
use libkprintf.Kprintf.Exclusion.Choices.{
  commit-frame, decided-whole, decided, whole, whole-IsTable,
}
use libkprintf.Kprintf.Interleave.Moves.{IsQueue-world}
use libkprintf.Kprintf.Handlers.Invariant.{IsTable-world}
use libkprintf.Kprintf.History.Tables.{IsTable-same}

module _ {W : Type 0} (p : Platform W) (flags : HandlerFlags) (default_cb : Ptr)
    (flag : ℤ → W → Bool) (flaws : FlagLaws p flag) (units : ℤ → W → ℕ)
    (laws : UnitLaws p units) where
  pub record Guarded (pc : Pc) (cs : ℕ → Stage) (s : Sys W) : Type 0 where
    pub queue : Holds p flags default_cb flag flaws pc s
    pub held : Mutex (party pc cs) (left units s)
    pub table : IsTable s
    pub fits : AllFit cs s

  -- A thread moves on and nothing but the platform changes.
  world-Guarded :
      (pc : Pc) (cs : ℕ → Stage) (i : ℕ) (st : Stage) (s : Sys W) (w : W)
      → (flag s.evid s.world ≡ true → flag s.evid w ≡ true)
      → Guarded pc cs s
      → Mutex (party pc (advance cs i st)) (units s.semid w)
      → Fits st (record s { world = w })
      → Guarded pc (advance cs i st) (record s { world = w })
  world-Guarded pc cs i st s w due g held f =
      let s' : Sys W = record s { world = w } in
      let (ms, q, k) = g.queue in
      record {
        queue =
            arrive-Inv p flags default_cb flag flaws pc s s' ms k
              (inl (IsQueue-world s w ms q, due));
        held = held;
        table = IsTable-world w g.table;
        fits = AllFit-advance cs i st s' (AllFit-same cs s s' (refl, refl, refl) g.fits) f;
      }

  -- The thread stays on its side of the semaphore.
  idle-Guarded :
      (pc : Pc) (cs : ℕ → Stage) (i : ℕ) (st : Stage) (s : Sys W)
      → holds st ≡ holds (cs i)
      → Guarded pc cs s
      → Fits st s
      → Guarded pc (advance cs i st) s
  idle-Guarded pc cs i st s same g f = record {
    queue = g.queue;
    held = Mutex-same _ _ _ _ g.held (advance-same pc cs i st same) refl;
    table = g.table;
    fits = AllFit-advance cs i st s g.fits f;
  }

  alone_in :
      (pc : Pc) (cs : ℕ → Stage) (i : ℕ) (s : Sys W)
      → Guarded pc cs s
      → holds (cs i) ≡ true
      → (j : ℕ) → holds (cs j) ≡ true
      → j ≡ i
  unfolding party
  alone_in pc cs i s g in_ j in_j =
      let e : ◌≡◌ {A = ℕ} (suc j) (suc i) = g.held.alone (suc j) (suc i) in_j in_ in omega arith

  -- The writes.
  put-Guarded :
      (pc : Pc) (cs : ℕ → Stage) (i : ℕ) (r : Request) (k : ℕ) (s : Sys W)
      → cs i ≡ writing r k
      → Guarded pc cs s
      → Guarded pc (advance cs i (leaving (commit r k s).0)) (commit r k s).1
  unfolding party
  put-Guarded pc cs i r k s at g =
      let s' : Sys W = (commit r k s).1 in
      let gone : Stage = leaving (commit r k s).0 in
      let frame = commit-frame r k s in
      let (given, chosen) = subst (λ x. Fits x s) at (g.fits i) in
      let done : commit r k s ≡ whole r s =
        ap (λ c. decided r c s) (sym chosen) ∙ decided-whole r s in
      let (ms, q, known) = g.queue in
      let in_ : holds (cs i) ≡ true = rw at refl in
      let cs' : ℕ → Stage = advance cs i gone in
      let alone' : (j : ℕ) → holds (cs' j) ≡ true → j ≡ i = λ j in_j.
        alone_in pc cs i s g in_ j (sym (advance-same pc cs i gone (sym in_) (suc j)) ∙ in_j) in
      record {
        queue = subst (Holds p flags default_cb flag flaws pc) (sym frame) (
            arrive-Inv p flags default_cb flag flaws pc s _ ms known
              (inl (record { chain = q.chain; distinct = q.distinct }, λ due. due)));
        held =
            Mutex-same _ _ _ _ g.held (advance-same pc cs i gone (sym in_)) (ap (left units) frame);
        table = subst (λ (x : ℤ × Sys W). IsTable x.1) (sym done) (whole-IsTable r s given g.table);
        fits =
            AllFit-alone cs' i s s' alone'
              (subst (λ x. Fits x s') (sym (advance_self cs i gone)) tt)
              (AllFit-advance cs i gone s g.fits tt);
      }

  threads_same :
      (pc pc' : Pc) (cs : ℕ → Stage)
      → locks pc' ≡ locks pc
      → (j : ℕ) → party pc' cs j ≡ party pc cs j
  unfolding party
  threads_same pc pc' cs e zero = e
  threads_same pc pc' cs e (suc i) = refl

  start_outside : (j : ℕ) → party waiting (λ i. outside) j ≢ true
  unfolding party locks holds
  start_outside zero in_ = cc
  start_outside (suc i) in_ = cc

  other-Guarded :
      (pc pc' : Pc) (cs : ℕ → Stage) (s s' : Sys W)
      → libkprintf.Kprintf.Interleave.Step p flags default_cb pc s pc' s'
      → Guarded pc cs s
      → Guarded pc' cs s'
  unfolding party
  other-Guarded pc pc' cs s s' step g =
      let (moved, same) = Step-Moved p units laws flags default_cb flag flaws step g.queue in
      record {
        queue = Step-Inv p flags default_cb flag flaws step g.queue;
        held = elim moved [
          | inl (e, u) ↦ Mutex-same _ _ _ _ g.held (threads_same pc pc' cs e) u
          | inr (inl (e, u)) ↦ Mutex-take _ _ _ _ g.held 0 (others pc pc' cs) u
          | inr (inr (was, out, u)) ↦ Mutex-release _ _ _ _ g.held 0 (others pc pc' cs) was out u
        ];
        table = IsTable-same s s' same g.table;
        fits = AllFit-same cs s s' same g.fits;
      }
    where
      others : (a b : Pc) (ds : ℕ → Stage) → Others 0 (party a ds) (party b ds)
      others a b ds zero ne = absurd (ne refl)
      others a b ds (suc i) ne = refl

  Step-Guarded :
      {pc pc' : Pc} {cs cs' : ℕ → Stage} {s s' : Sys W}
      → Step p flags default_cb pc cs s pc' cs' s'
      → Guarded pc cs s
      → Guarded pc' cs' s'
  unfolding holds party
  Step-Guarded {pc} {pc'} {cs} {cs'} {s} {s'} (meanwhile step) g =
      other-Guarded pc pc' cs s s' step g
  Step-Guarded {pc} (enter {cs} {s} i r at on given) g =
      idle-Guarded pc cs i (asking r) s (rw at refl) g given
  Step-Guarded {pc} (acquire {cs} {s} i r at got) g =
      world-Guarded pc cs i (testing r) s _ (flaws.at_wait_sema s.evid s.semid s.world) g
        (Mutex-take _ _ _ _ g.held (suc i) (advance-Others pc cs i (testing r))
          (laws.sema.wait_takes s.semid s.world got))
        (subst (λ x. Fits x s) at (g.fits i))
  Step-Guarded {pc} (give_up {cs} {s} i r at failed) g =
      world-Guarded pc cs i outside s _ (flaws.at_wait_sema s.evid s.semid s.world) g
        (Mutex-same _ _ _ _ g.held (advance-same pc cs i outside (rw at refl))
          (laws.sema.wait_fails s.semid s.world failed))
        tt
  Step-Guarded {pc} (reject {cs} {s} i r ret at no_slot) g =
      idle-Guarded pc cs i (leaving ret) s (rw at refl) g tt
  Step-Guarded {pc} (pick {cs} {s} i r slot at chosen) g =
      idle-Guarded pc cs i (writing r slot) s (rw at refl) g
        (subst (λ x. Fits x s) at (g.fits i), chosen)
  Step-Guarded {pc} (put {cs} {s} i r slot ret at run) g =
      subst (λ (x : ℤ × Sys W). Guarded pc (advance cs i (leaving x.0)) x.1) run
        (put-Guarded pc cs i r slot s at g)
  Step-Guarded {pc} (leave {cs} {s} i ret at) g =
      world-Guarded pc cs i outside s _ (flaws.at_signal_sema s.evid s.semid s.world) g
        (Mutex-release _ _ _ _ g.held (suc i) (advance-Others pc cs i outside) (ap holds at)
          (advance-party pc cs i outside) (signal-left p units laws s.semid s.world))
        tt

  module _ {start : Sys W} (q : IsQueue start []) (t : IsTable start)
      (one : units start.semid start.world ≤ 1) where
    pub Reach-Guarded :
        {pc : Pc} {cs : ℕ → Stage} {s : Sys W}
        → Reach p flags default_cb start pc cs s
        → Guarded pc cs s
    Reach-Guarded begin = record {
      queue = ([], q, inl refl);
      held = record {
        one_unit = one;
        taken = λ k in_. absurd (start_outside k in_);
        alone = λ j k in_ x. absurd (start_outside j in_);
      };
      table = t;
      fits = λ j. tt;
    }
    Reach-Guarded (later r step) = Step-Guarded step (Reach-Guarded r)
