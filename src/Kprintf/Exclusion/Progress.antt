-- ===== src/Kprintf/Exclusion/Progress.antt =====
-- A thread that has the semaphore is never stuck.
use libkprintf.Prelude.{
  ℕ, ℤ, Bool, [], ◌≤◌, is_neg, ◌≡◌, false, ◌⊎◌, true, refl, ◌≢◌, suc, inl, ap, arith, inr,
}
use libkprintf.Platform.{Platform}
use libkprintf.Kprintf.{HandlerFlags, Ptr, Sys}
use libkprintf.Kprintf.Interleave.Flags.{FlagLaws}
use libkprintf.Kprintf.Exclusion.Steady.{UnitLaws}
use libkprintf.Kprintf.Queue.Chain.{IsQueue}
use libkprintf.Kprintf.Handlers.Cases.{IsTable}
use libkprintf.Kprintf.Exclusion.Parties.{party, holds, advance_ne, advance_self}
use libkprintf.Kprintf.Interleave.{Pc}
use libkprintf.Kprintf.Exclusion.{
  Stage, advance, Request, Reach, writing, leaving, outside, testing, commit, asking, choose, put,
  leave, reject, pick, later, Step,
}
use libkprintf.Kprintf.Exclusion.Invariant.{Reach-Guarded}

module _ {W : Type 0} (p : Platform W) (flags : HandlerFlags) (default_cb : Ptr) (pc : Pc)
    (i : ℕ) where
  -- What can follow while the event thread and all threads but `i` stay where they are.
  pub data Runs : (ℕ → Stage) → Sys W → (ℕ → Stage) → Sys W → Type 0 where
    done : {cs : ℕ → Stage} {s : Sys W} → Runs cs s cs s
    onward :
        {cs cs' cs'' : ℕ → Stage} {s s' s'' : Sys W}
        → Step p flags default_cb pc cs s pc cs' s'
        → ((j : ℕ) → j ≢ i → cs' j ≡ cs j)
        → Runs cs' s' cs'' s''
        → Runs cs s cs'' s''

  -- The call of the thread `i` can come to its end, with the semaphore free.
  abbrev pub Finishes : (ℤ → W → ℕ) → (ℕ → Stage) → Sys W → Type 0
  Finishes units cs s =
      (cs' : ℕ → Stage) × (s' : Sys W) × Runs cs s cs' s'
      × (cs' i ≡ outside)
      × (units s'.semid s'.world ≡ 1)

  -- One more step of the thread before that.
  one_more :
      (units : ℤ → W → ℕ) (cs : ℕ → Stage) (st : Stage) (s s' : Sys W)
      → Step p flags default_cb pc cs s pc (advance cs i st) s'
      → Finishes units (advance cs i st) s'
      → Finishes units cs s
  one_more units cs st s s' step (cs', s'', runs, out, free) =
      (cs', s'', onward step (λ j ne. advance_ne cs i j st ne) runs, out, free)

module _ {W : Type 0} (p : Platform W) (flags : HandlerFlags) (default_cb : Ptr)
    (flag : ℤ → W → Bool) (flaws : FlagLaws p flag) (units : ℤ → W → ℕ) (laws : UnitLaws p units)
    {start : Sys W} (q : IsQueue start []) (t : IsTable start)
    (one : units start.semid start.world ≤ 1)
    (signals : (id : ℤ) (w : W) → is_neg (p.signal_sema id w).0 ≡ false) where
  leaves :
      {pc : Pc} {cs : ℕ → Stage} {s : Sys W} (i : ℕ) (ret : ℤ)
      → Reach p flags default_cb start pc cs s
      → cs i ≡ leaving ret
      → Finishes p flags default_cb pc i units cs s
  unfolding party holds
  leaves {pc} {cs} {s} i ret r at =
      let g = Reach-Guarded p flags default_cb flag flaws units laws q t one r in
      let none_left : units s.semid s.world ≡ 0 = g.held.taken (suc i) (ap holds at) in
      let gave = laws.sema.signal_gives s.semid s.world (signals s.semid s.world) in
      one_more p flags default_cb pc i units cs outside s _ (leave i ret at)
        (advance cs i outside, _, done, advance_self cs i outside, omega arith)

  puts :
      {pc : Pc} {cs : ℕ → Stage} {s : Sys W} (i : ℕ) (req : Request) (k : ℕ)
      → Reach p flags default_cb start pc cs s
      → cs i ≡ writing req k
      → Finishes p flags default_cb pc i units cs s
  puts {pc} {cs} {s} i req k r at =
      let (ret, s') = commit req k s in
      let step : Step p flags default_cb pc cs s pc (advance cs i (leaving ret)) s' =
        put i req k ret at refl in
      one_more p flags default_cb pc i units cs (leaving ret) s s' step
        (leaves i ret (later r step) (advance_self cs i (leaving ret)))

  decides :
      {pc : Pc} {cs : ℕ → Stage} {s : Sys W} (i : ℕ) (req : Request) (c : ℤ ⊎ ℕ)
      → Reach p flags default_cb start pc cs s
      → cs i ≡ testing req
      → choose req s ≡ c
      → Finishes p flags default_cb pc i units cs s
  decides {pc} {cs} {s} i req (inl ret) r at chosen =
      let step = reject i req ret at chosen in
      one_more p flags default_cb pc i units cs (leaving ret) s s step
        (leaves i ret (later r step) (advance_self cs i (leaving ret)))
  decides {pc} {cs} {s} i req (inr k) r at chosen =
      let step = pick i req k at chosen in
      one_more p flags default_cb pc i units cs (writing req k) s s step
        (puts i req k (later r step) (advance_self cs i (writing req k)))

  finishes :
      {pc : Pc} {cs : ℕ → Stage} {s : Sys W} (i : ℕ) (st : Stage)
      → Reach p flags default_cb start pc cs s
      → cs i ≡ st
      → holds st ≡ true
      → Finishes p flags default_cb pc i units cs s
  unfolding holds
  finishes i outside r at in_ = absurd (cc)
  finishes i (asking req) r at in_ = absurd (cc)
  finishes {s = s} i (testing req) r at in_ = decides i req (choose req s) r at refl
  finishes i (writing req k) r at in_ = puts i req k r at
  finishes i (leaving ret) r at in_ = leaves i ret r at

  -- From an empty queue, a well-formed table and a semaphore of at most one unit, in every order
  -- of the steps of the event thread, of arriving messages, of _stop and of any number of threads
  -- in register_handler and unregister_handler, on a kernel that keeps the laws of FlagLaws and
  -- UnitLaws, where signalling the semaphore never fails and whose pool gives blocks that are not in
  -- use: wherever a thread has the semaphore, there is a way on, on which the event thread and the
  -- other threads stay where they are, to a state in which the thread's call is over and the
  -- semaphore has one unit.
  pub holds-Finishes :
      {pc : Pc} {cs : ℕ → Stage} {s : Sys W} (i : ℕ)
      → Reach p flags default_cb start pc cs s
      → holds (cs i) ≡ true
      → Finishes p flags default_cb pc i units cs s
  holds-Finishes {cs = cs} i r in_ = finishes i (cs i) r refl in_
