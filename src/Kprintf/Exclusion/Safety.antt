-- ===== src/Kprintf/Exclusion/Safety.antt =====
-- Nobody meets anybody else under the semaphore, in every order of the steps of Exclusion.
use libkprintf.Prelude.{
  ℕ, ℤ, Bool, ◌≡◌, [], true, suc, ◌≤◌, arith, inl, refl, sym, ◌∙◌, ap, inr, ◌≢◌, false, Bool-cases,
}
use libkprintf.Platform.{Platform}
use libkprintf.Kprintf.{HandlerFlags, Ptr, Sys}
use libkprintf.Kprintf.Interleave.Flags.{FlagLaws}
use libkprintf.Kprintf.Exclusion.Steady.{UnitLaws, locks, Step-Moved}
use libkprintf.Kprintf.Exclusion.Parties.{holds, party}
use libkprintf.Kprintf.Interleave.{Pc}
use libkprintf.Kprintf.Exclusion.{
  Stage, Step, meanwhile, enter, Reach, acquire, give_up, reject, pick, put, leave,
}
use libkprintf.Kprintf.Queue.Chain.{IsQueue}
use libkprintf.Kprintf.Handlers.Cases.{IsTable}
use libkprintf.Kprintf.History.Frames.{SameTable}
use libkprintf.Kprintf.Exclusion.Invariant.{Guarded, Reach-Guarded}

module _ {W : Type 0} (p : Platform W) (flags : HandlerFlags) (default_cb : Ptr)
    (flag : ℤ → W → Bool) (flaws : FlagLaws p flag) (units : ℤ → W → ℕ) (laws : UnitLaws p units)
    {start : Sys W} (q : IsQueue start []) (t : IsTable start)
    (one : units start.semid start.world ≤ 1) where
  guarded :
      {pc : Pc} {cs : ℕ → Stage} {s : Sys W}
      → Reach p flags default_cb start pc cs s
      → Guarded p flags default_cb flag flaws units laws pc cs s
  guarded r = Reach-Guarded p flags default_cb flag flaws units laws q t one r

  -- From an empty queue, a well-formed table and a semaphore of at most one unit, in every order
  -- of the steps of the event thread, of arriving messages, of _stop and of any number of threads
  -- in register_handler and unregister_handler, on a kernel that keeps the laws of FlagLaws and
  -- UnitLaws and whose pool gives blocks that are not in use: while one of them, the event
  -- thread included, is between its wait for the semaphore and its signal, no other one is.
  pub exclusive :
      {pc : Pc} {cs : ℕ → Stage} {s : Sys W}
      → Reach p flags default_cb start pc cs s
      → (j k : ℕ) → j ≢ k
      → party pc cs j ≡ true
      → party pc cs k ≡ false
  exclusive {pc} {cs} r j k apart in_ = elim (Bool-cases (party pc cs k)) [
    | inl both ↦ absurd (apart ((guarded r).held.alone j k in_ both))
    | inr out ↦ out
  ]

  -- From an empty queue, a well-formed table and a semaphore of at most one unit, in every order
  -- of the steps of the event thread, of arriving messages, of _stop and of any number of threads
  -- in register_handler and unregister_handler, on a kernel that keeps the laws of FlagLaws and
  -- UnitLaws and whose pool gives blocks that are not in use: while the event thread is in
  -- flush_messages, with the semaphore, no step of anyone changes the table of handlers, its counter
  -- or the default handler's index.
  pub locks-SameTable :
      {pc pc' : Pc} {cs cs' : ℕ → Stage} {s s' : Sys W}
      → Reach p flags default_cb start pc cs s
      → Step p flags default_cb pc cs s pc' cs' s'
      → locks pc ≡ true
      → SameTable s s'
  unfolding party holds
  locks-SameTable r (meanwhile step) in_ =
      (Step-Moved p units laws flags default_cb flag flaws step (guarded r).queue).1
  locks-SameTable r (enter i req at on given) in_ = (refl, refl, refl)
  locks-SameTable r (acquire i req at got) in_ = (refl, refl, refl)
  locks-SameTable r (give_up i req at failed) in_ = (refl, refl, refl)
  locks-SameTable r (reject i req ret at no_slot) in_ = (refl, refl, refl)
  locks-SameTable r (pick i req slot at chosen) in_ = (refl, refl, refl)
  locks-SameTable {pc} r (put {cs} i req slot ret at run) in_ =
      let out : party pc cs (suc i) ≡ false = exclusive r 0 (suc i) (omega arith) in_ in
      absurd (let x : true ≡ false = sym (ap holds at) ∙ out in cc)
  locks-SameTable r (leave i ret at) in_ = (refl, refl, refl)
