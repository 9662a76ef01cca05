-- ===== src/Kprintf/Exclusion/Serial.antt =====
-- handler.c: what any number of calls of register_handler and unregister_handler, among each other
-- and among the other steps, leave in the table: what they leave one after the other.
use libkprintf.Prelude.{ℕ, List, ◌∷◌, ◌∙◌, ℤ, [], ◌≡◌, refl, Bool, subst, ◌≤◌, ◌⊎◌, inl, inr}
use libkprintf.Kprintf.{Sys, HandlerFlags, Ptr}
use libkprintf.Kprintf.Exclusion.{
  begin, later, Request, choose, Stage, Reach, meanwhile, put, begin, enter, acquire, give_up,
  reject, pick, leave,
}
use libkprintf.Platform.{Platform}
use libkprintf.Kprintf.History.Frames.{SameTable}
use libkprintf.Kprintf.Exclusion.Choices.{whole, decided, decided-serial}
use libkprintf.Kprintf.Interleave.Flags.{FlagLaws}
use libkprintf.Kprintf.Exclusion.Steady.{UnitLaws, Step-Moved}
use libkprintf.Kprintf.Queue.Chain.{IsQueue}
use libkprintf.Kprintf.Interleave.{Pc}
use libkprintf.Kprintf.Handlers.Cases.{IsTable}
use libkprintf.Kprintf.Exclusion.Invariant.{Reach-Guarded}
use libkprintf.Kprintf.Exclusion.Parties.{Fits}

module _ {W : Type 0} where
  -- Calls with their results, the last one first: the calls one after the other,
  abbrev pub replay : List (Request × ℤ) → Sys W → Sys W
  replay [] s = s
  replay ((r, ret) ∷ rs) s = (whole r (replay rs s)).1

  -- and that these are their results then.
  abbrev pub Answers : List (Request × ℤ) → Sys W → Type 0
  Answers [] s = Unit
  Answers ((r, ret) ∷ rs) s = (ret ≡ (whole r (replay rs s)).0) × Answers rs s

  -- So they lead to the table of `s`.
  abbrev pub Leads : List (Request × ℤ) → Sys W → Sys W → Type 0
  Leads rs start s = SameTable (replay rs start) s × Answers rs start

  Leads-same :
      (rs : List (Request × ℤ)) (start s t : Sys W)
      → Leads rs start s
      → SameTable s t
      → Leads rs start t
  Leads-same rs start s t ((a, b, c), answers) (d, e, f) = ((d ∙ a, e ∙ b, f ∙ c), answers)

  Leads-decided :
      (r : Request) (c : ℤ ⊎ ℕ) (rs : List (Request × ℤ)) (start s : Sys W)
      → choose r s ≡ c
      → Leads rs start s
      → Leads ((r, (decided r c s).0) ∷ rs) start (decided r c s).1
  Leads-decided r c rs start s chosen (same, answers) =
      let (ret, table) = decided-serial r c (replay rs start) s same chosen in
      (table, (ret, answers))

module _ {W : Type 0} (p : Platform W) (flags : HandlerFlags) (default_cb : Ptr)
    {start : Sys W} where
  -- The calls in the order in which they have done what they do under the semaphore, the last one
  -- first, with their results.
  abbrev pub answered :
      {pc : Pc} {cs : ℕ → Stage} {s : Sys W}
      → Reach p flags default_cb start pc cs s
      → List (Request × ℤ)
  answered begin = []
  answered (later r (put i req slot ret at run)) = (req, ret) ∷ answered r
  answered (later r (reject i req ret at no_slot)) = (req, ret) ∷ answered r
  answered (later r step) = answered r

module _ {W : Type 0} (p : Platform W) (flags : HandlerFlags) (default_cb : Ptr)
    (flag : ℤ → W → Bool) (flaws : FlagLaws p flag) (units : ℤ → W → ℕ) (laws : UnitLaws p units)
    {start : Sys W} (q : IsQueue start []) (t : IsTable start)
    (one : units start.semid start.world ≤ 1) where
  Reach-Leads :
      {pc : Pc} {cs : ℕ → Stage} {s : Sys W} (r : Reach p flags default_cb start pc cs s)
      → Leads (answered p flags default_cb r) start s
  Reach-Leads begin = ((refl, refl, refl), tt)
  Reach-Leads (later {s} {s'} r (meanwhile step)) =
      Leads-same (answered p flags default_cb r) start s s' (Reach-Leads r)
        (Step-Moved p units laws flags default_cb flag flaws step
          (Reach-Guarded p flags default_cb flag flaws units laws q t one r).queue).1
  Reach-Leads (later r (enter i req at on given)) = Reach-Leads r
  Reach-Leads (later r (acquire i req at got)) = Reach-Leads r
  Reach-Leads (later r (give_up i req at failed)) = Reach-Leads r
  Reach-Leads (later {s} r (reject i req ret at no_slot)) =
      Leads-decided req (inl ret) (answered p flags default_cb r) start s no_slot (Reach-Leads r)
  Reach-Leads (later r (pick i req slot at chosen)) = Reach-Leads r
  Reach-Leads (later {s} r (put i req slot ret at run)) =
      let rs = answered p flags default_cb r in
      let g = Reach-Guarded p flags default_cb flag flaws units laws q t one r in
      let (given, chosen) = subst (λ x. Fits x s) at (g.fits i) in
      subst (λ (x : ℤ × Sys W). Leads ((req, x.0) ∷ rs) start x.1) run
        (Leads-decided req (inr slot) rs start s chosen (Reach-Leads r))
  Reach-Leads (later r (leave i ret at)) = Reach-Leads r

  -- From an empty queue, a well-formed table and a semaphore of at most one unit, in every order
  -- of the steps of the event thread, of arriving messages, of _stop and of any number of threads
  -- in register_handler and unregister_handler, where a thread's tests and its writes are apart, on
  -- a kernel that keeps the laws of FlagLaws and UnitLaws and whose pool gives blocks that are not
  -- in use: the table of handlers, its counter and the default handler's index are what the calls
  -- leave one after the other, each as a whole, with the same results of what each does under the
  -- semaphore, and the table is well formed.
  pub Reach-Serial :
      {pc : Pc} {cs : ℕ → Stage} {s : Sys W} (r : Reach p flags default_cb start pc cs s)
      → Leads (answered p flags default_cb r) start s × IsTable s
  Reach-Serial r =
      (Reach-Leads r, (Reach-Guarded p flags default_cb flag flaws units laws q t one r).table)
