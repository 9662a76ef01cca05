-- ===== src/Kprintf/Exclusion/Parties.antt =====
-- Who is between the wait for the semaphore and the signal, and what a thread knows of the table there.
use libkprintf.Prelude.{
  ℕ, suc, Bool, ◌≡◌, ◌≢◌, ◌==◌, ap, true, zero, arith, ◌∙◌, refl, subst, false, sym, inr,
}
use libkprintf.Kprintf.Exclusion.{
  advance, Stage, asking, testing, IsGiven, writing, outside, leaving, choose,
}
use libkprintf.Kprintf.Exclusion.Steady.{locks}
use libkprintf.Kprintf.Interleave.{Pc}
use libkprintf.Kprintf.{Sys}
use libkprintf.Kprintf.Exclusion.Mutex.{Others}
use native.Mathlib.Decide.{ℕ_discrete}
use libkprintf.Kprintf.History.Frames.{SameTable}
use libkprintf.Kprintf.Exclusion.Choices.{choose-same}

-- The thread holds the semaphore.
unfoldable pub holds : Stage → Bool
holds (testing r) = true
holds (writing r i) = true
holds (leaving ret) = true
holds st = false

-- Party 0 is the event thread, party i + 1 the thread i.
unfoldable pub party : Pc → (ℕ → Stage) → ℕ → Bool
unfolding locks holds
party pc cs zero = locks pc
party pc cs (suc i) = holds (cs i)

pub advance_self : (cs : ℕ → Stage) (i : ℕ) (st : Stage) → advance cs i st i ≡ st
unfolding advance
advance_self cs i st = let e : (i == i) ≡ true = ground arith in rw e refl

pub advance_ne : (cs : ℕ → Stage) (i j : ℕ) (st : Stage) → j ≢ i → advance cs i st j ≡ cs j
unfolding advance
advance_ne cs i j st ne = let e : (j == i) ≡ false = ground arith in rw e refl

module _ (pc : Pc) (cs : ℕ → Stage) (i : ℕ) (st : Stage) where
  pub advance-party : party pc (advance cs i st) (suc i) ≡ holds st
  unfolding party
  advance-party = ap holds (advance_self cs i st)

  pub advance-Others : Others (suc i) (party pc cs) (party pc (advance cs i st))
  unfolding party
  advance-Others zero ne = refl
  advance-Others (suc j) ne = ap holds (advance_ne cs i j st (λ e. ne (ap suc e)))

  pub advance-same :
      holds st ≡ holds (cs i) → (j : ℕ) → party pc (advance cs i st) j ≡ party pc cs j
  unfolding party
  advance-same e zero = refl
  advance-same e (suc j) = elim (ℕ_discrete j i) [
    | yes here ↦ rw here (ap holds (advance_self cs i st) ∙ e)
    | no other ↦ ap holds (advance_ne cs i j st other)
  ]

module _ {W : Type 0} where
  -- A call has its arguments, and a slot that is going to be written is still the one to write.
  abbrev pub Fits : Stage → Sys W → Type 0
  Fits outside s = Unit
  Fits (asking r) s = IsGiven r
  Fits (testing r) s = IsGiven r
  Fits (writing r k) s = IsGiven r × (choose r s ≡ inr k)
  Fits (leaving ret) s = Unit

  abbrev pub AllFit : (ℕ → Stage) → Sys W → Type 0
  AllFit cs s = (j : ℕ) → Fits (cs j) s

  Fits-same : (st : Stage) (s t : Sys W) → SameTable s t → Fits st s → Fits st t
  Fits-same outside s t same f = tt
  Fits-same (asking r) s t same f = f
  Fits-same (testing r) s t same f = f
  Fits-same (writing r k) s t same (given, c) = (given, choose-same r s t same ∙ c)
  Fits-same (leaving ret) s t same f = tt

  Fits-free : (st : Stage) (s t : Sys W) → holds st ≢ true → Fits st s → Fits st t
  unfolding holds
  Fits-free outside s t free f = tt
  Fits-free (asking r) s t free f = f
  Fits-free (testing r) s t free f = f
  Fits-free (writing r k) s t free f = absurd (free refl)
  Fits-free (leaving ret) s t free f = tt

  pub AllFit-same : (cs : ℕ → Stage) (s t : Sys W) → SameTable s t → AllFit cs s → AllFit cs t
  AllFit-same cs s t same fits j = Fits-same (cs j) s t same (fits j)

  pub AllFit-advance :
      (cs : ℕ → Stage) (i : ℕ) (st : Stage) (s : Sys W)
      → AllFit cs s
      → Fits st s
      → AllFit (advance cs i st) s
  AllFit-advance cs i st s fits f j = elim (ℕ_discrete j i) [
    | yes here ↦ subst (λ x. Fits x s) (sym (ap (advance cs i st) here ∙ advance_self cs i st)) f
    | no other ↦ subst (λ x. Fits x s) (sym (advance_ne cs i j st other)) (fits j)
  ]

  -- The thread that holds the semaphore may change the table.
  pub AllFit-alone :
      (cs : ℕ → Stage) (i : ℕ) (s t : Sys W)
      → ((j : ℕ) → holds (cs j) ≡ true → j ≡ i)
      → Fits (cs i) t
      → AllFit cs s
      → AllFit cs t
  AllFit-alone cs i s t alone f fits j = elim (ℕ_discrete j i) [
    | yes here ↦ subst (λ (x : ℕ). Fits (cs x) t) (sym here) f
    | no other ↦ Fits-free (cs j) s t (λ in_. other (alone j in_)) (fits j)
  ]
