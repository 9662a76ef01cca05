-- ===== src/Kprintf/Exclusion/Mutex.antt =====
-- A semaphore of one unit keeps all but one out, whoever the parties are: `inside k` says that the
-- party `k` is between its wait and its signal, `units` is what is left of the semaphore.
use libkprintf.Prelude.{ℕ, ◌≡◌, ◌≢◌, ◌≤◌, ◌+◌, Bool, true, false, arith, ◌∙◌, sym}
use native.Mathlib.Decide.{ℕ_discrete}

pub record Mutex (inside : ℕ → Bool) (units : ℕ) : Type 0 where
  pub one_unit : units ≤ 1
  pub taken : (k : ℕ) → inside k ≡ true → units ≡ 0
  pub alone : (j k : ℕ) → inside j ≡ true → inside k ≡ true → j ≡ k

-- All but the party `k` stand where they stood.
abbrev pub Others : ℕ → (ℕ → Bool) → (ℕ → Bool) → Type 0
Others k f g = (j : ℕ) → j ≢ k → g j ≡ f j

module _ (f g : ℕ → Bool) (u v : ℕ) (m : Mutex f u) where
  pub Mutex-same : ((j : ℕ) → g j ≡ f j) → v ≡ u → Mutex g v
  Mutex-same same e = record {
    one_unit = rw e m.one_unit;
    taken = λ k in_. e ∙ m.taken k (sym (same k) ∙ in_);
    alone = λ j k a b. m.alone j k (sym (same j) ∙ a) (sym (same k) ∙ b);
  }

  module _ (k : ℕ) (others : Others k f g) where
    only_k : v + 1 ≡ u → (j : ℕ) → g j ≡ true → j ≡ k
    only_k e j in_ = elim (ℕ_discrete j k) [
      | yes here ↦ here
      | no other ↦
          let none_left : u ≡ 0 = m.taken j (sym (others j other) ∙ in_) in absurd (omega arith)
    ]

    pub Mutex-take : v + 1 ≡ u → Mutex g v
    Mutex-take e = record {
      one_unit = let x = m.one_unit in omega arith;
      taken = λ j in_. let x = m.one_unit in omega arith;
      alone = λ i j a b. only_k e i a ∙ sym (only_k e j b);
    }

    nobody : f k ≡ true → g k ≡ false → (j : ℕ) → g j ≢ true
    nobody was out j in_ = elim (ℕ_discrete j k) [
      | yes here ↦ let x : g k ≡ true = rw here at in_ in cc
      | no other ↦ other (m.alone j k (sym (others j other) ∙ in_) was)
    ]

    pub Mutex-release : f k ≡ true → g k ≡ false → v ≤ u + 1 → Mutex g v
    Mutex-release was out le = record {
      one_unit = let x = m.taken k was in omega arith;
      taken = λ j in_. absurd (nobody was out j in_);
      alone = λ i j a b. absurd (nobody was out i a);
    }
