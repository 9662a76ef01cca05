-- ===== src/Samples/Counting.antt =====
-- The samples' loop: which numbers are printed.
use libkprintf.Samples.{SampleCalls, say_rounds}
use libkprintf.Prelude.{
  ℕ, ◌<◌, List, [], ◌≡◌, get_elem?, suc, ◌++◌, some, ◌∷◌, ◌+◌, ◌%◌, ◌^◌, sym, zero, arith,
  append-nil, ◌∙◌, ap, append_assoc,
}

-- The messages of a run from the counter `i`, the first one first.
unfoldable pub numbers : ℕ → ℕ → List ℕ
numbers zero i = []
numbers (suc n) i = (i + 1) % 2 ^ 32 ∷ numbers n ((i + 1) % 2 ^ 32)

module _ {W : Type 0} (c : SampleCalls W) (say : ℕ → W → W) (heard : W → List ℕ)
    (says : (i : ℕ) (w : W) → heard (say i w) ≡ heard w ++ i ∷ [])
    (waits : (n : ℕ) (w : W) → heard (c.delay_thread n w) ≡ heard w) where
  say_rounds-heard : (n i : ℕ) (w : W) → heard (say_rounds c say n i w) ≡ heard w ++ numbers n i
  unfolding say_rounds numbers
  say_rounds-heard zero i w = sym (append-nil (heard w))
  say_rounds-heard (suc n) i w =
      let i1 = (i + 1) % 2 ^ 32 in
      say_rounds-heard n i1 (c.delay_thread 1_000_000 (say i1 w))
      ∙ ap (λ xs. xs ++ numbers n i1) (waits 1_000_000 (say i1 w) ∙ says i1 w)
      ∙ append_assoc (heard w) (i1 ∷ []) (numbers n i1)

pub numbers-get_elem? :
    (n i k : ℕ) → k < n → get_elem? (numbers n i) k ≡ some ((i + k + 1) % 2 ^ 32)
unfolding numbers
numbers-get_elem? zero i k lt = absurd (omega arith)
numbers-get_elem? (suc n) i zero lt = ap some (omega arith)
numbers-get_elem? (suc n) i (suc k) lt =
    numbers-get_elem? n ((i + 1) % 2 ^ 32) k (omega arith) ∙ ap some (omega arith)
