-- ===== src/Kprintf/Queue/Chain.antt =====
-- msg.c: what the linked blocks stand for, the addresses of the queued messages from first to last.
use libkprintf.Kprintf.{Ptr, Heap, Sys, Msg, null}
use libkprintf.Kprintf.Queue.{write, load, ok}
use libkprintf.Prelude.{
  List, ◌⊎◌, ◌++◌, ◌≡◌, ◌≢◌, inl, arith, [], sym, inr, ◌==◌, ◌∙◌, refl, none, Bool, Option, false,
  some, ℕ, ◌∷◌, subst,
}
use native.Mathlib.Decide.{ℕ_discrete}

-- From `a` on, the links lead through the messages at `ms`, and then to NULL.
abbrev pub Chain : Heap → Ptr → List Ptr → Type 0
Chain h a [] = a ≡ null
Chain h a (b ∷ bs) = (a ≡ b) × (b ≢ null) × ((m : Msg) × (h b ≡ some m) × Chain h m.next bs)

abbrev pub NotIn : Ptr → List Ptr → Type 0
NotIn a [] = Unit
NotIn a (b ∷ bs) = (a ≢ b) × NotIn a bs

abbrev pub Distinct : List Ptr → Type 0
Distinct [] = Unit
Distinct (b ∷ bs) = NotIn b bs × Distinct bs

-- The queue holds the messages at `ms`, in this order, each once.
pub record IsQueue {W : Type 0} (s : Sys W) (ms : List Ptr) : Type 0 where
  pub chain : Chain s.heap s.head ms
  pub distinct : Distinct ms

-- A chain survives a change that spares its messages.
pub Chain-frame :
    (h g : Heap) (a : Ptr) (ms : List Ptr)
    → ((b : Ptr) → NotIn b ms ⊎ (g b ≡ h b))
    → Chain h a ms
    → Chain g a ms
Chain-frame h g a [] same c = c
Chain-frame h g a (b ∷ bs) same (e, ne, (m, at, rest)) =
    (e, ne, (m, here (same b), Chain-frame h g m.next bs (λ x. tail_same x (same x)) rest))
  where
    here : (NotIn b (b ∷ bs) ⊎ (g b ≡ h b)) → g b ≡ some m
    here (inl out) = absurd (out.0 refl)
    here (inr e') = e' ∙ at

    tail_same : (x : Ptr) → (NotIn x (b ∷ bs) ⊎ (g x ≡ h x)) → NotIn x bs ⊎ (g x ≡ h x)
    tail_same x (inl out) = inl out.1
    tail_same x (inr e') = inr e'

pub write_self : (h : Heap) (a : Ptr) (c : Option Msg) → write h a c a ≡ c
unfolding write
write_self h a c = ground arith

pub write_ne : (h : Heap) (a b : Ptr) (c : Option Msg) → b ≢ a → write h a c b ≡ h b
unfolding write
write_ne h a b c ne = ground arith

ne_or_eq : (a b : Ptr) → (b ≡ a) ⊎ (b ≢ a)
ne_or_eq a b = elim (ℕ_discrete b a) [ yes e ↦ inl e | no e ↦ inr e ]

pub Chain-write :
    (h : Heap) (x a : Ptr) (c : Option Msg) (ms : List Ptr)
    → NotIn x ms
    → Chain h a ms
    → Chain (write h x c) a ms
Chain-write h x a c ms out =
    Chain-frame h (write h x c) a ms
      (λ b. elim (ne_or_eq x b) [ inl e ↦ inl (rw e out) | inr ne ↦ inr (write_ne h x b c ne) ])

-- Loading a message that is there.
pub load-ok :
    {W : Type 0} (a : Ptr) (m : Msg) (s : Sys W) → a ≢ null → s.heap a ≡ some m → load a s ≡ ok m s
unfolding load
load-ok a m s ne at = let e : (a == null) ≡ false = ground arith in rw (e, at)

pub NotIn-append : (a : Ptr) (ms : List Ptr) (b : Ptr) → NotIn a ms → a ≢ b → NotIn a (ms ++ b ∷ [])
NotIn-append a [] b out ne = (ne, tt)
NotIn-append a (x ∷ ms) b out ne = (out.0, NotIn-append a ms b out.1 ne)

pub Distinct-append : (ms : List Ptr) (b : Ptr) → Distinct ms → NotIn b ms → Distinct (ms ++ b ∷ [])
Distinct-append [] b d out = (tt, tt)
Distinct-append (a ∷ ms) b d out =
    (NotIn-append a ms b d.0 (λ e. out.0 (sym e)), Distinct-append ms b d.1 out.1)

-- What a message holds besides its link.
abbrev pub payload : Option Msg → Option (Bool × ℕ × ℕ × List ℕ)
payload none = none
payload (some m) = some (m.is_user, m.len, m.size, m.text)

-- The links stand for one sequence only.
pub Chain-unique : (h : Heap) (a : Ptr) (xs ys : List Ptr) → Chain h a xs → Chain h a ys → xs ≡ ys
Chain-unique h a [] [] c d = refl
Chain-unique h a [] (y ∷ ys) c (e, ne, rest) = absurd (ne (sym e ∙ c))
Chain-unique h a (x ∷ xs) [] (e, ne, rest) d = absurd (ne (sym e ∙ d))
Chain-unique h a (x ∷ xs) (y ∷ ys) (e, ne, (m, at, c)) (e', ne', (m', at', d)) =
    let here : x ≡ y = sym e ∙ e' in
    let same : m' ≡ m = cc in
    let rest = Chain-unique h m.next xs ys c (subst (λ (n : Msg). Chain h n.next ys) same d) in cc
