-- ===== src/Kprintf/Interleave/Texts.antt =====
-- The texts that arrive and the texts that are delivered, in the order of the steps.
-- A message's contents: its mode, its length, its size and its bytes.
use libkprintf.Platform.{Platform}
use libkprintf.Prelude.{
  Option, List, Bool, ℕ, if◌then◌else◌, ◌∷◌, ◌++◌, ◌≡◌, ◌⊎◌, not, is_neg, inl, ap, [], some, inr,
  refl, pos_part,
}
use libkprintf.Kprintf.{Heap, HandlerFlags, Ptr, Sys, buf_size, is_started}
use libkprintf.Kprintf.Interleave.{Pc, Reach, Step, arrive, invoke, later, begin}
use libkprintf.Kprintf.Queue.Chain.{NotIn, payload}
use libkprintf.Kprintf.Queue.{sizeof_msg, fresh_msg}
use libkprintf.Kprintf.Hook.{bad_length}

abbrev pub Text : Type 0
Text = Option (Bool × ℕ × ℕ × List ℕ)

-- The contents of the messages at `ms`.
abbrev pub contents : Heap → List Ptr → List Text
contents h [] = []
contents h (a ∷ ms) = payload (h a) ∷ contents h ms

pub contents-keep :
    (g h : Heap) (ms : List Ptr)
    → ((b : Ptr) → NotIn b ms ⊎ (payload (g b) ≡ payload (h b)))
    → contents g ms ≡ contents h ms
contents-keep g h [] same = refl
contents-keep g h (a ∷ ms) same =
    let here : payload (g a) ≡ payload (h a) = elim (same a) [
      | inl (ne, out) ↦ absurd (ne refl)
      | inr e ↦ e
    ] in
    let rest =
      contents-keep g h ms (λ b. elim (same b) [ inl (ne, out) ↦ inl out | inr e ↦ inr e ]) in
    cc

pub contents-append :
    (h : Heap) (xs ys : List Ptr) → contents h (xs ++ ys) ≡ contents h xs ++ contents h ys
contents-append h [] ys = refl
contents-append h (a ∷ xs) ys = ap (◌∷◌ (payload (h a))) (contents-append h xs ys)

module _ {W : Type 0} (p : Platform W) where
  -- The text of `n` bytes that handle_text queues, if the pool has room for it.
  abbrev pub allocated : List ℕ → ℕ → Bool → Sys W → List Text
  allocated buf n is_user s =
      if is_neg (p.try_allocate_vpl s.vplid (sizeof_msg n) s.world).0
      then []
      else payload (some (fresh_msg buf n is_user)) ∷ []

  -- The text that a call of kprintf_handler queues, if it queues one.
  abbrev pub accepted : ℕ → ℕ → Bool → Sys W → List Text
  accepted fmt va is_user s =
      let (len, buf) = p.vsnprintf buf_size fmt va s.world in
      if not (is_started s.state)
      then []
      else if bad_length len
      then []
      else allocated buf (pos_part len) is_user s

module _ {W : Type 0} {p : Platform W} {flags : HandlerFlags} {default_cb : Ptr} where
  abbrev pub arrived_by :
      {pc pc' : Pc} {s s' : Sys W} → Step p flags default_cb pc s pc' s' → List Text
  arrived_by (arrive {s} fuel fmt va is_user ret gives run) = accepted p fmt va is_user s
  arrived_by _ = []

  abbrev pub delivered_by :
      {pc pc' : Pc} {s s' : Sys W} → Step p flags default_cb pc s pc' s' → List Text
  delivered_by (invoke before ne at run) = payload (some before) ∷ []
  delivered_by _ = []

  -- The texts that were queued on the way, the first one first.
  abbrev pub arrivals :
      {start s : Sys W} {pc : Pc} → Reach p flags default_cb start pc s → List Text
  arrivals begin = []
  arrivals (later r step) = arrivals r ++ arrived_by step

  -- The texts that the handlers were given on the way, the first one first.
  abbrev pub deliveries :
      {start s : Sys W} {pc : Pc} → Reach p flags default_cb start pc s → List Text
  deliveries begin = []
  deliveries (later r step) = deliveries r ++ delivered_by step
