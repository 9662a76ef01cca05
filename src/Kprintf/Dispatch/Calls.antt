-- ===== src/Kprintf/Dispatch/Calls.antt =====
-- handler.c, invoke_handlers: the calls that a message makes.
use libkprintf.Prelude.{
  List, ◌∷◌, [], if◌then◌else◌, ◌≡◌, pos, ◌++◌, ◌==◌, some, ◌⊎◌, ◌≢◌, int_eq, false, true, ℤ, inr,
  arith, ◌↔◌, inl, refl, subst₂, ap, sym, ◌∙◌, negsuc, Bool-cases, subst,
}
use libkprintf.Platform.{Platform, CallReturn}
use libkprintf.Kprintf.{RegHandler, HandlerFlags, Ptr, Msg, null, msg_stop}
use libkprintf.Kprintf.Dispatch.{call_cb, updated, invoke_from}
use libkprintf.Kprintf.Dispatch.Order.{stop, pass, skip, at_end, Delivers, invoke-Delivers_iff}
use native.Mathlib.Decide.{ℕ_discrete}

-- The handlers of the slots in use, in the order of the table.
abbrev pub in_use : List RegHandler → List RegHandler
in_use [] = []
in_use (h ∷ hs) = if h.cb == null then in_use hs else h ∷ in_use hs

module _ {W : Type 0} (p : Platform W) (flags : HandlerFlags) (default_cb : Ptr) where
  abbrev pub Call : Type 0
  Call = RegHandler × CallReturn W

  abbrev pub callees : List Call → List RegHandler
  callees [] = []
  callees ((h, r) ∷ calls) = h ∷ callees calls

  -- Each call gets the text and the length that the one before it left, in the message whose other
  -- fields do not change, and `m'` and `w'` are what the last one leaves.
  abbrev pub Chained : List Call → Msg → W → Msg → W → Type 0
  Chained [] m w m' w' = (m ≡ m') × (w ≡ w')
  Chained ((h, r) ∷ calls) m w m' w' =
      (call_cb p flags default_cb h m w ≡ some r)
      × Chained calls
          (record { next = m.next; is_user = m.is_user; len = r.len; size = m.size; text = r.text })
          r.world m' w'

  -- No call but the last one answers 1, which is KPRINTF_MSG_STOP, and the last one does so if a
  -- handler of `rest` is left that was not called.
  abbrev pub StopsLast : List Call → List RegHandler → Type 0
  StopsLast [] rest = rest ≡ []
  StopsLast ((h, r) ∷ []) rest = (r.res ≡ pos 1) ⊎ (rest ≡ [])
  StopsLast ((h, r) ∷ c ∷ calls) rest = (r.res ≢ pos 1) × StopsLast (c ∷ calls) rest

  -- A run of the handlers `hs`: a first part of those in use is called.
  abbrev pub IsRun : List RegHandler → Msg → W → Msg → W → Type 0
  IsRun hs m w m' w' =
      (calls : List Call) × (rest : List RegHandler) × (in_use hs ≡ callees calls ++ rest)
      × Chained calls m w m' w'
      × StopsLast calls rest

  StopsLast-cons :
      (h : RegHandler) (r : CallReturn W) (calls : List Call) (rest : List RegHandler)
      → r.res ≢ pos 1
      → StopsLast calls rest
      → StopsLast ((h, r) ∷ calls) rest
  StopsLast-cons h r [] rest goes_on none_left = inr none_left
  StopsLast-cons h r (c ∷ calls) rest goes_on last = (goes_on, last)

  in_use-used :
      (h : RegHandler) (hs : List RegHandler) → h.cb ≢ null → in_use (h ∷ hs) ≡ h ∷ in_use hs
  in_use-used h hs used = let e : (h.cb == null) ≡ false = ground arith in rw e refl

  in_use-free : (h : RegHandler) (hs : List RegHandler) → h.cb ≡ null → in_use (h ∷ hs) ≡ in_use hs
  in_use-free h hs free = let e : (h.cb == null) ≡ true = ground arith in rw e refl

  stop_iff : (n : ℤ) → (int_eq n msg_stop ≡ true) ↔ (n ≡ pos 1)
  stop_iff (pos n) = (
    λ e. let same : n ≡ 1 = ground arith in ap pos same,
    λ e. ap (λ (x : ℤ). int_eq x msg_stop) e,
  )
  stop_iff (negsuc n) = (λ e. absurd (cc), λ e. absurd (cc))

  Delivers-IsRun :
      {hs : List RegHandler} {m m' : Msg} {w w' : W}
      → Delivers p flags default_cb hs m w m' w'
      → IsRun hs m w m' w'
  unfolding updated
  Delivers-IsRun at_end = ([], [], refl, (refl, refl), refl)
  Delivers-IsRun (skip {h} {hs} free d) =
      let (calls, rest, e, chain, last) = Delivers-IsRun d in
      (calls, rest, in_use-free h hs free ∙ e, chain, last)
  Delivers-IsRun (stop {h} {hs} r used call stopped) = (
    (h, r) ∷ [],
    in_use hs,
    in_use-used h hs used,
    (call, (refl, refl)),
    inl ((stop_iff r.res).0 stopped),
  )
  Delivers-IsRun (pass {h} {hs} r used call goes_on d) =
      let (calls, rest, e, chain, last) = Delivers-IsRun d in
      let not_last : r.res ≢ pos 1 =
        λ one. let x : true ≡ false = sym ((stop_iff r.res).1 one) ∙ goes_on in cc in
      (
        (h, r) ∷ calls,
        rest,
        in_use-used h hs used ∙ ap (◌∷◌ h) e,
        (call, chain),
        StopsLast-cons h r calls rest not_last last,
      )

  -- The first call of a run that goes on.
  StopsLast-tail :
      (h : RegHandler) (r : CallReturn W) (calls : List Call) (rest : List RegHandler)
      → StopsLast ((h, r) ∷ calls) rest
      → int_eq r.res msg_stop ≡ false
      → StopsLast calls rest
  StopsLast-tail h r [] rest (inl one) goes_on =
      absurd (let x : true ≡ false = sym ((stop_iff r.res).1 one) ∙ goes_on in cc)
  StopsLast-tail h r [] rest (inr none_left) goes_on = none_left
  StopsLast-tail h r (c ∷ calls) rest (not_last, last) goes_on = last

  StopsLast-one :
      (h : RegHandler) (r : CallReturn W) (calls : List Call) (rest : List RegHandler)
      → StopsLast ((h, r) ∷ calls) rest
      → int_eq r.res msg_stop ≡ true
      → calls ≡ []
  StopsLast-one h r [] rest last stopped = refl
  StopsLast-one h r (c ∷ calls) rest (not_last, last) stopped =
      absurd (not_last ((stop_iff r.res).0 stopped))

  -- What a run of `hs` leads to, is what the handlers deliver.
  abbrev Sound : List RegHandler → Type 0
  Sound hs =
      (m m' : Msg) (w w' : W) (calls : List Call) (rest : List RegHandler)
      → in_use hs ≡ callees calls ++ rest
      → Chained calls m w m' w'
      → StopsLast calls rest
      → Delivers p flags default_cb hs m w m' w'

  Sound-used :
      (h : RegHandler) (hs : List RegHandler)
      → Sound hs
      → h.cb ≢ null
      → (m m' : Msg) (w w' : W) (calls : List Call) (rest : List RegHandler)
      → h ∷ in_use hs ≡ callees calls ++ rest
      → Chained calls m w m' w'
      → StopsLast calls rest
      → Delivers p flags default_cb (h ∷ hs) m w m' w'
  unfolding updated
  Sound-used h hs sound used m m' w w' [] rest e chain last = absurd (let x = rw last at e in cc)
  Sound-used h hs sound used m m' w w' ((g, r) ∷ calls) rest e (call, chain) last =
      let same : g ≡ h = cc in
      let others : in_use hs ≡ callees calls ++ rest = cc in
      let call' : call_cb p flags default_cb h m w ≡ some r = rw same at call in
      elim (Bool-cases (int_eq r.res msg_stop)) [
        | inl stopped ↦
            let none_more = StopsLast-one g r calls rest last stopped in
            let (same_m, same_w) =
              subst (λ cs. Chained cs (updated p flags m r) r.world m' w') none_more chain in
            subst₂ (λ a b. Delivers p flags default_cb (h ∷ hs) m w a b) same_m same_w
              (stop r used call' stopped)
        | inr goes_on ↦ pass r used call' goes_on (
            sound (updated p flags m r) m' r.world w' calls rest others chain
              (StopsLast-tail g r calls rest last goes_on))
      ]

  IsRun-Delivers : (hs : List RegHandler) → Sound hs
  IsRun-Delivers [] m m' w w' [] rest e (same_m, same_w) last =
      subst₂ (λ a b. Delivers p flags default_cb [] m w a b) same_m same_w at_end
  IsRun-Delivers [] m m' w w' ((h, r) ∷ calls) rest e chain last = absurd (cc)
  IsRun-Delivers (h ∷ hs) m m' w w' calls rest e chain last = elim (ℕ_discrete h.cb null) [
    | yes free ↦
        skip free
          (IsRun-Delivers hs m m' w w' calls rest (sym (in_use-free h hs free) ∙ e) chain last)
    | no used ↦
        Sound-used h hs (IsRun-Delivers hs) used m m' w w' calls rest
          (sym (in_use-used h hs used) ∙ e) chain last
  ]

  -- invoke_handlers ends with the message `m'` and the state `w'` exactly when there is a list of
  -- calls such that: they go to the handlers of the slots in use, in the order of the table, from the
  -- first one on, each once; each handler gets the text and the length that the one before it left,
  -- in a message that is otherwise the same; no call but the last one answers 1; and a handler is left
  -- out only behind a call that answers 1.
  pub invoke-IsRun_iff :
      (hs : List RegHandler) (m m' : Msg) (w w' : W)
      → (invoke_from p flags default_cb hs m w ≡ some (m', w')) ↔ IsRun hs m w m' w'
  invoke-IsRun_iff hs m m' w w' = (
    λ e. Delivers-IsRun ((invoke-Delivers_iff p flags default_cb hs m m' w w').0 e),
    λ (calls, rest, e, chain, last).
        (invoke-Delivers_iff p flags default_cb hs m m' w w').1
          (IsRun-Delivers hs m m' w w' calls rest e chain last),
  )
