-- ===== src/Kprintf/Dispatch/Order.antt =====
-- handler.c, invoke_handlers: who gets a message, in which order.
use libkprintf.Platform.{Platform}
use libkprintf.Kprintf.{HandlerFlags, Ptr, RegHandler, Msg, null, msg_stop}
use libkprintf.Kprintf.Dispatch.{invoke_from, CallReturn, call_cb, updated}
use libkprintf.Prelude.{
  ◌≡◌, ◌==◌, ◌≢◌, arith, refl, Bool-cases, ◌∙◌, ◌↔◌, inl, subst₂, sym, inr, Option-cases, List,
  Option, [], false, int_eq, none, some, true, ◌∷◌,
}

module _ {W : Type 0} (p : Platform W) (flags : HandlerFlags) (default_cb : Ptr) where
  -- How a message goes along the table: unused slots are passed over, a handler that answers
  -- KPRINTF_MSG_STOP is the last one, and each handler gets what the one before it left.
  pub data Delivers : List RegHandler → Msg → W → Msg → W → Type 0 where
    at_end : {m : Msg} {w : W} → Delivers [] m w m w
    skip :
        {h : RegHandler} {hs : List RegHandler} {m m' : Msg} {w w' : W}
        → h.cb ≡ null
        → Delivers hs m w m' w'
        → Delivers (h ∷ hs) m w m' w'
    stop :
        {h : RegHandler} {hs : List RegHandler} {m : Msg} {w : W} (r : CallReturn W)
        → h.cb ≢ null
        → call_cb p flags default_cb h m w ≡ some r
        → int_eq r.res msg_stop ≡ true
        → Delivers (h ∷ hs) m w (updated p flags m r) r.world
    pass :
        {h : RegHandler} {hs : List RegHandler} {m m' : Msg} {w w' : W} (r : CallReturn W)
        → h.cb ≢ null
        → call_cb p flags default_cb h m w ≡ some r
        → int_eq r.res msg_stop ≡ false
        → Delivers hs (updated p flags m r) r.world m' w'
        → Delivers (h ∷ hs) m w m' w'

  module _ (h : RegHandler) (hs : List RegHandler) (m : Msg) (w : W) where
    invoke-free :
        (h.cb == null) ≡ true
        → invoke_from p flags default_cb (h ∷ hs) m w ≡ invoke_from p flags default_cb hs m w
    unfolding invoke_from
    invoke-free e = rw (e, invoke_from)

    invoke-fault :
        (h.cb == null) ≡ false
        → call_cb p flags default_cb h m w ≡ none
        → invoke_from p flags default_cb (h ∷ hs) m w ≡ none
    unfolding invoke_from
    invoke-fault e call = rw (e, invoke_from, call)

    invoke-stop :
        (r : CallReturn W)
        → (h.cb == null) ≡ false
        → call_cb p flags default_cb h m w ≡ some r
        → int_eq r.res msg_stop ≡ true
        → invoke_from p flags default_cb (h ∷ hs) m w ≡ some (updated p flags m r, r.world)
    unfolding invoke_from
    invoke-stop r e call stopped = rw (e, invoke_from, call) (ground arith)

    invoke-pass :
        (r : CallReturn W)
        → (h.cb == null) ≡ false
        → call_cb p flags default_cb h m w ≡ some r
        → int_eq r.res msg_stop ≡ false
        → invoke_from p flags default_cb (h ∷ hs) m w
          ≡ invoke_from p flags default_cb hs (updated p flags m r) r.world
    unfolding invoke_from
    invoke-pass r e call goes_on = rw (e, invoke_from, call) (ground arith)

  Delivers-invoke :
      {hs : List RegHandler} {m m' : Msg} {w w' : W}
      → Delivers hs m w m' w'
      → invoke_from p flags default_cb hs m w ≡ some (m', w')
  unfolding invoke_from
  Delivers-invoke at_end = refl
  Delivers-invoke (skip {h} {hs} {m} {w} free d) =
      invoke-free h hs m w (ground arith) ∙ Delivers-invoke d
  Delivers-invoke (stop {h} {hs} {m} {w} r used call stopped) =
      invoke-stop h hs m w r (ground arith) call stopped
  Delivers-invoke (pass {h} {hs} {m} {w} r used call goes_on d) =
      invoke-pass h hs m w r (ground arith) call goes_on ∙ Delivers-invoke d

  Delivers-end :
      (hs : List RegHandler) (m m1 m' : Msg) (w w1 w' : W)
      → Delivers hs m w m1 w1
      → ◌≡◌ {A = Option (Msg × W)} (some (m1, w1)) (some (m', w'))
      → Delivers hs m w m' w'
  Delivers-end hs m m1 m' w w1 w' d e =
      let same_m : m1 ≡ m' = cc in
      let same_w : w1 ≡ w' = cc in subst₂ (λ a b. Delivers hs m w a b) same_m same_w d

  invoke-Delivers :
      (hs : List RegHandler) (m m' : Msg) (w w' : W)
      → invoke_from p flags default_cb hs m w ≡ some (m', w')
      → Delivers hs m w m' w'
  unfolding invoke_from
  invoke-Delivers [] m m' w w' e = Delivers-end [] m m m' w w w' at_end e
  invoke-Delivers (h ∷ hs) m m' w w' e = elim (Bool-cases (h.cb == null)) [
    | inl free ↦
        skip (ground arith) (invoke-Delivers hs m m' w w' (sym (invoke-free h hs m w free) ∙ e))
    | inr used ↦ elim (Option-cases (call_cb p flags default_cb h m w)) [
      | inl fails ↦
          absurd (let x : none ≡ some (m', w') = sym (invoke-fault h hs m w used fails) ∙ e in cc)
      | inr (r, call) ↦ elim (Bool-cases (int_eq r.res msg_stop)) [
        | inl stopped ↦
            Delivers-end (h ∷ hs) m (updated p flags m r) m' w r.world w'
              (stop r (ground arith) call stopped)
              (sym (invoke-stop h hs m w r used call stopped) ∙ e)
        | inr goes_on ↦ pass r (ground arith) call goes_on (
            invoke-Delivers hs (updated p flags m r) m' r.world w'
              (sym (invoke-pass h hs m w r used call goes_on) ∙ e))
      ]
    ]
  ]

  -- invoke_handlers ends with a message and a state exactly when the handlers deliver them: in the
  -- order of the table, each on what the one before left, up to the first that stops the message.
  pub invoke-Delivers_iff :
      (hs : List RegHandler) (m m' : Msg) (w w' : W)
      → (invoke_from p flags default_cb hs m w ≡ some (m', w')) ↔ Delivers hs m w m' w'
  invoke-Delivers_iff hs m m' w w' = (invoke-Delivers hs m m' w w', λ d. Delivers-invoke d)

  -- A handler cannot change what the queue keeps in a message: its link, its capacity and its mode.
  abbrev pub SameFrame : Msg → Msg → Type 0
  SameFrame m m' = (m'.next ≡ m.next) × (m'.size ≡ m.size) × (m'.is_user ≡ m.is_user)

  pub Delivers-SameFrame :
      {hs : List RegHandler} {m m' : Msg} {w w' : W} → Delivers hs m w m' w' → SameFrame m m'
  unfolding updated
  Delivers-SameFrame at_end = (refl, refl, refl)
  Delivers-SameFrame (skip free d) = Delivers-SameFrame d
  Delivers-SameFrame (stop r used call stopped) = (refl, refl, refl)
  Delivers-SameFrame (pass r used call goes_on d) = Delivers-SameFrame d

  pub invoke-SameFrame :
      (hs : List RegHandler) (m m' : Msg) (w w' : W)
      → invoke_from p flags default_cb hs m w ≡ some (m', w')
      → SameFrame m m'
  invoke-SameFrame hs m m' w w' e = Delivers-SameFrame (invoke-Delivers hs m m' w w' e)
