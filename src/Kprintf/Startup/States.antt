-- ===== src/Kprintf/Startup/States.antt =====
-- startup.c: how init ends.
use libkprintf.Kprintf.Api.{install_kernel_handler}
use libkprintf.Platform.{Platform}
use libkprintf.Prelude.{ℤ, Bool-cases, ◌≡◌, is_neg, true, pos, inl, inr, ◌⊎◌, refl, negsuc, ◌*◌}
use libkprintf.Kprintf.Startup.{
  launch, cleanup, Ptr, Sys, started, stopped, init, init_event_flag, init_sema, init_thread,
  publish,
}
use libkprintf.Kprintf.{msg_vplsize_kib, starting, null}

module _ {W : Type 0} (p : Platform W) where
  -- The table of handlers is that of `s0`, none of it counted, and the queue is empty.
  abbrev pub Reset : Sys W → Sys W → Type 0
  Reset s0 s =
      (s.handlers ≡ s0.handlers)
      × (s.handler_count ≡ 0)
      × (s.default_handler_index ≡ negsuc 0)
      × (s.head ≡ null)
      × (s.heap ≡ s0.heap)
      × (s.k1 ≡ s0.k1)

  -- Either the module is started and the result is 0, or it is stopped and the result is negative.
  abbrev pub Ends : Sys W → ℤ × Sys W → Type 0
  Ends s0 r =
      ((r.0 ≡ pos 0) × (r.1.state ≡ started) × Reset s0 r.1)
      ⊎ ((is_neg r.0 ≡ true) × (r.1.state ≡ stopped))

  cleanup-Ends :
      (s0 : Sys W) (ret vplid evid semid thid : ℤ) (s : Sys W)
      → is_neg ret ≡ true
      → Ends s0 (ret, cleanup p vplid evid semid thid s)
  unfolding cleanup
  cleanup-Ends s0 ret vplid evid semid thid s neg = inr (neg, refl)

  install-Reset :
      (handler : Ptr) (s0 s : Sys W) → Reset s0 s → Reset s0 (install_kernel_handler p handler s).1
  unfolding install_kernel_handler
  install-Reset handler s0 s t = elim (Bool-cases (is_neg (p.dipsw_set 56 s.world).0)) [
    | inl failed ↦ rw failed t
    | inr good ↦ rw good t
  ]

  launch-Ends :
      (handler : Ptr) (vplid evid semid thid : ℤ) (s0 s : Sys W)
      → Reset s0 s
      → Ends s0 (launch p handler vplid evid semid thid s)
  unfolding launch
  launch-Ends handler vplid evid semid thid s0 s fresh =
      let s1 : Sys W = record s { world = (p.start_thread thid s.world).1 } in
      elim (Bool-cases (is_neg (p.start_thread thid s.world).0)) [
        | inl failed ↦
            rw failed
              (cleanup-Ends s0 (p.start_thread thid s.world).0 vplid evid semid thid s1 failed)
        | inr ok_ ↦ elim (Bool-cases (is_neg (install_kernel_handler p handler s1).0)) [
          | inl failed ↦
              rw (ok_, failed)
                (cleanup-Ends s0 (install_kernel_handler p handler s1).0 vplid evid semid thid
                  (install_kernel_handler p handler s1).1 failed)
          | inr done ↦ rw (ok_, done) (inl (refl, refl, install-Reset handler s0 s1 fresh))
        ]
      ]

  init_thread-Ends :
      (handler : Ptr) (vplid evid semid : ℤ) (s : Sys W)
      → Ends s (init_thread p handler vplid evid semid s)
  unfolding init_thread publish
  init_thread-Ends handler vplid evid semid s =
      let made = p.create_thread 10 3072 s.world in
      let s1 : Sys W = record s { world = made.1 } in
      elim (Bool-cases (is_neg made.0)) [
        | inl failed ↦ rw failed (cleanup-Ends s made.0 vplid evid semid made.0 s1 failed)
        | inr good ↦ rw good (
            launch-Ends handler vplid evid semid made.0 s (publish p vplid evid semid made.0 s1)
              (refl, refl, refl, refl, refl, refl))
      ]

  init_sema-Ends :
      (handler : Ptr) (vplid evid : ℤ) (s : Sys W) → Ends s (init_sema p handler vplid evid s)
  unfolding init_sema
  init_sema-Ends handler vplid evid s =
      let made = p.create_sema 1 1 s.world in
      let s1 : Sys W = record s { world = made.1 } in
      elim (Bool-cases (is_neg made.0)) [
        | inl failed ↦ rw failed (cleanup-Ends s made.0 vplid evid made.0 (negsuc 0) s1 failed)
        | inr good ↦ rw good (init_thread-Ends handler vplid evid made.0 s1)
      ]

  init_event_flag-Ends :
      (handler : Ptr) (vplid : ℤ) (s : Sys W) → Ends s (init_event_flag p handler vplid s)
  unfolding init_event_flag
  init_event_flag-Ends handler vplid s =
      let made = p.create_event_flag s.world in
      let s1 : Sys W = record s { world = made.1 } in
      elim (Bool-cases (is_neg made.0)) [
        | inl failed ↦
            rw failed (cleanup-Ends s made.0 vplid made.0 (negsuc 0) (negsuc 0) s1 failed)
        | inr good ↦ rw good (init_sema-Ends handler vplid made.0 s1)
      ]

  -- init ends in one of two ways: with result 0, the module started, its queue empty and its handlers
  -- as they were but none of them counted, or with a negative result and the module stopped; it
  -- never leaves it in the state `starting`.
  pub init-Ends : (handler : Ptr) (s : Sys W) → Ends s (init p handler s)
  unfolding init
  init-Ends handler s =
      let made = p.create_vpl (msg_vplsize_kib * 1024) s.world in
      let s1 : Sys W = record s { state = starting; world = made.1 } in
      elim (Bool-cases (is_neg made.0)) [
        | inl failed ↦
            rw failed (cleanup-Ends s made.0 made.0 (negsuc 0) (negsuc 0) (negsuc 0) s1 failed)
        | inr good ↦ rw good (init_event_flag-Ends handler made.0 s1)
      ]
