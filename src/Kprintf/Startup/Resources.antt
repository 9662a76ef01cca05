-- ===== src/Kprintf/Startup/Resources.antt =====
-- startup.c: what init leaves behind in the kernel, by the objects that exist before and after.
use libkprintf.Platform.{Platform}
use libkprintf.Prelude.{
  List, ℤ, is_positive, is_neg, ◌≡◌, true, ◌⊎◌, ◌∷◌, false, pos, negsuc, refl, Bool-cases, inl, inr,
  ◌∙◌, ap, ◌*◌,
}
use libkprintf.Platform.Laws.{ObjectLaws}
use libkprintf.Kprintf.{Sys, Ptr, msg_vplsize_kib, starting}
use libkprintf.Kprintf.Startup.{
  cleanup, init_event_flag, launch, init_sema, init, init_thread, publish,
}
use libkprintf.Kprintf.Api.{install_kernel_handler}

module _ {W : Type 0} (p : Platform W) (live : W → List ℤ) (laws : ObjectLaws p live) where
  -- Either nothing is left of what init created, or the four objects exist, with their ids in the
  -- globals.
  abbrev pub Balanced : List ℤ → ℤ × Sys W → Type 0
  Balanced before r =
      ((is_neg r.0 ≡ true) × (live r.1.world ≡ before))
      ⊎ ((r.0 ≡ pos 0) × (live r.1.world ≡ r.1.thid ∷ r.1.semid ∷ r.1.evid ∷ r.1.vplid ∷ before))

  not_positive : (id : ℤ) → is_neg id ≡ true → is_positive id ≡ false
  not_positive (pos n) e = absurd (cc)
  not_positive (negsuc n) e = refl

  not_negative : (id : ℤ) → is_positive id ≡ true → is_neg id ≡ false
  not_negative (pos n) e = refl
  not_negative (negsuc n) e = absurd (cc)

  module _ (vplid evid semid thid : ℤ) (before : List ℤ) (s : Sys W)
      (v : is_positive vplid ≡ true) where
    cleanup-vpl :
        is_positive evid ≡ false
        → is_positive semid ≡ false
        → is_positive thid ≡ false
        → live s.world ≡ vplid ∷ before
        → live (cleanup p vplid evid semid thid s).world ≡ before
    unfolding cleanup
    cleanup-vpl e m t now = rw (v, e, m, t, laws.vpl_gone vplid s.world before now)

    cleanup-event_flag :
        is_positive evid ≡ true
        → is_positive semid ≡ false
        → is_positive thid ≡ false
        → live s.world ≡ evid ∷ vplid ∷ before
        → live (cleanup p vplid evid semid thid s).world ≡ before
    unfolding cleanup
    cleanup-event_flag e m t now =
        rw (v, e, m, t)
          (laws.vpl_gone vplid _ before (laws.event_flag_gone evid s.world (vplid ∷ before) now))

    cleanup-sema :
        is_positive evid ≡ true
        → is_positive semid ≡ true
        → is_positive thid ≡ false
        → live s.world ≡ semid ∷ evid ∷ vplid ∷ before
        → live (cleanup p vplid evid semid thid s).world ≡ before
    unfolding cleanup
    cleanup-sema e m t now =
        rw (v, e, m, t)
          (laws.vpl_gone vplid _ before (
            laws.event_flag_gone evid _ (vplid ∷ before)
              (laws.sema_gone semid s.world (evid ∷ vplid ∷ before) now)))

    cleanup-thread :
        is_positive evid ≡ true
        → is_positive semid ≡ true
        → is_positive thid ≡ true
        → live s.world ≡ thid ∷ semid ∷ evid ∷ vplid ∷ before
        → live (cleanup p vplid evid semid thid s).world ≡ before
    unfolding cleanup
    cleanup-thread e m t now =
        rw (v, e, m, t)
          (laws.vpl_gone vplid _ before (
            laws.event_flag_gone evid _ (vplid ∷ before) (
              laws.sema_gone semid _ (evid ∷ vplid ∷ before)
                (laws.thread_gone thid s.world (semid ∷ evid ∷ vplid ∷ before) now))))

  module _ (handler : Ptr) (before : List ℤ) where
    install-world : (s : Sys W) → live (install_kernel_handler p handler s).1.world ≡ live s.world
    unfolding install_kernel_handler
    install-world s = elim (Bool-cases (is_neg (p.dipsw_set 56 s.world).0)) [
      | inl failed ↦ rw failed (laws.dipsw_keeps 56 s.world)
      | inr good ↦ rw good (laws.hook_keeps handler _ ∙ laws.dipsw_keeps 56 s.world)
    ]

    install-ids :
        (s : Sys W)
        → let t = (install_kernel_handler p handler s).1 in
          (t.thid ≡ s.thid) × (t.semid ≡ s.semid) × (t.evid ≡ s.evid) × (t.vplid ≡ s.vplid)
    unfolding install_kernel_handler
    install-ids s = elim (Bool-cases (is_neg (p.dipsw_set 56 s.world).0)) [
      | inl failed ↦ rw failed (refl, refl, refl, refl)
      | inr good ↦ rw good (refl, refl, refl, refl)
    ]

    launch-Balanced :
        (vplid evid semid thid : ℤ) (s : Sys W)
        → is_positive vplid ≡ true
        → is_positive evid ≡ true
        → is_positive semid ≡ true
        → is_positive thid ≡ true
        → live s.world ≡ thid ∷ semid ∷ evid ∷ vplid ∷ before
        → Balanced before
            (launch p handler vplid evid semid thid (publish p vplid evid semid thid s))
    unfolding launch publish
    launch-Balanced vplid evid semid thid s v e m t now =
        let s0 : Sys W = publish p vplid evid semid thid s in
        let s1 : Sys W = record s0 { world = (p.start_thread thid s.world).1 } in
        let now1 = laws.start_keeps thid s.world ∙ now in
        let now2 = install-world s1 ∙ now1 in
        let (t_id, m_id, e_id, v_id) = install-ids s1 in
        elim (Bool-cases (is_neg (p.start_thread thid s.world).0)) [
          | inl failed ↦
              rw failed (inl (failed, cleanup-thread vplid evid semid thid before s1 v e m t now1))
          | inr run ↦ elim (Bool-cases (is_neg (install_kernel_handler p handler s1).0)) [
            | inl failed ↦
                rw (run, failed)
                  (inl (
                    failed,
                    cleanup-thread vplid evid semid thid before
                        (install_kernel_handler p handler s1).1 v e m t now2,
                  ))
            | inr done ↦ rw (run, done) (inr (refl, rw (t_id, m_id, e_id, v_id) now2))
          ]
        ]

    init_thread-Balanced :
        (vplid evid semid : ℤ) (s : Sys W)
        → is_positive vplid ≡ true
        → is_positive evid ≡ true
        → is_positive semid ≡ true
        → live s.world ≡ semid ∷ evid ∷ vplid ∷ before
        → Balanced before (init_thread p handler vplid evid semid s)
    unfolding init_thread
    init_thread-Balanced vplid evid semid s v e m now =
        let made = p.create_thread 10 3072 s.world in
        let s1 : Sys W = record s { world = made.1 } in
        elim (laws.thread 10 3072 s.world) [
          | inl (failed, same) ↦ rw failed (
              inl (
                failed,
                cleanup-sema vplid evid semid made.0 before s1 v e m (not_positive made.0 failed)
                    (same ∙ now),
              ))
          | inr (good, more) ↦
              rw (not_negative made.0 good)
                (launch-Balanced vplid evid semid made.0 s1 v e m good (more ∙ ap (◌∷◌ made.0) now))
        ]

    init_sema-Balanced :
        (vplid evid : ℤ) (s : Sys W)
        → is_positive vplid ≡ true
        → is_positive evid ≡ true
        → live s.world ≡ evid ∷ vplid ∷ before
        → Balanced before (init_sema p handler vplid evid s)
    unfolding init_sema
    init_sema-Balanced vplid evid s v e now =
        let made = p.create_sema 1 1 s.world in
        let s1 : Sys W = record s { world = made.1 } in
        elim (laws.sema 1 1 s.world) [
          | inl (failed, same) ↦ rw failed (
              inl (
                failed,
                cleanup-event_flag vplid evid made.0 (negsuc 0) before s1 v e
                    (not_positive made.0 failed) refl (same ∙ now),
              ))
          | inr (good, more) ↦
              rw (not_negative made.0 good)
                (init_thread-Balanced vplid evid made.0 s1 v e good (more ∙ ap (◌∷◌ made.0) now))
        ]

    init_event_flag-Balanced :
        (vplid : ℤ) (s : Sys W)
        → is_positive vplid ≡ true
        → live s.world ≡ vplid ∷ before
        → Balanced before (init_event_flag p handler vplid s)
    unfolding init_event_flag
    init_event_flag-Balanced vplid s v now =
        let made = p.create_event_flag s.world in
        let s1 : Sys W = record s { world = made.1 } in
        elim (laws.event_flag s.world) [
          | inl (failed, same) ↦ rw failed (
              inl (
                failed,
                cleanup-vpl vplid made.0 (negsuc 0) (negsuc 0) before s1 v
                    (not_positive made.0 failed) refl refl (same ∙ now),
              ))
          | inr (good, more) ↦
              rw (not_negative made.0 good)
                (init_sema-Balanced vplid made.0 s1 v good (more ∙ ap (◌∷◌ made.0) now))
        ]

  cleanup-none :
      (vplid : ℤ) (s : Sys W)
      → is_positive vplid ≡ false
      → live (cleanup p vplid (negsuc 0) (negsuc 0) (negsuc 0) s).world ≡ live s.world
  unfolding cleanup
  cleanup-none vplid s v = rw v refl

  -- With kernel calls that keep the laws of ObjectLaws: when init fails, at whatever step,
  -- everything that it created is deleted again; when it succeeds, the thread, the semaphore, the
  -- event flag and the pool exist, with their ids in the globals.
  pub init-Balanced : (handler : Ptr) (s : Sys W) → Balanced (live s.world) (init p handler s)
  unfolding init
  init-Balanced handler s =
      let made = p.create_vpl (msg_vplsize_kib * 1024) s.world in
      let s1 : Sys W = record s { state = starting; world = made.1 } in
      elim (laws.vpl (msg_vplsize_kib * 1024) s.world) [
        | inl (failed, same) ↦
            rw failed (inl (failed, cleanup-none made.0 s1 (not_positive made.0 failed) ∙ same))
        | inr (good, more) ↦
            rw (not_negative made.0 good)
              (init_event_flag-Balanced handler (live s.world) made.0 s1 good more)
      ]
