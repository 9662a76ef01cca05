-- ===== src/Util/Exit/Lifetime.antt =====
-- cb.c: from setup_callbacks to kill_callbacks.
use libkprintf.Util.Exit.{
  CbCalls, Callbacks, kill_callbacks, wait_sleeping, setup_callbacks, callback_thread,
  create_callbacks,
}
use libkprintf.Prelude.{
  List, ℤ, ℕ, is_neg, ◌≡◌, true, false, suc, ◌∷◌, some, negsuc, refl, ◌∙◌, Bool-cases, inl, inr,
}

-- Documented behaviour of the kernel: `live` lists the objects that exist. A creation that succeeds
-- adds its identifier, one that fails adds nothing, deleting a thread and deleting a callback take
-- out theirs, deleting a callback with a negative identifier is refused and changes nothing, and
-- neither do the other calls.
pub record CbLaws {W : Type 0} (c : CbCalls W) (live : W → List ℤ) : Type 0 where
  pub made_thread :
      (n m : ℕ) (w : W)
      → is_neg (c.create_thread n m w).0 ≡ false
      → live (c.create_thread n m w).1 ≡ (c.create_thread n m w).0 ∷ live w
  pub made_callback :
      (w : W)
      → is_neg (c.create_callback w).0 ≡ false
      → live (c.create_callback w).1 ≡ (c.create_callback w).0 ∷ live w
  pub failed_callback :
      (w : W) → is_neg (c.create_callback w).0 ≡ true → live (c.create_callback w).1 ≡ live w
  pub refused : (id : ℤ) (w : W) → is_neg id ≡ true → live (c.delete_callback id w) ≡ live w
  pub registered : (id : ℤ) (w : W) → live (c.register_exit_callback id w) ≡ live w
  pub started : (id : ℤ) (w : W) → live (c.start_thread id w).1 ≡ live w
  pub slept : (w : W) → live (c.sleep_thread_cb w) ≡ live w
  pub deleted_callback :
      (id : ℤ) (w : W) (rest : List ℤ)
      → is_neg id ≡ false
      → live w ≡ id ∷ rest
      → live (c.delete_callback id w) ≡ rest
  pub deleted_thread :
      (id : ℤ) (w : W) (rest : List ℤ)
      → live w ≡ id ∷ rest
      → live (c.terminate_delete_thread id w) ≡ rest

module _ {W : Type 0} (c : CbCalls W) (delay : Callbacks W → Callbacks W) where
  kill-awake :
      (fuel : ℕ) (s : Callbacks W)
      → s.sleeping ≡ true
      → kill_callbacks c delay (suc fuel) s
        ≡ some (record s {
          exit_cbid = negsuc 0;
          thid = negsuc 0;
          world = c.terminate_delete_thread s.thid (c.delete_callback s.exit_cbid s.world);
        })
  unfolding kill_callbacks wait_sleeping
  kill-awake fuel s on = rw on refl

  module _ (live : W → List ℤ) (laws : CbLaws c live) where
    -- A callback made, or not made, in `w`, and deleted in a later state `v`, where the kernel has
    -- the objects it had after the creation: what is left is what there was in `w`.
    callback-undone :
        (w v : W)
        → live v ≡ live (c.create_callback w).1
        → live (c.delete_callback (c.create_callback w).0 v) ≡ live w
    callback-undone w v same = elim (Bool-cases (is_neg (c.create_callback w).0)) [
      | inl failed ↦ laws.refused _ v failed ∙ same ∙ laws.failed_callback w failed
      | inr made ↦ laws.deleted_callback _ v (live w) made (same ∙ laws.made_callback w made)
    ]

  module _ (live : W → List ℤ) (laws : CbLaws c live) (cb common fuel : ℕ) (s : Callbacks W)
      (made : is_neg (c.create_thread 16 3072 s.world).0 ≡ false) where
    -- Where the kernel keeps the laws of CbLaws and the thread is created: after setup_callbacks and a
    -- run of the callback thread up to its sleep, whether its callback is created or not,
    -- kill_callbacks returns, and the objects that exist are those that existed before
    -- setup_callbacks; no identifier is kept.
    pub kill_callbacks-setup_callbacks :
        (s' : Callbacks W) × (kill_callbacks c delay
            (suc fuel)
            (callback_thread c (setup_callbacks c cb common s).1)
          ≡ some s')
        × (live s'.world ≡ live s.world)
        × (s'.exit_cbid ≡ negsuc 0)
        × (s'.thid ≡ negsuc 0)
    unfolding setup_callbacks callback_thread create_callbacks
    kill_callbacks-setup_callbacks =
        let t = c.create_thread 16 3072 s.world in
        let s1 : Callbacks W = record s {
          user_exit_cb = cb;
          user_common = common;
          thid = t.0;
          world = (c.start_thread t.0 t.1).1;
        } in
        let s2 = callback_thread c s1 in
        let one = laws.started t.0 t.1 ∙ laws.made_thread 16 3072 s.world made in
        let same = laws.slept _ ∙ laws.registered _ _ in
        rw made (
          record s2 {
            exit_cbid = negsuc 0;
            thid = negsuc 0;
            world = c.terminate_delete_thread s2.thid (c.delete_callback s2.exit_cbid s2.world);
          },
          kill-awake fuel s2 refl,
          laws.deleted_thread t.0 _ (live s.world)
              (callback-undone live laws s1.world s2.world same ∙ one),
          refl,
          refl,
        )
