-- ===== src/Tests/Exit.antt =====
-- Witness for the exit callbacks: a kernel whose state is the list of its objects, the newest first,
-- and which makes no callback while it has three.
use libkprintf.Util.Exit.Lifetime.{CbLaws, kill_callbacks-setup_callbacks}
use libkprintf.Util.Exit.{
  no_callbacks, CbCalls, Callbacks, kill_callbacks, callback_thread, setup_callbacks,
}
use libkprintf.Prelude.{
  List, ap, drop, ℤ, pos, refl, length, ◌+◌, ◌∷◌, [], ◌≡◌, some, negsuc, is_neg, false, true,
}

abbrev make_callback : List ℤ → ℤ × List ℤ
make_callback (a ∷ b ∷ c ∷ w) = (negsuc 1, a ∷ b ∷ c ∷ w)
make_callback w = (pos (length w + 1), pos (length w + 1) ∷ w)

abbrev drop_callback : ℤ → List ℤ → List ℤ
drop_callback (pos n) w = drop 1 w
drop_callback (negsuc n) w = w

abbrev calls : CbCalls (List ℤ)
calls = record {
  create_callback = make_callback;
  register_exit_callback = λ id w. w;
  delete_callback = drop_callback;
  create_thread = λ n m w. let id : ℤ = pos (length w + 1) in (id, id ∷ w);
  start_thread = λ id w. (pos 0, w);
  terminate_delete_thread = λ id w. drop 1 w;
  sleep_thread = λ w. w;
  sleep_thread_cb = λ w. w;
  exit_game = λ w. w;
  user_exit_cb = λ cb common w. w;
}

made :
    (w : List ℤ)
    → is_neg (make_callback w).0 ≡ false
    → (make_callback w).1 ≡ (make_callback w).0 ∷ w
made (a ∷ b ∷ c ∷ w) e = absurd (cc)
made (a ∷ b ∷ []) e = refl
made (a ∷ []) e = refl
made [] e = refl

failed : (w : List ℤ) → is_neg (make_callback w).0 ≡ true → (make_callback w).1 ≡ w
failed (a ∷ b ∷ c ∷ w) e = refl
failed (a ∷ b ∷ []) e = absurd (cc)
failed (a ∷ []) e = absurd (cc)
failed [] e = absurd (cc)

refused_negative : (id : ℤ) (w : List ℤ) → is_neg id ≡ true → drop_callback id w ≡ w
refused_negative (pos n) w e = absurd (cc)
refused_negative (negsuc n) w e = refl

dropped : (id : ℤ) (w rest : List ℤ) → is_neg id ≡ false → w ≡ id ∷ rest → drop_callback id w ≡ rest
dropped (pos n) w rest e same = ap (drop 1) same
dropped (negsuc n) w rest e same = absurd (cc)

calls-CbLaws : CbLaws calls (λ w. w)
calls-CbLaws = record {
  made_thread = λ n m w e. refl;
  made_callback = made;
  failed_callback = failed;
  refused = refused_negative;
  registered = λ id w. refl;
  started = λ id w. refl;
  slept = λ w. refl;
  deleted_callback = dropped;
  deleted_thread = λ id w rest e. ap (drop 1) e;
}

kill_callbacks-setup_callbacks_example :
    (s' : Callbacks (List ℤ)) × (kill_callbacks calls
        (λ s. s)
        8
        (callback_thread calls (setup_callbacks calls 0x90 0 (no_callbacks (pos 9 ∷ []))).1)
      ≡ some s')
    × (s'.world ≡ (no_callbacks (pos 9 ∷ [])).world)
    × (s'.exit_cbid ≡ negsuc 0)
    × (s'.thid ≡ negsuc 0)
unfolding no_callbacks
kill_callbacks-setup_callbacks_example =
    kill_callbacks-setup_callbacks calls (λ s. s) (λ w. w) calls-CbLaws 0x90 0 7
      (no_callbacks (pos 9 ∷ [])) refl
