-- ===== src/Tests/Startup.antt =====
-- Witnesses for the module's start: a kernel whose state is the list of its objects, the newest
-- first. It refuses the call that installs the hook, so that init fails at its last step.
use libkprintf.Platform.{Platform}
use libkprintf.Prelude.{
  List, Bool, pos, ℤ, ◌∷◌, false, ◌≡◌, length, [], ◌+◌, refl, inr, negsuc, some, arith, true,
}
use libkprintf.Kprintf.Startup.Resources.{Balanced, init-Balanced}
use libkprintf.Kprintf.Startup.States.{Ends, init-Ends}
use libkprintf.Platform.Laws.{ObjectLaws, Created}
use libkprintf.Kprintf.Startup.{init, stop}
use libkprintf.Kprintf.{loaded, err_not_started}
use libkprintf.Kprintf.Boot.{detect_psplink}
use libkprintf.Kprintf.Boot.Detect.{Detected, detect_psplink-ends}
use libkprintf.Kprintf.Hook.{kprintf_handler}
use libkprintf.Prelude.Run.{ok}
use libkprintf.Kprintf.Handlers.{register_handler, unregister_handler}
use libkprintf.Kprintf.Startup.Stop.{stop-refuses}

drop_one : List ℤ → List ℤ
drop_one [] = []
drop_one (x ∷ xs) = xs

abbrev create : List ℤ → ℤ × List ℤ
create w = let id : ℤ = pos (length w + 1) in (id, id ∷ w)

abbrev kernel : Platform (List ℤ)
kernel = record {
  wait_sema = λ id w. (pos 0, w);
  signal_sema = λ id w. (pos 0, w);
  try_allocate_vpl = λ id n w. (pos 0, 0x1000, w);
  free_vpl = λ id a w. (pos 0, w);
  suspend_intr = λ w. (1, w);
  resume_intr = λ i w. w;
  set_event_flag = λ id bits w. w;
  wait_event_flag = λ id bits w. (bits, w);
  create_vpl = λ n w. create w;
  create_event_flag = λ w. create w;
  create_sema = λ n m w. create w;
  create_thread = λ n m w. create w;
  delete_vpl = λ id w. drop_one w;
  delete_event_flag = λ id w. drop_one w;
  delete_sema = λ id w. drop_one w;
  start_thread = λ id w. (pos 0, w);
  terminate_delete_thread = λ id w. drop_one w;
  delay_thread = λ n w. w;
  find_psplink = λ w. (false, w);
  dipsw_set = λ r w. (negsuc 0, w);
  register_kprintf_handler = λ a w. w;
  stdout = λ w. (pos 1, w);
  io_write = λ fd text w. w;
  vsnprintf = λ n fmt va w. (pos 2, b'h' ∷ b'i' ∷ 0 ∷ []);
  callback =
      λ cb arg text len size is_user w. record { res = pos 0; text = text; len = len; world = w };
}

created : (w : List ℤ) → Created (λ l. l) w (create w)
created w = inr (ground arith, refl)

dropped : (w : List ℤ) (id : ℤ) (rest : List ℤ) → w ≡ id ∷ rest → drop_one w ≡ rest
unfolding drop_one
dropped w id rest e = rw e refl

kernel-ObjectLaws : ObjectLaws kernel (λ l. l)
kernel-ObjectLaws = record {
  vpl = λ n w. created w;
  event_flag = λ w. created w;
  sema = λ n m w. created w;
  thread = λ n m w. created w;
  vpl_gone = λ id w rest e. dropped w id rest e;
  event_flag_gone = λ id w rest e. dropped w id rest e;
  sema_gone = λ id w rest e. dropped w id rest e;
  thread_gone = λ id w rest e. dropped w id rest e;
  start_keeps = λ id w. refl;
  dipsw_keeps = λ r w. refl;
  hook_keeps = λ a w. refl;
}

init-Balanced_example :
    Balanced kernel (λ l. l) kernel-ObjectLaws (pos 9 ∷ []) (init kernel 0x80 (loaded (pos 9 ∷ [])))
unfolding loaded
init-Balanced_example = init-Balanced kernel (λ l. l) kernel-ObjectLaws 0x80 (loaded (pos 9 ∷ []))

init-Ends_example : Ends kernel (loaded []) (init kernel 0x80 (loaded []))
init-Ends_example = init-Ends kernel 0x80 (loaded [])

detect_psplink-ends_example :
    (r : Bool × List ℤ) × (detect_psplink kernel 4 3000 [] ≡ some r) × Detected kernel r
detect_psplink-ends_example = detect_psplink-ends kernel 4 3000 [] (omega arith) (omega arith)

stop-refuses_example :
    let s' = (stop kernel (λ text s. s) (loaded [])).1 in
    (kprintf_handler kernel 3 0 0 true s' ≡ ok (pos 0) s')
    × (register_handler kernel 0x90 (pos 7) false s' ≡ (err_not_started, s'))
    × (unregister_handler kernel (pos 0) s' ≡ (err_not_started, s'))
stop-refuses_example =
    stop-refuses kernel (λ text s. s) (loaded []) 3 0 0 true false 0x90 (pos 7) (pos 0)
