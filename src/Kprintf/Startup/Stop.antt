-- ===== src/Kprintf/Startup/Stop.antt =====
-- startup.c: what a module does once _stop has run.
use libkprintf.Platform.{Platform}
use libkprintf.Prelude.{List, ℕ, ◌≡◌, Bool, false, ℤ, Bool-cases, inl, inr, refl, pos}
use libkprintf.Kprintf.{Sys, is_started, Ptr, err_not_started}
use libkprintf.Kprintf.Handlers.{register_handler, unregister_handler}
use libkprintf.Kprintf.Startup.{stop}
use libkprintf.Kprintf.Hook.{kprintf_handler}
use libkprintf.Prelude.Run.{ok}
use libkprintf.Kprintf.Hook.Queues.{kprintf_handler-dropped}

module _ {W : Type 0} (p : Platform W) (kprintf : List ℕ → Sys W → Sys W) where
  stop-off : (s : Sys W) → is_started (stop p kprintf s).1.state ≡ false
  unfolding stop is_started
  stop-off s = elim (Bool-cases (is_started s.state)) [ inl on ↦ rw on refl | inr off ↦ rw off off ]

  -- Behind _stop, from whatever state, the module takes no message, registers no handler and
  -- unregisters none: kprintf_handler returns 0, the two others KPRINTF_ERR_NOT_STARTED, and none of
  -- them changes the state.
  pub stop-refuses :
      (s : Sys W) (fuel fmt va : ℕ) (is_user is_default : Bool) (cb : Ptr) (arg index : ℤ)
      → let s' = (stop p kprintf s).1 in
        (kprintf_handler p fuel fmt va is_user s' ≡ ok (pos 0) s')
        × (register_handler p cb arg is_default s' ≡ (err_not_started, s'))
        × (unregister_handler p index s' ≡ (err_not_started, s'))
  unfolding register_handler unregister_handler
  stop-refuses s fuel fmt va is_user is_default cb arg index =
      let s' = (stop p kprintf s).1 in
      let off = stop-off s in
      (kprintf_handler-dropped p fuel fmt va is_user s' (inl off), rw off refl, rw off refl)
