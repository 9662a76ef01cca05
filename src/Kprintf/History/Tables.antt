-- ===== src/Kprintf/History/Tables.antt =====
-- The table of handlers is well formed throughout.
use libkprintf.Kprintf.{loaded, Sys, Ptr, HandlerFlags, null}
use libkprintf.Platform.{Platform}
use libkprintf.Kprintf.Api.{
  with_k1, install_kernel_handler, register_default_handler, kprintf_register_handler,
  kprintf_register_default_handler, kprintf_unregister_handler, kprintf_install,
}
use libkprintf.Kprintf.Handlers.Slots.{registered}
use libkprintf.Kprintf.Queue.Flush.{flushed, free_all, deliver_all, flush_messages-flushed}
use libkprintf.Kprintf.Handlers.Cases.{IsTable}
use libkprintf.Prelude.{
  ◌≡◌, ℤ, List, ap, refl, Bool-cases, ℕ, subst, Option, is_neg, some, inl, true, int_eq, inr, none,
  pos, false, negsuc, arith,
}
use libkprintf.Kprintf.Startup.{start, init}
use libkprintf.Kprintf.Handlers.{register_handler, unregister_handler}
use libkprintf.Prelude.Run.{ok}
use libkprintf.Kprintf.Handlers.Invariant.{
  register_handler-IsTable, IsTable-world, unregister_handler-IsTable,
}
use libkprintf.Kprintf.Startup.States.{Reset, init-Ends}
use libkprintf.Kprintf.History.{
  flush, History, started_up, register, register_default, unregister, install, message,
}
use libkprintf.Kprintf.History.Frames.{SameTable, message-SameTable}

module _ {W : Type 0} where
  pub IsTable-same : (s t : Sys W) → SameTable s t → IsTable s → IsTable t
  IsTable-same s t (hs, count, default) x = record {
    slots = rw hs x.slots;
    counted = rw (hs, count) x.counted;
    zeros = rw hs x.zeros;
    default_valid = rw (hs, default) x.default_valid;
  }

  loaded-IsTable : (w : W) → IsTable (loaded w)
  unfolding loaded registered
  loaded-IsTable w = record {
    slots = refl;
    counted = refl;
    zeros = (λ e. refl, (λ e. refl, (λ e. refl, (λ e. refl, (λ e. refl, (λ e. refl, tt))))));
    default_valid = refl;
  }

  none_loaded : (w : W) → registered (loaded w).handlers ≡ 0
  unfolding loaded registered
  none_loaded w = refl

  with_k1-IsTable :
      (body : Sys W → ℤ × Sys W)
      → ((s : Sys W) → IsTable s → IsTable (body s).1)
      → (s s' : Sys W) (ret : ℤ) → with_k1 body s ≡ (ret, s')
      → IsTable s
      → IsTable s'
  unfolding with_k1
  with_k1-IsTable body keep s s' ret run t =
      let s1 : Sys W = record s { k1 = 0 } in
      let done : record (body s1).1 { k1 = s.k1 } ≡ s' = ap (λ (r : ℤ × Sys W). r.1) run in
      subst IsTable done (
        IsTable-same (body s1).1 _ (refl, refl, refl)
          (keep s1 (IsTable-same s s1 (refl, refl, refl) t)))

module _ {W : Type 0} (p : Platform W) where
  install-IsTable :
      (handler : Ptr) (s : Sys W) → IsTable s → IsTable (install_kernel_handler p handler s).1
  unfolding install_kernel_handler
  install-IsTable handler s t = elim (Bool-cases (is_neg (p.dipsw_set 56 s.world).0)) [
    | inl failed ↦ rw failed (IsTable-world _ t)
    | inr good ↦ rw good (IsTable-world _ t)
  ]

  default-IsTable :
      (kprintf : List ℕ → Sys W → Sys W) (default_cb : Ptr)
      → ((text : List ℕ) (s : Sys W) → SameTable s (kprintf text s))
      → (s : Sys W) → IsTable s
      → IsTable (register_default_handler p kprintf default_cb s).1
  unfolding register_default_handler
  default-IsTable kprintf default_cb quiet s t =
      let r = register_handler p default_cb s.stdout true s in
      let t' = register_handler-IsTable p default_cb s.stdout true s t in
      elim (Bool-cases (int_eq r.0 (pos 0))) [
        | inl first ↦ rw first (IsTable-same r.1 _ (quiet _ r.1) t')
        | inr other ↦ rw other t'
      ]

  neg-ne-zero : (r : ℤ) → is_neg r ≡ true → int_eq r (pos 0) ≡ false
  neg-ne-zero (pos n) e = absurd (cc)
  neg-ne-zero (negsuc n) e = refl

  Reset-IsTable :
      (s0 s : Sys W) → Reset p s0 s → registered s0.handlers ≡ 0 → IsTable s0 → IsTable s
  Reset-IsTable s0 s (hs, count, default, no_head, same_heap, same_k1) none_used t = record {
    slots = rw hs t.slots;
    counted = rw (hs, count, none_used);
    zeros = rw hs t.zeros;
    default_valid = rw default refl;
  }

  -- What a start that succeeds leaves.
  pub started-Reset :
      (handler : Ptr) (w : W) (s : Sys W)
      → start p handler (loaded w) ≡ (0, s)
      → let s0 : Sys W = record (loaded w) {
        stdout = (p.stdout (loaded w).world).0;
        world = (p.stdout (loaded w).world).1;
      } in
        Reset p s0 s
  unfolding start
  started-Reset handler w s run =
      let s0 : Sys W = record (loaded w) {
        stdout = (p.stdout (loaded w).world).0;
        world = (p.stdout (loaded w).world).1;
      } in
      let r = init p handler s0 in
      let same : r.1 ≡ s = ap (λ (x : ℕ × Sys W). x.1) run in
      elim (init-Ends p handler s0) [
        | inl (ok_, state, reset) ↦ subst (Reset p s0) same reset
        | inr (failed, state) ↦
            let x : ◌≡◌ {A = ℕ} 1 0 =
              rw (neg-ne-zero r.0 failed) at (ap (λ (x : ℕ × Sys W). x.0) run) in
            absurd (omega arith)
      ]

  started-IsTable :
      (handler : Ptr) (w : W) (s : Sys W) → start p handler (loaded w) ≡ (0, s) → IsTable s
  started-IsTable handler w s run =
      let s0 : Sys W = record (loaded w) {
        stdout = (p.stdout (loaded w).world).0;
        world = (p.stdout (loaded w).world).1;
      } in
      Reset-IsTable s0 s (started-Reset handler w s run) (none_loaded w)
        (IsTable-same (loaded w) s0 (refl, refl, refl) (loaded-IsTable w))

  flushed-IsTable :
      (flags : HandlerFlags) (default_cb : Ptr) (s s' : Sys W) (ms : List Ptr) (o : Option W)
      → flushed p flags default_cb s ms o ≡ ok tt s'
      → IsTable s
      → IsTable s'
  unfolding flushed
  flushed-IsTable flags default_cb s s' ms none run t = absurd (cc)
  flushed-IsTable flags default_cb s s' ms (some w) run t =
      let s1 : Sys W = record s { head = null; heap = free_all s.heap ms; world = w } in
      let same : s1 ≡ s' = cc in subst IsTable same (IsTable-same s s1 (refl, refl, refl) t)

module _ {W : Type 0} (p : Platform W) (flags : HandlerFlags) (handler default_cb : Ptr)
    (kprintf : List ℕ → Sys W → Sys W)
    (quiet : (text : List ℕ) (s : Sys W) → SameTable s (kprintf text s)) where
  -- However the module is used since it was started, by calls of the exported functions, messages
  -- and flushes in any order, the table of handlers stays well formed: it has six slots, the
  -- counter is the number of slots in use, a free slot holds no argument, and the default index is
  -- -1 or the index of a slot in use. The kernel's Kprintf, by which the default handler is
  -- announced, must leave the table alone.
  pub History-IsTable : (s : Sys W) → History p flags handler default_cb kprintf s → IsTable s
  unfolding kprintf_register_handler kprintf_register_default_handler kprintf_unregister_handler
      kprintf_install
  History-IsTable s (started_up w run) = started-IsTable p handler w s run
  History-IsTable s (register {s = s0} cb arg ret before run) =
      with_k1-IsTable (register_handler p cb arg false) (register_handler-IsTable p cb arg false) s0
        s ret run (History-IsTable s0 before)
  History-IsTable s (register_default {s = s0} ret before run) =
      with_k1-IsTable (register_default_handler p kprintf default_cb)
        (default-IsTable p kprintf default_cb quiet) s0 s ret run (History-IsTable s0 before)
  History-IsTable s (unregister {s = s0} index ret before run) =
      with_k1-IsTable (unregister_handler p index) (unregister_handler-IsTable p index) s0 s ret run
        (History-IsTable s0 before)
  History-IsTable s (install {s = s0} ret before run) =
      with_k1-IsTable (install_kernel_handler p handler) (install-IsTable p handler) s0 s ret run
        (History-IsTable s0 before)
  History-IsTable s (message {s = s0} fuel fmt va is_user ret before gives run) =
      IsTable-same s0 s (message-SameTable p fuel fmt va is_user ret s0 s run)
        (History-IsTable s0 before)
  History-IsTable s (flush {s = s0} fuel ms before q enough run) =
      flushed-IsTable p flags default_cb s0 s ms
        (deliver_all p flags default_cb s0.handlers s0.vplid s0.heap ms s0.world)
        (rw (flush_messages-flushed p flags default_cb fuel ms s0 q enough) at run)
        (History-IsTable s0 before)
