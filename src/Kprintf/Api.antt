-- ===== src/Kprintf/Api.antt =====
-- api.c: the exported functions, which run the internal ones with the $k1 register cleared.
use libkprintf.Kprintf.{Sys, is_started, Ptr}
use libkprintf.Platform.{Platform}
use libkprintf.Kprintf.Handlers.{register_handler, unregister_handler}
use libkprintf.Prelude.{if◌then◌else◌, int_eq, is_neg, codes, Bool, List, false, pos, true, ℕ, ℤ}

module _ {W : Type 0} where
  -- SET_K1(0), the body and RESTORE_K1()
  unfoldable pub with_k1 : (Sys W → ℤ × Sys W) → Sys W → ℤ × Sys W
  with_k1 body s = let (ret, s') = body (record s { k1 = 0 }) in (ret, record s' { k1 = s.k1 })

  unfoldable pub kprintf_is_started : Sys W → Bool
  unfolding is_started
  kprintf_is_started s = is_started s.state

  -- `kprintf` is the kernel's Kprintf: it runs the registered Kprintf handler, so it acts on the
  -- whole state.
  module _ (p : Platform W) (kprintf : List ℕ → Sys W → Sys W) where
    -- register_default_handler (handler.c): the default handler writes to the module's stdout, and
    -- a registration in slot 0 is announced.
    unfoldable pub register_default_handler : Ptr → Sys W → ℤ × Sys W
    unfolding register_handler
    register_default_handler default_cb s =
        let (ret, s') = register_handler p default_cb s.stdout true s in
        if int_eq ret (pos 0)
        then (ret, kprintf (codes "KprintfLibrary: registered default handler\n") s')
        else (ret, s')

    unfoldable pub kprintf_register_default_handler : Ptr → Sys W → ℤ × Sys W
    unfolding with_k1 register_default_handler
    kprintf_register_default_handler default_cb = with_k1 (register_default_handler default_cb)

  module _ (p : Platform W) where
    -- install_kernel_handler (handler.c): `handler` is the address of kprintf_handler.
    unfoldable pub install_kernel_handler : Ptr → Sys W → ℤ × Sys W
    install_kernel_handler handler s =
        let (ret, w) = p.dipsw_set 56 s.world in
        if is_neg ret
        then (ret, record s { world = w })
        else (pos 0, record s { world = p.register_kprintf_handler handler w })

    unfoldable pub kprintf_register_handler : Ptr → ℤ → Sys W → ℤ × Sys W
    unfolding with_k1 register_handler
    kprintf_register_handler cb arg = with_k1 (register_handler p cb arg false)

    unfoldable pub kprintf_unregister_handler : ℤ → Sys W → ℤ × Sys W
    unfolding with_k1 unregister_handler
    kprintf_unregister_handler index = with_k1 (unregister_handler p index)

    unfoldable pub kprintf_install : Ptr → Sys W → ℤ × Sys W
    unfolding with_k1 install_kernel_handler
    kprintf_install handler = with_k1 (install_kernel_handler handler)
