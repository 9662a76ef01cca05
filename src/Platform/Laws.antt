-- ===== src/Platform/Laws.antt =====
-- Documented behaviour of the kernel's calls, as hypotheses on a platform.
use libkprintf.Prelude.{ℕ, ◌+◌, ◌≡◌, true, false, ℤ, is_neg, List, ◌⊎◌, ◌∷◌, is_positive}
use libkprintf.Platform.{Platform}

-- A semaphore's count: a successful wait takes one unit, a successful signal gives one back, and a
-- call that fails changes nothing.
pub record SemaLaws {W : Type 0} (p : Platform W) (units : ℤ → W → ℕ) : Type 0 where
  pub wait_takes :
      (id : ℤ) (w : W)
      → is_neg (p.wait_sema id w).0 ≡ false
      → units id (p.wait_sema id w).1 + 1 ≡ units id w
  pub wait_fails :
      (id : ℤ) (w : W)
      → is_neg (p.wait_sema id w).0 ≡ true
      → units id (p.wait_sema id w).1 ≡ units id w
  pub signal_gives :
      (id : ℤ) (w : W)
      → is_neg (p.signal_sema id w).0 ≡ false
      → units id (p.signal_sema id w).1 ≡ units id w + 1

-- The semaphore calls never fail: the semaphore exists and is not deleted.
pub record SemaWorks {W : Type 0} (p : Platform W) : Type 0 where
  pub waits : (id : ℤ) (w : W) → is_neg (p.wait_sema id w).0 ≡ false
  pub signals : (id : ℤ) (w : W) → is_neg (p.signal_sema id w).0 ≡ false

module _ {W : Type 0} (live : W → List ℤ) where
  -- The outcome of a creation in the state `w`.
  abbrev pub Created : W → ℤ × W → Type 0
  Created w r =
      ((is_neg r.0 ≡ true) × (live r.1 ≡ live w))
      ⊎ ((is_positive r.0 ≡ true) × (live r.1 ≡ r.0 ∷ live w))

  abbrev pub Deletes : ℤ → (W → W) → Type 0
  Deletes id delete = (w : W) (rest : List ℤ) → live w ≡ id ∷ rest → live (delete w) ≡ rest

-- The objects that exist, the newest first: a creation that fails changes nothing, one that succeeds
-- adds an object with a positive id, deleting the newest object leaves the others, and the calls
-- that create and delete nothing change nothing.
pub record ObjectLaws {W : Type 0} (p : Platform W) (live : W → List ℤ) : Type 0 where
  pub vpl : (n : ℕ) (w : W) → Created live w (p.create_vpl n w)
  pub event_flag : (w : W) → Created live w (p.create_event_flag w)
  pub sema : (n m : ℕ) (w : W) → Created live w (p.create_sema n m w)
  pub thread : (n m : ℕ) (w : W) → Created live w (p.create_thread n m w)
  pub vpl_gone : (id : ℤ) → Deletes live id (p.delete_vpl id)
  pub event_flag_gone : (id : ℤ) → Deletes live id (p.delete_event_flag id)
  pub sema_gone : (id : ℤ) → Deletes live id (p.delete_sema id)
  pub thread_gone : (id : ℤ) → Deletes live id (p.terminate_delete_thread id)
  pub start_keeps : (id : ℤ) (w : W) → live (p.start_thread id w).1 ≡ live w
  pub dipsw_keeps : (r : ℕ) (w : W) → live (p.dipsw_set r w).1 ≡ live w
  pub hook_keeps : (a : ℕ) (w : W) → live (p.register_kprintf_handler a w) ≡ live w
