-- ===== src/Kprintf/Handlers/Slots.antt =====
-- Facts on the table of handlers: the free slots, and the number of registered ones.
use libkprintf.Prelude.{
  ℕ, zero, suc, ◌+◌, ◌≤◌, ◌<◌, ◌≡◌, refl, ◌≢◌, inl, inr, List, [], ◌∷◌, some, arith, ◌==◌,
  if◌then◌else◌, length, get_elem?, set, ℤ, pos, negsuc, Bool-cases,
}
use libkprintf.Kprintf.{null, RegHandler, free_slot}
use libkprintf.Kprintf.Handlers.{find_free_from}

-- How many slots hold a callback.
unfoldable pub registered : List RegHandler → ℕ
registered [] = 0
registered (h ∷ hs) = (if h.cb == null then 0 else 1) + registered hs

-- An unused slot holds nothing but zeros.
abbrev pub FreeAreZero : List RegHandler → Type 0
FreeAreZero [] = Unit
FreeAreZero (h ∷ hs) = (h.cb ≡ null → h ≡ free_slot) × FreeAreZero hs

pub registered-le-length : (hs : List RegHandler) → registered hs ≤ length hs
unfolding registered
registered-le-length [] = omega arith
registered-le-length (h ∷ hs) = ground (arith, registered-le-length hs)

-- The search for a free slot finds the first one, or every slot is taken.
abbrev pub Found : ℕ → List RegHandler → ℤ → Type 0
Found i hs (negsuc n) = (n ≡ 0) × (registered hs ≡ length hs)
Found i hs (pos j) =
    (k : ℕ) × (h : RegHandler) × (j ≡ i + k)
    × (get_elem? hs k ≡ some h)
    × (h.cb ≡ null)
    × ((m : ℕ) (g : RegHandler) → m < k → get_elem? hs m ≡ some g → g.cb ≢ null)

Found-cons :
    (i : ℕ) (g : RegHandler) (hs : List RegHandler) (r : ℤ)
    → g.cb ≢ null
    → Found (i + 1) hs r
    → Found i (g ∷ hs) r
unfolding registered
Found-cons i g hs (negsuc n) used (e, full) = (e, ground arith)
Found-cons i g hs (pos j) used (k, h, e, at, free, first) =
    (suc k, h, omega arith, at, free, earlier)
  where
    earlier : (m : ℕ) (f : RegHandler) → m < suc k → get_elem? (g ∷ hs) m ≡ some f → f.cb ≢ null
    earlier zero f lt e' = ground arith
    earlier (suc m) f lt e' = first m f (omega arith) e'

-- find_free_handler_index gives the first free slot, or -1 if every slot is taken.
pub find_free-Found : (i : ℕ) (hs : List RegHandler) → Found i hs (find_free_from i hs)
unfolding find_free_from registered
find_free-Found i [] = (refl, refl)
find_free-Found i (h ∷ hs) = elim (Bool-cases (h.cb == null)) [
  | inl free ↦ rw free (0, h, omega arith, refl, ground arith, λ m g lt. absurd (omega arith))
  | inr used ↦
      rw used
        (Found-cons i h hs (find_free_from (i + 1) hs) (ground arith) (find_free-Found (i + 1) hs))
]

pub registered-lt-length :
    (hs : List RegHandler) (i : ℕ) (h : RegHandler)
    → get_elem? hs i ≡ some h
    → h.cb ≡ null
    → registered hs < length hs
unfolding registered
registered-lt-length [] i h at free = absurd (cc)
registered-lt-length (x ∷ hs) zero h at free = ground (arith, registered-le-length hs)
registered-lt-length (x ∷ hs) (suc i) h at free =
    ground (arith, registered-lt-length hs i h at free)

-- A write to a free slot adds one handler, a write of zeros to a taken one removes it.
pub registered-set_taken :
    (hs : List RegHandler) (i : ℕ) (h new : RegHandler)
    → get_elem? hs i ≡ some h
    → h.cb ≡ null
    → new.cb ≢ null
    → registered (set hs i new) ≡ registered hs + 1
unfolding registered
registered-set_taken [] i h new at free used = absurd (cc)
registered-set_taken (x ∷ hs) zero h new at free used = ground arith
registered-set_taken (x ∷ hs) (suc i) h new at free used =
    ground (arith, registered-set_taken hs i h new at free used)

pub registered-set_free :
    (hs : List RegHandler) (i : ℕ) (h : RegHandler)
    → get_elem? hs i ≡ some h
    → h.cb ≢ null
    → registered (set hs i free_slot) + 1 ≡ registered hs
unfolding registered
registered-set_free [] i h at used = absurd (cc)
registered-set_free (x ∷ hs) zero h at used = ground arith
registered-set_free (x ∷ hs) (suc i) h at used = ground (arith, registered-set_free hs i h at used)

pub FreeAreZero-set :
    (hs : List RegHandler) (i : ℕ) (new : RegHandler)
    → (new.cb ≡ null → new ≡ free_slot)
    → FreeAreZero hs
    → FreeAreZero (set hs i new)
FreeAreZero-set [] i new ok z = tt
FreeAreZero-set (x ∷ hs) zero new ok z = (ok, z.1)
FreeAreZero-set (x ∷ hs) (suc i) new ok z = (z.0, FreeAreZero-set hs i new ok z.1)

pub FreeAreZero-get :
    (hs : List RegHandler) (i : ℕ) (h : RegHandler)
    → FreeAreZero hs
    → get_elem? hs i ≡ some h
    → h.cb ≡ null
    → h ≡ free_slot
FreeAreZero-get [] i h z at free = absurd (cc)
FreeAreZero-get (x ∷ hs) zero h z at free = let e : x ≡ h = cc in ground (arith, z.0 (ground arith))
FreeAreZero-get (x ∷ hs) (suc i) h z at free = FreeAreZero-get hs i h z.1 at free
