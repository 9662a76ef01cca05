-- ===== src/Util/Log/Table.antt =====
-- libs/psp/util/log.c: what the log's table keeps.
use libkprintf.Util.Log.{
  Log, find_free_log, place_log, log_unregister_handler, clear_log, log_register_handler,
  LogHandler, log_max_handlers,
}
use libkprintf.Prelude.{
  List, ℕ, Bool-cases, Option, ℤ, length, get_elem?, ◌∷◌, negsuc, ◌≢◌, ◌==◌, ◌≤◌, ◌≡◌, arith, some,
  if◌then◌else◌, pos, inl, ◌+◌, inr, suc, [], leb, set, length-set, refl, ◌∙◌, zero, none,
}

unfoldable pub in_use : List LogHandler → ℕ
in_use [] = 0
in_use (h ∷ hs) = (if h.cb == 0 then 0 else 1) + in_use hs

-- The table has its fixed size and the counter counts the slots in use.
pub record IsLog (l : Log) : Type 0 where
  pub slots : length l.handlers ≡ log_max_handlers
  pub counted : l.count ≡ in_use l.handlers

in_use-le : (hs : List LogHandler) → in_use hs ≤ length hs
unfolding in_use
in_use-le [] = omega arith
in_use-le (h ∷ hs) = ground (arith, in_use-le hs)

in_use-set_taken :
    (hs : List LogHandler) (i : ℕ) (h new : LogHandler)
    → get_elem? hs i ≡ some h
    → h.cb ≡ 0
    → new.cb ≢ 0
    → in_use (set hs i new) ≡ in_use hs + 1
unfolding in_use
in_use-set_taken [] i h new at free used = absurd (cc)
in_use-set_taken (x ∷ hs) zero h new at free used = ground arith
in_use-set_taken (x ∷ hs) (suc i) h new at free used =
    ground (arith, in_use-set_taken hs i h new at free used)

in_use-set_free :
    (hs : List LogHandler) (i : ℕ) (h new : LogHandler)
    → get_elem? hs i ≡ some h
    → h.cb ≢ 0
    → new.cb ≡ 0
    → in_use (set hs i new) + 1 ≡ in_use hs
unfolding in_use
in_use-set_free [] i h new at used free = absurd (cc)
in_use-set_free (x ∷ hs) zero h new at used free = ground arith
in_use-set_free (x ∷ hs) (suc i) h new at used free =
    ground (arith, in_use-set_free hs i h new at used free)

-- The search ends at a free slot, or every slot is in use.
abbrev LogFound : ℕ → List LogHandler → ℤ → Type 0
LogFound i hs (negsuc n) = in_use hs ≡ length hs
LogFound i hs (pos j) =
    (k : ℕ) × (h : LogHandler) × (j ≡ i + k) × (get_elem? hs k ≡ some h) × (h.cb ≡ 0)

LogFound-cons :
    (i : ℕ) (g : LogHandler) (hs : List LogHandler) (r : ℤ)
    → g.cb ≢ 0
    → LogFound (i + 1) hs r
    → LogFound i (g ∷ hs) r
unfolding in_use
LogFound-cons i g hs (negsuc n) used full = ground arith
LogFound-cons i g hs (pos j) used (k, h, e, at, free) = (suc k, h, omega arith, at, free)

find_free-LogFound : (i : ℕ) (hs : List LogHandler) → LogFound i hs (find_free_log i hs)
unfolding find_free_log in_use
find_free-LogFound i [] = refl
find_free-LogFound i (h ∷ hs) = elim (Bool-cases (h.cb == 0)) [
  | inl free ↦ rw free (0, h, omega arith, refl, ground arith)
  | inr used ↦ rw used (
      LogFound-cons i h hs (find_free_log (i + 1) hs) (ground arith)
        (find_free-LogFound (i + 1) hs))
]

place_log-IsLog :
    (h : LogHandler) (r : ℤ) (l : Log)
    → h.cb ≢ 0
    → LogFound 0 l.handlers r
    → IsLog l
    → IsLog (place_log h r l).1
unfolding place_log
place_log-IsLog h (negsuc n) l used found t = t
place_log-IsLog h (pos j) l used (k, g, e, at, free) t =
    let same : j ≡ k = omega arith in
    record {
      slots = length-set l.handlers j h ∙ t.slots;
      counted = omega (
        arith,
        t.counted,
        t.slots,
        in_use-le l.handlers,
        in_use-set_taken l.handlers j g h (rw same at) free used,
      );
    }

-- From a consistent log, log_register_handler keeps the size of the table and the counter of the
-- slots in use right, on every path.
pub log_register_handler-IsLog :
    (cb flush arg : ℕ) (l : Log) → IsLog l → IsLog (log_register_handler cb flush arg l).1
unfolding log_register_handler
log_register_handler-IsLog cb flush arg l t = elim (Bool-cases (cb == 0)) [
  | inl no_cb ↦ rw no_cb t
  | inr used ↦ elim (Bool-cases (leb log_max_handlers l.count)) [
    | inl full ↦ rw (used, full) t
    | inr room ↦
        rw (used, room)
          (place_log-IsLog (record { cb = cb; flush = flush; arg = arg })
            (find_free_log 0 l.handlers) l (ground arith) (find_free-LogFound 0 l.handlers) t)
  ]
]

clear_log-IsLog :
    (i : ℕ) (o : Option LogHandler) (l : Log)
    → get_elem? l.handlers i ≡ o
    → IsLog l
    → IsLog (clear_log i o l).1
unfolding clear_log
clear_log-IsLog i none l at t = t
clear_log-IsLog i (some h) l at t = elim (Bool-cases (h.cb == 0)) [
  | inl free ↦ rw free t
  | inr used ↦
      let gone : LogHandler = record h { cb = 0; arg = 0 } in
      rw used (record {
        slots = length-set l.handlers i gone ∙ t.slots;
        counted = omega (
          arith,
          t.counted,
          t.slots,
          in_use-le l.handlers,
          in_use-set_free l.handlers i h gone at (ground arith) refl,
        );
      })
]

-- From a consistent log, log_unregister_handler keeps the size of the table and the counter of the
-- slots in use right, for any index.
pub log_unregister_handler-IsLog :
    (index : ℤ) (l : Log) → IsLog l → IsLog (log_unregister_handler index l).1
unfolding log_unregister_handler
log_unregister_handler-IsLog (negsuc n) l t = t
log_unregister_handler-IsLog (pos i) l t = elim (Bool-cases (leb log_max_handlers i)) [
  | inl far ↦ rw far t
  | inr near ↦ rw near (clear_log-IsLog i (get_elem? l.handlers i) l refl t)
]
