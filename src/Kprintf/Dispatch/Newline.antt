-- ===== src/Kprintf/Dispatch/Newline.antt =====
-- handler.c, default_file_handler: the newline that it appends, and the room that this takes.
use libkprintf.Kprintf.Dispatch.{add_newline, write_byte}
use libkprintf.Prelude.{
  List, ◌<◌, ◌≡◌, ◌+◌, ◌-◌, length-set, true, lt→ltb, ◌≤◌, ◌≢◌, arith, ◌∙◌, ◌==◌, get_elem?-set_ne,
  get_elem?-some, false, get_elem?-set_self, Bool-cases, inl, ap, ==_iff, inr, zero, refl,
  get_elem?, length, none, set, some, suc, ℕ,
}

-- The outcome of appending: the text ends in a newline, the bytes before the old end are kept, and
-- the buffer is no longer than it was.
pub record EndsInNewline (buf : List ℕ) (len : ℕ) (buf' : List ℕ) (len' : ℕ) : Type 0 where
  pub ends : get_elem? buf' (len' - 1) ≡ some b'\n'
  pub at_most_one_more : len' ≤ len + 1
  pub no_shorter : len ≤ len'
  pub fits : len' < length buf'
  pub capacity : length buf' ≡ length buf
  pub kept : (i : ℕ) → i < len → get_elem? buf' i ≡ get_elem? buf i

write_byte-some :
    (buf : List ℕ) (i c : ℕ) → i < length buf → write_byte buf i c ≡ some (set buf i c)
unfolding write_byte
write_byte-some buf i c lt = rw (lt→ltb i (length buf) lt)

append_newline : List ℕ → ℕ → List ℕ
append_newline buf n = set (set buf (suc n) b'\n') (suc n + 1) 0

add_newline-step :
    (buf : List ℕ) (n last : ℕ)
    → suc n + 1 < length buf
    → get_elem? buf n ≡ some last
    → (last == b'\n') ≡ false
    → add_newline true buf (suc n) ≡ some (append_newline buf n, suc n + 1)
unfolding add_newline append_newline
add_newline-step buf n last room at other = rw (
  at,
  other,
  write_byte-some buf (suc n) b'\n' (omega arith),
  write_byte-some (set buf (suc n) b'\n') (suc n + 1) 0
      (omega (arith, length-set buf (suc n) b'\n')),
)

append_newline-EndsInNewline :
    (buf : List ℕ) (n : ℕ)
    → suc n + 1 < length buf
    → EndsInNewline buf (suc n) (append_newline buf n) (suc n + 1)
unfolding append_newline
append_newline-EndsInNewline buf n room =
    let once : List ℕ = set buf (suc n) b'\n' in
    let len_once : length once ≡ length buf = length-set buf (suc n) b'\n' in
    let len_twice : length (set once (suc n + 1) 0) ≡ length buf =
      length-set once (suc n + 1) 0 ∙ len_once in
    let e : suc n + 1 - 1 ≡ suc n = omega arith in
    record {
      ends = rw e (
          get_elem?-set_ne once 0 (omega arith)
          ∙ get_elem?-set_self buf (suc n) b'\n' (omega arith));
      at_most_one_more = omega arith;
      no_shorter = omega arith;
      fits = omega arith;
      capacity = len_twice;
      kept =
          λ i lt. get_elem?-set_ne once 0 (omega arith) ∙ get_elem?-set_ne buf b'\n' (omega arith);
    }

-- With a text of at least one byte and two bytes of room behind it, the default handler's newline
-- stays in the buffer, and the text then ends in exactly that newline.
pub add_newline-EndsInNewline :
    (buf : List ℕ) (len : ℕ)
    → 0 < len
    → len + 1 < length buf
    → (buf' : List ℕ) × (len' : ℕ) × (add_newline true buf len ≡ some (buf', len'))
      × EndsInNewline buf len buf' len'
add_newline-EndsInNewline buf zero pos_len room = absurd (omega arith)
add_newline-EndsInNewline buf (suc n) pos_len room =
    let (last, at) = get_elem?-some buf n (omega arith) in
    elim (Bool-cases (last == b'\n')) [
      | inl same ↦ (
        buf,
        suc n,
        unfold add_newline in rw (at, same),
        record {
          ends =
              let e : suc n - 1 ≡ n = omega arith in
              rw (e, at) (ap some ((==_iff last b'\n').0 same));
          at_most_one_more = omega arith;
          no_shorter = omega arith;
          fits = omega arith;
          capacity = refl;
          kept = λ i lt. refl;
        },
      )
      | inr other ↦ (
        append_newline buf n,
        suc n + 1,
        add_newline-step buf n last room at other,
        append_newline-EndsInNewline buf n room,
      )
    ]

-- A text that ends in a newline is left as it is.
add_newline-ends :
    (buf : List ℕ) (len : ℕ)
    → 0 < len
    → get_elem? buf (len - 1) ≡ some b'\n'
    → add_newline true buf len ≡ some (buf, len)
unfolding add_newline
add_newline-ends buf zero pos_len at = absurd (omega arith)
add_newline-ends buf (suc n) pos_len at =
    let e : suc n - 1 ≡ n = omega arith in
    let at' : get_elem? buf n ≡ some b'\n' = rw e at at in rw at'

-- With a text of at least one byte and two bytes of room behind it: a second pass of the default
-- handler's newline, as when it is registered for two files, appends nothing.
pub add_newline-idempotent :
    (buf buf' : List ℕ) (len len' : ℕ)
    → 0 < len
    → len + 1 < length buf
    → add_newline true buf len ≡ some (buf', len')
    → add_newline true buf' len' ≡ some (buf', len')
add_newline-idempotent buf buf' len len' pos_len room e =
    let (b, n, e', ends) = add_newline-EndsInNewline buf len pos_len room in
    let same_buf : b ≡ buf' = cc in
    let same_len : n ≡ len' = cc in
    rw (← same_buf, ← same_len) (add_newline-ends b n (omega (arith, ends.no_shorter)) ends.ends)

-- A text of at least one byte that does not end in a newline, in a buffer with less than two bytes
-- behind it: the default handler's newline and NUL go past the end of the buffer.
pub add_newline-overflow :
    (buf : List ℕ) (n last : ℕ)
    → get_elem? buf n ≡ some last
    → last ≢ b'\n'
    → length buf ≤ suc n + 1
    → add_newline true buf (suc n) ≡ none
unfolding add_newline write_byte
add_newline-overflow buf n last at other tight =
    let e : (last == b'\n') ≡ false = ground arith in
    rw (at, e) (ground (arith, length-set buf (suc n) b'\n'))
