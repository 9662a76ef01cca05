-- ===== src/Kprintf/Queue/Fresh.antt =====
-- msg.c, new_msg: the message that it builds, and the room that it leaves for the handlers.
use libkprintf.Kprintf.Queue.{
  strncpy, fresh_msg, msg_size, Sys, Msg, new_msg, null, sizeof_msg, Ptr,
}
use libkprintf.Platform.{Platform}
use libkprintf.Prelude.{
  ℕ, List, ◌≤◌, length, ◌≡◌, ◌+◌, take, ◌<◌, arith, ◌≢◌, ◌^◌, get_elem?, ap, zero, ◌==◌, refl, [],
  length-replicate, ◌⊎◌, ◌∙◌, length-set, get_elem?-set_self, Bool-cases, inl, inr, Bool, false,
  is_neg, pos, replicate, set, some, suc, true, ◌∷◌, none,
}
use libkprintf.Kprintf.Queue.Chain.{write_self, write_ne}

-- What the documentation of the pool promises: a block that it gives is none of those in use.
abbrev pub PoolGives : {W : Type 0} → Platform W → Sys W → Type 0
PoolGives p s =
    (n : ℕ)
    → let a = p.try_allocate_vpl s.vplid n s.world in
      is_neg a.0 ≡ false → (a.1 ≢ null) × (s.heap a.1 ≡ none)

length-strncpy : (dst src : List ℕ) (n : ℕ) → length (strncpy dst src n) ≡ length dst
unfolding strncpy
length-strncpy dst src zero = refl
length-strncpy [] src (suc n) = refl
length-strncpy (d ∷ dst) [] (suc n) = refl
length-strncpy (d ∷ dst) (c ∷ src) (suc n) = ground (arith, length-strncpy dst src n)

-- The first `n` bytes are there and none of them is NUL, as in what vsnprintf prints without %c of 0.
abbrev pub Printed : List ℕ → ℕ → Type 0
Printed src zero = Unit
Printed [] (suc n) = ⊥
Printed (c ∷ src) (suc n) = (c ≢ 0) × Printed src n

take-strncpy :
    (dst src : List ℕ) (n : ℕ)
    → n ≤ length dst
    → Printed src n
    → take n (strncpy dst src n) ≡ take n src
unfolding strncpy
take-strncpy dst src zero le pr = refl
take-strncpy [] src (suc n) le pr = absurd (omega arith)
take-strncpy (d ∷ dst) [] (suc n) le pr = absurd pr
take-strncpy (d ∷ dst) (c ∷ src) (suc n) le (ne, pr) =
    let e : (c == 0) ≡ false = ground arith in
    rw (e, strncpy) (ap (◌∷◌ c) (take-strncpy dst src n (omega arith) pr))

take-set : (n : ℕ) (xs : List ℕ) (i v : ℕ) → n ≤ i → take n (set xs i v) ≡ take n xs
take-set zero xs i v le = refl
take-set (suc n) [] i v le = refl
take-set (suc n) (x ∷ xs) zero v le = absurd (omega arith)
take-set (suc n) (x ∷ xs) (suc i) v le = ap (◌∷◌ x) (take-set n xs i v (omega arith))

-- A message as new_msg leaves it: unlinked, with the printed text, NUL behind it, and a buffer whose
-- size is recorded truthfully and has 15 bytes behind the text's end.
pub record IsFresh (buf : List ℕ) (len : ℕ) (is_user : Bool) (m : Msg) : Type 0 where
  pub unlinked : m.next ≡ null
  pub mode : m.is_user ≡ is_user
  pub len_kept : m.len ≡ len
  pub size_kept : m.size ≡ length m.text
  pub room : m.len + 16 ≡ m.size
  pub text_kept : take len m.text ≡ take len buf
  pub ended : get_elem? m.text len ≡ some 0

-- For a text of fewer than 2^16 - 16 bytes no field of a new message is cut off.
pub fresh_msg-IsFresh :
    (buf : List ℕ) (len : ℕ) (is_user : Bool)
    → len + 16 < 2 ^ 16
    → Printed buf len
    → IsFresh buf len is_user (fresh_msg buf len is_user)
unfolding fresh_msg msg_size
fresh_msg-IsFresh buf len is_user small pr =
    let zeros : List ℕ = replicate (len + 1 + 1 + 14) 0 in
    let len_zeros : length zeros ≡ len + 16 = length-replicate (len + 1 + 1 + 14) 0 ∙ omega arith in
    let copied : List ℕ = strncpy zeros buf len in
    let len_copied : length copied ≡ len + 16 = length-strncpy zeros buf len ∙ len_zeros in
    record {
      unlinked = refl;
      mode = refl;
      len_kept = omega arith;
      size_kept = omega (arith, length-set copied len 0);
      room = omega arith;
      text_kept =
          take-set len copied len 0 (omega arith) ∙ take-strncpy zeros buf len (omega arith) pr;
      ended = get_elem?-set_self copied len 0 (omega arith);
    }

module _ {W : Type 0} (p : Platform W) (buf : List ℕ) (len : ℕ) (is_user : Bool) (s : Sys W) where
  -- For a text with no NUL among its bytes, short enough for the 16-bit size of a message:
  -- new_msg either passes on the error of the pool and changes no message, or gives the block
  -- that the pool gave it, with a fresh message in it, and changes no other.
  pub new_msg_lem :
      len + 16 < 2 ^ 16
      → Printed buf len
      → let a = p.try_allocate_vpl s.vplid (len + 28) s.world in
        let r = new_msg p buf len is_user s in
        ((is_neg a.0 ≡ true) × (r.0 ≡ a.0) × (r.2.heap ≡ s.heap))
        ⊎ ((is_neg a.0 ≡ false)
            × (r.0 ≡ pos 0)
            × (r.1 ≡ a.1)
            × ((m : Msg) × (r.2.heap a.1 ≡ some m) × IsFresh buf len is_user m)
            × ((b : Ptr) → b ≢ a.1 → r.2.heap b ≡ s.heap b))
  unfolding new_msg sizeof_msg msg_size
  new_msg_lem small pr =
      let size : 12 + (len + 1 + 1 + 14) ≡ len + 28 = omega arith in
      rw size (elim (Bool-cases (is_neg (p.try_allocate_vpl s.vplid (len + 28) s.world).0)) [
        | inl failed ↦ rw failed (inl (refl, refl, refl))
        | inr got ↦ rw got (
            inr (
              refl,
              refl,
              refl,
              (
                fresh_msg buf len is_user,
                write_self s.heap _ _,
                fresh_msg-IsFresh buf len is_user small pr,
              ),
              λ b ne. write_ne s.heap _ b _ ne,
            ))
      ])
