-- ===== src/Alloc/Box/Bytes.antt =====
-- What is read at an address after a write, for the bytes of a value behind a pointer.
use sgx_sdk_rs.Base.{
  ℕ, zero, suc, ◌+◌, ◌-◌, ◌≤◌, ◌<◌, ◌≡◌, ◌⊎◌, ◌∙◌, inl, inr, refl, arith, ap, ap₂, sym, List, [],
  ◌∷◌, length, get_or, true, false,
}
use sgx_sdk_rs.Alloc.Block.{in_span, write_zeros, write_word, read_word}
use sgx_sdk_rs.Alloc.Box.{read_bytes, write_bytes}

-- An address outside a stretch of bytes.
abbrev pub Outside : ℕ → ℕ → ℕ → Type 0
Outside a n x = (x < a) ⊎ (a + n ≤ x)

not_in_span : (a n x : ℕ) → Outside a n x → in_span a n x ≡ false
not_in_span a n x (inl h) = ground (arith, h)
not_in_span a n x (inr h) = ground (arith, h)

pub write_word-apart : (m : ℕ → ℕ) (a v x : ℕ) → Outside a 8 x → write_word m a v x ≡ m x
write_word-apart m a v x out = rw (not_in_span a 8 x out) refl

pub write_zeros-apart : (m : ℕ → ℕ) (a n x : ℕ) → Outside a n x → write_zeros m a n x ≡ m x
write_zeros-apart m a n x out = rw (not_in_span a n x out) refl

pub write_bytes-apart :
    (m : ℕ → ℕ) (a : ℕ) (bs : List ℕ) (x : ℕ) → Outside a (length bs) x → write_bytes m a bs x ≡ m x
write_bytes-apart m a bs x out = rw (not_in_span a (length bs) x out) refl

write_bytes-in :
    (m : ℕ → ℕ) (a : ℕ) (bs : List ℕ) (i : ℕ)
    → i < length bs
    → write_bytes m a bs (a + i) ≡ get_or bs i 0
write_bytes-in m a bs i small = rw (inside, back) refl
  where
    inside : in_span a (length bs) (a + i) ≡ true
    inside = ground (arith, small)

    back : a + i - a ≡ i
    back = omega arith

shift : (a i : ℕ) → a + 1 + i ≡ a + suc i
shift a i = omega arith

at_first : (f : ℕ → ℕ) (a : ℕ) → f (a + 0) ≡ f a
at_first f a = ap f (omega arith)

-- What is read depends on the bytes read alone.
pub read_bytes-same :
    (f g : ℕ → ℕ) (a n : ℕ)
    → ((i : ℕ) → i < n → f (a + i) ≡ g (a + i))
    → read_bytes f a n ≡ read_bytes g a n
unfolding read_bytes
read_bytes-same f g a zero same = refl
read_bytes-same f g a (suc n) same =
    ap₂ (λ (x : ℕ) (xs : List ℕ). x ∷ xs) (sym (at_first f a) ∙ same 0 (omega arith) ∙ at_first g a)
      (read_bytes-same f g (a + 1) n
        (λ i small. rw (shift a i) (same (suc i) (omega (arith, small)))))

pub read_word-same :
    (f g : ℕ → ℕ) (a : ℕ)
    → ((i : ℕ) → i < 8 → f (a + i) ≡ g (a + i))
    → read_word f a ≡ read_word g a
read_word-same f g a same =
    rw
      (
        first,
        same 1 (omega arith),
        same 2 (omega arith),
        same 3 (omega arith),
        same 4 (omega arith),
        same 5 (omega arith),
        same 6 (omega arith),
        same 7 (omega arith),
      )
      refl
  where
    first : f a ≡ g a
    first = sym (at_first f a) ∙ same 0 (omega arith) ∙ at_first g a

read_bytes-listed :
    (f : ℕ → ℕ) (a n : ℕ) (bs : List ℕ)
    → length bs ≡ n
    → ((i : ℕ) → i < n → f (a + i) ≡ get_or bs i 0)
    → read_bytes f a n ≡ bs
unfolding read_bytes
read_bytes-listed f a zero [] long at = refl
read_bytes-listed f a zero (b ∷ bs) long at = absurd (omega (arith, long))
read_bytes-listed f a (suc n) [] long at = absurd (omega (arith, long))
read_bytes-listed f a (suc n) (b ∷ bs) long at =
    ap₂ (λ (x : ℕ) (xs : List ℕ). x ∷ xs) (sym (at_first f a) ∙ at 0 (omega arith))
      (read_bytes-listed f (a + 1) n bs (omega (arith, long))
        (λ i small. rw (shift a i) (at (suc i) (omega (arith, small)))))

pub read_bytes-write_bytes :
    (m : ℕ → ℕ) (a n : ℕ) (bs : List ℕ) → length bs ≡ n → read_bytes (write_bytes m a bs) a n ≡ bs
read_bytes-write_bytes m a n bs long =
    read_bytes-listed (write_bytes m a bs) a n bs long
      (λ i small. write_bytes-in m a bs i (rw long small))
