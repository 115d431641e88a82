-- ===== src/Tseal/Typed/Elements.antt =====
-- sgx-tseal/src/seal.rs: the bytes of a slice of values, and the tests on their number.
use native.Mathlib.Nat.{mul-div_cancel, mul-mod_left}
use sgx_sdk_rs.Base.{
  ℕ, suc, ◌*◌, ◌%◌, ◌/◌, ◌<◌, ◌≡◌, refl, ap, sym, ◌∙◌, arith, List, [], ◌∷◌, ◌++◌, Bool, true,
  false, ltb, ◌==◌, ==_iff, length, take, drop, length-append, SgxStatus, Result, ok, err,
  reject_if, ◌>>=◌, ◌>>◌,
}
use sgx_sdk_rs.Tseal.Typed.{Contiguous, slice_bytes, elements, no_bytes}

take-append {ℓ} : {A : Type ℓ} (xs ys : List A) → take (length xs) (xs ++ ys) ≡ xs
take-append [] ys = refl
take-append (x ∷ xs) ys = ap (◌∷◌ x) (take-append xs ys)

drop-append {ℓ} : {A : Type ℓ} (xs ys : List A) → drop (length xs) (xs ++ ys) ≡ ys
drop-append [] ys = refl
drop-append (x ∷ xs) ys = drop-append xs ys

-- A method that tests, calls and wraps.
pub wrapped {ℓ κ} :
    {A : Type ℓ} {B : Type κ} (b : Bool) (e : SgxStatus) (r : Result A) (f : A → B) (y : B)
    → reject_if b e >> (r >>= λ x. ok (f x)) ≡ ok y
    → (b ≡ false) × ((x : A) × (r ≡ ok x) × (f x ≡ y))
wrapped true e r f y h = absurd (ground (arith, h))
wrapped false e (err e') f y h = absurd (ground (arith, h))
wrapped false e (ok x) f y h = (refl, (x, refl, ground (arith, h)))

module _ {T : Type 0} (t : Contiguous T) where
  pub length-slice_bytes : (vs : List T) → length (slice_bytes t vs) ≡ length vs * t.size
  length-slice_bytes [] = omega arith
  length-slice_bytes (v ∷ vs) = omega (
    arith,
    length-append (t.to_bytes v) (slice_bytes t vs),
    t.length_to_bytes v,
    length-slice_bytes vs,
  )

  pub elements-slice_bytes : (vs : List T) → elements t (length vs) (slice_bytes t vs) ≡ vs
  elements-slice_bytes [] = refl
  elements-slice_bytes (v ∷ vs) =
      let bytes = t.to_bytes v in
      let rest = slice_bytes t vs in
      let first : take t.size (bytes ++ rest) ≡ bytes =
        ap (λ n. take n (bytes ++ rest)) (sym (t.length_to_bytes v)) ∙ take-append bytes rest in
      let others : drop t.size (bytes ++ rest) ≡ rest =
        ap (λ n. drop n (bytes ++ rest)) (sym (t.length_to_bytes v)) ∙ drop-append bytes rest in
      rw (first, others, t.from-to v, elements-slice_bytes vs) refl

  -- The tests on the length of a slice that is not empty, of values that are not.
  pub slice_tests :
      (vs : List T) (n : ℕ)
      → n ≡ length vs * t.size
      → no_bytes t vs ≡ false
      → ((t.size == 0) ≡ false)
        × (ltb n t.size ≡ false)
        × ((n % t.size == 0) ≡ true)
        × (n / t.size ≡ length vs)
  slice_tests [] n at some_bytes = absurd (ground (arith, some_bytes))
  slice_tests (v ∷ vs) n at some_bytes =
      let count = suc (length vs) in
      let nonzero : (t.size == 0) ≡ false = ground (arith, some_bytes) in
      let positive : 0 < t.size = ground (arith, nonzero) in
      let rest_of : n % t.size ≡ 0 = ap (λ m. m % t.size) at ∙ mul-mod_left count t.size in
      (
        nonzero,
        ground (arith, at),
        (==_iff _ _).1 rest_of,
        ap (λ m. m / t.size) at ∙ mul-div_cancel count positive,
      )
