-- ===== src/Base/Lists.antt =====
-- Lists measured and indexed by native numbers, under the library's names.
use Prim.Native.Nat.{ℕ, zero, suc, ◌+◌, ◌-◌, ◌≤◌, ◌<◌, min}
use mathlib.Core.Path.{◌≡◌, refl, ap}
use mathlib.Core.Logic.{◌≢◌}
use mathlib.Core.List.{List, [], ◌∷◌, ◌++◌}
use mathlib.Core.Option.{Option, none, some}
use native.Mathlib.Omega.{arith}

module _ {ℓ} {A : Type ℓ} where
  abbrev pub length : List A → ℕ
  length [] = 0
  length (x ∷ xs) = suc (length xs)

  abbrev pub get_elem? : List A → ℕ → Option A
  get_elem? [] i = none
  get_elem? (x ∷ xs) zero = some x
  get_elem? (x ∷ xs) (suc i) = get_elem? xs i

  abbrev pub get_or : List A → ℕ → A → A
  get_or [] i d = d
  get_or (x ∷ xs) zero d = x
  get_or (x ∷ xs) (suc i) d = get_or xs i d

  -- A write out of bounds changes nothing.
  abbrev pub set : List A → ℕ → A → List A
  set [] i v = []
  set (x ∷ xs) zero v = v ∷ xs
  set (x ∷ xs) (suc i) v = x ∷ set xs i v

  abbrev pub take : ℕ → List A → List A
  take zero xs = []
  take (suc n) [] = []
  take (suc n) (x ∷ xs) = x ∷ take n xs

  abbrev pub drop : ℕ → List A → List A
  drop zero xs = xs
  drop (suc n) [] = []
  drop (suc n) (x ∷ xs) = drop n xs

  abbrev pub replicate : ℕ → A → List A
  replicate zero a = []
  replicate (suc n) a = a ∷ replicate n a

  -- The elements of `src` over those of `xs` from `off` on; nothing is written past the end.
  abbrev pub put : List A → ℕ → List A → List A
  put [] off src = []
  put (x ∷ xs) zero [] = x ∷ xs
  put (x ∷ xs) zero (y ∷ src) = y ∷ put xs zero src
  put (x ∷ xs) (suc off) src = x ∷ put xs off src

  pub length-append : (xs ys : List A) → length (xs ++ ys) ≡ length xs + length ys
  length-append [] ys = omega arith
  length-append (x ∷ xs) ys = omega (arith, length-append xs ys)

  pub length-set : (xs : List A) (i : ℕ) (v : A) → length (set xs i v) ≡ length xs
  length-set [] i v = refl
  length-set (x ∷ xs) zero v = refl
  length-set (x ∷ xs) (suc i) v = ap suc (length-set xs i v)

  pub get_or-set_self :
      (xs : List A) (i : ℕ) (v d : A) → i < length xs → get_or (set xs i v) i d ≡ v
  get_or-set_self [] i v d h = elim h [ ]
  get_or-set_self (x ∷ xs) zero v d h = refl
  get_or-set_self (x ∷ xs) (suc i) v d h = get_or-set_self xs i v d (omega arith)

  pub get_or-set_ne :
      (xs : List A) (i j : ℕ) (v d : A) → i ≢ j → get_or (set xs i v) j d ≡ get_or xs j d
  get_or-set_ne [] i j v d h = refl
  get_or-set_ne (x ∷ xs) zero zero v d h = absurd (h refl)
  get_or-set_ne (x ∷ xs) zero (suc j) v d h = refl
  get_or-set_ne (x ∷ xs) (suc i) zero v d h = refl
  get_or-set_ne (x ∷ xs) (suc i) (suc j) v d h = get_or-set_ne xs i j v d (λ e. h (ap suc e))

  pub length-take : (n : ℕ) (xs : List A) → length (take n xs) ≡ min n (length xs)
  length-take zero xs = omega arith
  length-take (suc n) [] = omega arith
  length-take (suc n) (x ∷ xs) = omega (arith, length-take n xs)

  pub length-drop : (n : ℕ) (xs : List A) → length (drop n xs) ≡ length xs - n
  length-drop zero xs = omega arith
  length-drop (suc n) [] = omega arith
  length-drop (suc n) (x ∷ xs) = omega (arith, length-drop n xs)

  pub take-length : (xs : List A) → take (length xs) xs ≡ xs
  take-length [] = refl
  take-length (x ∷ xs) = ap (◌∷◌ x) (take-length xs)

  pub take_of_le : (n : ℕ) (xs : List A) → length xs ≤ n → take n xs ≡ xs
  take_of_le zero [] h = refl
  take_of_le zero (x ∷ xs) h = absurd (omega arith)
  take_of_le (suc n) [] h = refl
  take_of_le (suc n) (x ∷ xs) h = ap (◌∷◌ x) (take_of_le n xs (omega arith))

  pub length-replicate : (n : ℕ) (a : A) → length (replicate n a) ≡ n
  length-replicate zero a = refl
  length-replicate (suc n) a = ap suc (length-replicate n a)

module _ {ℓ} {A : Type ℓ} where
  pub length-put : (xs : List A) (off : ℕ) (src : List A) → length (put xs off src) ≡ length xs
  length-put [] off src = refl
  length-put (x ∷ xs) zero [] = refl
  length-put (x ∷ xs) zero (y ∷ src) = ap suc (length-put xs zero src)
  length-put (x ∷ xs) (suc off) src = ap suc (length-put xs off src)

  -- What was put can be read back.
  pub take-drop-put_self :
      (xs : List A) (off : ℕ) (src : List A)
      → off + length src ≤ length xs
      → take (length src) (drop off (put xs off src)) ≡ src
  take-drop-put_self [] zero [] h = refl
  take-drop-put_self [] (suc off) src h = absurd (omega arith)
  take-drop-put_self [] zero (y ∷ src) h = absurd (omega arith)
  take-drop-put_self (x ∷ xs) zero [] h = refl
  take-drop-put_self (x ∷ xs) zero (y ∷ src) h =
      ap (◌∷◌ y) (take-drop-put_self xs zero src (omega arith))
  take-drop-put_self (x ∷ xs) (suc off) src h = take-drop-put_self xs off src (omega arith)

  -- A later write leaves the elements before its place alone.
  pub take-put :
      (n : ℕ) (xs : List A) (off : ℕ) (src : List A) → n ≤ off → take n (put xs off src) ≡ take n xs
  take-put zero xs off src h = refl
  take-put (suc n) [] off src h = refl
  take-put (suc n) (x ∷ xs) zero src h = absurd (omega arith)
  take-put (suc n) (x ∷ xs) (suc off) src h = ap (◌∷◌ x) (take-put n xs off src (omega arith))

  -- Nor does it change what stands behind what it writes.
  pub drop-put :
      (n : ℕ) (xs : List A) (off : ℕ) (src : List A)
      → off + length src ≤ n
      → drop n (put xs off src) ≡ drop n xs
  drop-put zero [] off src h = refl
  drop-put zero (x ∷ xs) zero [] h = refl
  drop-put zero (x ∷ xs) zero (y ∷ src) h = absurd (omega arith)
  drop-put zero (x ∷ xs) (suc off) src h = absurd (omega arith)
  drop-put (suc n) [] off src h = refl
  drop-put (suc n) (x ∷ xs) zero [] h = refl
  drop-put (suc n) (x ∷ xs) zero (y ∷ src) h = drop-put n xs zero src (omega arith)
  drop-put (suc n) (x ∷ xs) (suc off) src h = drop-put n xs off src (omega arith)
