-- ===== src/Trts/Memeq/Equal.antt =====
-- `consttime_memequal` of sgx-trts/src/memeq.rs against equality of the bytes.
use mathlib.Core.Path.{subst}
use sgx_sdk_rs.Trts.{Slice}
use sgx_sdk_rs.Base.{
  ap₂, ℕ, zero, suc, ◌+◌, ◌-◌, ◌%◌, ◌^◌, ◌<◌, ◌≡◌, ◌≢◌, ◌⊎◌, ◌↔◌, not, inl, inr, refl, arith, List,
  [], ◌∷◌, Bool, true, ◌&&◌, ltb, ◌==◌, length, get_or, bit_and, bit_or, bit_xor, IsBytes,
  if◌then◌else◌,
}
use sgx_sdk_rs.Base.Bits.{all_below, all_below_sound}
use sgx_sdk_rs.Trts.Memeq.{
  compare_bytes, consttime_memequal, shift_right_8, consttime_memeq, consttime_memeq_slice,
}

abbrev or_entry : ℕ → ℕ → Bool
or_entry a b =
    ltb (bit_or a b) 256 && (if bit_or a b == 0 then a == 0 && b == 0 else not (a == 0 && b == 0))

abbrev xor_entry : ℕ → ℕ → Bool
xor_entry a b = ltb (bit_xor a b) 256 && (if bit_xor a b == 0 then a == b else not (a == b))

or_table : all_below 256 (λ a. all_below 256 (λ b. or_entry a b)) ≡ true
unfolding all_below
or_table = refl

xor_table : all_below 256 (λ a. all_below 256 (λ b. xor_entry a b)) ≡ true
unfolding all_below
xor_table = refl

bit_or-bytes :
    (a b : ℕ) → a < 256 → b < 256 → (bit_or a b < 256) × ((bit_or a b ≡ 0) ↔ ((a ≡ 0) × (b ≡ 0)))
bit_or-bytes a b small small' =
    let row = all_below_sound 256 (λ a. all_below 256 (λ b. or_entry a b)) a or_table small in
    let entry = all_below_sound 256 (λ b. or_entry a b) b row small' in ground (arith, entry)

bit_xor-bytes : (a b : ℕ) → a < 256 → b < 256 → (bit_xor a b < 256) × ((bit_xor a b ≡ 0) ↔ (a ≡ b))
bit_xor-bytes a b small small' =
    let row = all_below_sound 256 (λ a. all_below 256 (λ b. xor_entry a b)) a xor_table small in
    let entry = all_below_sound 256 (λ b. xor_entry a b) b row small' in ground (arith, entry)

get_or-byte : (p : List ℕ) (i : ℕ) → IsBytes p → get_or p i 0 < 256
get_or-byte [] i bytes = omega arith
get_or-byte (x ∷ p) zero (small, rest) = small
get_or-byte (x ∷ p) (suc i) (small, rest) = get_or-byte p i rest

-- The bytes before `len` are the same.
abbrev SameBefore : List ℕ → List ℕ → ℕ → Type 0
SameBefore p1 p2 zero = Unit {0}
SameBefore p1 p2 (suc len) = (get_or p1 len 0 ≡ get_or p2 len 0) × SameBefore p1 p2 len

compare_bytes-SameBefore :
    (p1 p2 : List ℕ) (len res : ℕ)
    → IsBytes p1
    → IsBytes p2
    → res < 256
    → (compare_bytes p1 p2 len res < 256)
      × ((compare_bytes p1 p2 len res ≡ 0) ↔ ((res ≡ 0) × SameBefore p1 p2 len))
unfolding compare_bytes
compare_bytes-SameBefore p1 p2 zero res b1 b2 small = (small, (λ e. (e, tt), λ h. h.0))
compare_bytes-SameBefore p1 p2 (suc len) res b1 b2 small =
    let x =
      bit_xor-bytes (get_or p1 len 0) (get_or p2 len 0) (get_or-byte p1 len b1)
        (get_or-byte p2 len b2) in
    let o = bit_or-bytes res (bit_xor (get_or p1 len 0) (get_or p2 len 0)) small x.0 in
    let rest = compare_bytes-SameBefore p1 p2 len _ b1 b2 o.0 in
    (
      rest.0,
      (
        λ e.
            let (seen, same) = rest.1.0 e in
            let (before, here) = o.1.0 seen in (before, (x.1.0 here, same)),
        λ h. rest.1.1 (o.1.1 (h.0, x.1.1 h.1.0), h.1.1),
      ),
    )

same_or_not : (a b : ℕ) → (a ≡ b) ⊎ (a ≢ b)
same_or_not a b = ground arith

SameBefore-at :
    (p1 p2 : List ℕ) (len i : ℕ) → SameBefore p1 p2 len → i < len → get_or p1 i 0 ≡ get_or p2 i 0
SameBefore-at p1 p2 zero i same below = absurd (omega (arith, below))
SameBefore-at p1 p2 (suc len) i (here, rest) below = elim (same_or_not i len) [
  | inl e ↦ rw e here
  | inr ne ↦ SameBefore-at p1 p2 len i rest (omega (arith, below, ne))
]

SameBefore-refl : (p : List ℕ) (len : ℕ) → SameBefore p p len
SameBefore-refl p zero = tt
SameBefore-refl p (suc len) = (refl, SameBefore-refl p len)

equal_entries :
    (p1 p2 : List ℕ)
    → length p1 ≡ length p2
    → ((i : ℕ) → i < length p1 → get_or p1 i 0 ≡ get_or p2 i 0)
    → p1 ≡ p2
equal_entries [] [] len same = refl
equal_entries [] (y ∷ p2) len same = absurd (omega (arith, len))
equal_entries (x ∷ p1) [] len same = absurd (omega (arith, len))
equal_entries (x ∷ p1) (y ∷ p2) len same =
    ap₂ ◌∷◌ (same 0 (omega arith))
      (equal_entries p1 p2 (omega (arith, len)) (λ i below. same (suc i) (omega (arith, below))))

-- The arithmetic that takes 0 to 1 and the other bytes to 0.
fold_result :
    (res : ℕ)
    → res < 256
    → ((res ≡ 0) × (bit_and 1 (shift_right_8 ((res + 2 ^ 32 - 1) % 2 ^ 32)) ≡ 1))
      ⊎ ((res ≢ 0) × (bit_and 1 (shift_right_8 ((res + 2 ^ 32 - 1) % 2 ^ 32)) ≡ 0))
fold_result zero small = inl (refl, refl)
fold_result (suc res) small =
    inr (λ e. absurd (omega (arith, e)), rw (shifted res (omega (arith, small))) refl)
  where
    shifted : (res : ℕ) → res < 255 → shift_right_8 ((suc res + 2 ^ 32 - 1) % 2 ^ 32) ≡ 0
    shifted res small = ground (arith, small)

-- On two byte strings of the same length `consttime_memequal` gives 1 exactly if they are equal, and
-- else 0.
pub consttime_memequal_lem :
    (p1 p2 : List ℕ)
    → IsBytes p1
    → IsBytes p2
    → length p1 ≡ length p2
    → ((p1 ≡ p2) × (consttime_memequal p1 p2 (length p1) ≡ 1))
      ⊎ ((p1 ≢ p2) × (consttime_memequal p1 p2 (length p1) ≡ 0))
unfolding consttime_memequal
consttime_memequal_lem p1 p2 b1 b2 len =
    let (small, means) = compare_bytes-SameBefore p1 p2 (length p1) 0 b1 b2 (omega arith) in
    elim (fold_result _ small) [
      | inl (zero_result, one) ↦
          let same = (means.0 zero_result).1 in
          inl
            (equal_entries p1 p2 len (λ i below. SameBefore-at p1 p2 (length p1) i same below), one)
      | inr (nonzero, none_left) ↦ inr (
        λ e. nonzero (
            means.1
              (refl, subst (λ p. SameBefore p1 p (length p1)) e (SameBefore-refl p1 (length p1)))),
        none_left,
      )
    ]

-- `consttime_memeq` on two values of one type, each with its bytes, is equality of the bytes.
pub consttime_memeq_iff :
    (this other : List ℕ)
    → IsBytes this
    → IsBytes other
    → length this ≡ length other
    → (consttime_memeq this other ≡ true) ↔ (this ≡ other)
unfolding consttime_memeq
consttime_memeq_iff [] [] b1 b2 len = (λ _. refl, λ _. refl)
consttime_memeq_iff [] (y ∷ other) b1 b2 len = absurd (omega (arith, len))
consttime_memeq_iff (x ∷ this) other b1 b2 len =
    elim (consttime_memequal_lem (x ∷ this) other b1 b2 len) [
      | inl (same, one) ↦ (λ _. same, λ _. ground (arith, one))
      | inr (different, zero_result) ↦
          (λ h. absurd (ground (arith, h, zero_result)), λ h. absurd (different h))
    ]

-- `consttime_memeq` on two slices of one element type is equality of their lengths and bytes, where
-- slices of one length have as many bytes as each other, and the same bytes if they are at one
-- address.
pub consttime_memeq_slice_iff :
    (len other_len : ℕ) (this other : Slice)
    → IsBytes this.bytes
    → IsBytes other.bytes
    → (len ≡ other_len → length this.bytes ≡ length other.bytes)
    → (len ≡ other_len → this.addr ≡ other.addr → this.bytes ≡ other.bytes)
    → (consttime_memeq_slice len other_len this other ≡ true)
      ↔ ((len ≡ other_len) × (this.bytes ≡ other.bytes))
unfolding consttime_memeq_slice
consttime_memeq_slice_iff len other_len this other b1 b2 sizes places =
    elim (same_or_not len other_len) [
      | inr ne ↦ (λ h. absurd (ground (arith, h, ne)), λ h. absurd (ne h.0))
      | inl e ↦ elim (same_or_not this.addr other.addr) [
        | inl at ↦ (λ _. (e, places e at), λ _. ground (arith, e, at))
        | inr apart ↦ elim (consttime_memequal_lem this.bytes other.bytes b1 b2 (sizes e)) [
          | inl (same, one) ↦ (λ _. (e, same), λ _. ground (arith, e, apart, one))
          | inr (different, zero_result) ↦
              (λ h. absurd (ground (arith, h, e, apart, zero_result)), λ h. absurd (different h.1))
        ]
      ]
    ]
