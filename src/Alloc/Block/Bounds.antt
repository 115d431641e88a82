-- ===== src/Alloc/Block/Bounds.antt =====
-- Where the caller's part of a block lies.
use native.Mathlib.Nat.{one-le-pow, div-lt_iff_lt-mul, mul-mod_left}
use sgx_sdk_rs.Base.{
  ℕ, zero, suc, ◌+◌, ◌-◌, ◌*◌, ◌/◌, ◌%◌, ◌^◌, ◌≤◌, ◌<◌, ◌≡◌, ◌≢◌, ◌⊎◌, inl, inr, arith, refl, ap,
  ap₂, ◌∙◌, ==_iff, Bool, true, false, ◌==◌, sym, Bool-cases, ltb, if◌then◌else◌, bit_and, u64_mod,
  ◌∷◌,
}
use sgx_sdk_rs.Base.Bits.{all_below, all_below_sound}
use sgx_sdk_rs.Base.Bits.Masks.{bit_and-shifted, bit_and-low}
use sgx_sdk_rs.Types.{not64}
use sgx_sdk_rs.Alloc.Layout.{Layout, check_layout, is_power_of_two, power_among}
use sgx_sdk_rs.Alloc.Requests.{Malloc}
use sgx_sdk_rs.Alloc.Block.{
  Memory, write_word, write_zeros, sub64, make_aligned_ptr, alloc_with_pad_align_in,
}

-- A mask that clears the low `k` bits of a word.
high_mask_table : all_below 64 (λ k. not64 (2 ^ k - 1) == (2 ^ (64 - k) - 1) * 2 ^ k) ≡ true
unfolding all_below
high_mask_table = refl

pow_table : all_below 64 (λ k. 2 ^ (64 - k) * 2 ^ k == 2 ^ 64) ≡ true
unfolding all_below
pow_table = refl

-- Rounding a word down to a multiple of `2 ^ k`.
bit_and-not64 : (k x : ℕ) → k < 64 → x < u64_mod → bit_and x (not64 (2 ^ k - 1)) ≡ x / 2 ^ k * 2 ^ k
bit_and-not64 k x small below =
    ap₂ bit_and split mask
    ∙ bit_and-shifted k (x / 2 ^ k) (x % 2 ^ k) (2 ^ (64 - k) - 1) rest
    ∙ ap (λ (t : ℕ). t * 2 ^ k) (bit_and-low (64 - k) (x / 2 ^ k) fits)
  where
    p : 1 ≤ 2 ^ k
    p = one-le-pow k 2 (omega arith)

    mask : not64 (2 ^ k - 1) ≡ (2 ^ (64 - k) - 1) * 2 ^ k
    mask = (==_iff _ _).0 (
        all_below_sound 64 (λ (j : ℕ). not64 (2 ^ j - 1) == (2 ^ (64 - j) - 1) * 2 ^ j) k
          high_mask_table small)

    whole : 2 ^ (64 - k) * 2 ^ k ≡ 2 ^ 64
    whole =
        (==_iff _ _).0
          (all_below_sound 64 (λ (j : ℕ). 2 ^ (64 - j) * 2 ^ j == 2 ^ 64) k pow_table small)

    split : x ≡ x / 2 ^ k * 2 ^ k + x % 2 ^ k
    split = omega (arith, p)

    rest : x % 2 ^ k < 2 ^ k
    rest = omega (arith, p)

    fits : x / 2 ^ k < 2 ^ (64 - k)
    fits = (div-lt_iff_lt-mul p).1 (rw whole below)

-- A power of two has an exponent.
power_among-exponent : (n x : ℕ) → power_among n x ≡ true → (k : ℕ) × (k < n) × (x ≡ 2 ^ k)
unfolding power_among
power_among-exponent zero x h = absurd (ground arith)
power_among-exponent (suc n) x h = elim (Bool-cases (2 ^ n == x)) [
  | inl e ↦ (n, omega arith, sym ((==_iff _ _).0 e))
  | inr e ↦
      let (k, small, same) = power_among-exponent n x (ground arith) in
      (k, omega (arith, small), same)
]

pub is_power_of_two-exponent : (x : ℕ) → is_power_of_two x ≡ true → (k : ℕ) × (k < 64) × (x ≡ 2 ^ k)
unfolding is_power_of_two
is_power_of_two-exponent x h = power_among-exponent 64 x h

pub check_layout-power : (l : Layout) → check_layout l ≡ true → is_power_of_two l.align ≡ true
unfolding check_layout
check_layout-power l h = ground arith

-- The multiple below a number.
floor : (x d : ℕ) → 1 ≤ d → (x / d * d ≤ x) × (x < x / d * d + d)
floor x d p = (omega (arith, p), omega (arith, p))

-- With the exponent at hand.
make_aligned_ptr-pow :
    (raw k offset : ℕ)
    → k < 64
    → raw + 2 ^ k + offset ≤ u64_mod
    → let q = (raw + 2 ^ k - 1) / 2 ^ k in
      (make_aligned_ptr raw (2 ^ k) offset ≡ q * 2 ^ k + offset)
      × (raw ≤ q * 2 ^ k)
      × (q * 2 ^ k < raw + 2 ^ k)
unfolding make_aligned_ptr
make_aligned_ptr-pow raw k offset small room =
    let p = one-le-pow k 2 (omega arith) in
    let x = raw + 2 ^ k - 1 in
    let first = floor x (2 ^ k) p in
    (
      ground (arith, bit_and-not64 k x small (omega (arith, p, room)), first),
      omega (arith, p, first),
      omega (arith, p, first),
    )

-- Where `make_aligned_ptr` puts its pointer: `offset` behind the first multiple of the alignment
-- from `raw` on.
pub make_aligned_ptr-Bounds :
    (raw align offset : ℕ)
    → is_power_of_two align ≡ true
    → raw + align + offset ≤ u64_mod
    → (q : ℕ) × (make_aligned_ptr raw align offset ≡ q * align + offset)
      × (raw ≤ q * align)
      × (q * align < raw + align)
make_aligned_ptr-Bounds raw align offset power room =
    let (k, small, same) = is_power_of_two-exponent align power in
    let (at, above, near) = make_aligned_ptr-pow raw k offset small (rw same at room) in
    ((raw + 2 ^ k - 1) / 2 ^ k, rw same at, rw same above, rw same near)

-- The padding in front of the secret.
abbrev pub padding : Layout → Layout → ℕ
padding layout align_layout = align_layout.size - align_layout.align - layout.size

-- On an alignment layout that the allocator makes no arithmetic wraps.
pub alloc_with_pad_align_in-runs :
    (malloc : Malloc) (zeroed : Bool) (layout align_layout : Layout) (m : Memory)
    → check_layout layout ≡ true
    → check_layout align_layout ≡ true
    → layout.size + align_layout.align ≤ align_layout.size
    → align_layout.size + 8 < u64_mod
    → let raw = malloc m.live (align_layout.size + 8) in
      let ptr = make_aligned_ptr raw align_layout.align (padding layout align_layout) in
      let cleared = if zeroed then write_zeros m.byte raw align_layout.size else m.byte in
      alloc_with_pad_align_in malloc zeroed layout align_layout m ≡ (
        if raw == 0
        then (0, m)
        else (ptr, record { live = raw ∷ m.live; byte = write_word cleared (sub64 ptr 8) raw }))
unfolding alloc_with_pad_align_in
alloc_with_pad_align_in-runs malloc zeroed layout align_layout m good good' room fits =
    rw
      (
        good,
        good',
        no_wrap (align_layout.size + 8) fits,
        no_wrap (layout.size + align_layout.align) (omega (arith, room, fits)),
        pad,
        enough,
      )
      refl
  where
    no_wrap : (n : ℕ) → n < u64_mod → n % u64_mod ≡ n
    no_wrap n small = omega (arith, small)

    pad :
        sub64 (sub64 align_layout.size align_layout.align) layout.size ≡ padding layout align_layout
    pad = omega (arith, room, fits)

    enough : ltb align_layout.size (layout.size + align_layout.align) ≡ false
    enough = ground (arith, room)

-- For two layouts that pass `check_layout`, the second with room for the first and its own
-- alignment, and an answer of `malloc` whose block ends within the address space: the answer is
-- null and nothing changes if `malloc` gave null; else the caller's pointer is a multiple of the
-- alignment plus the padding, all its bytes lie in the block, and the block is in use.
pub alloc_with_pad_align_in-Bounds :
    (malloc : Malloc) (zeroed : Bool) (layout align_layout : Layout) (m : Memory)
    → check_layout layout ≡ true
    → check_layout align_layout ≡ true
    → layout.size + align_layout.align ≤ align_layout.size
    → let raw = malloc m.live (align_layout.size + 8) in
      let r = alloc_with_pad_align_in malloc zeroed layout align_layout m in
      raw + align_layout.size + 8 < u64_mod
      → ((raw ≡ 0) × (r ≡ (0, m)))
        ⊎ ((raw ≢ 0)
            × ((r.0 - padding layout align_layout) % align_layout.align ≡ 0)
            × (raw + padding layout align_layout ≤ r.0)
            × (r.0 + layout.size ≤ raw + align_layout.size)
            × (r.1.live ≡ raw ∷ m.live))
alloc_with_pad_align_in-Bounds malloc zeroed layout align_layout m good good' room fits =
    let raw = malloc m.live (align_layout.size + 8) in
    let pad = padding layout align_layout in
    let (q, at, above, near) =
      make_aligned_ptr-Bounds raw align_layout.align pad (check_layout-power align_layout good')
        (omega (arith, room, fits)) in
    let runs =
      alloc_with_pad_align_in-runs malloc zeroed layout align_layout m good good' room
        (omega (arith, fits)) in
    elim (Bool-cases (raw == 0)) [
      | inl e ↦ inl ((==_iff _ _).0 e, rw (runs, e) refl)
      | inr e ↦ inr (
        λ h. cc (e, (==_iff _ _).1 h),
        rw (runs, e, at) (multiple q align_layout.align pad),
        rw (runs, e, at) (omega (arith, above)),
        rw (runs, e, at) (omega (arith, near, room)),
        rw (runs, e) refl,
      )
    ]
  where
    multiple : (q d n : ℕ) → (q * d + n - n) % d ≡ 0
    multiple q d n = ap (λ (t : ℕ). t % d) (cancel q d n) ∙ mul-mod_left q d
      where
        cancel : (q d n : ℕ) → q * d + n - n ≡ q * d
        cancel q d n = omega arith
