-- ===== src/Alloc/Block/Header.antt =====
-- The word in front of the caller's pointer: `dealloc` reads there what `alloc` wrote.
use native.Mathlib.Nat.{div-add-mod', mul-le-mul_right}
use native.Mathlib.Decide.{dec_lt}
use sgx_sdk_rs.Base.{
  ap, sym, ◌∙◌, ℕ, ◌+◌, ◌-◌, ◌*◌, ◌/◌, ◌%◌, ◌^◌, ◌≤◌, ◌<◌, ◌≡◌, ◌≢◌, arith, refl, Bool, true, false,
  u64_mod, ◌==◌, ==_iff, inl, inr, Bool-cases, if◌then◌else◌,
}
use sgx_sdk_rs.Alloc.Layout.{Layout, check_layout}
use sgx_sdk_rs.Alloc.Requests.{Malloc}
use sgx_sdk_rs.Alloc.Block.{
  Memory, write_zeros, write_word, read_word, sub64, alloc_with_pad_align_in, free, dealloc,
}
use sgx_sdk_rs.Alloc.Block.Bounds.{
  check_layout-power, make_aligned_ptr-Bounds, padding, alloc_with_pad_align_in-runs,
  alloc_with_pad_align_in-Bounds,
}

-- Between a multiple and the next there is no other.
same_multiple : (q d n : ℕ) → n % d ≡ 0 → n ≤ q * d → q * d < n + d → q * d ≡ n
same_multiple q d n exact above near =
    unique q (n / d) d n (omega (arith, exact, div-add-mod' n d)) above near
  where
    unique : (q c d n : ℕ) → n ≡ c * d → n ≤ q * d → q * d < n + d → q * d ≡ n
    unique q c d n at above near = elim (dec_lt q c) [
      | yes less ↦ absurd (omega (arith, at, above, near, mul-le-mul_right d less))
      | no not_less ↦ elim (dec_lt c q) [
        | yes more ↦ absurd (omega (arith, at, near, mul-le-mul_right d more))
        | no not_more ↦ ap (λ (t : ℕ). t * d) (omega (arith, not_less, not_more)) ∙ sym at
      ]
    ]

-- The eight bytes of a word.
digits :
    (v : ℕ)
    → v < u64_mod
    → v / 256 ^ 0 % 256
        + v / 256 ^ 1 % 256 * 2 ^ 8
        + v / 256 ^ 2 % 256 * 2 ^ 16
        + v / 256 ^ 3 % 256 * 2 ^ 24
        + v / 256 ^ 4 % 256 * 2 ^ 32
        + v / 256 ^ 5 % 256 * 2 ^ 40
        + v / 256 ^ 6 % 256 * 2 ^ 48
        + v / 256 ^ 7 % 256 * 2 ^ 56
      ≡ v
digits v small = omega (arith, small)

byte_at : (m : ℕ → ℕ) (a v i : ℕ) → i < 8 → write_word m a v (a + i) ≡ v / 256 ^ i % 256
byte_at m a v i small = ground (arith, small)

-- A word that was written can be read back.
pub read_word-write_word : (m : ℕ → ℕ) (a v : ℕ) → v < u64_mod → read_word (write_word m a v) a ≡ v
read_word-write_word m a v small =
    rw
      (
        first,
        byte_at m a v 1 (omega arith),
        byte_at m a v 2 (omega arith),
        byte_at m a v 3 (omega arith),
        byte_at m a v 4 (omega arith),
        byte_at m a v 5 (omega arith),
        byte_at m a v 6 (omega arith),
        byte_at m a v 7 (omega arith),
      )
      (digits v small)
  where
    first : write_word m a v a ≡ v / 256 ^ 0 % 256
    first = ground arith

module _ (malloc : Malloc) (zeroed : Bool) (layout align_layout : Layout) (m : Memory) where
  abbrev raw : ℕ
  raw = malloc m.live (align_layout.size + 8)

  abbrev got : ℕ × Memory
  got = alloc_with_pad_align_in malloc zeroed layout align_layout m

  -- The word in front of the pointer holds the address of the block.
  header :
      check_layout layout ≡ true
      → check_layout align_layout ≡ true
      → layout.size + align_layout.align ≤ align_layout.size
      → raw + align_layout.size + 8 < u64_mod
      → raw ≢ 0
      → (rest : ℕ → ℕ) × (got.1.byte ≡ write_word rest (sub64 got.0 8) raw)
  header good good' room fits found = elim (Bool-cases (raw == 0)) [
    | inl e ↦ absurd (found ((==_iff _ _).0 e))
    | inr e ↦ (
      if zeroed then write_zeros m.byte raw align_layout.size else m.byte,
      rw
          (
            alloc_with_pad_align_in-runs malloc zeroed layout align_layout m good good' room
                (omega (arith, fits)),
            e,
          )
          refl,
    )
  ]

  -- For two layouts that pass `check_layout`, the second with room for the first and its own
  -- alignment, and a block that `malloc` found within the address space: whatever the caller has
  -- written elsewhere, as long as the word in front of the pointer still reads as what
  -- `alloc_with_pad_align_in` put there, `dealloc` of the pointer frees that block and no other.
  pub dealloc-alloc_with_pad_align_in :
      check_layout layout ≡ true
      → check_layout align_layout ≡ true
      → layout.size + align_layout.align ≤ align_layout.size
      → raw + align_layout.size + 8 < u64_mod
      → raw ≢ 0
      → (byte' : ℕ → ℕ) → read_word byte' (sub64 got.0 8) ≡ read_word got.1.byte (sub64 got.0 8)
      → (dealloc got.0 (record { live = got.1.live; byte = byte' })).live ≡ m.live
  unfolding dealloc free
  dealloc-alloc_with_pad_align_in good good' room fits found byte' same =
      let (rest, written) = header good good' room fits found in
      elim (alloc_with_pad_align_in-Bounds malloc zeroed layout align_layout m good good' room
        fits) [
          | inl (none_found, _) ↦ absurd (found none_found)
          | inr (_, _, _, _, live) ↦
              rw
                (
                  live,
                  same,
                  written,
                  read_word-write_word rest (sub64 got.0 8) raw (omega (arith, fits)),
                )
                (ground arith)
        ]

  -- For two layouts that pass `check_layout`, the second with room for the first and its own
  -- alignment, and a block found at an address of at least 8 that is a multiple of the alignment
  -- already, with a padding of less than 8 bytes: the pointer is the block's address plus the
  -- padding, and the eight bytes in front of it, the first of which lie before the block, are
  -- overwritten with the block's address.
  pub alloc_with_pad_align_in-underruns :
      check_layout layout ≡ true
      → check_layout align_layout ≡ true
      → layout.size + align_layout.align ≤ align_layout.size
      → raw + align_layout.size + 8 < u64_mod
      → 8 ≤ raw
      → raw % align_layout.align ≡ 0
      → padding layout align_layout < 8
      → (got.0 ≡ raw + padding layout align_layout)
        × ((i : ℕ)
            → i < 8
            → got.1.byte (raw + padding layout align_layout - 8 + i) ≡ raw / 256 ^ i % 256)
  alloc_with_pad_align_in-underruns good good' room fits found aligned short =
      let d = align_layout.align in
      let pad = padding layout align_layout in
      let some_block : raw ≢ 0 = omega (arith, found) in
      let (rest, written) = header good good' room fits some_block in
      let (q, at, above, near) =
        make_aligned_ptr-Bounds raw d pad (check_layout-power align_layout good')
          (omega (arith, room, fits)) in
      let unmoved = same_multiple q d raw aligned above near in
      let place : got.0 ≡ raw + pad =
        rw
          (
            alloc_with_pad_align_in-runs malloc zeroed layout align_layout m good good' room
                (omega (arith, fits)),
            nonzero found,
            at,
            unmoved,
          )
          refl in
      let front : sub64 (raw + pad) 8 ≡ raw + pad - 8 = omega (arith, found, fits, room) in
      (place, λ i small. rw (written, place, front) (byte_at rest (raw + pad - 8) raw i small))
    where
      nonzero : {n : ℕ} → 8 ≤ n → (n == 0) ≡ false
      nonzero h = ground arith
