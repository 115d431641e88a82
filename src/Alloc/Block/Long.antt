-- ===== src/Alloc/Block/Long.antt =====
-- sgx-alloc/src/alignalloc.rs: the secrets that no place within a cache line can hold.
use mathlib.Core.Option
use sgx_sdk_rs.Base.{
  ◌^◌, ℕ, ◌-◌, ◌<◌, ◌≡◌, inl, inr, refl, ap, arith, [], ◌∷◌, Bool, true, not, Bool-cases, u64_mod,
  ltb, either, none,
}
use sgx_sdk_rs.Base.Bits.{zero-bit_and}
use sgx_sdk_rs.Base.Int.{ℤ, negsuc}
use sgx_sdk_rs.Alloc.Layout.{
  Layout, check_layout, lspc_places, count_lzb, calc_lspc, gen_alignmask, is_power_of_two,
  make_bitmap, rol, ror,
}
use sgx_sdk_rs.Alloc.Requests.{
  Malloc, Heap, check_align_req, padding_needed_for, pad_align_to, no_requests,
}
use sgx_sdk_rs.Alloc.Block.{Memory, alloc_with_req, alloc}

-- Where every byte is to be kept, no place is left.
no_place : (mask : ℕ) → lspc_places mask (u64_mod - 1) ≡ 0
unfolding lspc_places ror rol
no_place mask = zero-bit_and mask

calc_lspc-full : (align : ℕ) → (n : ℕ) × (calc_lspc align (u64_mod - 1) ≡ negsuc n)
unfolding calc_lspc count_lzb
calc_lspc-full align =
    let mask = Option.get_or (gen_alignmask 8 align 64 (2 ^ 63)) 0 in
    let places = lspc_places mask (u64_mod - 1) in
    either (λ (z : ℤ). (n : ℕ) × (z ≡ negsuc n)) (not (is_power_of_two align)) (negsuc 1)
      (Option.get_or (count_lzb 65 places) (negsuc 0)) (λ _. (1, refl))
      (λ _. (0, ap (λ (x : ℕ). Option.get_or (count_lzb 65 x) (negsuc 0)) (no_place mask)))

padding_needed_for-long :
    (malloc : Malloc) (heap : Heap) (layout : Layout)
    → 63 < layout.size
    → (padding_needed_for malloc heap layout (record { offset = 0; len = layout.size } ∷ [])).0
      ≡ none
unfolding padding_needed_for make_bitmap
padding_needed_for-long malloc heap layout long = elim (Bool-cases (check_layout layout)) [
  | inr refused ↦ rw refused refl
  | inl passed ↦
      elim (Bool-cases
        (check_align_req malloc heap layout.size
          (record { offset = 0; len = layout.size } ∷ [])).0) [
            | inr refused ↦ rw (passed, refused) refl
            | inl accepted ↦
                let (n, nowhere) = calc_lspc-full layout.align in
                rw (passed, accepted, too_long long, nowhere) refl
          ]
]
  where
    too_long : {n : ℕ} → 63 < n → ltb 63 n ≡ true
    too_long h = ground (arith, h)

pub pad_align_to-long :
    (malloc : Malloc) (heap : Heap) (layout : Layout)
    → 63 < layout.size
    → (pad_align_to malloc heap layout (record { offset = 0; len = layout.size } ∷ [])).0 ≡ none
unfolding pad_align_to
pad_align_to-long malloc heap layout long =
    rw (padding_needed_for-long malloc heap layout long, pad_align_to) refl

-- `alloc` and `alloc_zeroed` of a layout of more than 63 bytes always give the null pointer.
alloc-long :
    (malloc : Malloc) (zeroed : Bool) (layout : Layout) (m : Memory)
    → 63 < layout.size
    → (alloc malloc zeroed layout m).0 ≡ 0
unfolding alloc alloc_with_req no_requests
alloc-long malloc zeroed layout m long =
    let nowhere = pad_align_to-long malloc m.live layout long in
    elim (Bool-cases (check_layout layout)) [
      | inr refused ↦ rw refused refl
      | inl passed ↦ rw (passed, nowhere) refl
    ]
