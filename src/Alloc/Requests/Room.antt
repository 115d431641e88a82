-- ===== src/Alloc/Requests/Room.antt =====
-- sgx-alloc/src/alignalloc.rs: the layout that `pad_align_to` makes.
use mathlib.Core.Option
use sgx_sdk_rs.Base.{
  ℕ, zero, suc, ◌+◌, ◌*◌, ◌/◌, ◌%◌, ◌^◌, ◌≤◌, ◌≡◌, ◌≢◌, ◌⊎◌, inl, inr, refl, arith, sym, true, ltb,
  List, Bool-cases, Option, some, none, u64_mod,
}
use sgx_sdk_rs.Base.Int.{ℤ, pos, negsuc, ◌+ℤ◌, pos_part}
use sgx_sdk_rs.Alloc.Layout.{
  Layout, AlignReq, from_size_align, check_layout, is_power_of_two, count_lzb, calc_lspc, calc_algn,
  calc_algn_loop, align_needed_for, make_bitmap, lspc_places, gen_alignmask,
}
use sgx_sdk_rs.Alloc.Requests.{Malloc, Heap, check_align_req, padding_needed_for, pad_align_to}

-- What the core library's layouts keep to.
pub from_size_align_lem :
    (size align : ℕ) (l : Layout)
    → from_size_align size align ≡ some l
    → size ≢ 0
    → (l.size ≡ size)
      × (l.align ≡ align)
      × (is_power_of_two l.align ≡ true)
      × (l.size + l.align ≤ 2 ^ 63)
unfolding from_size_align
from_size_align_lem size align l h some_size =
    (ground (arith, h), ground (arith, h), ground (arith, h), ground (arith, h, some_size))

pub check_layout-sized :
    (l : Layout)
    → is_power_of_two l.align ≡ true
    → l.size + l.align ≤ 2 ^ 63
    → l.size ≢ 0
    → check_layout l ≡ true
unfolding check_layout
check_layout-sized l power small some_size = ground (arith, power, small, some_size)

count_lzb-Bounds : (fuel bmp : ℕ) → pos_part (Option.get_or (count_lzb fuel bmp) (negsuc 0)) ≤ fuel
unfolding count_lzb ◌+ℤ◌
count_lzb-Bounds zero bmp = omega arith
count_lzb-Bounds (suc fuel) bmp = ground (arith, count_lzb-Bounds fuel (bmp * 2 % u64_mod))

calc_lspc-Bounds : (al bmp : ℕ) → pos_part (calc_lspc al bmp) ≤ 65
unfolding calc_lspc
calc_lspc-Bounds al bmp =
    let mask = Option.get_or (gen_alignmask 8 al 64 (2 ^ 63)) 0 in
    elim (Bool-cases (is_power_of_two al)) [
      | inl h ↦ rw h (count_lzb-Bounds 65 (lspc_places mask bmp))
      | inr h ↦ rw h (omega arith)
    ]

calc_algn_loop-Bounds : (fuel size a : ℕ) → Option.get_or (calc_algn_loop fuel size a) 0 ≤ a
unfolding calc_algn_loop
calc_algn_loop-Bounds zero size a = omega arith
calc_algn_loop-Bounds (suc fuel) size a = ground (arith, calc_algn_loop-Bounds fuel size (a / 2))

align_needed_for-Bounds :
    (l : Layout) (pad : ℕ) → (align_needed_for l pad ≤ 64) ⊎ (align_needed_for l pad ≡ l.align)
unfolding align_needed_for calc_algn
align_needed_for-Bounds l pad = elim (Bool-cases (ltb 64 l.align)) [
  | inl h ↦ rw h (inr refl)
  | inr h ↦ rw h (inl (calc_algn_loop-Bounds 4 ((l.size + pad) % u64_mod) 64))
]

padding_needed_for-Bounds :
    (malloc : Malloc) (heap : Heap) (l : Layout) (reqs : List AlignReq)
    → Option.get_or (padding_needed_for malloc heap l reqs).0 0 ≤ 65
unfolding padding_needed_for
padding_needed_for-Bounds malloc heap l reqs = elim (Bool-cases (check_layout l)) [
  | inr refused ↦ rw refused (omega arith)
  | inl passed ↦ elim (Bool-cases (check_align_req malloc heap l.size reqs).0) [
    | inr refused ↦ rw (passed, refused) (omega arith)
    | inl accepted ↦
        rw (passed, accepted)
          (offset_small (calc_lspc l.align (make_bitmap 0 reqs))
            (calc_lspc-Bounds l.align (make_bitmap 0 reqs)))
  ]
]
  where
    offset_small :
        (z : ℤ)
        → pos_part z ≤ 65
        → Option.get_or (elim z [ negsuc _ ↦ none | pos offset ↦ some offset ]) 0 ≤ 65
    offset_small (negsuc n) h = omega arith
    offset_small (pos n) h = h

-- The layout that `pad_align_to` makes has room for the value and its own alignment.
pub pad_align_to-room :
    (malloc : Malloc) (heap : Heap) (layout : Layout) (reqs : List AlignReq) (al : Layout)
    → layout.size + layout.align ≤ 2 ^ 63
    → layout.size ≢ 0
    → (pad_align_to malloc heap layout reqs).0 ≡ some al
    → (check_layout al ≡ true) × (layout.size + al.align ≤ al.size)
unfolding pad_align_to
pad_align_to-room malloc heap layout reqs al small some_size h =
    go (padding_needed_for malloc heap layout reqs).0
      (padding_needed_for-Bounds malloc heap layout reqs) h
  where
    go :
        (padding : Option ℕ)
        → Option.get_or padding 0 ≤ 65
        → (elim padding [
          | none ↦ none
          | some pad ↦
              let align = align_needed_for layout pad in
              from_size_align ((pad + align + layout.size) % u64_mod) align
        ])
          ≡ some al
        → (check_layout al ≡ true) × (layout.size + al.align ≤ al.size)
    go none bound h = absurd (ground (arith, h))
    go (some pad) bound h =
        let near = align_needed_for-Bounds layout pad in
        let total : (pad + align_needed_for layout pad + layout.size) % u64_mod
            ≡ pad + align_needed_for layout pad + layout.size =
          omega (arith, near, bound, small) in
        let (size, align, power, fits) =
          from_size_align_lem (pad + align_needed_for layout pad + layout.size)
            (align_needed_for layout pad) al (rw (sym total) h) (omega (arith, some_size)) in
        (
          check_layout-sized al power fits (omega (arith, size, some_size)),
          omega (arith, size, align),
        )
