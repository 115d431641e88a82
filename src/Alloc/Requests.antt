-- ===== src/Alloc/Requests.antt =====
-- sgx-alloc/src/alignalloc.rs: `check_align_req`, which marks the bytes of each request in a bitmap
-- of its own, and the padding computed after it.
pub mod Bitmap
pub mod Disjoint
pub mod Room
use mathlib.Core.Option
use sgx_sdk_rs.Base.{
  ℕ, zero, suc, ◌+◌, ◌-◌, ◌/◌, ◌%◌, ◌^◌, List, [], ◌∷◌, Bool, true, false, not, ◌||◌, ltb, ◌==◌,
  if◌then◌else◌, Option, none, some, get_or, set, replicate, bit_and, bit_or, u64_mod,
}
use sgx_sdk_rs.Base.Int.{ℤ, pos, negsuc}
use sgx_sdk_rs.Alloc.Layout.{
  Layout, AlignReq, check_layout, check_overflow, calc_lspc, make_bitmap, align_needed_for,
  from_size_align,
}

-- The blocks that are allocated and not freed, by address. `malloc heap size` is where the enclave's
-- allocator puts a block, and 0 if it has none.
abbrev pub Heap : Type 0
Heap = List ℕ

abbrev pub Malloc : Type 0
Malloc = Heap → ℕ → ℕ

-- `size.div_ceil(8)`.
abbrev pub div_ceil_eight : ℕ → ℕ
div_ceil_eight size = (size + 7) / 8

-- `bmp[offset / 8] & 1 << (offset % 8)`, compared with 0.
unfoldable pub marked : List ℕ → ℕ → Bool
marked bmp offset = not (bit_and (get_or bmp (offset / 8) 0) (2 ^ (offset % 8)) == 0)

-- `bmp[offset / 8] |= 1 << (offset % 8)`.
unfoldable pub mark : List ℕ → ℕ → List ℕ
mark bmp offset = set bmp (offset / 8) (bit_or (get_or bmp (offset / 8) 0) (2 ^ (offset % 8)))

-- The inner loop, with `n` bytes left; `none` is a byte that is marked already.
unfoldable pub mark_range : List ℕ → ℕ → ℕ → Option (List ℕ)
mark_range bmp offset zero = some bmp
mark_range bmp offset (suc n) =
    let rest = mark_range (mark bmp offset) (offset + 1) n in
    if marked bmp offset then none else rest

-- The outer loop; `none` is a request that the code refuses.
unfoldable pub mark_all : List ℕ → ℕ → List AlignReq → Option (List ℕ)
mark_all bmp size [] = some bmp
mark_all bmp size (req ∷ reqs) =
    if check_overflow req.offset req.len || ltb size (req.offset + req.len)
    then none
    else elim (mark_range bmp req.offset req.len) [
      | none ↦ none
      | some bmp' ↦ mark_all bmp' size reqs
    ]

unfoldable pub no_requests : List AlignReq → Bool
no_requests [] = true
no_requests (req ∷ reqs) = false

-- The answer with the heap behind it. A refusal frees the bitmap; success does not.
unfoldable pub check_align_req : Malloc → Heap → ℕ → List AlignReq → Bool × Heap
unfolding no_requests
check_align_req malloc heap size reqs =
    let len = div_ceil_eight size in
    let bmp = malloc heap len in
    if no_requests reqs
    then (false, heap)
    else if bmp == 0
    then (false, heap)
    else elim (mark_all (replicate len 0) size reqs) [
      | none ↦ (false, heap)
      | some _ ↦ (true, bmp ∷ heap)
    ]

unfoldable pub padding_needed_for : Malloc → Heap → Layout → List AlignReq → Option ℕ × Heap
padding_needed_for malloc heap layout reqs =
    if not (check_layout layout)
    then (none, heap)
    else let (accepted, heap') = check_align_req malloc heap layout.size reqs in
      if not accepted then (none, heap') else (
        elim (calc_lspc layout.align (make_bitmap 0 reqs)) [
          | negsuc _ ↦ none
          | pos offset ↦ some offset
        ],
        heap',
      )

unfoldable pub pad_align_to : Malloc → Heap → Layout → List AlignReq → Option Layout × Heap
pad_align_to malloc heap layout reqs =
    let (padding, heap') = padding_needed_for malloc heap layout reqs in
    (
      elim padding [
        | none ↦ none
        | some pad ↦
            let align = align_needed_for layout pad in
            from_size_align ((pad + align + layout.size) % u64_mod) align
      ],
      heap',
    )
