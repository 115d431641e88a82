-- ===== src/Alloc/Block.antt =====
-- sgx-alloc/src/alignalloc.rs: the block that is asked of `malloc`, the pointer into it that the
-- caller gets, and the word before that pointer in which `dealloc` finds the block again.
pub mod Bounds
pub mod Header
pub mod Long
use sgx_sdk_rs.Base.{
  ℕ, zero, suc, ◌+◌, ◌-◌, ◌*◌, ◌/◌, ◌%◌, ◌^◌, List, [], ◌∷◌, Bool, true, false, not, ◌&&◌, ◌||◌,
  ltb, leb, ◌==◌, if◌then◌else◌, Option, none, some, bit_and, u64_mod,
}
use sgx_sdk_rs.Types.{not64}
use sgx_sdk_rs.Alloc.Layout.{Layout, AlignReq, check_layout}
use sgx_sdk_rs.Alloc.Requests.{Malloc, pad_align_to, no_requests}

-- The blocks in use, and what each address holds.
pub record Memory : Type 0 where
  pub live : List ℕ
  pub byte : ℕ → ℕ

abbrev pub in_span : ℕ → ℕ → ℕ → Bool
in_span a n b = leb a b && ltb b (a + n)

-- `ptr::write_bytes(a, 0, n)`.
abbrev pub write_zeros : (ℕ → ℕ) → ℕ → ℕ → ℕ → ℕ
write_zeros m a n b = if in_span a n b then 0 else m b

-- A pointer is 8 bytes, the lowest first.
abbrev pub write_word : (ℕ → ℕ) → ℕ → ℕ → ℕ → ℕ
write_word m a v b = if in_span a 8 b then v / 256 ^ (b - a) % 256 else m b

abbrev pub read_word : (ℕ → ℕ) → ℕ → ℕ
read_word m a =
    m a
    + m (a + 1) * 2 ^ 8
    + m (a + 2) * 2 ^ 16
    + m (a + 3) * 2 ^ 24
    + m (a + 4) * 2 ^ 32
    + m (a + 5) * 2 ^ 40
    + m (a + 6) * 2 ^ 48
    + m (a + 7) * 2 ^ 56

unfoldable pub make_aligned_ptr : ℕ → ℕ → ℕ → ℕ
make_aligned_ptr raw align offset =
    (bit_and ((raw + align - 1) % u64_mod) (not64 (align - 1)) + offset) % u64_mod

-- `usize` subtraction.
abbrev pub sub64 : ℕ → ℕ → ℕ
sub64 a b = (a + u64_mod - b) % u64_mod

unfoldable pub alloc_with_pad_align_in : Malloc → Bool → Layout → Layout → Memory → ℕ × Memory
alloc_with_pad_align_in malloc zeroed layout align_layout m =
    let pad = sub64 (sub64 align_layout.size align_layout.align) layout.size in
    let raw = malloc m.live ((align_layout.size + 8) % u64_mod) in
    let ptr = make_aligned_ptr raw align_layout.align pad in
    let cleared = if zeroed then write_zeros m.byte raw align_layout.size else m.byte in
    if not (check_layout layout)
      || not (check_layout align_layout)
      || ltb align_layout.size ((layout.size + align_layout.align) % u64_mod)
    then (0, m)
    else if raw == 0
    then (0, m)
    else (ptr, record { live = raw ∷ m.live; byte = write_word cleared (sub64 ptr 8) raw })

-- `align_req` with the whole layout in place of an empty list.
abbrev pub or_whole : Layout → List AlignReq → List AlignReq
or_whole layout reqs =
    if no_requests reqs then record { offset = 0; len = layout.size } ∷ [] else reqs

-- `alloc_with_req` and `alloc_with_req_zeroed`.
unfoldable pub alloc_with_req : Malloc → Bool → Layout → List AlignReq → Memory → ℕ × Memory
alloc_with_req malloc zeroed layout reqs m =
    let (padded, live') = pad_align_to malloc m.live layout (or_whole layout reqs) in
    let m' = record m { live = live' } in
    if not (check_layout layout) then (0, m) else elim padded [
      | none ↦ (0, m')
      | some align_layout ↦ alloc_with_pad_align_in malloc zeroed layout align_layout m'
    ]

-- `alloc` and `alloc_zeroed`.
unfoldable pub alloc : Malloc → Bool → Layout → Memory → ℕ × Memory
alloc malloc zeroed layout m =
    alloc_with_req malloc zeroed layout (record { offset = 0; len = layout.size } ∷ []) m

-- `libc::free`: the block is in use no more.
unfoldable pub free : ℕ → List ℕ → List ℕ
free raw [] = []
free raw (b ∷ live) = if b == raw then live else b ∷ free raw live

unfoldable pub dealloc : ℕ → Memory → Memory
unfolding free
dealloc ptr m = record m { live = free (read_word m.byte (sub64 ptr 8)) m.live }
