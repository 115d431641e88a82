-- ===== src/Alloc/Layout.antt =====
-- sgx-alloc/src/alignalloc.rs: layouts, and the padding and alignment computed for them. A `usize`
-- and a `u64` have 64 bits; an `i64` is its bit pattern.
use sgx_sdk_rs.Base.{
  ℕ, zero, suc, ◌+◌, ◌-◌, ◌*◌, ◌/◌, ◌%◌, ◌^◌, List, [], ◌∷◌, Bool, false, not, ◌&&◌, ◌||◌, ltb, leb,
  ◌==◌, if◌then◌else◌, Option, none, some, u64_mod, bit_and, bit_or,
}
use mathlib.Core.Option
use sgx_sdk_rs.Types.{not64}
use sgx_sdk_rs.Base.Int.{ℤ, pos, negsuc, ◌+ℤ◌}

pub record Layout : Type 0 where
  pub size : ℕ
  pub align : ℕ

pub record AlignReq : Type 0 where
  pub offset : ℕ
  pub len : ℕ

abbrev pub usize_max : ℕ
usize_max = u64_mod - 1

-- `x.is_power_of_two()` on a `usize`.
unfoldable pub power_among : ℕ → ℕ → Bool
power_among zero x = false
power_among (suc k) x = 2 ^ k == x || power_among k x

unfoldable pub is_power_of_two : ℕ → Bool
unfolding power_among
is_power_of_two x = power_among 64 x

unfoldable pub check_layout : Layout → Bool
check_layout l =
    not (l.size == 0 || not (is_power_of_two l.align) || ltb (usize_max - (l.align - 1)) l.size)

unfoldable pub check_overflow : ℕ → ℕ → Bool
check_overflow buf len = leb u64_mod (buf + len)

-- `m` of the source; the recursion halves `a`, and the fuel bounds how often.
unfoldable pub gen_alignmask : ℕ → ℕ → ℕ → ℕ → Option ℕ
gen_alignmask zero al a m = none
gen_alignmask (suc fuel) al a m =
    let rest = gen_alignmask fuel al (a / 2) (bit_or m (m / 2 ^ (a / 2))) in
    if ltb al a then rest else some m

-- `__rol(v, c, 63)`: a rotation of 64 bits to the left by `c & 63`.
unfoldable pub rol : ℕ → ℕ → ℕ
rol v c = bit_or (v * 2 ^ bit_and c 63 % u64_mod) (v / 2 ^ bit_and ((u64_mod - c) % u64_mod) 63)

unfoldable pub ror : ℕ → ℕ → ℕ
ror v c = rol v ((u64_mod - c) % u64_mod)

-- The zeros above the highest one, and -1 where there is no one; the fuel bounds the shifts.
unfoldable pub count_lzb : ℕ → ℕ → Option ℤ
unfolding ◌+ℤ◌
count_lzb zero bmp = none
count_lzb (suc fuel) bmp =
    let rest = count_lzb fuel (bmp * 2 % u64_mod) in
    if bmp == 0
    then some (negsuc 0)
    else if leb (2 ^ 63) bmp
    then some (pos 0)
    else Option.map (λ n. n +ℤ pos 1) rest

-- The places, counted from the top bit, at which a secret may start within a line of 64 bytes.
unfoldable pub lspc_places : ℕ → ℕ → ℕ
lspc_places mask bmp =
    let spread = bit_or (bit_or (bit_or bmp (ror bmp 1)) (ror bmp 2)) (ror bmp 3) in
    bit_and (not64 (bit_or (ror spread 5) (ror bmp 1))) mask

-- The recursions below end within their fuel, so the defaults are never used.
unfoldable pub calc_lspc : ℕ → ℕ → ℤ
calc_lspc al bmp =
    let mask = Option.get_or (gen_alignmask 8 al 64 (2 ^ 63)) 0 in
    if not (is_power_of_two al)
    then negsuc 1
    else Option.get_or (count_lzb 65 (lspc_places mask bmp)) (negsuc 0)

unfoldable pub calc_algn_loop : ℕ → ℕ → ℕ → Option ℕ
calc_algn_loop zero size a = none
calc_algn_loop (suc fuel) size a =
    let rest = calc_algn_loop fuel size (a / 2) in
    if ltb 8 a && leb size (a / 2) then rest else some a

unfoldable pub calc_algn : ℕ → ℕ → ℕ
calc_algn al size = if ltb 64 al then al else Option.get_or (calc_algn_loop 4 size 64) 0

-- `bmp |= rol((1 << len) - 1, offset)` for each request; one longer than 63 bytes ends the loop
-- with -1.
unfoldable pub make_bitmap : ℕ → List AlignReq → ℕ
make_bitmap bmp [] = bmp
make_bitmap bmp (req ∷ reqs) =
    let rest = make_bitmap (bit_or bmp (rol (2 ^ req.len - 1) req.offset)) reqs in
    if ltb 63 req.len then u64_mod - 1 else rest

unfoldable pub align_needed_for : Layout → ℕ → ℕ
align_needed_for layout offset = calc_algn layout.align ((layout.size + offset) % u64_mod)

-- `Layout::from_size_align` of the core library: `none` is its error.
unfoldable pub from_size_align : ℕ → ℕ → Option Layout
from_size_align size align =
    if not (is_power_of_two align) || ltb (2 ^ 63 - align) size
    then none
    else some (record { size = size; align = align })
