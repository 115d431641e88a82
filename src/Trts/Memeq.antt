-- ===== src/Trts/Memeq.antt =====
-- sgx-trts/src/memeq.rs: comparison of byte strings in constant time. An `i32` is its bit pattern.
pub mod Equal
pub mod Tests
use sgx_sdk_rs.Base.{
  ℕ, zero, suc, ◌+◌, ◌-◌, ◌*◌, ◌/◌, ◌%◌, ◌^◌, List, Bool, true, false, not, ltb, ◌==◌,
  if◌then◌else◌, length, get_or, bit_and, bit_or, bit_xor,
}
use sgx_sdk_rs.Trts.{Slice}

-- The loop, from the last byte to the first.
unfoldable pub compare_bytes : List ℕ → List ℕ → ℕ → ℕ → ℕ
compare_bytes p1 p2 zero res = res
compare_bytes p1 p2 (suc len) res =
    compare_bytes p1 p2 len (bit_or res (bit_xor (get_or p1 len 0) (get_or p2 len 0)))

-- `v >> 8` on an `i32`, which keeps the sign.
abbrev pub shift_right_8 : ℕ → ℕ
shift_right_8 v = if ltb v (2 ^ 31) then v / 2 ^ 8 else v / 2 ^ 8 + (2 ^ 8 - 1) * 2 ^ 24

unfoldable pub consttime_memequal : List ℕ → List ℕ → ℕ → ℕ
consttime_memequal p1 p2 l =
    let res = compare_bytes p1 p2 l 0 in bit_and 1 (shift_right_8 ((res + 2 ^ 32 - 1) % 2 ^ 32))

-- `consttime_memeq` on slices, which hold `len` and `other_len` elements in their bytes.
unfoldable pub consttime_memeq_slice : ℕ → ℕ → Slice → Slice → Bool
consttime_memeq_slice len other_len this other =
    if not (len == other_len)
    then false
    else if this.addr == other.addr
    then true
    else not (consttime_memequal this.bytes other.bytes (length this.bytes) == 0)

-- `consttime_memeq` on two values of one type.
unfoldable pub consttime_memeq : List ℕ → List ℕ → Bool
consttime_memeq this other =
    let size = length this in
    if size == 0 then true else not (consttime_memequal this other size == 0)
