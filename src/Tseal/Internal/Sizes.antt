-- ===== src/Tseal/Internal/Sizes.antt =====
-- The size computations of sgx-tseal/src/internal.rs never wrap: they give the true size or the
-- marker `u32::MAX`.
use Prim.Native.Nat.{min}
use sgx_sdk_rs.Base.{ℕ, ◌+◌, ◌^◌, ◌≤◌, ◌<◌, ◌≡◌, ◌≢◌, ◌↔◌, arith, length, u32_max}
use sgx_sdk_rs.Types.{sgx_sealed_data_t_size}
use sgx_sdk_rs.Tseal.Internal.{
  InternalSealedData, add32, clipped, calc_raw_sealed_data_size, get_add_mac_txt_len,
  get_encrypt_txt_len,
}

-- For any two `u32` sizes the result is the true sum of header and texts, or `u32::MAX` where that
-- sum does not fit below it.
pub calc_raw_sealed_data_size-saturates :
    (a e : ℕ)
    → a < 2 ^ 32
    → e < 2 ^ 32
    → calc_raw_sealed_data_size a e ≡ min (sgx_sealed_data_t_size + a + e) u32_max
unfolding calc_raw_sealed_data_size
calc_raw_sealed_data_size-saturates a e ha he = ground arith

-- The payload size is the sum of the two texts' lengths, and each length is below the marker.
abbrev pub IsConsistent : InternalSealedData → Type 0
IsConsistent s =
    (length s.payload_data.additional + length s.payload_data.encrypt ≡ s.payload_data.payload_size)
    × (length s.payload_data.additional < u32_max)
    × (length s.payload_data.encrypt < u32_max)

-- The three tests on lengths with which every conversion starts.
abbrev pub PassesLengthTests : InternalSealedData → Type 0
PassesLengthTests s =
    (get_add_mac_txt_len s ≢ u32_max)
    × (get_encrypt_txt_len s ≢ u32_max)
    × (add32 (get_add_mac_txt_len s) (get_encrypt_txt_len s) ≡ s.payload_data.payload_size)

pub get_add_mac_txt_len-eq-length :
    (s : InternalSealedData)
    → IsConsistent s
    → get_add_mac_txt_len s ≡ length s.payload_data.additional
unfolding get_add_mac_txt_len
get_add_mac_txt_len-eq-length s h = ground arith

pub get_encrypt_txt_len-eq-length :
    (s : InternalSealedData)
    → IsConsistent s
    → get_encrypt_txt_len s ≡ length s.payload_data.encrypt
unfolding get_encrypt_txt_len
get_encrypt_txt_len-eq-length s h = ground arith

clipped_parts :
    (data_size payload_size : ℕ)
    → clipped data_size payload_size ≢ u32_max
    → (clipped data_size payload_size ≡ data_size)
      × (data_size ≤ payload_size)
      × (data_size < u32_max)
clipped_parts data_size payload_size h = ground arith

PassesLengthTests-IsConsistent : (s : InternalSealedData) → PassesLengthTests s → IsConsistent s
unfolding get_add_mac_txt_len get_encrypt_txt_len
PassesLengthTests-IsConsistent s (ha, he, sum) =
    let a = clipped_parts (length s.payload_data.additional) s.payload_data.payload_size ha in
    let e = clipped_parts (length s.payload_data.encrypt) s.payload_data.payload_size he in
    omega arith

-- The sum of the two clipped lengths is computed in `u32` and may wrap, but the tests on lengths
-- are passed exactly by the data, with a `u32` payload size, whose true lengths add up to it.
pub PassesLengthTests-iff :
    (s : InternalSealedData)
    → s.payload_data.payload_size < 2 ^ 32
    → PassesLengthTests s ↔ IsConsistent s
PassesLengthTests-iff s small = (
  PassesLengthTests-IsConsistent s,
  λ h.
      let a = get_add_mac_txt_len-eq-length s h in
      let e = get_encrypt_txt_len-eq-length s h in (omega arith, omega arith, omega arith),
)
