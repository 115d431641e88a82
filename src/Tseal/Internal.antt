-- ===== src/Tseal/Internal.antt =====
-- sgx-tseal/src/internal.rs: the data, and the sizes computed from it.
pub mod Sizes
use sgx_sdk_rs.Base.{
  ℕ, ◌+◌, ◌-◌, ◌%◌, ◌^◌, List, [], Bool, ◌||◌, ltb, leb, if◌then◌else◌, length, replicate, u32_max,
}
use sgx_sdk_rs.Types.{KeyRequest, default_key_request, sgx_sealed_data_t_size, sgx_seal_tag_size}

pub record InternalUnsealedData : Type 0 where
  pub payload_size : ℕ
  pub decrypt : List ℕ
  pub additional : List ℕ

pub record Payload : Type 0 where
  pub payload_size : ℕ
  pub reserved : List ℕ
  pub payload_tag : List ℕ
  pub encrypt : List ℕ
  pub additional : List ℕ

pub record InternalSealedData : Type 0 where
  pub key_request : KeyRequest
  pub payload_data : Payload

-- The derived `Default`: zeros and empty boxes.
abbrev pub default_payload : Payload
default_payload = record {
  payload_size = 0;
  reserved = replicate 12 0;
  payload_tag = replicate sgx_seal_tag_size 0;
  encrypt = [];
  additional = [];
}

abbrev pub default_sealed_data : InternalSealedData
default_sealed_data = record { key_request = default_key_request; payload_data = default_payload }

-- `u32` addition without a check, as in a release build.
abbrev pub add32 : ℕ → ℕ → ℕ
add32 a b = (a + b) % 2 ^ 32

unfoldable pub calc_raw_sealed_data_size : ℕ → ℕ → ℕ
calc_raw_sealed_data_size add_mac_txt_size encrypt_txt_size =
    let sealed_data_size = sgx_sealed_data_t_size % 2 ^ 32 in
    let payload_size = add32 add_mac_txt_size encrypt_txt_size in
    if ltb (u32_max - encrypt_txt_size) add_mac_txt_size
    then u32_max
    else if ltb (u32_max - sealed_data_size) payload_size
    then u32_max
    else add32 sealed_data_size payload_size

-- A length that is clipped to `u32::MAX` where it exceeds the payload or the width.
abbrev pub clipped : ℕ → ℕ → ℕ
clipped data_size payload_size =
    if ltb payload_size data_size || leb u32_max data_size then u32_max else data_size % 2 ^ 32

unfoldable pub get_add_mac_txt_len : InternalSealedData → ℕ
get_add_mac_txt_len s = clipped (length s.payload_data.additional) s.payload_data.payload_size

unfoldable pub get_encrypt_txt_len : InternalSealedData → ℕ
get_encrypt_txt_len s = clipped (length s.payload_data.encrypt) s.payload_data.payload_size
