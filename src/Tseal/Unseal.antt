-- ===== src/Tseal/Unseal.antt =====
-- sgx-tseal/src/internal.rs: `unseal_data`, `unmac_aadata` and `unseal_data_helper`.
pub mod Gate
use sgx_sdk_rs.Base.{
  ℕ, List, [], Bool, not, ◌&&◌, ◌||◌, ltb, ◌==◌, if◌then◌else◌, length, replicate, u32_max,
  SgxStatus, sgx_error_invalid_parameter, sgx_error_mac_mismatch, sgx_error_invalid_cpusvn,
  sgx_error_invalid_isvsvn, sgx_error_out_of_memory, Result, ok, reject_if, map_err, ◌>>=◌, ◌>>◌,
}
use sgx_sdk_rs.Types
use sgx_sdk_rs.Trts.{rsgx_raw_is_within_enclave, rsgx_slice_is_within_enclave}
use sgx_sdk_rs.Tse.{rsgx_get_align_key}
use sgx_sdk_rs.Tcrypto.Gcm.{rsgx_rijndael128_gcm_decrypt}
use sgx_sdk_rs.Tseal.Internal.{
  InternalSealedData, InternalUnsealedData, add32, calc_raw_sealed_data_size, get_add_mac_txt_len,
  get_encrypt_txt_len,
}
use sgx_sdk_rs.Tseal.Seal.{Platform}

-- Where a sealed data and its two boxes lie, and how large the struct is.
pub record Placement : Type 0 where
  pub self_addr : ℕ
  pub self_size : ℕ
  pub encrypt_addr : ℕ
  pub additional_addr : ℕ

-- Three failures to get the key are passed on; any other is reported as a bad tag.
abbrev pub unseal_key_error : SgxStatus → SgxStatus
unseal_key_error ret =
    if ret == sgx_error_invalid_cpusvn
      || ret == sgx_error_invalid_isvsvn
      || ret == sgx_error_out_of_memory
    then ret
    else sgx_error_mac_mismatch

module _ (p : Platform) where
  open p use {trts, tse, tcrypto}

  unfoldable pub unseal_data_helper : InternalSealedData → Result InternalUnsealedData
  unseal_data_helper s = do
    let payload = s.payload_data
    seal_key ← map_err unseal_key_error (rsgx_get_align_key tse s.key_request)
    let g =
        rsgx_rijndael128_gcm_decrypt tcrypto seal_key payload.encrypt
          (replicate Types.sgx_seal_iv_size 0) payload.additional payload.payload_tag
          (replicate (length payload.encrypt) 0)
    g.result
    ok (record {
      payload_size = payload.payload_size;
      decrypt = g.dst;
      additional = if length payload.additional == 0 then [] else payload.additional;
    })

  unfoldable pub unseal_data : Placement → InternalSealedData → Result InternalUnsealedData
  unseal_data at s = do
    let additional_len = get_add_mac_txt_len s
    let encrypt_len = get_encrypt_txt_len s
    reject_if (additional_len == u32_max || encrypt_len == u32_max) sgx_error_mac_mismatch
    reject_if (calc_raw_sealed_data_size additional_len encrypt_len == u32_max)
        sgx_error_mac_mismatch
    reject_if (ltb encrypt_len 1) sgx_error_mac_mismatch
    reject_if (not (add32 additional_len encrypt_len == s.payload_data.payload_size))
        sgx_error_mac_mismatch
    reject_if (not (rsgx_raw_is_within_enclave trts at.self_addr at.self_size))
        sgx_error_invalid_parameter
    reject_if
        (not (
          rsgx_slice_is_within_enclave trts
            (record { addr = at.encrypt_addr; bytes = s.payload_data.encrypt })))
        sgx_error_invalid_parameter
    reject_if
        (ltb 0 additional_len
          && not (
              rsgx_slice_is_within_enclave trts
                (record { addr = at.additional_addr; bytes = s.payload_data.additional })))
        sgx_error_invalid_parameter
    unseal_data_helper s

  unfoldable pub unmac_aadata : Placement → InternalSealedData → Result InternalUnsealedData
  unmac_aadata at s = do
    let additional_len = get_add_mac_txt_len s
    let encrypt_len = get_encrypt_txt_len s
    reject_if (additional_len == u32_max || encrypt_len == u32_max) sgx_error_mac_mismatch
    reject_if (ltb additional_len 1) sgx_error_mac_mismatch
    reject_if (not (encrypt_len == 0)) sgx_error_mac_mismatch
    reject_if (calc_raw_sealed_data_size additional_len encrypt_len == u32_max)
        sgx_error_mac_mismatch
    reject_if (not (add32 additional_len encrypt_len == s.payload_data.payload_size))
        sgx_error_mac_mismatch
    reject_if (not (rsgx_raw_is_within_enclave trts at.self_addr at.self_size))
        sgx_error_invalid_parameter
    reject_if
        (not (
          rsgx_slice_is_within_enclave trts
            (record { addr = at.additional_addr; bytes = s.payload_data.additional })))
        sgx_error_invalid_parameter
    unseal_data_helper s
