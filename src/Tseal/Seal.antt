-- ===== src/Tseal/Seal.antt =====
-- sgx-tseal/src/internal.rs: `seal_data`, `mac_aadata`, their `_ex` forms and `seal_data_iv`.
pub mod Policy
pub mod Accepts
use sgx_sdk_rs.Base.{
  ℕ, ◌+◌, ◌%◌, ◌^◌, List, [], Bool, not, ◌&&◌, ◌||◌, ltb, leb, ◌==◌, if◌then◌else◌, length,
  replicate, u32_max, bit_and, bit_or, SgxStatus, sgx_error_unexpected, sgx_error_invalid_parameter,
  sgx_error_out_of_memory, Result, ok, reject_if, map_err, ◌>>=◌, ◌>>◌,
}
use sgx_sdk_rs.Types
use sgx_sdk_rs.Types.{KeyRequest, Attributes}
use sgx_sdk_rs.Trts.{
  TrtsLib, Slice, rsgx_slice_is_within_enclave, rsgx_slice_is_outside_enclave, rsgx_read_rand,
}
use sgx_sdk_rs.Tse.{TseLib, rsgx_get_align_key, rsgx_self_report}
use sgx_sdk_rs.Tcrypto.Gcm.{TcryptoLib, rsgx_rijndael128_gcm_encrypt}
use sgx_sdk_rs.Tseal.Internal.{InternalSealedData, default_payload, calc_raw_sealed_data_size}

-- The trusted libraries below the sealing code, as they answer during one call.
pub record Platform : Type 0 where
  pub trts : TrtsLib
  pub tse : TseLib
  pub tcrypto : TcryptoLib

abbrev pub key_policy_kss : ℕ
key_policy_kss =
    bit_or (bit_or Types.sgx_keypolicy_configid Types.sgx_keypolicy_isvfamilyid)
      Types.sgx_keypolicy_isvextprodid

-- A policy with an unknown bit, or with neither MRENCLAVE nor MRSIGNER.
unfoldable pub key_policy_refused : ℕ → Bool
key_policy_refused key_policy =
    let mrenclave_or_mrsigner = bit_or Types.sgx_keypolicy_mrenclave Types.sgx_keypolicy_mrsigner in
    let known =
      bit_or (bit_or mrenclave_or_mrsigner key_policy_kss) Types.sgx_keypolicy_noisvprodid in
    not (bit_and key_policy (Types.not16 known) == 0)
    || bit_and key_policy mrenclave_or_mrsigner == 0

-- A mask that does not bind the INITTED and DEBUG flags.
unfoldable pub attribute_mask_refused : Attributes → Bool
attribute_mask_refused mask =
    bit_and mask.flags Types.sgx_flags_initted == 0 || bit_and mask.flags Types.sgx_flags_debug == 0

module _ (p : Platform) where
  open p use {trts, tse, tcrypto}

  -- Every failure to get the key but one is reported as unexpected.
  abbrev seal_key_error : SgxStatus → SgxStatus
  seal_key_error ret = if not (ret == sgx_error_out_of_memory) then sgx_error_unexpected else ret

  unfoldable pub seal_data_iv : List ℕ → List ℕ → List ℕ → KeyRequest → Result InternalSealedData
  seal_data_iv additional_text encrypt_text payload_iv key_request = do
    seal_key ← map_err seal_key_error (rsgx_get_align_key tse key_request)
    let g =
        rsgx_rijndael128_gcm_encrypt tcrypto seal_key encrypt_text payload_iv additional_text
          (replicate (length encrypt_text) 0) (replicate Types.sgx_seal_tag_size 0)
    g.result
    ok (record {
      key_request = Types.default_key_request;
      payload_data = record default_payload {
        payload_size = (length encrypt_text + length additional_text) % 2 ^ 32;
        payload_tag = g.mac;
        encrypt = g.dst;
        additional = if length additional_text == 0 then [] else additional_text;
      };
    })

  -- The request that both directions send for the key.
  unfoldable pub seal_key_request : ℕ → Attributes → ℕ → List ℕ → KeyRequest
  seal_key_request key_policy attribute_mask misc_mask key_id =
      let report = rsgx_self_report tse in
      record {
        key_name = Types.sgx_keyselect_seal;
        key_policy = key_policy;
        isv_svn = report.isv_svn;
        reserved1 = 0;
        cpu_svn = report.cpu_svn;
        attribute_mask = attribute_mask;
        key_id = key_id;
        misc_mask = misc_mask;
        config_svn = report.config_svn;
        reserved2 = replicate Types.sgx_key_request_reserved2_bytes 0;
      }

  -- The end of both `_ex` functions: a fresh key id, the request, the encryption, and the request
  -- put in its place.
  unfoldable pub seal_with_fresh_key :
      ℕ → Attributes → ℕ → List ℕ → List ℕ → Result InternalSealedData
  unfolding seal_key_request
  seal_with_fresh_key key_policy attribute_mask misc_mask additional_text encrypt_text = do
    let filled = rsgx_read_rand trts Types.sgx_keyid_size
    filled.result
    let key_request = seal_key_request key_policy attribute_mask misc_mask filled.rand
    s ← seal_data_iv additional_text encrypt_text (replicate Types.sgx_seal_iv_size 0) key_request
    ok (record s { key_request = key_request })

  unfoldable pub seal_data_ex : ℕ → Attributes → ℕ → Slice → Slice → Result InternalSealedData
  seal_data_ex key_policy attribute_mask misc_mask additional_text encrypt_text = do
    let additional_len = length additional_text.bytes
    let encrypt_len = length encrypt_text.bytes
    reject_if (leb u32_max additional_len || leb u32_max encrypt_len) sgx_error_invalid_parameter
    reject_if
        (calc_raw_sealed_data_size (additional_len % 2 ^ 32) (encrypt_len % 2 ^ 32) == u32_max)
        sgx_error_invalid_parameter
    reject_if (encrypt_len == 0) sgx_error_invalid_parameter
    reject_if (key_policy_refused key_policy) sgx_error_invalid_parameter
    reject_if (attribute_mask_refused attribute_mask) sgx_error_invalid_parameter
    reject_if (not (rsgx_slice_is_within_enclave trts encrypt_text)) sgx_error_invalid_parameter
    reject_if
        (ltb 0 additional_len
          && not (rsgx_slice_is_within_enclave trts additional_text)
          && not (rsgx_slice_is_outside_enclave trts additional_text))
        sgx_error_invalid_parameter
    seal_with_fresh_key key_policy attribute_mask misc_mask additional_text.bytes encrypt_text.bytes

  unfoldable pub mac_aadata_ex : ℕ → Attributes → ℕ → Slice → Result InternalSealedData
  mac_aadata_ex key_policy attribute_mask misc_mask additional_text = do
    let additional_len = length additional_text.bytes
    reject_if (leb u32_max additional_len) sgx_error_invalid_parameter
    reject_if (calc_raw_sealed_data_size (additional_len % 2 ^ 32) 0 == u32_max)
        sgx_error_invalid_parameter
    reject_if (additional_len == 0) sgx_error_invalid_parameter
    reject_if (key_policy_refused key_policy) sgx_error_invalid_parameter
    reject_if (attribute_mask_refused attribute_mask) sgx_error_invalid_parameter
    reject_if
        (not (rsgx_slice_is_within_enclave trts additional_text)
          && not (rsgx_slice_is_outside_enclave trts additional_text))
        sgx_error_invalid_parameter
    seal_with_fresh_key key_policy attribute_mask misc_mask additional_text.bytes []

  -- MRSIGNER, with the KSS policy bits if the enclave uses KSS.
  unfoldable pub default_key_policy : ℕ
  default_key_policy =
      if not (bit_and (rsgx_self_report tse).attributes.flags Types.sgx_flags_kss == 0)
      then bit_or Types.sgx_keypolicy_mrsigner key_policy_kss
      else Types.sgx_keypolicy_mrsigner

  abbrev pub default_attribute_mask : Attributes
  default_attribute_mask = record { flags = Types.tseal_default_flagsmask; xfrm = 0 }

  unfoldable pub seal_data : Slice → Slice → Result InternalSealedData
  seal_data additional_text encrypt_text =
      seal_data_ex default_key_policy default_attribute_mask Types.tseal_default_miscmask
        additional_text encrypt_text

  unfoldable pub mac_aadata : Slice → Result InternalSealedData
  mac_aadata additional_text =
      mac_aadata_ex default_key_policy default_attribute_mask Types.tseal_default_miscmask
        additional_text
