-- ===== src/Tseal/Seal/Accepts.antt =====
-- What `seal_data_ex` and `mac_aadata_ex` ask of their arguments.
use sgx_sdk_rs.Base.{
  ℕ, ◌+◌, ◌%◌, ◌^◌, ◌<◌, ◌≡◌, ◌⊎◌, arith, true, false, [], length, u32_max,
  sgx_error_invalid_parameter, err,
}
use sgx_sdk_rs.Types.{Attributes, sgx_sealed_data_t_size}
use sgx_sdk_rs.Trts.{Slice, rsgx_slice_is_within_enclave, rsgx_slice_is_outside_enclave}
use sgx_sdk_rs.Tseal.Internal.Sizes.{calc_raw_sealed_data_size-saturates}
use sgx_sdk_rs.Tseal.Seal.{
  Platform, key_policy_refused, attribute_mask_refused, seal_with_fresh_key, seal_data_ex,
  mac_aadata_ex,
}

module _ (p : Platform) where
  -- The slice lies wholly inside or wholly outside the enclave.
  abbrev pub OnOneSide : Slice → Type 0
  OnOneSide s =
      (rsgx_slice_is_within_enclave p.trts s ≡ true)
      ⊎ (rsgx_slice_is_outside_enclave p.trts s ≡ true)

  -- A policy and a mask that may be used, a secret that is not empty and lies in the enclave,
  -- public text on one side of its border, and a total that fits the exchange format.
  pub record Accepts (key_policy : ℕ) (mask : Attributes) (additional_text encrypt_text : Slice)
      : Type 0 where
    pub policy_ok : key_policy_refused key_policy ≡ false
    pub mask_ok : attribute_mask_refused mask ≡ false
    pub secret : 0 < length encrypt_text.bytes
    pub inside : rsgx_slice_is_within_enclave p.trts encrypt_text ≡ true
    pub placed : (length additional_text.bytes ≡ 0) ⊎ OnOneSide additional_text
    pub fits :
        sgx_sealed_data_t_size + length additional_text.bytes + length encrypt_text.bytes < u32_max

  -- The same for text that is only authenticated.
  pub record AcceptsAad (key_policy : ℕ) (mask : Attributes) (additional_text : Slice)
      : Type 0 where
    pub policy_ok : key_policy_refused key_policy ≡ false
    pub mask_ok : attribute_mask_refused mask ≡ false
    pub text : 0 < length additional_text.bytes
    pub placed : OnOneSide additional_text
    pub fits : sgx_sealed_data_t_size + length additional_text.bytes < u32_max

  pub seal_data_ex-Accepts :
      (key_policy : ℕ) (mask : Attributes) (misc_mask : ℕ) (additional_text encrypt_text : Slice)
      → (Accepts key_policy mask additional_text encrypt_text
          × (seal_data_ex p key_policy mask misc_mask additional_text encrypt_text
              ≡ seal_with_fresh_key p key_policy mask misc_mask additional_text.bytes
                  encrypt_text.bytes))
        ⊎ ((¬ Accepts key_policy mask additional_text encrypt_text)
            × (seal_data_ex p key_policy mask misc_mask additional_text encrypt_text
                ≡ err sgx_error_invalid_parameter))
  unfolding seal_data_ex
  seal_data_ex-Accepts key_policy mask misc_mask additional_text encrypt_text = ground (
    arith,
    calc_raw_sealed_data_size-saturates (length additional_text.bytes % 2 ^ 32)
        (length encrypt_text.bytes % 2 ^ 32),
  )

  pub mac_aadata_ex-AcceptsAad :
      (key_policy : ℕ) (mask : Attributes) (misc_mask : ℕ) (additional_text : Slice)
      → (AcceptsAad key_policy mask additional_text
          × (mac_aadata_ex p key_policy mask misc_mask additional_text
              ≡ seal_with_fresh_key p key_policy mask misc_mask additional_text.bytes []))
        ⊎ ((¬ AcceptsAad key_policy mask additional_text)
            × (mac_aadata_ex p key_policy mask misc_mask additional_text
                ≡ err sgx_error_invalid_parameter))
  unfolding mac_aadata_ex
  mac_aadata_ex-AcceptsAad key_policy mask misc_mask additional_text =
      ground (arith, calc_raw_sealed_data_size-saturates (length additional_text.bytes % 2 ^ 32) 0)

  -- `seal_data_ex` goes on to get a key and to encrypt exactly on acceptable arguments, and
  -- `mac_aadata_ex` exactly on those that are acceptable to it, with an empty secret; on all others
  -- the answer is INVALID_PARAMETER.
  pub sealing-Accepts :
      (key_policy : ℕ) (mask : Attributes) (misc_mask : ℕ) (additional_text encrypt_text : Slice)
      → ((Accepts key_policy mask additional_text encrypt_text
            × (seal_data_ex p key_policy mask misc_mask additional_text encrypt_text
                ≡ seal_with_fresh_key p key_policy mask misc_mask additional_text.bytes
                    encrypt_text.bytes))
          ⊎ ((¬ Accepts key_policy mask additional_text encrypt_text)
              × (seal_data_ex p key_policy mask misc_mask additional_text encrypt_text
                  ≡ err sgx_error_invalid_parameter)))
        × ((AcceptsAad key_policy mask additional_text
              × (mac_aadata_ex p key_policy mask misc_mask additional_text
                  ≡ seal_with_fresh_key p key_policy mask misc_mask additional_text.bytes []))
            ⊎ ((¬ AcceptsAad key_policy mask additional_text)
                × (mac_aadata_ex p key_policy mask misc_mask additional_text
                    ≡ err sgx_error_invalid_parameter)))
  sealing-Accepts key_policy mask misc_mask additional_text encrypt_text = (
    seal_data_ex-Accepts key_policy mask misc_mask additional_text encrypt_text,
    mac_aadata_ex-AcceptsAad key_policy mask misc_mask additional_text,
  )
