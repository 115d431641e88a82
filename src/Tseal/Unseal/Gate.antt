-- ===== src/Tseal/Unseal/Gate.antt =====
-- What `unseal_data` and `unmac_aadata` ask of a sealed data before they decrypt.
use sgx_sdk_rs.Base.{
  ◌+◌, ◌^◌, ◌<◌, ◌≡◌, ◌⊎◌, arith, true, length, u32_max, sgx_error_invalid_parameter,
  sgx_error_mac_mismatch, err,
}
use sgx_sdk_rs.Types.{sgx_sealed_data_t_size}
use sgx_sdk_rs.Trts.{rsgx_raw_is_within_enclave, rsgx_slice_is_within_enclave}
use sgx_sdk_rs.Tseal.Internal.{InternalSealedData, get_add_mac_txt_len, get_encrypt_txt_len}
use sgx_sdk_rs.Tseal.Internal.Sizes.{
  IsConsistent, PassesLengthTests-iff, get_add_mac_txt_len-eq-length, get_encrypt_txt_len-eq-length,
  calc_raw_sealed_data_size-saturates,
}
use sgx_sdk_rs.Tseal.Seal.{Platform}
use sgx_sdk_rs.Tseal.Unseal.{Placement, unseal_data, unmac_aadata, unseal_data_helper}

-- The lengths of a sealed data that can be opened: they add up, and fit the exchange format.
abbrev pub HasLengths : InternalSealedData → Type 0
HasLengths s = IsConsistent s × (sgx_sealed_data_t_size + s.payload_data.payload_size < u32_max)

abbrev pub IsOpenable : InternalSealedData → Type 0
IsOpenable s = HasLengths s × (0 < length s.payload_data.encrypt)

abbrev pub IsOpenableAad : InternalSealedData → Type 0
IsOpenableAad s =
    HasLengths s × (0 < length s.payload_data.additional) × (length s.payload_data.encrypt ≡ 0)

module _ (p : Platform) where
  open p use {trts}

  abbrev pub AdditionalInside : Placement → InternalSealedData → Type 0
  AdditionalInside at s =
      rsgx_slice_is_within_enclave trts
        (record { addr = at.additional_addr; bytes = s.payload_data.additional })
      ≡ true

  -- The struct and its boxes lie within the enclave; a box with nothing in it need not.
  abbrev pub IsInside : Placement → InternalSealedData → Type 0
  IsInside at s =
      (rsgx_raw_is_within_enclave trts at.self_addr at.self_size ≡ true)
      × (rsgx_slice_is_within_enclave trts
            (record { addr = at.encrypt_addr; bytes = s.payload_data.encrypt })
          ≡ true)
      × ((length s.payload_data.additional ≡ 0) ⊎ AdditionalInside at s)

  abbrev pub IsInsideAad : Placement → InternalSealedData → Type 0
  IsInsideAad at s =
      (rsgx_raw_is_within_enclave trts at.self_addr at.self_size ≡ true) × AdditionalInside at s

  pub unseal_data_gate :
      (at : Placement) (s : InternalSealedData)
      → s.payload_data.payload_size < 2 ^ 32
      → (IsOpenable s × IsInside at s × (unseal_data p at s ≡ unseal_data_helper p s))
        ⊎ (IsOpenable s
            × (¬ IsInside at s)
            × (unseal_data p at s ≡ err sgx_error_invalid_parameter))
        ⊎ ((¬ IsOpenable s) × (unseal_data p at s ≡ err sgx_error_mac_mismatch))
  unfolding unseal_data
  unseal_data_gate at s small = ground (
    arith,
    PassesLengthTests-iff s,
    get_add_mac_txt_len-eq-length s,
    get_encrypt_txt_len-eq-length s,
    calc_raw_sealed_data_size-saturates (get_add_mac_txt_len s) (get_encrypt_txt_len s),
  )

  pub unmac_aadata_gate :
      (at : Placement) (s : InternalSealedData)
      → s.payload_data.payload_size < 2 ^ 32
      → (IsOpenableAad s × IsInsideAad at s × (unmac_aadata p at s ≡ unseal_data_helper p s))
        ⊎ (IsOpenableAad s
            × (¬ IsInsideAad at s)
            × (unmac_aadata p at s ≡ err sgx_error_invalid_parameter))
        ⊎ ((¬ IsOpenableAad s) × (unmac_aadata p at s ≡ err sgx_error_mac_mismatch))
  unfolding unmac_aadata
  unmac_aadata_gate at s small = ground (
    arith,
    PassesLengthTests-iff s,
    get_add_mac_txt_len-eq-length s,
    get_encrypt_txt_len-eq-length s,
    calc_raw_sealed_data_size-saturates (get_add_mac_txt_len s) (get_encrypt_txt_len s),
  )

  -- `unseal_data` decrypts exactly a sealed data whose lengths are right and that lies in the enclave
  -- with its boxes, and `unmac_aadata` goes on exactly with authenticated text alone, whose lengths are
  -- right, that lies in the enclave with the struct. Both report wrong lengths as a bad tag, and a
  -- wrong place, where the lengths are right, as INVALID_PARAMETER.
  pub opening_gate :
      (at : Placement) (s : InternalSealedData)
      → s.payload_data.payload_size < 2 ^ 32
      → ((IsOpenable s × IsInside at s × (unseal_data p at s ≡ unseal_data_helper p s))
          ⊎ (IsOpenable s
              × (¬ IsInside at s)
              × (unseal_data p at s ≡ err sgx_error_invalid_parameter))
          ⊎ ((¬ IsOpenable s) × (unseal_data p at s ≡ err sgx_error_mac_mismatch)))
        × ((IsOpenableAad s × IsInsideAad at s × (unmac_aadata p at s ≡ unseal_data_helper p s))
            ⊎ (IsOpenableAad s
                × (¬ IsInsideAad at s)
                × (unmac_aadata p at s ≡ err sgx_error_invalid_parameter))
            ⊎ ((¬ IsOpenableAad s) × (unmac_aadata p at s ≡ err sgx_error_mac_mismatch)))
  opening_gate at s small = (unseal_data_gate at s small, unmac_aadata_gate at s small)
