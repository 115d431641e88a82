-- ===== src/Tseal/Typed/Tests.antt =====
-- Bytes as values, sealed and authenticated by the toy platform.
use sgx_sdk_rs.Base.{ℕ, ◌≡◌, refl, inr, List, [], ◌∷◌, get_or, ok}
use sgx_sdk_rs.Trts
use sgx_sdk_rs.Tse
use sgx_sdk_rs.Tcrypto.Gcm
use sgx_sdk_rs.Tseal.Internal
use sgx_sdk_rs.Tseal.Internal.{InternalSealedData}
use sgx_sdk_rs.Tseal.Seal
use sgx_sdk_rs.Tseal.Unseal.Gate.{IsInside, IsInsideAad}
use sgx_sdk_rs.Tseal.Toy.{toy, toy-IsGcm, label, mask, sealed_toy, aad_toy, at}
use sgx_sdk_rs.Tseal.Typed
use sgx_sdk_rs.Tseal.Typed.{Contiguous, Borrowed, SgxSealedData, SgxMacAadata}
use sgx_sdk_rs.Tseal.Typed.RoundTrip.{sealed_data-round_trip, mac_aadata-round_trip}

abbrev byte : Contiguous ℕ
byte = record {
  size = 1;
  to_bytes = λ v. v ∷ [];
  from_bytes = λ bs. get_or bs 0 0;
  length_to_bytes = λ v. refl;
  from-to = λ v. refl;
}

abbrev value : Borrowed ℕ
value = record { addr = 0x2000; value = 11 }

abbrev values : Borrowed (List ℕ)
values = record { addr = 0x2000; value = 11 ∷ 22 ∷ 33 ∷ [] }

abbrev sealed_value : SgxSealedData
sealed_value = record {
  inner = record sealed_toy {
    payload_data = record (sealed_toy.payload_data) { payload_size = 3; encrypt = 11 ∷ [] };
  };
}

abbrev sealed_values : SgxSealedData
sealed_values = record { inner = sealed_toy }

seal_value_run : Typed.seal_data_ex_value byte toy 2 mask 0 label value ≡ ok sealed_value
unfolding Typed.seal_data_ex_value Seal.seal_data_ex Seal.seal_with_fresh_key Seal.seal_data_iv
    Seal.key_policy_refused Seal.attribute_mask_refused Internal.calc_raw_sealed_data_size
    Trts.rsgx_read_rand Trts.rsgx_slice_is_within_enclave Trts.rsgx_slice_is_outside_enclave
    Tse.rsgx_get_align_key Tse.rsgx_self_report Gcm.rsgx_rijndael128_gcm_encrypt Gcm.check_lengths
seal_value_run = refl

seal_values_run : Typed.seal_data_ex_slice byte toy 2 mask 0 label values ≡ ok sealed_values
unfolding Typed.seal_data_ex_slice Seal.seal_data_ex Seal.seal_with_fresh_key Seal.seal_data_iv
    Seal.key_policy_refused Seal.attribute_mask_refused Internal.calc_raw_sealed_data_size
    Trts.rsgx_read_rand Trts.rsgx_slice_is_within_enclave Trts.rsgx_slice_is_outside_enclave
    Tse.rsgx_get_align_key Tse.rsgx_self_report Gcm.rsgx_rijndael128_gcm_encrypt Gcm.check_lengths
seal_values_run = refl

value-IsInside : IsInside toy at sealed_value.inner
unfolding Trts.rsgx_slice_is_within_enclave
value-IsInside = (refl, refl, inr refl)

values-IsInside : IsInside toy at sealed_values.inner
unfolding Trts.rsgx_slice_is_within_enclave
values-IsInside = (refl, refl, inr refl)

sealed_data-round_trip_example :
    (Typed.unseal_data_value byte toy at sealed_value
      ≡ ok (record { payload_size = 3; decrypt = 11; additional = label.bytes }))
    × (Typed.unseal_data_slice byte toy at sealed_values
        ≡ ok (record { payload_size = 5; decrypt = 11 ∷ 22 ∷ 33 ∷ []; additional = label.bytes }))
sealed_data-round_trip_example =
    sealed_data-round_trip byte toy toy-IsGcm 2 mask 0 label at value values sealed_value
      sealed_values seal_value_run seal_values_run value-IsInside values-IsInside

abbrev mac_value : SgxMacAadata
mac_value = record {
  inner = record aad_toy {
    payload_data = record (aad_toy.payload_data) { payload_size = 1; additional = 11 ∷ [] };
  };
}

abbrev mac_values : SgxMacAadata
mac_values = record {
  inner = record aad_toy {
    payload_data = record (aad_toy.payload_data) {
      payload_size = 3;
      additional = 11 ∷ 22 ∷ 33 ∷ [];
    };
  };
}

mac_value_run : Typed.mac_aadata_ex_value byte toy 2 mask 0 value ≡ ok mac_value
unfolding Typed.mac_aadata_ex_value Seal.mac_aadata_ex Seal.seal_with_fresh_key Seal.seal_data_iv
    Seal.key_policy_refused Seal.attribute_mask_refused Internal.calc_raw_sealed_data_size
    Trts.rsgx_read_rand Trts.rsgx_slice_is_within_enclave Trts.rsgx_slice_is_outside_enclave
    Tse.rsgx_get_align_key Tse.rsgx_self_report Gcm.rsgx_rijndael128_gcm_encrypt Gcm.check_lengths
mac_value_run = refl

mac_values_run : Typed.mac_aadata_ex_slice byte toy 2 mask 0 values ≡ ok mac_values
unfolding Typed.mac_aadata_ex_slice Seal.mac_aadata_ex Seal.seal_with_fresh_key Seal.seal_data_iv
    Seal.key_policy_refused Seal.attribute_mask_refused Internal.calc_raw_sealed_data_size
    Trts.rsgx_read_rand Trts.rsgx_slice_is_within_enclave Trts.rsgx_slice_is_outside_enclave
    Tse.rsgx_get_align_key Tse.rsgx_self_report Gcm.rsgx_rijndael128_gcm_encrypt Gcm.check_lengths
mac_values_run = refl

mac_value-IsInsideAad : IsInsideAad toy at mac_value.inner
unfolding Trts.rsgx_slice_is_within_enclave
mac_value-IsInsideAad = (refl, refl)

mac_values-IsInsideAad : IsInsideAad toy at mac_values.inner
unfolding Trts.rsgx_slice_is_within_enclave
mac_values-IsInsideAad = (refl, refl)

mac_aadata-round_trip_example :
    (Typed.unmac_aadata_value byte toy at mac_value ≡ ok 11)
    × (Typed.unmac_aadata_slice byte toy at mac_values ≡ ok (11 ∷ 22 ∷ 33 ∷ []))
mac_aadata-round_trip_example =
    mac_aadata-round_trip byte toy toy-IsGcm 2 mask 0 at value values mac_value mac_values
      mac_value_run mac_values_run mac_value-IsInsideAad mac_values-IsInsideAad
