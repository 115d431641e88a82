-- ===== src/Tseal/Tests.antt =====
-- The theorems on sealing at concrete inputs.
use sgx_sdk_rs.Base.{
  ◌≡◌, ◌⊎◌, arith, refl, [], length, replicate, none, some, ok, err, sgx_error_invalid_parameter,
  sgx_error_mac_mismatch,
}
use sgx_sdk_rs.Tcrypto.Gcm
use sgx_sdk_rs.Tcrypto.Gcm.{TcryptoLib, IsGcm, Region, region}
use sgx_sdk_rs.Tcrypto.Gcm.Laws
use sgx_sdk_rs.Tseal.Internal.{InternalSealedData}
use sgx_sdk_rs.Tseal.Raw
use sgx_sdk_rs.Tseal.Raw.{RawSealedData, TsealLib, IsTsealLib, returns}
use sgx_sdk_rs.Tseal.Seal
use sgx_sdk_rs.Tseal.Seal.{Platform}
use sgx_sdk_rs.Tseal.Unseal
use sgx_sdk_rs.Tseal.Unseal.{Placement}
use sgx_sdk_rs.Tseal.RoundTrip
use sgx_sdk_rs.Tseal.Unseal.Gate.{IsInside, IsInsideAad, IsOpenable, IsOpenableAad, opening_gate}
use sgx_sdk_rs.Tseal.Raw.Write.{CanWrite, stored, to_raw_sealed_data_t_lem}
use sgx_sdk_rs.Tseal.Seal.Accepts.{Accepts, AcceptsAad, sealing-Accepts}
use sgx_sdk_rs.Tseal.Toy.{
  toy_trts, toy_tcrypto, toy-IsGcm, toy, toy_tseal, toy_IsTsealLib, secret, label, mask, sealed_toy,
  seal_run, at, IsInside-toy, aad_toy, mac_run, IsInsideAad-toy, buffer, write_run,
}

unseal_data-seal_data_ex_example :
    Unseal.unseal_data toy at sealed_toy ≡ ok (RoundTrip.opened label.bytes secret.bytes)
unseal_data-seal_data_ex_example =
    RoundTrip.unseal_data-seal_data_ex toy toy-IsGcm 2 mask 0 label secret sealed_toy at seal_run
      IsInside-toy

unmac_aadata-mac_aadata_ex_example :
    Unseal.unmac_aadata toy at aad_toy ≡ ok (RoundTrip.opened label.bytes [])
unmac_aadata-mac_aadata_ex_example =
    RoundTrip.unmac_aadata-mac_aadata_ex toy toy-IsGcm 2 mask 0 label aad_toy at mac_run
      IsInsideAad-toy

unseal_data-from_raw-to_raw_example :
    (t : InternalSealedData) × (Raw.from_raw_sealed_data_t toy_trts toy_tseal 0x6000
        (stored sealed_toy buffer)
        568
      ≡ returns (some t))
    × (Unseal.unseal_data toy at t ≡ ok (RoundTrip.opened label.bytes secret.bytes))
unseal_data-from_raw-to_raw_example =
    RoundTrip.unseal_data-from_raw-to_raw toy toy-IsGcm toy_tseal toy_IsTsealLib 2 mask 0 label
      secret sealed_toy 0x6000 buffer (stored sealed_toy buffer) 568 at seal_run (omega arith)
      write_run IsInside-toy

to_raw_sealed_data_t_lem_example :
    (CanWrite toy_trts toy_tseal toy_IsTsealLib sealed_toy 0x6000 568
      × (Raw.to_raw_sealed_data_t toy_trts toy_tseal sealed_toy 0x6000 buffer 568
          ≡ returns (some (stored sealed_toy buffer))))
    ⊎ ((¬ CanWrite toy_trts toy_tseal toy_IsTsealLib sealed_toy 0x6000 568)
        × (Raw.to_raw_sealed_data_t toy_trts toy_tseal sealed_toy 0x6000 buffer 568 ≡ returns none))
to_raw_sealed_data_t_lem_example =
    to_raw_sealed_data_t_lem toy_trts toy_tseal toy_IsTsealLib sealed_toy 0x6000 buffer 568
      (omega arith) (omega arith)

sealing-Accepts_example :
    ((Accepts toy 2 mask label secret
        × (Seal.seal_data_ex toy 2 mask 0 label secret
            ≡ Seal.seal_with_fresh_key toy 2 mask 0 label.bytes secret.bytes))
      ⊎ ((¬ Accepts toy 2 mask label secret)
          × (Seal.seal_data_ex toy 2 mask 0 label secret ≡ err sgx_error_invalid_parameter)))
    × ((AcceptsAad toy 2 mask label
          × (Seal.mac_aadata_ex toy 2 mask 0 label
              ≡ Seal.seal_with_fresh_key toy 2 mask 0 label.bytes []))
        ⊎ ((¬ AcceptsAad toy 2 mask label)
            × (Seal.mac_aadata_ex toy 2 mask 0 label ≡ err sgx_error_invalid_parameter)))
sealing-Accepts_example = sealing-Accepts toy 2 mask 0 label secret

opening_gate_example :
    ((IsOpenable sealed_toy
        × IsInside toy at sealed_toy
        × (Unseal.unseal_data toy at sealed_toy ≡ Unseal.unseal_data_helper toy sealed_toy))
      ⊎ (IsOpenable sealed_toy
          × (¬ IsInside toy at sealed_toy)
          × (Unseal.unseal_data toy at sealed_toy ≡ err sgx_error_invalid_parameter))
      ⊎ ((¬ IsOpenable sealed_toy)
          × (Unseal.unseal_data toy at sealed_toy ≡ err sgx_error_mac_mismatch)))
    × ((IsOpenableAad sealed_toy
          × IsInsideAad toy at sealed_toy
          × (Unseal.unmac_aadata toy at sealed_toy ≡ Unseal.unseal_data_helper toy sealed_toy))
        ⊎ (IsOpenableAad sealed_toy
            × (¬ IsInsideAad toy at sealed_toy)
            × (Unseal.unmac_aadata toy at sealed_toy ≡ err sgx_error_invalid_parameter))
        ⊎ ((¬ IsOpenableAad sealed_toy)
            × (Unseal.unmac_aadata toy at sealed_toy ≡ err sgx_error_mac_mismatch)))
opening_gate_example = opening_gate toy at sealed_toy (omega arith)

decrypt-encrypt_example :
    (length secret.bytes ≡ length secret.bytes)
    × (Gcm.rsgx_rijndael128_gcm_decrypt toy_tcrypto [] secret.bytes
          (replicate 12 0)
          label.bytes
          (replicate 16 9)
          (replicate 3 0)
        ≡ record { result = ok tt; dst = secret.bytes; mac = replicate 16 9 })
unfolding Gcm.rsgx_rijndael128_gcm_encrypt Gcm.check_lengths
decrypt-encrypt_example =
    Laws.decrypt-encrypt toy_tcrypto toy-IsGcm [] secret.bytes (replicate 12 0) label.bytes [] refl
