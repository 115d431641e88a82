-- ===== src/Tseal/RoundTrip/Helper.antt =====
-- `seal_data_iv` and `unseal_data_helper`: the key is asked for with the same request, and the
-- wrappers of AES-GCM undo one another.
use sgx_sdk_rs.Base.{
  ℕ, ◌+◌, ◌%◌, ◌^◌, ◌≡◌, inl, inr, arith, refl, List, [], ◌∷◌, length, replicate, ok, Result-cases,
  if◌then◌else◌, ◌==◌,
}
use sgx_sdk_rs.Types
use sgx_sdk_rs.Types.{Attributes, KeyRequest}
use sgx_sdk_rs.Trts.{rsgx_read_rand}
use sgx_sdk_rs.Tse.{rsgx_get_align_key}
use sgx_sdk_rs.Tcrypto.Gcm.{IsGcm, Sealing, rsgx_rijndael128_gcm_encrypt}
use sgx_sdk_rs.Tcrypto.Gcm.Laws.{decrypt-encrypt}
use sgx_sdk_rs.Tseal.Internal.{InternalSealedData, default_payload}
use sgx_sdk_rs.Tseal.Seal.{Platform, seal_key_request, seal_data_iv, seal_with_fresh_key}
use sgx_sdk_rs.Tseal.Unseal.{unseal_data_helper}

unless_empty : (xs : List ℕ) → (if length xs == 0 then [] else xs) ≡ xs
unless_empty [] = refl
unless_empty (x ∷ xs) = ground arith

module _ (p : Platform) where
  -- The encryption that a key gives.
  abbrev pub encrypted : List ℕ → List ℕ → List ℕ → Sealing
  encrypted key additional_text encrypt_text =
      rsgx_rijndael128_gcm_encrypt p.tcrypto key encrypt_text (replicate Types.sgx_seal_iv_size 0)
        additional_text (replicate (length encrypt_text) 0) (replicate Types.sgx_seal_tag_size 0)

  abbrev pub sealed_as : KeyRequest → List ℕ → List ℕ → List ℕ → InternalSealedData
  sealed_as key_request key additional_text encrypt_text = record {
    key_request = key_request;
    payload_data = record default_payload {
      payload_size = (length encrypt_text + length additional_text) % 2 ^ 32;
      payload_tag = (encrypted key additional_text encrypt_text).mac;
      encrypt = (encrypted key additional_text encrypt_text).dst;
      additional = additional_text;
    };
  }

  -- What a successful sealing did.
  pub record Sealed (additional_text encrypt_text : List ℕ) (s : InternalSealedData) : Type 0 where
    pub request : KeyRequest
    pub key : List ℕ
    pub got : rsgx_get_align_key p.tse request ≡ ok key
    pub done : (encrypted key additional_text encrypt_text).result ≡ ok tt
    pub is : s ≡ sealed_as request key additional_text encrypt_text

  seal_data_iv-Sealed :
      (request : KeyRequest) (additional_text encrypt_text : List ℕ) (s : InternalSealedData)
      → seal_data_iv p additional_text encrypt_text (replicate Types.sgx_seal_iv_size 0) request
        ≡ ok s
      → Sealed additional_text encrypt_text (record s { key_request = request })
  unfolding seal_data_iv
  seal_data_iv-Sealed request additional_text encrypt_text s h =
      elim (Result-cases (rsgx_get_align_key p.tse request)) [
        | inr (e, failed) ↦ absurd (ground arith)
        | inl (key, got) ↦ elim (Result-cases (encrypted key additional_text encrypt_text).result) [
          | inr (e, failed) ↦ absurd (ground arith)
          | inl (_, done) ↦ record {
            request = request;
            key = key;
            got = got;
            done = done;
            is = ground (arith, unless_empty additional_text);
          }
        ]
      ]

  pub seal_with_fresh_key-Sealed :
      (key_policy : ℕ) (mask : Attributes) (misc_mask : ℕ) (additional_text encrypt_text : List ℕ)
      (s : InternalSealedData)
      → seal_with_fresh_key p key_policy mask misc_mask additional_text encrypt_text ≡ ok s
      → Sealed additional_text encrypt_text s
  unfolding seal_with_fresh_key
  seal_with_fresh_key-Sealed key_policy mask misc_mask additional_text encrypt_text s h =
      elim (Result-cases (rsgx_read_rand p.trts Types.sgx_keyid_size).result) [
        | inr (e, failed) ↦ absurd (ground arith)
        | inl (_, filled) ↦
            let request =
              seal_key_request p key_policy mask misc_mask
                (rsgx_read_rand p.trts Types.sgx_keyid_size).rand in
            elim (Result-cases (
              seal_data_iv p additional_text encrypt_text (replicate Types.sgx_seal_iv_size 0)
                request)) [
                  | inr (e, failed) ↦ absurd (ground arith)
                  | inl (s', done) ↦
                      let same : record s' { key_request = request } ≡ s = ground arith in
                      rw same at (seal_data_iv-Sealed request additional_text encrypt_text s' done)
                ]
      ]

  module _ (gcm : IsGcm p.tcrypto) where
    -- What was sealed is had back by the helper, with the lengths as they were.
    pub helper_round_trip :
        (additional_text encrypt_text : List ℕ) (s : InternalSealedData)
        → Sealed additional_text encrypt_text s
        → (length s.payload_data.encrypt ≡ length encrypt_text)
          × (s.payload_data.additional ≡ additional_text)
          × (s.payload_data.payload_size ≡ (length encrypt_text + length additional_text) % 2 ^ 32)
          × (unseal_data_helper p s
              ≡ ok (record {
                payload_size = (length encrypt_text + length additional_text) % 2 ^ 32;
                decrypt = encrypt_text;
                additional = additional_text;
              }))
    unfolding unseal_data_helper
    helper_round_trip additional_text encrypt_text s sealed =
        let (len, back) =
          decrypt-encrypt p.tcrypto gcm sealed.key encrypt_text (replicate Types.sgx_seal_iv_size 0)
            additional_text (replicate Types.sgx_seal_tag_size 0) sealed.done in
        rw sealed.is (
          len,
          refl,
          refl,
          rw (sealed.got, unseal_data_helper) (rw back (rw (unless_empty additional_text))),
        )
