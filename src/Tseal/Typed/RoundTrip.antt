-- ===== src/Tseal/Typed/RoundTrip.antt =====
-- sgx-tseal/src/seal.rs and sgx-tseal/src/aad.rs: a value or a slice that was sealed or authenticated is had
-- back.
use sgx_sdk_rs.Base.{
  ℕ, ◌+◌, ◌*◌, ◌≡◌, refl, ap, sym, ◌∙◌, List, true, ◌==◌, ==_iff, length, ok,
  sgx_error_invalid_parameter,
}
use sgx_sdk_rs.Types.{Attributes}
use sgx_sdk_rs.Trts.{Slice}
use sgx_sdk_rs.Tcrypto.Gcm.{IsGcm}
use sgx_sdk_rs.Tseal.Internal.{get_add_mac_txt_len, get_encrypt_txt_len}
use sgx_sdk_rs.Tseal.Seal.{Platform, seal_data_ex, mac_aadata_ex}
use sgx_sdk_rs.Tseal.Unseal.{Placement}
use sgx_sdk_rs.Tseal.Unseal.Gate.{IsInside, IsInsideAad}
use sgx_sdk_rs.Tseal.RoundTrip.{
  unseal_data-seal_data_ex, unmac_aadata-mac_aadata_ex, seal_data_ex-get_encrypt_txt_len,
  mac_aadata_ex-get_add_mac_txt_len,
}
use sgx_sdk_rs.Tseal.Typed.{
  Contiguous, Borrowed, SgxSealedData, SgxMacAadata, value_slice, values_slice, no_bytes,
  seal_data_ex_value, unseal_data_value, seal_data_ex_slice, unseal_data_slice, mac_aadata_ex_value,
  unmac_aadata_value, mac_aadata_ex_slice, unmac_aadata_slice,
}
use sgx_sdk_rs.Tseal.Typed.Elements.{wrapped, length-slice_bytes, elements-slice_bytes, slice_tests}

module _ {T : Type 0} (t : Contiguous T) where
  module _ (p : Platform) (gcm : IsGcm p.tcrypto) where
    seal_data_ex_value-round_trip :
        (key_policy : ℕ) (mask : Attributes) (misc_mask : ℕ) (additional_text : Slice)
        (encrypt_text : Borrowed T) (s : SgxSealedData) (at : Placement)
        → seal_data_ex_value t p key_policy mask misc_mask additional_text encrypt_text ≡ ok s
        → IsInside p at s.inner
        → unseal_data_value t p at s
          ≡ ok (record {
            payload_size = t.size + length additional_text.bytes;
            decrypt = encrypt_text.value;
            additional = additional_text.bytes;
          })
    unfolding seal_data_ex_value unseal_data_value
    seal_data_ex_value-round_trip key_policy mask misc_mask additional_text encrypt_text s at e
          inside =
        let bytes = value_slice t encrypt_text in
        let (nonzero, (inner, sealed, is)) =
          wrapped (t.size == 0) sgx_error_invalid_parameter
            (seal_data_ex p key_policy mask misc_mask additional_text bytes)
            (λ x. record { inner = x }) s e in
        let same : s.inner ≡ inner = ap (λ x. x.inner) (sym is) in
        let now = sealed ∙ ap ok (sym same) in
        let long =
          seal_data_ex-get_encrypt_txt_len p gcm key_policy mask misc_mask additional_text bytes
            s.inner now in
        let fits : (t.size == get_encrypt_txt_len s.inner) ≡ true =
          (==_iff _ _).1 (sym (t.length_to_bytes encrypt_text.value) ∙ sym long) in
        let back =
          unseal_data-seal_data_ex p gcm key_policy mask misc_mask additional_text bytes s.inner at
            now inside in
        rw (nonzero, fits, back, t.from-to encrypt_text.value, t.length_to_bytes encrypt_text.value)
          refl

    seal_data_ex_slice-round_trip :
        (key_policy : ℕ) (mask : Attributes) (misc_mask : ℕ) (additional_text : Slice)
        (encrypt_text : Borrowed (List T)) (s : SgxSealedData) (at : Placement)
        → seal_data_ex_slice t p key_policy mask misc_mask additional_text encrypt_text ≡ ok s
        → IsInside p at s.inner
        → unseal_data_slice t p at s
          ≡ ok (record {
            payload_size = length encrypt_text.value * t.size + length additional_text.bytes;
            decrypt = encrypt_text.value;
            additional = additional_text.bytes;
          })
    unfolding seal_data_ex_slice unseal_data_slice
    seal_data_ex_slice-round_trip key_policy mask misc_mask additional_text encrypt_text s at e
          inside =
        let bytes = values_slice t encrypt_text in
        let (filled, (inner, sealed, is)) =
          wrapped (no_bytes t encrypt_text.value) sgx_error_invalid_parameter
            (seal_data_ex p key_policy mask misc_mask additional_text bytes)
            (λ x. record { inner = x }) s e in
        let same : s.inner ≡ inner = ap (λ x. x.inner) (sym is) in
        let now = sealed ∙ ap ok (sym same) in
        let long =
          seal_data_ex-get_encrypt_txt_len p gcm key_policy mask misc_mask additional_text bytes
            s.inner now in
        let whole = length-slice_bytes t encrypt_text.value in
        let (nonzero, large, divides, count) =
          slice_tests t encrypt_text.value (get_encrypt_txt_len s.inner) (long ∙ whole) filled in
        let back =
          unseal_data-seal_data_ex p gcm key_policy mask misc_mask additional_text bytes s.inner at
            now inside in
        rw (nonzero, large, divides, back, count, elements-slice_bytes t encrypt_text.value, whole)
          refl

    mac_aadata_ex_value-round_trip :
        (key_policy : ℕ) (mask : Attributes) (misc_mask : ℕ) (additional_text : Borrowed T)
        (s : SgxMacAadata) (at : Placement)
        → mac_aadata_ex_value t p key_policy mask misc_mask additional_text ≡ ok s
        → IsInsideAad p at s.inner
        → unmac_aadata_value t p at s ≡ ok additional_text.value
    unfolding mac_aadata_ex_value unmac_aadata_value
    mac_aadata_ex_value-round_trip key_policy mask misc_mask additional_text s at e inside =
        let bytes = value_slice t additional_text in
        let (nonzero, (inner, sealed, is)) =
          wrapped (t.size == 0) sgx_error_invalid_parameter
            (mac_aadata_ex p key_policy mask misc_mask bytes) (λ x. record { inner = x }) s e in
        let same : s.inner ≡ inner = ap (λ x. x.inner) (sym is) in
        let now = sealed ∙ ap ok (sym same) in
        let long =
          mac_aadata_ex-get_add_mac_txt_len p gcm key_policy mask misc_mask bytes s.inner now in
        let fits : (t.size == get_add_mac_txt_len s.inner) ≡ true =
          (==_iff _ _).1 (sym (t.length_to_bytes additional_text.value) ∙ sym long) in
        let back =
          unmac_aadata-mac_aadata_ex p gcm key_policy mask misc_mask bytes s.inner at now inside in
        rw (nonzero, fits, back, t.from-to additional_text.value) refl

    mac_aadata_ex_slice-round_trip :
        (key_policy : ℕ) (mask : Attributes) (misc_mask : ℕ) (additional_text : Borrowed (List T))
        (s : SgxMacAadata) (at : Placement)
        → mac_aadata_ex_slice t p key_policy mask misc_mask additional_text ≡ ok s
        → IsInsideAad p at s.inner
        → unmac_aadata_slice t p at s ≡ ok additional_text.value
    unfolding mac_aadata_ex_slice unmac_aadata_slice
    mac_aadata_ex_slice-round_trip key_policy mask misc_mask additional_text s at e inside =
        let bytes = values_slice t additional_text in
        let (filled, (inner, sealed, is)) =
          wrapped (no_bytes t additional_text.value) sgx_error_invalid_parameter
            (mac_aadata_ex p key_policy mask misc_mask bytes) (λ x. record { inner = x }) s e in
        let same : s.inner ≡ inner = ap (λ x. x.inner) (sym is) in
        let now = sealed ∙ ap ok (sym same) in
        let long =
          mac_aadata_ex-get_add_mac_txt_len p gcm key_policy mask misc_mask bytes s.inner now in
        let (nonzero, large, divides, count) =
          slice_tests t additional_text.value (get_add_mac_txt_len s.inner)
            (long ∙ length-slice_bytes t additional_text.value) filled in
        let back =
          unmac_aadata-mac_aadata_ex p gcm key_policy mask misc_mask bytes s.inner at now inside in
        rw (nonzero, large, divides, back, count, elements-slice_bytes t additional_text.value) refl

    -- A value that `SgxSealedData<T>::seal_data_ex` sealed, and a slice that `SgxSealedData<[T]>` did,
    -- `unseal_data` gives back, with the additional text and the size of the two together, for every
    -- policy, mask and text with which sealing succeeds, if the sealed data lies in the enclave when it
    -- is opened.
    pub sealed_data-round_trip :
        (key_policy : ℕ) (mask : Attributes) (misc_mask : ℕ) (additional_text : Slice)
        (at : Placement) (value : Borrowed T) (values : Borrowed (List T)) (s s' : SgxSealedData)
        → seal_data_ex_value t p key_policy mask misc_mask additional_text value ≡ ok s
        → seal_data_ex_slice t p key_policy mask misc_mask additional_text values ≡ ok s'
        → IsInside p at s.inner
        → IsInside p at s'.inner
        → (unseal_data_value t p at s
            ≡ ok (record {
              payload_size = t.size + length additional_text.bytes;
              decrypt = value.value;
              additional = additional_text.bytes;
            }))
          × (unseal_data_slice t p at s'
              ≡ ok (record {
                payload_size = length values.value * t.size + length additional_text.bytes;
                decrypt = values.value;
                additional = additional_text.bytes;
              }))
    sealed_data-round_trip key_policy mask misc_mask additional_text at value values s s' e e'
          inside inside' =
        (
          seal_data_ex_value-round_trip key_policy mask misc_mask additional_text value s at e
              inside,
          seal_data_ex_slice-round_trip key_policy mask misc_mask additional_text values s' at e'
              inside',
        )

    -- A value that `SgxMacAadata<T>::mac_aadata_ex` authenticated, and a slice that `SgxMacAadata<[T]>`
    -- did, `unmac_aadata` gives back, for every policy and mask with which authentication succeeds, if
    -- the data lies in the enclave when it is checked.
    pub mac_aadata-round_trip :
        (key_policy : ℕ) (mask : Attributes) (misc_mask : ℕ) (at : Placement) (value : Borrowed T)
        (values : Borrowed (List T)) (s s' : SgxMacAadata)
        → mac_aadata_ex_value t p key_policy mask misc_mask value ≡ ok s
        → mac_aadata_ex_slice t p key_policy mask misc_mask values ≡ ok s'
        → IsInsideAad p at s.inner
        → IsInsideAad p at s'.inner
        → (unmac_aadata_value t p at s ≡ ok value.value)
          × (unmac_aadata_slice t p at s' ≡ ok values.value)
    mac_aadata-round_trip key_policy mask misc_mask at value values s s' e e' inside inside' = (
      mac_aadata_ex_value-round_trip key_policy mask misc_mask value s at e inside,
      mac_aadata_ex_slice-round_trip key_policy mask misc_mask values s' at e' inside',
    )
