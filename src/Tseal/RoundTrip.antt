-- ===== src/Tseal/RoundTrip.antt =====
-- Sealing and unsealing together: what was sealed is had back, also through the exchange format.
mod Helper
use sgx_sdk_rs.Base.{
  ℕ, ◌+◌, ◌%◌, ◌^◌, ◌≤◌, ◌<◌, ◌≡◌, inl, inr, ap, arith, List, [], length, none, some, ok, err,
  Result,
}
use sgx_sdk_rs.Types.{Attributes, sgx_sealed_data_t_size}
use sgx_sdk_rs.Trts.{Slice}
use sgx_sdk_rs.Tcrypto.Gcm.{IsGcm}
use sgx_sdk_rs.Tseal.Internal.{
  InternalSealedData, InternalUnsealedData, get_encrypt_txt_len, get_add_mac_txt_len,
}
use sgx_sdk_rs.Tseal.Internal.Sizes.{get_encrypt_txt_len-eq-length, get_add_mac_txt_len-eq-length}
use sgx_sdk_rs.Tseal.Raw.{
  RawSealedData, TsealLib, IsTsealLib, returns, to_raw_sealed_data_t, from_raw_sealed_data_t,
}
use sgx_sdk_rs.Tseal.Raw.Read.{with_clear_reserved, from_raw-to_raw}
use sgx_sdk_rs.Tseal.Seal.{Platform, seal_data_ex, mac_aadata_ex}
use sgx_sdk_rs.Tseal.Seal.Accepts.{seal_data_ex-Accepts, mac_aadata_ex-AcceptsAad}
use sgx_sdk_rs.Tseal.Unseal.{Placement, unseal_data, unmac_aadata}
use sgx_sdk_rs.Tseal.Unseal.Gate.{IsInside, IsInsideAad, unseal_data_gate, unmac_aadata_gate}
use Helper.{Sealed, seal_with_fresh_key-Sealed, helper_round_trip}

-- The result of opening: both texts, and the size of the two together.
abbrev pub opened : List ℕ → List ℕ → InternalUnsealedData
opened additional_text encrypt_text = record {
  payload_size = length encrypt_text + length additional_text;
  decrypt = encrypt_text;
  additional = additional_text;
}

module _ (p : Platform) (gcm : IsGcm p.tcrypto) where
  -- What `seal_data_ex` sealed, `unseal_data` gives back, for every policy, mask and text with which
  -- sealing succeeds, if the sealed data lies in the enclave when it is opened.
  pub unseal_data-seal_data_ex :
      (key_policy : ℕ) (mask : Attributes) (misc_mask : ℕ) (additional_text encrypt_text : Slice)
      (s : InternalSealedData) (at : Placement)
      → seal_data_ex p key_policy mask misc_mask additional_text encrypt_text ≡ ok s
      → IsInside p at s
      → unseal_data p at s ≡ ok (opened additional_text.bytes encrypt_text.bytes)
  unseal_data-seal_data_ex key_policy mask misc_mask additional_text encrypt_text s at e inside =
      elim (seal_data_ex-Accepts p key_policy mask misc_mask additional_text encrypt_text) [
        | inr (_, refused) ↦ cc
        | inl (accepted, goes_on) ↦
            let sealed =
              seal_with_fresh_key-Sealed p key_policy mask misc_mask additional_text.bytes
                encrypt_text.bytes s (rw goes_on at e) in
            let (len, same, size, back) =
              helper_round_trip p gcm additional_text.bytes encrypt_text.bytes s sealed in
            ground (arith, unseal_data_gate p at s)
      ]

  -- The lengths that the sealed data reports are those of the texts.
  pub seal_data_ex-get_encrypt_txt_len :
      (key_policy : ℕ) (mask : Attributes) (misc_mask : ℕ) (additional_text encrypt_text : Slice)
      (s : InternalSealedData)
      → seal_data_ex p key_policy mask misc_mask additional_text encrypt_text ≡ ok s
      → get_encrypt_txt_len s ≡ length encrypt_text.bytes
  seal_data_ex-get_encrypt_txt_len key_policy mask misc_mask additional_text encrypt_text s e =
      elim (seal_data_ex-Accepts p key_policy mask misc_mask additional_text encrypt_text) [
        | inr (_, refused) ↦ absurd (ground arith)
        | inl (accepted, goes_on) ↦
            let sealed =
              seal_with_fresh_key-Sealed p key_policy mask misc_mask additional_text.bytes
                encrypt_text.bytes s (rw goes_on at e) in
            let (len, same, size, back) =
              helper_round_trip p gcm additional_text.bytes encrypt_text.bytes s sealed in
            ground (arith, get_encrypt_txt_len-eq-length s)
      ]

  pub mac_aadata_ex-get_add_mac_txt_len :
      (key_policy : ℕ) (mask : Attributes) (misc_mask : ℕ) (additional_text : Slice)
      (s : InternalSealedData)
      → mac_aadata_ex p key_policy mask misc_mask additional_text ≡ ok s
      → get_add_mac_txt_len s ≡ length additional_text.bytes
  mac_aadata_ex-get_add_mac_txt_len key_policy mask misc_mask additional_text s e =
      elim (mac_aadata_ex-AcceptsAad p key_policy mask misc_mask additional_text) [
        | inr (_, refused) ↦ absurd (ground arith)
        | inl (accepted, goes_on) ↦
            let sealed =
              seal_with_fresh_key-Sealed p key_policy mask misc_mask additional_text.bytes [] s
                (rw goes_on at e) in
            let (len, same, size, back) =
              helper_round_trip p gcm additional_text.bytes [] s sealed in
            ground (arith, get_add_mac_txt_len-eq-length s)
      ]

  -- Text that `mac_aadata_ex` authenticated, `unmac_aadata` gives back with an empty secret, if it
  -- lies in the enclave when it is checked.
  pub unmac_aadata-mac_aadata_ex :
      (key_policy : ℕ) (mask : Attributes) (misc_mask : ℕ) (additional_text : Slice)
      (s : InternalSealedData) (at : Placement)
      → mac_aadata_ex p key_policy mask misc_mask additional_text ≡ ok s
      → IsInsideAad p at s
      → unmac_aadata p at s ≡ ok (opened additional_text.bytes [])
  unmac_aadata-mac_aadata_ex key_policy mask misc_mask additional_text s at e inside =
      elim (mac_aadata_ex-AcceptsAad p key_policy mask misc_mask additional_text) [
        | inr (_, refused) ↦ cc
        | inl (accepted, goes_on) ↦
            let sealed =
              seal_with_fresh_key-Sealed p key_policy mask misc_mask additional_text.bytes [] s
                (rw goes_on at e) in
            let (len, same, size, back) =
              helper_round_trip p gcm additional_text.bytes [] s sealed in
            ground (arith, unmac_aadata_gate p at s)
      ]

  clear_Sealed :
      {additional_text encrypt_text : List ℕ} {s : InternalSealedData}
      → Sealed p additional_text encrypt_text s
      → Sealed p additional_text encrypt_text (with_clear_reserved s)
  clear_Sealed sealed = record {
    request = sealed.request;
    key = sealed.key;
    got = sealed.got;
    done = sealed.done;
    is = ap with_clear_reserved sealed.is;
  }

  -- A sealed data that is written out, to any buffer that takes it, and read back from there opens
  -- to what was sealed.
  pub unseal_data-from_raw-to_raw :
      (tseal : TsealLib) (lib : IsTsealLib tseal) (key_policy : ℕ) (mask : Attributes)
      (misc_mask : ℕ) (additional_text encrypt_text : Slice) (s : InternalSealedData) (addr : ℕ)
      (raw raw' : RawSealedData) (len : ℕ) (at : Placement)
      → seal_data_ex p key_policy mask misc_mask additional_text encrypt_text ≡ ok s
      → len ≤ sgx_sealed_data_t_size + length raw.payload
      → to_raw_sealed_data_t p.trts tseal s addr raw len ≡ returns (some raw')
      → IsInside p at (with_clear_reserved s)
      → (t : InternalSealedData) × (from_raw_sealed_data_t p.trts tseal addr raw' len
          ≡ returns (some t))
        × (unseal_data p at t ≡ ok (opened additional_text.bytes encrypt_text.bytes))
  unseal_data-from_raw-to_raw tseal lib key_policy mask misc_mask additional_text encrypt_text s
        addr raw raw' len at e room written inside =
      elim (seal_data_ex-Accepts p key_policy mask misc_mask additional_text encrypt_text) [
        | inr (_, refused) ↦ absurd (ground arith)
        | inl (accepted, goes_on) ↦
            let sealed =
              seal_with_fresh_key-Sealed p key_policy mask misc_mask additional_text.bytes
                encrypt_text.bytes s (rw goes_on at e) in
            let (len_s, same, size, back) =
              helper_round_trip p gcm additional_text.bytes encrypt_text.bytes
                (with_clear_reserved s) (clear_Sealed sealed) in
            (
              with_clear_reserved s,
              from_raw-to_raw p.trts tseal lib s addr raw raw' len (omega arith) room written,
              ground (arith, unseal_data_gate p at (with_clear_reserved s)),
            )
      ]
