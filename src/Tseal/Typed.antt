-- ===== src/Tseal/Typed.antt =====
-- sgx-tseal/src/seal.rs and sgx-tseal/src/aad.rs: `SgxSealedData` and `SgxMacAadata` of a value of a type T,
-- and of a slice of such values. T is a type without pointers, given by how its values lie in memory.
pub mod Elements
pub mod RoundTrip
pub mod Tests
use sgx_sdk_rs.Base.{
  ℕ, zero, suc, ◌%◌, ◌/◌, ◌≡◌, List, [], ◌∷◌, ◌++◌, Bool, not, ltb, ◌||◌, ◌==◌, if◌then◌else◌,
  Option, none, some, length, take, drop, Result, ok, reject_if, ◌>>=◌, ◌>>◌,
  sgx_error_invalid_parameter, sgx_error_mac_mismatch,
}
use sgx_sdk_rs.Types.{Attributes}
use sgx_sdk_rs.Trts.{TrtsLib, Slice}
use sgx_sdk_rs.Tseal.Internal.{InternalSealedData, get_add_mac_txt_len, get_encrypt_txt_len}
use sgx_sdk_rs.Tseal.Raw.{
  RawSealedData, TsealLib, Access, out_of_bounds, returns, to_raw_sealed_data_t,
  from_raw_sealed_data_t,
}
use sgx_sdk_rs.Tseal.Seal.{Platform, seal_data, seal_data_ex, mac_aadata, mac_aadata_ex}
use sgx_sdk_rs.Tseal.Unseal.{Placement, unseal_data, unmac_aadata}

-- The values of T in memory: `mem::size_of` bytes each, from which they are had back.
pub record Contiguous (T : Type 0) : Type 0 where
  pub size : ℕ
  pub to_bytes : T → List ℕ
  pub from_bytes : List ℕ → T
  pub length_to_bytes : (v : T) → length (to_bytes v) ≡ size
  pub from-to : (v : T) → from_bytes (to_bytes v) ≡ v

-- A borrowed value, and a borrowed slice of values: where it is and what it holds.
pub record Borrowed (V : Type 0) : Type 0 where
  pub addr : ℕ
  pub value : V

pub record SgxSealedData : Type 0 where
  pub inner : InternalSealedData

pub record SgxUnsealedData (V : Type 0) : Type 0 where
  pub payload_size : ℕ
  pub decrypt : V
  pub additional : List ℕ

pub record SgxMacAadata : Type 0 where
  pub inner : InternalSealedData

-- `Option::map` behind an access.
abbrev pub map_access {ℓ κ} :
    {A : Type ℓ} {B : Type κ} → (A → B) → Access (Option A) → Access (Option B)
map_access f out_of_bounds = out_of_bounds
map_access f (returns none) = returns none
map_access f (returns (some a)) = returns (some (f a))

module _ {T : Type 0} (t : Contiguous T) where
  abbrev pub slice_bytes : List T → List ℕ
  slice_bytes [] = []
  slice_bytes (v ∷ vs) = t.to_bytes v ++ slice_bytes vs

  -- The first `n` values in a memory.
  abbrev pub elements : ℕ → List ℕ → List T
  elements zero bs = []
  elements (suc n) bs = t.from_bytes (take t.size bs) ∷ elements n (drop t.size bs)

  abbrev pub value_slice : Borrowed T → Slice
  value_slice v = record { addr = v.addr; bytes = t.to_bytes v.value }

  abbrev pub values_slice : Borrowed (List T) → Slice
  values_slice vs = record { addr = vs.addr; bytes = slice_bytes vs.value }

  -- A slice of which no value can be made is refused.
  abbrev pub no_bytes : List T → Bool
  no_bytes vs = t.size == 0 || length (slice_bytes vs) == 0

  module _ (p : Platform) where
    -- seal.rs, on a value.
    unfoldable pub seal_data_value : Slice → Borrowed T → Result SgxSealedData
    seal_data_value additional_text encrypt_text = do
      reject_if (t.size == 0) sgx_error_invalid_parameter
      inner ← seal_data p additional_text (value_slice encrypt_text)
      ok (record { inner = inner })

    unfoldable pub seal_data_ex_value :
        ℕ → Attributes → ℕ → Slice → Borrowed T → Result SgxSealedData
    seal_data_ex_value key_policy attribute_mask misc_mask additional_text encrypt_text = do
      reject_if (t.size == 0) sgx_error_invalid_parameter
      inner ←
          seal_data_ex p key_policy attribute_mask misc_mask additional_text
            (value_slice encrypt_text)
      ok (record { inner = inner })

    unfoldable pub unseal_data_value : Placement → SgxSealedData → Result (SgxUnsealedData T)
    unseal_data_value at s = do
      reject_if (t.size == 0) sgx_error_invalid_parameter
      let encrypt_len = get_encrypt_txt_len s.inner
      reject_if (not (t.size == encrypt_len)) sgx_error_mac_mismatch
      x ← unseal_data p at s.inner
      ok (record {
        payload_size = x.payload_size;
        decrypt = t.from_bytes x.decrypt;
        additional = x.additional;
      })

    -- And on a slice.
    unfoldable pub seal_data_slice : Slice → Borrowed (List T) → Result SgxSealedData
    seal_data_slice additional_text encrypt_text = do
      reject_if (no_bytes encrypt_text.value) sgx_error_invalid_parameter
      inner ← seal_data p additional_text (values_slice encrypt_text)
      ok (record { inner = inner })

    unfoldable pub seal_data_ex_slice :
        ℕ → Attributes → ℕ → Slice → Borrowed (List T) → Result SgxSealedData
    seal_data_ex_slice key_policy attribute_mask misc_mask additional_text encrypt_text = do
      reject_if (no_bytes encrypt_text.value) sgx_error_invalid_parameter
      inner ←
          seal_data_ex p key_policy attribute_mask misc_mask additional_text
            (values_slice encrypt_text)
      ok (record { inner = inner })

    unfoldable pub unseal_data_slice : Placement → SgxSealedData → Result (SgxUnsealedData (List T))
    unseal_data_slice at s = do
      reject_if (t.size == 0) sgx_error_invalid_parameter
      let encrypt_len = get_encrypt_txt_len s.inner
      reject_if (ltb encrypt_len t.size) sgx_error_mac_mismatch
      reject_if (not (encrypt_len % t.size == 0)) sgx_error_mac_mismatch
      x ← unseal_data p at s.inner
      ok (record {
        payload_size = x.payload_size;
        decrypt = elements (encrypt_len / t.size) x.decrypt;
        additional = x.additional;
      })

    -- aad.rs, on a value.
    unfoldable pub mac_aadata_value : Borrowed T → Result SgxMacAadata
    mac_aadata_value additional_text = do
      reject_if (t.size == 0) sgx_error_invalid_parameter
      inner ← mac_aadata p (value_slice additional_text)
      ok (record { inner = inner })

    unfoldable pub mac_aadata_ex_value : ℕ → Attributes → ℕ → Borrowed T → Result SgxMacAadata
    mac_aadata_ex_value key_policy attribute_mask misc_mask additional_text = do
      reject_if (t.size == 0) sgx_error_invalid_parameter
      inner ← mac_aadata_ex p key_policy attribute_mask misc_mask (value_slice additional_text)
      ok (record { inner = inner })

    unfoldable pub unmac_aadata_value : Placement → SgxMacAadata → Result T
    unmac_aadata_value at s = do
      reject_if (t.size == 0) sgx_error_invalid_parameter
      let aad_len = get_add_mac_txt_len s.inner
      reject_if (not (t.size == aad_len)) sgx_error_mac_mismatch
      x ← unmac_aadata p at s.inner
      ok (t.from_bytes x.additional)

    -- And on a slice.
    unfoldable pub mac_aadata_slice : Borrowed (List T) → Result SgxMacAadata
    mac_aadata_slice additional_text = do
      reject_if (no_bytes additional_text.value) sgx_error_invalid_parameter
      inner ← mac_aadata p (values_slice additional_text)
      ok (record { inner = inner })

    unfoldable pub mac_aadata_ex_slice :
        ℕ → Attributes → ℕ → Borrowed (List T) → Result SgxMacAadata
    mac_aadata_ex_slice key_policy attribute_mask misc_mask additional_text = do
      reject_if (no_bytes additional_text.value) sgx_error_invalid_parameter
      inner ← mac_aadata_ex p key_policy attribute_mask misc_mask (values_slice additional_text)
      ok (record { inner = inner })

    unfoldable pub unmac_aadata_slice : Placement → SgxMacAadata → Result (List T)
    unmac_aadata_slice at s = do
      reject_if (t.size == 0) sgx_error_invalid_parameter
      let aad_len = get_add_mac_txt_len s.inner
      reject_if (ltb aad_len t.size) sgx_error_mac_mismatch
      reject_if (not (aad_len % t.size == 0)) sgx_error_mac_mismatch
      x ← unmac_aadata p at s.inner
      ok (elements (aad_len / t.size) x.additional)

  -- The exchange format, which is that of the untyped data in all four forms.
  unfoldable pub sealed_from_raw :
      TrtsLib → TsealLib → ℕ → RawSealedData → ℕ → Access (Option SgxSealedData)
  sealed_from_raw trts tseal addr raw len =
      let opt = from_raw_sealed_data_t trts tseal addr raw len in
      if t.size == 0 then returns none else map_access (λ inner. record { inner = inner }) opt

  unfoldable pub sealed_to_raw :
      TrtsLib → TsealLib → SgxSealedData → ℕ → RawSealedData → ℕ → Access (Option RawSealedData)
  sealed_to_raw trts tseal s = to_raw_sealed_data_t trts tseal s.inner

  unfoldable pub mac_from_raw :
      TrtsLib → TsealLib → ℕ → RawSealedData → ℕ → Access (Option SgxMacAadata)
  mac_from_raw trts tseal addr raw len =
      let opt = from_raw_sealed_data_t trts tseal addr raw len in
      if t.size == 0 then returns none else map_access (λ inner. record { inner = inner }) opt

  unfoldable pub mac_to_raw :
      TrtsLib → TsealLib → SgxMacAadata → ℕ → RawSealedData → ℕ → Access (Option RawSealedData)
  mac_to_raw trts tseal s = to_raw_sealed_data_t trts tseal s.inner
