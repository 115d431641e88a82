-- ===== src/Tseal/Raw.antt =====
-- sgx-tseal/src/internal.rs, `to_raw_sealed_data_t` and `from_raw_sealed_data_t`: the exchange
-- format `sgx_sealed_data_t`, a header with the two texts behind it.
pub mod Write
pub mod Read
use sgx_sdk_rs.Base.{
  ℕ, ◌+◌, ◌≤◌, ◌<◌, ◌≡◌, ◌^◌, List, [], Bool, not, ◌&&◌, ◌||◌, Option, none, some, ltb, leb, ◌==◌,
  if◌then◌else◌, length, take, drop, put, replicate, u32_max,
}
use Prim.Native.Nat.{◌-◌, min}
use sgx_sdk_rs.Types.{KeyRequest, sgx_sealed_data_t_size}
use sgx_sdk_rs.Trts.{TrtsLib, rsgx_raw_is_within_enclave, rsgx_raw_is_outside_enclave}
use sgx_sdk_rs.Tseal.Internal.{InternalSealedData, add32, get_add_mac_txt_len, get_encrypt_txt_len}

-- The memory at a `*mut sgx_sealed_data_t`: the header, and in `payload` the bytes behind it up to
-- the end of the memory object.
pub record RawSealedData : Type 0 where
  pub key_request : KeyRequest
  pub plain_text_offset : ℕ
  pub reserved : List ℕ
  pub payload_size : ℕ
  pub aes_reserved : List ℕ
  pub payload_tag : List ℕ
  pub payload : List ℕ

-- The functions of the Intel sealing library that read the header of an exchanged blob.
pub record TsealLib : Type 0 where
  pub sgx_calc_sealed_data_size : ℕ → ℕ → ℕ
  pub sgx_get_add_mac_txt_len : RawSealedData → ℕ
  pub sgx_get_encrypt_txt_len : RawSealedData → ℕ

-- What the Intel reference says of them: the size saturates at `UINT32_MAX`, and a header whose
-- offset lies within its payload splits the payload at the offset.
pub record IsTsealLib (tseal : TsealLib) : Type 0 where
  pub calc :
      (a e : ℕ)
      → a < 2 ^ 32
      → e < 2 ^ 32
      → tseal.sgx_calc_sealed_data_size a e ≡ min (sgx_sealed_data_t_size + a + e) u32_max
  pub add_mac :
      (r : RawSealedData)
      → r.plain_text_offset ≤ r.payload_size
      → tseal.sgx_get_add_mac_txt_len r ≡ r.payload_size - r.plain_text_offset
  pub encrypt :
      (r : RawSealedData)
      → r.plain_text_offset ≤ r.payload_size
      → tseal.sgx_get_encrypt_txt_len r ≡ r.plain_text_offset

-- A call touches memory outside the object, or returns.
pub data Access {ℓ} (A : Type ℓ) : Type ℓ where
  out_of_bounds : Access A
  returns : A → Access A

abbrev pub refuse_if {ℓ} : {A : Type ℓ} → Bool → Access (Option A) → Access (Option A)
refuse_if b k = if b then returns none else k

-- `ptr::copy_nonoverlapping` into the payload at `off`, made only for a length above 0.
abbrev pub copy_in {ℓ} : {A : Type ℓ} → List ℕ → ℕ → List ℕ → (List ℕ → Access A) → Access A
copy_in tail off src k =
    if leb (off + length src) (length tail) || length src == 0
    then k (put tail off src)
    else out_of_bounds

-- The same out of the payload, into a new vector of `n` bytes.
abbrev pub copy_out {ℓ} : {A : Type ℓ} → List ℕ → ℕ → ℕ → (List ℕ → Access A) → Access A
copy_out tail off n k =
    if leb (off + n) (length tail) || n == 0 then k (take n (drop off tail)) else out_of_bounds

module _ (trts : TrtsLib) (tseal : TsealLib) where
  -- The memory is neither wholly inside nor wholly outside the enclave.
  unfoldable pub straddles : ℕ → ℕ → Bool
  straddles addr len =
      not (rsgx_raw_is_within_enclave trts addr len)
      && not (rsgx_raw_is_outside_enclave trts addr len)

  -- The result is the memory behind the returned pointer; `none` leaves it as it was.
  unfoldable pub to_raw_sealed_data_t :
      InternalSealedData → ℕ → RawSealedData → ℕ → Access (Option RawSealedData)
  to_raw_sealed_data_t s addr raw len =
      let additional_len = get_add_mac_txt_len s in
      let encrypt_len = get_encrypt_txt_len s in
      let sealed_data_size = tseal.sgx_calc_sealed_data_size additional_len encrypt_len in
      refuse_if (addr == 0) (
        refuse_if (straddles addr len) (
          refuse_if (additional_len == u32_max || encrypt_len == u32_max) (
            refuse_if (not (add32 additional_len encrypt_len == s.payload_data.payload_size)) (
              refuse_if (sealed_data_size == u32_max) (
                refuse_if (ltb len sealed_data_size) (
                  copy_in raw.payload 0 (take encrypt_len s.payload_data.encrypt) λ tail.
                    copy_in tail encrypt_len (take additional_len s.payload_data.additional)
                      λ tail'. returns (
                        some (record raw {
                          key_request = s.key_request;
                          plain_text_offset = encrypt_len;
                          payload_size = s.payload_data.payload_size;
                          payload_tag = s.payload_data.payload_tag;
                          payload = tail';
                        }))))))))

  unfoldable pub from_raw_sealed_data_t : ℕ → RawSealedData → ℕ → Access (Option InternalSealedData)
  from_raw_sealed_data_t addr raw len =
      let additional_len = tseal.sgx_get_add_mac_txt_len raw in
      let encrypt_len = tseal.sgx_get_encrypt_txt_len raw in
      let sealed_data_size = tseal.sgx_calc_sealed_data_size additional_len encrypt_len in
      refuse_if (addr == 0) (
        refuse_if (straddles addr len) (
          refuse_if (ltb len sgx_sealed_data_t_size) (
            refuse_if (ltb raw.payload_size raw.plain_text_offset) (
              refuse_if (additional_len == u32_max || encrypt_len == u32_max) (
                refuse_if (not (add32 additional_len encrypt_len == raw.payload_size)) (
                  refuse_if (sealed_data_size == u32_max) (
                    refuse_if (ltb len sealed_data_size) (
                      copy_out raw.payload 0 encrypt_len λ encrypt.
                        copy_out raw.payload encrypt_len additional_len λ additional. returns (
                          some (record {
                            key_request = raw.key_request;
                            payload_data = record {
                              payload_size = raw.payload_size;
                              reserved = replicate 12 0;
                              payload_tag = raw.payload_tag;
                              encrypt = encrypt;
                              additional = additional;
                            };
                          }))))))))))
