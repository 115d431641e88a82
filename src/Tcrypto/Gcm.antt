-- ===== src/Tcrypto/Gcm.antt =====
-- sgx-tcrypto/src/crypto.rs: the AES-GCM wrappers. The Intel functions are a parameter.
pub mod Laws
use sgx_sdk_rs.Base.{
  ℕ, ◌^◌, ◌-◌, List, [], ◌∷◌, Bool, Option, none, some, ◌==◌, ltb, not, if◌then◌else◌, length, put,
  u32_max, SgxStatus, sgx_success, sgx_error_invalid_parameter, Result, ok, err, reject_if,
  from_status, ◌>>◌, ◌>>=◌, ◌≡◌,
}
use sgx_sdk_rs.Types.{sgx_aesgcm_iv_size}

-- What a call wrote through its pointers, with its status.
pub record GcmOut : Type 0 where
  pub status : SgxStatus
  pub out : List ℕ
  pub mac : List ℕ

-- A pointer with a length; `none` is the null pointer.
abbrev pub Region : Type 0
Region = Option (List ℕ)

-- Arguments: key, source, its length, iv, its length, additional data, its length (and the tag).
pub record TcryptoLib : Type 0 where
  pub sgx_rijndael128_gcm_encrypt : List ℕ → Region → ℕ → List ℕ → ℕ → Region → ℕ → GcmOut
  pub sgx_rijndael128_gcm_decrypt : List ℕ → Region → ℕ → List ℕ → ℕ → Region → ℕ → List ℕ → GcmOut

-- The pointer that is passed for a slice: null if it is empty.
abbrev pub region : List ℕ → Region
region [] = none
region (b ∷ bs) = some (b ∷ bs)

-- What the caller's buffers hold after the call.
pub record Sealing : Type 0 where
  pub result : Result (Unit {0})
  pub dst : List ℕ
  pub mac : List ℕ

-- `dst` is written through its pointer, which is null where there is nothing to write.
abbrev pub written : ℕ → List ℕ → List ℕ → List ℕ
written src_len dst out = if src_len == 0 then dst else put dst 0 out

-- The checks that both directions make before the call.
unfoldable pub check_lengths : ℕ → ℕ → ℕ → ℕ → Result (Unit {0})
check_lengths src_len iv_len aad_len dst_len = do
  reject_if (ltb u32_max src_len) sgx_error_invalid_parameter
  reject_if (not (iv_len == sgx_aesgcm_iv_size)) sgx_error_invalid_parameter
  reject_if (ltb u32_max aad_len) sgx_error_invalid_parameter
  reject_if (ltb u32_max dst_len) sgx_error_invalid_parameter
  reject_if (ltb dst_len src_len) sgx_error_invalid_parameter

module _ (tcrypto : TcryptoLib) where
  unfoldable pub rsgx_rijndael128_gcm_encrypt :
      List ℕ → List ℕ → List ℕ → List ℕ → List ℕ → List ℕ → Sealing
  rsgx_rijndael128_gcm_encrypt key src iv aad dst mac =
      elim (check_lengths (length src) (length iv) (length aad) (length dst)) [
        | err e ↦ record { result = err e; dst = dst; mac = mac }
        | ok _ ↦
            let ret =
              tcrypto.sgx_rijndael128_gcm_encrypt key (region src) (length src) iv (length iv)
                (region aad) (length aad) in
            record {
              result = from_status ret.status tt;
              dst = written (length src) dst ret.out;
              mac = ret.mac;
            }
      ]

  unfoldable pub rsgx_rijndael128_gcm_decrypt :
      List ℕ → List ℕ → List ℕ → List ℕ → List ℕ → List ℕ → Sealing
  rsgx_rijndael128_gcm_decrypt key src iv aad mac dst =
      elim (check_lengths (length src) (length iv) (length aad) (length dst)) [
        | err e ↦ record { result = err e; dst = dst; mac = mac }
        | ok _ ↦
            let ret =
              tcrypto.sgx_rijndael128_gcm_decrypt key (region src) (length src) iv (length iv)
                (region aad) (length aad) mac in
            record {
              result = from_status ret.status tt;
              dst = written (length src) dst ret.out;
              mac = mac;
            }
      ]

-- What AES-GCM promises: the ciphertext is as long as the text, a tag has 16 bytes, and
-- decryption with the same key, iv and additional data undoes encryption.
pub record IsGcm (tcrypto : TcryptoLib) : Type 0 where
  pub length_out :
      (key src iv aad : List ℕ)
      → (tcrypto.sgx_rijndael128_gcm_encrypt key
          (region src)
          (length src)
          iv
          (length iv)
          (region aad)
          (length aad)).status
        ≡ sgx_success
      → length
          (tcrypto.sgx_rijndael128_gcm_encrypt key
            (region src)
            (length src)
            iv
            (length iv)
            (region aad)
            (length aad)).out
        ≡ length src
  pub undoes :
      (key src iv aad : List ℕ)
      → let e =
          tcrypto.sgx_rijndael128_gcm_encrypt key
            (region src)
            (length src)
            iv
            (length iv)
            (region aad)
            (length aad) in
        e.status ≡ sgx_success
        → let d =
            tcrypto.sgx_rijndael128_gcm_decrypt key
              (region e.out)
              (length e.out)
              iv
              (length iv)
              (region aad)
              (length aad)
              e.mac in
          (d.status ≡ sgx_success) × (d.out ≡ src)
