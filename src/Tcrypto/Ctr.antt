-- ===== src/Tcrypto/Ctr.antt =====
-- sgx-tcrypto/src/crypto.rs: AES-CTR in one call. The native functions are a parameter.
pub mod RoundTrip
pub mod Stream
pub mod Tests
use sgx_sdk_rs.Base.{
  ℕ, ◌%◌, ◌^◌, List, length, put, ltb, SgxStatus, Result, ok, err, reject_if, ◌>>◌, ◌>>=◌,
  from_status, sgx_success, sgx_error_invalid_parameter, u32_max, ◌≡◌,
}

-- What a call left behind its pointers, with its status.
pub record CtrOut : Type 0 where
  pub status : SgxStatus
  pub ctr : List ℕ
  pub out : List ℕ

-- Arguments: key, source, its length, counter block, bits to increment.
pub record CtrLib : Type 0 where
  pub sgx_aes_ctr_encrypt : List ℕ → List ℕ → ℕ → List ℕ → ℕ → CtrOut
  pub sgx_aes_ctr_decrypt : List ℕ → List ℕ → ℕ → List ℕ → ℕ → CtrOut

-- What the caller's counter block and buffer hold after the call.
pub record Streamed : Type 0 where
  pub result : Result (Unit {0})
  pub ctr : List ℕ
  pub dst : List ℕ

-- The checks that both directions make before the call.
unfoldable pub check_sizes : ℕ → ℕ → Result (Unit {0})
check_sizes src_len dst_len = do
  reject_if (ltb u32_max src_len) sgx_error_invalid_parameter
  reject_if (ltb src_len 1) sgx_error_invalid_parameter
  reject_if (ltb u32_max dst_len) sgx_error_invalid_parameter
  reject_if (ltb dst_len src_len) sgx_error_invalid_parameter

module _ (lib : CtrLib) where
  unfoldable pub rsgx_aes_ctr_encrypt : List ℕ → List ℕ → List ℕ → ℕ → List ℕ → Streamed
  rsgx_aes_ctr_encrypt key src ctr ctr_inc_bits dst = elim (check_sizes (length src) (length dst)) [
    | err e ↦ record { result = err e; ctr = ctr; dst = dst }
    | ok _ ↦
        let ret = lib.sgx_aes_ctr_encrypt key src (length src % 2 ^ 32) ctr ctr_inc_bits in
        record { result = from_status ret.status tt; ctr = ret.ctr; dst = put dst 0 ret.out }
  ]

  unfoldable pub rsgx_aes_ctr_decrypt : List ℕ → List ℕ → List ℕ → ℕ → List ℕ → Streamed
  rsgx_aes_ctr_decrypt key src ctr ctr_inc_bits dst = elim (check_sizes (length src) (length dst)) [
    | err e ↦ record { result = err e; ctr = ctr; dst = dst }
    | ok _ ↦
        let ret = lib.sgx_aes_ctr_decrypt key src (length src % 2 ^ 32) ctr ctr_inc_bits in
        record { result = from_status ret.status tt; ctr = ret.ctr; dst = put dst 0 ret.out }
  ]

-- What AES-CTR promises: the ciphertext is as long as the text, and decryption with the same key
-- and counter block undoes encryption and moves the counter block on alike.
pub record IsCtr (lib : CtrLib) : Type 0 where
  pub length_out :
      (key src ctr : List ℕ) (inc : ℕ)
      → length (lib.sgx_aes_ctr_encrypt key src (length src) ctr inc).out ≡ length src
  pub undoes :
      (key src ctr : List ℕ) (inc : ℕ)
      → let e = lib.sgx_aes_ctr_encrypt key src (length src) ctr inc in
        e.status ≡ sgx_success
        → let d = lib.sgx_aes_ctr_decrypt key e.out (length e.out) ctr inc in
          (d.status ≡ sgx_success) × (d.out ≡ src) × (d.ctr ≡ e.ctr)
