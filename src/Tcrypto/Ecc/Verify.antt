-- ===== src/Tcrypto/Ecc/Verify.antt =====
-- sgx-tcrypto/src/crypto.rs: when a signature counts as valid.
use sgx_sdk_rs.Base.{
  ℕ, ◌%◌, ◌^◌, ◌≤◌, ◌<◌, ◌≡◌, ◌↔◌, arith, List, length, Bool, true, ◌==◌, if◌then◌else◌, SgxStatus,
  ok, sgx_success, u32_max, sgx_error_invalid_parameter,
}
use sgx_sdk_rs.Tcrypto.Context.{Handle, size_refused}
use sgx_sdk_rs.Tcrypto.Lifecycle.{answer, answer-ok}
use sgx_sdk_rs.Tcrypto.Ecc.{
  EccLib, sgx_ec_valid, ec_result, rsgx_ecdsa_verify_msg, rsgx_ecdsa_verify_slice,
  rsgx_ecdsa_verify_hash, ecdsa_verify_msg, ecdsa_verify_slice, ecdsa_verify_hash,
  ecdsa_verify_msg_call, ecdsa_verify_slice_call, ecdsa_verify_hash_call,
}

sized_valid :
    {W : Type 0} (size result ret verify : ℕ) (w w' : W)
    → let r : SgxStatus × ℕ × W =
        if size_refused size
        then (sgx_error_invalid_parameter, result, w)
        else (ret, ec_result ret verify, w') in
      ((r.0 ≡ sgx_success) × ((r.1 == sgx_ec_valid) ≡ true))
      ↔ ((0 < size) × (size ≤ u32_max) × (ret ≡ sgx_success) × (verify ≡ sgx_ec_valid))
sized_valid size result ret verify w w' = ground arith

plain_valid :
    (ret verify : ℕ)
    → ((ret ≡ sgx_success) × ((ec_result ret verify == sgx_ec_valid) ≡ true))
      ↔ ((ret ≡ sgx_success) × (verify ≡ sgx_ec_valid))
plain_valid ret verify = ground arith

not_wrapped : (size : ℕ) → size ≤ u32_max → size % 2 ^ 32 ≡ size
not_wrapped size small = omega (arith, small)

module _ {W : Type 0} (lib : EccLib W) where
  -- The library found the signature of these bytes valid, in the handle's context.
  abbrev pub Valid : List ℕ → List ℕ → List ℕ → Handle → W → Type 0
  Valid text public signature h w =
      let (ret, verify, _) = lib.sgx_ecdsa_verify text (length text) public signature h.handle w in
      (h.initflag ≡ true)
      × (0 < length text)
      × (length text ≤ u32_max)
      × (ret ≡ sgx_success)
      × (verify ≡ sgx_ec_valid)

  abbrev pub ValidHash : List ℕ → List ℕ → List ℕ → Handle → W → Type 0
  ValidHash hash public signature h w =
      let (ret, verify, _) = lib.sgx_ecdsa_verify_hash hash public signature h.handle w in
      (h.initflag ≡ true) × (ret ≡ sgx_success) × (verify ≡ sgx_ec_valid)

  -- The call of a verification of bytes, as both methods make it.
  abbrev verify_call : List ℕ → List ℕ → List ℕ → ℕ → W → SgxStatus × ℕ × W
  verify_call text public signature h w =
      let size = length text in
      let (ret, verify, w') = lib.sgx_ecdsa_verify text (size % 2 ^ 32) public signature h w in
      if size_refused size
      then (sgx_error_invalid_parameter, sgx_ec_valid, w)
      else (ret, ec_result ret verify, w')

  abbrev verify_answer : List ℕ → List ℕ → List ℕ → ℕ → W → SgxStatus × Bool × W
  verify_answer text public signature h w =
      let (ret, result, w') = verify_call text public signature h w in
      (ret, result == sgx_ec_valid, w')

  verify_answer-Valid :
      (text public signature : List ℕ) (h : Handle) (w : W)
      → ((answer (verify_answer text public signature) h w).result ≡ ok true)
        ↔ Valid text public signature h w
  verify_answer-Valid text public signature h w =
      let size = length text in
      let (ret, verify, w') =
        lib.sgx_ecdsa_verify text (size % 2 ^ 32) public signature h.handle w in
      let answered = answer-ok (verify_answer text public signature) h w true in
      let tested = sized_valid size sgx_ec_valid ret verify w w' in
      (
        λ e.
            let (on, called, accepted) = answered.0 e in
            let (filled, small, good, valid) = tested.0 (called, accepted) in
            (
              on,
              filled,
              small,
              rw (not_wrapped size small) at good,
              rw (not_wrapped size small) at valid,
            ),
        λ (on, filled, small, good, valid).
            let (called, accepted) = tested.1 (
              filled,
              small,
              rw (not_wrapped size small) good,
              rw (not_wrapped size small) valid,
            ) in
            answered.1 (on, called, accepted),
      )

  -- `ecdsa_verify_msg` and `ecdsa_verify_slice` answer Ok(true) exactly on an open handle and 1 to
  -- `u32::MAX` bytes, when the library, called with those bytes and their length, succeeds and writes
  -- SGX_EC_VALID; `ecdsa_verify_hash` does exactly on an open handle when the library does so for the
  -- hash. Every other result that the library may write, also one that is no result, is not Ok(true).
  pub ecdsa_verify-Valid :
      (text public signature : List ℕ) (h : Handle) (w : W)
      → (((ecdsa_verify_msg lib text public signature h w).result ≡ ok true)
          ↔ Valid text public signature h w)
        × (((ecdsa_verify_slice lib text public signature h w).result ≡ ok true)
            ↔ Valid text public signature h w)
        × (((ecdsa_verify_hash lib text public signature h w).result ≡ ok true)
            ↔ ValidHash text public signature h w)
  unfolding ecdsa_verify_msg ecdsa_verify_slice ecdsa_verify_hash rsgx_ecdsa_verify_msg
      rsgx_ecdsa_verify_slice rsgx_ecdsa_verify_hash ecdsa_verify_msg_call ecdsa_verify_slice_call
      ecdsa_verify_hash_call
  ecdsa_verify-Valid text public signature h w =
      let (ret, verify, w') = lib.sgx_ecdsa_verify_hash text public signature h.handle w in
      let answered = answer-ok (ecdsa_verify_hash_call lib text public signature) h w true in
      (
        verify_answer-Valid text public signature h w,
        verify_answer-Valid text public signature h w,
        (
          λ e.
              let (on, called, accepted) = answered.0 e in
              let (good, valid) = (plain_valid ret verify).0 (called, accepted) in
              (on, good, valid),
          λ (on, good, valid).
              let (called, accepted) = (plain_valid ret verify).1 (good, valid) in
              answered.1 (on, called, accepted),
        ),
      )
