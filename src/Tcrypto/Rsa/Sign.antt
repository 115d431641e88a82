-- ===== src/Tcrypto/Rsa/Sign.antt =====
-- sgx-tcrypto/src/crypto.rs: signatures with RSA3072, and key pairs written to the caller's buffers. The
-- native functions are a parameter; each gives its status and what it wrote.
use sgx_sdk_rs.Base.{
  ℕ, ◌%◌, ◌^◌, ◌≤◌, ◌<◌, ◌≡◌, ◌↔◌, refl, arith, List, length, put, Bool, true, false, not, ◌==◌,
  ◌||◌, if◌then◌else◌, Option, SgxStatus, Result, ok, err, from_status, sgx_success, u32_max,
  sgx_error_invalid_parameter,
}
use sgx_sdk_rs.Tcrypto.Context.{size_refused}
use sgx_sdk_rs.Tcrypto.Ecc.{is_positive}
use sgx_sdk_rs.Tcrypto.Rsa.{out_of_size, i32_max}

-- The eight parts of a key pair.
pub record KeyParts : Type 0 where
  pub n : List ℕ
  pub d : List ℕ
  pub e : List ℕ
  pub p : List ℕ
  pub q : List ℕ
  pub dmp1 : List ℕ
  pub dmq1 : List ℕ
  pub iqmp : List ℕ

-- A result of a verification is `sgx_rsa_result_t`: 0 is SGX_RSA_VALID, 1 SGX_RSA_INVALID_SIGNATURE.
pub record RsaSignLib : Type 0 where
  pub sgx_rsa3072_sign : List ℕ → ℕ → List ℕ → SgxStatus × List ℕ
  pub sgx_rsa3072_sign_ex : List ℕ → ℕ → List ℕ → Option (List ℕ) → SgxStatus × List ℕ
  pub sgx_rsa3072_verify : List ℕ → ℕ → List ℕ → List ℕ → SgxStatus × ℕ
  pub sgx_create_rsa_key_pair : ℕ → ℕ → SgxStatus × KeyParts

abbrev pub sgx_rsa_valid : ℕ
sgx_rsa_valid = 0

module _ (lib : RsaSignLib) where
  unfoldable pub rsgx_rsa3072_sign_msg : List ℕ → List ℕ → Result (List ℕ)
  rsgx_rsa3072_sign_msg text key =
      let size = length text in
      let (ret, sign) = lib.sgx_rsa3072_sign text (size % 2 ^ 32) key in
      if size_refused size then err sgx_error_invalid_parameter else from_status ret sign

  unfoldable pub rsgx_rsa3072_sign_slice : List ℕ → List ℕ → Result (List ℕ)
  rsgx_rsa3072_sign_slice text key =
      let size = length text in
      let (ret, sign) = lib.sgx_rsa3072_sign text (size % 2 ^ 32) key in
      if size_refused size then err sgx_error_invalid_parameter else from_status ret sign

  unfoldable pub rsgx_rsa3072_sign_msg_ex : List ℕ → List ℕ → Option (List ℕ) → Result (List ℕ)
  rsgx_rsa3072_sign_msg_ex text key public =
      let size = length text in
      let (ret, sign) = lib.sgx_rsa3072_sign_ex text (size % 2 ^ 32) key public in
      if size_refused size then err sgx_error_invalid_parameter else from_status ret sign

  unfoldable pub rsgx_rsa3072_sign_slice_ex : List ℕ → List ℕ → Option (List ℕ) → Result (List ℕ)
  rsgx_rsa3072_sign_slice_ex text key public =
      let size = length text in
      let (ret, sign) = lib.sgx_rsa3072_sign_ex text (size % 2 ^ 32) key public in
      if size_refused size then err sgx_error_invalid_parameter else from_status ret sign

  unfoldable pub rsgx_rsa3072_verify_msg : List ℕ → List ℕ → List ℕ → Result Bool
  rsgx_rsa3072_verify_msg text public signature =
      let size = length text in
      let (ret, verify) = lib.sgx_rsa3072_verify text (size % 2 ^ 32) public signature in
      if size_refused size
      then err sgx_error_invalid_parameter
      else from_status ret (verify == sgx_rsa_valid)

  unfoldable pub rsgx_rsa3072_verify_slice : List ℕ → List ℕ → List ℕ → Result Bool
  rsgx_rsa3072_verify_slice text public signature =
      let size = length text in
      let (ret, verify) = lib.sgx_rsa3072_verify text (size % 2 ^ 32) public signature in
      if size_refused size
      then err sgx_error_invalid_parameter
      else from_status ret (verify == sgx_rsa_valid)

  -- The buffers with what the call wrote at their starts; what it wrote past their ends is not kept.
  unfoldable pub rsgx_create_rsa_key_pair : ℕ → ℕ → KeyParts → Result (Unit {0}) × KeyParts
  rsgx_create_rsa_key_pair n_byte_size e_byte_size k =
      let (ret, out) = lib.sgx_create_rsa_key_pair n_byte_size e_byte_size in
      if not (is_positive n_byte_size)
        || not (is_positive e_byte_size)
        || out_of_size k.n
        || out_of_size k.d
        || out_of_size k.e
        || out_of_size k.p
        || out_of_size k.q
        || out_of_size k.dmp1
        || out_of_size k.dmq1
        || out_of_size k.iqmp
      then (err sgx_error_invalid_parameter, k)
      else (
        from_status ret tt,
        record {
          n = put k.n 0 out.n;
          d = put k.d 0 out.d;
          e = put k.e 0 out.e;
          p = put k.p 0 out.p;
          q = put k.q 0 out.q;
          dmp1 = put k.dmp1 0 out.dmp1;
          dmq1 = put k.dmq1 0 out.dmq1;
          iqmp = put k.iqmp 0 out.iqmp;
        },
      )

  sized_valid :
      (size ret verify : ℕ)
      → ((if size_refused size
            then err sgx_error_invalid_parameter
            else from_status ret (verify == sgx_rsa_valid))
          ≡ ok true)
        ↔ ((0 < size) × (size ≤ u32_max) × (ret ≡ sgx_success) × (verify ≡ sgx_rsa_valid))
  sized_valid size ret verify = ground arith

  not_wrapped : (size : ℕ) → size ≤ u32_max → size % 2 ^ 32 ≡ size
  not_wrapped size small = omega (arith, small)

  -- The library found the signature of these bytes valid.
  abbrev pub Valid : List ℕ → List ℕ → List ℕ → Type 0
  Valid text public signature =
      let (ret, verify) = lib.sgx_rsa3072_verify text (length text) public signature in
      (0 < length text) × (length text ≤ u32_max) × (ret ≡ sgx_success) × (verify ≡ sgx_rsa_valid)

  verify-Valid :
      (text public signature : List ℕ)
      → (rsgx_rsa3072_verify_slice text public signature ≡ ok true) ↔ Valid text public signature
  unfolding rsgx_rsa3072_verify_slice
  verify-Valid text public signature =
      let size = length text in
      let (ret, verify) = lib.sgx_rsa3072_verify text (size % 2 ^ 32) public signature in
      let tested = sized_valid size ret verify in
      (
        λ e.
            let (filled, small, good, valid) = tested.0 e in
            (
              filled,
              small,
              rw (not_wrapped size small) at good,
              rw (not_wrapped size small) at valid,
            ),
        λ (filled, small, good, valid).
            tested.1
              (filled, small, rw (not_wrapped size small) good, rw (not_wrapped size small) valid),
      )

  -- `rsgx_rsa3072_verify_msg` and `rsgx_rsa3072_verify_slice` answer Ok(true) exactly on 1 to `u32::MAX`
  -- bytes, when the library, called with those bytes and their length, succeeds and writes
  -- SGX_RSA_VALID.
  pub rsgx_rsa3072_verify-Valid :
      (text public signature : List ℕ)
      → ((rsgx_rsa3072_verify_msg text public signature ≡ ok true) ↔ Valid text public signature)
        × ((rsgx_rsa3072_verify_slice text public signature ≡ ok true)
            ↔ Valid text public signature)
  unfolding rsgx_rsa3072_verify_msg rsgx_rsa3072_verify_slice
  rsgx_rsa3072_verify-Valid text public signature =
      (verify-Valid text public signature, verify-Valid text public signature)

  abbrev pub Buffer : List ℕ → Type 0
  Buffer part = (0 < length part) × (length part ≤ i32_max)

  -- `rsgx_create_rsa_key_pair` makes no test of the sizes of the key against those of the buffers that
  -- the library is to write it to: with two positive sizes, whatever they are, and eight buffers of 1 to
  -- `i32::MAX` bytes, as short as a byte, the answer is that of the library's call.
  pub rsgx_create_rsa_key_pair-unchecked :
      (n_byte_size e_byte_size : ℕ) (k : KeyParts)
      → is_positive n_byte_size ≡ true
      → is_positive e_byte_size ≡ true
      → Buffer k.n
        × Buffer k.d
        × Buffer k.e
        × Buffer k.p
        × Buffer k.q
        × Buffer k.dmp1
        × Buffer k.dmq1
        × Buffer k.iqmp
      → (rsgx_create_rsa_key_pair n_byte_size e_byte_size k).0
        ≡ from_status (lib.sgx_create_rsa_key_pair n_byte_size e_byte_size).0 tt
  unfolding rsgx_create_rsa_key_pair
  rsgx_create_rsa_key_pair-unchecked n_byte_size e_byte_size k n_positive e_positive
        (n, d, e, p, q, dmp1, dmq1, iqmp) =
      rw
        (
          n_positive,
          e_positive,
          fits k.n n,
          fits k.d d,
          fits k.e e,
          fits k.p p,
          fits k.q q,
          fits k.dmp1 dmp1,
          fits k.dmq1 dmq1,
          fits k.iqmp iqmp,
        )
        refl
    where
      fits : (part : List ℕ) → Buffer part → out_of_size part ≡ false
      fits part inside = ground (arith, inside)
