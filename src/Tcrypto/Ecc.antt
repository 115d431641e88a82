-- ===== src/Tcrypto/Ecc.antt =====
-- sgx-tcrypto/src/crypto.rs: elliptic curves on a `SgxEccHandle`. The native functions are a parameter;
-- a key, a point, a hash and a signature is its bytes.
pub mod Verify
pub mod Handles
pub mod Tests
use sgx_sdk_rs.Base.{
  ℕ, ◌%◌, ◌^◌, ◌-◌, List, [], length, replicate, Bool, true, false, ltb, ◌==◌, ◌&&◌, not,
  if◌then◌else◌, Option, none, some, SgxStatus, ok, err, sgx_success, sgx_error_invalid_parameter,
}
use sgx_sdk_rs.Tcrypto.Context.{Handle, Outcome, size_refused}
use sgx_sdk_rs.Tcrypto.Lifecycle.{open_handle, close_handle, answer}

-- A call gives its status, what it wrote through its pointers and the library's state; `W` is that
-- state. The C `int` that `check_point` writes is its bit pattern, the result of a verification one byte.
pub record EccLib (W : Type 0) : Type 0 where
  pub sgx_ecc256_open_context : W → SgxStatus × ℕ × W
  pub sgx_ecc256_close_context : ℕ → W → SgxStatus × W
  pub sgx_ecc256_create_key_pair : ℕ → W → SgxStatus × (List ℕ × List ℕ) × W
  pub sgx_ecc256_check_point : List ℕ → ℕ → W → SgxStatus × ℕ × W
  pub sgx_ecc256_compute_shared_dhkey : List ℕ → List ℕ → ℕ → W → SgxStatus × List ℕ × W
  pub sgx_ecdsa_sign : List ℕ → ℕ → List ℕ → ℕ → W → SgxStatus × List ℕ × W
  pub sgx_ecdsa_verify : List ℕ → ℕ → List ℕ → List ℕ → ℕ → W → SgxStatus × ℕ × W
  pub sgx_ecdsa_verify_hash : List ℕ → List ℕ → List ℕ → ℕ → W → SgxStatus × ℕ × W

abbrev pub sgx_ec_valid : ℕ
sgx_ec_valid = 0x00

abbrev pub sgx_ec_invalid_signature : ℕ
sgx_ec_invalid_signature = 0x11

-- `sgx_generic_ecresult_t::from_repr`: the values are 0 to 0x11.
abbrev pub from_repr : ℕ → Option ℕ
from_repr n = if ltb sgx_ec_invalid_signature n then none else some n

abbrev pub unwrap_or : Option ℕ → ℕ → ℕ
unwrap_or none n = n
unwrap_or (some m) n = m

-- A default signature.
abbrev pub no_signature : List ℕ
no_signature = replicate 64 0

-- Aligned keys wrap a key.
pub record AlignKey : Type 0 where
  pub key : List ℕ

-- `valid > 0` on an `i32`.
abbrev pub is_positive : ℕ → Bool
is_positive valid = ltb 0 valid && ltb valid (2 ^ 31)

-- What a verification leaves in `result`.
abbrev pub ec_result : SgxStatus → ℕ → ℕ
ec_result ret verify =
    if ret == sgx_success
    then unwrap_or (from_repr verify) sgx_ec_invalid_signature
    else sgx_ec_invalid_signature

module _ {W : Type 0} (lib : EccLib W) where
  unfoldable pub rsgx_ecc256_open_context : W → SgxStatus × ℕ × W
  rsgx_ecc256_open_context w = lib.sgx_ecc256_open_context w

  unfoldable pub rsgx_ecc256_close_context : ℕ → W → SgxStatus × W
  rsgx_ecc256_close_context ecc_handle w = lib.sgx_ecc256_close_context ecc_handle w

  unfoldable pub rsgx_ecc256_create_key_pair : ℕ → W → SgxStatus × (List ℕ × List ℕ) × W
  rsgx_ecc256_create_key_pair ecc_handle w = lib.sgx_ecc256_create_key_pair ecc_handle w

  unfoldable pub rsgx_ecc256_check_point : List ℕ → ℕ → W → SgxStatus × ℕ × W
  rsgx_ecc256_check_point point ecc_handle w = lib.sgx_ecc256_check_point point ecc_handle w

  unfoldable pub rsgx_ecc256_compute_shared_dhkey : List ℕ → List ℕ → ℕ → W → SgxStatus × List ℕ × W
  rsgx_ecc256_compute_shared_dhkey private_b public_ga ecc_handle w =
      lib.sgx_ecc256_compute_shared_dhkey private_b public_ga ecc_handle w

  unfoldable pub rsgx_ecdsa_sign_msg : List ℕ → List ℕ → List ℕ → ℕ → W → SgxStatus × List ℕ × W
  rsgx_ecdsa_sign_msg text private signature ecc_handle w =
      let size = length text in
      let called = lib.sgx_ecdsa_sign text (size % 2 ^ 32) private ecc_handle w in
      if size_refused size then (sgx_error_invalid_parameter, signature, w) else called

  unfoldable pub rsgx_ecdsa_sign_slice : List ℕ → List ℕ → List ℕ → ℕ → W → SgxStatus × List ℕ × W
  rsgx_ecdsa_sign_slice text private signature ecc_handle w =
      let size = length text in
      let called = lib.sgx_ecdsa_sign text (size % 2 ^ 32) private ecc_handle w in
      if size_refused size then (sgx_error_invalid_parameter, signature, w) else called

  -- `result` is what was there before.
  unfoldable pub rsgx_ecdsa_verify_msg : List ℕ → List ℕ → List ℕ → ℕ → ℕ → W → SgxStatus × ℕ × W
  rsgx_ecdsa_verify_msg text public signature result ecc_handle w =
      let size = length text in
      let (ret, verify, w') =
        lib.sgx_ecdsa_verify text (size % 2 ^ 32) public signature ecc_handle w in
      if size_refused size
      then (sgx_error_invalid_parameter, result, w)
      else (ret, ec_result ret verify, w')

  unfoldable pub rsgx_ecdsa_verify_slice : List ℕ → List ℕ → List ℕ → ℕ → ℕ → W → SgxStatus × ℕ × W
  rsgx_ecdsa_verify_slice text public signature result ecc_handle w =
      let size = length text in
      let (ret, verify, w') =
        lib.sgx_ecdsa_verify text (size % 2 ^ 32) public signature ecc_handle w in
      if size_refused size
      then (sgx_error_invalid_parameter, result, w)
      else (ret, ec_result ret verify, w')

  unfoldable pub rsgx_ecdsa_verify_hash : List ℕ → List ℕ → List ℕ → ℕ → ℕ → W → SgxStatus × ℕ × W
  rsgx_ecdsa_verify_hash hash public signature result ecc_handle w =
      let (ret, verify, w') = lib.sgx_ecdsa_verify_hash hash public signature ecc_handle w in
      (ret, ec_result ret verify, w')

  -- The methods of `SgxEccHandle`.
  unfoldable pub open_ecc : Handle → W → Outcome W (Unit {0})
  unfolding rsgx_ecc256_open_context open_handle
  open_ecc = open_handle rsgx_ecc256_open_context

  unfoldable pub create_key_pair : Handle → W → Outcome W (List ℕ × List ℕ)
  unfolding rsgx_ecc256_create_key_pair answer
  create_key_pair = answer rsgx_ecc256_create_key_pair

  unfoldable pub create_align_key_pair_call : ℕ → W → SgxStatus × (AlignKey × List ℕ) × W
  unfolding rsgx_ecc256_create_key_pair
  create_align_key_pair_call h w =
      let (ret, (private, public), w') = rsgx_ecc256_create_key_pair h w in
      (ret, (record { key = private }, public), w')

  unfoldable pub create_align_key_pair : Handle → W → Outcome W (AlignKey × List ℕ)
  unfolding create_align_key_pair_call answer
  create_align_key_pair = answer (create_align_key_pair_call)

  unfoldable pub check_point_call : List ℕ → ℕ → W → SgxStatus × Bool × W
  unfolding rsgx_ecc256_check_point
  check_point_call point h w =
      let (ret, valid, w') = rsgx_ecc256_check_point point h w in (ret, is_positive valid, w')

  unfoldable pub check_point : List ℕ → Handle → W → Outcome W Bool
  unfolding check_point_call answer
  check_point point = answer (check_point_call point)

  unfoldable pub compute_shared_dhkey : List ℕ → List ℕ → Handle → W → Outcome W (List ℕ)
  unfolding rsgx_ecc256_compute_shared_dhkey answer
  compute_shared_dhkey private_b public_ga =
      answer (rsgx_ecc256_compute_shared_dhkey private_b public_ga)

  unfoldable pub compute_align_shared_dhkey_call :
      List ℕ → List ℕ → ℕ → W → SgxStatus × AlignKey × W
  unfolding rsgx_ecc256_compute_shared_dhkey
  compute_align_shared_dhkey_call private_b public_ga h w =
      let (ret, key, w') = rsgx_ecc256_compute_shared_dhkey private_b public_ga h w in
      (ret, record { key = key }, w')

  unfoldable pub compute_align_shared_dhkey : List ℕ → List ℕ → Handle → W → Outcome W AlignKey
  unfolding compute_align_shared_dhkey_call answer
  compute_align_shared_dhkey private_b public_ga =
      answer (compute_align_shared_dhkey_call private_b public_ga)

  unfoldable pub ecdsa_sign_msg : List ℕ → List ℕ → Handle → W → Outcome W (List ℕ)
  unfolding rsgx_ecdsa_sign_msg answer
  ecdsa_sign_msg text private = answer (rsgx_ecdsa_sign_msg text private no_signature)

  unfoldable pub ecdsa_sign_slice : List ℕ → List ℕ → Handle → W → Outcome W (List ℕ)
  unfolding rsgx_ecdsa_sign_slice answer
  ecdsa_sign_slice text private = answer (rsgx_ecdsa_sign_slice text private no_signature)

  unfoldable pub ecdsa_verify_msg_call : List ℕ → List ℕ → List ℕ → ℕ → W → SgxStatus × Bool × W
  unfolding rsgx_ecdsa_verify_msg
  ecdsa_verify_msg_call text public signature h w =
      let (ret, result, w') = rsgx_ecdsa_verify_msg text public signature sgx_ec_valid h w in
      (ret, result == sgx_ec_valid, w')

  unfoldable pub ecdsa_verify_msg : List ℕ → List ℕ → List ℕ → Handle → W → Outcome W Bool
  unfolding ecdsa_verify_msg_call answer
  ecdsa_verify_msg text public signature = answer (ecdsa_verify_msg_call text public signature)

  unfoldable pub ecdsa_verify_slice_call : List ℕ → List ℕ → List ℕ → ℕ → W → SgxStatus × Bool × W
  unfolding rsgx_ecdsa_verify_slice
  ecdsa_verify_slice_call text public signature h w =
      let (ret, result, w') = rsgx_ecdsa_verify_slice text public signature sgx_ec_valid h w in
      (ret, result == sgx_ec_valid, w')

  unfoldable pub ecdsa_verify_slice : List ℕ → List ℕ → List ℕ → Handle → W → Outcome W Bool
  unfolding ecdsa_verify_slice_call answer
  ecdsa_verify_slice text public signature = answer (ecdsa_verify_slice_call text public signature)

  unfoldable pub ecdsa_verify_hash_call : List ℕ → List ℕ → List ℕ → ℕ → W → SgxStatus × Bool × W
  unfolding rsgx_ecdsa_verify_hash
  ecdsa_verify_hash_call hash public signature h w =
      let (ret, result, w') = rsgx_ecdsa_verify_hash hash public signature sgx_ec_valid h w in
      (ret, result == sgx_ec_valid, w')

  unfoldable pub ecdsa_verify_hash : List ℕ → List ℕ → List ℕ → Handle → W → Outcome W Bool
  unfolding ecdsa_verify_hash_call answer
  ecdsa_verify_hash hash public signature = answer (ecdsa_verify_hash_call hash public signature)

  unfoldable pub close_ecc : Handle → W → Outcome W (Unit {0})
  unfolding rsgx_ecc256_close_context close_handle
  close_ecc = close_handle rsgx_ecc256_close_context

  -- `Drop::drop`: what the library keeps afterwards.
  unfoldable pub drop_ecc : Handle → W → W
  unfolding close_ecc
  drop_ecc h w = (close_ecc h w).world
