-- ===== src/Tcrypto/Rsa.antt =====
-- sgx-tcrypto/src/crypto.rs: RSA keys made by the native library, `SgxRsaPrivKey` and `SgxRsaPubKey`. A C
-- `int` is its bit pattern, a buffer its bytes, a key the address of what the library keeps for it.
pub mod Sign
pub mod Steps
pub mod Keys
pub mod Tests
use sgx_sdk_rs.Base.{
  ℕ, ◌%◌, ◌^◌, ◌-◌, List, [], length, put, Bool, true, false, not, ltb, ◌==◌, ◌&&◌, ◌||◌,
  if◌then◌else◌, Option, none, some, SgxStatus, Result, ok, err, from_status, sgx_success,
  sgx_error_invalid_parameter, sgx_error_invalid_state,
}
use sgx_sdk_rs.Tcrypto.Ecc.{is_positive}
use sgx_sdk_rs.Tcrypto.Gcm.{Region}

abbrev pub i32_max : ℕ
i32_max = 2 ^ 31 - 1

-- `sgx_rsa_key_type_t`.
pub data SgxRsaKeyType : Type 0 where
  sgx_rsa_private_key : SgxRsaKeyType
  sgx_rsa_public_key : SgxRsaKeyType

-- A call that makes a key gives its address; one that crypts gives what it wrote behind its pointer
-- and the length it left. The pointer is null where that length was 0.
pub record RsaLib (W : Type 0) : Type 0 where
  pub sgx_create_rsa_priv2_key :
      ℕ → ℕ → List ℕ → List ℕ → List ℕ → List ℕ → List ℕ → List ℕ → W → SgxStatus × ℕ × W
  pub sgx_create_rsa_priv1_key : ℕ → ℕ → ℕ → List ℕ → List ℕ → List ℕ → W → SgxStatus × ℕ × W
  pub sgx_create_rsa_pub1_key : ℕ → ℕ → List ℕ → List ℕ → W → SgxStatus × ℕ × W
  pub sgx_free_rsa_key : ℕ → SgxRsaKeyType → ℕ → ℕ → W → SgxStatus × W
  pub sgx_rsa_priv_decrypt_sha256 : ℕ → Region → ℕ → List ℕ → ℕ → W → SgxStatus × (List ℕ × ℕ) × W
  pub sgx_rsa_pub_encrypt_sha256 : ℕ → Region → ℕ → List ℕ → ℕ → W → SgxStatus × (List ℕ × ℕ) × W

-- `SgxRsaPrivKey` and `SgxRsaPubKey`, which have the same fields; a key that is null is 0.
pub record RsaKey : Type 0 where
  pub key : ℕ
  pub mod_size : ℕ
  pub exp_size : ℕ
  pub createflag : Bool

abbrev pub new_key : RsaKey
new_key = record { key = 0; mod_size = 0; exp_size = 0; createflag = false }

pub record KeyOutcome (W : Type 0) : Type 0 where
  pub result : Result (Unit {0})
  pub this : RsaKey
  pub world : W

-- The caller's buffer and length after a call that crypts.
pub record Crypted (W : Type 0) : Type 0 where
  pub result : Result (Unit {0})
  pub out_data : List ℕ
  pub out_len : ℕ
  pub world : W

abbrev pub out_of_size : List ℕ → Bool
out_of_size part = length part == 0 || ltb i32_max (length part)

abbrev pub bad_lengths : List ℕ → ℕ → List ℕ → Bool
bad_lengths out_data out_len in_data =
    length in_data == 0 || (not (out_len == 0) && not (length out_data == out_len))

-- `match ret` behind a call that makes a key.
abbrev pub keep_key : {W : Type 0} → ℕ → ℕ → RsaKey → W → SgxStatus × ℕ × W → KeyOutcome W
keep_key mod_size exp_size k w (ret, key, w') =
    if k.createflag
    then record { result = ok tt; this = k; world = w }
    else if ret == sgx_success
    then record {
      result = ok tt;
      this = record { key = key; mod_size = mod_size; exp_size = exp_size; createflag = true };
      world = w';
    }
    else record { result = err ret; this = record k { key = key }; world = w' }

module _ {W : Type 0} (lib : RsaLib W) where
  -- `new_pri_key` is what was there before.
  unfoldable pub rsgx_create_rsa_priv2_key :
      ℕ → ℕ → List ℕ → List ℕ → List ℕ → List ℕ → List ℕ → List ℕ → ℕ → W → SgxStatus × ℕ × W
  rsgx_create_rsa_priv2_key mod_size exp_size e p q dmp1 dmq1 iqmp new_pri_key w =
      let called = lib.sgx_create_rsa_priv2_key mod_size exp_size e p q dmp1 dmq1 iqmp w in
      if not (is_positive mod_size)
        || not (is_positive exp_size)
        || (out_of_size e
            || out_of_size p
            || out_of_size q
            || out_of_size dmp1
            || out_of_size dmq1
            || out_of_size iqmp)
      then (sgx_error_invalid_parameter, new_pri_key, w)
      else called

  unfoldable pub rsgx_create_rsa_priv1_key :
      ℕ → ℕ → ℕ → List ℕ → List ℕ → List ℕ → ℕ → W → SgxStatus × ℕ × W
  rsgx_create_rsa_priv1_key n_size e_size d_size n e d new_pri_key w =
      let called = lib.sgx_create_rsa_priv1_key n_size e_size d_size n e d w in
      if not (is_positive n_size)
        || not (is_positive e_size)
        || (not (is_positive d_size) || out_of_size n || out_of_size e || out_of_size d)
      then (sgx_error_invalid_parameter, new_pri_key, w)
      else called

  unfoldable pub rsgx_create_rsa_pub1_key : ℕ → ℕ → List ℕ → List ℕ → ℕ → W → SgxStatus × ℕ × W
  rsgx_create_rsa_pub1_key mod_size exp_size n e new_pub_key w =
      let called = lib.sgx_create_rsa_pub1_key mod_size exp_size n e w in
      if not (is_positive mod_size)
        || not (is_positive exp_size)
        || (out_of_size n || out_of_size e)
      then (sgx_error_invalid_parameter, new_pub_key, w)
      else called

  unfoldable pub rsgx_free_rsa_key : ℕ → SgxRsaKeyType → ℕ → ℕ → W → SgxStatus × W
  rsgx_free_rsa_key rsa_key key_type mod_size exp_size w =
      let called = lib.sgx_free_rsa_key rsa_key key_type mod_size exp_size w in
      if not (is_positive mod_size) || not (is_positive exp_size)
      then (sgx_error_invalid_parameter, w)
      else called

  unfoldable pub rsgx_rsa_priv_decrypt_sha256 :
      ℕ → List ℕ → ℕ → List ℕ → W → SgxStatus × (List ℕ × ℕ) × W
  rsgx_rsa_priv_decrypt_sha256 rsa_key out_data out_len in_data w =
      let p_out_data = if not (out_len == 0) then some out_data else none in
      let (ret, (out, out_len'), w') =
        lib.sgx_rsa_priv_decrypt_sha256 rsa_key p_out_data out_len in_data (length in_data) w in
      if bad_lengths out_data out_len in_data
      then (sgx_error_invalid_parameter, (out_data, out_len), w)
      else (ret, (if not (out_len == 0) then put out_data 0 out else out_data, out_len'), w')

  unfoldable pub rsgx_rsa_pub_encrypt_sha256 :
      ℕ → List ℕ → ℕ → List ℕ → W → SgxStatus × (List ℕ × ℕ) × W
  rsgx_rsa_pub_encrypt_sha256 rsa_key out_data out_len in_data w =
      let p_out_data = if not (out_len == 0) then some out_data else none in
      let (ret, (out, out_len'), w') =
        lib.sgx_rsa_pub_encrypt_sha256 rsa_key p_out_data out_len in_data (length in_data) w in
      if bad_lengths out_data out_len in_data
      then (sgx_error_invalid_parameter, (out_data, out_len), w)
      else (ret, (if not (out_len == 0) then put out_data 0 out else out_data, out_len'), w')

  -- The methods of `SgxRsaPrivKey`; `create` is `create2`.
  unfoldable pub create2 :
      ℕ → ℕ → List ℕ → List ℕ → List ℕ → List ℕ → List ℕ → List ℕ → RsaKey → W → KeyOutcome W
  unfolding rsgx_create_rsa_priv2_key
  create2 mod_size exp_size e p q dmp1 dmq1 iqmp k w =
      keep_key mod_size exp_size k w
        (rsgx_create_rsa_priv2_key mod_size exp_size e p q dmp1 dmq1 iqmp k.key w)

  unfoldable pub create1 : ℕ → ℕ → ℕ → List ℕ → List ℕ → List ℕ → RsaKey → W → KeyOutcome W
  unfolding rsgx_create_rsa_priv1_key
  create1 mod_size exp_size priv_exp_size n e d k w =
      keep_key mod_size exp_size k w
        (rsgx_create_rsa_priv1_key mod_size exp_size priv_exp_size n e d k.key w)

  unfoldable pub decrypt_sha256 : List ℕ → ℕ → List ℕ → RsaKey → W → Crypted W
  unfolding rsgx_rsa_priv_decrypt_sha256
  decrypt_sha256 out_data out_len in_data k w =
      let (ret, (out, out_len'), w') =
        rsgx_rsa_priv_decrypt_sha256 k.key out_data out_len in_data w in
      if not k.createflag
      then record {
        result = err sgx_error_invalid_state;
        out_data = out_data;
        out_len = out_len;
        world = w;
      }
      else record { result = from_status ret tt; out_data = out; out_len = out_len'; world = w' }

  -- `free` of both types, which differ in `key_type`.
  unfoldable pub free_key : SgxRsaKeyType → RsaKey → W → KeyOutcome W
  unfolding rsgx_free_rsa_key
  free_key key_type k w =
      let (ret, w') =
        if k.key == 0
        then (sgx_success, w)
        else rsgx_free_rsa_key k.key key_type k.mod_size k.exp_size w in
      if not k.createflag
      then record { result = ok tt; this = k; world = w }
      else if ret == sgx_success
      then record { result = ok tt; this = record k { key = 0; createflag = false }; world = w' }
      else record { result = err ret; this = k; world = w' }

  -- The methods of `SgxRsaPubKey`.
  unfoldable pub create : ℕ → ℕ → List ℕ → List ℕ → RsaKey → W → KeyOutcome W
  unfolding rsgx_create_rsa_pub1_key
  create mod_size exp_size n e k w =
      keep_key mod_size exp_size k w (rsgx_create_rsa_pub1_key mod_size exp_size n e k.key w)

  unfoldable pub encrypt_sha256 : List ℕ → ℕ → List ℕ → RsaKey → W → Crypted W
  unfolding rsgx_rsa_pub_encrypt_sha256
  encrypt_sha256 out_data out_len in_data k w =
      let (ret, (out, out_len'), w') =
        rsgx_rsa_pub_encrypt_sha256 k.key out_data out_len in_data w in
      if not k.createflag
      then record {
        result = err sgx_error_invalid_state;
        out_data = out_data;
        out_len = out_len;
        world = w;
      }
      else record { result = from_status ret tt; out_data = out; out_len = out_len'; world = w' }

  -- `Drop::drop` of both.
  unfoldable pub drop_key : SgxRsaKeyType → RsaKey → W → W
  unfolding free_key
  drop_key key_type k w = (free_key key_type k w).world
