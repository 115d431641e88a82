-- ===== src/Tcrypto/Aes.antt =====
-- sgx-tcrypto/src/crypto.rs: AES-GCM encryption in pieces over a `SgxAesHandle`. The native functions are
-- a parameter.
pub mod Client
pub mod Pieces
pub mod Tests
use sgx_sdk_rs.Base.{
  ℕ, ◌%◌, ◌^◌, List, [], length, put, Bool, true, false, not, ltb, ◌==◌, ◌||◌, if◌then◌else◌,
  SgxStatus, Result, ok, err, from_status, sgx_success, sgx_error_invalid_parameter,
  sgx_error_invalid_state, u32_max,
}
use sgx_sdk_rs.Types.{sgx_aesgcm_iv_size}
use sgx_sdk_rs.Tcrypto.Context.{Handle, Outcome, size_refused}
use sgx_sdk_rs.Tcrypto.Lifecycle.{open_handle, close_handle, answer}
use sgx_sdk_rs.Tcrypto.Gcm.{Region, region}

-- A call gives its status, what it wrote and the state `W` of the library.
pub record AesLib (W : Type 0) : Type 0 where
  pub sgx_aes_gcm128_enc_init : List ℕ → List ℕ → ℕ → Region → ℕ → W → SgxStatus × ℕ × W
  pub sgx_aes_gcm128_enc_update : List ℕ → ℕ → ℕ → W → SgxStatus × List ℕ × W
  pub sgx_aes_gcm128_enc_get_mac : ℕ → W → SgxStatus × List ℕ × W
  pub sgx_aes_gcm_close : ℕ → W → SgxStatus × W

pub record AlignMac : Type 0 where
  pub mac : List ℕ

module _ {W : Type 0} (lib : AesLib W) where
  -- `aes_gcm_state` is what was there before.
  unfoldable pub rsgx_aes_gcm128_enc_init : List ℕ → List ℕ → List ℕ → ℕ → W → SgxStatus × ℕ × W
  rsgx_aes_gcm128_enc_init key iv aad aes_gcm_state w =
      let called =
        lib.sgx_aes_gcm128_enc_init key iv (length iv % 2 ^ 32) (region aad) (length aad % 2 ^ 32)
          w in
      if not (length iv == sgx_aesgcm_iv_size) || ltb u32_max (length aad)
      then (sgx_error_invalid_parameter, aes_gcm_state, w)
      else called

  -- With what `dst` holds afterwards.
  unfoldable pub rsgx_aes_gcm128_enc_update : List ℕ → List ℕ → ℕ → W → SgxStatus × List ℕ × W
  rsgx_aes_gcm128_enc_update src dst aes_gcm_state w =
      let (ret, out, w') =
        lib.sgx_aes_gcm128_enc_update src (length src % 2 ^ 32) aes_gcm_state w in
      if size_refused (length src) || size_refused (length dst) || ltb (length dst) (length src)
      then (sgx_error_invalid_parameter, dst, w)
      else (ret, put dst 0 out, w')

  unfoldable pub rsgx_aes_gcm128_enc_get_mac : ℕ → W → SgxStatus × List ℕ × W
  rsgx_aes_gcm128_enc_get_mac aes_gcm_state w = lib.sgx_aes_gcm128_enc_get_mac aes_gcm_state w

  unfoldable pub rsgx_aes_gcm_close : ℕ → W → SgxStatus × W
  rsgx_aes_gcm_close aes_gcm_state w = lib.sgx_aes_gcm_close aes_gcm_state w

  -- The methods of `SgxAesHandle`.
  unfoldable pub init_aes : List ℕ → List ℕ → List ℕ → Handle → W → Outcome W (Unit {0})
  unfolding rsgx_aes_gcm128_enc_init open_handle
  init_aes key iv aad h w = open_handle (rsgx_aes_gcm128_enc_init key iv aad h.handle) h w

  -- With what `dst` holds afterwards.
  unfoldable pub update_aes : List ℕ → List ℕ → Handle → W → Outcome W (Unit {0}) × List ℕ
  unfolding rsgx_aes_gcm128_enc_update
  update_aes src dst h w =
      let (ret, dst', w') = rsgx_aes_gcm128_enc_update src dst h.handle w in
      if h.initflag
      then (record { result = from_status ret tt; this = h; world = w' }, dst')
      else (record { result = err sgx_error_invalid_state; this = h; world = w }, dst)

  unfoldable pub get_mac : Handle → W → Outcome W (List ℕ)
  unfolding rsgx_aes_gcm128_enc_get_mac answer
  get_mac = answer rsgx_aes_gcm128_enc_get_mac

  unfoldable pub get_align_mac : Handle → W → Outcome W AlignMac
  unfolding rsgx_aes_gcm128_enc_get_mac answer
  get_align_mac = answer (λ h w.
      let (ret, mac, w') = rsgx_aes_gcm128_enc_get_mac h w in (ret, record { mac = mac }, w'))

  unfoldable pub close_aes : Handle → W → Outcome W (Unit {0})
  unfolding rsgx_aes_gcm_close close_handle
  close_aes = close_handle rsgx_aes_gcm_close

  -- `Drop::drop`: what the library keeps afterwards.
  unfoldable pub drop_aes : Handle → W → W
  unfolding close_aes
  drop_aes h w = (close_aes h w).world
