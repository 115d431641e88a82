-- ===== src/Tcrypto/Hmac.antt =====
-- sgx-tcrypto/src/crypto.rs: HMAC-SHA256 in one call and over a `SgxHmacHandle`. The native
-- functions are `sgx_hmac_sha256_msg`, `sgx_hmac256_init`, `sgx_hmac256_update`,
-- `sgx_hmac256_final` and `sgx_hmac256_close`. They take a length as an `i32`, here its bit pattern;
-- the sizes of keys and MACs, which the code passes as constants, are left out.
use sgx_sdk_rs.Base.{
  ℕ, ◌%◌, ◌^◌, List, length, if◌then◌else◌, SgxStatus, Result, err, from_status,
  sgx_error_invalid_parameter, sgx_error_invalid_state,
}
use sgx_sdk_rs.Tcrypto.Context.{
  ContextLib, Wrappers, Handle, Outcome, HandleMethods, size_refused, methods,
}

module _ {W : Type 0} (lib : ContextLib W) where
  unfoldable pub rsgx_hmac_sha256_msg : List ℕ → List ℕ → Result (List ℕ)
  rsgx_hmac_sha256_msg key src =
      let size = length src in
      let (ret, mac) = lib.msg key src (size % 2 ^ 32) in
      if size_refused size then err sgx_error_invalid_parameter else from_status ret mac

  unfoldable pub rsgx_align_hmac_sha256_msg : List ℕ → List ℕ → Result (List ℕ)
  rsgx_align_hmac_sha256_msg key src =
      let size = length src in
      let (ret, mac) = lib.msg key src (size % 2 ^ 32) in
      if size_refused size then err sgx_error_invalid_parameter else from_status ret mac

  unfoldable pub rsgx_hmac_sha256_slice : List ℕ → List ℕ → Result (List ℕ)
  rsgx_hmac_sha256_slice key src =
      let size = length src in
      let (ret, mac) = lib.msg key src (size % 2 ^ 32) in
      if size_refused size then err sgx_error_invalid_parameter else from_status ret mac

  unfoldable pub rsgx_align_hmac_sha256_slice : List ℕ → List ℕ → Result (List ℕ)
  rsgx_align_hmac_sha256_slice key src =
      let size = length src in
      let (ret, mac) = lib.msg key src (size % 2 ^ 32) in
      if size_refused size then err sgx_error_invalid_parameter else from_status ret mac

  unfoldable pub rsgx_hmac256_init : List ℕ → W → SgxStatus × ℕ × W
  rsgx_hmac256_init key w = lib.init key w

  unfoldable pub rsgx_hmac256_update_msg : List ℕ → ℕ → W → SgxStatus × W
  rsgx_hmac256_update_msg src h w =
      let size = length src in
      let called = lib.update src (size % 2 ^ 32) h w in
      if size_refused size then (sgx_error_invalid_parameter, w) else called

  unfoldable pub rsgx_hmac256_update_slice : List ℕ → ℕ → W → SgxStatus × W
  rsgx_hmac256_update_slice src h w =
      let size = length src in
      let called = lib.update src (size % 2 ^ 32) h w in
      if size_refused size then (sgx_error_invalid_parameter, w) else called

  unfoldable pub rsgx_hmac256_final : ℕ → W → SgxStatus × List ℕ × W
  rsgx_hmac256_final h w = lib.final h w

  unfoldable pub rsgx_hmac256_close : ℕ → W → SgxStatus × W
  rsgx_hmac256_close h w = lib.close h w

  -- What the methods of `SgxHmacHandle` call.
  abbrev pub rsgx_hmac256 : Wrappers W
  rsgx_hmac256 = record {
    init = rsgx_hmac256_init;
    update_msg = rsgx_hmac256_update_msg;
    update_slice = rsgx_hmac256_update_slice;
    get_hash = rsgx_hmac256_final;
    close = rsgx_hmac256_close;
  }

  abbrev pub sgx_hmac_handle : HandleMethods W
  sgx_hmac_handle = methods rsgx_hmac256

  -- The aligned tag holds the same bytes.
  unfoldable pub sgx_hmac_handle_get_align_hash : Handle → W → Outcome W (List ℕ)
  sgx_hmac_handle_get_align_hash h w =
      let (ret, align_hash, w') = rsgx_hmac256.get_hash h.handle w in
      if h.initflag
      then record { result = from_status ret align_hash; this = h; world = w' }
      else record { result = err sgx_error_invalid_state; this = h; world = w }
