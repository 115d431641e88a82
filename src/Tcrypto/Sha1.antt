-- ===== src/Tcrypto/Sha1.antt =====
-- sgx-tcrypto/src/crypto.rs: SHA1, in one call and over a `SgxSha1Handle`. The native functions are
-- `sgx_sha1_msg`, `sgx_sha1_init`, `sgx_sha1_update`, `sgx_sha1_get_hash` and
-- `sgx_sha1_close`.
use sgx_sdk_rs.Base.{
  ℕ, ◌%◌, ◌^◌, List, [], length, if◌then◌else◌, SgxStatus, Result, err, from_status,
  sgx_error_invalid_parameter,
}
use sgx_sdk_rs.Tcrypto.Context.{ContextLib, Wrappers, HandleMethods, size_refused, methods}

module _ {W : Type 0} (lib : ContextLib W) where
  unfoldable pub rsgx_sha1_msg : List ℕ → Result (List ℕ)
  rsgx_sha1_msg src =
      let size = length src in
      let (ret, hash) = lib.msg [] src (size % 2 ^ 32) in
      if size_refused size then err sgx_error_invalid_parameter else from_status ret hash

  unfoldable pub rsgx_sha1_slice : List ℕ → Result (List ℕ)
  rsgx_sha1_slice src =
      let size = length src in
      let (ret, hash) = lib.msg [] src (size % 2 ^ 32) in
      if size_refused size then err sgx_error_invalid_parameter else from_status ret hash

  unfoldable pub rsgx_sha1_init : W → SgxStatus × ℕ × W
  rsgx_sha1_init w = lib.init [] w

  unfoldable pub rsgx_sha1_update_msg : List ℕ → ℕ → W → SgxStatus × W
  rsgx_sha1_update_msg src h w =
      let size = length src in
      let called = lib.update src (size % 2 ^ 32) h w in
      if size_refused size then (sgx_error_invalid_parameter, w) else called

  unfoldable pub rsgx_sha1_update_slice : List ℕ → ℕ → W → SgxStatus × W
  rsgx_sha1_update_slice src h w =
      let size = length src in
      let called = lib.update src (size % 2 ^ 32) h w in
      if size_refused size then (sgx_error_invalid_parameter, w) else called

  unfoldable pub rsgx_sha1_get_hash : ℕ → W → SgxStatus × List ℕ × W
  rsgx_sha1_get_hash h w = lib.final h w

  unfoldable pub rsgx_sha1_close : ℕ → W → SgxStatus × W
  rsgx_sha1_close h w = lib.close h w

  -- What the methods of `SgxSha1Handle` call; a hash has no key.
  abbrev pub rsgx_sha1 : Wrappers W
  rsgx_sha1 = record {
    init = λ _ w. rsgx_sha1_init w;
    update_msg = rsgx_sha1_update_msg;
    update_slice = rsgx_sha1_update_slice;
    get_hash = rsgx_sha1_get_hash;
    close = rsgx_sha1_close;
  }

  abbrev pub sgx_sha1_handle : HandleMethods W
  sgx_sha1_handle = methods rsgx_sha1
