-- ===== src/Tcrypto/Sha384.antt =====
-- sgx-tcrypto/src/crypto.rs: SHA384, in one call and over a `SgxSha384Handle`. The native functions are
-- `sgx_sha384_msg`, `sgx_sha384_init`, `sgx_sha384_update`, `sgx_sha384_get_hash` and
-- `sgx_sha384_close`.
use sgx_sdk_rs.Base.{
  ℕ, ◌%◌, ◌^◌, List, [], length, if◌then◌else◌, SgxStatus, Result, err, from_status,
  sgx_error_invalid_parameter,
}
use sgx_sdk_rs.Tcrypto.Context.{ContextLib, Wrappers, HandleMethods, size_refused, methods}

module _ {W : Type 0} (lib : ContextLib W) where
  unfoldable pub rsgx_sha384_msg : List ℕ → Result (List ℕ)
  rsgx_sha384_msg src =
      let size = length src in
      let (ret, hash) = lib.msg [] src (size % 2 ^ 32) in
      if size_refused size then err sgx_error_invalid_parameter else from_status ret hash

  unfoldable pub rsgx_sha384_slice : List ℕ → Result (List ℕ)
  rsgx_sha384_slice src =
      let size = length src in
      let (ret, hash) = lib.msg [] src (size % 2 ^ 32) in
      if size_refused size then err sgx_error_invalid_parameter else from_status ret hash

  unfoldable pub rsgx_sha384_init : W → SgxStatus × ℕ × W
  rsgx_sha384_init w = lib.init [] w

  unfoldable pub rsgx_sha384_update_msg : List ℕ → ℕ → W → SgxStatus × W
  rsgx_sha384_update_msg src h w =
      let size = length src in
      let called = lib.update src (size % 2 ^ 32) h w in
      if size_refused size then (sgx_error_invalid_parameter, w) else called

  unfoldable pub rsgx_sha384_update_slice : List ℕ → ℕ → W → SgxStatus × W
  rsgx_sha384_update_slice src h w =
      let size = length src in
      let called = lib.update src (size % 2 ^ 32) h w in
      if size_refused size then (sgx_error_invalid_parameter, w) else called

  unfoldable pub rsgx_sha384_get_hash : ℕ → W → SgxStatus × List ℕ × W
  rsgx_sha384_get_hash h w = lib.final h w

  unfoldable pub rsgx_sha384_close : ℕ → W → SgxStatus × W
  rsgx_sha384_close h w = lib.close h w

  -- What the methods of `SgxSha384Handle` call; a hash has no key.
  abbrev pub rsgx_sha384 : Wrappers W
  rsgx_sha384 = record {
    init = λ _ w. rsgx_sha384_init w;
    update_msg = rsgx_sha384_update_msg;
    update_slice = rsgx_sha384_update_slice;
    get_hash = rsgx_sha384_get_hash;
    close = rsgx_sha384_close;
  }

  abbrev pub sgx_sha384_handle : HandleMethods W
  sgx_sha384_handle = methods rsgx_sha384
