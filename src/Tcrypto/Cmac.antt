-- ===== src/Tcrypto/Cmac.antt =====
-- sgx-tcrypto/src/crypto.rs: AES-CMAC in one call and over a `SgxCmacHandle`. The native
-- functions are `sgx_rijndael128_cmac_msg`, `sgx_cmac128_init`, `sgx_cmac128_update`,
-- `sgx_cmac128_final` and `sgx_cmac128_close`.
use sgx_sdk_rs.Base.{
  ℕ, ◌%◌, ◌^◌, List, length, if◌then◌else◌, SgxStatus, Result, err, from_status,
  sgx_error_invalid_parameter, sgx_error_invalid_state,
}
use sgx_sdk_rs.Tcrypto.Context.{
  ContextLib, Wrappers, Handle, Outcome, HandleMethods, size_refused, methods,
}

module _ {W : Type 0} (lib : ContextLib W) where
  unfoldable pub rsgx_rijndael128_cmac_msg : List ℕ → List ℕ → Result (List ℕ)
  rsgx_rijndael128_cmac_msg key src =
      let size = length src in
      let (ret, mac) = lib.msg key src (size % 2 ^ 32) in
      if size_refused size then err sgx_error_invalid_parameter else from_status ret mac

  unfoldable pub rsgx_rijndael128_align_cmac_msg : List ℕ → List ℕ → Result (List ℕ)
  rsgx_rijndael128_align_cmac_msg key src =
      let size = length src in
      let (ret, mac) = lib.msg key src (size % 2 ^ 32) in
      if size_refused size then err sgx_error_invalid_parameter else from_status ret mac

  unfoldable pub rsgx_rijndael128_cmac_slice : List ℕ → List ℕ → Result (List ℕ)
  rsgx_rijndael128_cmac_slice key src =
      let size = length src in
      let (ret, mac) = lib.msg key src (size % 2 ^ 32) in
      if size_refused size then err sgx_error_invalid_parameter else from_status ret mac

  unfoldable pub rsgx_rijndael128_align_cmac_slice : List ℕ → List ℕ → Result (List ℕ)
  rsgx_rijndael128_align_cmac_slice key src =
      let size = length src in
      let (ret, mac) = lib.msg key src (size % 2 ^ 32) in
      if size_refused size then err sgx_error_invalid_parameter else from_status ret mac

  unfoldable pub rsgx_cmac128_init : List ℕ → W → SgxStatus × ℕ × W
  rsgx_cmac128_init key w = lib.init key w

  unfoldable pub rsgx_cmac128_update_msg : List ℕ → ℕ → W → SgxStatus × W
  rsgx_cmac128_update_msg src h w =
      let size = length src in
      let called = lib.update src (size % 2 ^ 32) h w in
      if size_refused size then (sgx_error_invalid_parameter, w) else called

  unfoldable pub rsgx_cmac128_update_slice : List ℕ → ℕ → W → SgxStatus × W
  rsgx_cmac128_update_slice src h w =
      let size = length src in
      let called = lib.update src (size % 2 ^ 32) h w in
      if size_refused size then (sgx_error_invalid_parameter, w) else called

  unfoldable pub rsgx_cmac128_final : ℕ → W → SgxStatus × List ℕ × W
  rsgx_cmac128_final h w = lib.final h w

  unfoldable pub rsgx_cmac128_close : ℕ → W → SgxStatus × W
  rsgx_cmac128_close h w = lib.close h w

  -- What the methods of `SgxCmacHandle` call.
  abbrev pub rsgx_cmac128 : Wrappers W
  rsgx_cmac128 = record {
    init = rsgx_cmac128_init;
    update_msg = rsgx_cmac128_update_msg;
    update_slice = rsgx_cmac128_update_slice;
    get_hash = rsgx_cmac128_final;
    close = rsgx_cmac128_close;
  }

  abbrev pub sgx_cmac_handle : HandleMethods W
  sgx_cmac_handle = methods rsgx_cmac128

  -- The aligned tag holds the same bytes.
  unfoldable pub sgx_cmac_handle_get_align_hash : Handle → W → Outcome W (List ℕ)
  sgx_cmac_handle_get_align_hash h w =
      let (ret, align_hash, w') = rsgx_cmac128.get_hash h.handle w in
      if h.initflag
      then record { result = from_status ret align_hash; this = h; world = w' }
      else record { result = err sgx_error_invalid_state; this = h; world = w }
