-- ===== src/Tcrypto/OneCall/Macs.antt =====
-- The MACs of sgx-tcrypto/src/crypto.rs in pieces and in one call.
use sgx_sdk_rs.Base.{ℕ, ◌≤◌, ◌<◌, ◌≡◌, ◌∙◌, sym, List, length, u32_max}
use sgx_sdk_rs.Tcrypto.Context.{ContextLib}
use sgx_sdk_rs.Tcrypto.Context.Spec.{IsContextLib, NeverRefuses}
use sgx_sdk_rs.Tcrypto.Context.Limits.{limited-absorbs, limited_msg-tag}
use sgx_sdk_rs.Tcrypto.Context.Pieces.{
  AllShort, AllFilled, Succeeds, concat, hash_pieces, hash_pieces-tag,
}
use sgx_sdk_rs.Tcrypto.Cmac.{
  rsgx_cmac128, rsgx_cmac128_init, rsgx_cmac128_update_slice, rsgx_cmac128_final,
  rsgx_rijndael128_cmac_slice,
}
use sgx_sdk_rs.Tcrypto.Hmac.{
  rsgx_hmac256, rsgx_hmac256_init, rsgx_hmac256_update_slice, rsgx_hmac256_final,
  rsgx_hmac_sha256_slice,
}
use sgx_sdk_rs.Tcrypto.OneCall.{rsgx_cmac128-IsWrappers, rsgx_hmac256-IsWrappers}

module _ {W : Type 0} (lib : ContextLib W) {bound : ℕ} (laws : IsContextLib lib bound)
    (fits : bound ≤ u32_max) (never : NeverRefuses laws) where
  rsgx_cmac128-Succeeds : Succeeds (rsgx_cmac128 lib) (rsgx_cmac128-IsWrappers lib laws)
  unfolding rsgx_cmac128_init rsgx_cmac128_update_slice rsgx_cmac128_final rsgx_cmac128-IsWrappers
  rsgx_cmac128-Succeeds = record {
    opens = never.opens;
    absorbs = limited-absorbs lib laws fits never;
    finishes = never.finishes;
  }

  -- Where the library behaves as documented and never refuses: AES-CMAC of pieces of 1 to `bound`
  -- bytes each, fed one by one to a new `SgxCmacHandle`, is what `rsgx_rijndael128_cmac_slice` gives for all of
  -- them at once, if that is 1 to `bound` bytes too.
  pub sgx_cmac_handle-rsgx_rijndael128_cmac_slice :
      (key : List ℕ) (pieces : List (List ℕ)) (w : W)
      → AllShort bound pieces
      → AllFilled pieces
      → 0 < length (concat pieces)
      → length (concat pieces) ≤ bound
      → hash_pieces (rsgx_cmac128 lib) key pieces w
        ≡ rsgx_rijndael128_cmac_slice lib key (concat pieces)
  unfolding rsgx_rijndael128_cmac_slice rsgx_cmac128-IsWrappers
  sgx_cmac_handle-rsgx_rijndael128_cmac_slice key pieces w short filled some_text fits_all =
      hash_pieces-tag (rsgx_cmac128 lib) (rsgx_cmac128-IsWrappers lib laws) rsgx_cmac128-Succeeds
        key pieces w short filled
      ∙ sym (limited_msg-tag lib laws fits never key (concat pieces) some_text fits_all)

  rsgx_hmac256-Succeeds : Succeeds (rsgx_hmac256 lib) (rsgx_hmac256-IsWrappers lib laws)
  unfolding rsgx_hmac256_init rsgx_hmac256_update_slice rsgx_hmac256_final rsgx_hmac256-IsWrappers
  rsgx_hmac256-Succeeds = record {
    opens = never.opens;
    absorbs = limited-absorbs lib laws fits never;
    finishes = never.finishes;
  }

  -- Where the library behaves as documented and never refuses: HMAC-SHA256 of pieces of 1 to `bound`
  -- bytes each, fed one by one to a new `SgxHmacHandle`, is what `rsgx_hmac_sha256_slice` gives for all of
  -- them at once, if that is 1 to `bound` bytes too.
  pub sgx_hmac_handle-rsgx_hmac_sha256_slice :
      (key : List ℕ) (pieces : List (List ℕ)) (w : W)
      → AllShort bound pieces
      → AllFilled pieces
      → 0 < length (concat pieces)
      → length (concat pieces) ≤ bound
      → hash_pieces (rsgx_hmac256 lib) key pieces w ≡ rsgx_hmac_sha256_slice lib key (concat pieces)
  unfolding rsgx_hmac_sha256_slice rsgx_hmac256-IsWrappers
  sgx_hmac_handle-rsgx_hmac_sha256_slice key pieces w short filled some_text fits_all =
      hash_pieces-tag (rsgx_hmac256 lib) (rsgx_hmac256-IsWrappers lib laws) rsgx_hmac256-Succeeds
        key pieces w short filled
      ∙ sym (limited_msg-tag lib laws fits never key (concat pieces) some_text fits_all)

  -- Where the library behaves as documented and never refuses: AES-CMAC and HMAC-SHA256 of pieces of 1
  -- to `bound` bytes each, fed one by one to a new `SgxCmacHandle` or `SgxHmacHandle`, are what
  -- `rsgx_rijndael128_cmac_slice` and `rsgx_hmac_sha256_slice` give for all of them at once, if that is
  -- 1 to `bound` bytes too.
  pub mac_handles-one_call :
      (key : List ℕ) (pieces : List (List ℕ)) (w : W)
      → AllShort bound pieces
      → AllFilled pieces
      → 0 < length (concat pieces)
      → length (concat pieces) ≤ bound
      → (hash_pieces (rsgx_cmac128 lib) key pieces w
          ≡ rsgx_rijndael128_cmac_slice lib key (concat pieces))
        × (hash_pieces (rsgx_hmac256 lib) key pieces w
            ≡ rsgx_hmac_sha256_slice lib key (concat pieces))
  mac_handles-one_call key pieces w short filled some_text fits_all = (
    sgx_cmac_handle-rsgx_rijndael128_cmac_slice key pieces w short filled some_text fits_all,
    sgx_hmac_handle-rsgx_hmac_sha256_slice key pieces w short filled some_text fits_all,
  )
