-- ===== src/Tcrypto/OneCall.antt =====
-- The hashes and MACs of sgx-tcrypto/src/crypto.rs: what the wrappers of each algorithm keep of the
-- library's behaviour, and that a handle gives in pieces what the one call gives.
pub mod Macs
use sgx_sdk_rs.Base.{ℕ, ◌≤◌, ◌<◌, ◌≡◌, ◌∙◌, sym, List, [], length, u32_max}
use sgx_sdk_rs.Tcrypto.Context.{ContextLib}
use sgx_sdk_rs.Tcrypto.Context.Spec.{IsContext, IsContextLib, NeverRefuses, IsWrappers}
use sgx_sdk_rs.Tcrypto.Context.Limits.{limited-IsUpdate, limited-absorbs, limited_msg-tag}
use sgx_sdk_rs.Tcrypto.Context.Pieces.{
  AllShort, AllFilled, Succeeds, concat, hash_pieces, hash_pieces-tag,
}
use sgx_sdk_rs.Tcrypto.Sha256.{
  rsgx_sha256, rsgx_sha256_init, rsgx_sha256_update_msg, rsgx_sha256_update_slice,
  rsgx_sha256_get_hash, rsgx_sha256_close, rsgx_sha256_slice,
}
use sgx_sdk_rs.Tcrypto.Sha384.{
  rsgx_sha384, rsgx_sha384_init, rsgx_sha384_update_msg, rsgx_sha384_update_slice,
  rsgx_sha384_get_hash, rsgx_sha384_close, rsgx_sha384_slice,
}
use sgx_sdk_rs.Tcrypto.Sha1.{
  rsgx_sha1, rsgx_sha1_init, rsgx_sha1_update_msg, rsgx_sha1_update_slice, rsgx_sha1_get_hash,
  rsgx_sha1_close, rsgx_sha1_slice,
}
use sgx_sdk_rs.Tcrypto.Cmac.{
  rsgx_cmac128, rsgx_cmac128_init, rsgx_cmac128_update_msg, rsgx_cmac128_update_slice,
  rsgx_cmac128_final, rsgx_cmac128_close, rsgx_rijndael128_cmac_slice,
}
use sgx_sdk_rs.Tcrypto.Hmac.{
  rsgx_hmac256, rsgx_hmac256_init, rsgx_hmac256_update_msg, rsgx_hmac256_update_slice,
  rsgx_hmac256_final, rsgx_hmac256_close, rsgx_hmac_sha256_slice,
}

module _ {W : Type 0} (lib : ContextLib W) {bound : ℕ} (laws : IsContextLib lib bound) where
  open laws use {view, tag, context}
  open laws.context use {init_opens, init_fails, final_keeps, final_tag, close_frees, close_fails}

  unkeyed : IsContext view tag (λ _. []) (λ _ w. lib.init [] w) lib.final lib.close
  unkeyed = record {
    init_opens = λ _ w. init_opens [] w;
    init_fails = λ _ w. init_fails [] w;
    final_keeps = final_keeps;
    final_tag = final_tag;
    close_frees = close_frees;
    close_fails = close_fails;
  }

  pub rsgx_sha256-IsWrappers : IsWrappers (rsgx_sha256 lib) bound
  unfolding rsgx_sha256_init rsgx_sha256_update_msg rsgx_sha256_update_slice rsgx_sha256_get_hash
      rsgx_sha256_close
  rsgx_sha256-IsWrappers = record {
    view = view;
    tag = tag;
    key_of = λ _. [];
    context = unkeyed;
    msg = limited-IsUpdate lib laws;
    slice = limited-IsUpdate lib laws;
  }

  pub rsgx_sha384-IsWrappers : IsWrappers (rsgx_sha384 lib) bound
  unfolding rsgx_sha384_init rsgx_sha384_update_msg rsgx_sha384_update_slice rsgx_sha384_get_hash
      rsgx_sha384_close
  rsgx_sha384-IsWrappers = record {
    view = view;
    tag = tag;
    key_of = λ _. [];
    context = unkeyed;
    msg = limited-IsUpdate lib laws;
    slice = limited-IsUpdate lib laws;
  }

  pub rsgx_sha1-IsWrappers : IsWrappers (rsgx_sha1 lib) bound
  unfolding rsgx_sha1_init rsgx_sha1_update_msg rsgx_sha1_update_slice rsgx_sha1_get_hash
      rsgx_sha1_close
  rsgx_sha1-IsWrappers = record {
    view = view;
    tag = tag;
    key_of = λ _. [];
    context = unkeyed;
    msg = limited-IsUpdate lib laws;
    slice = limited-IsUpdate lib laws;
  }

  pub rsgx_cmac128-IsWrappers : IsWrappers (rsgx_cmac128 lib) bound
  unfolding rsgx_cmac128_init rsgx_cmac128_update_msg rsgx_cmac128_update_slice rsgx_cmac128_final
      rsgx_cmac128_close
  rsgx_cmac128-IsWrappers = record {
    view = view;
    tag = tag;
    key_of = λ key. key;
    context = context;
    msg = limited-IsUpdate lib laws;
    slice = limited-IsUpdate lib laws;
  }

  pub rsgx_hmac256-IsWrappers : IsWrappers (rsgx_hmac256 lib) bound
  unfolding rsgx_hmac256_init rsgx_hmac256_update_msg rsgx_hmac256_update_slice rsgx_hmac256_final
      rsgx_hmac256_close
  rsgx_hmac256-IsWrappers = record {
    view = view;
    tag = tag;
    key_of = λ key. key;
    context = context;
    msg = limited-IsUpdate lib laws;
    slice = limited-IsUpdate lib laws;
  }

  module _ (fits : bound ≤ u32_max) (never : NeverRefuses laws) where
    rsgx_sha256-Succeeds : Succeeds (rsgx_sha256 lib) rsgx_sha256-IsWrappers
    unfolding rsgx_sha256_init rsgx_sha256_update_slice rsgx_sha256_get_hash rsgx_sha256-IsWrappers
    rsgx_sha256-Succeeds = record {
      opens = λ _ w. never.opens [] w;
      absorbs = limited-absorbs lib laws fits never;
      finishes = never.finishes;
    }

    -- Where the library behaves as documented and never refuses: SHA256 of pieces of 1 to `bound`
    -- bytes each, fed one by one to a new `SgxShaHandle`, is what `rsgx_sha256_slice` gives for all of
    -- them at once, if that is 1 to `bound` bytes too.
    pub sgx_sha_handle-rsgx_sha256_slice :
        (pieces : List (List ℕ)) (w : W)
        → AllShort bound pieces
        → AllFilled pieces
        → 0 < length (concat pieces)
        → length (concat pieces) ≤ bound
        → hash_pieces (rsgx_sha256 lib) [] pieces w ≡ rsgx_sha256_slice lib (concat pieces)
    unfolding rsgx_sha256_slice rsgx_sha256-IsWrappers
    sgx_sha_handle-rsgx_sha256_slice pieces w short filled some_text fits_all =
        hash_pieces-tag (rsgx_sha256 lib) rsgx_sha256-IsWrappers rsgx_sha256-Succeeds [] pieces w
          short filled
        ∙ sym (limited_msg-tag lib laws fits never [] (concat pieces) some_text fits_all)

    rsgx_sha384-Succeeds : Succeeds (rsgx_sha384 lib) rsgx_sha384-IsWrappers
    unfolding rsgx_sha384_init rsgx_sha384_update_slice rsgx_sha384_get_hash rsgx_sha384-IsWrappers
    rsgx_sha384-Succeeds = record {
      opens = λ _ w. never.opens [] w;
      absorbs = limited-absorbs lib laws fits never;
      finishes = never.finishes;
    }

    -- Where the library behaves as documented and never refuses: SHA384 of pieces of 1 to `bound`
    -- bytes each, fed one by one to a new `SgxSha384Handle`, is what `rsgx_sha384_slice` gives for all of
    -- them at once, if that is 1 to `bound` bytes too.
    pub sgx_sha384_handle-rsgx_sha384_slice :
        (pieces : List (List ℕ)) (w : W)
        → AllShort bound pieces
        → AllFilled pieces
        → 0 < length (concat pieces)
        → length (concat pieces) ≤ bound
        → hash_pieces (rsgx_sha384 lib) [] pieces w ≡ rsgx_sha384_slice lib (concat pieces)
    unfolding rsgx_sha384_slice rsgx_sha384-IsWrappers
    sgx_sha384_handle-rsgx_sha384_slice pieces w short filled some_text fits_all =
        hash_pieces-tag (rsgx_sha384 lib) rsgx_sha384-IsWrappers rsgx_sha384-Succeeds [] pieces w
          short filled
        ∙ sym (limited_msg-tag lib laws fits never [] (concat pieces) some_text fits_all)

    rsgx_sha1-Succeeds : Succeeds (rsgx_sha1 lib) rsgx_sha1-IsWrappers
    unfolding rsgx_sha1_init rsgx_sha1_update_slice rsgx_sha1_get_hash rsgx_sha1-IsWrappers
    rsgx_sha1-Succeeds = record {
      opens = λ _ w. never.opens [] w;
      absorbs = limited-absorbs lib laws fits never;
      finishes = never.finishes;
    }

    -- Where the library behaves as documented and never refuses: SHA1 of pieces of 1 to `bound`
    -- bytes each, fed one by one to a new `SgxSha1Handle`, is what `rsgx_sha1_slice` gives for all of
    -- them at once, if that is 1 to `bound` bytes too.
    pub sgx_sha1_handle-rsgx_sha1_slice :
        (pieces : List (List ℕ)) (w : W)
        → AllShort bound pieces
        → AllFilled pieces
        → 0 < length (concat pieces)
        → length (concat pieces) ≤ bound
        → hash_pieces (rsgx_sha1 lib) [] pieces w ≡ rsgx_sha1_slice lib (concat pieces)
    unfolding rsgx_sha1_slice rsgx_sha1-IsWrappers
    sgx_sha1_handle-rsgx_sha1_slice pieces w short filled some_text fits_all =
        hash_pieces-tag (rsgx_sha1 lib) rsgx_sha1-IsWrappers rsgx_sha1-Succeeds [] pieces w short
          filled
        ∙ sym (limited_msg-tag lib laws fits never [] (concat pieces) some_text fits_all)

    -- Where the library behaves as documented and never refuses: SHA256, SHA384 and SHA1 of pieces of 1
    -- to `bound` bytes each, fed one by one to a new `SgxShaHandle`, `SgxSha384Handle` or
    -- `SgxSha1Handle`, are what `rsgx_sha256_slice`, `rsgx_sha384_slice` and `rsgx_sha1_slice` give for
    -- all of them at once, if that is 1 to `bound` bytes too.
    pub sgx_sha_handles-one_call :
        (pieces : List (List ℕ)) (w : W)
        → AllShort bound pieces
        → AllFilled pieces
        → 0 < length (concat pieces)
        → length (concat pieces) ≤ bound
        → (hash_pieces (rsgx_sha256 lib) [] pieces w ≡ rsgx_sha256_slice lib (concat pieces))
          × (hash_pieces (rsgx_sha384 lib) [] pieces w ≡ rsgx_sha384_slice lib (concat pieces))
          × (hash_pieces (rsgx_sha1 lib) [] pieces w ≡ rsgx_sha1_slice lib (concat pieces))
    sgx_sha_handles-one_call pieces w short filled some_text fits_all = (
      sgx_sha_handle-rsgx_sha256_slice pieces w short filled some_text fits_all,
      sgx_sha384_handle-rsgx_sha384_slice pieces w short filled some_text fits_all,
      sgx_sha1_handle-rsgx_sha1_slice pieces w short filled some_text fits_all,
    )
