-- ===== src/Tcrypto/Context/Limits.antt =====
-- The tests on an input's size in the wrappers of sgx-tcrypto/src/crypto.rs, and what is left of the
-- library's behaviour behind them.
use sgx_sdk_rs.Base.{
  ℕ, ◌%◌, ◌^◌, ◌≤◌, ◌<◌, ◌≡◌, ap, ◌++◌, arith, List, false, some, length, if◌then◌else◌, either,
  SgxStatus, Result, ok, err, from_status, sgx_success, sgx_error_invalid_parameter, u32_max,
}
use sgx_sdk_rs.Tcrypto.Context.{ContextLib, size_refused}
use sgx_sdk_rs.Tcrypto.Context.Spec.{
  Absorbed, with_context, with_context_kept, IsContextLib, NeverRefuses, IsUpdate,
}

module _ {W : Type 0} (lib : ContextLib W) where
  -- The body that the update wrappers share.
  abbrev pub limited : List ℕ → ℕ → W → SgxStatus × W
  limited src h w =
      if size_refused (length src)
      then (sgx_error_invalid_parameter, w)
      else lib.update src (length src % 2 ^ 32) h w

  -- And the one-call wrappers'.
  abbrev pub limited_msg : List ℕ → List ℕ → Result (List ℕ)
  limited_msg key src =
      let (ret, hash) = lib.msg key src (length src % 2 ^ 32) in
      if size_refused (length src) then err sgx_error_invalid_parameter else from_status ret hash

  not_refused : (n : ℕ) → size_refused n ≡ false → (0 < n) × (n % 2 ^ 32 ≡ n)
  not_refused n h = ground arith

  passes :
      {bound : ℕ} {n : ℕ}
      → bound ≤ u32_max
      → 0 < n
      → n ≤ bound
      → (size_refused n ≡ false) × (n % 2 ^ 32 ≡ n)
  passes fits filled short = ground (arith, fits, filled, short)

  module _ {bound : ℕ} (laws : IsContextLib lib bound) where
    open laws use {view, tag, update_keeps, update_appends, msg_tag}

    pub limited-IsUpdate : IsUpdate view bound limited
    limited-IsUpdate = record {
      keeps = λ src h w c at.
          either
            (λ (o : SgxStatus × W).
              (text : List ℕ) × (view o.1
                ≡ with_context (view w) h (some (record c { text = text }))))
            (size_refused (length src)) _ _
            (λ _. (c.text, with_context_kept (view w) h (some c) at))
            (λ _. update_keeps src (length src % 2 ^ 32) h w c at);
      appends = λ src h w c at short.
          either
            (λ (o : SgxStatus × W).
              o.0 ≡ sgx_success
              → view o.1 ≡ with_context (view w) h (some (record c { text = c.text ++ src })))
            (size_refused (length src)) _ _ (λ _ bad. absurd cc)
            (λ e. rw ((not_refused _ e).1) (update_appends src h w c at short));
    }

    module _ (fits : bound ≤ u32_max) (never : NeverRefuses laws) where
      pub limited-absorbs :
          (src : List ℕ) (h : ℕ) (w : W) (c : Absorbed)
          → view w h ≡ some c
          → 0 < length src
          → length src ≤ bound
          → (limited src h w).0 ≡ sgx_success
      limited-absorbs src h w c at filled short =
          rw ((passes fits filled short).0, (passes fits filled short).1)
            (never.absorbs src h w c at filled short)

      pub limited_msg-tag :
          (key src : List ℕ)
          → 0 < length src
          → length src ≤ bound
          → limited_msg key src ≡ ok (tag key src)
      limited_msg-tag key src filled short =
          let good = never.answers key src filled short in
          rw ((passes fits filled short).0, (passes fits filled short).1, good)
            (ap ok (msg_tag key src short good))
