-- ===== src/Tse.antt =====
-- sgx-tse/src/se.rs: the wrappers of the trusted service library that the sealing code calls.
use sgx_sdk_rs.Base.{ℕ, List, SgxStatus, Result, from_status}
use sgx_sdk_rs.Types.{KeyRequest, ReportBody}

-- What the Intel library gives: the status of a key request with the key that it wrote, and the
-- enclave's report on itself.
pub record TseLib : Type 0 where
  pub sgx_get_key : KeyRequest → SgxStatus × List ℕ
  pub sgx_self_report : ReportBody

module _ (tse : TseLib) where
  unfoldable pub rsgx_get_key : KeyRequest → Result (List ℕ)
  rsgx_get_key key_request = let (ret, key) = tse.sgx_get_key key_request in from_status ret key

  -- The key in a struct that is aligned; its content is that of `rsgx_get_key`.
  unfoldable pub rsgx_get_align_key : KeyRequest → Result (List ℕ)
  rsgx_get_align_key key_request =
      let (ret, key) = tse.sgx_get_key key_request in from_status ret key

  unfoldable pub rsgx_self_report : ReportBody
  rsgx_self_report = tse.sgx_self_report
