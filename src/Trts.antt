-- ===== src/Trts.antt =====
-- sgx-trts/src/trts.rs: the wrappers that the sealing code calls. The functions of the Intel
-- trusted runtime that they call are the fields of `TrtsLib`.
pub mod Memeq
pub mod Tcs
use sgx_sdk_rs.Base.{ℕ, List, Bool, not, ◌==◌, length, SgxStatus, Result, from_status}

-- An address is a number; a C `int` that is only compared with 0 is a number too.
-- `sgx_read_rand n` is the status with the bytes that the call left in a buffer of `n` bytes.
pub record TrtsLib : Type 0 where
  pub sgx_is_within_enclave : ℕ → ℕ → ℕ
  pub sgx_is_outside_enclave : ℕ → ℕ → ℕ
  pub sgx_read_rand : ℕ → SgxStatus × List ℕ

-- A borrowed slice of bytes: where it is and what it holds.
pub record Slice : Type 0 where
  pub addr : ℕ
  pub bytes : List ℕ

pub record Filled : Type 0 where
  pub result : Result (Unit {0})
  pub rand : List ℕ

module _ (trts : TrtsLib) where
  unfoldable pub rsgx_raw_is_within_enclave : ℕ → ℕ → Bool
  rsgx_raw_is_within_enclave addr size = not (trts.sgx_is_within_enclave addr size == 0)

  unfoldable pub rsgx_slice_is_within_enclave : Slice → Bool
  unfolding rsgx_raw_is_within_enclave
  rsgx_slice_is_within_enclave s = rsgx_raw_is_within_enclave s.addr (length s.bytes)

  unfoldable pub rsgx_raw_is_outside_enclave : ℕ → ℕ → Bool
  rsgx_raw_is_outside_enclave addr size = not (trts.sgx_is_outside_enclave addr size == 0)

  unfoldable pub rsgx_slice_is_outside_enclave : Slice → Bool
  unfolding rsgx_raw_is_outside_enclave
  rsgx_slice_is_outside_enclave s = rsgx_raw_is_outside_enclave s.addr (length s.bytes)

  -- The buffer holds what the call wrote, whatever the status.
  unfoldable pub rsgx_read_rand : ℕ → Filled
  rsgx_read_rand size =
      let (ret, rand) = trts.sgx_read_rand size in
      record { result = from_status ret tt; rand = rand }
