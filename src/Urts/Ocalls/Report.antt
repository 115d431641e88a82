-- ===== src/Urts/Ocalls/Report.antt =====
-- sgx-urts/src: how the calls out of the enclave tell the enclave of an error.
use sgx_sdk_rs.Base.{ℕ, ◌+◌, ◌-◌, ◌^◌, Bool, leb, ◌==◌, if◌then◌else◌}
use sgx_sdk_rs.Urts.Libc.{Call, Libc}

-- `ret < 0` on an `i32` and on an `i64`.
abbrev pub negative32 : ℕ → Bool
negative32 v = leb (2 ^ 31) v

abbrev pub negative64 : ℕ → Bool
negative64 v = leb (2 ^ 63) v

-- `ret.is_null()`, and `ret == 0` on an `i32`.
abbrev pub is_null : ℕ → Bool
is_null v = v == 0

-- `ret as isize == -1`
abbrev pub is_map_failed : ℕ → Bool
is_map_failed v = v == 2 ^ 64 - 1

-- `ret == libc::EAI_SYSTEM`
abbrev pub is_eai_system : ℕ → Bool
is_eai_system v = v == 2 ^ 32 - 11

-- `x as c_ulong` on a `c_int`.
abbrev pub sign_extend : ℕ → ℕ
sign_extend v = if leb (2 ^ 31) v then v + (2 ^ 64 - 2 ^ 32) else v

module _ {W : Type 0} (libc : Libc W) where
  -- `if !error.is_null() { *error = errno; }`
  unfoldable pub store_error : ℕ → ℕ → W → W
  store_error error errno w = if error == 0 then w else libc.write_int error errno w

  -- The call, the test of its value, and what the enclave is told.
  unfoldable pub report : (ℕ → Bool) → Call → ℕ → W → ℕ × W
  unfolding store_error
  report failed c error w =
      let answer = libc.call c w in
      let errno = if failed answer.value then answer.errno else 0 in
      (answer.value, store_error error errno answer.world)
