-- ===== src/Urts/Ocalls/Tests.antt =====
-- A C library of which every call fails, one that knows a user, and the theorems there.
use sgx_sdk_rs.Base.{ℕ, ◌≡◌, ◌≢◌, ◌⊎◌, inl, inr, refl, arith, List, [], ◌∷◌}
use sgx_sdk_rs.Urts.Libc.{read, Libc, Kind, failure, kind, IsValue, IsLibc}
use sgx_sdk_rs.Urts.Ocalls.Told.{Told}
use sgx_sdk_rs.Urts.Ocalls.Descriptors.{u_read_ocall}
use sgx_sdk_rs.Urts.Ocalls.Descriptors.Calls.{DescriptorOcall}
use sgx_sdk_rs.Urts.Ocalls.Errno.{Ocall, ocalls-Told}
use sgx_sdk_rs.Urts.Ocalls.Passwd.{
  Passwd, PasswdLib, StringsTold, u_getpwuid_r_ocall, u_getpwuid_r_ocall_lem,
}

failure-IsValue : (k : Kind) → IsValue k (failure k)
failure-IsValue Kind.minus_one_int = omega arith
failure-IsValue Kind.minus_one_word = omega arith
failure-IsValue Kind.null_pointer = omega arith
failure-IsValue Kind.map_failed = omega arith
failure-IsValue Kind.zero_int = omega arith
failure-IsValue Kind.eai_system = omega arith

-- Every call fails with EBADF. The state is what was written, the last value first.
abbrev toy_libc : Libc (List (ℕ × ℕ))
toy_libc = record {
  call = λ c w. record { value = failure (kind c); errno = 9; world = w };
  write_int = λ p v w. (p, v) ∷ w;
  write_word = λ p v w. (p, v) ∷ w;
}

toy_IsLibc : IsLibc toy_libc
toy_IsLibc = record { values = λ c w. failure-IsValue (kind c) }

ocalls-Told_example :
    Told toy_libc
      (read 3 4096 16)
      0x500
      (toy_libc.call (read 3 4096 16) [])
      (u_read_ocall toy_libc 0x500 3 4096 16 [])
ocalls-Told_example =
    ocalls-Told toy_libc toy_IsLibc (λ w. w) (read 3 4096 16)
      (λ error. u_read_ocall toy_libc error 3 4096 16)
      (Ocall.descriptor (DescriptorOcall.calls_read 3 4096 16)) 0x500 []

-- One user; the name and the shell lie in the buffer.
abbrev root : Passwd
root = record {
  pw_name = 0x1000;
  pw_passwd = 0;
  pw_uid = 0;
  pw_gid = 0;
  pw_gecos = 0;
  pw_dir = 0x1005;
  pw_shell = 0x100b;
}

abbrev toy_passwd : PasswdLib Passwd
toy_passwd = record {
  getpwuid_r = λ uid pwd buf buflen result w. (0, root);
  read_word = λ p w. 0x2000;
  read_passwd = λ p w. w;
  write_passwd = λ p e w. e;
}

u_getpwuid_r_ocall_lem_example :
    ((u_getpwuid_r_ocall toy_passwd 0 0x2000 0x1000 64 0x3000 root ≡ (0, root))
      × ((◌≢◌ {A = ℕ} 0 0) ⊎ (◌≡◌ {A = ℕ} 0x2000 0)))
    ⊎ ((told : Passwd) × (u_getpwuid_r_ocall toy_passwd 0 0x2000 0x1000 64 0x3000 root ≡ (0, told))
        × (◌≡◌ {A = ℕ} 0 0)
        × (◌≢◌ {A = ℕ} 0x2000 0)
        × StringsTold 0x1000 64 root told)
u_getpwuid_r_ocall_lem_example =
    u_getpwuid_r_ocall_lem toy_passwd 0 0x2000 0x1000 64 0x3000 root (omega arith) (omega arith)
      (λ _ _. (inr (omega arith), inl refl, inl refl, inr (omega arith), inr (omega arith)))
