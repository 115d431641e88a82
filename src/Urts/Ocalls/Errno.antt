-- ===== src/Urts/Ocalls/Errno.antt =====
-- sgx-urts/src: every call out of the enclave that reports an error.
use sgx_sdk_rs.Base.{ℕ}
use sgx_sdk_rs.Urts.Libc.{Call, Libc, IsLibc}
use sgx_sdk_rs.Urts.Ocalls.Told.{Told}
use sgx_sdk_rs.Urts.Ocalls.Descriptors.Calls.{DescriptorOcall}
use sgx_sdk_rs.Urts.Ocalls.Descriptors.Errors.{DescriptorOcall-Told}
use sgx_sdk_rs.Urts.Ocalls.Files.Calls.{FileOcall}
use sgx_sdk_rs.Urts.Ocalls.Files.Errors.{FileOcall-Told}
use sgx_sdk_rs.Urts.Ocalls.Sockets.Errors.{SocketOcall, SocketOcall-Told}
use sgx_sdk_rs.Urts.Ocalls.System.Errors.{SystemOcall, SystemOcall-Told}

module _ {W : Type 0} (libc : Libc W) where
  pub data Ocall (before : W → W) (c : Call) (run : ℕ → W → ℕ × W) : Type 0 where
    descriptor : DescriptorOcall libc before c run → Ocall before c run
    file : FileOcall libc before c run → Ocall before c run
    socket : SocketOcall libc before c run → Ocall before c run
    system : SystemOcall libc before c run → Ocall before c run

  -- For each of the 93 calls out of the enclave that report an error, and a C library whose
  -- functions give values of their C types: the value is that of the function named, called after
  -- the length has been copied where there is one to copy. Behind a null pointer for the error
  -- nothing is stored and the state is as that function left it. Behind any other pointer is stored
  -- `errno` if the value is the one by which this function says that it failed, 0 if it is any other
  -- value that is not negative (any other value at all, for a function that does not say -1), and
  -- `errno` again if it is negative but not -1.
  pub ocalls-Told :
      IsLibc libc
      → (before : W → W) (c : Call) (run : ℕ → W → ℕ × W) → Ocall before c run
      → (error : ℕ) (w : W) → Told libc c error (libc.call c (before w)) (run error w)
  ocalls-Told laws before c run (descriptor o) = DescriptorOcall-Told libc laws before c run o
  ocalls-Told laws before c run (file o) = FileOcall-Told libc laws before c run o
  ocalls-Told laws before c run (socket o) = SocketOcall-Told libc laws before c run o
  ocalls-Told laws before c run (system o) = SystemOcall-Told libc laws before c run o
