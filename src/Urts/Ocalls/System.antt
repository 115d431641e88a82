-- ===== src/Urts/Ocalls/System.antt =====
-- sgx-urts/src/env.rs, mem.rs, sys.rs, thread.rs and time.rs: the calls out of the enclave on the process.
pub mod Errors
use sgx_sdk_rs.Base.{ℕ}
use sgx_sdk_rs.Urts.Libc.{
  Libc, chdir, clock_gettime, getcwd, malloc, mmap, mprotect, msync, munmap, nanosleep, prctl,
  sched_getaffinity, sched_setaffinity, sched_yield, setenv, sysconf, unsetenv,
}
use sgx_sdk_rs.Urts.Ocalls.Report.{report, is_map_failed, is_null, negative32, negative64}

module _ {W : Type 0} (libc : Libc W) where
  unfoldable pub u_setenv_ocall : ℕ → ℕ → ℕ → ℕ → W → ℕ × W
  u_setenv_ocall error name value overwrite =
      report libc negative32 (setenv name value overwrite) error

  unfoldable pub u_unsetenv_ocall : ℕ → ℕ → W → ℕ × W
  u_unsetenv_ocall error name = report libc negative32 (unsetenv name) error

  unfoldable pub u_getcwd_ocall : ℕ → ℕ → ℕ → W → ℕ × W
  u_getcwd_ocall error buf size = report libc is_null (getcwd buf size) error

  unfoldable pub u_chdir_ocall : ℕ → ℕ → W → ℕ × W
  u_chdir_ocall error dir = report libc negative32 (chdir dir) error

  unfoldable pub u_malloc_ocall : ℕ → ℕ → W → ℕ × W
  u_malloc_ocall error size = report libc is_null (malloc size) error

  unfoldable pub u_mmap_ocall : ℕ → ℕ → ℕ → ℕ → ℕ → ℕ → ℕ → W → ℕ × W
  u_mmap_ocall error start length prot flags fd offset =
      report libc is_map_failed (mmap start length prot flags fd offset) error

  unfoldable pub u_munmap_ocall : ℕ → ℕ → ℕ → W → ℕ × W
  u_munmap_ocall error start length = report libc negative32 (munmap start length) error

  unfoldable pub u_msync_ocall : ℕ → ℕ → ℕ → ℕ → W → ℕ × W
  u_msync_ocall error addr length flags = report libc negative32 (msync addr length flags) error

  unfoldable pub u_mprotect_ocall : ℕ → ℕ → ℕ → ℕ → W → ℕ × W
  u_mprotect_ocall error addr length prot = report libc negative32 (mprotect addr length prot) error

  unfoldable pub u_sysconf_ocall : ℕ → ℕ → W → ℕ × W
  u_sysconf_ocall error name = report libc negative64 (sysconf name) error

  unfoldable pub u_prctl_ocall : ℕ → ℕ → ℕ → ℕ → ℕ → ℕ → W → ℕ × W
  u_prctl_ocall error option arg2 arg3 arg4 arg5 =
      report libc negative32 (prctl option arg2 arg3 arg4 arg5) error

  unfoldable pub u_sched_setaffinity_ocall : ℕ → ℕ → ℕ → ℕ → W → ℕ × W
  u_sched_setaffinity_ocall error pid cpusetsize mask =
      report libc negative32 (sched_setaffinity pid cpusetsize mask) error

  unfoldable pub u_sched_getaffinity_ocall : ℕ → ℕ → ℕ → ℕ → W → ℕ × W
  u_sched_getaffinity_ocall error pid cpusetsize mask =
      report libc negative32 (sched_getaffinity pid cpusetsize mask) error

  unfoldable pub u_sched_yield_ocall : ℕ → W → ℕ × W
  u_sched_yield_ocall error = report libc negative32 sched_yield error

  unfoldable pub u_nanosleep_ocall : ℕ → ℕ → ℕ → W → ℕ × W
  u_nanosleep_ocall error rqtp rmtp = report libc negative32 (nanosleep rqtp rmtp) error

  unfoldable pub u_clock_gettime_ocall : ℕ → ℕ → ℕ → W → ℕ × W
  u_clock_gettime_ocall error clk_id tp = report libc negative32 (clock_gettime clk_id tp) error
