-- ===== src/Urts/Ocalls/System/Errors.antt =====
-- sgx-urts/src/env.rs, mem.rs, sys.rs, thread.rs and time.rs:
-- what the calls out of the enclave on the process tell of an error.
use sgx_sdk_rs.Base.{ℕ}
use sgx_sdk_rs.Urts.Libc.{
  Call, Libc, IsLibc, chdir, clock_gettime, getcwd, malloc, mmap, mprotect, msync, munmap,
  nanosleep, prctl, sched_getaffinity, sched_setaffinity, sched_yield, setenv, sysconf, unsetenv,
}
use sgx_sdk_rs.Urts.Ocalls.Report.{is_map_failed, is_null, negative32, negative64}
use sgx_sdk_rs.Urts.Ocalls.Told.{
  Told, report-Told, is_map_failed-Takes, is_null-Takes, negative32-Takes, negative64-Takes,
}
use sgx_sdk_rs.Urts.Ocalls.System.{
  u_setenv_ocall, u_unsetenv_ocall, u_getcwd_ocall, u_chdir_ocall, u_malloc_ocall, u_mmap_ocall,
  u_munmap_ocall, u_msync_ocall, u_mprotect_ocall, u_sysconf_ocall, u_prctl_ocall,
  u_sched_setaffinity_ocall, u_sched_getaffinity_ocall, u_sched_yield_ocall, u_nanosleep_ocall,
  u_clock_gettime_ocall,
}

module _ {W : Type 0} (libc : Libc W) where
  -- What is done first, the function that is called, and the call out of the enclave as a function of
  -- the pointer for the error and the state.
  pub data SystemOcall : (W → W) → Call → (ℕ → W → ℕ × W) → Type 0 where
    calls_setenv :
        (name value overwrite : ℕ)
        → SystemOcall
            (λ w. w)
            (setenv name value overwrite)
            (λ error. u_setenv_ocall libc error name value overwrite)
    calls_unsetenv :
        (name : ℕ)
        → SystemOcall (λ w. w) (unsetenv name) (λ error. u_unsetenv_ocall libc error name)
    calls_getcwd :
        (buf size : ℕ)
        → SystemOcall (λ w. w) (getcwd buf size) (λ error. u_getcwd_ocall libc error buf size)
    calls_chdir :
        (dir : ℕ) → SystemOcall (λ w. w) (chdir dir) (λ error. u_chdir_ocall libc error dir)
    calls_malloc :
        (size : ℕ) → SystemOcall (λ w. w) (malloc size) (λ error. u_malloc_ocall libc error size)
    calls_mmap :
        (start length prot flags fd offset : ℕ)
        → SystemOcall
            (λ w. w)
            (mmap start length prot flags fd offset)
            (λ error. u_mmap_ocall libc error start length prot flags fd offset)
    calls_munmap :
        (start length : ℕ)
        → SystemOcall
            (λ w. w)
            (munmap start length)
            (λ error. u_munmap_ocall libc error start length)
    calls_msync :
        (addr length flags : ℕ)
        → SystemOcall
            (λ w. w)
            (msync addr length flags)
            (λ error. u_msync_ocall libc error addr length flags)
    calls_mprotect :
        (addr length prot : ℕ)
        → SystemOcall
            (λ w. w)
            (mprotect addr length prot)
            (λ error. u_mprotect_ocall libc error addr length prot)
    calls_sysconf :
        (name : ℕ) → SystemOcall (λ w. w) (sysconf name) (λ error. u_sysconf_ocall libc error name)
    calls_prctl :
        (option arg2 arg3 arg4 arg5 : ℕ)
        → SystemOcall
            (λ w. w)
            (prctl option arg2 arg3 arg4 arg5)
            (λ error. u_prctl_ocall libc error option arg2 arg3 arg4 arg5)
    calls_sched_setaffinity :
        (pid cpusetsize mask : ℕ)
        → SystemOcall
            (λ w. w)
            (sched_setaffinity pid cpusetsize mask)
            (λ error. u_sched_setaffinity_ocall libc error pid cpusetsize mask)
    calls_sched_getaffinity :
        (pid cpusetsize mask : ℕ)
        → SystemOcall
            (λ w. w)
            (sched_getaffinity pid cpusetsize mask)
            (λ error. u_sched_getaffinity_ocall libc error pid cpusetsize mask)
    calls_sched_yield : SystemOcall (λ w. w) sched_yield (λ error. u_sched_yield_ocall libc error)
    calls_nanosleep :
        (rqtp rmtp : ℕ)
        → SystemOcall
            (λ w. w)
            (nanosleep rqtp rmtp)
            (λ error. u_nanosleep_ocall libc error rqtp rmtp)
    calls_clock_gettime :
        (clk_id tp : ℕ)
        → SystemOcall
            (λ w. w)
            (clock_gettime clk_id tp)
            (λ error. u_clock_gettime_ocall libc error clk_id tp)

  pub SystemOcall-Told :
      IsLibc libc
      → (before : W → W) (c : Call) (run : ℕ → W → ℕ × W) → SystemOcall before c run
      → (error : ℕ) (w : W) → Told libc c error (libc.call c (before w)) (run error w)
  unfolding u_setenv_ocall u_unsetenv_ocall u_getcwd_ocall u_chdir_ocall u_malloc_ocall u_mmap_ocall
      u_munmap_ocall u_msync_ocall u_mprotect_ocall u_sysconf_ocall u_prctl_ocall
      u_sched_setaffinity_ocall u_sched_getaffinity_ocall u_sched_yield_ocall u_nanosleep_ocall
      u_clock_gettime_ocall
  SystemOcall-Told laws _ _ _ (SystemOcall.calls_setenv name value overwrite) = λ error w.
      report-Told libc laws negative32 (setenv name value overwrite) error w negative32-Takes
  SystemOcall-Told laws _ _ _ (SystemOcall.calls_unsetenv name) =
      λ error w. report-Told libc laws negative32 (unsetenv name) error w negative32-Takes
  SystemOcall-Told laws _ _ _ (SystemOcall.calls_getcwd buf size) =
      λ error w. report-Told libc laws is_null (getcwd buf size) error w is_null-Takes
  SystemOcall-Told laws _ _ _ (SystemOcall.calls_chdir dir) =
      λ error w. report-Told libc laws negative32 (chdir dir) error w negative32-Takes
  SystemOcall-Told laws _ _ _ (SystemOcall.calls_malloc size) =
      λ error w. report-Told libc laws is_null (malloc size) error w is_null-Takes
  SystemOcall-Told laws _ _ _ (SystemOcall.calls_mmap start length prot flags fd offset) =
      λ error w.
        report-Told libc laws is_map_failed (mmap start length prot flags fd offset) error w
          is_map_failed-Takes
  SystemOcall-Told laws _ _ _ (SystemOcall.calls_munmap start length) =
      λ error w. report-Told libc laws negative32 (munmap start length) error w negative32-Takes
  SystemOcall-Told laws _ _ _ (SystemOcall.calls_msync addr length flags) =
      λ error w. report-Told libc laws negative32 (msync addr length flags) error w negative32-Takes
  SystemOcall-Told laws _ _ _ (SystemOcall.calls_mprotect addr length prot) = λ error w.
      report-Told libc laws negative32 (mprotect addr length prot) error w negative32-Takes
  SystemOcall-Told laws _ _ _ (SystemOcall.calls_sysconf name) =
      λ error w. report-Told libc laws negative64 (sysconf name) error w negative64-Takes
  SystemOcall-Told laws _ _ _ (SystemOcall.calls_prctl option arg2 arg3 arg4 arg5) = λ error w.
      report-Told libc laws negative32 (prctl option arg2 arg3 arg4 arg5) error w negative32-Takes
  SystemOcall-Told laws _ _ _ (SystemOcall.calls_sched_setaffinity pid cpusetsize mask) = λ error w.
      report-Told libc laws negative32 (sched_setaffinity pid cpusetsize mask) error w
        negative32-Takes
  SystemOcall-Told laws _ _ _ (SystemOcall.calls_sched_getaffinity pid cpusetsize mask) = λ error w.
      report-Told libc laws negative32 (sched_getaffinity pid cpusetsize mask) error w
        negative32-Takes
  SystemOcall-Told laws _ _ _ SystemOcall.calls_sched_yield =
      λ error w. report-Told libc laws negative32 sched_yield error w negative32-Takes
  SystemOcall-Told laws _ _ _ (SystemOcall.calls_nanosleep rqtp rmtp) =
      λ error w. report-Told libc laws negative32 (nanosleep rqtp rmtp) error w negative32-Takes
  SystemOcall-Told laws _ _ _ (SystemOcall.calls_clock_gettime clk_id tp) =
      λ error w. report-Told libc laws negative32 (clock_gettime clk_id tp) error w negative32-Takes
