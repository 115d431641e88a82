-- ===== src/Urts/Ocalls/Files.antt =====
-- sgx-urts/src/file.rs: the calls out of the enclave on files and directories.
pub mod Calls
pub mod Errors
use sgx_sdk_rs.Base.{ℕ}
use sgx_sdk_rs.Urts.Libc.{
  Libc, chmod, closedir, dirfd, fchmod, fdatasync, fdopendir, fstat, fstat64, fstatat64, fsync,
  ftruncate, ftruncate64, link, linkat, lseek, lseek64, lstat, lstat64, mkdir, open64, open_path,
  openat, opendir, readlink, realpath, rename, rmdir, stat, stat64, symlink, truncate, truncate64,
  unlink, unlinkat,
}
use sgx_sdk_rs.Urts.Ocalls.Report.{report, is_null, negative32, negative64}

module _ {W : Type 0} (libc : Libc W) where
  unfoldable pub u_open_ocall : ℕ → ℕ → ℕ → W → ℕ × W
  u_open_ocall error pathname flags = report libc negative32 (open_path pathname flags) error

  unfoldable pub u_open64_ocall : ℕ → ℕ → ℕ → ℕ → W → ℕ × W
  u_open64_ocall error path oflag mode = report libc negative32 (open64 path oflag mode) error

  unfoldable pub u_openat_ocall : ℕ → ℕ → ℕ → ℕ → W → ℕ × W
  u_openat_ocall error dir_fd pathname flags =
      report libc negative32 (openat dir_fd pathname flags) error

  unfoldable pub u_fstat_ocall : ℕ → ℕ → ℕ → W → ℕ × W
  u_fstat_ocall error fd buf = report libc negative32 (fstat fd buf) error

  unfoldable pub u_fstat64_ocall : ℕ → ℕ → ℕ → W → ℕ × W
  u_fstat64_ocall error fd buf = report libc negative32 (fstat64 fd buf) error

  unfoldable pub u_stat_ocall : ℕ → ℕ → ℕ → W → ℕ × W
  u_stat_ocall error path buf = report libc negative32 (stat path buf) error

  unfoldable pub u_stat64_ocall : ℕ → ℕ → ℕ → W → ℕ × W
  u_stat64_ocall error path buf = report libc negative32 (stat64 path buf) error

  unfoldable pub u_lstat_ocall : ℕ → ℕ → ℕ → W → ℕ × W
  u_lstat_ocall error path buf = report libc negative32 (lstat path buf) error

  unfoldable pub u_lstat64_ocall : ℕ → ℕ → ℕ → W → ℕ × W
  u_lstat64_ocall error path buf = report libc negative32 (lstat64 path buf) error

  unfoldable pub u_lseek_ocall : ℕ → ℕ → ℕ → ℕ → W → ℕ × W
  u_lseek_ocall error fd offset whence = report libc negative64 (lseek fd offset whence) error

  unfoldable pub u_lseek64_ocall : ℕ → ℕ → ℕ → ℕ → W → ℕ × W
  u_lseek64_ocall error fd offset whence = report libc negative64 (lseek64 fd offset whence) error

  unfoldable pub u_ftruncate_ocall : ℕ → ℕ → ℕ → W → ℕ × W
  u_ftruncate_ocall error fd length = report libc negative32 (ftruncate fd length) error

  unfoldable pub u_ftruncate64_ocall : ℕ → ℕ → ℕ → W → ℕ × W
  u_ftruncate64_ocall error fd length = report libc negative32 (ftruncate64 fd length) error

  unfoldable pub u_truncate_ocall : ℕ → ℕ → ℕ → W → ℕ × W
  u_truncate_ocall error path length = report libc negative32 (truncate path length) error

  unfoldable pub u_truncate64_ocall : ℕ → ℕ → ℕ → W → ℕ × W
  u_truncate64_ocall error path length = report libc negative32 (truncate64 path length) error

  unfoldable pub u_fsync_ocall : ℕ → ℕ → W → ℕ × W
  u_fsync_ocall error fd = report libc negative32 (fsync fd) error

  unfoldable pub u_fdatasync_ocall : ℕ → ℕ → W → ℕ × W
  u_fdatasync_ocall error fd = report libc negative32 (fdatasync fd) error

  unfoldable pub u_fchmod_ocall : ℕ → ℕ → ℕ → W → ℕ × W
  u_fchmod_ocall error fd mode = report libc negative32 (fchmod fd mode) error

  unfoldable pub u_unlink_ocall : ℕ → ℕ → W → ℕ × W
  u_unlink_ocall error pathname = report libc negative32 (unlink pathname) error

  unfoldable pub u_link_ocall : ℕ → ℕ → ℕ → W → ℕ × W
  u_link_ocall error oldpath newpath = report libc negative32 (link oldpath newpath) error

  unfoldable pub u_unlinkat_ocall : ℕ → ℕ → ℕ → ℕ → W → ℕ × W
  u_unlinkat_ocall error dir_fd pathname flags =
      report libc negative32 (unlinkat dir_fd pathname flags) error

  unfoldable pub u_linkat_ocall : ℕ → ℕ → ℕ → ℕ → ℕ → ℕ → W → ℕ × W
  u_linkat_ocall error olddirfd oldpath newdirfd newpath flags =
      report libc negative32 (linkat olddirfd oldpath newdirfd newpath flags) error

  unfoldable pub u_rename_ocall : ℕ → ℕ → ℕ → W → ℕ × W
  u_rename_ocall error oldpath newpath = report libc negative32 (rename oldpath newpath) error

  unfoldable pub u_chmod_ocall : ℕ → ℕ → ℕ → W → ℕ × W
  u_chmod_ocall error path mode = report libc negative32 (chmod path mode) error

  unfoldable pub u_readlink_ocall : ℕ → ℕ → ℕ → ℕ → W → ℕ × W
  u_readlink_ocall error path buf bufsz = report libc negative64 (readlink path buf bufsz) error

  unfoldable pub u_symlink_ocall : ℕ → ℕ → ℕ → W → ℕ × W
  u_symlink_ocall error path1 path2 = report libc negative32 (symlink path1 path2) error

  unfoldable pub u_realpath_ocall : ℕ → ℕ → W → ℕ × W
  u_realpath_ocall error pathname = report libc is_null (realpath pathname 0) error

  unfoldable pub u_mkdir_ocall : ℕ → ℕ → ℕ → W → ℕ × W
  u_mkdir_ocall error pathname mode = report libc negative32 (mkdir pathname mode) error

  unfoldable pub u_rmdir_ocall : ℕ → ℕ → W → ℕ × W
  u_rmdir_ocall error pathname = report libc negative32 (rmdir pathname) error

  unfoldable pub u_fdopendir_ocall : ℕ → ℕ → W → ℕ × W
  u_fdopendir_ocall error fd = report libc is_null (fdopendir fd) error

  unfoldable pub u_opendir_ocall : ℕ → ℕ → W → ℕ × W
  u_opendir_ocall error pathname = report libc is_null (opendir pathname) error

  unfoldable pub u_closedir_ocall : ℕ → ℕ → W → ℕ × W
  u_closedir_ocall error dirp = report libc negative32 (closedir dirp) error

  unfoldable pub u_dirfd_ocall : ℕ → ℕ → W → ℕ × W
  u_dirfd_ocall error dirp = report libc negative32 (dirfd dirp) error

  unfoldable pub u_fstatat64_ocall : ℕ → ℕ → ℕ → ℕ → ℕ → W → ℕ × W
  u_fstatat64_ocall error dir_fd pathname buf flags =
      report libc negative32 (fstatat64 dir_fd pathname buf flags) error
