-- ===== src/Urts/Ocalls/Files/Errors.antt =====
-- sgx-urts/src/file.rs:
-- what the calls out of the enclave on files and directories tell of an error.
use sgx_sdk_rs.Base.{ℕ}
use sgx_sdk_rs.Urts.Libc.{
  Call, Libc, IsLibc, chmod, closedir, dirfd, fchmod, fdatasync, fdopendir, fstat, fstat64,
  fstatat64, fsync, ftruncate, ftruncate64, link, linkat, lseek, lseek64, lstat, lstat64, mkdir,
  open64, open_path, openat, opendir, readlink, realpath, rename, rmdir, stat, stat64, symlink,
  truncate, truncate64, unlink, unlinkat,
}
use sgx_sdk_rs.Urts.Ocalls.Report.{is_null, negative32, negative64}
use sgx_sdk_rs.Urts.Ocalls.Told.{
  Told, report-Told, is_null-Takes, negative32-Takes, negative64-Takes,
}
use sgx_sdk_rs.Urts.Ocalls.Files.{
  u_open_ocall, u_open64_ocall, u_openat_ocall, u_fstat_ocall, u_fstat64_ocall, u_stat_ocall,
  u_stat64_ocall, u_lstat_ocall, u_lstat64_ocall, u_lseek_ocall, u_lseek64_ocall, u_ftruncate_ocall,
  u_ftruncate64_ocall, u_truncate_ocall, u_truncate64_ocall, u_fsync_ocall, u_fdatasync_ocall,
  u_fchmod_ocall, u_unlink_ocall, u_link_ocall, u_unlinkat_ocall, u_linkat_ocall, u_rename_ocall,
  u_chmod_ocall, u_readlink_ocall, u_symlink_ocall, u_realpath_ocall, u_mkdir_ocall, u_rmdir_ocall,
  u_fdopendir_ocall, u_opendir_ocall, u_closedir_ocall, u_dirfd_ocall, u_fstatat64_ocall,
}
use sgx_sdk_rs.Urts.Ocalls.Files.Calls.{FileOcall}

module _ {W : Type 0} (libc : Libc W) where
  pub FileOcall-Told :
      IsLibc libc
      → (before : W → W) (c : Call) (run : ℕ → W → ℕ × W) → FileOcall libc before c run
      → (error : ℕ) (w : W) → Told libc c error (libc.call c (before w)) (run error w)
  unfolding u_open_ocall u_open64_ocall u_openat_ocall u_fstat_ocall u_fstat64_ocall u_stat_ocall
      u_stat64_ocall u_lstat_ocall u_lstat64_ocall u_lseek_ocall u_lseek64_ocall u_ftruncate_ocall
      u_ftruncate64_ocall u_truncate_ocall u_truncate64_ocall u_fsync_ocall u_fdatasync_ocall
      u_fchmod_ocall u_unlink_ocall u_link_ocall u_unlinkat_ocall u_linkat_ocall u_rename_ocall
      u_chmod_ocall u_readlink_ocall u_symlink_ocall u_realpath_ocall u_mkdir_ocall u_rmdir_ocall
      u_fdopendir_ocall u_opendir_ocall u_closedir_ocall u_dirfd_ocall u_fstatat64_ocall
  FileOcall-Told laws _ _ _ (FileOcall.calls_open pathname flags) = λ error w.
      report-Told libc laws negative32 (open_path pathname flags) error w negative32-Takes
  FileOcall-Told laws _ _ _ (FileOcall.calls_open64 path oflag mode) =
      λ error w. report-Told libc laws negative32 (open64 path oflag mode) error w negative32-Takes
  FileOcall-Told laws _ _ _ (FileOcall.calls_openat dir_fd pathname flags) = λ error w.
      report-Told libc laws negative32 (openat dir_fd pathname flags) error w negative32-Takes
  FileOcall-Told laws _ _ _ (FileOcall.calls_fstat fd buf) =
      λ error w. report-Told libc laws negative32 (fstat fd buf) error w negative32-Takes
  FileOcall-Told laws _ _ _ (FileOcall.calls_fstat64 fd buf) =
      λ error w. report-Told libc laws negative32 (fstat64 fd buf) error w negative32-Takes
  FileOcall-Told laws _ _ _ (FileOcall.calls_stat path buf) =
      λ error w. report-Told libc laws negative32 (stat path buf) error w negative32-Takes
  FileOcall-Told laws _ _ _ (FileOcall.calls_stat64 path buf) =
      λ error w. report-Told libc laws negative32 (stat64 path buf) error w negative32-Takes
  FileOcall-Told laws _ _ _ (FileOcall.calls_lstat path buf) =
      λ error w. report-Told libc laws negative32 (lstat path buf) error w negative32-Takes
  FileOcall-Told laws _ _ _ (FileOcall.calls_lstat64 path buf) =
      λ error w. report-Told libc laws negative32 (lstat64 path buf) error w negative32-Takes
  FileOcall-Told laws _ _ _ (FileOcall.calls_lseek fd offset whence) =
      λ error w. report-Told libc laws negative64 (lseek fd offset whence) error w negative64-Takes
  FileOcall-Told laws _ _ _ (FileOcall.calls_lseek64 fd offset whence) = λ error w.
      report-Told libc laws negative64 (lseek64 fd offset whence) error w negative64-Takes
  FileOcall-Told laws _ _ _ (FileOcall.calls_ftruncate fd length) =
      λ error w. report-Told libc laws negative32 (ftruncate fd length) error w negative32-Takes
  FileOcall-Told laws _ _ _ (FileOcall.calls_ftruncate64 fd length) =
      λ error w. report-Told libc laws negative32 (ftruncate64 fd length) error w negative32-Takes
  FileOcall-Told laws _ _ _ (FileOcall.calls_truncate path length) =
      λ error w. report-Told libc laws negative32 (truncate path length) error w negative32-Takes
  FileOcall-Told laws _ _ _ (FileOcall.calls_truncate64 path length) =
      λ error w. report-Told libc laws negative32 (truncate64 path length) error w negative32-Takes
  FileOcall-Told laws _ _ _ (FileOcall.calls_fsync fd) =
      λ error w. report-Told libc laws negative32 (fsync fd) error w negative32-Takes
  FileOcall-Told laws _ _ _ (FileOcall.calls_fdatasync fd) =
      λ error w. report-Told libc laws negative32 (fdatasync fd) error w negative32-Takes
  FileOcall-Told laws _ _ _ (FileOcall.calls_fchmod fd mode) =
      λ error w. report-Told libc laws negative32 (fchmod fd mode) error w negative32-Takes
  FileOcall-Told laws _ _ _ (FileOcall.calls_unlink pathname) =
      λ error w. report-Told libc laws negative32 (unlink pathname) error w negative32-Takes
  FileOcall-Told laws _ _ _ (FileOcall.calls_link oldpath newpath) =
      λ error w. report-Told libc laws negative32 (link oldpath newpath) error w negative32-Takes
  FileOcall-Told laws _ _ _ (FileOcall.calls_unlinkat dir_fd pathname flags) = λ error w.
      report-Told libc laws negative32 (unlinkat dir_fd pathname flags) error w negative32-Takes
  FileOcall-Told laws _ _ _ (FileOcall.calls_linkat olddirfd oldpath newdirfd newpath flags) =
      λ error w.
        report-Told libc laws negative32 (linkat olddirfd oldpath newdirfd newpath flags) error w
          negative32-Takes
  FileOcall-Told laws _ _ _ (FileOcall.calls_rename oldpath newpath) =
      λ error w. report-Told libc laws negative32 (rename oldpath newpath) error w negative32-Takes
  FileOcall-Told laws _ _ _ (FileOcall.calls_chmod path mode) =
      λ error w. report-Told libc laws negative32 (chmod path mode) error w negative32-Takes
  FileOcall-Told laws _ _ _ (FileOcall.calls_readlink path buf bufsz) =
      λ error w. report-Told libc laws negative64 (readlink path buf bufsz) error w negative64-Takes
  FileOcall-Told laws _ _ _ (FileOcall.calls_symlink path1 path2) =
      λ error w. report-Told libc laws negative32 (symlink path1 path2) error w negative32-Takes
  FileOcall-Told laws _ _ _ (FileOcall.calls_realpath pathname) =
      λ error w. report-Told libc laws is_null (realpath pathname 0) error w is_null-Takes
  FileOcall-Told laws _ _ _ (FileOcall.calls_mkdir pathname mode) =
      λ error w. report-Told libc laws negative32 (mkdir pathname mode) error w negative32-Takes
  FileOcall-Told laws _ _ _ (FileOcall.calls_rmdir pathname) =
      λ error w. report-Told libc laws negative32 (rmdir pathname) error w negative32-Takes
  FileOcall-Told laws _ _ _ (FileOcall.calls_fdopendir fd) =
      λ error w. report-Told libc laws is_null (fdopendir fd) error w is_null-Takes
  FileOcall-Told laws _ _ _ (FileOcall.calls_opendir pathname) =
      λ error w. report-Told libc laws is_null (opendir pathname) error w is_null-Takes
  FileOcall-Told laws _ _ _ (FileOcall.calls_closedir dirp) =
      λ error w. report-Told libc laws negative32 (closedir dirp) error w negative32-Takes
  FileOcall-Told laws _ _ _ (FileOcall.calls_dirfd dirp) =
      λ error w. report-Told libc laws negative32 (dirfd dirp) error w negative32-Takes
  FileOcall-Told laws _ _ _ (FileOcall.calls_fstatat64 dir_fd pathname buf flags) = λ error w.
      report-Told libc laws negative32 (fstatat64 dir_fd pathname buf flags) error w
        negative32-Takes
