-- ===== src/Urts/Ocalls/Files/Calls.antt =====
-- sgx-urts/src/file.rs: the calls out of the enclave on files and directories that report an error,
-- with the function that each calls.
use sgx_sdk_rs.Base.{ℕ}
use sgx_sdk_rs.Urts.Libc.{
  Call, Libc, chmod, closedir, dirfd, fchmod, fdatasync, fdopendir, fstat, fstat64, fstatat64,
  fsync, ftruncate, ftruncate64, link, linkat, lseek, lseek64, lstat, lstat64, mkdir, open64,
  open_path, openat, opendir, readlink, realpath, rename, rmdir, stat, stat64, symlink, truncate,
  truncate64, unlink, unlinkat,
}
use sgx_sdk_rs.Urts.Ocalls.Files.{
  u_open_ocall, u_open64_ocall, u_openat_ocall, u_fstat_ocall, u_fstat64_ocall, u_stat_ocall,
  u_stat64_ocall, u_lstat_ocall, u_lstat64_ocall, u_lseek_ocall, u_lseek64_ocall, u_ftruncate_ocall,
  u_ftruncate64_ocall, u_truncate_ocall, u_truncate64_ocall, u_fsync_ocall, u_fdatasync_ocall,
  u_fchmod_ocall, u_unlink_ocall, u_link_ocall, u_unlinkat_ocall, u_linkat_ocall, u_rename_ocall,
  u_chmod_ocall, u_readlink_ocall, u_symlink_ocall, u_realpath_ocall, u_mkdir_ocall, u_rmdir_ocall,
  u_fdopendir_ocall, u_opendir_ocall, u_closedir_ocall, u_dirfd_ocall, u_fstatat64_ocall,
}

module _ {W : Type 0} (libc : Libc W) where
  -- What is done first, the function that is called, and the call out of the enclave as a function of
  -- the pointer for the error and the state.
  pub data FileOcall : (W → W) → Call → (ℕ → W → ℕ × W) → Type 0 where
    calls_open :
        (pathname flags : ℕ)
        → FileOcall
            (λ w. w)
            (open_path pathname flags)
            (λ error. u_open_ocall libc error pathname flags)
    calls_open64 :
        (path oflag mode : ℕ)
        → FileOcall
            (λ w. w)
            (open64 path oflag mode)
            (λ error. u_open64_ocall libc error path oflag mode)
    calls_openat :
        (dir_fd pathname flags : ℕ)
        → FileOcall
            (λ w. w)
            (openat dir_fd pathname flags)
            (λ error. u_openat_ocall libc error dir_fd pathname flags)
    calls_fstat :
        (fd buf : ℕ) → FileOcall (λ w. w) (fstat fd buf) (λ error. u_fstat_ocall libc error fd buf)
    calls_fstat64 :
        (fd buf : ℕ)
        → FileOcall (λ w. w) (fstat64 fd buf) (λ error. u_fstat64_ocall libc error fd buf)
    calls_stat :
        (path buf : ℕ)
        → FileOcall (λ w. w) (stat path buf) (λ error. u_stat_ocall libc error path buf)
    calls_stat64 :
        (path buf : ℕ)
        → FileOcall (λ w. w) (stat64 path buf) (λ error. u_stat64_ocall libc error path buf)
    calls_lstat :
        (path buf : ℕ)
        → FileOcall (λ w. w) (lstat path buf) (λ error. u_lstat_ocall libc error path buf)
    calls_lstat64 :
        (path buf : ℕ)
        → FileOcall (λ w. w) (lstat64 path buf) (λ error. u_lstat64_ocall libc error path buf)
    calls_lseek :
        (fd offset whence : ℕ)
        → FileOcall
            (λ w. w)
            (lseek fd offset whence)
            (λ error. u_lseek_ocall libc error fd offset whence)
    calls_lseek64 :
        (fd offset whence : ℕ)
        → FileOcall
            (λ w. w)
            (lseek64 fd offset whence)
            (λ error. u_lseek64_ocall libc error fd offset whence)
    calls_ftruncate :
        (fd length : ℕ)
        → FileOcall (λ w. w) (ftruncate fd length) (λ error. u_ftruncate_ocall libc error fd length)
    calls_ftruncate64 :
        (fd length : ℕ)
        → FileOcall
            (λ w. w)
            (ftruncate64 fd length)
            (λ error. u_ftruncate64_ocall libc error fd length)
    calls_truncate :
        (path length : ℕ)
        → FileOcall
            (λ w. w)
            (truncate path length)
            (λ error. u_truncate_ocall libc error path length)
    calls_truncate64 :
        (path length : ℕ)
        → FileOcall
            (λ w. w)
            (truncate64 path length)
            (λ error. u_truncate64_ocall libc error path length)
    calls_fsync : (fd : ℕ) → FileOcall (λ w. w) (fsync fd) (λ error. u_fsync_ocall libc error fd)
    calls_fdatasync :
        (fd : ℕ) → FileOcall (λ w. w) (fdatasync fd) (λ error. u_fdatasync_ocall libc error fd)
    calls_fchmod :
        (fd mode : ℕ)
        → FileOcall (λ w. w) (fchmod fd mode) (λ error. u_fchmod_ocall libc error fd mode)
    calls_unlink :
        (pathname : ℕ)
        → FileOcall (λ w. w) (unlink pathname) (λ error. u_unlink_ocall libc error pathname)
    calls_link :
        (oldpath newpath : ℕ)
        → FileOcall
            (λ w. w)
            (link oldpath newpath)
            (λ error. u_link_ocall libc error oldpath newpath)
    calls_unlinkat :
        (dir_fd pathname flags : ℕ)
        → FileOcall
            (λ w. w)
            (unlinkat dir_fd pathname flags)
            (λ error. u_unlinkat_ocall libc error dir_fd pathname flags)
    calls_linkat :
        (olddirfd oldpath newdirfd newpath flags : ℕ)
        → FileOcall
            (λ w. w)
            (linkat olddirfd oldpath newdirfd newpath flags)
            (λ error. u_linkat_ocall libc error olddirfd oldpath newdirfd newpath flags)
    calls_rename :
        (oldpath newpath : ℕ)
        → FileOcall
            (λ w. w)
            (rename oldpath newpath)
            (λ error. u_rename_ocall libc error oldpath newpath)
    calls_chmod :
        (path mode : ℕ)
        → FileOcall (λ w. w) (chmod path mode) (λ error. u_chmod_ocall libc error path mode)
    calls_readlink :
        (path buf bufsz : ℕ)
        → FileOcall
            (λ w. w)
            (readlink path buf bufsz)
            (λ error. u_readlink_ocall libc error path buf bufsz)
    calls_symlink :
        (path1 path2 : ℕ)
        → FileOcall (λ w. w) (symlink path1 path2) (λ error. u_symlink_ocall libc error path1 path2)
    calls_realpath :
        (pathname : ℕ)
        → FileOcall (λ w. w) (realpath pathname 0) (λ error. u_realpath_ocall libc error pathname)
    calls_mkdir :
        (pathname mode : ℕ)
        → FileOcall (λ w. w) (mkdir pathname mode) (λ error. u_mkdir_ocall libc error pathname mode)
    calls_rmdir :
        (pathname : ℕ)
        → FileOcall (λ w. w) (rmdir pathname) (λ error. u_rmdir_ocall libc error pathname)
    calls_fdopendir :
        (fd : ℕ) → FileOcall (λ w. w) (fdopendir fd) (λ error. u_fdopendir_ocall libc error fd)
    calls_opendir :
        (pathname : ℕ)
        → FileOcall (λ w. w) (opendir pathname) (λ error. u_opendir_ocall libc error pathname)
    calls_closedir :
        (dirp : ℕ) → FileOcall (λ w. w) (closedir dirp) (λ error. u_closedir_ocall libc error dirp)
    calls_dirfd :
        (dirp : ℕ) → FileOcall (λ w. w) (dirfd dirp) (λ error. u_dirfd_ocall libc error dirp)
    calls_fstatat64 :
        (dir_fd pathname buf flags : ℕ)
        → FileOcall
            (λ w. w)
            (fstatat64 dir_fd pathname buf flags)
            (λ error. u_fstatat64_ocall libc error dir_fd pathname buf flags)
