-- ===== src/Urts/Libc.antt =====
-- sgx-urts/src: the C library's functions that the enclave's calls out of it end in, and how a value
-- says that the call failed. Pointers and values are their bit patterns; the memory is in the state.
use sgx_sdk_rs.Base.{ℕ, ◌-◌, ◌^◌, ◌≤◌, ◌<◌, ◌≢◌}

pub data Call : Type 0 where
  sched_yield : Call
  epoll_create1 unsetenv chdir close isatty dup fsync fdatasync unlink rmdir fdopendir : ℕ → Call
  opendir closedir dirfd malloc pipe sysconf : ℕ → Call
  getcwd fcntl_arg0 ioctl_arg0 eventfd futimens open_path fstat fstat64 stat : ℕ → ℕ → Call
  stat64 lstat lstat64 ftruncate ftruncate64 truncate truncate64 fchmod link : ℕ → ℕ → Call
  rename chmod symlink realpath mkdir munmap pipe2 listen shutdown nanosleep : ℕ → ℕ → Call
  clock_gettime : ℕ → ℕ → Call
  poll setenv read readv write writev fcntl_arg1 ioctl_arg1 open64 openat : ℕ → ℕ → ℕ → Call
  lseek lseek64 unlinkat readlink msync mprotect socket bind accept connect : ℕ → ℕ → ℕ → Call
  getsockname getpeername sched_setaffinity sched_getaffinity : ℕ → ℕ → ℕ → Call
  epoll_ctl epoll_wait pread64 preadv64 pwrite64 pwritev64 sendfile : ℕ → ℕ → ℕ → ℕ → Call
  fstatat64 getaddrinfo socketpair accept4 recv send : ℕ → ℕ → ℕ → ℕ → Call
  linkat getsockopt setsockopt prctl : ℕ → ℕ → ℕ → ℕ → ℕ → Call
  copy_file_range splice mmap recvfrom sendto : ℕ → ℕ → ℕ → ℕ → ℕ → ℕ → Call

-- A call gives its value, and `errno` as it stands then.
pub record Answer (W : Type 0) : Type 0 where
  pub value : ℕ
  pub errno : ℕ
  pub world : W

-- `write_int` and `write_word` write 4 and 8 bytes behind a pointer.
pub record Libc (W : Type 0) : Type 0 where
  pub call : Call → W → Answer W
  pub write_int : ℕ → ℕ → W → W
  pub write_word : ℕ → ℕ → W → W

-- How a function says that it failed.
pub data Kind : Type 0 where
  minus_one_int minus_one_word null_pointer map_failed zero_int eai_system : Kind

abbrev pub failure : Kind → ℕ
failure Kind.minus_one_int = 2 ^ 32 - 1
failure Kind.minus_one_word = 2 ^ 64 - 1
failure Kind.null_pointer = 0
failure Kind.map_failed = 2 ^ 64 - 1
failure Kind.zero_int = 0
failure Kind.eai_system = 2 ^ 32 - 11

-- The C library's documentation.
abbrev pub kind : Call → Kind
kind (poll _ _ _) = Kind.minus_one_int
kind (epoll_create1 _) = Kind.minus_one_int
kind (epoll_ctl _ _ _ _) = Kind.minus_one_int
kind (epoll_wait _ _ _ _) = Kind.minus_one_int
kind (setenv _ _ _) = Kind.minus_one_int
kind (unsetenv _) = Kind.minus_one_int
kind (getcwd _ _) = Kind.null_pointer
kind (chdir _) = Kind.minus_one_int
kind (read _ _ _) = Kind.minus_one_word
kind (pread64 _ _ _ _) = Kind.minus_one_word
kind (readv _ _ _) = Kind.minus_one_word
kind (preadv64 _ _ _ _) = Kind.minus_one_word
kind (write _ _ _) = Kind.minus_one_word
kind (pwrite64 _ _ _ _) = Kind.minus_one_word
kind (writev _ _ _) = Kind.minus_one_word
kind (pwritev64 _ _ _ _) = Kind.minus_one_word
kind (sendfile _ _ _ _) = Kind.minus_one_word
kind (copy_file_range _ _ _ _ _ _) = Kind.minus_one_word
kind (splice _ _ _ _ _ _) = Kind.minus_one_word
kind (fcntl_arg0 _ _) = Kind.minus_one_int
kind (fcntl_arg1 _ _ _) = Kind.minus_one_int
kind (ioctl_arg0 _ _) = Kind.minus_one_int
kind (ioctl_arg1 _ _ _) = Kind.minus_one_int
kind (close _) = Kind.minus_one_int
kind (isatty _) = Kind.zero_int
kind (dup _) = Kind.minus_one_int
kind (eventfd _ _) = Kind.minus_one_int
kind (futimens _ _) = Kind.minus_one_int
kind (open_path _ _) = Kind.minus_one_int
kind (open64 _ _ _) = Kind.minus_one_int
kind (openat _ _ _) = Kind.minus_one_int
kind (fstat _ _) = Kind.minus_one_int
kind (fstat64 _ _) = Kind.minus_one_int
kind (stat _ _) = Kind.minus_one_int
kind (stat64 _ _) = Kind.minus_one_int
kind (lstat _ _) = Kind.minus_one_int
kind (lstat64 _ _) = Kind.minus_one_int
kind (lseek _ _ _) = Kind.minus_one_word
kind (lseek64 _ _ _) = Kind.minus_one_word
kind (ftruncate _ _) = Kind.minus_one_int
kind (ftruncate64 _ _) = Kind.minus_one_int
kind (truncate _ _) = Kind.minus_one_int
kind (truncate64 _ _) = Kind.minus_one_int
kind (fsync _) = Kind.minus_one_int
kind (fdatasync _) = Kind.minus_one_int
kind (fchmod _ _) = Kind.minus_one_int
kind (unlink _) = Kind.minus_one_int
kind (link _ _) = Kind.minus_one_int
kind (unlinkat _ _ _) = Kind.minus_one_int
kind (linkat _ _ _ _ _) = Kind.minus_one_int
kind (rename _ _) = Kind.minus_one_int
kind (chmod _ _) = Kind.minus_one_int
kind (readlink _ _ _) = Kind.minus_one_word
kind (symlink _ _) = Kind.minus_one_int
kind (realpath _ _) = Kind.null_pointer
kind (mkdir _ _) = Kind.minus_one_int
kind (rmdir _) = Kind.minus_one_int
kind (fdopendir _) = Kind.null_pointer
kind (opendir _) = Kind.null_pointer
kind (closedir _) = Kind.minus_one_int
kind (dirfd _) = Kind.minus_one_int
kind (fstatat64 _ _ _ _) = Kind.minus_one_int
kind (malloc _) = Kind.null_pointer
kind (mmap _ _ _ _ _ _) = Kind.map_failed
kind (munmap _ _) = Kind.minus_one_int
kind (msync _ _ _) = Kind.minus_one_int
kind (mprotect _ _ _) = Kind.minus_one_int
kind (getaddrinfo _ _ _ _) = Kind.eai_system
kind (pipe _) = Kind.minus_one_int
kind (pipe2 _ _) = Kind.minus_one_int
kind (socket _ _ _) = Kind.minus_one_int
kind (socketpair _ _ _ _) = Kind.minus_one_int
kind (bind _ _ _) = Kind.minus_one_int
kind (listen _ _) = Kind.minus_one_int
kind (accept _ _ _) = Kind.minus_one_int
kind (accept4 _ _ _ _) = Kind.minus_one_int
kind (connect _ _ _) = Kind.minus_one_int
kind (recv _ _ _ _) = Kind.minus_one_word
kind (recvfrom _ _ _ _ _ _) = Kind.minus_one_word
kind (send _ _ _ _) = Kind.minus_one_word
kind (sendto _ _ _ _ _ _) = Kind.minus_one_word
kind (getsockopt _ _ _ _ _) = Kind.minus_one_int
kind (setsockopt _ _ _ _ _) = Kind.minus_one_int
kind (getsockname _ _ _) = Kind.minus_one_int
kind (getpeername _ _ _) = Kind.minus_one_int
kind (shutdown _ _) = Kind.minus_one_int
kind (sysconf _) = Kind.minus_one_word
kind (prctl _ _ _ _ _) = Kind.minus_one_int
kind (sched_setaffinity _ _ _) = Kind.minus_one_int
kind (sched_getaffinity _ _ _) = Kind.minus_one_int
kind sched_yield = Kind.minus_one_int
kind (nanosleep _ _) = Kind.minus_one_int
kind (clock_gettime _ _) = Kind.minus_one_int

-- The values of a kind's C type.
abbrev pub IsValue : Kind → ℕ → Type 0
IsValue Kind.minus_one_int v = v < 2 ^ 32
IsValue Kind.minus_one_word v = v < 2 ^ 64
IsValue Kind.null_pointer v = v < 2 ^ 64
IsValue Kind.map_failed v = v < 2 ^ 64
IsValue Kind.zero_int v = v < 2 ^ 32
IsValue Kind.eai_system v = v < 2 ^ 32

-- A negative value other than -1, which `fcntl` gives for a process group that owns the descriptor.
abbrev pub IsOtherNegative : Kind → ℕ → Type 0
IsOtherNegative Kind.minus_one_int v = (2 ^ 31 ≤ v) × (v < 2 ^ 32 - 1)
IsOtherNegative Kind.minus_one_word v = (2 ^ 63 ≤ v) × (v < 2 ^ 64 - 1)
IsOtherNegative Kind.null_pointer v = ⊥
IsOtherNegative Kind.map_failed v = ⊥
IsOtherNegative Kind.zero_int v = ⊥
IsOtherNegative Kind.eai_system v = ⊥

-- Any value but these and the one that says `failed`.
abbrev pub IsSuccess : Kind → ℕ → Type 0
IsSuccess Kind.minus_one_int v = v < 2 ^ 31
IsSuccess Kind.minus_one_word v = v < 2 ^ 63
IsSuccess Kind.null_pointer v = v ≢ 0
IsSuccess Kind.map_failed v = v ≢ 2 ^ 64 - 1
IsSuccess Kind.zero_int v = v ≢ 0
IsSuccess Kind.eai_system v = v ≢ 2 ^ 32 - 11

-- A function's value is of its C type.
pub record IsLibc {W : Type 0} (libc : Libc W) : Type 0 where
  pub values : (c : Call) (w : W) → IsValue (kind c) (libc.call c w).value
