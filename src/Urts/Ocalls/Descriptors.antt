-- ===== src/Urts/Ocalls/Descriptors.antt =====
-- sgx-urts/src/fd.rs, pipe.rs and asyncio.rs: the calls out of the enclave on descriptors.
pub mod Calls
pub mod Errors
use sgx_sdk_rs.Base.{ℕ}
use sgx_sdk_rs.Urts.Libc.{
  Libc, close, copy_file_range, dup, epoll_create1, epoll_ctl, epoll_wait, eventfd, fcntl_arg0,
  fcntl_arg1, futimens, ioctl_arg0, ioctl_arg1, isatty, pipe, pipe2, poll, pread64, preadv64,
  pwrite64, pwritev64, read, readv, sendfile, splice, write, writev,
}
use sgx_sdk_rs.Urts.Ocalls.Report.{report, is_null, negative32, negative64, sign_extend}

module _ {W : Type 0} (libc : Libc W) where
  unfoldable pub u_poll_ocall : ℕ → ℕ → ℕ → ℕ → W → ℕ × W
  u_poll_ocall error fds nfds timeout = report libc negative32 (poll fds nfds timeout) error

  unfoldable pub u_epoll_create1_ocall : ℕ → ℕ → W → ℕ × W
  u_epoll_create1_ocall error flags = report libc negative32 (epoll_create1 flags) error

  unfoldable pub u_epoll_ctl_ocall : ℕ → ℕ → ℕ → ℕ → ℕ → W → ℕ × W
  u_epoll_ctl_ocall error epfd op fd event =
      report libc negative32 (epoll_ctl epfd op fd event) error

  unfoldable pub u_epoll_wait_ocall : ℕ → ℕ → ℕ → ℕ → ℕ → W → ℕ × W
  u_epoll_wait_ocall error epfd events maxevents timeout =
      report libc negative32 (epoll_wait epfd events maxevents timeout) error

  unfoldable pub u_read_ocall : ℕ → ℕ → ℕ → ℕ → W → ℕ × W
  u_read_ocall error fd buf count = report libc negative64 (read fd buf count) error

  unfoldable pub u_pread64_ocall : ℕ → ℕ → ℕ → ℕ → ℕ → W → ℕ × W
  u_pread64_ocall error fd buf count offset =
      report libc negative64 (pread64 fd buf count offset) error

  unfoldable pub u_readv_ocall : ℕ → ℕ → ℕ → ℕ → W → ℕ × W
  u_readv_ocall error fd iov iovcnt = report libc negative64 (readv fd iov iovcnt) error

  unfoldable pub u_preadv64_ocall : ℕ → ℕ → ℕ → ℕ → ℕ → W → ℕ × W
  u_preadv64_ocall error fd iov iovcnt offset =
      report libc negative64 (preadv64 fd iov iovcnt offset) error

  unfoldable pub u_write_ocall : ℕ → ℕ → ℕ → ℕ → W → ℕ × W
  u_write_ocall error fd buf count = report libc negative64 (write fd buf count) error

  unfoldable pub u_pwrite64_ocall : ℕ → ℕ → ℕ → ℕ → ℕ → W → ℕ × W
  u_pwrite64_ocall error fd buf count offset =
      report libc negative64 (pwrite64 fd buf count offset) error

  unfoldable pub u_writev_ocall : ℕ → ℕ → ℕ → ℕ → W → ℕ × W
  u_writev_ocall error fd iov iovcnt = report libc negative64 (writev fd iov iovcnt) error

  unfoldable pub u_pwritev64_ocall : ℕ → ℕ → ℕ → ℕ → ℕ → W → ℕ × W
  u_pwritev64_ocall error fd iov iovcnt offset =
      report libc negative64 (pwritev64 fd iov iovcnt offset) error

  unfoldable pub u_sendfile_ocall : ℕ → ℕ → ℕ → ℕ → ℕ → W → ℕ × W
  u_sendfile_ocall error out_fd in_fd offset count =
      report libc negative64 (sendfile out_fd in_fd offset count) error

  unfoldable pub u_copy_file_range_ocall : ℕ → ℕ → ℕ → ℕ → ℕ → ℕ → ℕ → W → ℕ × W
  u_copy_file_range_ocall error fd_in off_in fd_out off_out len flags =
      report libc negative64 (copy_file_range fd_in off_in fd_out off_out len flags) error

  unfoldable pub u_splice_ocall : ℕ → ℕ → ℕ → ℕ → ℕ → ℕ → ℕ → W → ℕ × W
  u_splice_ocall error fd_in off_in fd_out off_out len flags =
      report libc negative64 (splice fd_in off_in fd_out off_out len flags) error

  unfoldable pub u_fcntl_arg0_ocall : ℕ → ℕ → ℕ → W → ℕ × W
  u_fcntl_arg0_ocall error fd cmd = report libc negative32 (fcntl_arg0 fd cmd) error

  unfoldable pub u_fcntl_arg1_ocall : ℕ → ℕ → ℕ → ℕ → W → ℕ × W
  u_fcntl_arg1_ocall error fd cmd arg = report libc negative32 (fcntl_arg1 fd cmd arg) error

  unfoldable pub u_ioctl_arg0_ocall : ℕ → ℕ → ℕ → W → ℕ × W
  u_ioctl_arg0_ocall error fd request =
      report libc negative32 (ioctl_arg0 fd (sign_extend request)) error

  unfoldable pub u_ioctl_arg1_ocall : ℕ → ℕ → ℕ → ℕ → W → ℕ × W
  u_ioctl_arg1_ocall error fd request arg =
      report libc negative32 (ioctl_arg1 fd (sign_extend request) arg) error

  unfoldable pub u_close_ocall : ℕ → ℕ → W → ℕ × W
  u_close_ocall error fd = report libc negative32 (close fd) error

  unfoldable pub u_isatty_ocall : ℕ → ℕ → W → ℕ × W
  u_isatty_ocall error fd = report libc is_null (isatty fd) error

  unfoldable pub u_dup_ocall : ℕ → ℕ → W → ℕ × W
  u_dup_ocall error oldfd = report libc negative32 (dup oldfd) error

  unfoldable pub u_eventfd_ocall : ℕ → ℕ → ℕ → W → ℕ × W
  u_eventfd_ocall error initval flags = report libc negative32 (eventfd initval flags) error

  unfoldable pub u_futimens_ocall : ℕ → ℕ → ℕ → W → ℕ × W
  u_futimens_ocall error fd times = report libc negative32 (futimens fd times) error

  unfoldable pub u_pipe_ocall : ℕ → ℕ → W → ℕ × W
  u_pipe_ocall error fds = report libc negative32 (pipe fds) error

  unfoldable pub u_pipe2_ocall : ℕ → ℕ → ℕ → W → ℕ × W
  u_pipe2_ocall error fds flags = report libc negative32 (pipe2 fds flags) error
