-- ===== src/Urts/Ocalls/Descriptors/Errors.antt =====
-- sgx-urts/src/fd.rs, pipe.rs and asyncio.rs:
-- what the calls out of the enclave on descriptors tell of an error.
use sgx_sdk_rs.Base.{ℕ}
use sgx_sdk_rs.Urts.Libc.{
  Call, Libc, IsLibc, close, copy_file_range, dup, epoll_create1, epoll_ctl, epoll_wait, eventfd,
  fcntl_arg0, fcntl_arg1, futimens, ioctl_arg0, ioctl_arg1, isatty, pipe, pipe2, poll, pread64,
  preadv64, pwrite64, pwritev64, read, readv, sendfile, splice, write, writev,
}
use sgx_sdk_rs.Urts.Ocalls.Report.{is_null, negative32, negative64, sign_extend}
use sgx_sdk_rs.Urts.Ocalls.Told.{
  Told, report-Told, is_zero-Takes, negative32-Takes, negative64-Takes,
}
use sgx_sdk_rs.Urts.Ocalls.Descriptors.{
  u_poll_ocall, u_epoll_create1_ocall, u_epoll_ctl_ocall, u_epoll_wait_ocall, u_read_ocall,
  u_pread64_ocall, u_readv_ocall, u_preadv64_ocall, u_write_ocall, u_pwrite64_ocall, u_writev_ocall,
  u_pwritev64_ocall, u_sendfile_ocall, u_copy_file_range_ocall, u_splice_ocall, u_fcntl_arg0_ocall,
  u_fcntl_arg1_ocall, u_ioctl_arg0_ocall, u_ioctl_arg1_ocall, u_close_ocall, u_isatty_ocall,
  u_dup_ocall, u_eventfd_ocall, u_futimens_ocall, u_pipe_ocall, u_pipe2_ocall,
}
use sgx_sdk_rs.Urts.Ocalls.Descriptors.Calls.{DescriptorOcall}

module _ {W : Type 0} (libc : Libc W) where
  pub DescriptorOcall-Told :
      IsLibc libc
      → (before : W → W) (c : Call) (run : ℕ → W → ℕ × W) → DescriptorOcall libc before c run
      → (error : ℕ) (w : W) → Told libc c error (libc.call c (before w)) (run error w)
  unfolding u_poll_ocall u_epoll_create1_ocall u_epoll_ctl_ocall u_epoll_wait_ocall u_read_ocall
      u_pread64_ocall u_readv_ocall u_preadv64_ocall u_write_ocall u_pwrite64_ocall u_writev_ocall
      u_pwritev64_ocall u_sendfile_ocall u_copy_file_range_ocall u_splice_ocall u_fcntl_arg0_ocall
      u_fcntl_arg1_ocall u_ioctl_arg0_ocall u_ioctl_arg1_ocall u_close_ocall u_isatty_ocall
      u_dup_ocall u_eventfd_ocall u_futimens_ocall u_pipe_ocall u_pipe2_ocall
  DescriptorOcall-Told laws _ _ _ (DescriptorOcall.calls_poll fds nfds timeout) =
      λ error w. report-Told libc laws negative32 (poll fds nfds timeout) error w negative32-Takes
  DescriptorOcall-Told laws _ _ _ (DescriptorOcall.calls_epoll_create1 flags) =
      λ error w. report-Told libc laws negative32 (epoll_create1 flags) error w negative32-Takes
  DescriptorOcall-Told laws _ _ _ (DescriptorOcall.calls_epoll_ctl epfd op fd event) = λ error w.
      report-Told libc laws negative32 (epoll_ctl epfd op fd event) error w negative32-Takes
  DescriptorOcall-Told laws _ _ _ (DescriptorOcall.calls_epoll_wait epfd events maxevents timeout) =
      λ error w.
        report-Told libc laws negative32 (epoll_wait epfd events maxevents timeout) error w
          negative32-Takes
  DescriptorOcall-Told laws _ _ _ (DescriptorOcall.calls_read fd buf count) =
      λ error w. report-Told libc laws negative64 (read fd buf count) error w negative64-Takes
  DescriptorOcall-Told laws _ _ _ (DescriptorOcall.calls_pread64 fd buf count offset) = λ error w.
      report-Told libc laws negative64 (pread64 fd buf count offset) error w negative64-Takes
  DescriptorOcall-Told laws _ _ _ (DescriptorOcall.calls_readv fd iov iovcnt) =
      λ error w. report-Told libc laws negative64 (readv fd iov iovcnt) error w negative64-Takes
  DescriptorOcall-Told laws _ _ _ (DescriptorOcall.calls_preadv64 fd iov iovcnt offset) = λ error w.
      report-Told libc laws negative64 (preadv64 fd iov iovcnt offset) error w negative64-Takes
  DescriptorOcall-Told laws _ _ _ (DescriptorOcall.calls_write fd buf count) =
      λ error w. report-Told libc laws negative64 (write fd buf count) error w negative64-Takes
  DescriptorOcall-Told laws _ _ _ (DescriptorOcall.calls_pwrite64 fd buf count offset) = λ error w.
      report-Told libc laws negative64 (pwrite64 fd buf count offset) error w negative64-Takes
  DescriptorOcall-Told laws _ _ _ (DescriptorOcall.calls_writev fd iov iovcnt) =
      λ error w. report-Told libc laws negative64 (writev fd iov iovcnt) error w negative64-Takes
  DescriptorOcall-Told laws _ _ _ (DescriptorOcall.calls_pwritev64 fd iov iovcnt offset) =
      λ error w.
        report-Told libc laws negative64 (pwritev64 fd iov iovcnt offset) error w negative64-Takes
  DescriptorOcall-Told laws _ _ _ (DescriptorOcall.calls_sendfile out_fd in_fd offset count) =
      λ error w.
        report-Told libc laws negative64 (sendfile out_fd in_fd offset count) error w
          negative64-Takes
  DescriptorOcall-Told laws _ _ _
        (DescriptorOcall.calls_copy_file_range fd_in off_in fd_out off_out len flags) =
      λ error w.
        report-Told libc laws negative64 (copy_file_range fd_in off_in fd_out off_out len flags)
          error w negative64-Takes
  DescriptorOcall-Told laws _ _ _
        (DescriptorOcall.calls_splice fd_in off_in fd_out off_out len flags) =
      λ error w.
        report-Told libc laws negative64 (splice fd_in off_in fd_out off_out len flags) error w
          negative64-Takes
  DescriptorOcall-Told laws _ _ _ (DescriptorOcall.calls_fcntl_arg0 fd cmd) =
      λ error w. report-Told libc laws negative32 (fcntl_arg0 fd cmd) error w negative32-Takes
  DescriptorOcall-Told laws _ _ _ (DescriptorOcall.calls_fcntl_arg1 fd cmd arg) =
      λ error w. report-Told libc laws negative32 (fcntl_arg1 fd cmd arg) error w negative32-Takes
  DescriptorOcall-Told laws _ _ _ (DescriptorOcall.calls_ioctl_arg0 fd request) = λ error w.
      report-Told libc laws negative32 (ioctl_arg0 fd (sign_extend request)) error w
        negative32-Takes
  DescriptorOcall-Told laws _ _ _ (DescriptorOcall.calls_ioctl_arg1 fd request arg) = λ error w.
      report-Told libc laws negative32 (ioctl_arg1 fd (sign_extend request) arg) error w
        negative32-Takes
  DescriptorOcall-Told laws _ _ _ (DescriptorOcall.calls_close fd) =
      λ error w. report-Told libc laws negative32 (close fd) error w negative32-Takes
  DescriptorOcall-Told laws _ _ _ (DescriptorOcall.calls_isatty fd) =
      λ error w. report-Told libc laws is_null (isatty fd) error w is_zero-Takes
  DescriptorOcall-Told laws _ _ _ (DescriptorOcall.calls_dup oldfd) =
      λ error w. report-Told libc laws negative32 (dup oldfd) error w negative32-Takes
  DescriptorOcall-Told laws _ _ _ (DescriptorOcall.calls_eventfd initval flags) =
      λ error w. report-Told libc laws negative32 (eventfd initval flags) error w negative32-Takes
  DescriptorOcall-Told laws _ _ _ (DescriptorOcall.calls_futimens fd times) =
      λ error w. report-Told libc laws negative32 (futimens fd times) error w negative32-Takes
  DescriptorOcall-Told laws _ _ _ (DescriptorOcall.calls_pipe fds) =
      λ error w. report-Told libc laws negative32 (pipe fds) error w negative32-Takes
  DescriptorOcall-Told laws _ _ _ (DescriptorOcall.calls_pipe2 fds flags) =
      λ error w. report-Told libc laws negative32 (pipe2 fds flags) error w negative32-Takes
