-- ===== src/Urts/Ocalls/Descriptors/Calls.antt =====
-- sgx-urts/src/fd.rs, pipe.rs and asyncio.rs: the calls out of the enclave on descriptors that report
-- an error, with the function that each calls.
use sgx_sdk_rs.Base.{ℕ}
use sgx_sdk_rs.Urts.Libc.{
  Call, Libc, close, copy_file_range, dup, epoll_create1, epoll_ctl, epoll_wait, eventfd,
  fcntl_arg0, fcntl_arg1, futimens, ioctl_arg0, ioctl_arg1, isatty, pipe, pipe2, poll, pread64,
  preadv64, pwrite64, pwritev64, read, readv, sendfile, splice, write, writev,
}
use sgx_sdk_rs.Urts.Ocalls.Report.{sign_extend}
use sgx_sdk_rs.Urts.Ocalls.Descriptors.{
  u_poll_ocall, u_epoll_create1_ocall, u_epoll_ctl_ocall, u_epoll_wait_ocall, u_read_ocall,
  u_pread64_ocall, u_readv_ocall, u_preadv64_ocall, u_write_ocall, u_pwrite64_ocall, u_writev_ocall,
  u_pwritev64_ocall, u_sendfile_ocall, u_copy_file_range_ocall, u_splice_ocall, u_fcntl_arg0_ocall,
  u_fcntl_arg1_ocall, u_ioctl_arg0_ocall, u_ioctl_arg1_ocall, u_close_ocall, u_isatty_ocall,
  u_dup_ocall, u_eventfd_ocall, u_futimens_ocall, u_pipe_ocall, u_pipe2_ocall,
}

module _ {W : Type 0} (libc : Libc W) where
  -- What is done first, the function that is called, and the call out of the enclave as a function of
  -- the pointer for the error and the state.
  pub data DescriptorOcall : (W → W) → Call → (ℕ → W → ℕ × W) → Type 0 where
    calls_poll :
        (fds nfds timeout : ℕ)
        → DescriptorOcall
            (λ w. w)
            (poll fds nfds timeout)
            (λ error. u_poll_ocall libc error fds nfds timeout)
    calls_epoll_create1 :
        (flags : ℕ)
        → DescriptorOcall
            (λ w. w)
            (epoll_create1 flags)
            (λ error. u_epoll_create1_ocall libc error flags)
    calls_epoll_ctl :
        (epfd op fd event : ℕ)
        → DescriptorOcall
            (λ w. w)
            (epoll_ctl epfd op fd event)
            (λ error. u_epoll_ctl_ocall libc error epfd op fd event)
    calls_epoll_wait :
        (epfd events maxevents timeout : ℕ)
        → DescriptorOcall
            (λ w. w)
            (epoll_wait epfd events maxevents timeout)
            (λ error. u_epoll_wait_ocall libc error epfd events maxevents timeout)
    calls_read :
        (fd buf count : ℕ)
        → DescriptorOcall
            (λ w. w)
            (read fd buf count)
            (λ error. u_read_ocall libc error fd buf count)
    calls_pread64 :
        (fd buf count offset : ℕ)
        → DescriptorOcall
            (λ w. w)
            (pread64 fd buf count offset)
            (λ error. u_pread64_ocall libc error fd buf count offset)
    calls_readv :
        (fd iov iovcnt : ℕ)
        → DescriptorOcall
            (λ w. w)
            (readv fd iov iovcnt)
            (λ error. u_readv_ocall libc error fd iov iovcnt)
    calls_preadv64 :
        (fd iov iovcnt offset : ℕ)
        → DescriptorOcall
            (λ w. w)
            (preadv64 fd iov iovcnt offset)
            (λ error. u_preadv64_ocall libc error fd iov iovcnt offset)
    calls_write :
        (fd buf count : ℕ)
        → DescriptorOcall
            (λ w. w)
            (write fd buf count)
            (λ error. u_write_ocall libc error fd buf count)
    calls_pwrite64 :
        (fd buf count offset : ℕ)
        → DescriptorOcall
            (λ w. w)
            (pwrite64 fd buf count offset)
            (λ error. u_pwrite64_ocall libc error fd buf count offset)
    calls_writev :
        (fd iov iovcnt : ℕ)
        → DescriptorOcall
            (λ w. w)
            (writev fd iov iovcnt)
            (λ error. u_writev_ocall libc error fd iov iovcnt)
    calls_pwritev64 :
        (fd iov iovcnt offset : ℕ)
        → DescriptorOcall
            (λ w. w)
            (pwritev64 fd iov iovcnt offset)
            (λ error. u_pwritev64_ocall libc error fd iov iovcnt offset)
    calls_sendfile :
        (out_fd in_fd offset count : ℕ)
        → DescriptorOcall
            (λ w. w)
            (sendfile out_fd in_fd offset count)
            (λ error. u_sendfile_ocall libc error out_fd in_fd offset count)
    calls_copy_file_range :
        (fd_in off_in fd_out off_out len flags : ℕ)
        → DescriptorOcall
            (λ w. w)
            (copy_file_range fd_in off_in fd_out off_out len flags)
            (λ error. u_copy_file_range_ocall libc error fd_in off_in fd_out off_out len flags)
    calls_splice :
        (fd_in off_in fd_out off_out len flags : ℕ)
        → DescriptorOcall
            (λ w. w)
            (splice fd_in off_in fd_out off_out len flags)
            (λ error. u_splice_ocall libc error fd_in off_in fd_out off_out len flags)
    calls_fcntl_arg0 :
        (fd cmd : ℕ)
        → DescriptorOcall
            (λ w. w)
            (fcntl_arg0 fd cmd)
            (λ error. u_fcntl_arg0_ocall libc error fd cmd)
    calls_fcntl_arg1 :
        (fd cmd arg : ℕ)
        → DescriptorOcall
            (λ w. w)
            (fcntl_arg1 fd cmd arg)
            (λ error. u_fcntl_arg1_ocall libc error fd cmd arg)
    calls_ioctl_arg0 :
        (fd request : ℕ)
        → DescriptorOcall
            (λ w. w)
            (ioctl_arg0 fd (sign_extend request))
            (λ error. u_ioctl_arg0_ocall libc error fd request)
    calls_ioctl_arg1 :
        (fd request arg : ℕ)
        → DescriptorOcall
            (λ w. w)
            (ioctl_arg1 fd (sign_extend request) arg)
            (λ error. u_ioctl_arg1_ocall libc error fd request arg)
    calls_close :
        (fd : ℕ) → DescriptorOcall (λ w. w) (close fd) (λ error. u_close_ocall libc error fd)
    calls_isatty :
        (fd : ℕ) → DescriptorOcall (λ w. w) (isatty fd) (λ error. u_isatty_ocall libc error fd)
    calls_dup :
        (oldfd : ℕ) → DescriptorOcall (λ w. w) (dup oldfd) (λ error. u_dup_ocall libc error oldfd)
    calls_eventfd :
        (initval flags : ℕ)
        → DescriptorOcall
            (λ w. w)
            (eventfd initval flags)
            (λ error. u_eventfd_ocall libc error initval flags)
    calls_futimens :
        (fd times : ℕ)
        → DescriptorOcall
            (λ w. w)
            (futimens fd times)
            (λ error. u_futimens_ocall libc error fd times)
    calls_pipe :
        (fds : ℕ) → DescriptorOcall (λ w. w) (pipe fds) (λ error. u_pipe_ocall libc error fds)
    calls_pipe2 :
        (fds flags : ℕ)
        → DescriptorOcall (λ w. w) (pipe2 fds flags) (λ error. u_pipe2_ocall libc error fds flags)
