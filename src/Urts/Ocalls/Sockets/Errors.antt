-- ===== src/Urts/Ocalls/Sockets/Errors.antt =====
-- sgx-urts/src/socket.rs and net.rs:
-- what the calls out of the enclave on sockets tell of an error.
use sgx_sdk_rs.Base.{ℕ}
use sgx_sdk_rs.Urts.Libc.{
  Call, Libc, IsLibc, accept, accept4, bind, connect, getaddrinfo, getpeername, getsockname,
  getsockopt, listen, recv, recvfrom, send, sendto, setsockopt, shutdown, socket, socketpair,
}
use sgx_sdk_rs.Urts.Ocalls.Report.{is_eai_system, negative32, negative64}
use sgx_sdk_rs.Urts.Ocalls.Told.{
  Told, report-Told, is_eai_system-Takes, negative32-Takes, negative64-Takes,
}
use sgx_sdk_rs.Urts.Ocalls.Sockets.{
  u_getaddrinfo_ocall, u_socket_ocall, u_socketpair_ocall, u_bind_ocall, u_listen_ocall,
  u_accept_ocall, u_accept4_ocall, u_connect_ocall, u_recv_ocall, u_recvfrom_ocall, u_send_ocall,
  u_sendto_ocall, u_getsockopt_ocall, u_setsockopt_ocall, u_getsockname_ocall, u_getpeername_ocall,
  u_shutdown_ocall,
}

module _ {W : Type 0} (libc : Libc W) where
  -- What is done first, the function that is called, and the call out of the enclave as a function of
  -- the pointer for the error and the state.
  pub data SocketOcall : (W → W) → Call → (ℕ → W → ℕ × W) → Type 0 where
    calls_getaddrinfo :
        (node service hints res : ℕ)
        → SocketOcall
            (λ w. w)
            (getaddrinfo node service hints res)
            (λ error. u_getaddrinfo_ocall libc error node service hints res)
    calls_socket :
        (domain ty protocol : ℕ)
        → SocketOcall
            (λ w. w)
            (socket domain ty protocol)
            (λ error. u_socket_ocall libc error domain ty protocol)
    calls_socketpair :
        (domain ty protocol sv : ℕ)
        → SocketOcall
            (λ w. w)
            (socketpair domain ty protocol sv)
            (λ error. u_socketpair_ocall libc error domain ty protocol sv)
    calls_bind :
        (sockfd address addrlen : ℕ)
        → SocketOcall
            (λ w. w)
            (bind sockfd address addrlen)
            (λ error. u_bind_ocall libc error sockfd address addrlen)
    calls_listen :
        (sockfd backlog : ℕ)
        → SocketOcall
            (λ w. w)
            (listen sockfd backlog)
            (λ error. u_listen_ocall libc error sockfd backlog)
    calls_accept :
        (sockfd addr addrlen_in addrlen_out : ℕ)
        → SocketOcall
            (libc.write_int addrlen_out addrlen_in)
            (accept sockfd addr addrlen_out)
            (λ error. u_accept_ocall libc error sockfd addr addrlen_in addrlen_out)
    calls_accept4 :
        (sockfd addr addrlen_in addrlen_out flags : ℕ)
        → SocketOcall
            (libc.write_int addrlen_out addrlen_in)
            (accept4 sockfd addr addrlen_out flags)
            (λ error. u_accept4_ocall libc error sockfd addr addrlen_in addrlen_out flags)
    calls_connect :
        (sockfd address addrlen : ℕ)
        → SocketOcall
            (λ w. w)
            (connect sockfd address addrlen)
            (λ error. u_connect_ocall libc error sockfd address addrlen)
    calls_recv :
        (sockfd buf len flags : ℕ)
        → SocketOcall
            (λ w. w)
            (recv sockfd buf len flags)
            (λ error. u_recv_ocall libc error sockfd buf len flags)
    calls_recvfrom :
        (sockfd buf len flags src_addr addrlen_in addrlen_out : ℕ)
        → SocketOcall
            (libc.write_int addrlen_out addrlen_in)
            (recvfrom sockfd buf len flags src_addr addrlen_out)
            (λ error.
              u_recvfrom_ocall libc error sockfd buf len flags src_addr addrlen_in addrlen_out)
    calls_send :
        (sockfd buf len flags : ℕ)
        → SocketOcall
            (λ w. w)
            (send sockfd buf len flags)
            (λ error. u_send_ocall libc error sockfd buf len flags)
    calls_sendto :
        (sockfd buf len flags dest_addr addrlen : ℕ)
        → SocketOcall
            (λ w. w)
            (sendto sockfd buf len flags dest_addr addrlen)
            (λ error. u_sendto_ocall libc error sockfd buf len flags dest_addr addrlen)
    calls_getsockopt :
        (sockfd level optname optval optlen_in optlen_out : ℕ)
        → SocketOcall
            (libc.write_int optlen_out optlen_in)
            (getsockopt sockfd level optname optval optlen_out)
            (λ error.
              u_getsockopt_ocall libc error sockfd level optname optval optlen_in optlen_out)
    calls_setsockopt :
        (sockfd level optname optval optlen : ℕ)
        → SocketOcall
            (λ w. w)
            (setsockopt sockfd level optname optval optlen)
            (λ error. u_setsockopt_ocall libc error sockfd level optname optval optlen)
    calls_getsockname :
        (sockfd address addrlen_in addrlen_out : ℕ)
        → SocketOcall
            (libc.write_int addrlen_out addrlen_in)
            (getsockname sockfd address addrlen_out)
            (λ error. u_getsockname_ocall libc error sockfd address addrlen_in addrlen_out)
    calls_getpeername :
        (sockfd address addrlen_in addrlen_out : ℕ)
        → SocketOcall
            (libc.write_int addrlen_out addrlen_in)
            (getpeername sockfd address addrlen_out)
            (λ error. u_getpeername_ocall libc error sockfd address addrlen_in addrlen_out)
    calls_shutdown :
        (sockfd how : ℕ)
        → SocketOcall
            (λ w. w)
            (shutdown sockfd how)
            (λ error. u_shutdown_ocall libc error sockfd how)

  pub SocketOcall-Told :
      IsLibc libc
      → (before : W → W) (c : Call) (run : ℕ → W → ℕ × W) → SocketOcall before c run
      → (error : ℕ) (w : W) → Told libc c error (libc.call c (before w)) (run error w)
  unfolding u_getaddrinfo_ocall u_socket_ocall u_socketpair_ocall u_bind_ocall u_listen_ocall
      u_accept_ocall u_accept4_ocall u_connect_ocall u_recv_ocall u_recvfrom_ocall u_send_ocall
      u_sendto_ocall u_getsockopt_ocall u_setsockopt_ocall u_getsockname_ocall u_getpeername_ocall
      u_shutdown_ocall
  SocketOcall-Told laws _ _ _ (SocketOcall.calls_getaddrinfo node service hints res) = λ error w.
      report-Told libc laws is_eai_system (getaddrinfo node service hints res) error w
        is_eai_system-Takes
  SocketOcall-Told laws _ _ _ (SocketOcall.calls_socket domain ty protocol) = λ error w.
      report-Told libc laws negative32 (socket domain ty protocol) error w negative32-Takes
  SocketOcall-Told laws _ _ _ (SocketOcall.calls_socketpair domain ty protocol sv) = λ error w.
      report-Told libc laws negative32 (socketpair domain ty protocol sv) error w negative32-Takes
  SocketOcall-Told laws _ _ _ (SocketOcall.calls_bind sockfd address addrlen) = λ error w.
      report-Told libc laws negative32 (bind sockfd address addrlen) error w negative32-Takes
  SocketOcall-Told laws _ _ _ (SocketOcall.calls_listen sockfd backlog) =
      λ error w. report-Told libc laws negative32 (listen sockfd backlog) error w negative32-Takes
  SocketOcall-Told laws _ _ _ (SocketOcall.calls_accept sockfd addr addrlen_in addrlen_out) =
      λ error w.
        report-Told libc laws negative32 (accept sockfd addr addrlen_out) error
          (libc.write_int addrlen_out addrlen_in w) negative32-Takes
  SocketOcall-Told laws _ _ _ (SocketOcall.calls_accept4 sockfd addr addrlen_in addrlen_out flags) =
      λ error w.
        report-Told libc laws negative32 (accept4 sockfd addr addrlen_out flags) error
          (libc.write_int addrlen_out addrlen_in w) negative32-Takes
  SocketOcall-Told laws _ _ _ (SocketOcall.calls_connect sockfd address addrlen) = λ error w.
      report-Told libc laws negative32 (connect sockfd address addrlen) error w negative32-Takes
  SocketOcall-Told laws _ _ _ (SocketOcall.calls_recv sockfd buf len flags) = λ error w.
      report-Told libc laws negative64 (recv sockfd buf len flags) error w negative64-Takes
  SocketOcall-Told laws _ _ _
        (SocketOcall.calls_recvfrom sockfd buf len flags src_addr addrlen_in addrlen_out) =
      λ error w.
        report-Told libc laws negative64 (recvfrom sockfd buf len flags src_addr addrlen_out) error
          (libc.write_int addrlen_out addrlen_in w) negative64-Takes
  SocketOcall-Told laws _ _ _ (SocketOcall.calls_send sockfd buf len flags) = λ error w.
      report-Told libc laws negative64 (send sockfd buf len flags) error w negative64-Takes
  SocketOcall-Told laws _ _ _ (SocketOcall.calls_sendto sockfd buf len flags dest_addr addrlen) =
      λ error w.
        report-Told libc laws negative64 (sendto sockfd buf len flags dest_addr addrlen) error w
          negative64-Takes
  SocketOcall-Told laws _ _ _
        (SocketOcall.calls_getsockopt sockfd level optname optval optlen_in optlen_out) =
      λ error w.
        report-Told libc laws negative32 (getsockopt sockfd level optname optval optlen_out) error
          (libc.write_int optlen_out optlen_in w) negative32-Takes
  SocketOcall-Told laws _ _ _ (SocketOcall.calls_setsockopt sockfd level optname optval optlen) =
      λ error w.
        report-Told libc laws negative32 (setsockopt sockfd level optname optval optlen) error w
          negative32-Takes
  SocketOcall-Told laws _ _ _
        (SocketOcall.calls_getsockname sockfd address addrlen_in addrlen_out) =
      λ error w.
        report-Told libc laws negative32 (getsockname sockfd address addrlen_out) error
          (libc.write_int addrlen_out addrlen_in w) negative32-Takes
  SocketOcall-Told laws _ _ _
        (SocketOcall.calls_getpeername sockfd address addrlen_in addrlen_out) =
      λ error w.
        report-Told libc laws negative32 (getpeername sockfd address addrlen_out) error
          (libc.write_int addrlen_out addrlen_in w) negative32-Takes
  SocketOcall-Told laws _ _ _ (SocketOcall.calls_shutdown sockfd how) =
      λ error w. report-Told libc laws negative32 (shutdown sockfd how) error w negative32-Takes
