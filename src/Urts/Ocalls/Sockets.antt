-- ===== src/Urts/Ocalls/Sockets.antt =====
-- sgx-urts/src/socket.rs and net.rs: the calls out of the enclave on sockets.
pub mod Errors
use sgx_sdk_rs.Base.{ℕ}
use sgx_sdk_rs.Urts.Libc.{
  Libc, accept, accept4, bind, connect, getaddrinfo, getpeername, getsockname, getsockopt, listen,
  recv, recvfrom, send, sendto, setsockopt, shutdown, socket, socketpair,
}
use sgx_sdk_rs.Urts.Ocalls.Report.{report, is_eai_system, negative32, negative64}

module _ {W : Type 0} (libc : Libc W) where
  unfoldable pub u_getaddrinfo_ocall : ℕ → ℕ → ℕ → ℕ → ℕ → W → ℕ × W
  u_getaddrinfo_ocall error node service hints res =
      report libc is_eai_system (getaddrinfo node service hints res) error

  unfoldable pub u_socket_ocall : ℕ → ℕ → ℕ → ℕ → W → ℕ × W
  u_socket_ocall error domain ty protocol = report libc negative32 (socket domain ty protocol) error

  unfoldable pub u_socketpair_ocall : ℕ → ℕ → ℕ → ℕ → ℕ → W → ℕ × W
  u_socketpair_ocall error domain ty protocol sv =
      report libc negative32 (socketpair domain ty protocol sv) error

  unfoldable pub u_bind_ocall : ℕ → ℕ → ℕ → ℕ → W → ℕ × W
  u_bind_ocall error sockfd address addrlen =
      report libc negative32 (bind sockfd address addrlen) error

  unfoldable pub u_listen_ocall : ℕ → ℕ → ℕ → W → ℕ × W
  u_listen_ocall error sockfd backlog = report libc negative32 (listen sockfd backlog) error

  unfoldable pub u_accept_ocall : ℕ → ℕ → ℕ → ℕ → ℕ → W → ℕ × W
  u_accept_ocall error sockfd addr addrlen_in addrlen_out w =
      report libc negative32 (accept sockfd addr addrlen_out) error
        (libc.write_int addrlen_out addrlen_in w)

  unfoldable pub u_accept4_ocall : ℕ → ℕ → ℕ → ℕ → ℕ → ℕ → W → ℕ × W
  u_accept4_ocall error sockfd addr addrlen_in addrlen_out flags w =
      report libc negative32 (accept4 sockfd addr addrlen_out flags) error
        (libc.write_int addrlen_out addrlen_in w)

  unfoldable pub u_connect_ocall : ℕ → ℕ → ℕ → ℕ → W → ℕ × W
  u_connect_ocall error sockfd address addrlen =
      report libc negative32 (connect sockfd address addrlen) error

  unfoldable pub u_recv_ocall : ℕ → ℕ → ℕ → ℕ → ℕ → W → ℕ × W
  u_recv_ocall error sockfd buf len flags = report libc negative64 (recv sockfd buf len flags) error

  unfoldable pub u_recvfrom_ocall : ℕ → ℕ → ℕ → ℕ → ℕ → ℕ → ℕ → ℕ → W → ℕ × W
  u_recvfrom_ocall error sockfd buf len flags src_addr addrlen_in addrlen_out w =
      report libc negative64 (recvfrom sockfd buf len flags src_addr addrlen_out) error
        (libc.write_int addrlen_out addrlen_in w)

  unfoldable pub u_send_ocall : ℕ → ℕ → ℕ → ℕ → ℕ → W → ℕ × W
  u_send_ocall error sockfd buf len flags = report libc negative64 (send sockfd buf len flags) error

  unfoldable pub u_sendto_ocall : ℕ → ℕ → ℕ → ℕ → ℕ → ℕ → ℕ → W → ℕ × W
  u_sendto_ocall error sockfd buf len flags dest_addr addrlen =
      report libc negative64 (sendto sockfd buf len flags dest_addr addrlen) error

  unfoldable pub u_getsockopt_ocall : ℕ → ℕ → ℕ → ℕ → ℕ → ℕ → ℕ → W → ℕ × W
  u_getsockopt_ocall error sockfd level optname optval optlen_in optlen_out w =
      report libc negative32 (getsockopt sockfd level optname optval optlen_out) error
        (libc.write_int optlen_out optlen_in w)

  unfoldable pub u_setsockopt_ocall : ℕ → ℕ → ℕ → ℕ → ℕ → ℕ → W → ℕ × W
  u_setsockopt_ocall error sockfd level optname optval optlen =
      report libc negative32 (setsockopt sockfd level optname optval optlen) error

  unfoldable pub u_getsockname_ocall : ℕ → ℕ → ℕ → ℕ → ℕ → W → ℕ × W
  u_getsockname_ocall error sockfd address addrlen_in addrlen_out w =
      report libc negative32 (getsockname sockfd address addrlen_out) error
        (libc.write_int addrlen_out addrlen_in w)

  unfoldable pub u_getpeername_ocall : ℕ → ℕ → ℕ → ℕ → ℕ → W → ℕ × W
  u_getpeername_ocall error sockfd address addrlen_in addrlen_out w =
      report libc negative32 (getpeername sockfd address addrlen_out) error
        (libc.write_int addrlen_out addrlen_in w)

  unfoldable pub u_shutdown_ocall : ℕ → ℕ → ℕ → W → ℕ × W
  u_shutdown_ocall error sockfd how = report libc negative32 (shutdown sockfd how) error
