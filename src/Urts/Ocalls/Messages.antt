-- ===== src/Urts/Ocalls/Messages.antt =====
-- sgx-urts/src/socket.rs: messages. The functions that take a header are a parameter, and give back
-- the header that they leave.
use sgx_sdk_rs.Base.{ℕ, ◌-◌, ◌^◌, ◌==◌, ◌||◌, if◌then◌else◌}
use sgx_sdk_rs.Urts.Event.{einval}
use sgx_sdk_rs.Urts.Libc.{Answer, Libc}
use sgx_sdk_rs.Urts.Ocalls.Report.{store_error, negative64}

pub record Msghdr : Type 0 where
  pub msg_name : ℕ
  pub msg_namelen : ℕ
  pub msg_iov : ℕ
  pub msg_iovlen : ℕ
  pub msg_control : ℕ
  pub msg_controllen : ℕ
  pub msg_flags : ℕ

pub record MessageLib (W : Type 0) : Type 0 where
  pub recvmsg : ℕ → Msghdr → ℕ → W → Answer W × Msghdr
  pub sendmsg : ℕ → Msghdr → ℕ → W → Answer W

-- Where a receiver wants the lengths and flags; and the header that both directions build.
pub record Outputs : Type 0 where
  pub msg_namelen_out : ℕ
  pub msg_controllen_out : ℕ
  pub msg_flags_out : ℕ

module _ {W : Type 0} (libc : Libc W) (messages : MessageLib W) where
  unfoldable pub u_recvmsg_ocall : ℕ → ℕ → Msghdr → Outputs → ℕ → W → ℕ × W
  unfolding store_error
  u_recvmsg_ocall error sockfd header out flags w =
      let (answer, msg) = messages.recvmsg sockfd (record header { msg_flags = 0 }) flags w in
      let lengths = libc.write_int out.msg_flags_out msg.msg_flags (
        libc.write_word out.msg_controllen_out msg.msg_controllen
          (libc.write_int out.msg_namelen_out msg.msg_namelen answer.world)) in
      if out.msg_namelen_out == 0 || out.msg_controllen_out == 0 || out.msg_flags_out == 0
      then (2 ^ 64 - 1, store_error libc error einval w)
      else if negative64 answer.value
      then (answer.value, store_error libc error answer.errno answer.world)
      else (answer.value, store_error libc error 0 lengths)

  unfoldable pub u_sendmsg_ocall : ℕ → ℕ → Msghdr → ℕ → W → ℕ × W
  unfolding store_error
  u_sendmsg_ocall error sockfd header flags w =
      let answer = messages.sendmsg sockfd (record header { msg_flags = 0 }) flags w in
      let errno = if negative64 answer.value then answer.errno else 0 in
      (answer.value, store_error libc error errno answer.world)
