-- ===== src/Urts/Signal.antt =====
-- sgx-urts/src/signal.rs: which enclave handles which signal. The C library's calls are a parameter;
-- `W` is the state of the process that they read and change, `Set` the type `sigset_t`.
pub mod Dispatch
pub mod Register
pub mod Tests
use sgx_sdk_rs.Base.{
  ℕ, zero, suc, ◌+◌, ◌^◌, ◌≡◌, List, [], ◌∷◌, Bool, true, false, not, ◌||◌, ◌&&◌, ltb, leb, ◌==◌,
  if◌then◌else◌, Option, none, some, bit_or, SgxStatus, sgx_success,
}
use sgx_sdk_rs.Urts.Event.{minus_one, is_negative, einval}

abbrev pub nsig : ℕ
nsig = 65

abbrev pub sig_setmask : ℕ
sig_setmask = 2

abbrev pub sig_dfl : ℕ
sig_dfl = 0

abbrev pub sa_siginfo : ℕ
sa_siginfo = 4

-- `sigaction` of the C library; a handler is its address.
pub record SigAction (Set : Type 0) : Type 0 where
  pub sa_sigaction : ℕ
  pub sa_flags : ℕ
  pub sa_mask : Set

-- A call gives what it returns, what it wrote through its pointer for the old value, and the state.
pub record LibC (W Set : Type 0) : Type 0 where
  pub sigemptyset : Set
  pub sigfillset : Set
  pub sigprocmask : ℕ → Option Set → W → ℕ × Set × W
  pub sigaction : ℕ → SigAction Set → W → ℕ × SigAction Set × W
  pub signal : ℕ → ℕ → W → ℕ × W
  pub raise : ℕ → W → ℕ × W
  pub errno : W → ℕ

-- `SigNum::from_raw`, on the bit pattern of an `i32`.
unfoldable pub from_raw : ℕ → Option ℕ
from_raw signo = if is_negative signo || signo == 0 || leb nsig signo then none else some signo

-- The map from signals to enclaves. Its keys come out of `from_raw`.
abbrev pub SignalDispatcher : Type 0
SignalDispatcher = ℕ → Option ℕ

abbrev pub new_dispatcher : SignalDispatcher
new_dispatcher signo = none

abbrev pub is_for : Option ℕ → ℕ → Bool
is_for none eid = false
is_for (some v) eid = v == eid

unfoldable pub get_eid_for_signal : ℕ → SignalDispatcher → Option ℕ
get_eid_for_signal signo d = d signo

module _ {W Set : Type 0} (libc : LibC W Set) where
  -- `oldmask.raw()` is a copy, so `oldmask` itself stays the empty set.
  unfoldable pub register_signal : ℕ → ℕ → SignalDispatcher × W → Option ℕ × SignalDispatcher × W
  register_signal signo enclave_id (d, w) =
      let mask = libc.sigfillset in
      let oldmask = libc.sigemptyset in
      let blocked = (libc.sigprocmask sig_setmask (some mask) w).2 in
      let d' : SignalDispatcher = λ s. if s == signo then some enclave_id else d s in
      (d signo, d', (libc.sigprocmask sig_setmask (some oldmask) blocked).2)

  -- The handlers that `retain` resets, over the keys up to `n`; it visits them in some order.
  unfoldable pub reset_handlers : ℕ → ℕ → SignalDispatcher → W → W
  reset_handlers zero eid d w = w
  reset_handlers (suc n) eid d w =
      let w' = if is_for (d (suc n)) eid then (libc.signal (suc n) sig_dfl w).1 else w in
      reset_handlers n eid d w'

  unfoldable pub deregister_all_signals_for_eid : ℕ → SignalDispatcher × W → SignalDispatcher × W
  unfolding reset_handlers
  deregister_all_signals_for_eid eid (d, w) =
      let mask = libc.sigfillset in
      let oldmask = libc.sigemptyset in
      let blocked = (libc.sigprocmask sig_setmask (some mask) w).2 in
      let reset = reset_handlers 64 eid d blocked in
      (
        λ s. if is_for (d s) eid then none else d s,
        (libc.sigprocmask sig_setmask (some oldmask) reset).2,
      )

  -- `t_signal_handler_ecall eid` is the call into an enclave: its status, and what it wrote to
  -- `retval`, which is 0 before.
  unfoldable pub handle_signal : (ℕ → W → SgxStatus × ℕ × W) → ℕ → SignalDispatcher × W → ℕ × W
  unfolding get_eid_for_signal
  handle_signal t_signal_handler_ecall signo (d, w) = elim (get_eid_for_signal signo d) [
    | none ↦ (minus_one, w)
    | some eid ↦
        let (result, retval, w') = t_signal_handler_ecall eid w in
        if not (result == sgx_success) then (minus_one, w') else (retval, w')
  ]

  -- The handler that is installed; `info` is not null.
  unfoldable pub handle_signal_entry : (ℕ → W → SgxStatus × ℕ × W) → ℕ → SignalDispatcher × W → W
  unfolding from_raw handle_signal
  handle_signal_entry t_signal_handler_ecall signum (d, w) = elim (from_raw signum) [
    | none ↦ w
    | some signo ↦ (handle_signal t_signal_handler_ecall signo (d, w)).1
  ]

  -- How `u_sigaction_ocall` ends; `oldact` is what it wrote there.
  pub record SigactionOcall : Type 0 where
    pub ret : ℕ
    pub error : ℕ
    pub oldact : Option (SigAction Set)
    pub dispatcher : SignalDispatcher
    pub world : W

  abbrev pub errno_of : ℕ → W → ℕ
  errno_of ret w = if is_negative ret then libc.errno w else 0

  -- `entry` is the address of `handle_signal_entry`.
  unfoldable pub u_sigaction_ocall :
      ℕ → ℕ → Option (SigAction Set) → ℕ → SignalDispatcher × W → SigactionOcall
  unfolding from_raw register_signal
  u_sigaction_ocall entry signum none enclave_id (d, w) = record {
    ret = minus_one;
    error = einval;
    oldact = none;
    dispatcher = d;
    world = w;
  }
  u_sigaction_ocall entry signum (some e_act) enclave_id (d, w) = elim (from_raw signum) [
    | none ↦ record { ret = minus_one; error = einval; oldact = none; dispatcher = d; world = w }
    | some signo ↦
        let (_, d', registered) = register_signal signo enclave_id (d, w) in
        let new_act : SigAction Set = record {
          sa_sigaction = entry;
          sa_flags = bit_or e_act.sa_flags sa_siginfo;
          sa_mask = e_act.sa_mask;
        } in
        let (ret, _, w') = libc.sigaction signum new_act registered in
        let (ret', old', w'') = libc.sigaction signum e_act w in
        if e_act.sa_sigaction == 0
        then record {
          ret = ret;
          error = errno_of ret w';
          oldact = none;
          dispatcher = d';
          world = w';
        }
        else record {
          ret = ret';
          error = errno_of ret' w'';
          oldact = some old';
          dispatcher = d;
          world = w'';
        }
  ]

  unfoldable pub u_sigprocmask_ocall : ℕ → Option Set → W → ℕ × ℕ × Set × W
  u_sigprocmask_ocall signum set w =
      let (ret, oldset, w') = libc.sigprocmask signum set w in (ret, errno_of ret w', oldset, w')

  unfoldable pub u_raise_ocall : ℕ → W → ℕ × W
  u_raise_ocall signum w = libc.raise signum w

  unfoldable pub u_signal_clear_ocall : ℕ → SignalDispatcher × W → SignalDispatcher × W
  unfolding deregister_all_signals_for_eid
  u_signal_clear_ocall eid s = deregister_all_signals_for_eid eid s

-- What POSIX says of these calls, if no signal is delivered while they run: setting the mask succeeds
-- and blocks the signals of the set that can be blocked, which SIGKILL, SIGSTOP and those reserved by
-- the C library cannot; `signal` sets a signal to its default or, for one whose handling cannot be
-- changed, gives SIG_ERR and changes nothing; a `sigaction` that does not fail installs its handler,
-- one that fails does not, and the mask stays as it is.
pub record IsLibC {W Set : Type 0} (libc : LibC W Set) : Type 0 where
  pub contains : Set → ℕ → Bool
  pub blockable : ℕ → Bool
  pub unchangeable : ℕ → Bool
  pub blocks : W → ℕ → Bool
  pub handler : W → ℕ → ℕ
  pub empty_contains : (n : ℕ) → contains libc.sigemptyset n ≡ false
  pub setmask_blocks :
      (s : Set) (w : W) (n : ℕ)
      → blocks (libc.sigprocmask sig_setmask (some s) w).2 n ≡ contains s n && blockable n
  pub setmask_handler :
      (s : Set) (w : W) → handler (libc.sigprocmask sig_setmask (some s) w).2 ≡ handler w
  pub signal_handler :
      (signo : ℕ) (w : W)
      → from_raw signo ≡ some signo
      → unchangeable signo ≡ false
      → handler (libc.signal signo sig_dfl w).1 ≡ (λ s. if s == signo then sig_dfl else handler w s)
  pub signal_refused :
      (signo : ℕ) (w : W)
      → from_raw signo ≡ some signo
      → unchangeable signo ≡ true
      → handler (libc.signal signo sig_dfl w).1 ≡ handler w
  pub sigaction_handler :
      (signo : ℕ) (act : SigAction Set) (w : W)
      → from_raw signo ≡ some signo
      → is_negative (libc.sigaction signo act w).0 ≡ false
      → handler (libc.sigaction signo act w).2
        ≡ (λ s. if s == signo then act.sa_sigaction else handler w s)
  pub sigaction_refused :
      (signo : ℕ) (act : SigAction Set) (w : W)
      → from_raw signo ≡ some signo
      → is_negative (libc.sigaction signo act w).0 ≡ true
      → handler (libc.sigaction signo act w).2 ≡ handler w
  pub sigaction_blocks :
      (signo : ℕ) (act : SigAction Set) (w : W) (n : ℕ)
      → blocks (libc.sigaction signo act w).2 n ≡ blocks w n
