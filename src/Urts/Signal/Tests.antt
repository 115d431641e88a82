-- ===== src/Urts/Signal/Tests.antt =====
-- A process whose signals are a mask and its handlers, and the theorems on signals run there.
use sgx_sdk_rs.Base.{
  ℕ, ◌^◌, ◌-◌, ◌≡◌, ◌≢◌, ◌≤◌, ◌⊎◌, refl, sym, ◌∙◌, Bool, true, false, not, ◌||◌, ◌&&◌, ◌==◌,
  if◌then◌else◌, Option, none, some,
}
use sgx_sdk_rs.Urts.Event.{minus_one, is_negative, einval}
use sgx_sdk_rs.Urts.Signal.{
  LibC, IsLibC, SigAction, SignalDispatcher, sig_dfl, get_eid_for_signal,
  deregister_all_signals_for_eid, u_sigaction_ocall, handle_signal,
}
use sgx_sdk_rs.Urts.Signal.Dispatch.{deregister_all_signals_for_eid_lem}
use sgx_sdk_rs.Urts.Signal.Register.{IsAnswer, with_entry, u_sigaction_ocall_lem}

record Process : Type 0 where
  blocked : ℕ → Bool
  handlers : ℕ → ℕ

-- SIGKILL and SIGSTOP.
abbrev is_fixed : ℕ → Bool
is_fixed n = n == 9 || n == 19

abbrev handle_by : ℕ → ℕ → Process → Process
handle_by signo address p = record p {
  handlers = λ s. if s == signo then address else p.handlers s;
}

abbrev toy_sigprocmask : ℕ → Option (ℕ → Bool) → Process → ℕ × (ℕ → Bool) × Process
toy_sigprocmask how none p = (0, p.blocked, p)
toy_sigprocmask how (some new) p =
    (0, p.blocked, record p { blocked = λ n. new n && not (is_fixed n) })

abbrev toy_libc : LibC Process (ℕ → Bool)
toy_libc = record {
  sigemptyset = λ n. false;
  sigfillset = λ n. true;
  sigprocmask = toy_sigprocmask;
  sigaction = λ signo act p. (
    if is_fixed signo then minus_one else 0,
    record { sa_sigaction = p.handlers signo; sa_flags = 0; sa_mask = λ n. false },
    if is_fixed signo then p else handle_by signo act.sa_sigaction p,
  );
  signal = λ signo address p.
      if is_fixed signo then (2 ^ 64 - 1, p) else (p.handlers signo, handle_by signo address p);
  raise = λ signo p. (0, p);
  errno = λ p. einval;
}

-- A call that does not fail is not of these two signals, and one that does is.
toy_fails : (b : Bool) → is_negative (if b then minus_one else 0) ≡ b
toy_fails true = refl
toy_fails false = refl

toy_keeps :
    (b : Bool) (signo address : ℕ) (p : Process) (n : ℕ)
    → (if b then p else handle_by signo address p).blocked n ≡ p.blocked n
toy_keeps true signo address p n = refl
toy_keeps false signo address p n = refl

abbrev toy_libc-IsLibC : IsLibC toy_libc
toy_libc-IsLibC = record {
  contains = λ s n. s n;
  blockable = λ n. not (is_fixed n);
  unchangeable = is_fixed;
  blocks = λ p. p.blocked;
  handler = λ p. p.handlers;
  empty_contains = λ n. refl;
  setmask_blocks = λ s w n. refl;
  setmask_handler = λ s w. refl;
  signal_handler = λ signo w valid free. rw free refl;
  signal_refused = λ signo w valid fixed. rw fixed refl;
  sigaction_handler = λ signo act w valid fine. rw (sym (toy_fails (is_fixed signo)) ∙ fine) refl;
  sigaction_refused =
      λ signo act w valid failed. rw (sym (toy_fails (is_fixed signo)) ∙ failed) refl;
  sigaction_blocks = λ signo act w n. toy_keeps (is_fixed signo) signo act.sa_sigaction w n;
}

-- It blocks signal 2; signals 10 and 12 are those of the enclaves 7 and 9.
abbrev process : Process
process = record {
  blocked = λ n. n == 2;
  handlers = λ s. if s == 10 then 0x4000 else if s == 12 then 0x4000 else 0;
}

abbrev dispatcher : SignalDispatcher
dispatcher s = if s == 10 then some 7 else if s == 12 then some 9 else none

handle_run : handle_signal toy_libc (λ eid p. (0, eid, p)) 12 (dispatcher, process) ≡ (9, process)
unfolding handle_signal get_eid_for_signal
handle_run = refl

unregistered_run :
    handle_signal toy_libc (λ eid p. (0, eid, p)) 3 (dispatcher, process) ≡ (minus_one, process)
unfolding handle_signal get_eid_for_signal
unregistered_run = refl

deregister_all_signals_for_eid_lem_example :
    let (d', w') = deregister_all_signals_for_eid toy_libc 7 (dispatcher, process) in
    ((s : ℕ)
      → get_eid_for_signal s dispatcher ≡ some 7
      → (get_eid_for_signal s d' ≡ none)
        × (1 ≤ s → s ≤ 64 → w'.handlers s ≡ (if is_fixed s then process.handlers s else sig_dfl)))
    × ((s : ℕ)
        → get_eid_for_signal s dispatcher ≢ some 7
        → (get_eid_for_signal s d' ≡ get_eid_for_signal s dispatcher)
          × (w'.handlers s ≡ process.handlers s))
    × ((s : ℕ) → w'.blocked s ≡ false)
deregister_all_signals_for_eid_lem_example =
    deregister_all_signals_for_eid_lem toy_libc toy_libc-IsLibC 7 dispatcher process

abbrev action : SigAction (ℕ → Bool)
action = record { sa_sigaction = 0; sa_flags = 0; sa_mask = λ n. false }

u_sigaction_ocall_lem_example :
    let o = u_sigaction_ocall toy_libc 0x4000 14 (some action) 9 (dispatcher, process) in
    (((¬ ((1 ≤ 14) × (14 ≤ 64))) ⊎ (some action ≡ none))
      × (o.ret ≡ minus_one)
      × (o.error ≡ einval)
      × (o.oldact ≡ none)
      × (o.dispatcher ≡ dispatcher)
      × (o.world ≡ process))
    ⊎ ((a : SigAction (ℕ → Bool)) × (registered : Process) × (some action ≡ some a)
        × (1 ≤ 14)
        × (14 ≤ 64)
        × (a.sa_sigaction ≡ 0)
        × (o.oldact ≡ none)
        × (o.dispatcher ≡ (λ s. if s == 14 then some 9 else dispatcher s))
        × (registered.handlers ≡ process.handlers)
        × ((n : ℕ) → registered.blocked n ≡ false)
        × IsAnswer toy_libc toy_libc-IsLibC 14
            (with_entry toy_libc toy_libc-IsLibC 0x4000 a)
            registered
            o)
    ⊎ ((a : SigAction (ℕ → Bool)) × (some action ≡ some a)
        × (1 ≤ 14)
        × (14 ≤ 64)
        × (a.sa_sigaction ≢ 0)
        × (o.oldact ≡ some (toy_libc.sigaction 14 a process).1)
        × (o.dispatcher ≡ dispatcher)
        × IsAnswer toy_libc toy_libc-IsLibC 14 a process o)
u_sigaction_ocall_lem_example =
    u_sigaction_ocall_lem toy_libc toy_libc-IsLibC 0x4000 14 9 (some action) dispatcher process
