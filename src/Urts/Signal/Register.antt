-- ===== src/Urts/Signal/Register.antt =====
-- sgx-urts/src/signal.rs: what installing an action leaves of the dispatcher and of the process.
use mathlib.Core.Path.{subst}
use sgx_sdk_rs.Base.{
  ℕ, ◌≤◌, ◌≡◌, ◌≢◌, ◌⊎◌, inl, inr, refl, sym, ap, ◌∙◌, arith, true, false, ◌==◌, if◌then◌else◌,
  Option, none, some, Bool-cases, bit_or, Option-cases, ==_iff,
}
use sgx_sdk_rs.Urts.Event.{minus_one, is_negative, einval}
use sgx_sdk_rs.Urts.Signal.{
  LibC, IsLibC, SigAction, SigactionOcall, SignalDispatcher, errno_of, sa_siginfo, from_raw,
  register_signal, u_sigaction_ocall,
}
use sgx_sdk_rs.Urts.Signal.Dispatch.{unblocked}

from_raw-none : (signum : ℕ) → from_raw signum ≡ none → ¬ ((1 ≤ signum) × (signum ≤ 64))
unfolding from_raw
from_raw-none signum refused (low, high) = absurd (ground (arith, refused, low, high))

from_raw-some :
    (signum signo : ℕ)
    → from_raw signum ≡ some signo
    → (1 ≤ signum) × (signum ≤ 64) × (from_raw signum ≡ some signum)
unfolding from_raw
from_raw-some signum signo h = (ground (arith, h), ground (arith, h), ground (arith, h))

module _ {W Set : Type 0} (libc : LibC W Set) (laws : IsLibC libc) where
  open laws use {
    blocks, handler, setmask_handler, sigaction_handler, sigaction_refused, sigaction_blocks,
  }

  -- `sigaction` is called with the action in the state `r`, and its value, the error and the state
  -- are handed on.
  abbrev pub IsAnswer : ℕ → SigAction Set → W → SigactionOcall libc → Type 0
  IsAnswer signum act r o =
      (o.ret ≡ (libc.sigaction signum act r).0)
      × (o.world ≡ (libc.sigaction signum act r).2)
      × (((is_negative o.ret ≡ false)
            × (o.error ≡ 0)
            × (handler o.world ≡ (λ s. if s == signum then act.sa_sigaction else handler r s)))
          ⊎ ((is_negative o.ret ≡ true)
              × (o.error ≡ libc.errno o.world)
              × (handler o.world ≡ handler r)))
      × ((n : ℕ) → blocks o.world n ≡ blocks r n)

  abbrev answered :
      ℕ → SigAction Set → W → Option (SigAction Set) → SignalDispatcher → SigactionOcall libc
  answered signum act r oldact d =
      let (ret, _, w') = libc.sigaction signum act r in
      record {
        ret = ret;
        error = errno_of libc ret w';
        oldact = oldact;
        dispatcher = d;
        world = w';
      }

  answered-IsAnswer :
      (signum : ℕ) (act : SigAction Set) (r : W) (oldact : Option (SigAction Set))
      (d : SignalDispatcher)
      → from_raw signum ≡ some signum
      → IsAnswer signum act r (answered signum act r oldact d)
  answered-IsAnswer signum act r oldact d accepted =
      (refl, refl, outcome, sigaction_blocks signum act r)
    where
      ret : ℕ
      ret = (libc.sigaction signum act r).0

      outcome :
          ((is_negative ret ≡ false)
            × (errno_of libc ret (libc.sigaction signum act r).2 ≡ 0)
            × (handler (libc.sigaction signum act r).2
                ≡ (λ s. if s == signum then act.sa_sigaction else handler r s)))
          ⊎ ((is_negative ret ≡ true)
              × (errno_of libc ret (libc.sigaction signum act r).2
                  ≡ libc.errno (libc.sigaction signum act r).2)
              × (handler (libc.sigaction signum act r).2 ≡ handler r))
      outcome = elim (Bool-cases (is_negative ret)) [
        | inl h ↦ inr (h, rw h refl, sigaction_refused signum act r accepted h)
        | inr h ↦ inl (h, rw h refl, sigaction_handler signum act r accepted h)
      ]

  -- Registering a signal leaves every handler of the process alone, and no signal blocked.
  handler-register_signal :
      (signo eid : ℕ) (d : SignalDispatcher) (w : W)
      → handler (register_signal libc signo eid (d, w)).2 ≡ handler w
  unfolding register_signal
  handler-register_signal signo eid d w =
      setmask_handler libc.sigemptyset _ ∙ setmask_handler libc.sigfillset w

  blocks-register_signal :
      (signo eid : ℕ) (d : SignalDispatcher) (w : W) (n : ℕ)
      → blocks (register_signal libc signo eid (d, w)).2 n ≡ false
  unfolding register_signal
  blocks-register_signal signo eid d w n = unblocked libc laws _ n

  -- The action with the entry in place of its handler.
  abbrev pub with_entry : ℕ → SigAction Set → SigAction Set
  with_entry entry a = record {
    sa_sigaction = entry;
    sa_flags = bit_or a.sa_flags sa_siginfo;
    sa_mask = a.sa_mask;
  }

  registers :
      (entry signum eid : ℕ) (a : SigAction Set) (d : SignalDispatcher) (w : W)
      → from_raw signum ≡ some signum
      → a.sa_sigaction == 0 ≡ true
      → u_sigaction_ocall libc entry signum (some a) eid (d, w)
        ≡ answered signum
            (with_entry entry a)
            (register_signal libc signum eid (d, w)).2
            none
            (λ s. if s == signum then some eid else d s)
  unfolding u_sigaction_ocall register_signal
  registers entry signum eid a d w accepted e = rw (u_sigaction_ocall, accepted, e) refl

  passes_on :
      (entry signum eid : ℕ) (a : SigAction Set) (d : SignalDispatcher) (w : W)
      → from_raw signum ≡ some signum
      → a.sa_sigaction == 0 ≡ false
      → u_sigaction_ocall libc entry signum (some a) eid (d, w)
        ≡ answered signum a w (some (libc.sigaction signum a w).1) d
  unfolding u_sigaction_ocall
  passes_on entry signum eid a d w accepted e = rw (u_sigaction_ocall, accepted, e) refl

  -- What `u_sigaction_ocall` does on each of its ways. A signal that is not between 1 and 64 or a null
  -- action is refused with EINVAL, and nothing changes. For an action without a handler the enclave
  -- gets the signal in the dispatcher, which keeps all other signals; no signal of the process is
  -- left blocked, the handlers are as before, and then `sigaction` is called with `entry` as the
  -- handler, SA_SIGINFO added to the flags and the mask of the action. For any other action the
  -- dispatcher stays as it is, and `sigaction` is called with that action and gives the old one. Of
  -- either call the value and the state are handed on: if it succeeds the error is 0 and the signal
  -- alone has the new handler, if it fails the error is `errno` and no handler has changed, and it
  -- leaves the mask alone.
  pub u_sigaction_ocall_lem :
      (entry signum eid : ℕ) (act : Option (SigAction Set)) (d : SignalDispatcher) (w : W)
      → let o = u_sigaction_ocall libc entry signum act eid (d, w) in
        (((¬ ((1 ≤ signum) × (signum ≤ 64))) ⊎ (act ≡ none))
          × (o.ret ≡ minus_one)
          × (o.error ≡ einval)
          × (o.oldact ≡ none)
          × (o.dispatcher ≡ d)
          × (o.world ≡ w))
        ⊎ ((a : SigAction Set) × (registered : W) × (act ≡ some a)
            × (1 ≤ signum)
            × (signum ≤ 64)
            × (a.sa_sigaction ≡ 0)
            × (o.oldact ≡ none)
            × (o.dispatcher ≡ (λ s. if s == signum then some eid else d s))
            × (handler registered ≡ handler w)
            × ((n : ℕ) → blocks registered n ≡ false)
            × IsAnswer signum (with_entry entry a) registered o)
        ⊎ ((a : SigAction Set) × (act ≡ some a)
            × (1 ≤ signum)
            × (signum ≤ 64)
            × (a.sa_sigaction ≢ 0)
            × (o.oldact ≡ some (libc.sigaction signum a w).1)
            × (o.dispatcher ≡ d)
            × IsAnswer signum a w o)
  unfolding u_sigaction_ocall
  u_sigaction_ocall_lem entry signum eid none d w = inl (inr refl, refl, refl, refl, refl, refl)
  u_sigaction_ocall_lem entry signum eid (some a) d w = elim (Option-cases (from_raw signum)) [
    | inl refused ↦ inl (
      inl (from_raw-none signum refused),
      rw (u_sigaction_ocall, refused) refl,
      rw (u_sigaction_ocall, refused) refl,
      rw (u_sigaction_ocall, refused) refl,
      rw (u_sigaction_ocall, refused) refl,
      rw (u_sigaction_ocall, refused) refl,
    )
    | inr (signo, accepted) ↦
        let (low, high, fit) = from_raw-some signum signo accepted in
        elim (Bool-cases (a.sa_sigaction == 0)) [
          | inl e ↦
              let way = registers entry signum eid a d w fit e in
              let r = (register_signal libc signum eid (d, w)).2 in
              inr (
                inl (
                  a,
                  r,
                  refl,
                  low,
                  high,
                  (==_iff _ _).0 e,
                  ap (λ o. o.oldact) way,
                  ap (λ o. o.dispatcher) way,
                  handler-register_signal signum eid d w,
                  blocks-register_signal signum eid d w,
                  subst (IsAnswer signum (with_entry entry a) r) (sym way) (
                      answered-IsAnswer signum (with_entry entry a) r none
                        (λ s. if s == signum then some eid else d s) fit),
                ))
          | inr e ↦
              let way = passes_on entry signum eid a d w fit e in
              inr (
                inr (
                  a,
                  refl,
                  low,
                  high,
                  (λ z. cc (e, (==_iff _ _).1 z)),
                  ap (λ o. o.oldact) way,
                  ap (λ o. o.dispatcher) way,
                  subst (IsAnswer signum a w) (sym way)
                      (answered-IsAnswer signum a w (some (libc.sigaction signum a w).1) d fit),
                ))
        ]
  ]
