-- ===== src/Urts/Signal/Dispatch.antt =====
-- sgx-urts/src/signal.rs: what clearing an enclave's signals leaves of the dispatcher and of the
-- process.
use mathlib.Core.Path.{fun_ext}
use sgx_sdk_rs.Base.{
  ℕ, zero, suc, ◌≤◌, ◌≡◌, ◌≢◌, inl, inr, refl, ap, ◌∙◌, arith, Bool, true, false, ◌==◌, ◌&&◌, not,
  leb, if◌then◌else◌, Option, none, some, Bool-cases, ==_iff,
}
use sgx_sdk_rs.Urts.Signal.{
  LibC, IsLibC, SignalDispatcher, from_raw, is_for, sig_dfl, sig_setmask, get_eid_for_signal,
  reset_handlers, deregister_all_signals_for_eid,
}

-- One more signal is looked at.
one_more :
    (n s : ℕ) (flag : ℕ → Bool) (new old : ℕ)
    → (if leb 1 s && (leb s n && flag s)
        then new
        else if s == suc n && flag (suc n)
        then new
        else old)
      ≡ (if leb 1 s && (leb s (suc n) && flag s) then new else old)
one_more n s flag new old = elim (Bool-cases (s == suc n)) [
  | inl e ↦ rw ((==_iff _ _).0 e) (ground arith)
  | inr e ↦ ground (arith, e)
]

for_own : (eid : ℕ) → is_for (some eid) eid ≡ true
for_own eid = ground arith

for_other : (o : Option ℕ) (eid : ℕ) → o ≢ some eid → is_for o eid ≡ false
for_other none eid other = refl
for_other (some v) eid other = elim (Bool-cases (v == eid)) [
  | inl e ↦ absurd (other (ap some ((==_iff _ _).0 e)))
  | inr e ↦ e
]

owned :
    (s eid : ℕ) (fixed : Bool) (old : ℕ)
    → 1 ≤ s
    → s ≤ 64
    → (if leb 1 s && (leb s 64 && (is_for (some eid) eid && not fixed)) then sig_dfl else old)
      ≡ (if fixed then old else sig_dfl)
owned s eid fixed old low high = ground (arith, low, high)

with_flag : (b : Bool) (x y : ℕ) → (if b then x else y) ≡ (if b && true then x else y)
with_flag b x y = ground arith

without_flag : (b : Bool) (x y : ℕ) → y ≡ (if b && false then x else y)
without_flag b x y = ground arith

module _ {W Set : Type 0} (libc : LibC W Set) (laws : IsLibC libc) where
  open laws use {
    unchangeable, blocks, handler, blockable, empty_contains, setmask_blocks, setmask_handler,
    signal_handler, signal_refused,
  }

  valid : (n : ℕ) → suc n ≤ 64 → from_raw (suc n) ≡ some (suc n)
  unfolding from_raw
  valid n small = ground (arith, small)

  -- The signals that are set to their default.
  abbrev resets : ℕ → SignalDispatcher → ℕ → Bool
  resets eid d s = is_for (d s) eid && not (unchangeable s)

  abbrev reset_up_to : ℕ → ℕ → SignalDispatcher → (ℕ → ℕ) → ℕ → ℕ
  reset_up_to n eid d old s = if leb 1 s && (leb s n && resets eid d s) then sig_dfl else old s

  -- One call of `signal`, if it is made.
  reset_one :
      (n : ℕ) (own : Bool) (w : W)
      → suc n ≤ 64
      → handler (if own then (libc.signal (suc n) sig_dfl w).1 else w)
        ≡ (λ s. if s == suc n && (own && not (unchangeable (suc n))) then sig_dfl else handler w s)
  reset_one n false w small = fun_ext (λ s. without_flag (s == suc n) sig_dfl (handler w s))
  reset_one n true w small = elim (Bool-cases (unchangeable (suc n))) [
    | inl h ↦
        signal_refused (suc n) w (valid n small) h
        ∙ fun_ext (λ s. rw h (without_flag (s == suc n) sig_dfl (handler w s)))
    | inr h ↦
        signal_handler (suc n) w (valid n small) h
        ∙ fun_ext (λ s. rw h (with_flag (s == suc n) sig_dfl (handler w s)))
  ]

  reset_handlers_lem :
      (n eid : ℕ) (d : SignalDispatcher) (w : W)
      → n ≤ 64
      → handler (reset_handlers libc n eid d w) ≡ reset_up_to n eid d (handler w)
  unfolding reset_handlers
  reset_handlers_lem zero eid d w small = fun_ext (λ s. ground arith)
  reset_handlers_lem (suc n) eid d w small =
      let own = is_for (d (suc n)) eid in
      let w' = if own then (libc.signal (suc n) sig_dfl w).1 else w in
      reset_handlers_lem n eid d w' (omega (arith, small))
      ∙ fun_ext
          (λ s. rw (reset_one n own w small) (one_more n s (resets eid d) sig_dfl (handler w s)))

  -- Setting the mask to `oldmask`, which is empty, unblocks every signal.
  pub unblocked :
      (w : W) (n : ℕ) → blocks (libc.sigprocmask sig_setmask (some libc.sigemptyset) w).2 n ≡ false
  unblocked w n =
      setmask_blocks libc.sigemptyset w n ∙ ap (λ b. b && blockable n) (empty_contains n)

  -- `deregister_all_signals_for_eid` forgets the signals of its enclave and those of no other; it sets
  -- the handlers of the former that are between 1 and 64 back to the default, but for a signal whose
  -- handling cannot be changed, and leaves every other handler as it was; and afterwards the process
  -- blocks no signal, whatever it had blocked before.
  pub deregister_all_signals_for_eid_lem :
      (eid : ℕ) (d : SignalDispatcher) (w : W)
      → let (d', w') = deregister_all_signals_for_eid libc eid (d, w) in
        ((s : ℕ)
          → get_eid_for_signal s d ≡ some eid
          → (get_eid_for_signal s d' ≡ none)
            × (1 ≤ s → s ≤ 64 → handler w' s ≡ (if unchangeable s then handler w s else sig_dfl)))
        × ((s : ℕ)
            → get_eid_for_signal s d ≢ some eid
            → (get_eid_for_signal s d' ≡ get_eid_for_signal s d) × (handler w' s ≡ handler w s))
        × ((s : ℕ) → blocks w' s ≡ false)
  unfolding deregister_all_signals_for_eid get_eid_for_signal
  deregister_all_signals_for_eid_lem eid d w =
      let handlers =
        setmask_handler libc.sigemptyset _
        ∙ reset_handlers_lem 64 eid d (libc.sigprocmask 2 (some libc.sigfillset) w).2 (omega arith)
        ∙ ap (reset_up_to 64 eid d) (setmask_handler libc.sigfillset w) in
      (
        λ s own. (
          rw (own, for_own eid) refl,
          λ low high. rw (handlers, own) (owned s eid (unchangeable s) (handler w s) low high),
        ),
        λ s other. (
          rw (for_other (d s) eid other) refl,
          rw (handlers, for_other (d s) eid other) (ground arith),
        ),
        unblocked _,
      )
