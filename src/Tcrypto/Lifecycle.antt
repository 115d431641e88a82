-- ===== src/Tcrypto/Lifecycle.antt =====
-- sgx-tcrypto/src/crypto.rs: what `SgxEccHandle` and `SgxAesHandle` have in common, which open a context
-- in the native library, use it in calls and close it.
pub mod Toy
use sgx_sdk_rs.Base.{
  ℕ, ◌≡◌, ◌≢◌, ◌⊎◌, ◌↔◌, inl, inr, refl, ap, ◌∙◌, arith, Bool, true, false, ◌==◌, if◌then◌else◌,
  Bool-cases, ==_iff, either, SgxStatus, ok, err, from_status, sgx_success, sgx_error_invalid_state,
}
use mathlib.Core.Path.{fun_ext}
use sgx_sdk_rs.Tcrypto.Context.{Handle, Outcome, new}

-- Which handles the library has a context for.
abbrev pub Live : Type 0
Live = ℕ → Bool

abbrev pub with_live : Live → ℕ → Live
with_live live h j = if j == h then true else live j

abbrev pub without : Live → ℕ → Live
without live h j = if j == h then false else live j

module _ {W : Type 0} where
  -- `open`, or `init`, with the native call that opens a context.
  unfoldable pub open_handle : (W → SgxStatus × ℕ × W) → Handle → W → Outcome W (Unit {0})
  open_handle open_call h w =
      let (ret, handle, w') = open_call w in
      if h.initflag
      then record { result = ok tt; this = h; world = w }
      else if ret == sgx_success
      then record { result = ok tt; this = record { handle = handle; initflag = true }; world = w' }
      else record { result = err ret; this = record h { handle = handle }; world = w' }

  unfoldable pub close_handle : (ℕ → W → SgxStatus × W) → Handle → W → Outcome W (Unit {0})
  close_handle close_call h w =
      let (ret, w') = if h.handle == 0 then (sgx_success, w) else close_call h.handle w in
      if h.initflag
      then if ret == sgx_success
        then record { result = ok tt; this = new; world = w' }
        else record { result = err ret; this = h; world = w' }
      else record { result = ok tt; this = h; world = w }

  -- The frame of every other method: it refuses a handle that is not open, makes a call with the
  -- native handle, and gives what the call wrote if that succeeds.
  unfoldable pub answer {ℓ} : {A : Type ℓ} → (ℕ → W → SgxStatus × A × W) → Handle → W → Outcome W A
  answer call h w =
      let (ret, a, w') = call h.handle w in
      if h.initflag
      then record { result = from_status ret a; this = h; world = w' }
      else record { result = err sgx_error_invalid_state; this = h; world = w }

  -- A method succeeds exactly if the handle is open and its call succeeds, with what that wrote.
  pub answer-ok {ℓ} :
      {A : Type ℓ} (call : ℕ → W → SgxStatus × A × W) (h : Handle) (w : W) (a : A)
      → let (ret, b, w') = call h.handle w in
        ((answer call h w).result ≡ ok a) ↔ ((h.initflag ≡ true) × (ret ≡ sgx_success) × (b ≡ a))
  unfolding answer
  answer-ok call h w a = (λ e. ground arith, λ (on, good, same). rw (on, good, same) refl)

  module _ (live : W → Live) where
    -- What the library documents of opening and closing.
    pub record IsLifecycle (open_call : W → SgxStatus × ℕ × W) (close_call : ℕ → W → SgxStatus × W)
        : Type 0 where
      pub opens :
          (w : W)
          → let (ret, h, w') = open_call w in
            ret ≡ sgx_success → (h ≢ 0) × (live w h ≡ false) × (live w' ≡ with_live (live w) h)
      pub refuses : (w : W) → let (ret, h, w') = open_call w in ret ≢ sgx_success → live w' ≡ live w
      pub closes :
          (h : ℕ) (w : W)
          → live w h ≡ true
          → (close_call h w).0 ≡ sgx_success
          → live (close_call h w).1 ≡ without (live w) h
      pub keeps :
          (h : ℕ) (w : W)
          → live w h ≡ true
          → (close_call h w).0 ≢ sgx_success
          → live (close_call h w).1 ≡ live w

    -- A handle that is not open owns no context; an open one owns one. `kept` are all others.
    abbrev pub Owns : Live → Handle → W → Type 0
    Owns kept h w =
        ((h.initflag ≡ false) × (live w ≡ kept))
        ⊎ ((h.initflag ≡ true)
            × (h.handle ≢ 0)
            × (kept h.handle ≡ false)
            × (live w ≡ with_live kept h.handle))

    pub owned_live :
        (kept : Live) (h : Handle) (w : W)
        → h.initflag ≡ true
        → Owns kept h w
        → live w h.handle ≡ true
    owned_live kept h w on (inl (off, _)) = absurd cc
    owned_live kept h w on (inr (_, _, _, at)) = rw at (ground arith)

    abbrev pub Leaves {ℓ} : {A : Type ℓ} → Live → Outcome W A → Type 0
    Leaves kept o = Owns kept o.this o.world

    -- Closed for good, or refused with nothing changed.
    abbrev pub ClosedOr : Live → Handle → Outcome W (Unit {0}) → Type 0
    ClosedOr kept h o =
        ((o.result ≡ ok tt) × (o.this.initflag ≡ false) × (live o.world ≡ kept))
        ⊎ ((o.result ≢ ok tt) × (o.this ≡ h) × Owns kept h o.world)

    pub Owns-answer {ℓ} :
        {A : Type ℓ} (kept : Live) (call : ℕ → W → SgxStatus × A × W) (h : Handle) (w : W)
        → live (call h.handle w).2 ≡ live w
        → Owns kept h w
        → Leaves kept (answer call h w)
    unfolding answer
    Owns-answer kept call h w same owns =
        either (Leaves kept) h.initflag _ _ (λ on. rw same owns) (λ off. owns)

    module _ (open_call : W → SgxStatus × ℕ × W) (close_call : ℕ → W → SgxStatus × W)
        (laws : IsLifecycle open_call close_call) where
      open laws use {opens, refuses, closes, keeps}

      pub Owns-open_handle :
          (kept : Live) (h : Handle) (w : W)
          → Owns kept h w
          → Leaves kept (open_handle open_call h w)
      unfolding open_handle
      Owns-open_handle kept h w owns =
          either (Leaves kept) h.initflag _ _ (λ _. owns)
            (λ off. elim owns [
              | inr (on, _, _, _) ↦ absurd cc
              | inl (_, at) ↦
                  either (Leaves kept) ((open_call w).0 == sgx_success) _ _
                    (λ e.
                      let (nonzero, free, opened) = opens w ((==_iff _ _).0 e) in
                      inr (refl, nonzero, rw at at free, rw at at opened))
                    (λ e. inl (off, refuses w (λ s. cc (e, (==_iff _ _).1 s)) ∙ at))
            ])

      with_without : (kept : Live) (h : ℕ) → kept h ≡ false → without (with_live kept h) h ≡ kept
      with_without kept h free = fun_ext (λ j. ground (arith, free))

      nonzero_test : {n : ℕ} → n ≢ 0 → (n == 0) ≡ false
      nonzero_test h = ground arith

      pub Owns-close_handle :
          (kept : Live) (h : Handle) (w : W)
          → Owns kept h w
          → ClosedOr kept h (close_handle close_call h w)
      unfolding close_handle
      Owns-close_handle kept h w owns =
          either (ClosedOr kept h) h.initflag _ _
            (λ on. elim owns [
              | inl (off, _) ↦ absurd cc
              | inr (_, nonzero, free, at) ↦
                  let running = owned_live kept h w on (inr (on, nonzero, free, at)) in
                  rw (nonzero_test nonzero) (
                    either (ClosedOr kept h) ((close_call h.handle w).0 == sgx_success) _ _
                      (λ e. inl (
                        refl,
                        refl,
                        closes h.handle w running ((==_iff _ _).0 e)
                            ∙ rw at (with_without kept h.handle free),
                      ))
                      (λ e.
                        let same = keeps h.handle w running (λ s. cc (e, (==_iff _ _).1 s)) in
                        inr (λ r. cc, refl, inr (on, nonzero, free, same ∙ at))))
            ])
            (λ off. elim owns [ inl (_, at) ↦ inl (refl, off, at) | inr (on, _, _, _) ↦ absurd cc ])
