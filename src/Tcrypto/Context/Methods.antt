-- ===== src/Tcrypto/Context/Methods.antt =====
-- The methods of the handles of sgx-tcrypto/src/crypto.rs: what a handle owns in the library, and
-- that it gives it back.
use mathlib.Core.Path.{subst}
use sgx_sdk_rs.Base.{
  ℕ, ◌≡◌, ◌≢◌, ◌⊎◌, inl, inr, refl, ◌∙◌, sym, arith, List, true, false, none, some, ◌==◌, [],
  either, ==_iff, ok, sgx_success,
}
use sgx_sdk_rs.Tcrypto.Context.{
  Wrappers, Handle, Outcome, new, init, update_msg, update_slice, get_hash, close, drop_handle,
}
use sgx_sdk_rs.Tcrypto.Context.Spec.{
  Absorbed, Contexts, with_context, with_context-with_context, with_context_self, with_context_same,
  Keeps, IsWrappers,
}

module _ {W : Type 0} (rsgx : Wrappers W) where
  -- A call of a method, on a handle and the library's state.
  pub data Step : Handle → W → Handle → W → Type 0 where
    inits :
        (key : List ℕ) (h : Handle) (w : W)
        → Step h w (init rsgx key h w).this (init rsgx key h w).world
    updates_msg :
        (src : List ℕ) (h : Handle) (w : W)
        → Step h w (update_msg rsgx src h w).this (update_msg rsgx src h w).world
    updates_slice :
        (src : List ℕ) (h : Handle) (w : W)
        → Step h w (update_slice rsgx src h w).this (update_slice rsgx src h w).world
    gets_hash : (h : Handle) (w : W) → Step h w (get_hash rsgx h w).this (get_hash rsgx h w).world
    closes : (h : Handle) (w : W) → Step h w (close rsgx h w).this (close rsgx h w).world

  -- What is reached from a new handle by calls of its methods.
  pub data Reached (start : W) : Handle → W → Type 0 where
    is_new : Reached start new start
    calls : {h h' : Handle} {w w' : W} → Reached start h w → Step h w h' w' → Reached start h' w'

  module _ {bound : ℕ} (laws : IsWrappers rsgx bound) where
    open laws use {view, tag, key_of, context, msg, slice}

    -- A handle that is not initialised owns nothing; one that is owns one live context. `kept` is
    -- what the library keeps for all others.
    abbrev pub Owns : Contexts → Handle → W → Type 0
    Owns kept h w =
        ((h.initflag ≡ false) × (view w ≡ kept))
        ⊎ ((h.initflag ≡ true)
            × (h.handle ≢ 0)
            × (kept h.handle ≡ none)
            × ((c : Absorbed) × (view w ≡ with_context kept h.handle (some c))))

    pub live :
        (kept : Contexts) (h : ℕ) (w : W) (c : Absorbed)
        → view w ≡ with_context kept h (some c)
        → view w h ≡ some c
    live kept h w c at = rw at (with_context_self kept h (some c))

    -- A call that keeps the context keeps what the handle owns.
    Owns-Keeps :
        (kept : Contexts) (h : Handle) (w : W) (call : W → W)
        → h.initflag ≡ true
        → Keeps view call h.handle
        → Owns kept h w
        → Owns kept h (call w)
    Owns-Keeps kept h w call on keeps (inl (off, _)) = absurd cc
    Owns-Keeps kept h w call on keeps (inr (_, nonzero, free, (c, at))) =
        let (text, after) = keeps w c (live kept h.handle w c at) in
        inr (
          on,
          nonzero,
          free,
          (
            record c { text = text },
            after ∙ rw at (with_context-with_context kept h.handle (some c) _),
          ),
        )

    open laws.context use {init_opens, init_fails, final_keeps, close_frees, close_fails}

    abbrev pub Leaves {ℓ} : {A : Type ℓ} → Contexts → Outcome W A → Type 0
    Leaves kept o = Owns kept o.this o.world

    Owns-init :
        (kept : Contexts) (key : List ℕ) (h : Handle) (w : W)
        → Owns kept h w
        → Owns kept (init rsgx key h w).this (init rsgx key h w).world
    unfolding init
    Owns-init kept key h w owns =
        either (Leaves kept) h.initflag _ _ (λ _. owns)
          (λ off. elim owns [
            | inr (on, _, _, _) ↦ absurd cc
            | inl (_, at) ↦
                either (Leaves kept) ((rsgx.init key w).0 == sgx_success) _ _
                  (λ e.
                    let (nonzero, free, opened) = init_opens key w ((==_iff _ _).0 e) in
                    inr (
                      refl,
                      nonzero,
                      rw at at free,
                      (record { key = key_of key; text = [] }, rw at at opened),
                    ))
                  (λ e. inl (off, init_fails key w (λ s. cc (e, (==_iff _ _).1 s)) ∙ at))
          ])

    Owns-update_msg :
        (kept : Contexts) (src : List ℕ) (h : Handle) (w : W)
        → Owns kept h w
        → Owns kept (update_msg rsgx src h w).this (update_msg rsgx src h w).world
    unfolding update_msg
    Owns-update_msg kept src h w owns =
        either (Leaves kept) h.initflag _ _
          (λ on. Owns-Keeps kept h w _ on (msg.keeps src h.handle) owns) (λ _. owns)

    Owns-update_slice :
        (kept : Contexts) (src : List ℕ) (h : Handle) (w : W)
        → Owns kept h w
        → Owns kept (update_slice rsgx src h w).this (update_slice rsgx src h w).world
    unfolding update_slice
    Owns-update_slice kept src h w owns =
        either (Leaves kept) h.initflag _ _
          (λ on. Owns-Keeps kept h w _ on (slice.keeps src h.handle) owns) (λ _. owns)

    Owns-get_hash :
        (kept : Contexts) (h : Handle) (w : W)
        → Owns kept h w
        → Owns kept (get_hash rsgx h w).this (get_hash rsgx h w).world
    unfolding get_hash
    Owns-get_hash kept h w owns =
        either (Leaves kept) h.initflag _ _
          (λ on. Owns-Keeps kept h w _ on (final_keeps h.handle) owns) (λ _. owns)

    -- Closed for good, or refused with nothing changed.
    abbrev pub ClosedOr : Contexts → Handle → Outcome W (Unit {0}) → Type 0
    ClosedOr kept h o =
        ((o.result ≡ ok tt) × (o.this.initflag ≡ false) × (view o.world ≡ kept))
        ⊎ ((o.result ≢ ok tt) × (o.this ≡ h) × Owns kept h o.world)

    Owns-close :
        (kept : Contexts) (h : Handle) (w : W) → Owns kept h w → ClosedOr kept h (close rsgx h w)
    unfolding close
    Owns-close kept h w owns =
        either (ClosedOr kept h) h.initflag _ _
          (λ on. elim owns [
            | inl (off, _) ↦ absurd cc
            | inr (_, nonzero, free, (c, at)) ↦
                let running = live kept h.handle w c at in
                rw (nonzero_test nonzero) (
                  either (ClosedOr kept h) ((rsgx.close h.handle w).0 == sgx_success) _ _
                    (λ e. inl (
                      refl,
                      refl,
                      close_frees h.handle w c running ((==_iff _ _).0 e)
                          ∙ rw at (with_context_same kept h.handle (some c) free),
                    ))
                    (λ e.
                      let same = close_fails h.handle w c running (λ s. cc (e, (==_iff _ _).1 s)) in
                      inr (λ r. cc, refl, inr (on, nonzero, free, (c, same ∙ at)))))
          ])
          (λ off. elim owns [ inl (_, at) ↦ inl (refl, off, at) | inr (on, _, _, _) ↦ absurd cc ])
      where
        nonzero_test : {n : ℕ} → n ≢ 0 → (n == 0) ≡ false
        nonzero_test h = ground arith

    Step-Owns :
        (kept : Contexts) (h : Handle) (w : W) (h' : Handle) (w' : W)
        → Step h w h' w'
        → Owns kept h w
        → Owns kept h' w'
    Step-Owns kept _ _ _ _ (inits key h w) owns = Owns-init kept key h w owns
    Step-Owns kept _ _ _ _ (updates_msg src h w) owns = Owns-update_msg kept src h w owns
    Step-Owns kept _ _ _ _ (updates_slice src h w) owns = Owns-update_slice kept src h w owns
    Step-Owns kept _ _ _ _ (gets_hash h w) owns = Owns-get_hash kept h w owns
    Step-Owns kept _ _ _ _ (closes h w) owns = elim (Owns-close kept h w owns) [
      | inl (_, off, at) ↦ inl (off, at)
      | inr (_, same, still) ↦ subst (λ h'. Owns kept h' (close rsgx h w).world) (sym same) still
    ]

    -- After any calls of its methods, in any order and with any answers of a library that keeps to
    -- its documentation, a handle that started new owns nothing or one live context that was not
    -- there before, and no other context has changed.
    pub methods-Owns : (start : W) (h : Handle) (w : W) → Reached start h w → Owns (view start) h w
    methods-Owns start h w is_new = inl (refl, refl)
    methods-Owns start h' w' (calls {h = h} {w = w} before step) =
        Step-Owns (view start) h w h' w' step (methods-Owns start h w before)

    -- After any calls of its methods, in any order and with any answers of a library that keeps to
    -- its documentation, `close` of a handle that started new either succeeds, and the library
    -- keeps exactly the contexts it kept at the start, or fails and leaves the handle as it was,
    -- with what it owns. `drop` ends in the same state.
    pub close-releases :
        (start : W) (h : Handle) (w : W)
        → Reached start h w
        → ClosedOr (view start) h (close rsgx h w) × (drop_handle rsgx h w ≡ (close rsgx h w).world)
    unfolding drop_handle
    close-releases start h w reached =
        (Owns-close (view start) h w (methods-Owns start h w reached), refl)
