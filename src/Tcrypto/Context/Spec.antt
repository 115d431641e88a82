-- ===== src/Tcrypto/Context/Spec.antt =====
-- What is documented of the native contexts behind the handles of sgx-tcrypto/src/crypto.rs, and the
-- same of the wrappers.
use mathlib.Core.Path.{fun_ext}
use sgx_sdk_rs.Base.{
  refl, ap, ◌∙◌, inl, inr, Bool-cases, ==_iff, ℕ, ◌≤◌, ◌<◌, ◌≡◌, ◌≢◌, List, [], ◌++◌, Option, none,
  some, length, ◌==◌, if◌then◌else◌, sgx_success, arith,
}
use sgx_sdk_rs.Tcrypto.Context.{ContextLib, Wrappers}

-- A context: its key and what it has absorbed.
pub record Absorbed : Type 0 where
  pub key : List ℕ
  pub text : List ℕ

-- The contexts that the library keeps, by handle.
abbrev pub Contexts : Type 0
Contexts = ℕ → Option Absorbed

abbrev pub with_context : Contexts → ℕ → Option Absorbed → Contexts
with_context kept h c j = if j == h then c else kept j

pub with_context-with_context :
    (kept : Contexts) (h : ℕ) (c c' : Option Absorbed)
    → with_context (with_context kept h c) h c' ≡ with_context kept h c'
with_context-with_context kept h c c' = fun_ext (λ j. ground arith)

pub with_context_self :
    (kept : Contexts) (h : ℕ) (c : Option Absorbed) → with_context kept h c h ≡ c
with_context_self kept h c = ground arith

pub with_context_kept :
    (kept : Contexts) (h : ℕ) (c : Option Absorbed) → kept h ≡ c → kept ≡ with_context kept h c
with_context_kept kept h c at = fun_ext (λ j. elim (Bool-cases (j == h)) [
  | inl e ↦ rw e (ap kept ((==_iff _ _).0 e) ∙ at)
  | inr e ↦ rw e refl
])

pub with_context_same :
    (kept : Contexts) (h : ℕ) (c : Option Absorbed)
    → kept h ≡ none
    → with_context (with_context kept h c) h none ≡ kept
with_context_same kept h c free = fun_ext (λ j. ground arith)

module _ {W : Type 0} (view : W → Contexts) where
  -- A call on a live context leaves it live, with its key, and leaves the others alone.
  abbrev pub Keeps : (W → W) → ℕ → Type 0
  Keeps call h =
      (w : W) (c : Absorbed)
      → view w h ≡ some c
      → (text : List ℕ) × (view (call w)
          ≡ with_context (view w) h (some (record c { text = text })))

  -- The laws of opening, reading and closing, which the library and the wrappers share. A context
  -- opened with a key has `key_of` it: a hash has none.
  pub record IsContext (tag : List ℕ → List ℕ → List ℕ) (key_of : List ℕ → List ℕ)
      (init : List ℕ → W → ℕ × ℕ × W) (final : ℕ → W → ℕ × List ℕ × W) (close : ℕ → W → ℕ × W)
      : Type 0 where
    pub init_opens :
        (key : List ℕ) (w : W)
        → let (ret, h, w') = init key w in
          ret ≡ sgx_success
          → (h ≢ 0)
            × (view w h ≡ none)
            × (view w' ≡ with_context (view w) h (some (record { key = key_of key; text = [] })))
    pub init_fails :
        (key : List ℕ) (w : W)
        → let (ret, h, w') = init key w in ret ≢ sgx_success → view w' ≡ view w
    pub final_keeps : (h : ℕ) → Keeps (λ w. (final h w).2) h
    pub final_tag :
        (h : ℕ) (w : W) (c : Absorbed)
        → view w h ≡ some c
        → (final h w).0 ≡ sgx_success
        → (final h w).1 ≡ tag c.key c.text
    pub close_frees :
        (h : ℕ) (w : W) (c : Absorbed)
        → view w h ≡ some c
        → (close h w).0 ≡ sgx_success
        → view (close h w).1 ≡ with_context (view w) h none
    pub close_fails :
        (h : ℕ) (w : W) (c : Absorbed)
        → view w h ≡ some c
        → (close h w).0 ≢ sgx_success
        → view (close h w).1 ≡ view w

  -- A successful update with at most `bound` bytes appends them.
  pub record IsUpdate (bound : ℕ) (update : List ℕ → ℕ → W → ℕ × W) : Type 0 where
    pub keeps : (src : List ℕ) (h : ℕ) → Keeps (λ w. (update src h w).1) h
    pub appends :
        (src : List ℕ) (h : ℕ) (w : W) (c : Absorbed)
        → view w h ≡ some c
        → length src ≤ bound
        → (update src h w).0 ≡ sgx_success
        → view (update src h w).1
          ≡ with_context (view w) h (some (record c { text = c.text ++ src }))

-- The library's documented behaviour. `bound` is the longest input whose length the code passes on
-- as it is.
pub record IsContextLib {W : Type 0} (lib : ContextLib W) (bound : ℕ) : Type 0 where
  pub view : W → Contexts
  pub tag : List ℕ → List ℕ → List ℕ
  pub context : IsContext view tag (λ key. key) lib.init lib.final lib.close
  pub update_keeps : (src : List ℕ) (len h : ℕ) → Keeps view (λ w. (lib.update src len h w).1) h
  pub update_appends :
      (src : List ℕ) (h : ℕ) (w : W) (c : Absorbed)
      → view w h ≡ some c
      → length src ≤ bound
      → (lib.update src (length src) h w).0 ≡ sgx_success
      → view (lib.update src (length src) h w).1
        ≡ with_context (view w) h (some (record c { text = c.text ++ src }))
  pub msg_tag :
      (key src : List ℕ)
      → length src ≤ bound
      → (lib.msg key src (length src)).0 ≡ sgx_success
      → (lib.msg key src (length src)).1 ≡ tag key src

-- A library that never refuses a live context, an input of 1 to `bound` bytes, nor to open a context.
pub record NeverRefuses {W : Type 0} {lib : ContextLib W} {bound : ℕ}
    (laws : IsContextLib lib bound) : Type 0 where
  pub opens : (key : List ℕ) (w : W) → (lib.init key w).0 ≡ sgx_success
  pub absorbs :
      (src : List ℕ) (h : ℕ) (w : W) (c : Absorbed)
      → laws.view w h ≡ some c
      → 0 < length src
      → length src ≤ bound
      → (lib.update src (length src) h w).0 ≡ sgx_success
  pub finishes :
      (h : ℕ) (w : W) (c : Absorbed) → laws.view w h ≡ some c → (lib.final h w).0 ≡ sgx_success
  pub answers :
      (key src : List ℕ)
      → 0 < length src
      → length src ≤ bound
      → (lib.msg key src (length src)).0 ≡ sgx_success

-- What the handle's methods rely on.
pub record IsWrappers {W : Type 0} (rsgx : Wrappers W) (bound : ℕ) : Type 0 where
  pub view : W → Contexts
  pub tag : List ℕ → List ℕ → List ℕ
  pub key_of : List ℕ → List ℕ
  pub context : IsContext view tag key_of rsgx.init rsgx.get_hash rsgx.close
  pub msg : IsUpdate view bound rsgx.update_msg
  pub slice : IsUpdate view bound rsgx.update_slice
