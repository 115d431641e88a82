-- ===== src/Tcrypto/Ecc/Handles.antt =====
-- sgx-tcrypto/src/crypto.rs: what a `SgxEccHandle` owns in the library, and that it gives it back.
use sgx_sdk_rs.Base.{
  ℕ, ◌≡◌, inl, inr, refl, sym, List, length, ◌%◌, ◌^◌, SgxStatus, either, if◌then◌else◌,
}
use mathlib.Core.Path.{subst}
use sgx_sdk_rs.Tcrypto.Context.{Handle, Outcome, new, size_refused}
use sgx_sdk_rs.Tcrypto.Lifecycle.{
  Live, IsLifecycle, Owns, ClosedOr, Owns-answer, Owns-open_handle, Owns-close_handle,
}
use sgx_sdk_rs.Tcrypto.Ecc.{
  EccLib, no_signature, create_align_key_pair_call, check_point_call,
  compute_align_shared_dhkey_call, ecdsa_verify_msg_call, ecdsa_verify_slice_call,
  ecdsa_verify_hash_call, rsgx_ecc256_open_context, rsgx_ecc256_close_context, open_ecc,
  create_key_pair, create_align_key_pair, check_point, compute_shared_dhkey,
  compute_align_shared_dhkey, ecdsa_sign_msg, ecdsa_sign_slice, ecdsa_verify_msg,
  ecdsa_verify_slice, ecdsa_verify_hash, close_ecc, drop_ecc, rsgx_ecc256_create_key_pair,
  rsgx_ecc256_check_point, rsgx_ecc256_compute_shared_dhkey, rsgx_ecdsa_sign_msg,
  rsgx_ecdsa_sign_slice, rsgx_ecdsa_verify_msg, rsgx_ecdsa_verify_slice, rsgx_ecdsa_verify_hash,
}

-- What the library documents of its contexts: how they are opened and closed, and that no other
-- call opens or closes one.
pub record IsEccLib {W : Type 0} (lib : EccLib W) : Type 0 where
  pub live : W → Live
  pub lifecycle : IsLifecycle live lib.sgx_ecc256_open_context lib.sgx_ecc256_close_context
  pub create_key_pair_keeps : (h : ℕ) (w : W) → live (lib.sgx_ecc256_create_key_pair h w).2 ≡ live w
  pub check_point_keeps :
      (point : List ℕ) (h : ℕ) (w : W) → live (lib.sgx_ecc256_check_point point h w).2 ≡ live w
  pub compute_shared_dhkey_keeps :
      (private_b public_ga : List ℕ) (h : ℕ) (w : W)
      → live (lib.sgx_ecc256_compute_shared_dhkey private_b public_ga h w).2 ≡ live w
  pub sign_keeps :
      (text : List ℕ) (size : ℕ) (private : List ℕ) (h : ℕ) (w : W)
      → live (lib.sgx_ecdsa_sign text size private h w).2 ≡ live w
  pub verify_keeps :
      (text : List ℕ) (size : ℕ) (public signature : List ℕ) (h : ℕ) (w : W)
      → live (lib.sgx_ecdsa_verify text size public signature h w).2 ≡ live w
  pub verify_hash_keeps :
      (hash public signature : List ℕ) (h : ℕ) (w : W)
      → live (lib.sgx_ecdsa_verify_hash hash public signature h w).2 ≡ live w

module _ {W : Type 0} (lib : EccLib W) where
  -- Where a method leaves the handle and the library.
  abbrev Next {ℓ} : {A : Type ℓ} → Outcome W A → Handle × W
  Next o = (o.this, o.world)

  -- A call of a method.
  pub data Step : Handle × W → Handle × W → Type 0 where
    opens : (h : Handle) (w : W) → Step (h, w) (Next (open_ecc lib h w))
    creates_key_pair : (h : Handle) (w : W) → Step (h, w) (Next (create_key_pair lib h w))
    creates_align_key_pair :
        (h : Handle) (w : W) → Step (h, w) (Next (create_align_key_pair lib h w))
    checks_point :
        (point : List ℕ) (h : Handle) (w : W) → Step (h, w) (Next (check_point lib point h w))
    computes_shared_dhkey :
        (private_b public_ga : List ℕ) (h : Handle) (w : W)
        → Step (h, w) (Next (compute_shared_dhkey lib private_b public_ga h w))
    computes_align_shared_dhkey :
        (private_b public_ga : List ℕ) (h : Handle) (w : W)
        → Step (h, w) (Next (compute_align_shared_dhkey lib private_b public_ga h w))
    signs_msg :
        (text private : List ℕ) (h : Handle) (w : W)
        → Step (h, w) (Next (ecdsa_sign_msg lib text private h w))
    signs_slice :
        (text private : List ℕ) (h : Handle) (w : W)
        → Step (h, w) (Next (ecdsa_sign_slice lib text private h w))
    verifies_msg :
        (text public signature : List ℕ) (h : Handle) (w : W)
        → Step (h, w) (Next (ecdsa_verify_msg lib text public signature h w))
    verifies_slice :
        (text public signature : List ℕ) (h : Handle) (w : W)
        → Step (h, w) (Next (ecdsa_verify_slice lib text public signature h w))
    verifies_hash :
        (hash public signature : List ℕ) (h : Handle) (w : W)
        → Step (h, w) (Next (ecdsa_verify_hash lib hash public signature h w))
    closes : (h : Handle) (w : W) → Step (h, w) (Next (close_ecc lib h w))

  -- What is reached from a new handle by calls of its methods.
  pub data Reached (start : W) : Handle × W → Type 0 where
    is_new : Reached start (new, start)
    calls : {s s' : Handle × W} → Reached start s → Step s s' → Reached start s'

  module _ (laws : IsEccLib lib) where
    open laws use {
      live, lifecycle, create_key_pair_keeps, check_point_keeps, compute_shared_dhkey_keeps,
      sign_keeps, verify_keeps, verify_hash_keeps,
    }

    rsgx-IsLifecycle :
        IsLifecycle live (rsgx_ecc256_open_context lib) (rsgx_ecc256_close_context lib)
    unfolding rsgx_ecc256_open_context rsgx_ecc256_close_context
    rsgx-IsLifecycle = record {
      opens = lifecycle.opens;
      refuses = lifecycle.refuses;
      closes = lifecycle.closes;
      keeps = lifecycle.keeps;
    }

    abbrev Owned : Live → Handle × W → Type 0
    Owned kept s = Owns live kept s.0 s.1

    -- A call under the test on the size keeps what is live.
    sized_keeps {ℓ} :
        {A : Type ℓ} (size : ℕ) (w : W) (refused called : SgxStatus × A × W)
        → live refused.2 ≡ live w
        → live called.2 ≡ live w
        → live (if size_refused size then refused else called).2 ≡ live w
    sized_keeps size w refused called stays keeps =
        either (λ r. live r.2 ≡ live w) (size_refused size) refused called (λ _. stays) (λ _. keeps)

    sign_step :
        (text private signature : List ℕ) (h : ℕ) (w : W)
        → (live (rsgx_ecdsa_sign_msg lib text private signature h w).2 ≡ live w)
          × (live (rsgx_ecdsa_sign_slice lib text private signature h w).2 ≡ live w)
    unfolding rsgx_ecdsa_sign_msg rsgx_ecdsa_sign_slice
    sign_step text private signature h w =
        let kept =
          sized_keeps (length text) w _ _ refl
            (sign_keeps text (length text % 2 ^ 32) private h w) in
        (kept, kept)

    verify_step :
        (text public signature : List ℕ) (result h : ℕ) (w : W)
        → (live (rsgx_ecdsa_verify_msg lib text public signature result h w).2 ≡ live w)
          × (live (rsgx_ecdsa_verify_slice lib text public signature result h w).2 ≡ live w)
    unfolding rsgx_ecdsa_verify_msg rsgx_ecdsa_verify_slice
    verify_step text public signature result h w =
        let kept =
          sized_keeps (length text) w _ _ refl
            (verify_keeps text (length text % 2 ^ 32) public signature h w) in
        (kept, kept)

    Step-Owned : (kept : Live) (s s' : Handle × W) → Step s s' → Owned kept s → Owned kept s'
    unfolding open_ecc create_key_pair create_align_key_pair check_point compute_shared_dhkey
        compute_align_shared_dhkey ecdsa_sign_msg ecdsa_sign_slice ecdsa_verify_msg
        ecdsa_verify_slice ecdsa_verify_hash close_ecc rsgx_ecc256_create_key_pair
        rsgx_ecc256_check_point rsgx_ecc256_compute_shared_dhkey rsgx_ecdsa_verify_hash
        create_align_key_pair_call check_point_call compute_align_shared_dhkey_call
        ecdsa_verify_msg_call ecdsa_verify_slice_call ecdsa_verify_hash_call
    Step-Owned kept _ _ (opens h w) = Owns-open_handle live _ _ rsgx-IsLifecycle kept h w
    Step-Owned kept _ _ (creates_key_pair h w) =
        Owns-answer live kept (rsgx_ecc256_create_key_pair lib) h w
          (create_key_pair_keeps h.handle w)
    Step-Owned kept _ _ (creates_align_key_pair h w) =
        Owns-answer live kept (create_align_key_pair_call lib) h w
          (create_key_pair_keeps h.handle w)
    Step-Owned kept _ _ (checks_point point h w) =
        Owns-answer live kept (check_point_call lib point) h w (check_point_keeps point h.handle w)
    Step-Owned kept _ _ (computes_shared_dhkey private_b public_ga h w) =
        Owns-answer live kept (rsgx_ecc256_compute_shared_dhkey lib private_b public_ga) h w
          (compute_shared_dhkey_keeps private_b public_ga h.handle w)
    Step-Owned kept _ _ (computes_align_shared_dhkey private_b public_ga h w) =
        Owns-answer live kept (compute_align_shared_dhkey_call lib private_b public_ga) h w
          (compute_shared_dhkey_keeps private_b public_ga h.handle w)
    Step-Owned kept _ _ (signs_msg text private h w) =
        Owns-answer live kept (rsgx_ecdsa_sign_msg lib text private no_signature) h w
          (sign_step text private _ h.handle w).0
    Step-Owned kept _ _ (signs_slice text private h w) =
        Owns-answer live kept (rsgx_ecdsa_sign_slice lib text private no_signature) h w
          (sign_step text private _ h.handle w).1
    Step-Owned kept _ _ (verifies_msg text public signature h w) =
        Owns-answer live kept (ecdsa_verify_msg_call lib text public signature) h w
          (verify_step text public signature _ h.handle w).0
    Step-Owned kept _ _ (verifies_slice text public signature h w) =
        Owns-answer live kept (ecdsa_verify_slice_call lib text public signature) h w
          (verify_step text public signature _ h.handle w).1
    Step-Owned kept _ _ (verifies_hash hash public signature h w) =
        Owns-answer live kept (ecdsa_verify_hash_call lib hash public signature) h w
          (verify_hash_keeps hash public signature h.handle w)
    Step-Owned kept _ _ (closes h w) = λ owns.
        elim (Owns-close_handle live _ _ rsgx-IsLifecycle kept h w owns) [
          | inl (_, off, at) ↦ inl (off, at)
          | inr (_, same, still) ↦
              subst (λ h'. Owns live kept h' (close_ecc lib h w).world) (sym same) still
        ]

    Reached-Owned : (start : W) (s : Handle × W) → Reached start s → Owned (live start) s
    Reached-Owned start _ is_new = inl (refl, refl)
    Reached-Owned start _ (calls {s = s} {s' = s'} before step) =
        Step-Owned (live start) s s' step (Reached-Owned start s before)

    -- After any calls of its methods, in any order and with any answers of a library that keeps to
    -- its documentation, a `SgxEccHandle` that started new owns no context, or one live context that was
    -- not there before, and no other context has come or gone. Its `close` then either succeeds, and the
    -- library has exactly the contexts of the start, or fails and leaves the handle as it was, with what
    -- it owns; `drop` ends in the same state.
    pub close_ecc-releases :
        (start : W) (h : Handle) (w : W)
        → Reached start (h, w)
        → Owns live (live start) h w
          × ClosedOr live (live start) h (close_ecc lib h w)
          × (drop_ecc lib h w ≡ (close_ecc lib h w).world)
    unfolding close_ecc drop_ecc
    close_ecc-releases start h w reached =
        let owns = Reached-Owned start (h, w) reached in
        (owns, Owns-close_handle live _ _ rsgx-IsLifecycle (live start) h w owns, refl)
