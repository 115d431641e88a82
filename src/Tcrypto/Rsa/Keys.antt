-- ===== src/Tcrypto/Rsa/Keys.antt =====
-- sgx-tcrypto/src/crypto.rs: what a `SgxRsaPrivKey` or a `SgxRsaPubKey` owns in the library, and that it
-- gives it back.
use mathlib.Core.Path.{subst}
use sgx_sdk_rs.Base.{
  ℕ, ◌≡◌, inl, inr, refl, sym, arith, List, [], Bool, true, false, not, ◌==◌, ◌||◌, if◌then◌else◌,
  Bool-cases, none, some, length, either, ==_iff, SgxStatus, sgx_success,
  sgx_error_invalid_parameter,
}
use sgx_sdk_rs.Tcrypto.Context.{Outcome}
use sgx_sdk_rs.Tcrypto.Lifecycle.{
  Live, IsLifecycle, Owns, ClosedOr, Owns-open_handle, Owns-close_handle,
}
use sgx_sdk_rs.Tcrypto.Ecc.{is_positive}
use sgx_sdk_rs.Tcrypto.Rsa.{
  RsaLib, RsaKey, KeyOutcome, Crypted, SgxRsaKeyType, sgx_rsa_private_key, sgx_rsa_public_key,
  keep_key, bad_lengths, create2, create1, create, decrypt_sha256, encrypt_sha256, free_key,
  drop_key, rsgx_create_rsa_priv2_key, rsgx_create_rsa_priv1_key, rsgx_create_rsa_pub1_key,
  rsgx_rsa_priv_decrypt_sha256, rsgx_rsa_pub_encrypt_sha256,
}
use sgx_sdk_rs.Tcrypto.Rsa.Steps.{
  IsRsaLib, handle_of, outcome_of, Sized, outcome_of-keep_key, tested, outcome_of-free_key,
  free_key-off, Step, Reached, creates2, creates1, decrypts, creates, encrypts, frees, is_new,
  calls,
}

module _ {W : Type 0} (lib : RsaLib W) where
  module _ (laws : IsRsaLib lib) where
    open laws use {live, priv2, priv1, pub1, decrypt_keeps, encrypt_keeps}

    -- A key that was made has positive sizes and owns what the library keeps for it.
    abbrev pub Owned : Live → RsaKey × W → Type 0
    Owned kept (k, w) = Sized k × Owns live kept (handle_of k) w

    abbrev LeavesOwned : Live → KeyOutcome W → Type 0
    LeavesOwned kept o = Owned kept (o.this, o.world)

    Owned-keep_key :
        (kept : Live) (mod_size exp_size : ℕ) (k : RsaKey) (w : W)
        (open_call : W → SgxStatus × ℕ × W) (close_call : ℕ → W → SgxStatus × W)
        → IsLifecycle live open_call close_call
        → ((open_call w).0 ≡ sgx_success
            → (is_positive mod_size ≡ true) × (is_positive exp_size ≡ true))
        → Owned kept (k, w)
        → LeavesOwned kept (keep_key mod_size exp_size k w (open_call w))
    Owned-keep_key kept mod_size exp_size k w open_call close_call lifecycle fits (sized, owns) = (
      either (λ (o : KeyOutcome W). Sized o.this) k.createflag _ _ (λ on. sized)
          (λ off.
            either (λ (o : KeyOutcome W). Sized o.this) ((open_call w).0 == sgx_success) _ _
              (λ e _. fits ((==_iff _ _).0 e)) (λ e on. absurd cc)),
      subst (λ (o : Outcome W (Unit {0})). Owns live kept o.this o.world)
          (sym (outcome_of-keep_key mod_size exp_size k open_call w))
          (Owns-open_handle live open_call close_call lifecycle kept (handle_of k) w owns),
    )

    passed :
        (a b rest : Bool) (refused called : SgxStatus × ℕ × W)
        → refused.0 ≡ sgx_error_invalid_parameter
        → (if not a || not b || rest then refused else called).0 ≡ sgx_success
        → (a ≡ true) × (b ≡ true)
    passed true true rest refused called e good = (refl, refl)
    passed false b rest refused called e good = absurd (omega (arith, e, good))
    passed true false rest refused called e good = absurd (omega (arith, e, good))

    rsgx_create_rsa_priv2_key-positive :
        (mod_size exp_size : ℕ) (e p q dmp1 dmq1 iqmp : List ℕ) (old : ℕ) (w : W)
        → (rsgx_create_rsa_priv2_key lib mod_size exp_size e p q dmp1 dmq1 iqmp old w).0
          ≡ sgx_success
        → (is_positive mod_size ≡ true) × (is_positive exp_size ≡ true)
    unfolding rsgx_create_rsa_priv2_key
    rsgx_create_rsa_priv2_key-positive mod_size exp_size e p q dmp1 dmq1 iqmp old w =
        passed (is_positive mod_size) (is_positive exp_size) _ _ _ refl

    rsgx_create_rsa_priv1_key-positive :
        (n_size e_size d_size : ℕ) (n e d : List ℕ) (old : ℕ) (w : W)
        → (rsgx_create_rsa_priv1_key lib n_size e_size d_size n e d old w).0 ≡ sgx_success
        → (is_positive n_size ≡ true) × (is_positive e_size ≡ true)
    unfolding rsgx_create_rsa_priv1_key
    rsgx_create_rsa_priv1_key-positive n_size e_size d_size n e d old w =
        passed (is_positive n_size) (is_positive e_size) _ _ _ refl

    rsgx_create_rsa_pub1_key-positive :
        (mod_size exp_size : ℕ) (n e : List ℕ) (old : ℕ) (w : W)
        → (rsgx_create_rsa_pub1_key lib mod_size exp_size n e old w).0 ≡ sgx_success
        → (is_positive mod_size ≡ true) × (is_positive exp_size ≡ true)
    unfolding rsgx_create_rsa_pub1_key
    rsgx_create_rsa_pub1_key-positive mod_size exp_size n e old w =
        passed (is_positive mod_size) (is_positive exp_size) _ _ _ refl

    either_live :
        (b : Bool) (w : W) (refused called : SgxStatus × (List ℕ × ℕ) × W)
        → live refused.2 ≡ live w
        → live called.2 ≡ live w
        → live (if b then refused else called).2 ≡ live w
    either_live b w refused called stays keeps =
        either (λ r. live r.2 ≡ live w) b refused called (λ _. stays) (λ _. keeps)

    rsgx_rsa_priv_decrypt_sha256-live :
        (key : ℕ) (out_data : List ℕ) (out_len : ℕ) (in_data : List ℕ) (w : W)
        → live (rsgx_rsa_priv_decrypt_sha256 lib key out_data out_len in_data w).2 ≡ live w
    unfolding rsgx_rsa_priv_decrypt_sha256
    rsgx_rsa_priv_decrypt_sha256-live key out_data out_len in_data w =
        either_live (bad_lengths out_data out_len in_data) w _ _ refl (
          decrypt_keeps key (if not (out_len == 0) then some out_data else none) out_len in_data
            (length in_data) w)

    decrypt_sha256-live :
        (out_data : List ℕ) (out_len : ℕ) (in_data : List ℕ) (k : RsaKey) (w : W)
        → live (decrypt_sha256 lib out_data out_len in_data k w).world ≡ live w
    unfolding decrypt_sha256
    decrypt_sha256-live out_data out_len in_data k w =
        either (λ (c : Crypted W). live c.world ≡ live w) (not k.createflag) _ _ (λ _. refl)
          (λ _. rsgx_rsa_priv_decrypt_sha256-live k.key out_data out_len in_data w)

    rsgx_rsa_pub_encrypt_sha256-live :
        (key : ℕ) (out_data : List ℕ) (out_len : ℕ) (in_data : List ℕ) (w : W)
        → live (rsgx_rsa_pub_encrypt_sha256 lib key out_data out_len in_data w).2 ≡ live w
    unfolding rsgx_rsa_pub_encrypt_sha256
    rsgx_rsa_pub_encrypt_sha256-live key out_data out_len in_data w =
        either_live (bad_lengths out_data out_len in_data) w _ _ refl (
          encrypt_keeps key (if not (out_len == 0) then some out_data else none) out_len in_data
            (length in_data) w)

    encrypt_sha256-live :
        (out_data : List ℕ) (out_len : ℕ) (in_data : List ℕ) (k : RsaKey) (w : W)
        → live (encrypt_sha256 lib out_data out_len in_data k w).world ≡ live w
    unfolding encrypt_sha256
    encrypt_sha256-live out_data out_len in_data k w =
        either (λ (c : Crypted W). live c.world ≡ live w) (not k.createflag) _ _ (λ _. refl)
          (λ _. rsgx_rsa_pub_encrypt_sha256-live k.key out_data out_len in_data w)

    -- How a key of either type is freed.
    freeing :
        (key_type : SgxRsaKeyType) (mod_size exp_size : ℕ)
        → (open_call : W → SgxStatus × ℕ × W) × IsLifecycle live open_call
            (λ h. lib.sgx_free_rsa_key h key_type mod_size exp_size)
    freeing sgx_rsa_private_key mod_size exp_size = (_, priv2 mod_size exp_size [] [] [] [] [] [])
    freeing sgx_rsa_public_key mod_size exp_size = (_, pub1 mod_size exp_size [] [])

    free_key-ClosedOr :
        (key_type : SgxRsaKeyType) (kept : Live) (k : RsaKey) (w : W)
        → Owned kept (k, w)
        → ClosedOr live kept (handle_of k) (outcome_of (free_key lib key_type k w))
    free_key-ClosedOr key_type kept k w (sized, owns) = elim (Bool-cases k.createflag) [
      | inl on ↦
          let (open_call, lifecycle) = freeing key_type k.mod_size k.exp_size in
          subst (λ (o : Outcome W (Unit {0})). ClosedOr live kept (handle_of k) o)
            (sym (outcome_of-free_key lib key_type k w sized on))
            (Owns-close_handle live open_call _ lifecycle kept (handle_of k) w owns)
      | inr off ↦ elim owns [
        | inl (_, at) ↦ rw (free_key-off lib key_type k w off) (inl (refl, off, at))
        | inr (on, _, _, _) ↦ absurd cc
      ]
    ]

    free_key-Sized :
        (key_type : SgxRsaKeyType) (k : RsaKey) (w : W)
        → Sized k
        → Sized (free_key lib key_type k w).this
    unfolding free_key
    free_key-Sized key_type k w sized =
        either (λ (o : KeyOutcome W). Sized o.this) (not k.createflag) _ _ (λ _. sized)
          (λ _.
            either (λ (o : KeyOutcome W). Sized o.this) _ _ _
              (λ _ (on : ◌≡◌ {A = Bool} false true). absurd cc) (λ _. sized))

    free_key-Owned :
        (key_type : SgxRsaKeyType) (kept : Live) (k : RsaKey) (w : W)
        → Owned kept (k, w)
        → LeavesOwned kept (free_key lib key_type k w)
    free_key-Owned key_type kept k w (sized, owns) = (
      free_key-Sized key_type k w sized,
      elim (free_key-ClosedOr key_type kept k w (sized, owns)) [
        | inl (_, off, at) ↦ inl (off, at)
        | inr (_, same, still) ↦
            subst (λ h. Owns live kept h (free_key lib key_type k w).world) (sym same) still
      ],
    )

    Step-Owned :
        (key_type : SgxRsaKeyType) (kept : Live) (s s' : RsaKey × W)
        → Step lib key_type s s'
        → Owned kept s
        → Owned kept s'
    unfolding create2 create1 create rsgx_create_rsa_priv2_key rsgx_create_rsa_priv1_key
        rsgx_create_rsa_pub1_key
    Step-Owned _ kept _ _ (creates2 mod_size exp_size e p q dmp1 dmq1 iqmp k w) =
        Owned-keep_key kept mod_size exp_size k w
          (rsgx_create_rsa_priv2_key lib mod_size exp_size e p q dmp1 dmq1 iqmp k.key) _
          (tested _ k.key (priv2 mod_size exp_size e p q dmp1 dmq1 iqmp))
          (rsgx_create_rsa_priv2_key-positive mod_size exp_size e p q dmp1 dmq1 iqmp k.key w)
    Step-Owned _ kept _ _ (creates1 mod_size exp_size priv_exp_size n e d k w) =
        Owned-keep_key kept mod_size exp_size k w
          (rsgx_create_rsa_priv1_key lib mod_size exp_size priv_exp_size n e d k.key) _
          (tested _ k.key (priv1 mod_size exp_size priv_exp_size n e d))
          (rsgx_create_rsa_priv1_key-positive mod_size exp_size priv_exp_size n e d k.key w)
    Step-Owned _ kept _ _ (creates mod_size exp_size n e k w) =
        Owned-keep_key kept mod_size exp_size k w
          (rsgx_create_rsa_pub1_key lib mod_size exp_size n e k.key) _
          (tested _ k.key (pub1 mod_size exp_size n e))
          (rsgx_create_rsa_pub1_key-positive mod_size exp_size n e k.key w)
    Step-Owned _ kept _ _ (decrypts out_data out_len in_data k w) =
        λ (sized, owns). (sized, rw (decrypt_sha256-live out_data out_len in_data k w) owns)
    Step-Owned _ kept _ _ (encrypts out_data out_len in_data k w) =
        λ (sized, owns). (sized, rw (encrypt_sha256-live out_data out_len in_data k w) owns)
    Step-Owned _ kept _ _ (frees key_type k w) = free_key-Owned key_type kept k w

    Reached-Owned :
        (key_type : SgxRsaKeyType) (start : W) (s : RsaKey × W)
        → Reached lib key_type start s
        → Owned (live start) s
    Reached-Owned key_type start _ is_new = (λ on. absurd cc, inl (refl, refl))
    Reached-Owned key_type start _ (calls {s = s} {s' = s'} before step) =
        Step-Owned key_type (live start) s s' step (Reached-Owned key_type start s before)

    -- After any calls of its methods, in any order and with any answers of a library that keeps to
    -- its documentation, a `SgxRsaPrivKey` or `SgxRsaPubKey` that started new owns nothing, or one key
    -- that the library did not have before, with the positive sizes that freeing it asks for, and no
    -- other key has come or gone. Its `free` then either succeeds, and the library has exactly the
    -- keys of the start, or fails and leaves the key as it was, with what it owns; `drop` ends in the
    -- same state.
    pub free_key-releases :
        (key_type : SgxRsaKeyType) (start : W) (k : RsaKey) (w : W)
        → Reached lib key_type start (k, w)
        → Owned (live start) (k, w)
          × ClosedOr live (live start) (handle_of k) (outcome_of (free_key lib key_type k w))
          × (drop_key lib key_type k w ≡ (free_key lib key_type k w).world)
    unfolding drop_key
    free_key-releases key_type start k w reached =
        let owned = Reached-Owned key_type start (k, w) reached in
        (owned, free_key-ClosedOr key_type (live start) k w owned, refl)
