-- ===== src/Tcrypto/Rsa/Steps.antt =====
-- sgx-tcrypto/src/crypto.rs: what is documented of the library's RSA keys, and the calls of the methods
-- of `SgxRsaPrivKey` and `SgxRsaPubKey` as steps.
use sgx_sdk_rs.Base.{
  ℕ, ◌≡◌, inl, inr, refl, arith, List, Bool, true, false, ◌==◌, if◌then◌else◌, Bool-cases, Option,
  SgxStatus, ok, sgx_success, sgx_error_invalid_parameter,
}
use sgx_sdk_rs.Tcrypto.Context.{Handle, Outcome}
use sgx_sdk_rs.Tcrypto.Lifecycle.{Live, IsLifecycle, open_handle, close_handle}
use sgx_sdk_rs.Tcrypto.Ecc.{is_positive}
use sgx_sdk_rs.Tcrypto.Rsa.{
  RsaLib, RsaKey, KeyOutcome, SgxRsaKeyType, sgx_rsa_private_key, sgx_rsa_public_key, new_key,
  keep_key, create2, create1, create, decrypt_sha256, encrypt_sha256, free_key, rsgx_free_rsa_key,
}

-- What the library documents of its keys: how each kind is made and freed, and that crypting neither
-- makes nor frees one.
pub record IsRsaLib {W : Type 0} (lib : RsaLib W) : Type 0 where
  pub live : W → Live
  pub priv2 :
      (mod_size exp_size : ℕ) (e p q dmp1 dmq1 iqmp : List ℕ)
      → IsLifecycle live
          (lib.sgx_create_rsa_priv2_key mod_size exp_size e p q dmp1 dmq1 iqmp)
          (λ k. lib.sgx_free_rsa_key k sgx_rsa_private_key mod_size exp_size)
  pub priv1 :
      (n_size e_size d_size : ℕ) (n e d : List ℕ)
      → IsLifecycle live
          (lib.sgx_create_rsa_priv1_key n_size e_size d_size n e d)
          (λ k. lib.sgx_free_rsa_key k sgx_rsa_private_key n_size e_size)
  pub pub1 :
      (mod_size exp_size : ℕ) (n e : List ℕ)
      → IsLifecycle live
          (lib.sgx_create_rsa_pub1_key mod_size exp_size n e)
          (λ k. lib.sgx_free_rsa_key k sgx_rsa_public_key mod_size exp_size)
  pub decrypt_keeps :
      (key : ℕ) (out : Option (List ℕ)) (out_len : ℕ) (text : List ℕ) (size : ℕ) (w : W)
      → live (lib.sgx_rsa_priv_decrypt_sha256 key out out_len text size w).2 ≡ live w
  pub encrypt_keeps :
      (key : ℕ) (out : Option (List ℕ)) (out_len : ℕ) (text : List ℕ) (size : ℕ) (w : W)
      → live (lib.sgx_rsa_pub_encrypt_sha256 key out out_len text size w).2 ≡ live w

abbrev pub handle_of : RsaKey → Handle
handle_of k = record { handle = k.key; initflag = k.createflag }

abbrev pub outcome_of : {W : Type 0} → KeyOutcome W → Outcome W (Unit {0})
outcome_of o = record { result = o.result; this = handle_of o.this; world = o.world }

-- A key that was created has positive sizes.
abbrev pub Sized : RsaKey → Type 0
Sized k = k.createflag ≡ true → (is_positive k.mod_size ≡ true) × (is_positive k.exp_size ≡ true)

module _ {W : Type 0} where
  pub outcome_of-keep_key :
      (mod_size exp_size : ℕ) (k : RsaKey) (open_call : W → SgxStatus × ℕ × W) (w : W)
      → outcome_of (keep_key mod_size exp_size k w (open_call w))
        ≡ open_handle open_call (handle_of k) w
  unfolding open_handle
  outcome_of-keep_key mod_size exp_size k open_call w = elim (Bool-cases k.createflag) [
    | inl e ↦ rw e refl
    | inr e ↦ elim (Bool-cases ((open_call w).0 == sgx_success)) [
      | inl s ↦ rw (e, s) refl
      | inr s ↦ rw (e, s) refl
    ]
  ]

  -- A wrapper that tests its arguments first.
  pub tested :
      {live : W → Live} {open_call : W → SgxStatus × ℕ × W} {close_call : ℕ → W → SgxStatus × W}
      → (refused : Bool) (old : ℕ) → IsLifecycle live open_call close_call
      → IsLifecycle live
          (λ w. if refused then (sgx_error_invalid_parameter, old, w) else open_call w)
          close_call
  tested false old laws = laws
  tested true old laws = record {
    opens = λ w good. absurd (omega (arith, good));
    refuses = λ w bad. refl;
    closes = laws.closes;
    keeps = laws.keeps;
  }

module _ {W : Type 0} (lib : RsaLib W) where
  pub outcome_of-free_key :
      (key_type : SgxRsaKeyType) (k : RsaKey) (w : W)
      → Sized k
      → (k.createflag ≡ true
          → outcome_of (free_key lib key_type k w)
            ≡ close_handle
                (λ h. lib.sgx_free_rsa_key h key_type k.mod_size k.exp_size)
                (handle_of k)
                w)
  unfolding free_key rsgx_free_rsa_key close_handle
  outcome_of-free_key key_type k w sized on =
      let (mod_positive, exp_positive) = sized on in
      elim (Bool-cases (k.key == 0)) [
        | inl z ↦ rw (on, z) refl
        | inr z ↦
            elim (Bool-cases
              ((lib.sgx_free_rsa_key k.key key_type k.mod_size k.exp_size w).0 == sgx_success)) [
                | inl s ↦ rw (on, z, mod_positive, exp_positive, s) refl
                | inr s ↦ rw (on, z, mod_positive, exp_positive, s) refl
              ]
      ]

  pub free_key-off :
      (key_type : SgxRsaKeyType) (k : RsaKey) (w : W)
      → k.createflag ≡ false
      → free_key lib key_type k w ≡ record { result = ok tt; this = k; world = w }
  unfolding free_key
  free_key-off key_type k w off = rw off refl

  abbrev Next : KeyOutcome W → RsaKey × W
  Next o = (o.this, o.world)

  -- A call of a method of a key of one type.
  pub data Step : SgxRsaKeyType → RsaKey × W → RsaKey × W → Type 0 where
    creates2 :
        (mod_size exp_size : ℕ) (e p q dmp1 dmq1 iqmp : List ℕ) (k : RsaKey) (w : W)
        → Step sgx_rsa_private_key
            (k, w)
            (Next (create2 lib mod_size exp_size e p q dmp1 dmq1 iqmp k w))
    creates1 :
        (mod_size exp_size priv_exp_size : ℕ) (n e d : List ℕ) (k : RsaKey) (w : W)
        → Step sgx_rsa_private_key
            (k, w)
            (Next (create1 lib mod_size exp_size priv_exp_size n e d k w))
    decrypts :
        (out_data : List ℕ) (out_len : ℕ) (in_data : List ℕ) (k : RsaKey) (w : W)
        → Step sgx_rsa_private_key
            (k, w)
            (k, (decrypt_sha256 lib out_data out_len in_data k w).world)
    creates :
        (mod_size exp_size : ℕ) (n e : List ℕ) (k : RsaKey) (w : W)
        → Step sgx_rsa_public_key (k, w) (Next (create lib mod_size exp_size n e k w))
    encrypts :
        (out_data : List ℕ) (out_len : ℕ) (in_data : List ℕ) (k : RsaKey) (w : W)
        → Step sgx_rsa_public_key
            (k, w)
            (k, (encrypt_sha256 lib out_data out_len in_data k w).world)
    frees :
        (key_type : SgxRsaKeyType) (k : RsaKey) (w : W)
        → Step key_type (k, w) (Next (free_key lib key_type k w))

  pub data Reached (key_type : SgxRsaKeyType) (start : W) : RsaKey × W → Type 0 where
    is_new : Reached key_type start (new_key, start)
    calls :
        {s s' : RsaKey × W}
        → Reached key_type start s
        → Step key_type s s'
        → Reached key_type start s'
