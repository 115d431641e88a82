-- ===== src/Tcrypto/Rsa/Tests.antt =====
-- A library that keeps one key at most, and the theorems on RSA there.
use sgx_sdk_rs.Base.{
  ℕ, ◌≡◌, ◌↔◌, refl, List, [], ◌∷◌, ◌++◌, Bool, true, false, ◌==◌, if◌then◌else◌, ok, sgx_success,
}
use sgx_sdk_rs.Tcrypto.Lifecycle.{ClosedOr}
use sgx_sdk_rs.Tcrypto.Lifecycle.Toy.{toy_open, toy_close, toy_live, toy-IsLifecycle}
use sgx_sdk_rs.Tcrypto.Rsa.{
  RsaLib, RsaKey, new_key, sgx_rsa_public_key, create, free_key, drop_key, rsgx_create_rsa_pub1_key,
}
use sgx_sdk_rs.Tcrypto.Rsa.Steps.{IsRsaLib, Step, Reached, handle_of, outcome_of}
use sgx_sdk_rs.Tcrypto.Rsa.Keys.{Owned, free_key-releases}
use sgx_sdk_rs.Tcrypto.Rsa.Sign.{
  RsaSignLib, KeyParts, Valid, rsgx_rsa3072_verify_msg, rsgx_rsa3072_verify_slice,
  rsgx_rsa3072_verify-Valid,
}

abbrev toy_rsa : RsaLib Bool
toy_rsa = record {
  sgx_create_rsa_priv2_key = λ mod_size exp_size e p q dmp1 dmq1 iqmp. toy_open;
  sgx_create_rsa_priv1_key = λ n_size e_size d_size n e d. toy_open;
  sgx_create_rsa_pub1_key = λ mod_size exp_size n e. toy_open;
  sgx_free_rsa_key = λ key key_type mod_size exp_size. toy_close key;
  sgx_rsa_priv_decrypt_sha256 = λ key out out_len text size w. (sgx_success, (text, size), w);
  sgx_rsa_pub_encrypt_sha256 = λ key out out_len text size w. (sgx_success, (text, size), w);
}

abbrev toy_rsa-IsRsaLib : IsRsaLib toy_rsa
toy_rsa-IsRsaLib = record {
  live = toy_live;
  priv2 = λ mod_size exp_size e p q dmp1 dmq1 iqmp. toy-IsLifecycle;
  priv1 = λ n_size e_size d_size n e d. toy-IsLifecycle;
  pub1 = λ mod_size exp_size n e. toy-IsLifecycle;
  decrypt_keeps = λ key out out_len text size w. refl;
  encrypt_keeps = λ key out out_len text size w. refl;
}

abbrev made : RsaKey
made = record { key = 1; mod_size = 384; exp_size = 4; createflag = true }

reached : Reached toy_rsa sgx_rsa_public_key false (made, true)
unfolding create rsgx_create_rsa_pub1_key
reached = Reached.calls Reached.is_new (Step.creates 384 4 (1 ∷ []) (3 ∷ []) new_key false)

free_key-releases_example :
    Owned toy_rsa toy_rsa-IsRsaLib (toy_live false) (made, true)
    × ClosedOr toy_live
        (toy_live false)
        (handle_of made)
        (outcome_of (free_key toy_rsa sgx_rsa_public_key made true))
    × (drop_key toy_rsa sgx_rsa_public_key made true
        ≡ (free_key toy_rsa sgx_rsa_public_key made true).world)
free_key-releases_example =
    free_key-releases toy_rsa toy_rsa-IsRsaLib sgx_rsa_public_key false made true reached

same : List ℕ → List ℕ → Bool
same [] [] = true
same [] (y ∷ ys) = false
same (x ∷ xs) [] = false
same (x ∷ xs) (y ∷ ys) = let rest = same xs ys in if x == y then rest else false

-- One byte for each part of a key pair.
abbrev parts : KeyParts
parts = record {
  n = 1 ∷ [];
  d = 2 ∷ [];
  e = 3 ∷ [];
  p = 4 ∷ [];
  q = 5 ∷ [];
  dmp1 = 6 ∷ [];
  dmq1 = 7 ∷ [];
  iqmp = 8 ∷ [];
}

abbrev toy_sign : RsaSignLib
toy_sign = record {
  sgx_rsa3072_sign = λ text size key. (sgx_success, key ++ text);
  sgx_rsa3072_sign_ex = λ text size key public. (sgx_success, key ++ text);
  sgx_rsa3072_verify =
      λ text size public signature. (sgx_success, if same signature (public ++ text) then 0 else 1);
  sgx_create_rsa_key_pair = λ n_byte_size e_byte_size. (sgx_success, parts);
}

rsgx_rsa3072_verify-Valid_example :
    ((rsgx_rsa3072_verify_msg toy_sign (1 ∷ []) (7 ∷ []) (7 ∷ 1 ∷ []) ≡ ok true)
      ↔ Valid toy_sign (1 ∷ []) (7 ∷ []) (7 ∷ 1 ∷ []))
    × ((rsgx_rsa3072_verify_slice toy_sign (1 ∷ []) (7 ∷ []) (7 ∷ 1 ∷ []) ≡ ok true)
        ↔ Valid toy_sign (1 ∷ []) (7 ∷ []) (7 ∷ 1 ∷ []))
rsgx_rsa3072_verify-Valid_example =
    rsgx_rsa3072_verify-Valid toy_sign (1 ∷ []) (7 ∷ []) (7 ∷ 1 ∷ [])
