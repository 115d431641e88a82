-- ===== src/Tcrypto/Ecc/Tests.antt =====
-- A library in which a private key is its public key, and the theorems on elliptic curves there.
use sgx_sdk_rs.Base.{
  ℕ, ◌≡◌, ◌↔◌, refl, arith, List, [], ◌∷◌, ◌++◌, Bool, true, false, ◌==◌, if◌then◌else◌, ok,
  sgx_success,
}
use sgx_sdk_rs.Tcrypto.Context.{Handle, new}
use sgx_sdk_rs.Tcrypto.Lifecycle.{Owns, ClosedOr, open_handle}
use sgx_sdk_rs.Tcrypto.Lifecycle.Toy.{toy_open, toy_close, toy_live, toy-IsLifecycle}
use sgx_sdk_rs.Tcrypto.Ecc.{
  EccLib, open_ecc, close_ecc, drop_ecc, rsgx_ecc256_open_context, ecdsa_verify_msg,
  ecdsa_verify_slice, ecdsa_verify_hash,
}
use sgx_sdk_rs.Tcrypto.Ecc.Verify.{Valid, ValidHash, ecdsa_verify-Valid}
use sgx_sdk_rs.Tcrypto.Ecc.Handles.{IsEccLib, Reached, Step, close_ecc-releases}

same : List ℕ → List ℕ → Bool
same [] [] = true
same [] (y ∷ ys) = false
same (x ∷ xs) [] = false
same (x ∷ xs) (y ∷ ys) = let rest = same xs ys in if x == y then rest else false

-- A signature is the key before the text.
abbrev toy_ecc : EccLib Bool
toy_ecc = record {
  sgx_ecc256_open_context = toy_open;
  sgx_ecc256_close_context = toy_close;
  sgx_ecc256_create_key_pair = λ h w. (sgx_success, (7 ∷ [], 7 ∷ []), w);
  sgx_ecc256_check_point = λ point h w. (sgx_success, 1, w);
  sgx_ecc256_compute_shared_dhkey = λ private public h w. (sgx_success, private ++ public, w);
  sgx_ecdsa_sign = λ text size private h w. (sgx_success, private ++ text, w);
  sgx_ecdsa_verify = λ text size public signature h w.
      (sgx_success, if same signature (public ++ text) then 0 else 0x11, w);
  sgx_ecdsa_verify_hash = λ hash public signature h w.
      (sgx_success, if same signature (public ++ hash) then 0 else 0x11, w);
}

abbrev toy_ecc-IsEccLib : IsEccLib toy_ecc
toy_ecc-IsEccLib = record {
  live = toy_live;
  lifecycle = toy-IsLifecycle;
  create_key_pair_keeps = λ h w. refl;
  check_point_keeps = λ point h w. refl;
  compute_shared_dhkey_keeps = λ private_b public_ga h w. refl;
  sign_keeps = λ text size private h w. refl;
  verify_keeps = λ text size public signature h w. refl;
  verify_hash_keeps = λ hash public signature h w. refl;
}

abbrev opened : Handle
opened = record { handle = 1; initflag = true }

verify_run : Valid toy_ecc (1 ∷ 2 ∷ []) (7 ∷ []) (7 ∷ 1 ∷ 2 ∷ []) opened true
unfolding same
verify_run = (refl, omega arith, omega arith, refl, refl)

ecdsa_verify-Valid_example :
    (((ecdsa_verify_msg toy_ecc (1 ∷ 2 ∷ []) (7 ∷ []) (7 ∷ 1 ∷ 2 ∷ []) opened true).result
        ≡ ok true)
      ↔ Valid toy_ecc (1 ∷ 2 ∷ []) (7 ∷ []) (7 ∷ 1 ∷ 2 ∷ []) opened true)
    × (((ecdsa_verify_slice toy_ecc (1 ∷ 2 ∷ []) (7 ∷ []) (7 ∷ 1 ∷ 2 ∷ []) opened true).result
          ≡ ok true)
        ↔ Valid toy_ecc (1 ∷ 2 ∷ []) (7 ∷ []) (7 ∷ 1 ∷ 2 ∷ []) opened true)
    × (((ecdsa_verify_hash toy_ecc (1 ∷ 2 ∷ []) (7 ∷ []) (7 ∷ 1 ∷ 2 ∷ []) opened true).result
          ≡ ok true)
        ↔ ValidHash toy_ecc (1 ∷ 2 ∷ []) (7 ∷ []) (7 ∷ 1 ∷ 2 ∷ []) opened true)
ecdsa_verify-Valid_example =
    ecdsa_verify-Valid toy_ecc (1 ∷ 2 ∷ []) (7 ∷ []) (7 ∷ 1 ∷ 2 ∷ []) opened true

reached : Reached toy_ecc false (opened, true)
unfolding open_ecc rsgx_ecc256_open_context open_handle
reached = Reached.calls Reached.is_new (Step.opens new false)

close_ecc-releases_example :
    Owns toy_live (toy_live false) opened true
    × ClosedOr toy_live (toy_live false) opened (close_ecc toy_ecc opened true)
    × (drop_ecc toy_ecc opened true ≡ (close_ecc toy_ecc opened true).world)
close_ecc-releases_example = close_ecc-releases toy_ecc toy_ecc-IsEccLib false opened true reached
