-- ===== src/Tcrypto/Ctr/Tests.antt =====
-- A library that adds the first byte of the counter block to every byte, and the theorems on AES-CTR
-- there.
use sgx_sdk_rs.Base.{
  ℕ, suc, ◌+◌, ◌-◌, ◌≡◌, refl, arith, List, [], ◌∷◌, length, take, drop, ok, sgx_success, ap,
}
use sgx_sdk_rs.Tcrypto.Ctr.{CtrLib, IsCtr, check_sizes, rsgx_aes_ctr_encrypt, rsgx_aes_ctr_decrypt}
use sgx_sdk_rs.Tcrypto.Ctr.RoundTrip.{Holds, rsgx_aes_ctr_decrypt-rsgx_aes_ctr_encrypt}
use sgx_sdk_rs.Tcrypto.Ctr.Stream.{stream, encrypt, decrypt, stream-rsgx_aes_ctr_encrypt}

abbrev first : List ℕ → ℕ
first [] = 0
first (b ∷ bs) = b

abbrev next : List ℕ → List ℕ
next [] = []
next (b ∷ bs) = suc b ∷ bs

abbrev add_all : ℕ → List ℕ → List ℕ
add_all c [] = []
add_all c (b ∷ bs) = (b + c) ∷ add_all c bs

abbrev sub_all : ℕ → List ℕ → List ℕ
sub_all c [] = []
sub_all c (b ∷ bs) = (b - c) ∷ sub_all c bs

length-add_all : (c : ℕ) (bs : List ℕ) → length (add_all c bs) ≡ length bs
length-add_all c [] = refl
length-add_all c (b ∷ bs) = ap suc (length-add_all c bs)

sub_all-add_all : (c : ℕ) (bs : List ℕ) → sub_all c (add_all c bs) ≡ bs
sub_all-add_all c [] = refl
sub_all-add_all c (b ∷ bs) =
    let one : b + c - c ≡ b = omega arith in rw (one, sub_all-add_all c bs) refl

abbrev toy_ctr : CtrLib
toy_ctr = record {
  sgx_aes_ctr_encrypt = λ key src len ctr inc. record {
    status = sgx_success;
    ctr = next ctr;
    out = add_all (first ctr) src;
  };
  sgx_aes_ctr_decrypt = λ key src len ctr inc. record {
    status = sgx_success;
    ctr = next ctr;
    out = sub_all (first ctr) src;
  };
}

abbrev toy_IsCtr : IsCtr toy_ctr
toy_IsCtr = record {
  length_out = λ key src ctr inc. length-add_all (first ctr) src;
  undoes = λ key src ctr inc good. (refl, sub_all-add_all (first ctr) src, refl);
}

encrypted :
    (rsgx_aes_ctr_encrypt toy_ctr (1 ∷ []) (5 ∷ 6 ∷ []) (3 ∷ 0 ∷ []) 32 (7 ∷ 7 ∷ 7 ∷ [])).result
    ≡ ok tt
unfolding rsgx_aes_ctr_encrypt check_sizes
encrypted = refl

streamed :
    stream (encrypt toy_ctr (1 ∷ []) 32) ((5 ∷ 6 ∷ []) ∷ (5 ∷ []) ∷ []) (3 ∷ 0 ∷ [])
    ≡ ok (((8 ∷ 9 ∷ []) ∷ (9 ∷ []) ∷ []), (5 ∷ 0 ∷ []))
unfolding stream rsgx_aes_ctr_encrypt check_sizes
streamed = refl

rsgx_aes_ctr_decrypt-rsgx_aes_ctr_encrypt_example :
    let e = rsgx_aes_ctr_encrypt toy_ctr (1 ∷ []) (5 ∷ 6 ∷ []) (3 ∷ 0 ∷ []) 32 (7 ∷ 7 ∷ 7 ∷ []) in
    let d =
      rsgx_aes_ctr_decrypt toy_ctr (1 ∷ []) (take 2 e.dst) (3 ∷ 0 ∷ []) 32 (9 ∷ 9 ∷ 9 ∷ 9 ∷ []) in
    (drop 2 e.dst ≡ (7 ∷ []))
    × (d.result ≡ ok tt)
    × (d.ctr ≡ e.ctr)
    × Holds (5 ∷ 6 ∷ []) (9 ∷ 9 ∷ 9 ∷ 9 ∷ []) d.dst
rsgx_aes_ctr_decrypt-rsgx_aes_ctr_encrypt_example =
    rsgx_aes_ctr_decrypt-rsgx_aes_ctr_encrypt toy_ctr toy_IsCtr (1 ∷ []) (5 ∷ 6 ∷ []) (3 ∷ 0 ∷ [])
      32 (7 ∷ 7 ∷ 7 ∷ []) (9 ∷ 9 ∷ 9 ∷ 9 ∷ []) encrypted (omega arith) (omega arith)

stream-rsgx_aes_ctr_encrypt_example :
    stream (decrypt toy_ctr (1 ∷ []) 32) ((8 ∷ 9 ∷ []) ∷ (9 ∷ []) ∷ []) (3 ∷ 0 ∷ [])
    ≡ ok (((5 ∷ 6 ∷ []) ∷ (5 ∷ []) ∷ []), (5 ∷ 0 ∷ []))
stream-rsgx_aes_ctr_encrypt_example =
    stream-rsgx_aes_ctr_encrypt toy_ctr (1 ∷ []) 32 toy_IsCtr ((5 ∷ 6 ∷ []) ∷ (5 ∷ []) ∷ [])
      (3 ∷ 0 ∷ []) (((8 ∷ 9 ∷ []) ∷ (9 ∷ []) ∷ []), (5 ∷ 0 ∷ [])) streamed
