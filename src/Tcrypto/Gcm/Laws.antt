-- ===== src/Tcrypto/Gcm/Laws.antt =====
-- The AES-GCM wrappers of sgx-tcrypto/src/crypto.rs: when they call through, and that decryption
-- undoes encryption.
use sgx_sdk_rs.Base.{
  ℕ, zero, suc, ◌≤◌, ◌≡◌, ◌⊎◌, inl, inr, ap, sym, arith, refl, List, [], ◌∷◌, length, replicate,
  put, length-replicate, u32_max, sgx_success, sgx_error_invalid_parameter, Result, ok, err,
  from_status,
}
use sgx_sdk_rs.Types.{sgx_aesgcm_iv_size}
use sgx_sdk_rs.Tcrypto.Gcm.{
  TcryptoLib, IsGcm, region, written, check_lengths, rsgx_rijndael128_gcm_encrypt,
  rsgx_rijndael128_gcm_decrypt,
}

pub err-ne-ok : {e : ℕ} → ◌≡◌ {A = Result (Unit {0})} (err e) (ok tt) → ⊥
err-ne-ok h = cc

-- The lengths that both directions take.
abbrev pub Fits : ℕ → ℕ → ℕ → ℕ → Type 0
Fits src_len iv_len aad_len dst_len =
    (src_len ≤ u32_max)
    × (iv_len ≡ sgx_aesgcm_iv_size)
    × (aad_len ≤ u32_max)
    × (dst_len ≤ u32_max)
    × (src_len ≤ dst_len)

check_lengths-Fits :
    (s i a d : ℕ)
    → (Fits s i a d × (check_lengths s i a d ≡ ok tt))
      ⊎ ((¬ Fits s i a d) × (check_lengths s i a d ≡ err sgx_error_invalid_parameter))
unfolding check_lengths
check_lengths-Fits s i a d = ground arith

pub put_all {ℓ} : {A : Type ℓ} (xs ys : List A) → length ys ≡ length xs → put xs 0 ys ≡ ys
put_all [] [] e = refl
put_all [] (y ∷ ys) e = absurd (omega arith)
put_all (x ∷ xs) [] e = absurd (omega arith)
put_all (x ∷ xs) (y ∷ ys) e = ap (◌∷◌ y) (put_all xs ys (omega arith))

-- Over a fresh buffer of the source's length, what was written is the output.
pub written_all : (n : ℕ) (out : List ℕ) → length out ≡ n → written n (replicate n 0) out ≡ out
written_all zero [] e = refl
written_all zero (y ∷ out) e = absurd (omega arith)
written_all (suc n) out e =
    ground (arith, put_all (replicate (suc n) 0) out, length-replicate {A = ℕ} (suc n) 0)

module _ (tcrypto : TcryptoLib) where
  -- `rsgx_rijndael128_gcm_encrypt` calls the library exactly on a source and additional text of at
  -- most `u32::MAX` bytes, an iv of 12 and a destination no shorter than the source; the result is
  -- then the call's status with what it wrote. Else the answer is INVALID_PARAMETER and no buffer
  -- is written.
  pub rsgx_rijndael128_gcm_encrypt_lem :
      (key src iv aad dst mac : List ℕ)
      → let ret =
          tcrypto.sgx_rijndael128_gcm_encrypt key
            (region src)
            (length src)
            iv
            (length iv)
            (region aad)
            (length aad) in
        (Fits (length src) (length iv) (length aad) (length dst)
          × (rsgx_rijndael128_gcm_encrypt tcrypto key src iv aad dst mac ≡ record {
            result = from_status ret.status tt;
            dst = written (length src) dst ret.out;
            mac = ret.mac;
          }))
        ⊎ ((¬ Fits (length src) (length iv) (length aad) (length dst))
            × (rsgx_rijndael128_gcm_encrypt tcrypto key src iv aad dst mac
                ≡ record { result = err sgx_error_invalid_parameter; dst = dst; mac = mac }))
  unfolding rsgx_rijndael128_gcm_encrypt
  rsgx_rijndael128_gcm_encrypt_lem key src iv aad dst mac =
      elim (check_lengths-Fits (length src) (length iv) (length aad) (length dst)) [
        | inl (fits, checked) ↦ inl (fits, rw (checked, rsgx_rijndael128_gcm_encrypt))
        | inr (misfit, checked) ↦ inr (misfit, rw (checked, rsgx_rijndael128_gcm_encrypt))
      ]

  rsgx_rijndael128_gcm_decrypt-Fits :
      (key src iv aad mac dst : List ℕ)
      → Fits (length src) (length iv) (length aad) (length dst)
      → let ret =
          tcrypto.sgx_rijndael128_gcm_decrypt key
            (region src)
            (length src)
            iv
            (length iv)
            (region aad)
            (length aad)
            mac in
        rsgx_rijndael128_gcm_decrypt tcrypto key src iv aad mac dst ≡ record {
          result = from_status ret.status tt;
          dst = written (length src) dst ret.out;
          mac = mac;
        }
  unfolding rsgx_rijndael128_gcm_decrypt
  rsgx_rijndael128_gcm_decrypt-Fits key src iv aad mac dst fits =
      elim (check_lengths-Fits (length src) (length iv) (length aad) (length dst)) [
        | inl (_, checked) ↦ rw (checked, rsgx_rijndael128_gcm_decrypt)
        | inr (misfit, _) ↦ absurd (misfit fits)
      ]

  from_status-ok : (ret : ℕ) → from_status {A = Unit {0}} ret tt ≡ ok tt → ret ≡ sgx_success
  from_status-ok ret h = ground arith

  -- Where the library's call gives a text of the source's length, the fresh buffer holds it.
  decrypt_fresh :
      (key src iv aad mac text : List ℕ)
      → Fits (length src) (length iv) (length aad) (length src)
      → length text ≡ length src
      → let d =
          tcrypto.sgx_rijndael128_gcm_decrypt key
            (region src)
            (length src)
            iv
            (length iv)
            (region aad)
            (length aad)
            mac in
        (d.status ≡ sgx_success) × (d.out ≡ text)
        → rsgx_rijndael128_gcm_decrypt tcrypto key src iv aad mac (replicate (length src) 0)
          ≡ record { result = ok tt; dst = text; mac = mac }
  decrypt_fresh key src iv aad mac text fits same (good, plain) = rw (
    rsgx_rijndael128_gcm_decrypt-Fits key src iv aad mac (replicate (length src) 0)
        (rw length-replicate fits),
    good,
    plain,
    written_all (length src) text same,
  )

  module _ (gcm : IsGcm tcrypto) (key src iv aad tag : List ℕ) where
    open gcm use {length_out, undoes}

    -- A successful encryption into a fresh buffer of the source's length fills it, and decryption
    -- of that buffer into another one gives the source.
    pub decrypt-encrypt :
        let e =
          rsgx_rijndael128_gcm_encrypt tcrypto key src iv aad (replicate (length src) 0) tag in
        e.result ≡ ok tt
        → (length e.dst ≡ length src)
          × (rsgx_rijndael128_gcm_decrypt tcrypto key e.dst iv aad e.mac
                (replicate (length e.dst) 0)
              ≡ record { result = ok tt; dst = src; mac = e.mac })
    decrypt-encrypt h =
        elim (rsgx_rijndael128_gcm_encrypt_lem key src iv aad (replicate (length src) 0) tag) [
          | inr (_, refused) ↦ absurd (err-ne-ok (rw refused at h))
          | inl (fits, called) ↦
              let good = from_status-ok _ (rw called at h) in
              let len = length_out key src iv aad good in
              let ret =
                tcrypto.sgx_rijndael128_gcm_encrypt key (region src) (length src) iv (length iv)
                  (region aad) (length aad) in
              rw (called, written_all (length src) ret.out len)
                (
                  len,
                  decrypt_fresh key ret.out iv aad ret.mac src
                      (rw len (omega (arith, length-replicate {A = ℕ} (length src) 0))) (sym len)
                      (undoes key src iv aad good),
                )
        ]
