-- ===== src/Tcrypto/Ctr/RoundTrip.antt =====
-- sgx-tcrypto/src/crypto.rs: AES-CTR decryption undoes encryption, on the caller's own buffers.
use sgx_sdk_rs.Base.{
  ℕ, ◌%◌, ◌^◌, ◌≤◌, ◌<◌, ◌≡◌, ◌⊎◌, inl, inr, refl, arith, List, length, take, drop, put,
  take-drop-put_self, drop-put, u32_max, sgx_success, sgx_error_invalid_parameter, ok, err,
  from_status,
}
use sgx_sdk_rs.Tcrypto.Ctr.{CtrLib, IsCtr, check_sizes, rsgx_aes_ctr_encrypt, rsgx_aes_ctr_decrypt}
use sgx_sdk_rs.Tcrypto.Gcm.Laws.{err-ne-ok}

-- The lengths that both directions take.
abbrev pub Fits : ℕ → ℕ → Type 0
Fits src_len dst_len = (0 < src_len) × (src_len ≤ dst_len) × (dst_len ≤ u32_max)

check_sizes-Fits :
    (s d : ℕ)
    → (Fits s d × (check_sizes s d ≡ ok tt))
      ⊎ ((¬ Fits s d) × (check_sizes s d ≡ err sgx_error_invalid_parameter))
unfolding check_sizes
check_sizes-Fits s d = ground arith

not_wrapped : (s d : ℕ) → Fits s d → s % 2 ^ 32 ≡ s
not_wrapped s d (_, short, small) = omega (arith, short, small)

pub from_status-ok : (ret : ℕ) → from_status {A = Unit {0}} ret tt ≡ ok tt → ret ≡ sgx_success
from_status-ok ret h = ground arith

-- A buffer holds `out` in front, and behind it what `dst` held there.
abbrev pub Holds : List ℕ → List ℕ → List ℕ → Type 0
Holds out dst after =
    (take (length out) after ≡ out) × (drop (length out) after ≡ drop (length out) dst)

put-Holds : (out dst : List ℕ) → length out ≤ length dst → Holds out dst (put dst 0 out)
put-Holds out dst fits = (
  take-drop-put_self dst 0 out (omega (arith, fits)),
  drop-put (length out) dst 0 out (omega (arith, fits)),
)

module _ (lib : CtrLib) where
  pub encrypt_cases :
      (key src ctr : List ℕ) (inc : ℕ) (dst : List ℕ)
      → let ret = lib.sgx_aes_ctr_encrypt key src (length src) ctr inc in
        (Fits (length src) (length dst)
          × (rsgx_aes_ctr_encrypt lib key src ctr inc dst ≡ record {
            result = from_status ret.status tt;
            ctr = ret.ctr;
            dst = put dst 0 ret.out;
          }))
        ⊎ ((¬ Fits (length src) (length dst))
            × (rsgx_aes_ctr_encrypt lib key src ctr inc dst
                ≡ record { result = err sgx_error_invalid_parameter; ctr = ctr; dst = dst }))
  unfolding rsgx_aes_ctr_encrypt
  encrypt_cases key src ctr inc dst = elim (check_sizes-Fits (length src) (length dst)) [
    | inl (fits, checked) ↦
        inl (fits, rw (checked, not_wrapped (length src) (length dst) fits, rsgx_aes_ctr_encrypt))
    | inr (misfit, checked) ↦ inr (misfit, rw (checked, rsgx_aes_ctr_encrypt))
  ]

  decrypt_cases :
      (key src ctr : List ℕ) (inc : ℕ) (dst : List ℕ)
      → let ret = lib.sgx_aes_ctr_decrypt key src (length src) ctr inc in
        (Fits (length src) (length dst)
          × (rsgx_aes_ctr_decrypt lib key src ctr inc dst ≡ record {
            result = from_status ret.status tt;
            ctr = ret.ctr;
            dst = put dst 0 ret.out;
          }))
        ⊎ ((¬ Fits (length src) (length dst))
            × (rsgx_aes_ctr_decrypt lib key src ctr inc dst
                ≡ record { result = err sgx_error_invalid_parameter; ctr = ctr; dst = dst }))
  unfolding rsgx_aes_ctr_decrypt
  decrypt_cases key src ctr inc dst = elim (check_sizes-Fits (length src) (length dst)) [
    | inl (fits, checked) ↦
        inl (fits, rw (checked, not_wrapped (length src) (length dst) fits, rsgx_aes_ctr_decrypt))
    | inr (misfit, checked) ↦ inr (misfit, rw (checked, rsgx_aes_ctr_decrypt))
  ]

  pub decrypts :
      (key src ctr : List ℕ) (inc : ℕ) (dst text after : List ℕ)
      → Fits (length src) (length dst)
      → let d = lib.sgx_aes_ctr_decrypt key src (length src) ctr inc in
        (d.status ≡ sgx_success) × (d.out ≡ text) × (d.ctr ≡ after)
        → rsgx_aes_ctr_decrypt lib key src ctr inc dst
          ≡ record { result = ok tt; ctr = after; dst = put dst 0 text }
  decrypts key src ctr inc dst text after fits (good, plain, moved) =
      elim (decrypt_cases key src ctr inc dst) [
        | inl (_, called) ↦ rw (called, good, plain, moved) refl
        | inr (misfit, _) ↦ absurd (misfit fits)
      ]

  module _ (ctr_laws : IsCtr lib) where
    open ctr_laws use {length_out, undoes}

    -- A successful encryption writes as many bytes as the source has into `dst`, and leaves the others.
    -- Decryption of those bytes from the same counter block into any buffer that takes them, of at
    -- most `u32::MAX` bytes, succeeds, puts the source in front of that buffer, leaves the rest of it,
    -- and moves the counter block on as the encryption did.
    pub rsgx_aes_ctr_decrypt-rsgx_aes_ctr_encrypt :
        (key src ctr : List ℕ) (inc : ℕ) (dst dst' : List ℕ)
        → (rsgx_aes_ctr_encrypt lib key src ctr inc dst).result ≡ ok tt
        → length src ≤ length dst'
        → length dst' ≤ u32_max
        → let e = rsgx_aes_ctr_encrypt lib key src ctr inc dst in
          let d = rsgx_aes_ctr_decrypt lib key (take (length src) e.dst) ctr inc dst' in
          (drop (length src) e.dst ≡ drop (length src) dst)
          × (d.result ≡ ok tt)
          × (d.ctr ≡ e.ctr)
          × Holds src dst' d.dst
    rsgx_aes_ctr_decrypt-rsgx_aes_ctr_encrypt key src ctr inc dst dst' h room small =
        elim (encrypt_cases key src ctr inc dst) [
          | inr (_, refused) ↦ absurd (err-ne-ok (rw refused at h))
          | inl (fits, called) ↦
              let good = from_status-ok _ (rw called at h) in
              let ret = lib.sgx_aes_ctr_encrypt key src (length src) ctr inc in
              let len = length_out key src ctr inc in
              let (front, behind) = put-Holds ret.out dst (rw len fits.1) in
              let opened =
                decrypts key ret.out ctr inc dst' src ret.ctr (rw len (fits.0, room, small))
                  (undoes key src ctr inc good) in
              rw (called, (rw len at front), opened)
                ((rw len at behind), refl, refl, put-Holds src dst' room)
        ]
