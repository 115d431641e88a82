-- ===== src/Tcrypto/Aes/Tests.antt =====
-- A library that holds one context, keeps the text as it is and refuses to encrypt nothing, and
-- encryption in pieces there.
use sgx_sdk_rs.Base.{
  ℕ, ◌+◌, ◌<◌, ◌==◌, if◌then◌else◌, false, sgx_error_invalid_parameter, ◌≡◌, refl, arith, List, [],
  ◌∷◌, ◌++◌, Option, none, some, replicate, ok, sgx_success,
}
use sgx_sdk_rs.Tcrypto.Gcm
use sgx_sdk_rs.Tcrypto.Gcm.{Region, GcmOut, TcryptoLib, rsgx_rijndael128_gcm_encrypt}
use sgx_sdk_rs.Tcrypto.Aes.{AesLib}
use sgx_sdk_rs.Tcrypto.Aes.Client.{Encrypted, IsAesGcm, encrypt_pieces}
use sgx_sdk_rs.Tcrypto.Aes.Pieces.{sgx_aes_handle-rsgx_rijndael128_gcm_encrypt}

abbrev bytes_of : Region → List ℕ
bytes_of none = []
bytes_of (some bs) = bs

abbrev append_text : List ℕ → Option Encrypted → Option Encrypted
append_text src none = none
append_text src (some c) = some (record c { text = c.text ++ src })

abbrev read_mac : Option Encrypted → List ℕ
read_mac none = []
read_mac (some c) = c.key ++ c.text

abbrev toy_aes : AesLib (Option Encrypted)
toy_aes = record {
  sgx_aes_gcm128_enc_init = λ key iv iv_len aad aad_len w.
      (sgx_success, 1, some (record { key = key; iv = iv; aad = bytes_of aad; text = [] }));
  sgx_aes_gcm128_enc_update = λ src len h w. (sgx_success, src, append_text src w);
  sgx_aes_gcm128_enc_get_mac = λ h w. (sgx_success, read_mac w, w);
  sgx_aes_gcm_close = λ h w. (sgx_success, none);
}

abbrev toy_gcm : TcryptoLib
toy_gcm = record {
  sgx_rijndael128_gcm_encrypt = λ key src len iv iv_len aad aad_len. record {
    status = if len + aad_len == 0 then sgx_error_invalid_parameter else sgx_success;
    out = bytes_of src;
    mac = key ++ bytes_of src;
  };
  sgx_rijndael128_gcm_decrypt = λ key src len iv iv_len aad aad_len mac. record {
    status = sgx_success;
    out = bytes_of src;
    mac = mac;
  };
}

region_lem : (bs : List ℕ) → bytes_of (Gcm.region bs) ≡ bs
region_lem [] = refl
region_lem (b ∷ bs) = refl

nonzero : {n : ℕ} → 0 < n → (n == 0) ≡ false
nonzero h = ground (arith, h)

abbrev toy_IsAesGcm : IsAesGcm toy_aes toy_gcm
toy_IsAesGcm = record {
  view = λ w h. w;
  cipher = λ key iv text. text;
  tag = λ key iv aad text. key ++ text;
  cipher_nil = λ key iv. refl;
  inits = λ key iv aad w twelve small. (refl, rw (region_lem aad) refl);
  updates = λ src h w c at filled total. (refl, refl, refl, rw at refl);
  gets_mac = λ h w c at accepted. (refl, rw at refl);
  encrypts = λ key src iv aad accepted small small'. (
    rw (nonzero accepted.1) refl,
    rw (region_lem src) refl,
    region_lem src,
    rw (region_lem src) refl,
  );
}

abbrev iv : List ℕ
iv = replicate 12 0

abbrev pieces : List (List ℕ)
pieces = (1 ∷ 2 ∷ []) ∷ (3 ∷ []) ∷ []

sgx_aes_handle-rsgx_rijndael128_gcm_encrypt_example :
    let one =
      rsgx_rijndael128_gcm_encrypt toy_gcm
        (9 ∷ [])
        (1 ∷ 2 ∷ 3 ∷ [])
        iv
        (5 ∷ [])
        (replicate 3 0)
        [] in
    (one.result ≡ ok tt)
    × (encrypt_pieces toy_aes (9 ∷ []) iv (5 ∷ []) pieces none ≡ ok (one.dst, one.mac))
sgx_aes_handle-rsgx_rijndael128_gcm_encrypt_example =
    sgx_aes_handle-rsgx_rijndael128_gcm_encrypt toy_aes toy_IsAesGcm (9 ∷ []) iv (5 ∷ []) [] pieces
      none refl (omega arith) (omega arith) (omega arith, (omega arith, tt)) (omega arith)
