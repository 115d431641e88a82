-- ===== src/Tcrypto/Aes/Client.antt =====
-- sgx-tcrypto/src/crypto.rs: what AES-GCM promises of the library behind a `SgxAesHandle`, and a client that
-- encrypts in pieces.
use sgx_sdk_rs.Base.{
  ℕ, ◌+◌, ◌≤◌, ◌<◌, ◌≡◌, List, [], ◌∷◌, ◌++◌, some, Option, length, replicate, Result, ok, err,
  sgx_success, u32_max,
}
use sgx_sdk_rs.Types.{sgx_aesgcm_iv_size}
use sgx_sdk_rs.Tcrypto.Context.{Handle, new}
use sgx_sdk_rs.Tcrypto.Gcm.{TcryptoLib, region}
use sgx_sdk_rs.Tcrypto.Aes.{AesLib, init_aes, update_aes, get_mac}

-- A context: what it was opened with, and the text it has encrypted.
pub record Encrypted : Type 0 where
  pub key : List ℕ
  pub iv : List ℕ
  pub aad : List ℕ
  pub text : List ℕ

-- The library refuses an iv that is not of 12 bytes, and where neither text nor additional data are
-- given.
abbrev pub IsAccepted : List ℕ → List ℕ → List ℕ → Type 0
IsAccepted iv aad text = (length iv ≡ sgx_aesgcm_iv_size) × (0 < length text + length aad)

-- What is documented of a library that does not run out of memory, on inputs that it accepts and up
-- to `u32::MAX` bytes in all: `cipher` is the ciphertext, as long as the text and no different for
-- what follows, and `tag` the tag; encryption in pieces and in one call give them.
pub record IsAesGcm {W : Type 0} (lib : AesLib W) (tcrypto : TcryptoLib) : Type 0 where
  pub view : W → ℕ → Option Encrypted
  pub cipher : List ℕ → List ℕ → List ℕ → List ℕ
  pub tag : List ℕ → List ℕ → List ℕ → List ℕ → List ℕ
  pub cipher_nil : (key iv : List ℕ) → cipher key iv [] ≡ []
  pub inits :
      (key iv aad : List ℕ) (w : W)
      → length iv ≡ sgx_aesgcm_iv_size
      → length aad ≤ u32_max
      → let (ret, h, w') =
          lib.sgx_aes_gcm128_enc_init key iv (length iv) (region aad) (length aad) w in
        (ret ≡ sgx_success)
        × (view w' h ≡ some (record { key = key; iv = iv; aad = aad; text = [] }))
  pub updates :
      (src : List ℕ) (h : ℕ) (w : W) (c : Encrypted)
      → view w h ≡ some c
      → 0 < length src
      → length c.text + length src ≤ u32_max
      → let (ret, out, w') = lib.sgx_aes_gcm128_enc_update src (length src) h w in
        (ret ≡ sgx_success)
        × (length out ≡ length src)
        × (cipher c.key c.iv (c.text ++ src) ≡ cipher c.key c.iv c.text ++ out)
        × (view w' h ≡ some (record c { text = c.text ++ src }))
  pub gets_mac :
      (h : ℕ) (w : W) (c : Encrypted)
      → view w h ≡ some c
      → IsAccepted c.iv c.aad c.text
      → let (ret, mac, w') = lib.sgx_aes_gcm128_enc_get_mac h w in
        (ret ≡ sgx_success) × (mac ≡ tag c.key c.iv c.aad c.text)
  pub encrypts :
      (key src iv aad : List ℕ)
      → IsAccepted iv aad src
      → length src ≤ u32_max
      → length aad ≤ u32_max
      → let o =
          tcrypto.sgx_rijndael128_gcm_encrypt key
            (region src)
            (length src)
            iv
            (length iv)
            (region aad)
            (length aad) in
        (o.status ≡ sgx_success)
        × (length o.out ≡ length src)
        × (o.out ≡ cipher key iv src)
        × (o.mac ≡ tag key iv aad src)

module _ {W : Type 0} (lib : AesLib W) where
  -- A client's loop: every piece goes to `update`, with a buffer of its length.
  unfoldable pub encrypt_rest : List (List ℕ) → Handle → W → List ℕ → Result (List ℕ × W)
  encrypt_rest [] h w out = ok (out, w)
  encrypt_rest (piece ∷ pieces) h w out =
      let (o, dst) = update_aes lib piece (replicate (length piece) 0) h w in
      elim o.result [ ok _ ↦ encrypt_rest pieces o.this o.world (out ++ dst) | err e ↦ err e ]

  -- And the whole client: the ciphertext and the tag.
  unfoldable pub encrypt_pieces :
      List ℕ → List ℕ → List ℕ → List (List ℕ) → W → Result (List ℕ × List ℕ)
  encrypt_pieces key iv aad pieces w =
      let opened = init_aes lib key iv aad new w in
      elim opened.result [
        | err e ↦ err e
        | ok _ ↦ elim (encrypt_rest pieces opened.this opened.world []) [
          | err e ↦ err e
          | ok (out, w') ↦ elim (get_mac lib opened.this w').result [
            | err e ↦ err e
            | ok mac ↦ ok (out, mac)
          ]
        ]
      ]
