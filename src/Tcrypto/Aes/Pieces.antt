-- ===== src/Tcrypto/Aes/Pieces.antt =====
-- sgx-tcrypto/src/crypto.rs: encryption in pieces over a `SgxAesHandle` gives what encryption in one call
-- gives.
use mathlib.Core.List.{append_assoc, append-nil}
use sgx_sdk_rs.Base.{
  ℕ, ◌+◌, ◌%◌, ◌^◌, length-append, ◌≤◌, ◌<◌, ◌≡◌, refl, sym, ap, ◌∙◌, arith, inl, inr, List, [],
  ◌∷◌, ◌++◌, true, false, not, ltb, ◌==◌, ◌||◌, some, length, replicate, length-replicate, Result,
  ok, err, u32_max,
}
use sgx_sdk_rs.Types.{sgx_aesgcm_iv_size}
use sgx_sdk_rs.Tcrypto.Context.{Handle, Outcome, new, size_refused}
use sgx_sdk_rs.Tcrypto.Context.Pieces.{concat, AllFilled}
use sgx_sdk_rs.Tcrypto.Lifecycle.{open_handle, answer}
use sgx_sdk_rs.Tcrypto.Gcm.{TcryptoLib, region, rsgx_rijndael128_gcm_encrypt}
use sgx_sdk_rs.Tcrypto.Gcm.Laws.{put_all, written_all, rsgx_rijndael128_gcm_encrypt_lem}
use sgx_sdk_rs.Tcrypto.Aes.{
  AesLib, init_aes, update_aes, get_mac, rsgx_aes_gcm128_enc_init, rsgx_aes_gcm128_enc_update,
  rsgx_aes_gcm128_enc_get_mac,
}
use sgx_sdk_rs.Tcrypto.Aes.Client.{Encrypted, IsAccepted, IsAesGcm, encrypt_rest, encrypt_pieces}

not_wrapped : (size : ℕ) → size ≤ u32_max → size % 2 ^ 32 ≡ size
not_wrapped size small = omega (arith, small)

module _ {W : Type 0} (lib : AesLib W) where
  module _ {tcrypto : TcryptoLib} (laws : IsAesGcm lib tcrypto) where
    open laws use {view, cipher, tag, cipher_nil, inits, updates, gets_mac, encrypts}

    update_aes_lem :
        (src : List ℕ) (h : Handle) (w : W) (c : Encrypted)
        → h.initflag ≡ true
        → view w h.handle ≡ some c
        → 0 < length src
        → length c.text + length src ≤ u32_max
        → let (ret, out, w') = lib.sgx_aes_gcm128_enc_update src (length src) h.handle w in
          update_aes lib src (replicate (length src) 0) h w
          ≡ (record { result = ok tt; this = h; world = w' }, out)
    unfolding update_aes rsgx_aes_gcm128_enc_update
    update_aes_lem src h w c on at filled total =
        let short : length src ≤ u32_max = omega (arith, total) in
        let (ret, out, w') = lib.sgx_aes_gcm128_enc_update src (length src) h.handle w in
        let (good, long, _, _) = updates src h.handle w c at filled total in
        let buffer : List ℕ = replicate (length src) 0 in
        rw
          (
            on,
            not_wrapped (length src) short,
            length-replicate {A = ℕ} (length src) 0,
            fitting (length src) filled short,
            good,
            put_all buffer out (long ∙ sym (length-replicate (length src) 0)),
          )
          refl
      where
        fitting :
            (n : ℕ) → 0 < n → n ≤ u32_max → (size_refused n || size_refused n || ltb n n) ≡ false
        fitting n filled short = ground (arith, filled, short)

    -- The handle is open, and its context has encrypted `c.text`.
    abbrev Holds : Encrypted → Handle → W → Type 0
    Holds c h w = (h.initflag ≡ true) × (view w h.handle ≡ some c)

    abbrev after : Encrypted → List ℕ → Encrypted
    after c src = record c { text = c.text ++ src }

    encrypt_rest_lem :
        (pieces : List (List ℕ)) (h : Handle) (w : W) (c : Encrypted)
        → Holds c h w
        → AllFilled pieces
        → length c.text + length (concat pieces) ≤ u32_max
        → (w' : W) × (encrypt_rest lib pieces h w (cipher c.key c.iv c.text)
            ≡ ok (cipher c.key c.iv (c.text ++ concat pieces), w'))
          × (view w' h.handle ≡ some (after c (concat pieces)))
    unfolding encrypt_rest
    encrypt_rest_lem [] h w c (on, at) filled total = (
      w,
      ap (λ t. ok (cipher c.key c.iv t, w)) (sym (append-nil c.text)),
      at ∙ ap (λ t. some (record c { text = t })) (sym (append-nil c.text)),
    )
    encrypt_rest_lem (piece ∷ pieces) h w c (on, at) (some_text, filled) total =
        let fits : length c.text + length piece ≤ u32_max =
          omega (arith, total, length-append piece (concat pieces)) in
        let rest : length (c.text ++ piece) + length (concat pieces) ≤ u32_max =
          omega (arith, total, length-append piece (concat pieces), length-append c.text piece) in
        let (ret, out, w1) = lib.sgx_aes_gcm128_enc_update piece (length piece) h.handle w in
        let (_, _, grows, held) = updates piece h.handle w c at some_text fits in
        let (w', ran, ends) = encrypt_rest_lem pieces h w1 (after c piece) (on, held) filled rest in
        (
          w',
          ap
                (λ (r : Outcome W (Unit {0}) × List ℕ). elim r.0.result [
                  | ok _ ↦
                      encrypt_rest lib pieces r.0.this r.0.world (cipher c.key c.iv c.text ++ r.1)
                  | err e ↦ err e
                ])
                (update_aes_lem piece h w c on at some_text fits)
              ∙ ap (λ t. encrypt_rest lib pieces h w1 t) (sym grows)
              ∙ ran
              ∙ ap (λ t. ok (cipher c.key c.iv t, w')) (append_assoc c.text piece (concat pieces)),
          ends ∙ ap (λ t. some (record c { text = t })) (append_assoc c.text piece (concat pieces)),
        )

    init_aes_lem :
        (key iv aad : List ℕ) (w : W)
        → length iv ≡ sgx_aesgcm_iv_size
        → length aad ≤ u32_max
        → let (ret, handle, w') =
            lib.sgx_aes_gcm128_enc_init key iv (length iv) (region aad) (length aad) w in
          init_aes lib key iv aad new w ≡ record {
            result = ok tt;
            this = record { handle = handle; initflag = true };
            world = w';
          }
    unfolding init_aes rsgx_aes_gcm128_enc_init open_handle
    init_aes_lem key iv aad w twelve small =
        let (good, _) = inits key iv aad w twelve small in
        let iv_len : length iv % 2 ^ 32 ≡ length iv = omega (arith, twelve) in
        let fine : (not (length iv == sgx_aesgcm_iv_size) || ltb u32_max (length aad)) ≡ false =
          ground (arith, twelve, small) in
        rw (iv_len, not_wrapped (length aad) small, fine, good) refl

    get_mac_lem :
        (h : Handle) (w : W) (c : Encrypted)
        → Holds c h w
        → IsAccepted c.iv c.aad c.text
        → (get_mac lib h w).result ≡ ok (tag c.key c.iv c.aad c.text)
    unfolding get_mac rsgx_aes_gcm128_enc_get_mac answer
    get_mac_lem h w c (on, at) accepted =
        let (good, same) = gets_mac h.handle w c at accepted in rw (on, good, same) refl

    one_call :
        (key src iv aad mac : List ℕ)
        → IsAccepted iv aad src
        → length aad ≤ u32_max
        → length src ≤ u32_max
        → rsgx_rijndael128_gcm_encrypt tcrypto key src iv aad (replicate (length src) 0) mac
          ≡ record { result = ok tt; dst = cipher key iv src; mac = tag key iv aad src }
    one_call key src iv aad mac (twelve, some_input) small fits =
        let o =
          tcrypto.sgx_rijndael128_gcm_encrypt key (region src) (length src) iv (length iv)
            (region aad) (length aad) in
        let (good, long, same, tagged) = encrypts key src iv aad (twelve, some_input) fits small in
        elim (rsgx_rijndael128_gcm_encrypt_lem tcrypto key src iv aad (replicate (length src) 0)
          mac) [
            | inr (misfit, _) ↦
                let buffer = length-replicate {A = ℕ} (length src) 0 in
                absurd
                  (misfit (fits, twelve, small, omega (arith, fits, buffer), omega (arith, buffer)))
            | inl (_, called) ↦
                called ∙ rw (good, written_all (length src) o.out long, same, tagged) refl
          ]

    -- Where the library behaves as documented and does not run out of memory: a text of at most
    -- `u32::MAX` bytes, which is not empty unless there are additional data, cut into pieces that are
    -- not empty and fed one by one to a new `SgxAesHandle` with an iv of 12 bytes and at most
    -- `u32::MAX` bytes of additional data, is encrypted, to the ciphertext and tag that
    -- `rsgx_rijndael128_gcm_encrypt` gives for it in one call.
    pub sgx_aes_handle-rsgx_rijndael128_gcm_encrypt :
        (key iv aad mac : List ℕ) (pieces : List (List ℕ)) (w : W)
        → length iv ≡ sgx_aesgcm_iv_size
        → length aad ≤ u32_max
        → 0 < length (concat pieces) + length aad
        → AllFilled pieces
        → length (concat pieces) ≤ u32_max
        → let text = concat pieces in
          let one =
            rsgx_rijndael128_gcm_encrypt tcrypto key text iv aad (replicate (length text) 0) mac in
          (one.result ≡ ok tt) × (encrypt_pieces lib key iv aad pieces w ≡ ok (one.dst, one.mac))
    unfolding encrypt_pieces
    sgx_aes_handle-rsgx_rijndael128_gcm_encrypt key iv aad mac pieces w twelve small some_input
          filled fits =
        let (ret, handle, w0) =
          lib.sgx_aes_gcm128_enc_init key iv (length iv) (region aad) (length aad) w in
        let h : Handle = record { handle = handle; initflag = true } in
        let c : Encrypted = record { key = key; iv = iv; aad = aad; text = [] } in
        let text = concat pieces in
        let one = one_call key text iv aad mac (twelve, some_input) small fits in
        let (w', ran, ends) =
          encrypt_rest_lem pieces h w0 c (refl, (inits key iv aad w twelve small).1) filled
            (omega (arith, fits)) in
        (
          ap (λ o. o.result) one,
          ap
                (λ (o : Outcome W (Unit {0})). elim o.result [
                  | err e ↦ err e
                  | ok _ ↦ elim (encrypt_rest lib pieces o.this o.world []) [
                    | err e ↦ err e
                    | ok (out, w2) ↦ elim (get_mac lib o.this w2).result [
                      | err e ↦ err e
                      | ok m ↦ ok (out, m)
                    ]
                  ]
                ])
                (init_aes_lem key iv aad w twelve small)
              ∙ ap
                  (λ (r : Result (List ℕ × W)). elim r [
                    | err e ↦ err e
                    | ok (out, w2) ↦ elim (get_mac lib h w2).result [
                      | err e ↦ err e
                      | ok m ↦ ok (out, m)
                    ]
                  ])
                  (ap (λ t. encrypt_rest lib pieces h w0 t) (sym (cipher_nil key iv)) ∙ ran)
              ∙ ap
                  (λ (r : Result (List ℕ)). elim r [
                    | err e ↦ err e
                    | ok m ↦ ok (cipher key iv text, m)
                  ])
                  (get_mac_lem h w' (after c text) (refl, ends) (twelve, some_input))
              ∙ ap (λ o. ok (o.dst, o.mac)) (sym one),
        )
