-- ===== src/Tcrypto/Ctr/Stream.antt =====
-- sgx-tcrypto/src/crypto.rs: a client that passes the counter block from call to call of AES-CTR.
use sgx_sdk_rs.Base.{
  ℕ, ◌≡◌, inl, inr, refl, sym, ap, ◌∙◌, List, [], ◌∷◌, length, replicate, length-replicate, Result,
  ok, err, Result-cases, ◌>>◌, ◌>>=◌,
}
use sgx_sdk_rs.Tcrypto.Ctr.{CtrLib, IsCtr, Streamed, rsgx_aes_ctr_encrypt, rsgx_aes_ctr_decrypt}
use sgx_sdk_rs.Tcrypto.Ctr.RoundTrip.{encrypt_cases, decrypts, from_status-ok}
use sgx_sdk_rs.Tcrypto.Gcm.Laws.{put_all, err-ne-ok}

-- A message goes to `call` with the counter block and a buffer of its length.
abbrev pub Call : Type 0
Call = List ℕ → List ℕ → List ℕ → Streamed

-- The messages in turn, with the counter block at the end.
unfoldable pub stream : Call → List (List ℕ) → List ℕ → Result (List (List ℕ) × List ℕ)
stream call [] ctr = ok ([], ctr)
stream call (src ∷ srcs) ctr =
    let o = call src ctr (replicate (length src) 0) in
    o.result >> (stream call srcs o.ctr >>= λ r. ok (o.dst ∷ r.0, r.1))

-- `back` takes what a successful `call` gave, from the same counter block, to the source.
abbrev Undoes : Call → Call → Type 0
Undoes back call =
    (src ctr : List ℕ)
    → let o = call src ctr (replicate (length src) 0) in
      o.result ≡ ok tt
      → back o.dst ctr (replicate (length o.dst) 0)
        ≡ record { result = ok tt; ctr = o.ctr; dst = src }

ok-injective {ℓ} : {A : Type ℓ} {a b : A} → ok a ≡ ok b → a ≡ b
ok-injective h = cc

err-ne-ok_any {ℓ} : {A : Type ℓ} {e : ℕ} {a : A} → err e ≡ ok a → ⊥
err-ne-ok_any h = cc

module _ (back call : Call) (undo : Undoes back call) where
  stream-undo :
      (srcs : List (List ℕ)) (ctr : List ℕ) (r : List (List ℕ) × List ℕ)
      → stream call srcs ctr ≡ ok r
      → stream back r.0 ctr ≡ ok (srcs, r.1)
  unfolding stream
  stream-undo [] ctr r h = rw (sym (ok-injective h)) refl
  stream-undo (src ∷ srcs) ctr r h =
      let o = call src ctr (replicate (length src) 0) in
      elim (Result-cases o.result) [
        | inr (e, failed) ↦ absurd (err-ne-ok_any (rw (failed, stream) at h))
        | inl (u, worked) ↦ elim (Result-cases (stream call srcs o.ctr)) [
          | inr (e, failed) ↦ absurd (err-ne-ok_any (rw (worked, failed, stream) at h))
          | inl (rest, ran) ↦
              let all = ok-injective (rw (worked, ran, stream) at h) in
              rw (sym all) (
                ap
                  (λ (o' : Streamed).
                    o'.result >> (stream back rest.0 o'.ctr >>= λ t. ok (o'.dst ∷ t.0, t.1)))
                  (undo src ctr worked)
                ∙ ap (λ t. t >>= λ t'. ok (src ∷ t'.0, t'.1)) (stream-undo srcs o.ctr rest ran))
        ]
      ]

module _ (lib : CtrLib) (key : List ℕ) (inc : ℕ) where
  abbrev pub encrypt : Call
  encrypt src ctr dst = rsgx_aes_ctr_encrypt lib key src ctr inc dst

  abbrev pub decrypt : Call
  decrypt src ctr dst = rsgx_aes_ctr_decrypt lib key src ctr inc dst

  module _ (ctr_laws : IsCtr lib) where
    open ctr_laws use {length_out, undoes}

    decrypt-Undoes : Undoes decrypt encrypt
    decrypt-Undoes src ctr h =
        let buffer : List ℕ = replicate (length src) 0 in
        elim (encrypt_cases lib key src ctr inc buffer) [
          | inr (_, refused) ↦ absurd (err-ne-ok (rw refused at h))
          | inl (fits, called) ↦
              let good = from_status-ok _ (rw called at h) in
              let ret = lib.sgx_aes_ctr_encrypt key src (length src) ctr inc in
              let len = length_out key src ctr inc in
              let filled = put_all buffer ret.out (len ∙ sym (length-replicate (length src) 0)) in
              let again = put_all buffer src (sym (length-replicate (length src) 0)) in
              let opened =
                decrypts lib key ret.out ctr inc buffer src ret.ctr (rw len fits)
                  (undoes key src ctr inc good) in
              rw (called, filled, len, opened, again) refl
        ]

    -- A client encrypts messages in turn, each from the counter block that the call before it left and
    -- into a buffer of its length. If no call fails, decryption of the results in the same order,
    -- from the first counter block, gives the messages and ends at the same counter block.
    pub stream-rsgx_aes_ctr_encrypt :
        (srcs : List (List ℕ)) (ctr : List ℕ) (r : List (List ℕ) × List ℕ)
        → stream encrypt srcs ctr ≡ ok r
        → stream decrypt r.0 ctr ≡ ok (srcs, r.1)
    stream-rsgx_aes_ctr_encrypt = stream-undo decrypt encrypt decrypt-Undoes
