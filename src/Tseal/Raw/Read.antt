-- ===== src/Tseal/Raw/Read.antt =====
-- What `from_raw_sealed_data_t` accepts, that it stays within its buffer, and that it reads back
-- what `to_raw_sealed_data_t` wrote.
use Prim.Native.Nat.{◌-◌}
use native.Mathlib.Decide.{dec_le}
use sgx_sdk_rs.Base.{
  ℕ, ◌+◌, ◌≤◌, ◌<◌, ◌≡◌, ◌≢◌, ◌^◌, ◌⊎◌, inl, inr, ◌∙◌, arith, false, none, some, length, take, drop,
  put, replicate, length-put, take-put, take-drop-put_self, u32_max,
}
use sgx_sdk_rs.Types.{sgx_sealed_data_t_size}
use sgx_sdk_rs.Trts.{TrtsLib}
use sgx_sdk_rs.Tseal.Internal.{InternalSealedData}
use sgx_sdk_rs.Tseal.Internal.Sizes.{IsConsistent}
use sgx_sdk_rs.Tseal.Raw.{
  RawSealedData, TsealLib, IsTsealLib, returns, straddles, to_raw_sealed_data_t,
  from_raw_sealed_data_t,
}
use sgx_sdk_rs.Tseal.Raw.Write.{stored, to_raw_sealed_data_t_lem}

-- The data that a header and the bytes behind it describe.
abbrev pub described : RawSealedData → InternalSealedData
described raw = record {
  key_request = raw.key_request;
  payload_data = record {
    payload_size = raw.payload_size;
    reserved = replicate 12 0;
    payload_tag = raw.payload_tag;
    encrypt = take raw.plain_text_offset raw.payload;
    additional =
        take (raw.payload_size - raw.plain_text_offset) (drop raw.plain_text_offset raw.payload);
  };
}

-- The data with its unused reserved bytes zeroed.
abbrev pub with_clear_reserved : InternalSealedData → InternalSealedData
with_clear_reserved s = record s {
  payload_data = record (s.payload_data) { reserved = replicate 12 0 };
}

described-stored :
    (s : InternalSealedData) (raw : RawSealedData)
    → IsConsistent s
    → s.payload_data.payload_size ≤ length raw.payload
    → described (stored s raw) ≡ with_clear_reserved s
described-stored s raw fit room = rw (size, first, second)
  where
    open s use {payload_data}
    open payload_data use {payload_size, encrypt, additional}

    size : payload_size - length encrypt ≡ length additional
    size = omega arith

    first :
        take (length encrypt) (put (put raw.payload 0 encrypt) (length encrypt) additional)
        ≡ encrypt
    first =
        take-put (length encrypt) (put raw.payload 0 encrypt) (length encrypt) additional
          (omega arith)
        ∙ take-drop-put_self raw.payload 0 encrypt (omega arith)

    second :
        take
          (length additional)
          (drop (length encrypt) (put (put raw.payload 0 encrypt) (length encrypt) additional))
        ≡ additional
    second =
        take-drop-put_self (put raw.payload 0 encrypt) (length encrypt) additional
          (omega (arith, length-put raw.payload 0 encrypt))

module _ (trts : TrtsLib) (tseal : TsealLib) (lib : IsTsealLib tseal) where
  -- When `from_raw_sealed_data_t` reads.
  abbrev pub CanRead : ℕ → RawSealedData → ℕ → Type 0
  CanRead addr raw len =
      (addr ≢ 0)
      × (straddles trts tseal addr len ≡ false)
      × (raw.plain_text_offset ≤ raw.payload_size)
      × (sgx_sealed_data_t_size + raw.payload_size < u32_max)
      × (sgx_sealed_data_t_size + raw.payload_size ≤ len)

  pub from_raw_sealed_data_t-CanRead :
      (addr : ℕ) (raw : RawSealedData) (len : ℕ)
      → len ≤ sgx_sealed_data_t_size + length raw.payload
      → CanRead addr raw len
      → from_raw_sealed_data_t trts tseal addr raw len ≡ returns (some (described raw))
  unfolding from_raw_sealed_data_t
  from_raw_sealed_data_t-CanRead addr raw len room (there, same_side, within, below, enough) =
      rw (lib.add_mac raw within, lib.encrypt raw within)
        (ground (arith, lib.calc (raw.payload_size - raw.plain_text_offset) raw.plain_text_offset))

  from_raw_sealed_data_t-tests :
      (addr : ℕ) (raw : RawSealedData) (len : ℕ)
      → raw.payload_size < 2 ^ 32
      → (from_raw_sealed_data_t trts tseal addr raw len ≡ returns none) ⊎ CanRead addr raw len
  unfolding from_raw_sealed_data_t
  from_raw_sealed_data_t-tests addr raw len small =
      elim (dec_le raw.plain_text_offset raw.payload_size) [
        | yes within ↦
            rw (lib.add_mac raw within, lib.encrypt raw within)
              (ground
                (arith, lib.calc (raw.payload_size - raw.plain_text_offset) raw.plain_text_offset))
        | no outside ↦ inl (ground arith)
      ]

  -- When the buffer has the `len` bytes that the caller states, nothing outside it is read. The
  -- blob is taken exactly if the pointer is not null, the buffer does not straddle the enclave's
  -- border, the offset lies within the payload and header and payload fit `u32` and the buffer; the
  -- texts are then the two parts of the payload. Else `None` is returned.
  pub from_raw_sealed_data_t_lem :
      (addr : ℕ) (raw : RawSealedData) (len : ℕ)
      → raw.payload_size < 2 ^ 32
      → len ≤ sgx_sealed_data_t_size + length raw.payload
      → (CanRead addr raw len
          × (from_raw_sealed_data_t trts tseal addr raw len ≡ returns (some (described raw))))
        ⊎ ((¬ CanRead addr raw len)
            × (from_raw_sealed_data_t trts tseal addr raw len ≡ returns none))
  from_raw_sealed_data_t_lem addr raw len small room =
      elim (from_raw_sealed_data_t-tests addr raw len small) [
        | inl refused ↦
            inr (λ can. cc (from_raw_sealed_data_t-CanRead addr raw len room can), refused)
        | inr can ↦ inl (can, from_raw_sealed_data_t-CanRead addr raw len room can)
      ]

  -- What was written is read back, at the same place and length: the data as it was, its unused
  -- reserved bytes zeroed.
  pub from_raw-to_raw :
      (s : InternalSealedData) (addr : ℕ) (raw raw' : RawSealedData) (len : ℕ)
      → s.payload_data.payload_size < 2 ^ 32
      → len ≤ sgx_sealed_data_t_size + length raw.payload
      → to_raw_sealed_data_t trts tseal s addr raw len ≡ returns (some raw')
      → from_raw_sealed_data_t trts tseal addr raw' len ≡ returns (some (with_clear_reserved s))
  from_raw-to_raw s addr raw raw' len small room e =
      elim (to_raw_sealed_data_t_lem trts tseal lib s addr raw len small room) [
        | inr (_, refused) ↦ cc
        | inl (can, written) ↦
            let same : raw' ≡ stored s raw = cc in
            let read =
              from_raw_sealed_data_t-CanRead addr (stored s raw) len
                (omega (
                  arith,
                  length-put raw.payload 0 s.payload_data.encrypt,
                  length-put (put raw.payload 0 s.payload_data.encrypt)
                      (length s.payload_data.encrypt) s.payload_data.additional,
                ))
                (can.0, can.1, omega arith, omega arith, omega arith) in
            rw same (rw (read, described-stored s raw can.2 (omega arith)))
      ]
