-- ===== src/Tseal/Raw/Write.antt =====
-- What `to_raw_sealed_data_t` accepts and writes, and that it stays within its buffer.
use sgx_sdk_rs.Base.{
  ℕ, ◌+◌, ◌≤◌, ◌<◌, ◌≡◌, ◌≢◌, ◌^◌, ◌⊎◌, inl, inr, arith, false, none, some, length, put, take_of_le,
  length-put, u32_max,
}
use sgx_sdk_rs.Types.{sgx_sealed_data_t_size}
use sgx_sdk_rs.Trts.{TrtsLib}
use sgx_sdk_rs.Tseal.Internal.{InternalSealedData, get_add_mac_txt_len, get_encrypt_txt_len}
use sgx_sdk_rs.Tseal.Internal.Sizes.{
  IsConsistent, PassesLengthTests, PassesLengthTests-iff, get_add_mac_txt_len-eq-length,
  get_encrypt_txt_len-eq-length,
}
use sgx_sdk_rs.Tseal.Raw.{
  RawSealedData, TsealLib, IsTsealLib, returns, straddles, to_raw_sealed_data_t,
}

-- The bytes that a sealed data takes in the exchange format.
abbrev pub raw_size : InternalSealedData → ℕ
raw_size s = sgx_sealed_data_t_size + s.payload_data.payload_size

-- The memory after a successful write.
abbrev pub stored : InternalSealedData → RawSealedData → RawSealedData
stored s raw = record raw {
  key_request = s.key_request;
  plain_text_offset = length s.payload_data.encrypt;
  payload_size = s.payload_data.payload_size;
  payload_tag = s.payload_data.payload_tag;
  payload =
      put (put raw.payload 0 s.payload_data.encrypt) (length s.payload_data.encrypt)
        s.payload_data.additional;
}

module _ (trts : TrtsLib) (tseal : TsealLib) (lib : IsTsealLib tseal) where
  -- When `to_raw_sealed_data_t` writes.
  abbrev pub CanWrite : InternalSealedData → ℕ → ℕ → Type 0
  CanWrite s addr len =
      (addr ≢ 0)
      × (straddles trts tseal addr len ≡ false)
      × IsConsistent s
      × (raw_size s < u32_max)
      × (raw_size s ≤ len)

  pub to_raw_sealed_data_t-CanWrite :
      (s : InternalSealedData) (addr : ℕ) (raw : RawSealedData) (len : ℕ)
      → s.payload_data.payload_size < 2 ^ 32
      → len ≤ sgx_sealed_data_t_size + length raw.payload
      → CanWrite s addr len
      → to_raw_sealed_data_t trts tseal s addr raw len ≡ returns (some (stored s raw))
  unfolding to_raw_sealed_data_t
  to_raw_sealed_data_t-CanWrite s addr raw len small room (there, same_side, fit, below, enough) =
      let a = get_add_mac_txt_len-eq-length s fit in
      let e = get_encrypt_txt_len-eq-length s fit in
      let ta =
        take_of_le (length s.payload_data.additional) s.payload_data.additional (omega arith) in
      let te = take_of_le (length s.payload_data.encrypt) s.payload_data.encrypt (omega arith) in
      rw (a, e, ta, te)
        (ground (
          arith,
          lib.calc (length s.payload_data.additional) (length s.payload_data.encrypt),
          length-put raw.payload 0 s.payload_data.encrypt,
        ))

  to_raw_sealed_data_t-tests :
      (s : InternalSealedData) (addr : ℕ) (raw : RawSealedData) (len : ℕ)
      → let size =
          tseal.sgx_calc_sealed_data_size (get_add_mac_txt_len s) (get_encrypt_txt_len s) in
        (to_raw_sealed_data_t trts tseal s addr raw len ≡ returns none)
        ⊎ ((addr ≢ 0)
            × (straddles trts tseal addr len ≡ false)
            × PassesLengthTests s
            × (size ≢ u32_max)
            × (size ≤ len))
  unfolding to_raw_sealed_data_t
  to_raw_sealed_data_t-tests s addr raw len = ground arith

  -- When the buffer has the `len` bytes that the caller states, nothing outside it is touched. The
  -- data is written exactly if the pointer is not null, the buffer does not straddle the enclave's
  -- border, the lengths add up to the payload size and the whole fits `u32` and the buffer; else the
  -- buffer is left as it was and `None` is returned.
  pub to_raw_sealed_data_t_lem :
      (s : InternalSealedData) (addr : ℕ) (raw : RawSealedData) (len : ℕ)
      → s.payload_data.payload_size < 2 ^ 32
      → len ≤ sgx_sealed_data_t_size + length raw.payload
      → (CanWrite s addr len
          × (to_raw_sealed_data_t trts tseal s addr raw len ≡ returns (some (stored s raw))))
        ⊎ ((¬ CanWrite s addr len)
            × (to_raw_sealed_data_t trts tseal s addr raw len ≡ returns none))
  to_raw_sealed_data_t_lem s addr raw len small room =
      elim (to_raw_sealed_data_t-tests s addr raw len) [
        | inl refused ↦
            inr (λ can. cc (to_raw_sealed_data_t-CanWrite s addr raw len small room can), refused)
        | inr (there, same_side, passes, size_below, enough) ↦
            let fit = (PassesLengthTests-iff s small).0 passes in
            let a = get_add_mac_txt_len-eq-length s fit in
            let e = get_encrypt_txt_len-eq-length s fit in
            let size =
              lib.calc (get_add_mac_txt_len s) (get_encrypt_txt_len s) (omega arith)
                (omega arith) in
            let can : CanWrite s addr len = (there, same_side, fit, omega arith, omega arith) in
            inl (can, to_raw_sealed_data_t-CanWrite s addr raw len small room can)
      ]
