-- ===== src/Urts/Simulate/Walk.antt =====
-- sgx-urts/src/simulate.rs: the instructions of a segment, as the decoder finds them one after another.
use sgx_sdk_rs.Base.{
  ℕ, zero, suc, ◌+◌, ◌-◌, ◌%◌, ◌^◌, ◌≤◌, ◌<◌, ◌≡◌, sym, ap, ◌∙◌, arith, List, [], ◌∷◌, length, true,
  false, ltb, Bool-cases, inl, inr, ltb→lt,
}
use sgx_sdk_rs.Urts.Simulate.{
  DecoderLib, Segment, needs_patch, file_position, patch_instruction, patch_loop,
}
use sgx_sdk_rs.Urts.Simulate.Paint.{
  Site, AllSites, Paints, Paints-done, Paints-bind, patch_instruction-Paints,
}

-- What the decoder documents: it reads the bytes that it was made for from the first one on, an
-- instruction has the address at which it starts, 1 to 15 bytes, all of them there, and the next one
-- starts behind it. Those that are prohibited have an opcode of two bytes.
pub record IsDecoder {D : Type 0} (lib : DecoderLib D) : Type 0 where
  pub bytes : D → List ℕ
  pub start : D → ℕ
  pub place : D → ℕ
  pub opens :
      (bs : List ℕ) (ip : ℕ)
      → let d = lib.with_ip bs ip in (bytes d ≡ bs) × (start d ≡ ip) × (place d ≡ 0)
  pub can : (d : D) → lib.can_decode d ≡ ltb (place d) (length (bytes d))
  pub decodes :
      (d : D)
      → place d < length (bytes d)
      → let (i, d') = lib.decode d in
        (i.ip ≡ (start d + place d) % 2 ^ 64)
        × (1 ≤ i.len)
        × (i.len ≤ 15)
        × (bytes d' ≡ bytes d)
        × (start d' ≡ start d)
        × (place d' ≡ place d + i.len)
        × (place d' ≤ length (bytes d))
  pub two_bytes :
      (d : D)
      → place d < length (bytes d)
      → needs_patch (lib.decode d).0 ≡ true
      → 2 ≤ (lib.decode d).0.len

-- The numbers of 64 bits at work: the offset is the decoder's place, also where addresses wrap.
rva :
    (off address place len : ℕ)
    → address < 2 ^ 64
    → off + len < 2 ^ 64
    → place < len
    → (off + ((address + place) % 2 ^ 64 + 2 ^ 64 - address) % 2 ^ 64) % 2 ^ 64 ≡ off + place
rva off address place len small room inside = omega (arith, small, room, inside)

module _ {D : Type 0} (lib : DecoderLib D) (laws : IsDecoder lib) where
  open laws use {bytes, start, place, opens, can, decodes, two_bytes}

  -- The prohibited instructions from a decoder's place on, as places in the file.
  unfoldable pub sites : ℕ → ℕ → D → List Site
  sites zero offset d = []
  sites (suc fuel) offset d = elim (lib.can_decode d) [
    | false ↦ []
    | true ↦ elim (needs_patch (lib.decode d).0) [
      | false ↦ sites fuel offset (lib.decode d).1
      | true ↦
          record { position = offset + place d; len = (lib.decode d).0.len }
          ∷ sites fuel offset (lib.decode d).1
    ]
  ]

  -- The decoder reads the segment, which lies in a file of `size` bytes.
  pub record Reads (s : Segment) (size : ℕ) (d : D) : Type 0 where
    pub starts : start d ≡ s.address
    pub address_fits : s.address < 2 ^ 64
    pub inside : s.file_offset + length (bytes d) ≤ size
    pub size_fits : size < 2 ^ 64

  Reads-decode :
      (s : Segment) (size : ℕ) (d : D)
      → place d < length (bytes d)
      → Reads s size d
      → Reads s size (lib.decode d).1
  Reads-decode s size d more r =
      let (_, _, _, same, kept, _, _) = decodes d more in
      record {
        starts = kept ∙ r.starts;
        address_fits = r.address_fits;
        inside = rw same r.inside;
        size_fits = r.size_fits;
      }

  patch_here :
      (s : Segment) (d : D) (v : List ℕ)
      → place d < length (bytes d)
      → needs_patch (lib.decode d).0 ≡ true
      → Reads s (length v) d
      → let i = (lib.decode d).0 in
        Paints
          (record { position = s.file_offset + place d; len = i.len } ∷ [])
          v
          (patch_instruction (file_position s i) (i.len % 2 ^ 8) v)
  unfolding file_position
  patch_here s d v more prohibited r =
      let i = (lib.decode d).0 in
      let (at, one, short, _, _, ahead, within) = decodes d more in
      let len : i.len % 2 ^ 8 ≡ i.len = omega (arith, short) in
      let position =
        rva s.file_offset s.address (place d) (length (bytes d)) r.address_fits
          (omega (arith, r.inside, r.size_fits)) more in
      rw (len, at, r.starts, position)
        (patch_instruction-Paints (s.file_offset + place d) i.len v (two_bytes d more prohibited)
          (omega (arith, r.inside, ahead, within)))

  pub patch_loop-Paints :
      (fuel : ℕ) (s : Segment) (d : D) (v : List ℕ)
      → length (bytes d) - place d < fuel
      → Reads s (length v) d
      → Paints (sites fuel s.file_offset d) v (patch_loop lib fuel s d v)
  unfolding sites patch_loop
  patch_loop-Paints zero s d v enough r = absurd (omega arith)
  patch_loop-Paints (suc fuel) s d v enough r = elim (Bool-cases (lib.can_decode d)) [
    | inl more ↦
        let inside = ltb→lt _ _ (sym (can d) ∙ more) in
        let d' = (lib.decode d).1 in
        let (_, one, _, same, _, ahead, within) = decodes d inside in
        let less : length (bytes d') - place d' < fuel =
          omega (arith, enough, one, ap length same, ahead, within, inside) in
        let r' = Reads-decode s (length v) d inside r in
        elim (Bool-cases (needs_patch (lib.decode d).0)) [
          | inr allowed ↦
              rw (more, allowed, patch_loop, sites) (patch_loop-Paints fuel s d' v less r')
          | inl prohibited ↦
              rw (more, prohibited, patch_loop, sites)
                (Paints-bind _ (sites fuel s.file_offset d') v _ (λ v'. patch_loop lib fuel s d' v')
                  (patch_here s d v inside prohibited r)
                  (λ v' long. patch_loop-Paints fuel s d' v' less (rw long r')))
        ]
    | inr last ↦ rw (last, patch_loop, sites) (Paints-done v)
  ]

  pub sites_two : (fuel offset : ℕ) (d : D) → AllSites (λ x. 2 ≤ x.len) (sites fuel offset d)
  unfolding sites
  sites_two zero offset d = tt
  sites_two (suc fuel) offset d = elim (Bool-cases (lib.can_decode d)) [
    | inr last ↦ rw (last, sites) tt
    | inl more ↦ elim (Bool-cases (needs_patch (lib.decode d).0)) [
      | inr allowed ↦ rw (more, allowed, sites) (sites_two fuel offset (lib.decode d).1)
      | inl prohibited ↦
          rw (more, prohibited, sites)
            (
              two_bytes d (ltb→lt _ _ (sym (can d) ∙ more)) prohibited,
              sites_two fuel offset (lib.decode d).1,
            )
    ]
  ]
