-- ===== src/Alloc/Box/Clones.antt =====
-- sgx-alloc/src/alignbox.rs: a clone next to the box that it is made of.
use sgx_sdk_rs.Base.{
  ℕ, ◌+◌, ◌-◌, ◌%◌, ◌≤◌, ◌<◌, ◌≡◌, ◌≢◌, ◌⊎◌, ◌∙◌, inl, inr, refl, arith, ap, sym, List, ◌∷◌, length,
  true, false, ◌==◌, u64_mod,
}
use sgx_sdk_rs.Alloc.Layout.{check_layout}
use sgx_sdk_rs.Alloc.Requests.{Malloc}
use sgx_sdk_rs.Alloc.Block.{
  Memory, write_zeros, write_word, sub64, make_aligned_ptr, alloc_with_pad_align_in,
}
use sgx_sdk_rs.Alloc.Block.Bounds.{
  padding, alloc_with_pad_align_in-runs, alloc_with_pad_align_in-Bounds,
}
use sgx_sdk_rs.Alloc.Block.Header.{dealloc-alloc_with_pad_align_in}
use sgx_sdk_rs.Alloc.Box.{
  Element, AlignBox, made, read_bytes, write_bytes, dealloc_buffer, drop_box, copied, clone_box,
}
use sgx_sdk_rs.Alloc.Box.Valid.{IsValid}
use sgx_sdk_rs.Alloc.Box.Bytes.{
  Outside, write_word-apart, write_zeros-apart, write_bytes-apart, read_bytes-same, read_word-same,
  read_bytes-write_bytes,
}

module _ (malloc : Malloc) (t : Element) (b : AlignBox) (m : Memory) where
  abbrev raw : ℕ
  raw = malloc m.live (b.align_layout.size + 8)

  abbrev pad : ℕ
  pad = padding b.origin_layout b.align_layout

  abbrev got : ℕ × Memory
  got = alloc_with_pad_align_in malloc true b.origin_layout b.align_layout m

  module _ (valid : IsValid t b) (fits : raw + b.align_layout.size + 8 < u64_mod)
      (found : 8 ≤ raw) where
    good : check_layout b.origin_layout ≡ true
    good = valid.2

    good' : check_layout b.align_layout ≡ true
    good' = valid.3

    room : b.origin_layout.size + b.align_layout.align ≤ b.align_layout.size
    room = valid.4

    -- The new block is not the original's.
    some_block : raw ≢ 0
    some_block = omega (arith, found)

    ran :
        let p = make_aligned_ptr raw b.align_layout.align pad in
        got ≡ (
          p,
          record {
            live = raw ∷ m.live;
            byte = write_word (write_zeros m.byte raw b.align_layout.size) (sub64 p 8) raw;
          },
        )
    ran =
        rw
          (
            alloc_with_pad_align_in-runs malloc true b.origin_layout b.align_layout m good good'
                room (omega (arith, fits)),
            nonzero,
          )
          refl
      where
        nonzero : (raw == 0) ≡ false
        nonzero = ground (arith, found)

    place :
        (raw + pad ≤ got.0)
        × (got.0 + t.size ≤ raw + b.align_layout.size)
        × ((got.0 - pad) % b.align_layout.align ≡ 0)
    place =
        elim (alloc_with_pad_align_in-Bounds malloc true b.origin_layout b.align_layout m good good'
          room fits) [
            | inl (none_found, _) ↦ absurd (some_block none_found)
            | inr (_, aligned, above, below, _) ↦ (above, rw (sym valid.1) below, aligned)
          ]

    -- Allocating leaves what lies outside the block and the eight bytes before it.
    kept : (x : ℕ) → (x + 8 < raw) ⊎ (raw + b.align_layout.size ≤ x) → got.1.byte x ≡ m.byte x
    kept x out =
        let (above, below, _) = place in
        let p = make_aligned_ptr raw b.align_layout.align pad in
        let at : got.0 ≡ p = ap (λ (r : ℕ × Memory). r.0) ran in
        ap (λ (r : ℕ × Memory). r.1.byte x) ran
        ∙ write_word-apart (write_zeros m.byte raw b.align_layout.size) (sub64 p 8) raw x
            (before out (rw (sym at) above) (rw (sym at) below))
        ∙ write_zeros-apart m.byte raw b.align_layout.size x (around out)
      where
        around : (x + 8 < raw) ⊎ (raw + b.align_layout.size ≤ x) → Outside raw b.align_layout.size x
        around (inl h) = inl (omega (arith, h))
        around (inr h) = inr h

        before :
            {p : ℕ}
            → (x + 8 < raw) ⊎ (raw + b.align_layout.size ≤ x)
            → raw + pad ≤ p
            → p + t.size ≤ raw + b.align_layout.size
            → Outside (sub64 p 8) 8 x
        before (inl h) above below = inl (omega (arith, h, above, below, fits, found))
        before (inr h) above below = inr (omega (arith, h, above, below, fits, found))

    original :
        (b.ptr + t.size + 8 ≤ raw) ⊎ (raw + b.align_layout.size ≤ b.ptr)
        → read_bytes got.1.byte b.ptr t.size ≡ read_bytes m.byte b.ptr t.size
    original apart =
        read_bytes-same got.1.byte m.byte b.ptr t.size
          (λ i small. kept (b.ptr + i) (far apart small))
      where
        far :
            {i : ℕ}
            → (b.ptr + t.size + 8 ≤ raw) ⊎ (raw + b.align_layout.size ≤ b.ptr)
            → i < t.size
            → (b.ptr + i + 8 < raw) ⊎ (raw + b.align_layout.size ≤ b.ptr + i)
        far (inl h) small = inl (omega (arith, h, small))
        far (inr h) small = inr (omega (arith, h))

    -- Writing the value leaves the original and the word in front of the clone.
    elsewhere :
        (bs : List ℕ) (a n : ℕ)
        → length bs ≡ t.size
        → (a + n ≤ got.0) ⊎ (got.0 + t.size ≤ a)
        → (i : ℕ) → i < n
        → write_bytes got.1.byte got.0 bs (a + i) ≡ got.1.byte (a + i)
    elsewhere bs a n long apart i small =
        write_bytes-apart got.1.byte got.0 bs (a + i) (beside apart)
      where
        beside : (a + n ≤ got.0) ⊎ (got.0 + t.size ≤ a) → Outside got.0 (length bs) (a + i)
        beside (inl h) = inl (omega (arith, h, small))
        beside (inr h) = inr (omega (arith, h, long))

    -- For a valid box whose type's `Clone` gives as many bytes as the type has: where `malloc` gives
    -- a block within the address space, at 8 or more, and neither the block nor the eight bytes
    -- before it meet the box, `clone` makes a box at a multiple of the alignment plus the padding,
    -- whose bytes are the clone of the box's own; the box's bytes are what they were, and dropping
    -- the clone alone leaves the blocks in use as they were before.
    pub clone_box_lem :
        length (t.clone (read_bytes m.byte b.ptr t.size)) ≡ t.size
        → (b.ptr + t.size + 8 ≤ raw) ⊎ (raw + b.align_layout.size ≤ b.ptr)
        → (c : AlignBox) × (m' : Memory) × (clone_box malloc t b m ≡ (made c, m'))
          × ((c.ptr - pad) % b.align_layout.align ≡ 0)
          × (read_bytes m'.byte c.ptr t.size ≡ t.clone (read_bytes m.byte b.ptr t.size))
          × (read_bytes m'.byte b.ptr t.size ≡ read_bytes m.byte b.ptr t.size)
          × ((drop_box t c m').live ≡ m.live)
    unfolding clone_box copied drop_box dealloc_buffer
    clone_box_lem long apart =
        let (above, below, aligned) = place in
        let value = t.clone (read_bytes m.byte b.ptr t.size) in
        let byte' = write_bytes got.1.byte got.0 value in
        let nonzero : (got.0 == 0) ≡ false = ground (arith, above, found) in
        let sized : (t.size == 0) ≡ false = ground (arith, valid.0) in
        let front : sub64 got.0 8 + 8 ≤ got.0 = omega (arith, above, below, found, fits) in
        (
          record b { ptr = got.0 },
          record got.1 { byte = byte' },
          rw (original apart, nonzero) refl,
          aligned,
          read_bytes-write_bytes got.1.byte got.0 t.size value long,
          read_bytes-same byte' got.1.byte b.ptr t.size
                (elsewhere value b.ptr t.size long (off apart above below))
              ∙ original apart,
          rw sized (
              dealloc-alloc_with_pad_align_in malloc true b.origin_layout b.align_layout m good
                good' room fits some_block byte'
                (read_word-same byte' got.1.byte (sub64 got.0 8)
                  (elsewhere value (sub64 got.0 8) 8 long (inl front)))),
        )
      where
        off :
            {p : ℕ}
            → (b.ptr + t.size + 8 ≤ raw) ⊎ (raw + b.align_layout.size ≤ b.ptr)
            → raw + pad ≤ p
            → p + t.size ≤ raw + b.align_layout.size
            → (b.ptr + t.size ≤ p) ⊎ (p + t.size ≤ b.ptr)
        off (inl h) above below = inl (omega (arith, h, above))
        off (inr h) above below = inr (omega (arith, h, below))
