-- ===== src/Urts/Simulate/Patched.antt =====
-- sgx-urts/src/simulate.rs: what `patch_enclave_binary` makes of a binary, byte by byte.
use sgx_sdk_rs.Base.{
  ℕ, ◌+◌, ◌-◌, ◌%◌, ◌^◌, ◌≤◌, ◌<◌, ◌≡◌, ◌⊎◌, refl, ap, ◌∙◌, arith, List, [], ◌∷◌, ◌++◌, length,
  take, drop, get_or, length-take, length-drop, true, false, ltb, ◌||◌, if◌then◌else◌, Bool-cases,
  either, inl, inr,
}
use native.Mathlib.Decide.{dec_le}
use sgx_sdk_rs.Urts.Simulate.{
  DecoderLib, Segment, Object, BinaryFormat, Parsed, parsed, done, panics, ◌>>=◌, is_skipped, slice,
  patch_segment, patch_segments, patch_enclave_binary,
}
use sgx_sdk_rs.Urts.Simulate.Paint.{
  Site, Paints, Paints-done, Paints-then, Byte, painted-Byte, AllSites, AllSites-append,
}
use sgx_sdk_rs.Urts.Simulate.Walk.{IsDecoder, sites, sites_two, Reads, patch_loop-Paints}

-- The segment's bytes lie in the file.
abbrev pub InFile : List ℕ → Segment → Type 0
InFile binary s = s.file_offset + s.file_size ≤ length binary

-- All that are not passed over do.
abbrev pub AllInFile : List ℕ → List Segment → Type 0
AllInFile binary [] = Unit {0}
AllInFile binary (s ∷ ss) = ((is_skipped s.flags ≡ true) ⊎ InFile binary s) × AllInFile binary ss

-- The fields are numbers of 64 bits.
abbrev pub AllWords : List Segment → Type 0
AllWords [] = Unit {0}
AllWords (s ∷ ss) =
    ((s.file_offset < 2 ^ 64) × (s.file_size < 2 ^ 64) × (s.address < 2 ^ 64)) × AllWords ss

abbrev pub segment_bytes : List ℕ → Segment → List ℕ
segment_bytes binary s = take s.file_size (drop s.file_offset binary)

pub length-segment_bytes :
    (binary : List ℕ) (s : Segment)
    → InFile binary s
    → length (segment_bytes binary s) ≡ s.file_size
length-segment_bytes binary s inside = omega (
  arith,
  length-take s.file_size (drop s.file_offset binary),
  length-drop s.file_offset binary,
  inside,
)

slice_in :
    (binary : List ℕ) (s : Segment)
    → InFile binary s
    → length binary < 2 ^ 64
    → slice binary s.file_offset ((s.file_offset + s.file_size) % 2 ^ 64)
      ≡ done (segment_bytes binary s)
unfolding slice
slice_in binary s inside small =
    let end : (s.file_offset + s.file_size) % 2 ^ 64 ≡ s.file_offset + s.file_size =
      omega (arith, inside, small) in
    let fits : (ltb (s.file_offset + s.file_size) s.file_offset
          || ltb (length binary) (s.file_offset + s.file_size))
        ≡ false =
      ground (arith, inside) in
    let count : s.file_offset + s.file_size - s.file_offset ≡ s.file_size = omega arith in
    rw (end, fits, count) refl

slice_out :
    (binary : List ℕ) (off size : ℕ)
    → length binary < off + size
    → off < 2 ^ 64
    → size < 2 ^ 64
    → slice binary off ((off + size) % 2 ^ 64) ≡ panics
unfolding slice
slice_out binary off size outside small small' =
    let bad : (ltb ((off + size) % 2 ^ 64) off || ltb (length binary) ((off + size) % 2 ^ 64))
        ≡ true =
      ground (arith, outside, small, small') in
    rw bad refl

module _ {D : Type 0} (lib : DecoderLib D) (laws : IsDecoder lib) where
  open laws use {bytes, start, place, opens}

  -- The prohibited instructions of a segment that is not passed over.
  unfoldable pub segment_sites : List ℕ → Segment → List Site
  segment_sites binary s =
      if is_skipped s.flags
      then []
      else sites lib laws (length (segment_bytes binary s) + 1) s.file_offset
          (lib.with_ip (segment_bytes binary s) s.address)

  unfoldable pub all_sites : List ℕ → List Segment → List Site
  all_sites binary [] = []
  all_sites binary (s ∷ ss) = segment_sites binary s ++ all_sites binary ss

  Reads-with_ip :
      (binary : List ℕ) (s : Segment)
      → InFile binary s
      → length binary < 2 ^ 64
      → s.address < 2 ^ 64
      → Reads lib laws s (length binary) (lib.with_ip (segment_bytes binary s) s.address)
  Reads-with_ip binary s inside small small' =
      let (same, at, _) = opens (segment_bytes binary s) s.address in
      record {
        starts = at;
        address_fits = small';
        inside = rw (same, length-segment_bytes binary s inside) inside;
        size_fits = small;
      }

  patch_segment-Paints :
      (binary : List ℕ) (s : Segment) (v : List ℕ)
      → is_skipped s.flags ≡ false
      → InFile binary s
      → length binary < 2 ^ 64
      → s.address < 2 ^ 64
      → length v ≡ length binary
      → Paints (segment_sites binary s) v (patch_segment lib binary s v)
  unfolding segment_sites patch_segment
  patch_segment-Paints binary s v runs inside small small' same =
      let d = lib.with_ip (segment_bytes binary s) s.address in
      let (held, _, zero_at) = opens (segment_bytes binary s) s.address in
      rw (runs, slice_in binary s inside small, ◌>>=◌)
        (patch_loop-Paints lib laws (length (segment_bytes binary s) + 1) s d v
          (omega (arith, ap length held)) (rw same (Reads-with_ip binary s inside small small')))

  segment_cases :
      (binary : List ℕ) (s : Segment) (v : List ℕ)
      → (s.file_offset < 2 ^ 64) × (s.file_size < 2 ^ 64) × (s.address < 2 ^ 64)
      → length binary < 2 ^ 64
      → length v ≡ length binary
      → (((is_skipped s.flags ≡ true) ⊎ InFile binary s)
          × Paints (segment_sites binary s) v (patch_segment lib binary s v))
        ⊎ ((¬ ((is_skipped s.flags ≡ true) ⊎ InFile binary s))
            × (patch_segment lib binary s v ≡ panics))
  unfolding segment_sites patch_segment
  segment_cases binary s v (small_off, small_size, small') small same =
      elim (Bool-cases (is_skipped s.flags)) [
        | inl skipped ↦ inl (inl skipped, rw (skipped, patch_segment) (Paints-done v))
        | inr runs ↦ elim (dec_le (s.file_offset + s.file_size) (length binary)) [
          | yes inside ↦
              inl (inr inside, patch_segment-Paints binary s v runs inside small small' same)
          | no outside ↦ inr (
            λ good. elim good [ inl skipped ↦ cc | inr inside ↦ outside inside ],
            rw
                (
                  runs,
                  slice_out binary s.file_offset s.file_size (omega (arith, outside)) small_off
                      small_size,
                  ◌>>=◌,
                )
                refl,
          )
        ]
      ]

  -- Either every segment that counts lies in the file, and all its prohibited instructions are
  -- overwritten, or the run panics.
  patch_segments_cases :
      (binary : List ℕ) (ss : List Segment) (v : List ℕ)
      → AllWords ss
      → length binary < 2 ^ 64
      → length v ≡ length binary
      → (AllInFile binary ss × Paints (all_sites binary ss) v (patch_segments lib binary ss v))
        ⊎ ((¬ AllInFile binary ss) × (patch_segments lib binary ss v ≡ panics))
  unfolding all_sites patch_segments
  patch_segments_cases binary [] v words small same = inl (tt, Paints-done v)
  patch_segments_cases binary (s ∷ ss) v (word, words) small same =
      elim (segment_cases binary s v word small same) [
        | inr (bad, stops) ↦ inr (λ good. bad good.0, rw (stops, ◌>>=◌) refl)
        | inl (good, first) ↦
            elim (patch_segments_cases binary ss first.0 words small (first.2 ∙ same)) [
              | inl (all_good, rest) ↦ inl (
                (good, all_good),
                Paints-then (segment_sites binary s) (all_sites binary ss) v
                    (patch_segment lib binary s v) (λ v'. patch_segments lib binary ss v') first
                    rest,
              )
              | inr (bad, stops) ↦ inr (λ all_good. bad all_good.1, rw (first.1, ◌>>=◌) stops)
            ]
      ]

  all_sites_two :
      (binary : List ℕ) (ss : List Segment) → AllSites (λ x. 2 ≤ x.len) (all_sites binary ss)
  unfolding all_sites segment_sites
  all_sites_two binary [] = tt
  all_sites_two binary (s ∷ ss) =
      AllSites-append (λ x. 2 ≤ x.len) (segment_sites binary s) (all_sites binary ss)
        (either (AllSites (λ x. 2 ≤ x.len)) (is_skipped s.flags) _ _ (λ _. tt)
          (λ _. sites_two lib laws _ s.file_offset _))
        (all_sites_two binary ss)

  -- Let an ELF binary shorter than 2^64 bytes parse. If every executable segment lies in the file,
  -- then `patch_enclave_binary` ends, the result is as long as the binary, and each of its bytes is in
  -- no prohibited instruction of those segments and as before, or is in one of them and is the byte of
  -- UD2 or the NOP that belongs at its place there. Else it panics.
  pub patch_enclave_binary_lem :
      (parse : List ℕ → Parsed) (binary : List ℕ) (obj : Object)
      → parse binary ≡ parsed obj
      → obj.format ≡ BinaryFormat.elf
      → AllWords obj.segments
      → length binary < 2 ^ 64
      → (AllInFile binary obj.segments
          × ((out : List ℕ) × (patch_enclave_binary lib parse binary ≡ done out)
              × (length out ≡ length binary)
              × ((j : ℕ)
                  → Byte (all_sites binary obj.segments) j (get_or binary j 0) (get_or out j 0))))
        ⊎ ((¬ AllInFile binary obj.segments) × (patch_enclave_binary lib parse binary ≡ panics))
  unfolding patch_enclave_binary
  patch_enclave_binary_lem parse binary obj parses is_elf words small =
      elim (patch_segments_cases binary obj.segments binary words small refl) [
        | inr (bad, stops) ↦ inr (bad, rw (parses, is_elf, patch_enclave_binary) stops)
        | inl (good, (out, ran, long, bytes')) ↦ inl (
          good,
          (
            out,
            rw (parses, is_elf, patch_enclave_binary) ran,
            long,
            λ j. rw (bytes' j) (
                painted-Byte (all_sites binary obj.segments) j (get_or binary j 0)
                  (all_sites_two binary obj.segments)),
          ),
        )
      ]
