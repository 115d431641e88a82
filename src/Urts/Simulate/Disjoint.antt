-- ===== src/Urts/Simulate/Disjoint.antt =====
-- sgx-urts/src/simulate.rs: prohibited instructions of segments that do not meet do not meet, so that
-- each of them is overwritten as a whole.
use sgx_sdk_rs.Base.{
  ℕ, zero, suc, ◌+◌, ◌^◌, ◌≤◌, ◌<◌, ◌≡◌, ◌⊎◌, refl, sym, ap, ◌∙◌, arith, List, [], ◌∷◌, length,
  get_or, true, false, Bool-cases, either, inl, inr, ltb→lt,
}
use sgx_sdk_rs.Urts.Simulate.{
  DecoderLib, Segment, Object, BinaryFormat, Parsed, parsed, done, needs_patch, is_skipped,
  patch_enclave_binary,
}
use sgx_sdk_rs.Urts.Simulate.Paint.{Site, AllSites, AllSites-append}
use sgx_sdk_rs.Urts.Simulate.Apart.{
  Apart, Pairwise, Within, Overwritten, AllSites-map, AllSites-all, AllSites-both, Pairwise-append,
  all_Overwritten,
}
use sgx_sdk_rs.Urts.Simulate.Walk.{IsDecoder, sites}
use sgx_sdk_rs.Urts.Simulate.Patched.{
  InFile, AllInFile, AllWords, segment_bytes, length-segment_bytes, segment_sites, all_sites,
  patch_enclave_binary_lem,
}

-- Two segments do not meet in the file, or one of them is passed over.
abbrev pub Separate : Segment → Segment → Type 0
Separate s t =
    ((is_skipped s.flags ≡ true) ⊎ (is_skipped t.flags ≡ true))
    ⊎ ((s.file_offset + s.file_size ≤ t.file_offset)
        ⊎ (t.file_offset + t.file_size ≤ s.file_offset))

abbrev pub SeparateFrom : Segment → List Segment → Type 0
SeparateFrom s [] = Unit {0}
SeparateFrom s (t ∷ ts) = Separate s t × SeparateFrom s ts

abbrev pub AllSeparate : List Segment → Type 0
AllSeparate [] = Unit {0}
AllSeparate (s ∷ ss) = SeparateFrom s ss × AllSeparate ss

module _ {D : Type 0} (lib : DecoderLib D) (laws : IsDecoder lib) where
  open laws use {bytes, place, opens, can, decodes}

  -- The instructions of a segment come one after another.
  sites-Within :
      (fuel offset : ℕ) (d : D)
      → AllSites
          (Within (offset + place d) (offset + length (bytes d)))
          (sites lib laws fuel offset d)
        × Pairwise (sites lib laws fuel offset d)
  unfolding sites
  sites-Within zero offset d = (tt, tt)
  sites-Within (suc fuel) offset d = elim (Bool-cases (lib.can_decode d)) [
    | inr last ↦ rw (last, sites) (tt, tt)
    | inl more ↦
        let d' = (lib.decode d).1 in
        let len = (lib.decode d).0.len in
        let here : Site = record { position = offset + place d; len = len } in
        let rest = sites lib laws fuel offset d' in
        let (_, one, _, same, _, ahead, within) = decodes d (ltb→lt _ _ (sym (can d) ∙ more)) in
        let (later, pairs) = sites-Within fuel offset d' in
        let same' = ap length same in
        let wider =
          AllSites-map _ (Within (offset + place d) (offset + length (bytes d))) rest
            (λ x (lo, hi). (omega (arith, lo, ahead), omega (arith, hi, same'))) later in
        let apart : AllSites (Apart here) rest =
          AllSites-map _ (Apart here) rest (λ x (lo, hi). inl (omega (arith, lo, ahead))) later in
        elim (Bool-cases (needs_patch (lib.decode d).0)) [
          | inr allowed ↦ rw (more, allowed, sites) (wider, pairs)
          | inl prohibited ↦
              rw (more, prohibited, sites)
                (((omega arith, omega (arith, ahead, within)), wider), (apart, pairs))
        ]
  ]

  abbrev Inside : Segment → Site → Type 0
  Inside s = Within s.file_offset (s.file_offset + s.file_size)

  segment_sites-Inside :
      (binary : List ℕ) (s : Segment)
      → (is_skipped s.flags ≡ true) ⊎ InFile binary s
      → AllSites (Inside s) (segment_sites lib laws binary s)
        × Pairwise (segment_sites lib laws binary s)
  unfolding segment_sites
  segment_sites-Inside binary s good =
      either (λ xs. AllSites (Inside s) xs × Pairwise xs) (is_skipped s.flags) [] _ (λ _. (tt, tt))
        (λ runs.
          let d = lib.with_ip (segment_bytes binary s) s.address in
          let (held, _, start) = opens (segment_bytes binary s) s.address in
          let (inside, pairs) =
            sites-Within (length (segment_bytes binary s) + 1) s.file_offset d in
          let size : length (bytes d) ≡ s.file_size =
            ap length held ∙ length-segment_bytes binary s (in_file runs good) in
          (
            AllSites-map _ _ _ (λ x (lo, hi). (omega (arith, lo, start), omega (arith, hi, size)))
                inside,
            pairs,
          ))
    where
      in_file :
          is_skipped s.flags ≡ false
          → (is_skipped s.flags ≡ true) ⊎ InFile binary s
          → InFile binary s
      in_file runs (inl skipped) = cc
      in_file runs (inr inside) = inside

  no_sites :
      (binary : List ℕ) (s : Segment)
      → is_skipped s.flags ≡ true
      → segment_sites lib laws binary s ≡ []
  unfolding segment_sites
  no_sites binary s skipped = rw skipped refl

  ranges-Apart :
      (s t : Segment) (x y : Site)
      → (s.file_offset + s.file_size ≤ t.file_offset)
        ⊎ (t.file_offset + t.file_size ≤ s.file_offset)
      → Inside s x
      → Inside t y
      → Apart x y
  ranges-Apart s t x y (inl before) (lo, hi) (lo', hi') = inl (omega (arith, before, hi, lo'))
  ranges-Apart s t x y (inr behind) (lo, hi) (lo', hi') = inr (omega (arith, behind, hi', lo))

  Apart-of_Separate :
      (binary : List ℕ) (s t : Segment)
      → (is_skipped s.flags ≡ true) ⊎ InFile binary s
      → (is_skipped t.flags ≡ true) ⊎ InFile binary t
      → Separate s t
      → AllSites
          (λ x. AllSites (Apart x) (segment_sites lib laws binary t))
          (segment_sites lib laws binary s)
  Apart-of_Separate binary s t good good' (inl (inl skipped)) = rw (no_sites binary s skipped) tt
  Apart-of_Separate binary s t good good' (inl (inr skipped)) =
      rw (no_sites binary t skipped) (AllSites-all _ _ (λ x. tt))
  Apart-of_Separate binary s t good good' (inr ranges) =
      AllSites-map (Inside s) _ _
        (λ x in_s.
          AllSites-map (Inside t) (Apart x) _ (λ y in_t. ranges-Apart s t x y ranges in_s in_t)
            (segment_sites-Inside binary t good').0)
        (segment_sites-Inside binary s good).0

  Apart-from_all :
      (binary : List ℕ) (s : Segment) (ts : List Segment)
      → (is_skipped s.flags ≡ true) ⊎ InFile binary s
      → AllInFile binary ts
      → SeparateFrom s ts
      → AllSites
          (λ x. AllSites (Apart x) (all_sites lib laws binary ts))
          (segment_sites lib laws binary s)
  unfolding all_sites
  Apart-from_all binary s [] good goods separate = AllSites-all _ _ (λ x. tt)
  Apart-from_all binary s (t ∷ ts) good (good', goods) (separate, separates) =
      AllSites-map _ _ _
        (λ x (a, b). AllSites-append (Apart x) (segment_sites lib laws binary t) _ a b)
        (AllSites-both _ _ _ (Apart-of_Separate binary s t good good' separate)
          (Apart-from_all binary s ts good goods separates))

  all_sites-Pairwise :
      (binary : List ℕ) (ss : List Segment)
      → AllInFile binary ss
      → AllSeparate ss
      → Pairwise (all_sites lib laws binary ss)
  unfolding all_sites
  all_sites-Pairwise binary [] goods separates = tt
  all_sites-Pairwise binary (s ∷ ss) (good, goods) (separate, separates) =
      Pairwise-append (segment_sites lib laws binary s) (all_sites lib laws binary ss)
        (segment_sites-Inside binary s good).1 (all_sites-Pairwise binary ss goods separates)
        (Apart-from_all binary s ss good goods separate)

  -- Let an ELF binary shorter than 2^64 bytes parse, its executable segments lie in the file and no two
  -- of them meet there. Then `patch_enclave_binary` ends, the result is as long as the binary, and each
  -- prohibited instruction of these segments is overwritten from its first byte to its last, by UD2 and
  -- NOPs.
  pub patch_enclave_binary-Overwritten :
      (parse : List ℕ → Parsed) (binary : List ℕ) (obj : Object)
      → parse binary ≡ parsed obj
      → obj.format ≡ BinaryFormat.elf
      → AllWords obj.segments
      → length binary < 2 ^ 64
      → AllInFile binary obj.segments
      → AllSeparate obj.segments
      → (out : List ℕ) × (patch_enclave_binary lib parse binary ≡ done out)
        × (length out ≡ length binary)
        × AllSites (Overwritten (λ j. get_or out j 0)) (all_sites lib laws binary obj.segments)
  patch_enclave_binary-Overwritten parse binary obj parses is_elf words small goods separates =
      elim (patch_enclave_binary_lem lib laws parse binary obj parses is_elf words small) [
        | inr (bad, _) ↦ absurd (bad goods)
        | inl (_, (out, ran, long, bytes')) ↦ (
          out,
          ran,
          long,
          all_Overwritten (λ j. get_or out j 0) (all_sites lib laws binary obj.segments)
              (all_sites-Pairwise binary obj.segments goods separates)
              (λ j. elim (bytes' j) [ inl (free, _) ↦ inl free | inr any ↦ inr any ]),
        )
      ]
