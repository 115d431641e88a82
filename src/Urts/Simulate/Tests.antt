-- ===== src/Urts/Simulate/Tests.antt =====
-- A decoder that knows one prohibited instruction, and the theorems on a binary that holds one.
use sgx_sdk_rs.Base.{
  ℕ, ◌+◌, ◌%◌, ◌^◌, ◌≤◌, ◌<◌, ◌≡◌, ◌⊎◌, refl, arith, List, [], ◌∷◌, length, drop, get_or,
  length-drop, Bool, true, false, ◌==◌, ltb, ◌&&◌, if◌then◌else◌, Bool-cases, either, inl, inr,
}
use sgx_sdk_rs.Urts.Simulate.{
  Code, cpuid, DecoderLib, SegmentFlags, Segment, BinaryFormat, Object, Parsed, parsed, done,
  panics, needs_patch, is_skipped, patch_enclave_binary,
}
use sgx_sdk_rs.Urts.Simulate.Paint.{Byte, AllSites}
use sgx_sdk_rs.Urts.Simulate.Apart.{Overwritten}
use sgx_sdk_rs.Urts.Simulate.Walk.{IsDecoder}
use sgx_sdk_rs.Urts.Simulate.Patched.{AllInFile, all_sites, patch_enclave_binary_lem}
use sgx_sdk_rs.Urts.Simulate.Disjoint.{patch_enclave_binary-Overwritten}

record Cursor : Type 0 where
  bytes : List ℕ
  start : ℕ
  place : ℕ

abbrev is_cpuid : List ℕ → Bool
is_cpuid [] = false
is_cpuid (a ∷ []) = false
is_cpuid (a ∷ b ∷ bs) = a == 0x0f && b == 0xa2

-- Any other byte is an instruction of its own.
abbrev found : Cursor → Code × ℕ
found d = if is_cpuid (drop d.place d.bytes) then (cpuid, 2) else (Code.other 0, 1)

abbrev toy_decoder : DecoderLib Cursor
toy_decoder = record {
  with_ip = λ bs ip. record { bytes = bs; start = ip; place = 0 };
  can_decode = λ d. ltb d.place (length d.bytes);
  decode = λ d.
      let (code, len) = found d in
      (
        record { code = code; ip = (d.start + d.place) % 2 ^ 64; len = len; immediate8 = 0 },
        record d { place = d.place + len },
      );
}

two_left : (bs : List ℕ) → is_cpuid bs ≡ true → 2 ≤ length bs
two_left [] h = cc
two_left (a ∷ []) h = cc
two_left (a ∷ b ∷ bs) h = omega arith

found_len :
    (d : Cursor)
    → d.place < length d.bytes
    → (1 ≤ (found d).1) × ((found d).1 ≤ 15) × (d.place + (found d).1 ≤ length d.bytes)
found_len d more =
    either (λ (r : Code × ℕ). (1 ≤ r.1) × (r.1 ≤ 15) × (d.place + r.1 ≤ length d.bytes))
      (is_cpuid (drop d.place d.bytes)) (cpuid, 2) (Code.other 0, 1)
      (λ yes_cpuid.
        omega (arith, two_left (drop d.place d.bytes) yes_cpuid, length-drop d.place d.bytes))
      (λ _. omega (arith, more))

found_two : (d : Cursor) → needs_patch (toy_decoder.decode d).0 ≡ true → 2 ≤ (found d).1
unfolding needs_patch
found_two d h = elim (Bool-cases (is_cpuid (drop d.place d.bytes))) [
  | inl is ↦ rw is (omega arith)
  | inr other ↦ absurd (cc (rw other at h))
]

toy_IsDecoder : IsDecoder toy_decoder
toy_IsDecoder = record {
  bytes = λ d. d.bytes;
  start = λ d. d.start;
  place = λ d. d.place;
  opens = λ bs ip. (refl, refl, refl);
  can = λ d. refl;
  decodes = λ d more.
      let (one, short, within) = found_len d more in (refl, one, short, refl, refl, refl, within);
  two_bytes = λ d more h. found_two d h;
}

-- A header of two bytes, code with CPUID in it, and data that looks like CPUID.
abbrev binary : List ℕ
binary = 0x7f ∷ 0x45 ∷ 0x90 ∷ 0x0f ∷ 0xa2 ∷ 0xc3 ∷ 0x0f ∷ 0xa2 ∷ []

abbrev text_segment : Segment
text_segment = record {
  flags = SegmentFlags.elf 5;
  file_offset = 2;
  file_size = 4;
  address = 0x1000;
}

abbrev data_segment : Segment
data_segment = record {
  flags = SegmentFlags.elf 6;
  file_offset = 6;
  file_size = 2;
  address = 0x2000;
}

abbrev object : Object
object = record { format = BinaryFormat.elf; segments = text_segment ∷ data_segment ∷ [] }

abbrev parse : List ℕ → Parsed
parse _ = parsed object

patched :
    patch_enclave_binary toy_decoder parse binary
    ≡ done (0x7f ∷ 0x45 ∷ 0x90 ∷ 0x0f ∷ 0x0b ∷ 0xc3 ∷ 0x0f ∷ 0xa2 ∷ [])
unfolding patch_enclave_binary
patched = refl

patch_enclave_binary_lem_example :
    (AllInFile binary object.segments
      × ((out : List ℕ) × (patch_enclave_binary toy_decoder parse binary ≡ done out)
          × (length out ≡ length binary)
          × ((j : ℕ)
              → Byte
                  (all_sites toy_decoder toy_IsDecoder binary object.segments)
                  j
                  (get_or binary j 0)
                  (get_or out j 0))))
    ⊎ ((¬ AllInFile binary object.segments)
        × (patch_enclave_binary toy_decoder parse binary ≡ panics))
patch_enclave_binary_lem_example =
    patch_enclave_binary_lem toy_decoder toy_IsDecoder parse binary object refl refl (omega arith)
      (omega arith)

patch_enclave_binary-Overwritten_example :
    (out : List ℕ) × (patch_enclave_binary toy_decoder parse binary ≡ done out)
    × (length out ≡ length binary)
    × AllSites
        (Overwritten (λ j. get_or out j 0))
        (all_sites toy_decoder toy_IsDecoder binary object.segments)
unfolding is_skipped
patch_enclave_binary-Overwritten_example =
    patch_enclave_binary-Overwritten toy_decoder toy_IsDecoder parse binary object refl refl
      (omega arith) (omega arith) (inr (omega arith), (inl refl, tt))
      ((inl (inr refl), tt), (tt, tt))
