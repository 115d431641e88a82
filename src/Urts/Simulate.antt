-- ===== src/Urts/Simulate.antt =====
-- sgx-urts/src/simulate.rs: the instructions of an enclave's binary that are prohibited in an enclave are
-- overwritten before it is loaded for simulation. The parser of object files (crate object), the
-- decoder of instructions (crate iced-x86) and the file system are parameters. Arithmetic on 64 bits
-- wraps around, as in a release build; the log output is left out.
pub mod Paint
pub mod Walk
pub mod Patched
pub mod Apart
pub mod Disjoint
pub mod Tests
use sgx_sdk_rs.Base.{
  ℕ, zero, suc, ◌+◌, ◌-◌, ◌%◌, ◌^◌, List, [], ◌∷◌, length, take, drop, set, Bool, true, false, ◌==◌,
  ltb, ◌||◌, if◌then◌else◌, Option, none, some, bit_and, replicate, Result, ok, err,
}
use sgx_sdk_rs.Urts.Enclave.{
  UrtsLib, MiscAttribute, Launch, SgxEnclave, ExFeature, null, create_from_buffer,
  sgx_error_invalid_enclave,
}

-- The codes that the source tells apart.
pub data Code : Type 0 where
  cpuid syscall sysenter int_imm8 : Code
  other : ℕ → Code

pub record Instruction : Type 0 where
  pub code : Code
  pub ip : ℕ
  pub len : ℕ
  pub immediate8 : ℕ

-- A decoder with its place in the bytes that it reads.
pub record DecoderLib (D : Type 0) : Type 0 where
  pub with_ip : List ℕ → ℕ → D
  pub can_decode : D → Bool
  pub decode : D → Instruction × D

pub data SegmentFlags : Type 0 where
  elf : ℕ → SegmentFlags
  other : SegmentFlags

pub record Segment : Type 0 where
  pub flags : SegmentFlags
  pub file_offset : ℕ
  pub file_size : ℕ
  pub address : ℕ

pub data BinaryFormat : Type 0 where
  elf : BinaryFormat
  other : ℕ → BinaryFormat

pub record Object : Type 0 where
  pub format : BinaryFormat
  pub segments : List Segment

-- The text of a message is that of the parser, or names the format.
pub data PatchError : Type 0 where
  failed_to_parse : List ℕ → PatchError
  unsupported_format : ℕ → PatchError

-- A run that may panic; the last constructor is fuel that ran out, which the source does not have.
pub data Run {ℓ} (A : Type ℓ) : Type ℓ where
  done : A → Run A
  refused : PatchError → Run A
  panics : Run A
  no_fuel : Run A

infixl 5 ◌>>=◌
abbrev pub ◌>>=◌ {ℓ κ} : {A : Type ℓ} {B : Type κ} → Run A → (A → Run B) → Run B
done a >>= f = f a
refused e >>= f = refused e
panics >>= f = panics
no_fuel >>= f = no_fuel

abbrev pub pf_x : ℕ
pf_x = 1

abbrev pub nop : ℕ
nop = 0x90

unfoldable pub needs_patch : Instruction → Bool
needs_patch i = elim i.code [
  | cpuid ↦ true
  | syscall ↦ true
  | sysenter ↦ true
  | int_imm8 ↦ i.immediate8 == 0x80
  | Code.other _ ↦ false
]

-- A segment that is passed over: not executable, or not an ELF segment.
unfoldable pub is_skipped : SegmentFlags → Bool
is_skipped (SegmentFlags.elf p_flags) = bit_and p_flags pf_x == 0
is_skipped SegmentFlags.other = true

-- `v[i] = b`
unfoldable pub write : List ℕ → ℕ → ℕ → Run (List ℕ)
write v i b = if ltb i (length v) then done (set v i b) else panics

-- `for i in … { v[at + i] = 0x90 }`, for the next `count` values of `i`.
unfoldable pub fill : ℕ → ℕ → List ℕ → Run (List ℕ)
unfolding write
fill zero at v = done v
fill (suc count) at v = write v at nop >>= λ v'. fill count (at + 1) v'

-- UD2 and as many NOPs as it takes.
unfoldable pub patch_instruction : ℕ → ℕ → List ℕ → Run (List ℕ)
unfolding write fill
patch_instruction file_position instruction_len v =
    write v file_position 0x0f
    >>= (λ v1. write v1 (file_position + 1) 0x0b)
    >>= (λ v2. fill (instruction_len - 2) (file_position + 2) v2)

-- Where the instruction lies in the file.
unfoldable pub file_position : Segment → Instruction → ℕ
file_position s i = (s.file_offset + (i.ip + 2 ^ 64 - s.address) % 2 ^ 64) % 2 ^ 64

-- `&binary_data[start..end]`
unfoldable pub slice : List ℕ → ℕ → ℕ → Run (List ℕ)
slice v start end =
    if ltb end start || ltb (length v) end then panics else done (take (end - start) (drop start v))

module _ {D : Type 0} (lib : DecoderLib D) where
  -- The loop over the instructions of a segment.
  unfoldable pub patch_loop : ℕ → Segment → D → List ℕ → Run (List ℕ)
  unfolding needs_patch patch_instruction file_position
  patch_loop zero s decoder v = no_fuel
  patch_loop (suc fuel) s decoder v = elim (lib.can_decode decoder) [
    | false ↦ done v
    | true ↦
        let (instruction, decoder') = lib.decode decoder in
        elim (needs_patch instruction) [
          | false ↦ patch_loop fuel s decoder' v
          | true ↦
              patch_instruction (file_position s instruction) (instruction.len % 2 ^ 8) v >>= λ v'.
              patch_loop fuel s decoder' v'
        ]
  ]

  -- One segment: every instruction takes a byte at least, so its bytes and one more are enough fuel.
  unfoldable pub patch_segment : List ℕ → Segment → List ℕ → Run (List ℕ)
  unfolding is_skipped slice patch_loop
  patch_segment binary s v =
      let rest = slice binary s.file_offset ((s.file_offset + s.file_size) % 2 ^ 64) >>= λ segment.
      patch_loop (length segment + 1) s (lib.with_ip segment s.address) v in
      if is_skipped s.flags then done v else rest

  unfoldable pub patch_segments : List ℕ → List Segment → List ℕ → Run (List ℕ)
  unfolding patch_segment
  patch_segments binary [] v = done v
  patch_segments binary (s ∷ ss) v = patch_segment binary s v >>= λ v'. patch_segments binary ss v'

-- A parse gives an object or a message.
pub data Parsed : Type 0 where
  parsed : Object → Parsed
  malformed : List ℕ → Parsed

module _ {D : Type 0} (lib : DecoderLib D) (parse : List ℕ → Parsed) where
  unfoldable pub patch_enclave_binary : List ℕ → Run (List ℕ)
  unfolding patch_segments
  patch_enclave_binary binary = elim (parse binary) [
    | malformed e ↦ refused (failed_to_parse e)
    | parsed obj ↦ elim obj.format [
      | BinaryFormat.other f ↦ refused (unsupported_format f)
      | BinaryFormat.elf ↦ patch_segments lib binary obj.segments binary
    ]
  ]

  module _ {W : Type 0} (urts : UrtsLib W) (global_init : Bool) where
    -- What starting an enclave gives, unless the patching panics.
    unfoldable pub create_patched_enclave_from_buffer :
        List ℕ → ℕ → MiscAttribute → W → Run (Launch W SgxEnclave)
    unfolding patch_enclave_binary
    create_patched_enclave_from_buffer buffer debug misc w = elim (patch_enclave_binary buffer) [
      | refused e ↦
          done (record { result = err sgx_error_invalid_enclave; misc_attr = misc; world = w })
      | done patched ↦
          done (create_from_buffer urts global_init patched debug misc 0 (replicate 32 null) w)
      | panics ↦ panics
      | no_fuel ↦ no_fuel
    ]

    -- `read` is `std::fs::read`: the bytes of a file, if it can be read.
    unfoldable pub create_patched_enclave :
        (List ℕ → Option (List ℕ)) → List ℕ → ℕ → MiscAttribute → W → Run (Launch W SgxEnclave)
    unfolding create_patched_enclave_from_buffer
    create_patched_enclave read enclave_file debug misc w = elim (read enclave_file) [
      | none ↦ done (record { result = err sgx_error_invalid_enclave; misc_attr = misc; world = w })
      | some binary ↦ create_patched_enclave_from_buffer binary debug misc w
    ]
