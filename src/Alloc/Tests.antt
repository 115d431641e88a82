-- ===== src/Alloc/Tests.antt =====
-- The allocator on a small heap, and the theorems at concrete inputs.
use sgx_sdk_rs.Base.{
  ℕ, ◌+◌, ◌-◌, ◌/◌, ◌%◌, ◌^◌, ◌≤◌, ◌<◌, ◌≡◌, ◌≢◌, ◌⊎◌, arith, refl, List, [], ◌∷◌, true, false,
  some,
}
use sgx_sdk_rs.Alloc.Layout
use sgx_sdk_rs.Alloc.Layout.{Layout, AlignReq}
use sgx_sdk_rs.Alloc.Requests
use sgx_sdk_rs.Alloc.Requests.{Heap, Malloc}
use sgx_sdk_rs.Alloc.Requests.Disjoint.{Acceptable, check_align_req_lem}
use sgx_sdk_rs.Alloc.Block
use sgx_sdk_rs.Alloc.Block.{Memory, alloc_with_pad_align_in, read_word, sub64}
use sgx_sdk_rs.Alloc.Block.Bounds.{alloc_with_pad_align_in-Bounds}
use sgx_sdk_rs.Alloc.Block.Header.{
  dealloc-alloc_with_pad_align_in, alloc_with_pad_align_in-underruns,
}

-- Every block is put at 4096.
abbrev toy_malloc : Malloc
toy_malloc heap size = 4096

abbrev two_requests : List AlignReq
two_requests = record { offset = 8; len = 8 } ∷ record { offset = 20; len = 4 } ∷ []

check_align_req_lem_example :
    (Acceptable toy_malloc [] 128 two_requests
      × (Requests.check_align_req toy_malloc [] 128 two_requests ≡ (true, 4096 ∷ [])))
    ⊎ ((¬ Acceptable toy_malloc [] 128 two_requests)
        × (Requests.check_align_req toy_malloc [] 128 two_requests ≡ (false, [])))
check_align_req_lem_example =
    check_align_req_lem toy_malloc [] 128 two_requests (omega arith) (omega arith)

abbrev secret : Layout
secret = record { size = 128; align = 8 }

-- What `pad_align_to` makes of it for a secret in its bytes 8 to 15.
abbrev padded : Layout
padded = record { size = 192; align = 64 }

pad_run :
    Requests.pad_align_to toy_malloc [] secret (record { offset = 8; len = 8 } ∷ [])
    ≡ (some padded, 4096 ∷ [])
unfolding Requests.pad_align_to Requests.padding_needed_for Requests.check_align_req
    Requests.mark_all Requests.mark_range Requests.mark Requests.marked Layout.check_layout
    Layout.is_power_of_two Layout.check_overflow Layout.calc_lspc Layout.gen_alignmask Layout.rol
    Layout.ror Layout.count_lzb Layout.lspc_places Layout.calc_algn Layout.calc_algn_loop
    Layout.make_bitmap Layout.align_needed_for Layout.from_size_align
pad_run = refl

secret_passes : Layout.check_layout secret ≡ true
unfolding Layout.check_layout Layout.is_power_of_two
secret_passes = refl

padded_passes : Layout.check_layout padded ≡ true
unfolding Layout.check_layout Layout.is_power_of_two
padded_passes = refl

abbrev empty : Memory
empty = record { live = []; byte = λ _. 0 }

abbrev block : ℕ
block = toy_malloc [] 200

abbrev got : ℕ × Memory
got = alloc_with_pad_align_in toy_malloc true secret padded empty

alloc_with_pad_align_in-Bounds_example :
    ((block ≡ 0) × (got ≡ (0, empty)))
    ⊎ ((block ≢ 0)
        × ((got.0 - 0) % 64 ≡ 0)
        × (4096 + 0 ≤ got.0)
        × (got.0 + 128 ≤ 4096 + 192)
        × (got.1.live ≡ 4096 ∷ []))
alloc_with_pad_align_in-Bounds_example =
    alloc_with_pad_align_in-Bounds toy_malloc true secret padded empty secret_passes padded_passes
      (omega arith) (omega arith)

dealloc-alloc_with_pad_align_in_example : (Block.dealloc got.0 got.1).live ≡ []
dealloc-alloc_with_pad_align_in_example =
    dealloc-alloc_with_pad_align_in toy_malloc true secret padded empty secret_passes padded_passes
      (omega arith) (omega arith) (omega arith) got.1.byte refl

alloc_with_pad_align_in-underruns_example :
    (got.0 ≡ 4096) × ((i : ℕ) → i < 8 → got.1.byte (4096 - 8 + i) ≡ 4096 / 256 ^ i % 256)
alloc_with_pad_align_in-underruns_example =
    alloc_with_pad_align_in-underruns toy_malloc true secret padded empty secret_passes
      padded_passes (omega arith) (omega arith) (omega arith) refl (omega arith)
