-- ===== src/Alloc/Box/Tests.antt =====
-- Boxes on a small heap, and the theorems at concrete inputs.
use sgx_sdk_rs.Base.{◌+◌, ◌*◌, ◌-◌, ◌%◌, ◌≡◌, inl, arith, refl, List, [], ◌∷◌, length, true}
use sgx_sdk_rs.Alloc.Layout
use sgx_sdk_rs.Alloc.Layout.{Layout, AlignReq}
use sgx_sdk_rs.Alloc.Requests
use sgx_sdk_rs.Alloc.Requests.{Heap, Malloc}
use sgx_sdk_rs.Alloc.Block
use sgx_sdk_rs.Alloc.Block.{Memory}
use sgx_sdk_rs.Alloc.Box
use sgx_sdk_rs.Alloc.Box.{Element, AlignBox, made, no_box, read_bytes}
use sgx_sdk_rs.Alloc.Box.Valid.{IsValid, MadeIsValid, boxes-IsValid}
use sgx_sdk_rs.Alloc.Box.Long.{new-long}
use sgx_sdk_rs.Alloc.Box.Clones.{clone_box_lem}

-- The blocks follow each other.
abbrev bump : Malloc
bump heap size = 4096 + 1024 * length heap

-- A type of 128 bytes, whose clone is a copy.
abbrev key : Element
key = record { size = 128; align = 8; clone = λ bs. bs; clone_from = λ own theirs. theirs }

abbrev key_layout : Layout
key_layout = record { size = 128; align = 8 }

abbrev key_padded : Layout
key_padded = record { size = 192; align = 64 }

abbrev key_box : AlignBox
key_box = record { ptr = 1024; align_layout = key_padded; origin_layout = key_layout }

abbrev sevens : Memory
sevens = record { live = 512 ∷ []; byte = λ _. 7 }

-- A box with its secret in the bytes 8 to 15: two bitmaps are left behind.
new_run :
    (Box.new_with_req_in bump key 8 (record { offset = 8; len = 8 } ∷ []) sevens).0
    ≡ made (record { ptr = 7168; align_layout = key_padded; origin_layout = key_layout })
unfolding Requests.pad_align_to Requests.padding_needed_for Requests.check_align_req
    Requests.mark_all Requests.mark_range Requests.mark Requests.marked Layout.check_layout
    Layout.is_power_of_two Layout.check_overflow Layout.calc_lspc Layout.gen_alignmask Layout.rol
    Layout.ror Layout.count_lzb Layout.lspc_places Layout.calc_algn Layout.calc_algn_loop
    Layout.make_bitmap Layout.align_needed_for Layout.from_size_align Requests.no_requests
    Block.alloc_with_req Block.alloc_with_pad_align_in Block.make_aligned_ptr Box.allocate_in
    Box.new_with_req_in
new_run = refl

key_layout_passes : Layout.check_layout key_layout ≡ true
unfolding Layout.check_layout Layout.is_power_of_two
key_layout_passes = refl

key_padded_passes : Layout.check_layout key_padded ≡ true
unfolding Layout.check_layout Layout.is_power_of_two
key_padded_passes = refl

key_box-IsValid : IsValid key key_box
key_box-IsValid =
    (omega arith, refl, key_layout_passes, key_padded_passes, omega arith, omega arith)

new-long_example :
    ((Box.new_in bump key sevens).0 ≡ no_box)
    × ((Box.new_with_align_in bump key 16 sevens).0 ≡ no_box)
    × ((Box.new_with_req_in bump key 16 [] sevens).0 ≡ no_box)
new-long_example = new-long bump key 16 sevens (omega arith)

abbrev request : List AlignReq
request = record { offset = 8; len = 8 } ∷ []

boxes-IsValid_example :
    MadeIsValid key (Box.initialized bump key (λ bs. bs) (Box.new_in bump key sevens)).0
    × MadeIsValid key
        (Box.initialized bump key (λ bs. bs) (Box.new_with_align_in bump key 8 sevens)).0
    × MadeIsValid key
        (Box.initialized bump key (λ bs. bs) (Box.new_with_req_in bump key 8 request sevens)).0
    × MadeIsValid key (Box.clone_box bump key key_box sevens).0
    × MadeIsValid key (Box.clone_box_from bump key key_box key_box sevens).0
boxes-IsValid_example =
    boxes-IsValid bump key (λ bs. bs) 8 request key_box key_box sevens key_box-IsValid
      key_box-IsValid

key_bytes : length (read_bytes (λ _. 7) 1024 128) ≡ 128
unfolding read_bytes
key_bytes = refl

clone_box_lem_example :
    (c : AlignBox) × (m' : Memory) × (Box.clone_box bump key key_box sevens ≡ (made c, m'))
    × ((c.ptr - 0) % 64 ≡ 0)
    × (read_bytes m'.byte c.ptr 128 ≡ read_bytes (λ _. 7) 1024 128)
    × (read_bytes m'.byte 1024 128 ≡ read_bytes (λ _. 7) 1024 128)
    × ((Box.drop_box key c m').live ≡ 512 ∷ [])
clone_box_lem_example =
    clone_box_lem bump key key_box sevens key_box-IsValid (omega arith) (omega arith) key_bytes
      (inl (omega arith))
