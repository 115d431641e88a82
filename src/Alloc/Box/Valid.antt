-- ===== src/Alloc/Box/Valid.antt =====
-- sgx-alloc/src/alignbox.rs: what every box keeps to.
use sgx_sdk_rs.Base.{
  ℕ, ◌+◌, ◌≤◌, ◌≡◌, ◌≢◌, inl, inr, arith, Bool, true, List, ◌==◌, Bool-cases, Option-cases,
}
use sgx_sdk_rs.Alloc.Layout.{AlignReq, from_size_align, check_layout}
use sgx_sdk_rs.Alloc.Requests.{Malloc, pad_align_to, no_requests}
use sgx_sdk_rs.Alloc.Block.{Memory, alloc_with_req}
use sgx_sdk_rs.Alloc.Box.{
  Element, AlignBox, Made, made, no_box, aborts, allocate_in, new_in, new_with_align_in,
  new_with_req_in, initialized, whole, copied, clone_box, clone_box_from,
}
use sgx_sdk_rs.Alloc.Requests.Room.{from_size_align_lem, check_layout-sized, pad_align_to-room}

-- A box of the type: layouts that the allocator accepts, with room for the value, and a block.
abbrev pub IsValid : Element → AlignBox → Type 0
IsValid t b =
    (t.size ≢ 0)
    × (b.origin_layout.size ≡ t.size)
    × (check_layout b.origin_layout ≡ true)
    × (check_layout b.align_layout ≡ true)
    × (b.origin_layout.size + b.align_layout.align ≤ b.align_layout.size)
    × (b.ptr ≢ 0)

-- An outcome is a valid box, or none.
unfoldable pub MadeIsValid : Element → Made → Type 0
MadeIsValid t (made b) = IsValid t b
MadeIsValid t no_box = Unit {0}
MadeIsValid t aborts = Unit {0}

module _ (malloc : Malloc) (t : Element) where
  allocate_in-IsValid :
      (zeroed : Bool) (align : ℕ) (reqs : List AlignReq) (m : Memory)
      → MadeIsValid t (allocate_in malloc t zeroed align reqs m).0
  unfolding allocate_in MadeIsValid
  allocate_in-IsValid zeroed align reqs m = elim (Bool-cases (t.size == 0)) [
    | inl nothing ↦ rw nothing tt
    | inr something ↦ elim (Option-cases (from_size_align t.size align)) [
      | inl refused ↦ rw (something, refused) tt
      | inr (layout, formed) ↦ elim (Option-cases (pad_align_to malloc m.live layout reqs).0) [
        | inl refused ↦ rw (something, formed, refused) tt
        | inr (al, padded) ↦
            let (ptr, m') =
              alloc_with_req malloc zeroed layout reqs
                (record m { live = (pad_align_to malloc m.live layout reqs).1 }) in
            elim (Bool-cases (ptr == 0)) [
              | inl none_found ↦ rw (something, formed, padded, none_found) tt
              | inr found ↦
                  let some_size : t.size ≢ 0 = ground (arith, something) in
                  let (size, _, power, small) =
                    from_size_align_lem t.size align layout formed some_size in
                  let sized : layout.size ≢ 0 = omega (arith, size, some_size) in
                  let (passes, room) =
                    pad_align_to-room malloc m.live layout reqs al small sized padded in
                  rw (something, formed, padded, found)
                    (
                      some_size,
                      size,
                      check_layout-sized layout power small sized,
                      passes,
                      room,
                      ground (arith, found),
                    )
            ]
      ]
    ]
  ]

  initialized-IsValid :
      (initialize : List ℕ → List ℕ) (r : Made × Memory)
      → MadeIsValid t r.0
      → MadeIsValid t (initialized malloc t initialize r).0
  unfolding initialized
  initialized-IsValid initialize (made b, m) valid = valid
  initialized-IsValid initialize (no_box, m) valid = valid
  initialized-IsValid initialize (aborts, m) valid = valid

  clone_box-IsValid :
      (b : AlignBox) (m : Memory) → IsValid t b → MadeIsValid t (clone_box malloc t b m).0
  unfolding clone_box MadeIsValid
  clone_box-IsValid b m (some_size, size, passes, passes', room, _) =
      elim (Bool-cases ((copied malloc t b m).0 == 0)) [
        | inl none_found ↦ rw none_found tt
        | inr found ↦ rw found (some_size, size, passes, passes', room, ground (arith, found))
      ]

  clone_box_from-IsValid :
      (b source : AlignBox) (m : Memory)
      → IsValid t b
      → IsValid t source
      → MadeIsValid t (clone_box_from malloc t b source m).0
  unfolding clone_box_from MadeIsValid
  clone_box_from-IsValid b source m valid (some_size, size, passes, passes', room, _) =
      elim (Bool-cases (source.align_layout.size == b.align_layout.size)) [
        | inl same ↦ rw same (some_size, size, passes, passes', room, valid.5)
        | inr other ↦ elim (Bool-cases ((copied malloc t source m).0 == 0)) [
          | inl none_found ↦ rw (other, none_found) tt
          | inr found ↦
              rw (other, found) (some_size, size, passes, passes', room, ground (arith, found))
        ]
      ]

  plain : (m : Memory) → MadeIsValid t (new_in malloc t m).0
  unfolding new_in
  plain m = allocate_in-IsValid true t.align (whole malloc t) m

  aligned : (align : ℕ) (m : Memory) → MadeIsValid t (new_with_align_in malloc t align m).0
  unfolding new_with_align_in
  aligned align m = allocate_in-IsValid true align (whole malloc t) m

  requested :
      (align : ℕ) (reqs : List AlignReq) (m : Memory)
      → MadeIsValid t (new_with_req_in malloc t align reqs m).0
  unfolding new_with_req_in
  requested align reqs m = elim (Bool-cases (no_requests reqs)) [
    | inl h ↦ rw h (plain m)
    | inr h ↦ rw h (allocate_in-IsValid true align reqs m)
  ]

  -- Whatever `malloc` answers, each box that `heap_init`, `heap_init_with_align` or
  -- `heap_init_with_req` gives, that `clone` makes of a valid box, or that `clone_from` leaves of
  -- two valid boxes is valid: its type has some bytes, its first layout has the type's size, both
  -- layouts pass `check_layout`, the second has room for the first and its own alignment, and its
  -- pointer is not null.
  pub boxes-IsValid :
      (initialize : List ℕ → List ℕ) (align : ℕ) (reqs : List AlignReq) (b source : AlignBox)
      (m : Memory)
      → IsValid t b
      → IsValid t source
      → MadeIsValid t (initialized malloc t initialize (new_in malloc t m)).0
        × MadeIsValid t (initialized malloc t initialize (new_with_align_in malloc t align m)).0
        × MadeIsValid t (initialized malloc t initialize (new_with_req_in malloc t align reqs m)).0
        × MadeIsValid t (clone_box malloc t source m).0
        × MadeIsValid t (clone_box_from malloc t b source m).0
  boxes-IsValid initialize align reqs b source m valid valid' = (
    initialized-IsValid initialize (new_in malloc t m) (plain m),
    initialized-IsValid initialize (new_with_align_in malloc t align m) (aligned align m),
    initialized-IsValid initialize (new_with_req_in malloc t align reqs m) (requested align reqs m),
    clone_box-IsValid source m valid',
    clone_box_from-IsValid b source m valid valid',
  )
