-- ===== src/Alloc/Box.antt =====
-- sgx-alloc/src/alignbox.rs: a box on a block of the allocator for secrets. The type of the value is
-- given by its size, its alignment and what its own `Clone` makes of its bytes.
pub mod Bytes
pub mod Clones
pub mod Long
pub mod Valid
pub mod Tests
use sgx_sdk_rs.Base.{
  ℕ, zero, suc, ◌+◌, ◌-◌, List, [], ◌∷◌, length, get_or, Bool, true, false, ◌==◌, if◌then◌else◌,
  Option, none, some,
}
use sgx_sdk_rs.Alloc.Layout.{Layout, AlignReq, from_size_align}
use sgx_sdk_rs.Alloc.Requests.{Malloc, pad_align_to, no_requests}
use sgx_sdk_rs.Alloc.Block.{Memory, in_span, alloc_with_req, alloc_with_pad_align_in, dealloc}

pub record Element : Type 0 where
  pub size : ℕ
  pub align : ℕ
  pub clone : List ℕ → List ℕ
  pub clone_from : List ℕ → List ℕ → List ℕ

pub record AlignBox : Type 0 where
  pub ptr : ℕ
  pub align_layout : Layout
  pub origin_layout : Layout

-- `handle_alloc_error` does not return.
pub data Made : Type 0 where
  made : AlignBox → Made
  no_box : Made
  aborts : Made

-- A value's bytes behind a pointer.
unfoldable pub read_bytes : (ℕ → ℕ) → ℕ → ℕ → List ℕ
read_bytes m a zero = []
read_bytes m a (suc n) = m a ∷ read_bytes m (a + 1) n

abbrev pub write_bytes : (ℕ → ℕ) → ℕ → List ℕ → ℕ → ℕ
write_bytes m a bs b = if in_span a (length bs) b then get_or bs (b - a) 0 else m b

unfoldable pub dealloc_buffer : Element → AlignBox → Memory → Memory
dealloc_buffer t b m = if t.size == 0 then m else dealloc b.ptr m

-- `Drop::drop`
unfoldable pub drop_box : Element → AlignBox → Memory → Memory
unfolding dealloc_buffer
drop_box t b m = dealloc_buffer t b m

module _ (malloc : Malloc) (t : Element) where
  unfoldable pub allocate_in : Bool → ℕ → List AlignReq → Memory → Made × Memory
  allocate_in zeroed align reqs m =
      if t.size == 0 then (no_box, m) else (elim (from_size_align t.size align) [
        | none ↦ (no_box, m)
        | some layout ↦
            let (padded, live') = pad_align_to malloc m.live layout reqs in
            let m' = record m { live = live' } in
            elim padded [
              | none ↦ (no_box, m')
              | some align_layout ↦
                  let (ptr, m'') = alloc_with_req malloc zeroed layout reqs m' in
                  let box : AlignBox = record {
                    ptr = ptr;
                    align_layout = align_layout;
                    origin_layout = layout;
                  } in
                  if ptr == 0 then (aborts, m'') else (made box, m'')
            ]
      ])

  -- The request for the whole value.
  abbrev pub whole : List AlignReq
  whole = record { offset = 0; len = t.size } ∷ []

  -- `new` and `new_in`, `new_with_align` and `new_with_align_in`, `new_with_req` and
  -- `new_with_req_in`.
  unfoldable pub new_in : Memory → Made × Memory
  unfolding allocate_in
  new_in m = allocate_in true t.align whole m

  unfoldable pub new_with_align_in : ℕ → Memory → Made × Memory
  unfolding allocate_in
  new_with_align_in align m = allocate_in true align whole m

  unfoldable pub new_with_req_in : ℕ → List AlignReq → Memory → Made × Memory
  unfolding allocate_in new_in
  new_with_req_in align reqs m =
      if no_requests reqs then new_in m else allocate_in true align reqs m

  -- `heap_init`, `heap_init_with_align` and `heap_init_with_req` on what the constructor gave: the
  -- closure makes the value's bytes of those that it finds.
  unfoldable pub initialized : (List ℕ → List ℕ) → Made × Memory → Made × Memory
  unfolding read_bytes
  initialized initialize (made b, m) = (
    made b,
    record m { byte = write_bytes m.byte b.ptr (initialize (read_bytes m.byte b.ptr t.size)) },
  )
  initialized initialize (no_box, m) = (no_box, m)
  initialized initialize (aborts, m) = (aborts, m)

  -- The clone's bytes in a new block, and a null pointer where there is none.
  unfoldable pub copied : AlignBox → Memory → ℕ × Memory
  unfolding read_bytes
  copied b m =
      let (ptr, m') = alloc_with_pad_align_in malloc true b.origin_layout b.align_layout m in
      (
        ptr,
        record m' { byte = write_bytes m'.byte ptr (t.clone (read_bytes m'.byte b.ptr t.size)) },
      )

  -- The pointer of a clone is the new one, and its layouts are those of the box.
  unfoldable pub clone_box : AlignBox → Memory → Made × Memory
  unfolding copied
  clone_box b m =
      let (ptr, m') = copied b m in
      if ptr == 0 then (aborts, m) else (made (record b { ptr = ptr }), m')

  -- `clone_from`: on layouts of one size the value alone is overwritten.
  unfoldable pub clone_box_from : AlignBox → AlignBox → Memory → Made × Memory
  unfolding copied dealloc_buffer
  clone_box_from b source m =
      let (ptr, m') = copied source m in
      let own = read_bytes m.byte b.ptr t.size in
      let theirs = read_bytes m.byte source.ptr t.size in
      if source.align_layout.size == b.align_layout.size
      then (
        made (record source { ptr = b.ptr }),
        record m { byte = write_bytes m.byte b.ptr (t.clone_from own theirs) },
      )
      else if ptr == 0
      then (aborts, m)
      else (made (record source { ptr = ptr }), dealloc_buffer t b m')
