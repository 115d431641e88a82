-- ===== src/Alloc/Box/Long.antt =====
-- sgx-alloc/src/alignbox.rs: the values that no box takes.
use sgx_sdk_rs.Base.{
  ℕ, ◌<◌, ◌≡◌, inl, inr, refl, arith, Bool, true, false, [], ◌∷◌, Option-cases, ◌==◌, some, none,
  sym,
}
use sgx_sdk_rs.Alloc.Layout.{Layout, from_size_align}
use sgx_sdk_rs.Alloc.Requests.{Malloc, no_requests, pad_align_to}
use sgx_sdk_rs.Alloc.Block.{Memory}
use sgx_sdk_rs.Alloc.Block.Long.{pad_align_to-long}
use sgx_sdk_rs.Alloc.Box.{Element, no_box, allocate_in, new_in, new_with_align_in, new_with_req_in}

from_size_align-size :
    (size align : ℕ) (l : Layout) → from_size_align size align ≡ some l → l.size ≡ size
unfolding from_size_align
from_size_align-size size align l h = ground (arith, h)

module _ (malloc : Malloc) (t : Element) where
  allocate_in-long :
      (zeroed : Bool) (align : ℕ) (m : Memory)
      → 63 < t.size
      → (allocate_in malloc t zeroed align (record { offset = 0; len = t.size } ∷ []) m).0 ≡ no_box
  unfolding allocate_in
  allocate_in-long zeroed align m long =
      let some_size : (t.size == 0) ≡ false = ground (arith, long) in
      elim (Option-cases (from_size_align t.size align)) [
        | inl refused ↦ rw (some_size, refused) refl
        | inr (layout, formed) ↦
            let size = from_size_align-size t.size align layout formed in
            let nowhere : (pad_align_to malloc m.live layout
                  (record { offset = 0; len = t.size } ∷ [])).0
                ≡ none =
              rw (sym size) (pad_align_to-long malloc m.live layout (rw size long)) in
            rw (some_size, formed, nowhere) refl
      ]

  -- For a type of more than 63 bytes, `new`, `new_with_align` and `new_with_req` without requests
  -- give no box, whatever the alignment.
  pub new-long :
      (align : ℕ) (m : Memory)
      → 63 < t.size
      → ((new_in malloc t m).0 ≡ no_box)
        × ((new_with_align_in malloc t align m).0 ≡ no_box)
        × ((new_with_req_in malloc t align [] m).0 ≡ no_box)
  unfolding new_in new_with_align_in new_with_req_in no_requests
  new-long align m long =
      let plain = allocate_in-long true t.align m long in
      (plain, allocate_in-long true align m long, plain)
