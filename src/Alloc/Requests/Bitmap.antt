-- ===== src/Alloc/Requests/Bitmap.antt =====
-- The bitmap of `check_align_req`: a mark sets one bit, and a range of marks succeeds exactly on
-- bytes that are all free.
use sgx_sdk_rs.Base.{
  ℕ, zero, suc, ◌+◌, ◌*◌, ◌/◌, ◌%◌, ◌^◌, ◌≤◌, ◌<◌, ◌≡◌, ◌⊎◌, inl, inr, ◌∙◌, arith, refl, List, Bool,
  true, false, not, ◌&&◌, ◌||◌, ltb, leb, ◌==◌, none, some, length, get_or, set, get_or-set_self,
  get_or-set_ne, length-set, bit_or, Bool-cases,
}
use sgx_sdk_rs.Base.Bits.{bit, bit-bit_or, bit-le_one}
use sgx_sdk_rs.Base.Bits.Masks.{bit_and-pow, bit-pow}
use sgx_sdk_rs.Alloc.Requests.{marked, mark, mark_range}
use native.Mathlib.Nat.{one-le-pow}

-- A mark is a bit.
marked-bit : (bmp : List ℕ) (j : ℕ) → marked bmp j ≡ not (bit (j % 8) (get_or bmp (j / 8) 0) == 0)
unfolding marked
marked-bit bmp j = ground (
  arith,
  bit_and-pow (j % 8) (get_or bmp (j / 8) 0),
  bit-le_one (j % 8) (get_or bmp (j / 8) 0),
  one-le-pow (j % 8) 2,
)

-- A byte that is marked stays marked, and no other byte changes.
pub marked-mark :
    (bmp : List ℕ) (i j : ℕ) → i / 8 < length bmp → marked (mark bmp i) j ≡ (i == j || marked bmp j)
unfolding mark
marked-mark bmp i j h =
    let old = get_or bmp (i / 8) 0 in
    let new = bit_or old (2 ^ (i % 8)) in
    ground (
      arith,
      marked-bit (set bmp (i / 8) new) j,
      marked-bit bmp j,
      get_or-set_self bmp (i / 8) new 0 h,
      get_or-set_ne bmp (i / 8) (j / 8) new 0,
      bit-bit_or (j % 8) old (2 ^ (i % 8)),
      bit-pow (j % 8) (i % 8),
      bit-le_one (j % 8) old,
    )

pub length-mark : (bmp : List ℕ) (i : ℕ) → length (mark bmp i) ≡ length bmp
unfolding mark
length-mark bmp i = length-set bmp (i / 8) _

-- The bytes from `offset` on, `n` of them.
abbrev pub inside : ℕ → ℕ → ℕ → Bool
inside offset n j = leb offset j && ltb j (offset + n)

-- A range that is marked was free, and is what is marked anew.
pub record IsMarked (bmp : List ℕ) (offset n : ℕ) (bmp' : List ℕ) : Type 0 where
  pub same_length : length bmp' ≡ length bmp
  pub was_free : (j : ℕ) → inside offset n j ≡ true → marked bmp j ≡ false
  pub now : (j : ℕ) → marked bmp' j ≡ (inside offset n j || marked bmp j)

abbrev pub MarkedIn : List ℕ → ℕ → ℕ → Type 0
MarkedIn bmp offset n = (j : ℕ) × (inside offset n j ≡ true) × (marked bmp j ≡ true)

pub mark_range_lem :
    (n : ℕ) (bmp : List ℕ) (offset : ℕ)
    → offset + n ≤ 8 * length bmp
    → ((bmp' : List ℕ) × (mark_range bmp offset n ≡ some bmp') × IsMarked bmp offset n bmp')
      ⊎ (MarkedIn bmp offset n × (mark_range bmp offset n ≡ none))
unfolding mark_range
mark_range_lem zero bmp offset room = inl (
  bmp,
  refl,
  record { same_length = refl; was_free = λ j h. ground arith; now = λ j. ground arith },
)
mark_range_lem (suc n) bmp offset room = elim (Bool-cases (marked bmp offset)) [
  | inl taken ↦ inr ((offset, ground arith, taken), rw taken)
  | inr free ↦
      let set_one = λ (j : ℕ). marked-mark bmp offset j (omega arith) in
      elim (mark_range_lem n (mark bmp offset) (offset + 1)
        (omega (arith, length-mark bmp offset))) [
          | inl (bmp', done, m) ↦ inl (
            bmp',
            rw free done,
            record {
              same_length = m.same_length ∙ length-mark bmp offset;
              was_free = λ j h. ground (arith, m.was_free j, set_one j, free);
              now = λ j. ground (arith, m.now j, set_one j);
            },
          )
          | inr ((j, within, taken), refused) ↦
              inr ((j, ground arith, ground (arith, set_one j)), rw free refused)
        ]
]
