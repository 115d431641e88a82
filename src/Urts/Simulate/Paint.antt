-- ===== src/Urts/Simulate/Paint.antt =====
-- sgx-urts/src/simulate.rs: the places that are overwritten, and what stands there afterwards.
use sgx_sdk_rs.Base.{
  ℕ, zero, suc, ◌+◌, ◌-◌, ◌≤◌, ◌<◌, ◌≡◌, refl, sym, ap, ◌∙◌, arith, List, [], ◌∷◌, ◌++◌, length,
  set, get_or, length-set, get_or-set_self, get_or-set_ne, false, ◌==◌, ltb, leb, ◌&&◌, ◌⊎◌,
  if◌then◌else◌, Bool-cases, inl, inr, ==_iff, lt→ltb,
}
use sgx_sdk_rs.Urts.Simulate.{Run, done, ◌>>=◌, write, fill, nop, patch_instruction}

-- An instruction's bytes in the file.
pub record Site : Type 0 where
  pub position : ℕ
  pub len : ℕ

abbrev pub Covers : Site → ℕ → Type 0
Covers x j = (x.position ≤ j) × (j < x.position + x.len)

-- The byte `j` behind an overwriting of the site, if it was `b`.
abbrev pub paint : Site → ℕ → ℕ → ℕ
paint x j b =
    if j == x.position
    then 0x0f
    else if j == x.position + 1
    then 0x0b
    else if leb x.position j && ltb j (x.position + x.len)
    then nop
    else b

-- The sites in turn, so that a later one counts where two meet.
unfoldable pub painted : List Site → ℕ → ℕ → ℕ
painted [] j b = b
painted (x ∷ xs) j b = painted xs j (paint x j b)

pub painted-append :
    (xs ys : List Site) (j b : ℕ) → painted (xs ++ ys) j b ≡ painted ys j (painted xs j b)
unfolding painted
painted-append [] ys j b = refl
painted-append (x ∷ xs) ys j b = painted-append xs ys j (paint x j b)

-- The run ends, and gives `v` with the sites overwritten and nothing else changed.
abbrev pub Paints : List Site → List ℕ → Run (List ℕ) → Type 0
Paints xs v run =
    (v' : List ℕ) × (run ≡ done v')
    × (length v' ≡ length v)
    × ((j : ℕ) → get_or v' j 0 ≡ painted xs j (get_or v j 0))

pub Paints-done : (v : List ℕ) → Paints [] v (done v)
unfolding painted
Paints-done v = (v, refl, refl, λ j. refl)

pub Paints-then :
    (xs ys : List Site) (v : List ℕ) (run : Run (List ℕ)) (next : List ℕ → Run (List ℕ))
    (first : Paints xs v run)
    → Paints ys first.0 (next first.0)
    → Paints (xs ++ ys) v (run >>= next)
Paints-then xs ys v run next (v1, ran, same, bytes) (v2, ran', same', bytes') = (
  v2,
  rw (ran, ◌>>=◌) ran',
  same' ∙ same,
  λ j. bytes' j ∙ ap (painted ys j) (bytes j) ∙ sym (painted-append xs ys j (get_or v j 0)),
)

pub Paints-bind :
    (xs ys : List Site) (v : List ℕ) (run : Run (List ℕ)) (next : List ℕ → Run (List ℕ))
    → Paints xs v run
    → ((v' : List ℕ) → length v' ≡ length v → Paints ys v' (next v'))
    → Paints (xs ++ ys) v (run >>= next)
Paints-bind xs ys v run next first rest = Paints-then xs ys v run next first (rest first.0 first.2)

get_or-set :
    (v : List ℕ) (i j b : ℕ)
    → i < length v
    → get_or (set v i b) j 0 ≡ (if j == i then b else get_or v j 0)
get_or-set v i j b inside = elim (Bool-cases (j == i)) [
  | inl same ↦ rw (same, (==_iff j i).0 same) (get_or-set_self v i b 0 inside)
  | inr other ↦ rw other (get_or-set_ne v i j b 0 (λ e. differ e other))
]
  where
    differ : {a c : ℕ} → a ≡ c → (c == a) ≡ false → ⊥
    differ e h = ground arith

write_lem : (v : List ℕ) (i b : ℕ) → i < length v → write v i b ≡ done (set v i b)
unfolding write
write_lem v i b inside = rw (lt→ltb _ _ inside)

fill_lem :
    (count at : ℕ) (v : List ℕ)
    → at + count ≤ length v
    → (v' : List ℕ) × (fill count at v ≡ done v')
      × (length v' ≡ length v)
      × ((j : ℕ) → get_or v' j 0 ≡ (if leb at j && ltb j (at + count) then nop else get_or v j 0))
unfolding fill
fill_lem zero at v inside = (v, refl, refl, λ j. ground arith)
fill_lem (suc count) at v inside =
    let here : at < length v = omega (arith, inside) in
    let same = length-set v at nop in
    let (v', ran, long, bytes) =
      fill_lem count (at + 1) (set v at nop) (omega (arith, inside, same)) in
    (
      v',
      rw (write_lem v at nop here) ran,
      long ∙ same,
      λ j. ground (arith, bytes j, get_or-set v at j nop here),
    )

pub patch_instruction-Paints :
    (position len : ℕ) (v : List ℕ)
    → 2 ≤ len
    → position + len ≤ length v
    → Paints (record { position = position; len = len } ∷ []) v (patch_instruction position len v)
unfolding patch_instruction painted
patch_instruction-Paints position len v two inside =
    let v1 = set v position 0x0f in
    let v2 = set v1 (position + 1) 0x0b in
    let same1 = length-set v position 0x0f in
    let same2 = length-set v1 (position + 1) 0x0b in
    let in1 : position < length v = omega (arith, two, inside) in
    let in2 : position + 1 < length v1 = omega (arith, two, inside, same1) in
    let (v', ran, long, bytes) =
      fill_lem (len - 2) (position + 2) v2 (omega (arith, two, inside, same1, same2)) in
    (
      v',
      rw (write_lem v position 0x0f in1, write_lem v1 (position + 1) 0x0b in2) ran,
      long ∙ same2 ∙ same1,
      λ j. ground (
        arith,
        bytes j,
        get_or-set v1 (position + 1) j 0x0b in2,
        get_or-set v position j 0x0f in1,
      ),
    )

-- The byte `k` of an overwritten instruction.
abbrev pub ud2_nop : ℕ → ℕ
ud2_nop k = if k == 0 then 0x0f else if k == 1 then 0x0b else nop

abbrev pub AllSites : (Site → Type 0) → List Site → Type 0
AllSites P [] = Unit {0}
AllSites P (x ∷ xs) = P x × AllSites P xs

pub AllSites-append :
    (P : Site → Type 0) (xs ys : List Site) → AllSites P xs → AllSites P ys → AllSites P (xs ++ ys)
AllSites-append P [] ys h k = k
AllSites-append P (x ∷ xs) ys (p, h) k = (p, AllSites-append P xs ys h k)

abbrev pub AnySite : (Site → Type 0) → List Site → Type 0
AnySite P [] = ⊥
AnySite P (x ∷ xs) = P x ⊎ AnySite P xs

-- The byte `j` is `b'`, which was `b`: outside of all sites it is the same, and in a site it is the
-- site's.
abbrev pub Byte : List Site → ℕ → ℕ → ℕ → Type 0
Byte xs j b b' =
    (AllSites (λ x. ¬ Covers x j) xs × (b' ≡ b))
    ⊎ AnySite (λ x. Covers x j × (b' ≡ ud2_nop (j - x.position))) xs

Covers-cases : (x : Site) (j : ℕ) → Covers x j ⊎ (¬ Covers x j)
Covers-cases x j = ground arith

paint_in : (x : Site) (j b : ℕ) → Covers x j → paint x j b ≡ ud2_nop (j - x.position)
paint_in x j b inside = ground (arith, inside)

paint_out : (x : Site) (j b : ℕ) → 2 ≤ x.len → (¬ Covers x j) → paint x j b ≡ b
paint_out x j b two outside = ground (arith, two, outside)

pub painted-Byte :
    (xs : List Site) (j b : ℕ) → AllSites (λ x. 2 ≤ x.len) xs → Byte xs j b (painted xs j b)
unfolding painted
painted-Byte [] j b two = inl (tt, refl)
painted-Byte (x ∷ xs) j b (two, twos) = elim (painted-Byte xs j (paint x j b) twos) [
  | inr covered ↦ inr (inr covered)
  | inl (free, same) ↦ elim (Covers-cases x j) [
    | inl inside ↦ inr (inl (inside, same ∙ paint_in x j b inside))
    | inr outside ↦ inl ((outside, free), same ∙ paint_out x j b two outside)
  ]
]
