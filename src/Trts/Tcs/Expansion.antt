-- ===== src/Trts/Tcs/Expansion.antt =====
-- sgx-trts/src/enclave.rs: what a layout table stands for, and that its traversal ends and counts that.
use sgx_sdk_rs.Base.{
  ℕ, zero, suc, ◌+◌, ◌-◌, ◌≤◌, ◌<◌, ◌≡◌, ◌⊎◌, inl, inr, refl, sym, ap, ◌∙◌, arith, List, [], ◌∷◌,
  ◌++◌, Bool, true, false, not, ltb, if◌then◌else◌, Bool-cases, length, drop, length-append,
  length-drop,
}
use sgx_sdk_rs.Trts.Tcs.{
  Layout, TcsNum, Traversal, counted, panicked, entry_count, load_times, is_group_id, count_entry,
  for_times, layouts, traversal_layout,
}

abbrev pub copies : ℕ → List Layout → List Layout
copies zero ls = []
copies (suc n) ls = ls ++ copies n ls

-- `Expands before rest es`: behind the layouts `before`, those of `rest` stand for the entries `es`:
-- an entry for itself, a group for as many copies as it says of what the layouts just before it
-- stand for, which are then a table of their own.
pub data Expands : List Layout → List Layout → List Layout → Type 0 where
  done : (before : List Layout) → Expands before [] []
  entry :
      (before rest es : List Layout) (l : Layout)
      → is_group_id l ≡ false
      → Expands (before ++ l ∷ []) rest es
      → Expands before (l ∷ rest) (l ∷ es)
  empty_group :
      (before rest es : List Layout) (l : Layout)
      → is_group_id l ≡ true
      → load_times l ≡ 0
      → Expands (before ++ l ∷ []) rest es
      → Expands before (l ∷ rest) es
  group :
      (before rest inner es : List Layout) (l : Layout)
      → is_group_id l ≡ true
      → entry_count l ≤ length before
      → Expands [] (drop (length before - entry_count l) before) inner
      → Expands (before ++ l ∷ []) rest es
      → Expands before (l ∷ rest) (copies (load_times l) inner ++ es)

unfoldable pub count_all : List Layout → TcsNum → TcsNum
unfolding count_entry
count_all [] n = n
count_all (l ∷ ls) n = count_all ls (count_entry l n)

pub count_all-append :
    (xs ys : List Layout) (n : TcsNum) → count_all (xs ++ ys) n ≡ count_all ys (count_all xs n)
unfolding count_all
count_all-append [] ys n = refl
count_all-append (x ∷ xs) ys n = count_all-append xs ys (count_entry x n)

-- How many entries a test accepts.
abbrev pub number_of : (Layout → Bool) → List Layout → ℕ
number_of test [] = 0
number_of test (l ∷ ls) = (if test l then 1 else 0) + number_of test ls

-- The table always panics, or it stands for entries that are always counted.
abbrev pub Counts : (List Layout → Type 0) → (TcsNum → Traversal) → Type 0
Counts stands run =
    ((n : TcsNum) → run n ≡ panicked)
    ⊎ ((es : List Layout) × stands es × ((n : TcsNum) → run n ≡ counted (count_all es n)))

pub for_times-counted :
    (times : ℕ) (body : TcsNum → Traversal) (es : List Layout)
    → ((n : TcsNum) → body n ≡ counted (count_all es n))
    → (n : TcsNum) → for_times times body n ≡ counted (count_all (copies times es) n)
unfolding for_times count_all
for_times-counted zero body es h n = refl
for_times-counted (suc times) body es h n = rw (h n) (
    for_times-counted times body es h (count_all es n)
    ∙ ap counted (sym (count_all-append es (copies times es) n)))

for_times-panicked :
    (times : ℕ) (body : TcsNum → Traversal)
    → ((n : TcsNum) → body n ≡ panicked)
    → (times ≡ 0) ⊎ ((n : TcsNum) → for_times times body n ≡ panicked)
unfolding for_times
for_times-panicked zero body h = inl refl
for_times-panicked (suc times) body h = inr (λ n. rw (h n) refl)

module _ (bound : ℕ) (recur : List Layout → TcsNum → Traversal)
    (shorter : (table : List Layout)
      → length table < bound
      → Counts (Expands [] table) (recur table)) where
  abbrev group_body : List Layout → Layout → TcsNum → Traversal
  group_body before l m =
      if ltb (length before) (entry_count l)
      then panicked
      else recur (drop (length before - entry_count l) before) m

  abbrev visit : List Layout → Layout → TcsNum → Traversal
  visit before l n =
      if not (is_group_id l)
      then counted (count_entry l n)
      else for_times (load_times l) (group_body before l) n

  -- A layout puts entries in front of what the layouts behind it stand for.
  abbrev Prepends : List Layout → Layout → List Layout → Type 0
  Prepends before l inner =
      (rest es : List Layout)
      → Expands (before ++ l ∷ []) rest es
      → Expands before (l ∷ rest) (inner ++ es)

  empty_group-Counts :
      (before : List Layout) (l : Layout) (body : TcsNum → Traversal)
      → is_group_id l ≡ true
      → ((n : TcsNum) → body n ≡ panicked)
      → Counts (Prepends before l) (for_times (load_times l) body)
  unfolding for_times count_all
  empty_group-Counts before l body g h = elim (for_times-panicked (load_times l) body h) [
    | inr all ↦ inl all
    | inl none ↦
        inr ([], (λ rest es later. empty_group before rest es l g none later), λ n. rw none refl)
  ]

  group_body-Counts :
      (before : List Layout) (l : Layout)
      → is_group_id l ≡ true
      → length before < bound
      → Counts (Prepends before l) (for_times (load_times l) (group_body before l))
  group_body-Counts before l g small = elim (Bool-cases (ltb (length before) (entry_count l))) [
    | inl out ↦ empty_group-Counts before l (group_body before l) g (λ n. rw out refl)
    | inr fine ↦
        let slice = drop (length before - entry_count l) before in
        let inside : (n : TcsNum) → group_body before l n ≡ recur slice n = λ n. rw fine refl in
        elim (shorter slice
          (omega (arith, small, length-drop (length before - entry_count l) before))) [
            | inl all ↦ empty_group-Counts before l (group_body before l) g (λ n. inside n ∙ all n)
            | inr (inner, stands, runs) ↦ inr (
              copies (load_times l) inner,
              (λ rest es later. group before rest inner es l g (ground (arith, fine)) stands later),
              for_times-counted (load_times l) (group_body before l) inner (λ n. inside n ∙ runs n),
            )
          ]
  ]

  visit-Counts :
      (before : List Layout) (l : Layout)
      → length before < bound
      → Counts (Prepends before l) (visit before l)
  unfolding count_all
  visit-Counts before l small = elim (Bool-cases (is_group_id l)) [
    | inr plain ↦
        inr (l ∷ [], (λ rest es later. entry before rest es l plain later), λ n. rw plain refl)
    | inl g ↦ elim (group_body-Counts before l g small) [
      | inl all ↦ inl (λ n. rw g (all n))
      | inr (inner, stands, runs) ↦ inr (inner, stands, λ n. rw g (runs n))
    ]
  ]

  layouts-Counts :
      (before rest : List Layout)
      → length before + length rest ≤ bound
      → Counts (Expands before rest) (layouts recur before rest)
  unfolding layouts count_all
  layouts-Counts before [] fits = inr ([], done before, λ n. refl)
  layouts-Counts before (l ∷ rest) fits = elim (visit-Counts before l (omega (arith, fits))) [
    | inl all ↦ inl (λ n. rw (all n) refl)
    | inr (inner, prepends, runs) ↦
        elim (layouts-Counts (before ++ l ∷ []) rest
          (omega (arith, fits, length-append before (l ∷ [])))) [
            | inl all ↦ inl (λ n. rw (runs n) (all (count_all inner n)))
            | inr (es, stands, later) ↦ inr (
              inner ++ es,
              prepends rest es stands,
              λ n.
                  rw (runs n)
                    (later (count_all inner n) ∙ ap counted (sym (count_all-append inner es n))),
            )
          ]
  ]

-- With more fuel than the table has layouts, a traversal never runs out of it.
pub traversal_layout-Counts :
    (fuel : ℕ) (table : List Layout)
    → length table < fuel
    → Counts (Expands [] table) (traversal_layout fuel table)
unfolding traversal_layout
traversal_layout-Counts zero table enough = absurd (omega (arith, enough))
traversal_layout-Counts (suc fuel) table enough =
    layouts-Counts fuel (traversal_layout fuel) (traversal_layout-Counts fuel) [] table
      (omega (arith, enough))
