-- ===== src/Trts/Tcs.antt =====
-- sgx-trts/src/enclave.rs: the count of thread control structures in the enclave's layout table. The
-- table's type is that of sgx-types/src/metadata.rs.
pub mod Expansion
pub mod Counting
pub mod Tests
use sgx_sdk_rs.Base.{
  ℕ, zero, suc, ◌+◌, ◌-◌, ◌%◌, ◌^◌, List, [], ◌∷◌, ◌++◌, Bool, true, false, not, ◌&&◌, ltb, ◌==◌,
  if◌then◌else◌, length, take, drop, bit_and,
}

abbrev pub group_flag : ℕ
group_flag = 2 ^ 12

abbrev pub page_attr_eadd : ℕ
page_attr_eadd = 1

abbrev pub page_attr_eremove : ℕ
page_attr_eremove = 4

abbrev pub page_attr_post_add : ℕ
page_attr_post_add = 8

abbrev pub layout_id_tcs_dyn : ℕ
layout_id_tcs_dyn = 14

abbrev pub si_flags_tcs : ℕ
si_flags_tcs = 0x100

-- The union `layout_t`, by the fields of its `entry`: `group.entry_count` is where `attributes` is
-- and `group.load_times` is where `page_count` is.
pub record Layout : Type 0 where
  pub id : ℕ
  pub attributes : ℕ
  pub page_count : ℕ
  pub content_offset : ℕ
  pub si_flags : ℕ

abbrev pub entry_count : Layout → ℕ
entry_count l = l.attributes

abbrev pub load_times : Layout → ℕ
load_times l = l.page_count

abbrev pub is_group_id : Layout → Bool
is_group_id l = not (bit_and l.id group_flag == 0)

abbrev pub has : ℕ → ℕ → Bool
has attributes flag = not (bit_and attributes flag == 0)

pub record TcsNum : Type 0 where
  pub static_num : ℕ
  pub eremove_num : ℕ
  pub dyn_num : ℕ

-- The loop's body on an entry. The counters are of 32 bits.
abbrev pub is_built : Layout → Bool
is_built l =
    has l.attributes page_attr_eadd && (not (l.content_offset == 0) && (l.si_flags == si_flags_tcs))

abbrev pub is_static : Layout → Bool
is_static l = is_built l && not (has l.attributes page_attr_eremove)

abbrev pub is_eremove : Layout → Bool
is_eremove l = is_built l && has l.attributes page_attr_eremove

abbrev pub is_dyn : Layout → Bool
is_dyn l = has l.attributes page_attr_post_add && (l.id == layout_id_tcs_dyn)

abbrev pub add_if : Bool → ℕ → ℕ
add_if b n = if b then (n + 1) % 2 ^ 32 else n

unfoldable pub count_entry : Layout → TcsNum → TcsNum
count_entry l n = record {
  static_num = add_if (is_static l) n.static_num;
  eremove_num = add_if (is_eremove l) n.eremove_num;
  dyn_num = add_if (is_dyn l) n.dyn_num;
}

-- How a traversal ends: with its counters, by a panic on a slice out of range, or out of fuel.
pub data Traversal : Type 0 where
  counted : TcsNum → Traversal
  panicked : Traversal
  exhausted : Traversal

abbrev pub and_then : Traversal → (TcsNum → Traversal) → Traversal
and_then (counted n) next = next n
and_then panicked next = panicked
and_then exhausted next = exhausted

-- `for _ in 0..times`.
unfoldable pub for_times : ℕ → (TcsNum → Traversal) → TcsNum → Traversal
for_times zero body n = counted n
for_times (suc times) body n = and_then (body n) (for_times times body)

-- The loop over the table, behind the layouts `before`; `recur` is the function itself.
unfoldable pub layouts :
    (List Layout → TcsNum → Traversal) → List Layout → List Layout → TcsNum → Traversal
unfolding count_entry for_times
layouts recur before [] n = counted n
layouts recur before (l ∷ rest) n =
    let i = length before in
    let group_body : TcsNum → Traversal =
      λ m. if ltb i (entry_count l) then panicked else recur (drop (i - entry_count l) before) m in
    and_then
      (if not (is_group_id l)
        then counted (count_entry l n)
        else for_times (load_times l) group_body n)
      (layouts recur (before ++ l ∷ []) rest)

unfoldable pub traversal_layout : ℕ → List Layout → TcsNum → Traversal
unfolding layouts
traversal_layout zero table n = exhausted
traversal_layout (suc fuel) table n = layouts (traversal_layout fuel) [] table n

abbrev pub no_tcs : TcsNum
no_tcs = record { static_num = 0; eremove_num = 0; dyn_num = 0 }

-- `layout_table` and `layout_entry_num` are those of the global data. Every slice that is traversed is
-- shorter than the table it comes from.
unfoldable pub rsgx_get_tcs_num : List Layout → ℕ → Traversal
unfolding traversal_layout
rsgx_get_tcs_num layout_table layout_entry_num =
    if ltb (length layout_table) layout_entry_num
    then panicked
    else traversal_layout (suc layout_entry_num) (take layout_entry_num layout_table) no_tcs
