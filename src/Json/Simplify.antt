-- ===== src/Json/Simplify.antt =====
-- The whole list that simplify_reslist of cJSON/manipulate_list.c writes.
use clpsz_demos.Base.{
  ℕ, zero, suc, ◌+◌, ◌<◌, ◌≡◌, refl, sym, ap, ◌∙◌, some, Bytes, arith, inl, inr, ◌⊎◌,
}
use clpsz_demos.Json.{CJson, Laws}
use clpsz_demos.Json.Lists.{returned, simplify_items, simplify_reslist, put_at_end, simple_res_file}
use clpsz_demos.Json.Project.{Copies, Selected, kept, simplify_item-Selected}
use clpsz_demos.Json.Wrap.{System, Files, get_json_from_file, write_json_to_file}

last_or_before : (i n : ℕ) → i < suc n → (i ≡ n) ⊎ (i < n)
last_or_before i n small = omega arith

module _ (J : CJson) where
  -- The element `i` of the result is the selection of the element `i` of the list.
  pub record SelectedAt (root result : J.Value) (i : ℕ) : Type 0 where
    pub ori : J.Value
    pub new : J.Value
    pub in_root : J.array_item root i ≡ some ori
    pub in_result : J.array_item result i ≡ some new
    pub selected : Selected J ori new kept

  abbrev pub SelectedBelow : (root result : J.Value) → ℕ → Type 0
  SelectedBelow root result n = (i : ℕ) → i < n → SelectedAt root result i

module _ (J : CJson) (laws : Laws J) (copies : Copies J) (root o : J.Value)
    (created : J.create_object ≡ some o) where
  one_more :
      (acc ori new : J.Value)
      → J.array_item root (J.size acc) ≡ some ori
      → Selected J ori new kept
      → SelectedBelow J root acc (J.size acc)
      → SelectedBelow J root (J.add_to_array acc new) (suc (J.size acc))
  one_more acc ori new at sel below i small = elim (last_or_before i (J.size acc) small) [
    | inl last ↦ record {
      ori = ori;
      new = new;
      in_root = ap (J.array_item root) last ∙ at;
      in_result = ap (J.array_item (J.add_to_array acc new)) last ∙ laws.array_item-last acc new;
      selected = sel;
    }
    | inr before ↦ record {
      ori = (below i before).ori;
      new = (below i before).new;
      in_root = (below i before).in_root;
      in_result = laws.array_item-other acc new i before ∙ (below i before).in_result;
      selected = (below i before).selected;
    }
  ]

  simplify_items-Selected :
      (left : ℕ) (acc : J.Value)
      → J.size acc + left ≡ J.size root
      → SelectedBelow J root acc (J.size acc)
      → (result : J.Value) × (simplify_items J root (J.size acc) left (some acc)
          ≡ some (some result))
        × (J.size result ≡ J.size root)
        × SelectedBelow J root result (J.size root)
  unfolding simplify_items put_at_end
  simplify_items-Selected zero acc sum below =
      let whole : J.size acc ≡ J.size root = omega arith in (acc, refl, whole, rw (sym whole) below)
  simplify_items-Selected (suc left) acc sum below =
      let (ori, at) = laws.array_item-below root (J.size acc) (omega arith) in
      let (new, made, sel) = simplify_item-Selected J laws copies ori o created in
      let longer = J.add_to_array acc new in
      let grown : J.size longer ≡ suc (J.size acc) = laws.size-add_to_array acc new in
      let (result, runs, whole, all) =
        simplify_items-Selected left longer (omega arith)
          (rw grown (one_more acc ori new at sel below)) in
      let next : J.size longer ≡ J.size acc + 1 = omega arith in
      (result, rw (at, made, sym next, runs), whole, all)

simplify_reslist_lem :
    (J : CJson) (sys : System) (filename : Bytes) (files : Files) (root a result : J.Value)
    → get_json_from_file J sys files filename ≡ some root
    → J.create_array ≡ some a
    → simplify_items J root 0 (J.size root) (some a) ≡ some (some result)
    → simplify_reslist J sys filename files
      ≡ some (returned 0, write_json_to_file J sys (some result) simple_res_file files)
unfolding simplify_reslist
simplify_reslist_lem J sys filename files root a result read array runs =
    let built = ap (simplify_items J root 0 (J.size root)) array ∙ runs in
    rw (read, simplify_reslist, built)

-- For a file with a JSON array, simplify_reslist writes an array of the same length, and each of
-- its objects has exactly the six members of the resource at the same place; memory must
-- suffice.
pub simplify_reslist-Selected :
    (J : CJson) (laws : Laws J) (sys : System) (copies : Copies J) (filename : Bytes)
    (files : Files) (root o a : J.Value)
    → get_json_from_file J sys files filename ≡ some root
    → J.create_object ≡ some o
    → J.create_array ≡ some a
    → (result : J.Value) × (simplify_reslist J sys filename files
        ≡ some (returned 0, write_json_to_file J sys (some result) simple_res_file files))
      × (J.size result ≡ J.size root)
      × SelectedBelow J root result (J.size root)
simplify_reslist-Selected J laws sys copies filename files root o a read created array =
    let empty : J.size a ≡ 0 = laws.size-create_array a array in
    let (result, runs, whole, all) =
      simplify_items-Selected J laws copies root o created (J.size root) a (omega arith)
        (λ i small. absurd (omega arith)) in
    let from_zero = ap (λ n. simplify_items J root n (J.size root) (some a)) (sym empty) ∙ runs in
    (
      result,
      simplify_reslist_lem J sys filename files root a result read array from_zero,
      whole,
      all,
    )
