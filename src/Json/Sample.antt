-- ===== src/Json/Sample.antt =====
-- A small cJSON: values that are strings, arrays and objects, built at their ends.
use clpsz_demos.Base.{
  ℕ, suc, ◌<◌, ◌≡◌, refl, ap, Option, none, some, [], ◌∷◌, ◌++◌, Bytes, Bool, true, false, ◌==◌,
  if◌then◌else◌, arith, codes, ≢→==, ≡→==, sym, Option-cases, inl, inr, ◌⊎◌,
}
use clpsz_demos.Json.{CJson, Laws}
use clpsz_demos.Json.Names.{same_name}

pub data Tree : Type 0 where
  string : Bytes → Tree
  no_items no_members : Tree
  item : (before last : Tree) → Tree
  member : (before : Tree) (name : Bytes) (last : Tree) → Tree

abbrev pub is_string : Tree → Bool
is_string (string s) = true
is_string t = false

unfoldable pub size : Tree → ℕ
size (item before last) = suc (size before)
size t = 0

unfoldable pub array_item : Tree → ℕ → Option Tree
array_item (item before last) i =
    let earlier = array_item before i in if i == size before then some last else earlier
array_item t i = none

-- The first member of a name counts.
unfoldable pub object_item : Tree → Bytes → Option Tree
object_item (member before name last) l = elim (object_item before l) [
  | some v ↦ some v
  | none ↦ if same_name name l then some last else none
]
object_item t l = none

abbrev pub quoted_text : Tree → Option Bytes
quoted_text (string s) = some (b'"' ∷ (s ++ (b'"' ∷ [])))
quoted_text t = some (codes "...")

-- A parser of one file: whatever the block holds, it is the given tree.
abbrev pub sample : Tree → CJson
sample file = record {
  Value = Tree;
  parse = λ block. some file;
  print = quoted_text;
  print_unformatted = quoted_text;
  is_string = is_string;
  size = size;
  array_item = array_item;
  object_item = object_item;
  create_array = some no_items;
  create_object = some no_members;
  duplicate = some;
  add_to_array = item;
  add_to_object = member;
}

compare_last : (i n : ℕ) → i < suc n → (i ≡ n) ⊎ (i < n)
compare_last i n h = omega arith

array_item-below : (a : Tree) (i : ℕ) → i < size a → (v : Tree) × (array_item a i ≡ some v)
unfolding size array_item
array_item-below (string s) i h = absurd (omega arith)
array_item-below no_items i h = absurd (omega arith)
array_item-below no_members i h = absurd (omega arith)
array_item-below (member b n l) i h = absurd (omega arith)
array_item-below (item before last) i h = elim (compare_last i (size before) h) [
  | inl e ↦ (last, rw (≡→== i (size before) e))
  | inr below ↦
      let (v, at) = array_item-below before i below in
      (v, rw (≢→== i (size before) (λ e. absurd (omega arith)), at))
]

same_name-same : (k : Bytes) → same_name k k ≡ true
unfolding same_name
same_name-same [] = refl
same_name-same (x ∷ xs) = rw (same_name-same xs, ≡→== _ _ refl)

created_size : (a : Tree) → some no_items ≡ some a → size a ≡ 0
unfolding size
created_size a e = ap (λ (o : Option Tree). elim o [ none ↦ 0 | some t ↦ size t ]) (sym e)

created_item : (o : Tree) (k : Bytes) → some no_members ≡ some o → object_item o k ≡ none
unfolding object_item
created_item o k e =
    ap (λ (o : Option Tree). elim o [ none ↦ object_item no_members k | some t ↦ object_item t k ])
      (sym e)

other_member :
    (o v : Tree) (k l : Bytes)
    → same_name k l ≡ false
    → object_item (member o k v) l ≡ object_item o l
unfolding object_item
other_member o v k l h = elim (Option-cases (object_item o l)) [
  | inl missing ↦ rw (object_item, missing, h)
  | inr (w, found) ↦ rw (object_item, found)
]

pub sample-Laws : (file : Tree) → Laws (sample file)
unfolding size array_item object_item
sample-Laws file = record {
  size-create_array = λ a e. created_size a e;
  object_item-create_object = created_item;
  array_item-below = array_item-below;
  size-add_to_array = λ a v. refl;
  array_item-last = λ a v. rw (≡→== (size a) (size a) refl);
  array_item-other = λ a v i h. rw (≢→== i (size a) (λ e. absurd (omega arith)));
  object_item-new = λ o v k h. rw (h, same_name-same k);
  object_item-first = λ o v w k h. rw h;
  object_item-other = other_member;
  duplicate-same = λ v w e. cc;
}
