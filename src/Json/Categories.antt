-- ===== src/Json/Categories.antt =====
-- What simplify_category of cJSON/manipulate_list.c writes: a member for every category of games
-- and of apps.
mod Tests
use clpsz_demos.Base.{
  ℕ, zero, suc, ◌+◌, ◌≡◌, ◌≢◌, refl, ap, sym, ◌∙◌, Option, none, some, List, [], ◌∷◌, ◌++◌, Bytes,
  Bool, true, false, if◌then◌else◌, codes, length, arith, Bool-cases, inl, inr,
}
use clpsz_demos.Json.{CJson, Laws}
use clpsz_demos.Json.Lists.{
  returned, get_item, get_at, copy_of, put_member, take_tag, tag_for, categorize,
  simplify_categories, simplify_category, game_utf8, app_utf8, simple_cat_file,
}
use clpsz_demos.Json.Names.{same_name, lower}
use clpsz_demos.Json.Project.{Copies}
use clpsz_demos.Json.Titles.{is_prefix, Kind, game, app, other, kind_of, starts_with-is_prefix}
use clpsz_demos.Json.Unquote.{NoZero, quoted, print_unquote_string-quoted}
use clpsz_demos.Json.Wrap.{
  System, Files, print_unquote_string, get_json_from_file, write_json_to_file,
}
use clpsz_demos.Json.Members.{
  first_or, only, first_or-only, first_or-none, Holds, Holds-same, add_game, add_app,
}

abbrev pub is_kind : (k l : Kind) → Bool
is_kind game game = true
is_kind app app = true
is_kind other other = true
is_kind k l = false

-- Of titles and tags, the first tag with a title of a kind.
unfoldable pub first_of {ℓ} : {A : Type ℓ} → Kind → List (Bytes × A) → Option A
first_of k [] = none
first_of k ((title, tag) ∷ rest) =
    let later = first_of k rest in if is_kind k (kind_of title) then some tag else later

module _ (J : CJson) where
  -- The object with a tag added for a category of a kind.
  abbrev pub add_for : Kind → (o tag : J.Value) → J.Value
  add_for game o tag = J.add_to_object o (codes "game") tag
  add_for app o tag = J.add_to_object o (codes "app") tag
  add_for other o tag = o

  -- The object with a tag for each category, in their order.
  unfoldable pub members_onto : (o : J.Value) → List (Bytes × J.Value) → J.Value
  members_onto o [] = o
  members_onto o ((title, tag) ∷ cats) = members_onto (add_for (kind_of title) o tag) cats

  pub record Tagged (ori tag : J.Value) : Type 0 where
    pub tags : J.Value
    pub has_tags : J.object_item ori (codes "tags") ≡ some tags
    pub has_tag : J.array_item tags 0 ≡ some tag

module _ (J : CJson) (sys : System) where
  -- A category with a title, which cJSON prints between quotes.
  pub record Titled (ori : J.Value) (t : Bytes) : Type 0 where
    pub title : J.Value
    pub has_title : J.object_item ori (codes "title") ≡ some title
    pub is_text : J.is_string title ≡ true
    pub printed : J.print_unformatted title ≡ some (quoted t)
    pub clean : NoZero t
    pub room : sys.room (suc (length t)) ≡ true

  -- The elements of a list from place `i` on, with the titles and the tags of those that are of a
  -- kind; the others need no tags.
  pub data Categories (root : J.Value) : (i left : ℕ) → List (Bytes × J.Value) → Type 0 where
    done : {i : ℕ} → Categories root i zero []
    passed :
        {i left : ℕ} {cats : List (Bytes × J.Value)} (ori : J.Value) (t : Bytes)
        → J.array_item root i ≡ some ori
        → Titled ori t
        → kind_of t ≡ other
        → Categories root (i + 1) left cats
        → Categories root i (suc left) cats
    next :
        {i left : ℕ} {cats : List (Bytes × J.Value)} (ori tag : J.Value) (t : Bytes)
        → J.array_item root i ≡ some ori
        → Titled ori t
        → Tagged J ori tag
        → Categories root (i + 1) left cats
        → Categories root i (suc left) ((t, tag) ∷ cats)

module _ (J : CJson) (laws : Laws J) (sys : System) (copies : Copies J) where
  -- The two comparisons with a title.
  categorize_lem :
      (ori : J.Value) (t : Bytes) (o : J.Value)
      → categorize J sys (some ori) (some o) (some (t ++ 0 ∷ []))
        ≡ tag_for J sys (some ori) (some o) (is_prefix game_utf8 t) (is_prefix app_utf8 t)
  unfolding categorize
  categorize_lem ori t o = rw (
    starts_with-is_prefix t game_utf8 (omega arith),
    starts_with-is_prefix t app_utf8 (omega arith),
  )

  take_tag_lem :
      (ori tag o : J.Value) (name : Bytes)
      → Tagged J ori tag
      → take_tag J sys (some ori) (some o) name ≡ some (some (J.add_to_object o name tag))
  unfolding take_tag get_item get_at copy_of put_member
  take_tag_lem ori tag o name h = rw (h.has_tags, h.has_tag, copies tag)

  -- One category, whatever its title begins with.
  pub categorize-Holds :
      (ori tag o : J.Value) (t : Bytes) (g a : Option J.Value)
      → Tagged J ori tag
      → Holds J o g a
      → (categorize J sys (some ori) (some o) (some (t ++ 0 ∷ []))
          ≡ some (some (add_for J (kind_of t) o tag)))
        × Holds J
            (add_for J (kind_of t) o tag)
            (first_or g (only (is_kind game (kind_of t)) tag))
            (first_or a (only (is_kind app (kind_of t)) tag))
  unfolding tag_for
  categorize-Holds ori tag o t g a tagged h = elim (Bool-cases (is_prefix game_utf8 t)) [
    | inl of_game ↦ (
      categorize_lem ori t o ∙ rw of_game (take_tag_lem ori tag o (codes "game") tagged),
      rw of_game (Holds-same J refl (sym (first_or-none a)) (add_game J laws o tag g a h)),
    )
    | inr not_game ↦ elim (Bool-cases (is_prefix app_utf8 t)) [
      | inl of_app ↦ (
        categorize_lem ori t o
            ∙ rw (not_game, of_app) (take_tag_lem ori tag o (codes "app") tagged),
        rw (not_game, of_app)
            (Holds-same J (sym (first_or-none g)) refl (add_app J laws o tag g a h)),
      )
      | inr not_app ↦ (
        categorize_lem ori t o ∙ rw (not_game, not_app) refl,
        rw (not_game, not_app) (Holds-same J (sym (first_or-none g)) (sym (first_or-none a)) h),
      )
    ]
  ]

  -- A category of neither kind.
  categorize-passed :
      (ori o : J.Value) (t : Bytes)
      → kind_of t ≡ other
      → categorize J sys (some ori) (some o) (some (t ++ 0 ∷ [])) ≡ some (some o)
  unfolding tag_for
  categorize-passed ori o t is = elim (Bool-cases (is_prefix game_utf8 t)) [
    | inl of_game ↦ let e : ◌≡◌ {A = Kind} game other = rw of_game at is in absurd cc
    | inr not_game ↦ elim (Bool-cases (is_prefix app_utf8 t)) [
      | inl of_app ↦ let e : ◌≡◌ {A = Kind} app other = rw (not_game, of_app) at is in absurd cc
      | inr not_app ↦ categorize_lem ori t o ∙ rw (not_game, not_app) refl
    ]
  ]

  title_text :
      (ori : J.Value) (t : Bytes) (h : Titled J sys ori t)
      → (get_item J (some ori) (codes "title") ≡ some (some h.title))
        × (print_unquote_string J sys (some h.title) ≡ some (some (t ++ 0 ∷ [])))
  unfolding get_item
  title_text ori t h = (
    rw h.has_title,
    print_unquote_string-quoted J sys h.title t h.is_text h.printed h.clean h.room,
  )

  simplify_categories-Holds :
      (root : J.Value) (i left : ℕ) (cats : List (Bytes × J.Value)) (o : J.Value)
      → (g a : Option J.Value) → Categories J sys root i left cats
      → Holds J o g a
      → (simplify_categories J sys root i left (some o) ≡ some (some (members_onto J o cats)))
        × Holds J
            (members_onto J o cats)
            (first_or g (first_of game cats))
            (first_or a (first_of app cats))
  unfolding simplify_categories first_of members_onto
  simplify_categories-Holds root i zero [] o g a done h =
      (refl, Holds-same J (sym (first_or-none g)) (sym (first_or-none a)) h)
  simplify_categories-Holds root i zero (_ ∷ cats) o g a none_left h = elim none_left [ ]
  simplify_categories-Holds root i (suc left) cats o g a (passed ori t at titled is more) h =
      let (item, text) = title_text ori t titled in
      let (runs, holds) = simplify_categories-Holds root (i + 1) left cats o g a more h in
      (rw (at, item, text, categorize-passed ori o t is, runs), holds)
  simplify_categories-Holds root i (suc left) (_ ∷ cats) o g a
        (next ori tag t at titled tagged more) h =
      let (item, text) = title_text ori t titled in
      let (one, held) = categorize-Holds ori tag o t g a tagged h in
      let (runs, holds) =
        simplify_categories-Holds root (i + 1) left cats (add_for J (kind_of t) o tag) _ _ more
          held in
      (
        rw (at, item, text, one, runs),
        Holds-same J (first_or-only g (is_kind game (kind_of t)) tag (first_of game cats))
            (first_or-only a (is_kind app (kind_of t)) tag (first_of app cats)) holds,
      )

  simplify_category_lem :
      (filename : Bytes) (files : Files) (outer root o r : J.Value)
      → get_json_from_file J sys files filename ≡ some outer
      → J.object_item outer (codes "list") ≡ some root
      → J.create_object ≡ some o
      → simplify_categories J sys root 0 (J.size root) (some o) ≡ some (some r)
      → simplify_category J sys filename files
        ≡ some (returned 0, write_json_to_file J sys (some r) simple_cat_file files)
  unfolding simplify_category
  simplify_category_lem filename files outer root o r read listed created runs =
      let built = ap (simplify_categories J sys root 0 (J.size root)) created ∙ runs in
      rw (read, simplify_category, listed, built)

  -- When memory suffices, simplify_category writes the object to which, in the order of the list,
  -- a member was added for every category whose title begins with the word for games or for apps:
  -- its first tag, under the name "game" or "app", so that a name may come several times. Looking
  -- up "game" or "app" in it gives the tag of the first such category, if there is one, and
  -- looking up any other name gives nothing.
  pub simplify_category-Holds :
      (filename : Bytes) (files : Files) (outer root o : J.Value) (cats : List (Bytes × J.Value))
      → get_json_from_file J sys files filename ≡ some outer
      → J.object_item outer (codes "list") ≡ some root
      → J.create_object ≡ some o
      → Categories J sys root 0 (J.size root) cats
      → (simplify_category J sys filename files
          ≡ some (
            returned 0,
            write_json_to_file J sys (some (members_onto J o cats)) simple_cat_file files,
          ))
        × Holds J (members_onto J o cats) (first_of game cats) (first_of app cats)
  unfolding simplify_category
  simplify_category-Holds filename files outer root o cats read listed created all =
      let empty : Holds J o none none = record {
        game_item = laws.object_item-create_object o (codes "game") created;
        app_item = laws.object_item-create_object o (codes "app") created;
        no_other = λ l ng na. laws.object_item-create_object o l created;
      } in
      let (runs, holds) =
        simplify_categories-Holds root 0 (J.size root) cats o none none all empty in
      (
        simplify_category_lem filename files outer root o (members_onto J o cats) read listed
            created runs,
        holds,
      )
