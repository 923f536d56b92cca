-- ===== src/Json/Categories/Tests.antt =====
-- A list of four categories: one of neither kind, without tags, one of apps and two of games.
use clpsz_demos.Base.{◌≡◌, refl, some, List, [], ◌∷◌, ◌++◌, Bytes, true, codes, arith}
use clpsz_demos.Json.Categories.{
  members_onto, Titled, Tagged, Categories, done, passed, next, first_of, simplify_category-Holds,
}
use clpsz_demos.Json.Lists.{returned, simplify_category, simple_cat_file, game_utf8, app_utf8}
use clpsz_demos.Json.Members.{Holds}
use clpsz_demos.Json.Sample.{
  Tree, string, no_items, no_members, item, member, sample, sample-Laws, size, array_item,
  object_item,
}
use clpsz_demos.Json.Unquote.{NoZero}
use clpsz_demos.Json.Names.{same_name, lower}
use clpsz_demos.Json.Wrap.{System, Files, write_json_to_file, get_json_from_file, get_str_from_file}

abbrev roomy : System
roomy = record { room = λ n. true; stale = 0; writable = λ name. true }

abbrev files : Files
files name = some (codes "{...}")

abbrev bare : Bytes → Tree
bare title = member no_members (codes "title") (string title)

abbrev category : (title tag : Bytes) → Tree
category title tag = member (bare title) (codes "tags") (item no_items (string tag))

abbrev categories : Tree
categories =
    item
      (item (item (item no_items (bare (codes "news"))) (category app_utf8 (codes "tools")))
        (category (game_utf8 ++ codes "!") (codes "chess")))
      (category game_utf8 (codes "cards"))

abbrev outer : Tree
outer = member no_members (codes "list") categories

Titled-bare : (t : Bytes) → NoZero t → Titled (sample outer) roomy (bare t) t
unfolding object_item same_name lower
Titled-bare t clean = record {
  title = string t;
  has_title = refl;
  is_text = refl;
  printed = refl;
  clean = clean;
  room = refl;
}

titled : (t tag : Bytes) → NoZero t → Titled (sample outer) roomy (category t tag) t
unfolding object_item same_name lower
titled t tag clean = record {
  title = string t;
  has_title = refl;
  is_text = refl;
  printed = refl;
  clean = clean;
  room = refl;
}

tagged : (t tag : Bytes) → Tagged (sample outer) (category t tag) (string tag)
unfolding object_item array_item size same_name lower
tagged t tag = record { tags = item no_items (string tag); has_tags = refl; has_tag = refl }

abbrev kinds : List (Bytes × Tree)
kinds =
    (app_utf8, string (codes "tools"))
    ∷ (game_utf8 ++ codes "!", string (codes "chess"))
    ∷ (game_utf8, string (codes "cards"))
    ∷ []

all : Categories (sample outer) roomy categories 0 4 kinds
unfolding array_item size
all =
    passed (bare (codes "news")) (codes "news") refl (Titled-bare (codes "news") (omega arith)) refl
      (next (category app_utf8 (codes "tools")) (string (codes "tools")) app_utf8 refl
        (titled app_utf8 (codes "tools") (omega arith)) (tagged app_utf8 (codes "tools"))
        (next (category (game_utf8 ++ codes "!") (codes "chess")) (string (codes "chess"))
          (game_utf8 ++ codes "!") refl
          (titled (game_utf8 ++ codes "!") (codes "chess") (omega arith))
          (tagged (game_utf8 ++ codes "!") (codes "chess"))
          (next (category game_utf8 (codes "cards")) (string (codes "cards")) game_utf8 refl
            (titled game_utf8 (codes "cards") (omega arith)) (tagged game_utf8 (codes "cards"))
            done)))

simplify_category-Holds_example :
    (simplify_category (sample outer) roomy (codes "f") files
      ≡ some (
        returned 0,
        write_json_to_file
            (sample outer)
            roomy
            (some (members_onto (sample outer) no_members kinds))
            simple_cat_file
            files,
      ))
    × Holds
        (sample outer)
        (members_onto (sample outer) no_members kinds)
        (some (string (codes "chess")))
        (some (string (codes "tools")))
unfolding size object_item same_name lower get_json_from_file get_str_from_file first_of
simplify_category-Holds_example =
    simplify_category-Holds (sample outer) (sample-Laws outer) roomy (λ v. refl) (codes "f") files
      outer categories no_members kinds refl refl refl all
