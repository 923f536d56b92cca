-- ===== src/Json/Lists.antt =====
-- cJSON/manipulate_list.c: the lists of resources and categories cut down to what the client
-- needs, and the commands that link the packages.
use clpsz_demos.Base.{
  ℕ, zero, suc, ◌+◌, Option, none, some, [], ◌∷◌, Bytes, Bool, true, false, codes,
}
use clpsz_demos.Base.Maybe.{◌>>=◌}
use clpsz_demos.Json.{CJson}
use clpsz_demos.Json.Text.{starts_with}
use clpsz_demos.Json.Wrap.{
  System, Files, print_unquote_string, get_json_from_file, write_json_to_file,
}

-- The files of common.h.
abbrev pub res_list_file : Bytes
res_list_file = codes "./flashbot.resource"

abbrev pub res_category_file : Bytes
res_category_file = codes "./flashbot.list"

abbrev pub simple_res_file : Bytes
simple_res_file = codes "./flashbot.res_simple"

abbrev pub simple_cat_file : Bytes
simple_cat_file = codes "./flashbot.list_simple"

-- APP_UTF8 and GAME_UTF8.
abbrev pub app_utf8 : Bytes
app_utf8 = 0xe5 ∷ 0xba ∷ 0x94 ∷ 0xe7 ∷ 0x94 ∷ 0xa8 ∷ []

abbrev pub game_utf8 : Bytes
game_utf8 = 0xe6 ∷ 0xb8 ∷ 0xb8 ∷ 0xe6 ∷ 0x88 ∷ 0x8f ∷ []

-- What a function returns, or that it ended the process.
pub data Ended : Type 0 where
  returned : ℕ → Ended
  -- -1
  failed : Ended
  exited : Ended

module _ (J : CJson) where
  -- The cJSON calls on pointers: a look-up or an insertion at NULL is undefined, an item that
  -- is NULL is not inserted, and a copy of NULL is NULL.
  unfoldable pub get_item : Option J.Value → Bytes → Option (Option J.Value)
  get_item none name = none
  get_item (some o) name = some (J.object_item o name)

  unfoldable pub get_at : Option J.Value → ℕ → Option (Option J.Value)
  get_at none i = none
  get_at (some a) i = some (J.array_item a i)

  unfoldable pub copy_of : Option J.Value → Option J.Value
  copy_of none = none
  copy_of (some v) = J.duplicate v

  unfoldable pub put_member : Option J.Value → Bytes → Option J.Value → Option (Option J.Value)
  put_member o name none = some o
  put_member none name (some v) = none
  put_member (some o) name (some v) = some (some (J.add_to_object o name v))

  unfoldable pub put_at_end : Option J.Value → Option J.Value → Option (Option J.Value)
  put_at_end none v = none
  put_at_end (some a) none = some (some a)
  put_at_end (some a) (some v) = some (some (J.add_to_array a v))

  -- tmp = cJSON_GetObjectItem(ori_item, name), and its copy under the same name.
  unfoldable pub copy_member :
      (ori_item new_item : Option J.Value) (name : Bytes) → Option (Option J.Value)
  copy_member ori_item new_item name = do
    tmp ← get_item ori_item name
    put_member new_item name (copy_of tmp)

  -- One turn of the loop of simplify_reslist.
  unfoldable pub simplify_item : Option J.Value → Option (Option J.Value)
  simplify_item ori_item = do
    with_type ← copy_member ori_item J.create_object (codes "type")
    with_size ← copy_member ori_item with_type (codes "size")
    with_title ← copy_member ori_item with_size (codes "title")
    with_id ← copy_member ori_item with_title (codes "resourceId")
    with_description ← copy_member ori_item with_id (codes "description")
    copy_member ori_item with_description (codes "tags")

  unfoldable pub simplify_items :
      (root : J.Value) (i left : ℕ) (root_simple : Option J.Value) → Option (Option J.Value)
  simplify_items root i zero root_simple = some root_simple
  simplify_items root i (suc left) root_simple = do
    new_item ← simplify_item (J.array_item root i)
    longer ← put_at_end root_simple new_item
    simplify_items root (i + 1) left longer

  -- `for (i = 0; i < 100; i++)` of mk_fake_list.
  unfoldable pub repeat_item :
      (item : Option J.Value) (left : ℕ) → Option J.Value → Option (Option J.Value)
  repeat_item item zero fake_array = some fake_array
  repeat_item item (suc left) fake_array = do
    longer ← put_at_end fake_array (copy_of item)
    repeat_item item left longer

module _ (J : CJson) (sys : System) where
  unfoldable pub mk_fake_list : Files → Option (Ended × Files)
  mk_fake_list files = do
    item ← get_at J (get_json_from_file J sys files res_list_file) 0
    fake_array ← repeat_item J item 100 J.create_array
    some (returned 0, write_json_to_file J sys fake_array (codes "fake_resource_100.json") files)

  unfoldable pub simplify_reslist : (filename : Bytes) → Files → Option (Ended × Files)
  simplify_reslist filename files = elim (get_json_from_file J sys files filename) [
    | none ↦ some (failed, files)
    | some root ↦ do
      root_simple ← simplify_items J root 0 (J.size root) J.create_array
      some (returned 0, write_json_to_file J sys root_simple simple_res_file files)
  ]

  -- The first tag of a category, as a member of the result.
  unfoldable pub take_tag :
      (ori_item root_simple : Option J.Value) (name : Bytes) → Option (Option J.Value)
  take_tag ori_item root_simple name = do
    tags ← get_item J ori_item (codes "tags")
    tag ← get_at J tags 0
    put_member J root_simple name (copy_of J tag)

  unfoldable pub tag_for :
      (ori_item root_simple : Option J.Value) (is_game is_app : Bool) → Option (Option J.Value)
  tag_for ori_item root_simple true is_app = take_tag ori_item root_simple (codes "game")
  tag_for ori_item root_simple false true = take_tag ori_item root_simple (codes "app")
  tag_for ori_item root_simple false false = some root_simple

  -- strncmp of a NULL title is undefined.
  unfoldable pub categorize :
      (ori_item root_simple : Option J.Value) (str : Option Bytes) → Option (Option J.Value)
  categorize ori_item root_simple none = none
  categorize ori_item root_simple (some str) = do
    is_game ← starts_with str game_utf8
    is_app ← starts_with str app_utf8
    tag_for ori_item root_simple is_game is_app

  unfoldable pub simplify_categories :
      (root : J.Value) (i left : ℕ) (root_simple : Option J.Value) → Option (Option J.Value)
  simplify_categories root i zero root_simple = some root_simple
  simplify_categories root i (suc left) root_simple = do
    let ori_item = J.array_item root i
    title ← get_item J ori_item (codes "title")
    str ← print_unquote_string J sys title
    next ← categorize ori_item root_simple str
    simplify_categories root (i + 1) left next

  unfoldable pub simplify_category : (filename : Bytes) → Files → Option (Ended × Files)
  simplify_category filename files = elim (get_json_from_file J sys files filename) [
    | none ↦ some (failed, files)
    | some outer ↦ elim (J.object_item outer (codes "list")) [
      | none ↦ some (failed, files)
      | some root ↦ do
        root_simple ← simplify_categories root 0 (J.size root) J.create_object
        some (returned 0, write_json_to_file J sys root_simple simple_cat_file files)
    ]
  ]

  -- main: the three calls; their results are not looked at.
  unfoldable pub main : Files → Option Files
  main files = do
    faked ← mk_fake_list files
    resources ← simplify_reslist res_list_file (faked.1)
    categories ← simplify_category res_category_file (resources.1)
    some (categories.1)
