-- ===== src/Json/Links.antt =====
-- make_new_map of cJSON/manipulate_list.c: the shell commands that link the packages.
use clpsz_demos.Base.{
  ℕ, zero, suc, ◌+◌, Option, none, some, List, [], ◌∷◌, ◌++◌, Bytes, Bool, true, false, codes,
}
use clpsz_demos.Base.Maybe.{◌>>=◌}
use clpsz_demos.Json.{CJson}
use clpsz_demos.Json.Text.{starts_with, text_of, sprintf_256}
use clpsz_demos.Json.Wrap.{System, Files, print_unquote_string, get_json_from_file}
use clpsz_demos.Json.Lists.{Ended, returned, exited, get_item}

-- sprintf into cmd_buf, and system.
unfoldable pub run : (text : Bytes) → List Bytes → Option (List Bytes)
run text done = do cmd_buf ← sprintf_256 text; some (done ++ (cmd_buf ∷ []))

unfoldable pub prepare_dirs :
    (ios_target_dir and_target_dir : Bytes) → List Bytes → Option (List Bytes)
prepare_dirs ios_target_dir and_target_dir done0 = do
  done1 ← run (codes "mkdir -p " ++ ios_target_dir) done0
  done2 ← run (codes "mkdir -p " ++ and_target_dir) done1
  done3 ← run (codes "rm -f " ++ ios_target_dir ++ codes "*") done2
  run (codes "rm -f " ++ and_target_dir ++ codes "*") done3

-- "ln -sf %s%s %s%s.apk" and "ln -sf %s%s.icon %s%s.icon".
unfoldable pub link : (storage_dir target_dir res_id extension : Bytes) → Bytes
link storage_dir target_dir res_id extension =
    codes "ln -sf " ++ storage_dir ++ res_id ++ codes " " ++ target_dir ++ res_id ++ extension

unfoldable pub link_icon : (storage_dir target_dir res_id : Bytes) → Bytes
link_icon storage_dir target_dir res_id =
    codes "ln -sf "
    ++ storage_dir
    ++ res_id
    ++ codes ".icon "
    ++ target_dir
    ++ res_id
    ++ codes ".icon"

unfoldable pub link_both :
    (storage_dir target_dir res_id extension : Bytes) → List Bytes → Option (List Bytes)
link_both storage_dir target_dir res_id extension done0 = do
  done1 ← run (link storage_dir target_dir res_id extension) done0
  run (link_icon storage_dir target_dir res_id) done1

-- The arguments of make_new_map.
pub record Dirs : Type 0 where
  pub storage_dir : Bytes
  pub ios_target_dir : Bytes
  pub and_target_dir : Bytes

unfoldable pub link_for :
    (dirs : Dirs) (res_id : Bytes) (is_apk is_ipa : Bool) → List Bytes → Option (List Bytes)
link_for dirs res_id true is_ipa done =
    link_both dirs.storage_dir dirs.and_target_dir res_id (codes ".apk") done
link_for dirs res_id false true done =
    link_both dirs.storage_dir dirs.ios_target_dir res_id (codes ".ipa") done
link_for dirs res_id false false done = some done

-- "%s" of NULL is undefined.
unfoldable pub missing_id : (is_apk is_ipa : Bool) → List Bytes → Option (List Bytes)
missing_id true is_ipa done = none
missing_id false true done = none
missing_id false false done = some done

-- The two strings of an item; "%s" of a NULL res_id is only reached for the two known types.
unfoldable pub link_item :
    (dirs : Dirs) (res_id res_type : Option Bytes) → List Bytes → Option (List Bytes)
link_item dirs res_id none done = none
link_item dirs none (some res_type) done = do
  is_apk ← starts_with res_type (codes "apk")
  is_ipa ← starts_with res_type (codes "ipa")
  missing_id is_apk is_ipa done
link_item dirs (some res_id) (some res_type) done = do
  is_apk ← starts_with res_type (codes "apk")
  is_ipa ← starts_with res_type (codes "ipa")
  id_text ← text_of res_id
  link_for dirs id_text is_apk is_ipa done

module _ (J : CJson) (sys : System) (dirs : Dirs) where
  unfoldable pub link_items : (root : J.Value) (i left : ℕ) → List Bytes → Option (List Bytes)
  link_items root i zero done = some done
  link_items root i (suc left) done = do
    let item = J.array_item root i
    id_member ← get_item J item (codes "resourceId")
    res_id ← print_unquote_string J sys id_member
    type_member ← get_item J item (codes "type")
    res_type ← print_unquote_string J sys type_member
    more ← link_item dirs res_id res_type done
    link_items root (i + 1) left more

  -- The commands run, and how the function ends. The file is read before the commands run.
  unfoldable pub make_new_map : (list_file : Bytes) → Files → Option (Ended × List Bytes)
  make_new_map list_file files = do
    prepared ← prepare_dirs dirs.ios_target_dir dirs.and_target_dir []
    elim (get_json_from_file J sys files list_file) [
      | none ↦ some (exited, prepared)
      | some root ↦ do
        commands ← link_items root 0 (J.size root) prepared
        some (returned 0, commands)
    ]
