-- ===== src/Json/Tests.antt =====
-- Runs of the list tools on a file with three resources, and the theorems applied to them.
use clpsz_demos.Base.{◌≡◌, refl, some, List, [], ◌∷◌, ◌++◌, Bytes, true, codes, arith}
use clpsz_demos.Json.Commands.{
  Resource, apk, ipa, other, preparation, all_links, links, ReadAs, ReadsAt, AllFit,
  make_new_map-links,
}
use clpsz_demos.Json.Links.{Dirs, make_new_map, link, link_icon}
use clpsz_demos.Json.Lists.{
  returned, simplify_reslist, simplify_items, simplify_item, copy_member, get_item, put_member,
  copy_of, put_at_end, simple_res_file,
}
use clpsz_demos.Json.Sample.{
  Tree, string, no_items, no_members, item, member, sample, sample-Laws, size, array_item,
  object_item,
}
use clpsz_demos.Json.Simplify.{SelectedBelow, simplify_reslist-Selected}
use clpsz_demos.Json.Unquote.{print_unquote_string-quoted}
use clpsz_demos.Json.Wrap.{
  System, Files, print_unquote_string, write_json_to_file, without_quotes, get_json_from_file,
  get_str_from_file,
}
use clpsz_demos.Json.Names.{same_name, lower}
use clpsz_demos.Json.Text.{strlen, strncpy, starts_with, zeros}

abbrev roomy : System
roomy = record { room = λ n. true; stale = 0; writable = λ name. true }

abbrev resource : (id type_text : Bytes) → Tree
resource id type_text =
    member (member (member no_members (codes "Type") (string type_text)) (codes "icon") (string []))
      (codes "resourceId") (string id)

abbrev resources : Tree
resources =
    item
      (item (item no_items (resource (codes "a1") (codes "apk")))
        (resource (codes "b2") (codes "exe")))
      (resource (codes "c3") (codes "ipa"))

abbrev dirs : Dirs
dirs = record {
  storage_dir = codes "./storage/";
  ios_target_dir = codes "/tmp/iphone/download/";
  and_target_dir = codes "/tmp/andriod/download/";
}

abbrev files : Files
files name = some (codes "[...]")

simplified :
    (simplify_reslist (sample resources) roomy (codes "f") files)
    ≡ some (
      returned 0,
      write_json_to_file
          (sample resources)
          roomy
          (some (
            item
              (item
                (item no_items (
                  member
                    (member no_members (codes "type") (string (codes "apk")))
                    (codes "resourceId")
                    (string (codes "a1"))))
                (member
                  (member no_members (codes "type") (string (codes "exe")))
                  (codes "resourceId")
                  (string (codes "b2"))))
              (member
                (member no_members (codes "type") (string (codes "ipa")))
                (codes "resourceId")
                (string (codes "c3")))))
          simple_res_file
          files,
    )
unfolding simplify_reslist get_json_from_file get_str_from_file simplify_items size simplify_item
    copy_member get_item array_item put_member copy_of object_item same_name lower put_at_end
simplified = refl

print_unquote_string-quoted_example :
    print_unquote_string (sample resources) roomy (some (string (codes "apk")))
    ≡ some (some (codes "apk" ++ (0 ∷ [])))
print_unquote_string-quoted_example =
    print_unquote_string-quoted (sample resources) roomy (string (codes "apk")) (codes "apk") refl
      refl
      (
        (λ q. absurd (omega arith)),
        ((λ q. absurd (omega arith)), ((λ q. absurd (omega arith)), tt)),
      )
      refl

simplify_reslist-Selected_example :
    (result : Tree) × (simplify_reslist (sample resources) roomy (codes "f") files
      ≡ some (
        returned 0,
        write_json_to_file (sample resources) roomy (some result) simple_res_file files,
      ))
    × (size result ≡ size resources)
    × SelectedBelow (sample resources) resources result (size resources)
unfolding get_json_from_file get_str_from_file
simplify_reslist-Selected_example =
    simplify_reslist-Selected (sample resources) (sample-Laws resources) roomy (λ v. refl)
      (codes "f") files resources no_members no_items refl refl refl

abbrev first : Resource
first = record {
  id = codes "a1";
  type_text = codes "apk";
  kind = apk [];
  id_clean = ((λ q. absurd (omega arith)), ((λ q. absurd (omega arith)), tt));
}

second : Resource
unfolding starts_with
second = record {
  id = codes "b2";
  type_text = codes "exe";
  kind = other (codes "exe") refl refl;
  id_clean = ((λ q. absurd (omega arith)), ((λ q. absurd (omega arith)), tt));
}

abbrev third : Resource
third = record {
  id = codes "c3";
  type_text = codes "ipa";
  kind = ipa [];
  id_clean = ((λ q. absurd (omega arith)), ((λ q. absurd (omega arith)), tt));
}

abbrev listed : List Resource
listed = first ∷ second ∷ third ∷ []

reads_listed : ReadAs (sample resources) roomy resources 0 listed
unfolding second array_item size object_item same_name lower print_unquote_string without_quotes
    strlen strncpy zeros
reads_listed =
    let r1 : ReadsAt (sample resources) roomy resources 0 first = record {
      item = resource (codes "a1") (codes "apk");
      at = refl;
      id_read = refl;
      type_read = refl;
    } in
    let r2 : ReadsAt (sample resources) roomy resources 1 second = record {
      item = resource (codes "b2") (codes "exe");
      at = refl;
      id_read = refl;
      type_read = refl;
    } in
    let r3 : ReadsAt (sample resources) roomy resources 2 third = record {
      item = resource (codes "c3") (codes "ipa");
      at = refl;
      id_read = refl;
      type_read = refl;
    } in
    (r1, (r2, (r3, tt)))

listed_fit : AllFit dirs listed
unfolding second links link link_icon
listed_fit = ((omega arith, (omega arith, tt)), (tt, ((omega arith, (omega arith, tt)), tt)))

make_new_map-links_example :
    make_new_map (sample resources) roomy dirs (codes "f") files
    ≡ some (returned 0, preparation dirs ++ all_links dirs listed)
unfolding get_json_from_file get_str_from_file size
make_new_map-links_example =
    make_new_map-links (sample resources) roomy dirs (codes "f") files resources listed refl refl
      reads_listed (omega arith, (omega arith, (omega arith, (omega arith, tt)))) listed_fit
