-- ===== src/Json/Commands.antt =====
-- The commands that make_new_map of cJSON/manipulate_list.c runs, for a list of resources that
-- reads as it should.
use clpsz_demos.Base.{
  ℕ, ◌+◌, ◌<◌, ◌≡◌, ap, sym, ◌∙◌, some, List, [], ◌∷◌, ◌++◌, Bytes, All, codes, false, length,
  append-nil, append_assoc, lt→ltb,
}
use clpsz_demos.Json.{CJson}
use clpsz_demos.Json.Links.{
  Dirs, run, prepare_dirs, link, link_icon, link_both, link_for, link_item, link_items,
  make_new_map,
}
use clpsz_demos.Json.Lists.{returned, get_item}
use clpsz_demos.Json.Text.{starts_with, sprintf_256}
use clpsz_demos.Json.Unquote.{NoZero, text_of-text}
use clpsz_demos.Json.Wrap.{System, Files, print_unquote_string, get_json_from_file}

-- The kind of package that a type names by its first three letters.
pub data Kind : Bytes → Type 0 where
  apk : (rest : Bytes) → Kind (codes "apk" ++ rest)
  ipa : (rest : Bytes) → Kind (codes "ipa" ++ rest)
  other :
      (text : Bytes)
      → starts_with (text ++ (0 ∷ [])) (codes "apk") ≡ some false
      → starts_with (text ++ (0 ∷ [])) (codes "ipa") ≡ some false
      → Kind text

pub record Resource : Type 0 where
  pub id : Bytes
  pub type_text : Bytes
  pub kind : Kind type_text
  pub id_clean : NoZero id

-- A command for a symbolic link.
abbrev pub ln : (existing new : Bytes) → Bytes
ln existing new = codes "ln -sf " ++ existing ++ codes " " ++ new

-- An Android package and its icon are linked from the storage directory into one directory, an
-- iPhone package and its icon into the other; nothing else is linked.
unfoldable pub links : (dirs : Dirs) (id : Bytes) {t : Bytes} → Kind t → List Bytes
links dirs id (apk rest) =
    ln (dirs.storage_dir ++ id) (dirs.and_target_dir ++ id ++ codes ".apk")
    ∷ ln (dirs.storage_dir ++ id ++ codes ".icon") (dirs.and_target_dir ++ id ++ codes ".icon")
    ∷ []
links dirs id (ipa rest) =
    ln (dirs.storage_dir ++ id) (dirs.ios_target_dir ++ id ++ codes ".ipa")
    ∷ ln (dirs.storage_dir ++ id ++ codes ".icon") (dirs.ios_target_dir ++ id ++ codes ".icon")
    ∷ []
links dirs id (other text p q) = []

unfoldable pub all_links : Dirs → List Resource → List Bytes
all_links dirs [] = []
all_links dirs (r ∷ rs) = links dirs r.id r.kind ++ all_links dirs rs

abbrev pub preparation : Dirs → List Bytes
preparation dirs =
    (codes "mkdir -p " ++ dirs.ios_target_dir)
    ∷ (codes "mkdir -p " ++ dirs.and_target_dir)
    ∷ (codes "rm -f " ++ dirs.ios_target_dir ++ codes "*")
    ∷ (codes "rm -f " ++ dirs.and_target_dir ++ codes "*")
    ∷ []

-- The command and its terminator fit in cmd_buf.
abbrev pub Fits : Bytes → Type 0
Fits text = length text < 256

run-Fits :
    (text : Bytes) (done : List Bytes) → Fits text → run text done ≡ some (done ++ (text ∷ []))
unfolding run sprintf_256
run-Fits text done fits = rw (lt→ltb (length text) 256 fits)

target_last : (front t id e : Bytes) → ((front ++ t) ++ id) ++ e ≡ front ++ ((t ++ id) ++ e)
target_last front t id e = ap (◌++ e) (append_assoc front t id) ∙ append_assoc front (t ++ id) e

link-ln : (s t id e : Bytes) → link s t id e ≡ ln (s ++ id) (t ++ id ++ e)
unfolding link
link-ln s t id e = target_last (codes "ln -sf " ++ s ++ id ++ codes " ") t id e

link_icon-ln :
    (s t id : Bytes) → link_icon s t id ≡ ln (s ++ id ++ codes ".icon") (t ++ id ++ codes ".icon")
unfolding link_icon
link_icon-ln s t id =
    target_last (codes "ln -sf " ++ s ++ id ++ codes ".icon ") t id (codes ".icon")
    ∙ ap (λ (front : Bytes). codes "ln -sf " ++ front ++ (t ++ id ++ codes ".icon"))
        (sym (append_assoc (s ++ id) (codes ".icon") (codes " ")))

link_both-Fits :
    (s t id e : Bytes) (done : List Bytes)
    → Fits (ln (s ++ id) (t ++ id ++ e))
    → Fits (ln (s ++ id ++ codes ".icon") (t ++ id ++ codes ".icon"))
    → link_both s t id e done
      ≡ some (
          done
          ++ (ln (s ++ id) (t ++ id ++ e)
              ∷ ln (s ++ id ++ codes ".icon") (t ++ id ++ codes ".icon")
              ∷ []))
unfolding link_both
link_both-Fits s t id e done p q =
    let icon = ln (s ++ id ++ codes ".icon") (t ++ id ++ codes ".icon") in
    rw (
      link-ln s t id e,
      link_icon-ln s t id,
      run-Fits (ln (s ++ id) (t ++ id ++ e)) done p,
      run-Fits icon (done ++ (ln (s ++ id) (t ++ id ++ e) ∷ [])) q,
      append_assoc done,
    )

link_item-links :
    (dirs : Dirs) (id t : Bytes) (k : Kind t) (done : List Bytes)
    → NoZero id
    → All Fits (links dirs id k)
    → link_item dirs (some (id ++ (0 ∷ []))) (some (t ++ (0 ∷ []))) done
      ≡ some (done ++ links dirs id k)
unfolding link_item link_for starts_with links
link_item-links dirs id t (apk rest) done clean fits =
    rw (text_of-text id [] clean) (link_both-Fits _ _ id _ done fits.0 fits.1.0)
link_item-links dirs id t (ipa rest) done clean fits =
    rw (text_of-text id [] clean) (link_both-Fits _ _ id _ done fits.0 fits.1.0)
link_item-links dirs id t (other text p q) done clean fits =
    rw (p, q, text_of-text id [] clean, append-nil)

abbrev pub AllFit : Dirs → List Resource → Type 0
AllFit dirs [] = Unit
AllFit dirs (r ∷ rs) = All Fits (links dirs r.id r.kind) × AllFit dirs rs

module _ (J : CJson) (sys : System) where
  -- The item at place `i` has the id and the type of a resource, as strings.
  pub record ReadsAt (root : J.Value) (i : ℕ) (r : Resource) : Type 0 where
    pub item : J.Value
    pub at : J.array_item root i ≡ some item
    pub id_read :
        print_unquote_string J sys (J.object_item item (codes "resourceId"))
        ≡ some (some (r.id ++ (0 ∷ [])))
    pub type_read :
        print_unquote_string J sys (J.object_item item (codes "type"))
        ≡ some (some (r.type_text ++ (0 ∷ [])))

  abbrev pub ReadAs : (root : J.Value) (i : ℕ) → List Resource → Type 0
  ReadAs root i [] = Unit
  ReadAs root i (r ∷ rs) = ReadsAt root i r × ReadAs root (i + 1) rs

  link_items-all_links :
      (dirs : Dirs) (root : J.Value) (i : ℕ) (rs : List Resource) (done : List Bytes)
      → ReadAs root i rs
      → AllFit dirs rs
      → link_items J sys dirs root i (length rs) done ≡ some (done ++ all_links dirs rs)
  unfolding link_items all_links get_item
  link_items-all_links dirs root i [] done reads fits = rw append-nil
  link_items-all_links dirs root i (r ∷ rs) done reads fits =
      let this = reads.0 in
      let linked = link_item-links dirs r.id r.type_text r.kind done r.id_clean fits.0 in
      rw (this.at, this.id_read, this.type_read, linked)
        (link_items-all_links dirs root (i + 1) rs _ reads.1 fits.1
          ∙ ap some (append_assoc done (links dirs r.id r.kind) (all_links dirs rs)))

  prepare_dirs-preparation :
      (dirs : Dirs)
      → All Fits (preparation dirs)
      → prepare_dirs dirs.ios_target_dir dirs.and_target_dir [] ≡ some (preparation dirs)
  unfolding prepare_dirs
  prepare_dirs-preparation dirs fits =
      let (a, (b, (c, (d, _)))) = fits in
      rw (run-Fits _ _ a, run-Fits _ _ b, run-Fits _ _ c, run-Fits _ _ d)

  -- For a list of resources whose ids and types are strings, make_new_map returns 0 and has run
  -- four commands that prepare the directories, and then, in the order of the list, for each
  -- resource of a known type a link to its package in the storage directory, from the directory
  -- of its type, and one to its icon, provided that every command fits in the buffer of 256
  -- bytes.
  pub make_new_map-links :
      (dirs : Dirs) (list_file : Bytes) (files : Files) (root : J.Value) (rs : List Resource)
      → get_json_from_file J sys files list_file ≡ some root
      → J.size root ≡ length rs
      → ReadAs root 0 rs
      → All Fits (preparation dirs)
      → AllFit dirs rs
      → make_new_map J sys dirs list_file files
        ≡ some (returned 0, preparation dirs ++ all_links dirs rs)
  unfolding make_new_map
  make_new_map-links dirs list_file files root rs read size reads prepared fits = rw (
    prepare_dirs-preparation dirs prepared,
    read,
    size,
    link_items-all_links dirs root 0 rs (preparation dirs) reads fits,
  )
