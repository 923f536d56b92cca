-- ===== src/Inventory/Tests.antt =====
-- A file of two books and a movie; the second book has no price.
use clpsz_demos.Base.{
  ℕ, ◌≡◌, refl, Option, none, some, List, [], ◌∷◌, ◌++◌, Bytes, Bool, true, false, ◌&&◌, codes,
  if◌then◌else◌, get_elem?, length, ◌==◌,
}
use clpsz_demos.Inventory.{
  Config, store_name, row, heading, empty_line, success, main, name_line, list_section,
  list_records, record_line,
}
use clpsz_demos.Inventory.Listing.{
  Complete, no_price, complete, lacking, Elements, done, next, main-section_of, section_of,
}

abbrev same : Bytes → Bytes → Bool
same [] [] = true
same (x ∷ xs) (y ∷ ys) = x == y && same xs ys
same [] (y ∷ ys) = false
same (x ∷ xs) [] = false

abbrev find {ℓ} : {A : Type ℓ} → List (Bytes × A) → Bytes → Option A
find [] name = none
find ((key, a) ∷ rest) name = if same key name then some a else find rest name

data Place : Type 0 where
  shop_root book_list movie_list emma_at dune_at alien_at : Place

abbrev record_at : Place → List Place
record_at book_list = emma_at ∷ dune_at ∷ []
record_at movie_list = alien_at ∷ []
record_at s = []

abbrev texts : Place → List (Bytes × Bytes)
texts shop_root = (codes "name", codes "Shop") ∷ []
texts emma_at = (codes "title", codes "Emma") ∷ (codes "author", codes "Austen") ∷ []
texts dune_at = (codes "title", codes "Dune") ∷ (codes "author", codes "Herbert") ∷ []
texts alien_at = (codes "title", codes "Alien") ∷ (codes "media", codes "DVD") ∷ []
texts s = []

abbrev numbers : Place → List (Bytes × ℕ)
numbers emma_at = (codes "price", 20) ∷ (codes "qty", 5) ∷ []
numbers dune_at = (codes "qty", 7) ∷ []
numbers alien_at = (codes "price", 9) ∷ (codes "qty", 11) ∷ []
numbers s = []

abbrev shop : (reads : Bool) → Config
shop reads = record {
  Setting = Place;
  Double = ℕ;
  Int = ℕ;
  read_file = λ name. if reads then some shop_root else none;
  error = λ name. name ++ codes ":1 - file I/O error";
  root_string = λ s name. find (texts s) name;
  root_lookup = λ s name.
      find ((codes "inventory.books", book_list) ∷ (codes "inventory.movies", movie_list) ∷ [])
        name;
  setting_length = λ s. length (record_at s);
  get_elem = λ s i. get_elem? (record_at s) i;
  lookup_string = λ s name. find (texts s) name;
  lookup_float = λ s name. find (numbers s) name;
  lookup_int = λ s name. find (numbers s) name;
}

abbrev emma : Complete (shop true) (codes "author") emma_at
emma = record {
  title = codes "Emma";
  other = codes "Austen";
  price = 20;
  qty = 5;
  has_title = refl;
  has_other = refl;
  has_price = refl;
  has_qty = refl;
}

abbrev alien : Complete (shop true) (codes "media") alien_at
alien = record {
  title = codes "Alien";
  other = codes "DVD";
  price = 9;
  qty = 11;
  has_title = refl;
  has_other = refl;
  has_price = refl;
  has_qty = refl;
}

abbrev books : Elements (shop true) (codes "author") book_list 0 2
books = next emma_at refl (complete emma) (next dune_at refl (lacking (no_price refl)) done)

abbrev movies : Elements (shop true) (codes "media") movie_list 0 1
movies = next alien_at refl (complete alien) done

main-section_of_example :
    main (shop true)
    ≡ some (
      success,
      name_line (shop true) (some (codes "Shop")) ∷ section_of (shop true) (codes "AUTHOR") books
          ++ section_of (shop true) (codes "MEDIA") movies,
    )
main-section_of_example =
    main-section_of (shop true) shop_root book_list movie_list refl refl refl books movies

main_run :
    main (shop true)
    ≡ some (
      success,
      store_name (codes "Shop")
          ∷ heading (codes "AUTHOR")
          ∷ row (codes "Emma") (codes "Austen") 20 5
          ∷ empty_line
          ∷ heading (codes "MEDIA")
          ∷ row (codes "Alien") (codes "DVD") 9 11
          ∷ empty_line
          ∷ [],
    )
unfolding main list_section list_records record_line
main_run = refl
