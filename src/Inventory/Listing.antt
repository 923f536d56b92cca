-- ===== src/Inventory/Listing.antt =====
-- The inventory that main of linux/linux_libconfig/main.c prints: one line for each complete
-- record.
use clpsz_demos.Base.{
  ℕ, zero, suc, ◌+◌, ◌≡◌, refl, none, some, List, [], ◌∷◌, ◌++◌, Bytes, codes, inl, inr,
  Option-cases,
}
use clpsz_demos.Inventory.{
  Config, Line, row, heading, empty_line, success, record_line, list_records, list_section,
  name_line, main,
}

module _ (C : Config) where
  -- A record of a file, and whether it has all four fields.
  pub record Complete (second : Bytes) (s : C.Setting) : Type 0 where
    pub title : Bytes
    pub other : Bytes
    pub price : C.Double
    pub qty : C.Int
    pub has_title : C.lookup_string s (codes "title") ≡ some title
    pub has_other : C.lookup_string s second ≡ some other
    pub has_price : C.lookup_float s (codes "price") ≡ some price
    pub has_qty : C.lookup_int s (codes "qty") ≡ some qty

  pub data Lacks (second : Bytes) (s : C.Setting) : Type 0 where
    no_title : C.lookup_string s (codes "title") ≡ none → Lacks second s
    no_other : C.lookup_string s second ≡ none → Lacks second s
    no_price : C.lookup_float s (codes "price") ≡ none → Lacks second s
    no_qty : C.lookup_int s (codes "qty") ≡ none → Lacks second s

  pub data Entry (second : Bytes) (s : C.Setting) : Type 0 where
    complete : Complete second s → Entry second s
    lacking : Lacks second s → Entry second s

  -- The elements of a setting from place `i` on.
  pub data Elements (second : Bytes) (setting : C.Setting) : (i left : ℕ) → Type 0 where
    done : {i : ℕ} → Elements second setting i zero
    next :
        {i left : ℕ} (s : C.Setting)
        → C.get_elem setting i ≡ some s
        → Entry second s
        → Elements second setting (i + 1) left
        → Elements second setting i (suc left)

  -- The line of a complete record; the others have none.
  unfoldable pub lines_of :
      {second : Bytes} {setting : C.Setting} {i left : ℕ}
      → Elements second setting i left
      → List (Line C)
  lines_of done = []
  lines_of (next s at (complete c) more) = row c.title c.other c.price c.qty ∷ lines_of more
  lines_of (next s at (lacking l) more) = lines_of more

  record_line-complete :
      {second : Bytes} {s : C.Setting} (c : Complete second s)
      → record_line C second s ≡ some (row c.title c.other c.price c.qty)
  unfolding record_line
  record_line-complete c = rw (c.has_title, c.has_other, c.has_price, c.has_qty)

  record_line-title :
      (second : Bytes) {s : C.Setting}
      → C.lookup_string s (codes "title") ≡ none
      → record_line C second s ≡ none
  unfolding record_line
  record_line-title second l = rw l

  record_line-other :
      (second : Bytes) {s : C.Setting}
      → C.lookup_string s second ≡ none
      → record_line C second s ≡ none
  unfolding record_line
  record_line-other second {s} l = elim (Option-cases (C.lookup_string s (codes "title"))) [
    | inl e ↦ rw e
    | inr (t, e) ↦ rw (e, l)
  ]

  record_line-price :
      (second : Bytes) {s : C.Setting}
      → C.lookup_float s (codes "price") ≡ none
      → record_line C second s ≡ none
  unfolding record_line
  record_line-price second {s} l = elim (Option-cases (C.lookup_string s (codes "title"))) [
    | inl e ↦ rw e
    | inr (t, e) ↦ elim (Option-cases (C.lookup_string s second)) [
      | inl d ↦ rw (e, d)
      | inr (o, d) ↦ rw (e, d, l)
    ]
  ]

  record_line-qty :
      (second : Bytes) {s : C.Setting}
      → C.lookup_int s (codes "qty") ≡ none
      → record_line C second s ≡ none
  unfolding record_line
  record_line-qty second {s} l = elim (Option-cases (C.lookup_float s (codes "price"))) [
    | inl d ↦ record_line-price second d
    | inr (p, d) ↦ elim (Option-cases (C.lookup_string s second)) [
      | inl f ↦ record_line-other second f
      | inr (o, f) ↦ elim (Option-cases (C.lookup_string s (codes "title"))) [
        | inl e ↦ record_line-title second e
        | inr (t, e) ↦ rw (e, f, d, l)
      ]
    ]
  ]

  record_line-lacking :
      {second : Bytes} {s : C.Setting} → Lacks second s → record_line C second s ≡ none
  record_line-lacking (no_title l) = record_line-title _ l
  record_line-lacking (no_other l) = record_line-other _ l
  record_line-lacking (no_price l) = record_line-price _ l
  record_line-lacking (no_qty l) = record_line-qty _ l

  list_records-lines_of :
      {second : Bytes} {setting : C.Setting} {i left : ℕ} (es : Elements second setting i left)
      → list_records C second setting i left ≡ some (lines_of es)
  unfolding list_records lines_of
  list_records-lines_of done = refl
  list_records-lines_of (next s at (complete c) more) =
      rw (at, list_records-lines_of more, record_line-complete c)
  list_records-lines_of (next s at (lacking l) more) =
      rw (at, list_records-lines_of more, record_line-lacking l)

  -- What a section prints.
  unfoldable pub section_of :
      {second : Bytes} {setting : C.Setting} {n : ℕ}
      → (title : Bytes) → Elements second setting 0 n
      → List (Line C)
  section_of title es = heading title ∷ lines_of es ++ empty_line ∷ []

  pub list_section-section_of :
      {second : Bytes} {setting : C.Setting} (title : Bytes)
      → (es : Elements second setting 0 (C.setting_length setting))
      → list_section C second title (some setting) ≡ some (section_of title es)
  unfolding list_section section_of
  list_section-section_of title es = rw (list_records-lines_of es)

  -- When the file can be read, main prints the store's name, and for the books and for the movies
  -- a heading, the complete records in their order, one row each with its four fields, and an
  -- empty line; a record that lacks a field is passed over.
  pub main-section_of :
      (cfg books movies : C.Setting)
      → C.read_file (codes "example.cfg") ≡ some cfg
      → C.root_lookup cfg (codes "inventory.books") ≡ some books
      → C.root_lookup cfg (codes "inventory.movies") ≡ some movies
      → (bs : Elements (codes "author") books 0 (C.setting_length books))
      → (ms : Elements (codes "media") movies 0 (C.setting_length movies))
      → main C
        ≡ some (
          success,
          name_line C (C.root_string cfg (codes "name")) ∷ section_of (codes "AUTHOR") bs
              ++ section_of (codes "MEDIA") ms,
        )
  unfolding main
  main-section_of cfg books movies reads has_books has_movies bs ms = rw (
    main,
    reads,
    has_books,
    has_movies,
    list_section-section_of (codes "AUTHOR") bs,
    list_section-section_of (codes "MEDIA") ms,
  )
