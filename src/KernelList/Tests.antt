-- ===== src/KernelList/Tests.antt =====
-- Lists that are kept beside their heads.
use clpsz_demos.Base.{
  ℕ, ◌≡◌, refl, Option, none, some, List, [], ◌∷◌, ◌++◌, map, ◌==◌, if◌then◌else◌,
}
use clpsz_demos.KernelList.{
  ListHeads, Memory, entry_3, index_line, empty_lines, main, add_all, add_both, list_indexes,
}

abbrev Heap : Type 0
Heap = ℕ → Option (List ℕ)

abbrev put_first : ℕ → Option (List ℕ) → Option (List ℕ)
put_first entry none = none
put_first entry (some xs) = some (entry ∷ xs)

abbrev put_last : ℕ → Option (List ℕ) → Option (List ℕ)
put_last entry none = none
put_last entry (some xs) = some (xs ++ entry ∷ [])

abbrev beside : ListHeads
beside = record {
  Heap = Heap;
  init_list_head = λ ptr h x. if x == ptr then some [] else h x;
  list_add = λ entry head h x. if x == head then put_first entry (h x) else h x;
  list_add_tail = λ entry head h x. if x == head then put_last entry (h x) else h x;
  for_each = λ head h. h head;
}

abbrev unused : Memory beside
unused = record { heap = λ x. none; index = λ x. 77 }

main_run :
    main beside unused
    ≡ some (
        entry_3 3 ∷ empty_lines ∷ map index_line (9 ∷ 8 ∷ 7 ∷ 6 ∷ 5 ∷ 4 ∷ 3 ∷ 2 ∷ 1 ∷ 0 ∷ [])
        ++ empty_lines ∷ map index_line (0 ∷ 1 ∷ 2 ∷ 3 ∷ 4 ∷ 5 ∷ 6 ∷ 7 ∷ 8 ∷ 9 ∷ []))
unfolding main list_indexes add_all add_both
main_run = refl
