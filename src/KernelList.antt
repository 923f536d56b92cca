-- ===== src/KernelList.antt =====
-- linux/linux_kernel_list/main.c: ten elements in each of two lists of the kernel's list.h, which
-- is an interface.
mod Tests
use clpsz_demos.Base.{
  ℕ, zero, suc, ◌+◌, ◌≡◌, ◌≢◌, Option, none, some, List, [], ◌∷◌, ◌++◌, map, Bool, true, false,
  ◌==◌, if◌then◌else◌, All,
}
use clpsz_demos.Base.Maybe.{◌>>=◌}

-- The calls of list.h on list heads, which are addresses. `for_each` is what the entries of a
-- list are, where the links form one.
pub record ListHeads : Type 1 where
  pub Heap : Type 0
  pub init_list_head : (ptr : ℕ) → Heap → Heap
  pub list_add : (entry head : ℕ) → Heap → Heap
  pub list_add_tail : (entry head : ℕ) → Heap → Heap
  pub for_each : (head : ℕ) → Heap → Option (List ℕ)

-- The two arrays and the two heads, by the addresses of their list_head.
abbrev pub my_list_array : ℕ → ℕ
my_list_array i = i

abbrev pub my_list_array1 : ℕ → ℕ
my_list_array1 i = 10 + i

abbrev pub head : ℕ
head = 20

abbrev pub head1 : ℕ
head1 = 21

-- The links, and the `index` beside each list_head.
pub record Memory (L : ListHeads) : Type 0 where
  pub heap : L.Heap
  pub index : ℕ → ℕ

pub data Line : Type 0 where
  entry_3 : ℕ → Line
  index_line : ℕ → Line
  empty_lines : Line

abbrev pub store : (ptr value : ℕ) → (ℕ → ℕ) → ℕ → ℕ
store ptr value f other = if other == ptr then value else f other

module _ (L : ListHeads) where
  -- One turn of the first loop.
  unfoldable pub add_both : (i : ℕ) → Memory L → Memory L
  add_both i m = record {
    index = store (my_list_array1 i) i (store (my_list_array i) i m.index);
    heap = L.list_add_tail (my_list_array1 i) head1 (
        L.list_add (my_list_array i) head
          (L.init_list_head (my_list_array1 i) (L.init_list_head (my_list_array i) m.heap)));
  }

  unfoldable pub add_all : (i left : ℕ) → Memory L → Memory L
  add_all i zero m = m
  add_all i (suc left) m = add_all (i + 1) left (add_both i m)

  -- list_for_each_entry: the index of each entry.
  unfoldable pub list_indexes : (head : ℕ) → Memory L → Option (List Line)
  list_indexes head m = do
    entries ← L.for_each head m.heap
    some (map (λ ptr. index_line (m.index ptr)) entries)

  unfoldable pub main : Memory L → Option (List Line)
  main m = do
    let built =
        add_all 0 10 (record m { heap = L.init_list_head head1 (L.init_list_head head m.heap) })
    lines ← list_indexes head built
    lines1 ← list_indexes head1 built
    some (entry_3 (built.index (my_list_array 3)) ∷ empty_lines ∷ lines ++ empty_lines ∷ lines1)
