-- ===== src/Sort/Tests.antt =====
-- Runs of stdlib.c on arrays of numbers.
use tiny_os.Common.{ℕ, ◌+◌, ◌≤◌, ◌<◌, ◌≡◌, refl, Option, some, ltb, ◌==◌, if◌then◌else◌, arith}
use tiny_os.Common.Integers.{ℤ, pos, negsuc}
use tiny_os.Sort.{sort, binary_search}
use tiny_os.Sort.Arrays.{IsShuffled}
use tiny_os.Sort.Heaps.{Below, IsComparison}
use tiny_os.Sort.Sorted.{sort-IsSorted}
use tiny_os.Sort.Search.{IsSplit, Answer, binary_search-Answer}

abbrev compare : ℕ → ℕ → ℤ
compare x y = if ltb x y then negsuc 0 else if x == y then pos 0 else pos 1

abbrev four_numbers : ℕ → ℕ
four_numbers i = if i == 0 then 3 else if i == 1 then 9 else if i == 2 then 4 else 7

compare-IsComparison : IsComparison compare
compare-IsComparison = record {
  total = λ x y h. ground arith;
  transitive = λ x y z h g. ground arith;
}

sort-IsSorted_example :
    (b : ℕ → ℕ) × (sort compare 4096 four_numbers 4 8 ≡ some b)
    × ((i j : ℕ) → i ≤ j → j < 4 → Below compare (b i) (b j))
    × IsShuffled 4 four_numbers b
sort-IsSorted_example =
    sort-IsSorted compare compare-IsComparison 4096 four_numbers 4 8 refl (omega arith)
      (omega arith)

multiples-IsSplit : IsSplit compare 6 (λ i. i + i) 5
multiples-IsSplit = record {
  behind = λ i j le inside h. ground arith;
  before = λ i j le inside h. ground arith;
}

binary_search-Answer_example :
    (r : Option ℕ) × (binary_search compare 6 (λ i. i + i) 5 ≡ some r)
    × Answer compare 6 (λ i. i + i) 0 5 r
binary_search-Answer_example = binary_search-Answer compare 6 (λ i. i + i) 5 multiples-IsSplit
