-- ===== src/LinkedList/Tests.antt =====
-- Runs of list.c on a list with the elements 3, 5 and 4, between the headers 1 and 2.
use tiny_os.Common.{ℕ, ◌≡◌, refl, some, List, [], ◌∷◌, ltb, ◌==◌, if◌then◌else◌, arith}
use tiny_os.LinkedList.{Links, KernelList, insert, remove}
use tiny_os.LinkedList.Chain.{IsList}
use tiny_os.LinkedList.Insert.{Inserted, insert-Inserted}
use tiny_os.LinkedList.Remove.{Removed, remove-Removed}
use tiny_os.LinkedList.Ordered.{IsOrder}

abbrev headers : KernelList
headers = record { head = 1; tail = 2 }

-- Links from the third argument on, 0 elsewhere.
abbrev assoc : List (ℕ × ℕ) → ℕ → ℕ
assoc [] a = 0
assoc ((k, v) ∷ r) a = if a == k then v else assoc r a

abbrev links : Links
links = record {
  next = assoc ((1, 3) ∷ (3, 5) ∷ (5, 4) ∷ (4, 2) ∷ []);
  prev = assoc ((3, 1) ∷ (5, 3) ∷ (4, 5) ∷ (2, 4) ∷ []);
}

links-IsList : IsList links headers (3 ∷ 5 ∷ 4 ∷ [])
links-IsList = record {
  chain = (refl, refl, (refl, refl, (refl, refl, (refl, refl))));
  first = refl;
  last = refl;
  distinct = (refl, (refl, (refl, (refl, (refl, tt)))));
  not_null = refl;
}

ltb-IsOrder : IsOrder ltb
ltb-IsOrder = record { asym = λ a b h. ground arith; neg_trans = λ a b c p q. ground arith }

insert-Inserted_example :
    (h' : Links) × (insert 5 9 links ≡ some (tt, h'))
    × Inserted links headers 9 (3 ∷ 5 ∷ 4 ∷ []) (3 ∷ 9 ∷ 5 ∷ 4 ∷ []) h'
insert-Inserted_example =
    insert-Inserted links headers 9 (3 ∷ []) (5 ∷ 4 ∷ []) links-IsList (omega arith) refl

remove-Removed_example :
    (h' : Links) × (remove 5 links ≡ some (4, h'))
    × Removed links headers (3 ∷ 5 ∷ 4 ∷ []) (3 ∷ 4 ∷ []) h'
remove-Removed_example = remove-Removed links headers 5 (3 ∷ []) (4 ∷ []) links-IsList
