-- ===== src/FSharpSet/Examples.antt =====
-- Runs of the sets on small inputs.
use odd_job.Prelude.{ℕ, refl, arith, ◌||◌}
use odd_job.Comparable.{number, compare_numbers}
use odd_job.BalancedTree.{Tree, null, new}
use odd_job.BalancedTree.Shape.{IsAvl, IsAvl-IsSized}
use odd_job.FSharpSet.{FSharpSet, contains, union}
use odd_job.FSharpSet.Laws.{IsValid, Contains, union-Contains}

abbrev leaf : ℕ → Tree ℕ
leaf n = new n null null 1 1

abbrev three_items : FSharpSet ℕ
three_items = record { tree = new 4 (leaf 2) (leaf 6) 2 3 }

abbrev one_item : FSharpSet ℕ
one_item = record { tree = leaf 4 }

three_items-IsAvl : IsAvl three_items.tree
three_items-IsAvl = omega arith

one_item-IsAvl : IsAvl one_item.tree
one_item-IsAvl = omega arith

three_items-IsValid : IsValid three_items
unfolding number compare_numbers
three_items-IsValid = record {
  ordered = ((refl, (refl, tt)), ((refl, tt), (tt, tt)));
  sized = IsAvl-IsSized three_items.tree three_items-IsAvl;
}

one_item-IsValid : IsValid one_item
one_item-IsValid = record { ordered = (tt, tt); sized = IsAvl-IsSized one_item.tree one_item-IsAvl }

union-Contains_example :
    Contains (union one_item three_items) (λ j. contains j one_item || contains j three_items)
union-Contains_example = union-Contains one_item three_items one_item-IsValid three_items-IsValid
