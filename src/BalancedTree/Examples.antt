-- ===== src/BalancedTree/Examples.antt =====
-- Tests of the tree on small inputs, and each theorem at a concrete tree.
use odd_job.Prelude.{ℕ, ◌≡◌, refl, some, arith}
use odd_job.Comparable.{number, compare_numbers}
use odd_job.SortedList.{Sorted, insert_with, erase}
use odd_job.BalancedTree.{
  Tree, null, new, branch, rebuild, rebuild_left, rebuild_right, double_left, double_right, build,
  build_range, gen, unfold_seq, enumerate, lookup, lookup_from, put, remove,
}
use odd_job.BalancedTree.Inorder.{inorder}
use odd_job.BalancedTree.Search.{inorder-put}
use odd_job.BalancedTree.Shape.{IsAvl, IsAvl-IsSized}
use odd_job.BalancedTree.Balance.{put-IsAvl}
use odd_job.BalancedTree.Remove.{Holds, remove-Holds, remove-unbalances}

abbrev leaf : ℕ → Tree ℕ
leaf n = new n null null 1 1

-- 2 over 1 and 4, and 4 over 3 and 5.
abbrev five : Tree ℕ
five = new 2 (leaf 1) (new 4 (leaf 3) (leaf 5) 2 3) 3 5

five-IsAvl : IsAvl five
five-IsAvl = omega arith

sixth : put (λ _ k. k) 6 five ≡ new 4 (new 2 (leaf 1) (leaf 3) 2 3) (new 5 null (leaf 6) 2 2) 3 6
unfolding put lookup lookup_from rebuild rebuild_left rebuild_right double_left double_right branch
    number compare_numbers
sixth = refl

without_two : remove 2 five ≡ some (new 3 (leaf 1) (new 4 null (leaf 5) 2 2) 3 4)
unfolding remove lookup lookup_from rebuild rebuild_left rebuild_right double_left double_right
    branch number compare_numbers build build_range enumerate gen unfold_seq
without_two = refl

five-Sorted : Sorted (inorder five)
unfolding number compare_numbers
five-Sorted = (
  (refl, (refl, (refl, (refl, tt)))),
  ((refl, (refl, (refl, tt))), ((refl, (refl, tt)), ((refl, tt), (tt, tt)))),
)

inorder-put_example : inorder (put (λ _ k. k) 6 five) ≡ insert_with (λ _ k. k) 6 (inorder five)
inorder-put_example = inorder-put (λ _ k. k) 6 five five-Sorted

put-IsAvl_example : IsAvl (put (λ _ k. k) 6 five)
put-IsAvl_example = put-IsAvl (λ _ k. k) 6 five five-IsAvl

remove-Holds_example : Holds (erase 2 (inorder five)) (remove 2 five)
remove-Holds_example = remove-Holds 2 five five-Sorted (IsAvl-IsSized five five-IsAvl)

remove-unbalances_example :
    IsAvl (branch 2 (branch 1 null null) (new 4 (leaf 3) (leaf 5) 2 3))
    × (remove 1 (branch 2 (branch 1 null null) (new 4 (leaf 3) (leaf 5) 2 3))
        ≡ some (branch 2 null (new 4 (leaf 3) (leaf 5) 2 3)))
    × ¬ IsAvl (branch 2 null (new 4 (leaf 3) (leaf 5) 2 3))
remove-unbalances_example =
    remove-unbalances 1 2 (new 4 (leaf 3) (leaf 5) 2 3) (unfold number compare_numbers in refl)
      (omega arith) refl
