-- ===== src/FSharpSet.antt =====
-- Collections.FSharpSet and Set of
-- GlutenFree.OddJob.Manager.Presentation.WS/Scripts/WebSharper/WebSharper.Collections.js: immutable
-- sets.
pub mod Laws
pub mod Algebra
mod Examples
use odd_job.Prelude.{
  ℕ, Bool, true, false, Option, none, some, List, [], ◌∷◌, ◌++◌, ◌>>=◌, if◌then◌else◌, not, ◌&&◌,
  ltb,
}
use odd_job.Comparable.{Comparable}
use odd_job.SortedList.Laws.{sort, distinct_from}
use odd_job.Seq.Loops.{fold, forall, head}
use odd_job.Seq.Slices.{filter_seq, partition}
use odd_job.BalancedTree
use odd_job.BalancedTree.{Tree}

pub record FSharpSet {ℓ} (K : Type ℓ) : Type ℓ where
  pub tree : Tree K

module _ {ℓ} {K : Type ℓ} where
  unfoldable pub items : FSharpSet K → List K
  items s = BalancedTree.enumerate false s.tree

  abbrev pub of_tree : Option (Tree K) → Option (FSharpSet K)
  of_tree t = t >>= λ tree. some (record { tree = tree })

  unfoldable pub get_count : FSharpSet K → ℕ
  get_count s = BalancedTree.count s.tree

  unfoldable pub get_is_empty : FSharpSet K → Bool
  get_is_empty s = elim s.tree [ BalancedTree.null ↦ true | BalancedTree.new _ _ _ _ _ ↦ false ]

  unfoldable pub get_minimum_element : FSharpSet K → Option K
  get_minimum_element s = head (BalancedTree.enumerate false s.tree)

  unfoldable pub get_maximum_element : FSharpSet K → Option K
  get_maximum_element s = head (BalancedTree.enumerate true s.tree)

  unfoldable pub filter_set : (K → Bool) → FSharpSet K → Option (FSharpSet K)
  filter_set f s = of_tree (BalancedTree.build (filter_seq f (items s)))

  unfoldable pub fold_set_back {μ} : {S : Type μ} → (K → S → S) → FSharpSet K → S → S
  fold_set_back f a s = fold (λ s' x. f x s') s (BalancedTree.enumerate true a.tree)

module _ {ℓ} {K : Type ℓ} ⦃o : Comparable K⦄ where
  unfoldable pub contains : K → FSharpSet K → Bool
  contains v s = BalancedTree.contains v s.tree

  unfoldable pub add : K → FSharpSet K → FSharpSet K
  add x s = record { tree = BalancedTree.add x s.tree }

  unfoldable pub remove : K → FSharpSet K → Option (FSharpSet K)
  remove v s = of_tree (BalancedTree.remove v s.tree)

  -- `FSharpSet.New`
  unfoldable pub of_seq : List K → Option (FSharpSet K)
  of_seq xs = of_tree (BalancedTree.build (sort (distinct_from [] xs)))

  -- `add`, and `op_Addition`
  unfoldable pub union : FSharpSet K → FSharpSet K → Option (FSharpSet K)
  union s x = of_seq (items s ++ items x)

  -- `sub`, and `op_Subtraction`
  unfoldable pub difference : FSharpSet K → FSharpSet K → Option (FSharpSet K)
  difference s x = filter_set (λ v. not (contains v x)) s

  unfoldable pub is_subset_of : FSharpSet K → FSharpSet K → Bool
  is_subset_of s t = forall (λ a. contains a t) (items s)

  unfoldable pub is_superset_of : FSharpSet K → FSharpSet K → Bool
  is_superset_of s t = forall (λ a. contains a s) (items t)

  unfoldable pub is_proper_subset_of : FSharpSet K → FSharpSet K → Bool
  is_proper_subset_of s t = is_subset_of s t && ltb (get_count s) (get_count t)

  unfoldable pub is_proper_superset_of : FSharpSet K → FSharpSet K → Bool
  is_proper_superset_of s t = is_superset_of s t && ltb (get_count t) (get_count s)

  unfoldable pub partition_set : (K → Bool) → FSharpSet K → Option (FSharpSet K × FSharpSet K)
  partition_set f a = do
    let p = partition f (items a)
    left ← of_seq p.0
    right ← of_seq p.1
    some (left, right)
