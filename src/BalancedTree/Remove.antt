-- ===== src/BalancedTree/Remove.antt =====
-- `BalancedTree.Remove` of WebSharper.Collections.js.
use Prim.Native.Nat.Ordering.{lt}
use odd_job.Prelude.{
  ◌≡◌, refl, sym, ap, ◌∙◌, false, Option, some, List, [], ◌++◌, arith, append_assoc, append-nil,
}
use odd_job.Comparable.{Comparable}
use odd_job.SortedList.{Sorted, erase, erase-AllBelow, erase-AllAbove}
use odd_job.BalancedTree.{
  Tree, null, new, Spine, branch, height, rebuild, rebuild_left, lookup_from, lookup, enumerate,
  join, remove_at, remove,
}
use odd_job.BalancedTree.Inorder.{inorder, before, after, inorder-rebuild}
use odd_job.BalancedTree.Enumerate.{enumerate_lem}
use odd_job.BalancedTree.Build.{build_lem}
use odd_job.BalancedTree.Shape.{
  IsSized, IsAvl, IsAvl-IsSized, rebuild-IsSized, SizedFound, SizedFound-lookup_from, branch-IsAvl,
  branch-height,
}
use odd_job.BalancedTree.Search.{Found, IsSplit-at, lookup_lem}

module _ {ℓ} {K : Type ℓ} where
  -- A tree with some items, and right heights and counts.
  pub record Holds (items : List K) (r : Option (Tree K)) : Type ℓ where
    pub tree : Tree K
    pub made : r ≡ some tree
    pub ordered : inorder tree ≡ items
    pub sized : IsSized tree

  -- What replaces a removed node holds the items of its two children, in order.
  join-Holds : (l r : Tree K) → IsSized l → IsSized r → Holds (inorder l ++ inorder r) (join l r)
  join-Holds l null a b = record {
    tree = l;
    made = refl;
    ordered = sym (append-nil (inorder l));
    sized = a;
  }
  join-Holds null (new k p q h c) a b = record {
    tree = new k p q h c;
    made = refl;
    ordered = refl;
    sized = b;
  }
  join-Holds (new k' p' q' h' c') (new k p q h c) a b =
      let l = new k' p' q' h' c' in
      let r = new k p q h c in
      let (t, made, ordered, avl, _, _) = build_lem (enumerate false l ++ enumerate false r) in
      record {
        tree = t;
        made = made;
        ordered = ordered ∙ rw ((enumerate_lem l).0, (enumerate_lem r).0);
        sized = IsAvl-IsSized t avl;
      }

module _ {ℓ} {K : Type ℓ} ⦃o : Comparable K⦄ where
  remove_at-Holds :
      (k : K) (src t : Tree K) (spine : Spine K)
      → Sorted (inorder src)
      → IsSized src
      → Found k (inorder src) (t, spine)
      → SizedFound (t, spine)
      → Holds (erase k (inorder src)) (remove_at src t spine)
  remove_at-Holds k src null spine s z (f, a) (b, d) = record {
    tree = src;
    made = refl;
    ordered = rw (← f.same) (
        sym (
          erase-AllBelow k (before spine) (after spine) f.below
          ∙ ap (λ xs. before spine ++ xs) (erase-AllAbove k (after spine) f.above)));
    sized = z;
  }
  remove_at-Holds k src (new x l r h c) spine s z (f, a) (b, d) =
      let w = IsSplit-at k (inorder src) x l r h c spine (f, a) s in
      let j = join-Holds l r b.2 b.3 in
      record {
        tree = rebuild spine j.tree;
        made = rw j.made;
        ordered =
            inorder-rebuild spine j.tree
            ∙ rw j.ordered (
                sym (
                  rw w.whole (
                    erase-AllBelow k (before spine ++ inorder l) _ w.low
                    ∙ rw (a, erase) (simp append_assoc))));
        sized = rebuild-IsSized spine j.tree d j.sized;
      }

  -- From a tree whose items are sorted and whose stored fields are right, `Remove` always gives a
  -- tree: one with the same items but for the one whose key compares equal, in the same order, and
  -- with right heights and counts.
  pub remove-Holds :
      (k : K) (t : Tree K)
      → Sorted (inorder t)
      → IsSized t
      → Holds (erase k (inorder t)) (remove k t)
  unfolding remove lookup
  remove-Holds k t s z =
      remove_at-Holds k t (lookup_from k t []).0 (lookup_from k t []).1 s z
        (unfold lookup in lookup_lem k t s) (SizedFound-lookup_from k t [] z tt)

  -- `Remove` does not rebalance the side that grew shorter: take any node whose left child is a
  -- single item, whose right child is a balanced tree of height 2, and which is itself balanced.
  -- With that item removed the left side is empty, and the tree is no longer balanced.
  pub remove-unbalances :
      (a x : K) (r : Tree K)
      → o.cmp a x ≡ lt
      → IsAvl r
      → height r ≡ 2
      → IsAvl (branch x (branch a null null) r)
        × (remove a (branch x (branch a null null) r) ≡ some (branch x null r))
        × ¬ IsAvl (branch x null r)
  unfolding remove lookup lookup_from rebuild branch rebuild_left
  remove-unbalances a x r e b h =
      let low = branch-height {ℓ} a null null in
      (
        branch-IsAvl x (branch a null null) r
            (branch-IsAvl a null null tt tt (omega arith) (omega arith)) b (omega arith)
            (omega arith),
        rw (e, o.cmp_refl a),
        λ w. omega arith,
      )
