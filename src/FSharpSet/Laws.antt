-- ===== src/FSharpSet/Laws.antt =====
-- The sets of WebSharper.Collections.js as finite collections of keys.
use odd_job.Prelude.{
  ◌≡◌, refl, ap, ◌∙◌, Bool, true, false, Option, none, some, List, [], ◌++◌, arith, is_some, ◌||◌,
}
use odd_job.Comparable.{Comparable}
use odd_job.SortedList.{Sorted, find}
use odd_job.SortedList.Laws.{
  latest, if_same, find-insert_with, Sorted-insert_with, Sorted-erase, find-erase, sort,
  distinct_from, sort-distinct, first_of, find-append,
}
use odd_job.BalancedTree
use odd_job.BalancedTree.Inorder.{inorder}
use odd_job.BalancedTree.Shape.{IsSized, IsAvl-IsSized, put-IsSized}
use odd_job.BalancedTree.Search.{try_find_lem, inorder-put}
use odd_job.BalancedTree.Remove.{remove-Holds}
use odd_job.BalancedTree.Build.{build_lem}
use odd_job.BalancedTree.Enumerate.{enumerate_lem}
use odd_job.FSharpSet.{FSharpSet, items, contains, add, remove, of_seq, union}

module _ {ℓ} {K : Type ℓ} ⦃o : Comparable K⦄ where
  -- The items are sorted, none is there twice, and the stored fields are right.
  pub record IsValid (s : FSharpSet K) : Type ℓ where
    pub ordered : Sorted (inorder s.tree)
    pub sized : IsSized s.tree

  pub contains-find :
      (k : K) (s : FSharpSet K) → IsValid s → contains k s ≡ is_some (find k (inorder s.tree))
  unfolding contains
  contains-find k s h = (try_find_lem k s.tree h.ordered).1

  pub items-inorder : (s : FSharpSet K) → items s ≡ inorder s.tree
  unfolding items
  items-inorder s = (enumerate_lem s.tree).0

  -- A set that may not be made is made, valid, and contains just what `g` says.
  pub record Contains (r : Option (FSharpSet K)) (g : K → Bool) : Type ℓ where
    pub result : FSharpSet K
    pub made : r ≡ some result
    pub valid : IsValid result
    pub holds : (j : K) → contains j result ≡ g j

  is_some-pick :
      (j k : K) (x y : Option K) → is_some (if_same j k x y) ≡ if_same j k (is_some x) (is_some y)
  is_some-pick j k x y = ground arith

  -- `Add` keeps a set valid; the result contains the item and what the set contained.
  pub add_lem :
      (k : K) (s : FSharpSet K)
      → IsValid s
      → IsValid (add k s) × ((j : K) → contains j (add k s) ≡ if_same j k true (contains j s))
  unfolding add BalancedTree.add
  add_lem k s h =
      let e = inorder-put latest k s.tree h.ordered in
      let valid : IsValid (add k s) = record {
        ordered = rw e (Sorted-insert_with k (inorder s.tree) h.ordered);
        sized = put-IsSized latest k s.tree h.sized;
      } in
      (
        valid,
        λ j.
            contains-find j (add k s) valid
            ∙ rw (e, find-insert_with j k (inorder s.tree), contains-find j s h)
                (is_some-pick j k (some k) (find j (inorder s.tree))),
      )

  -- `Remove` of a valid set gives a valid set that contains what the set contained but the item.
  pub remove-Contains :
      (k : K) (s : FSharpSet K)
      → IsValid s
      → Contains (remove k s) (λ j. if_same j k false (contains j s))
  unfolding remove
  remove-Contains k s h =
      let r = remove-Holds k s.tree h.ordered h.sized in
      let out : FSharpSet K = record { tree = r.tree } in
      let valid : IsValid out = record {
        ordered = rw r.ordered (Sorted-erase k (inorder s.tree) h.ordered);
        sized = r.sized;
      } in
      record {
        result = out;
        made = rw r.made refl;
        valid = valid;
        holds = λ j.
            contains-find j out valid
            ∙ rw (r.ordered, find-erase j k (inorder s.tree) h.ordered, contains-find j s h)
                (is_some-pick j k none (find j (inorder s.tree)));
      }

  -- A set of any sequence is made, is valid, and contains the items of the sequence.
  pub of_seq-Contains : (xs : List K) → Contains (of_seq xs) (λ j. is_some (find j xs))
  unfolding of_seq
  of_seq-Contains xs =
      let (t, made, ordered, avl, _, _) = build_lem (sort (distinct_from [] xs)) in
      let (sorted, finds) = sort-distinct xs in
      let out : FSharpSet K = record { tree = t } in
      let valid : IsValid out = record {
        ordered = rw ordered sorted;
        sized = IsAvl-IsSized t avl;
      } in
      record {
        result = out;
        made = rw made refl;
        valid = valid;
        holds = λ j. contains-find j out valid ∙ rw ordered (ap is_some (finds j));
      }

  is_some-first_of : (x y : Option K) → is_some (first_of x y) ≡ (is_some x || is_some y)
  is_some-first_of none y = refl
  is_some-first_of (some x) y = refl

  -- Where two items are equal just when they compare as equal, the union of two valid sets is made, is
  -- valid, and contains what either contains.
  pub union-Contains :
      (s t : FSharpSet K)
      → IsValid s
      → IsValid t
      → Contains (union s t) (λ j. contains j s || contains j t)
  unfolding union
  union-Contains s t h g =
      let c = of_seq-Contains (items s ++ items t) in
      record {
        result = c.result;
        made = c.made;
        valid = c.valid;
        holds = λ j.
            c.holds j
            ∙ rw
                (
                  find-append j (items s) (items t),
                  items-inorder s,
                  items-inorder t,
                  contains-find j s h,
                  contains-find j t g,
                )
                (is_some-first_of (find j (inorder s.tree)) (find j (inorder t.tree)));
      }
