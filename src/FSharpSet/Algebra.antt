-- ===== src/FSharpSet/Algebra.antt =====
-- Filters, differences and inclusions of the sets of WebSharper.Collections.js.
use Prim.Native.Nat.Ordering.{eq}
use odd_job.Prelude.{
  ◌≡◌, ◌↔◌, refl, sym, ap, ◌∙◌, Bool, true, some, List, [], ◌∷◌, arith, is_some, inl, inr, not,
  ◌&&◌, Option-cases,
}
use odd_job.Comparable.{Comparable}
use odd_job.SortedList.{find, All}
use odd_job.SortedList.Laws.{find-same, if_passes, Sorted-filter_seq, find-filter_seq}
use odd_job.Seq.Slices.{filter_seq}
use odd_job.Seq.Searches.{forall_iff}
use odd_job.BalancedTree.Inorder.{inorder}
use odd_job.BalancedTree.Shape.{IsAvl-IsSized}
use odd_job.BalancedTree.Build.{build_lem}
use odd_job.FSharpSet.{FSharpSet, items, contains, difference, filter_set, is_subset_of}
use odd_job.FSharpSet.Laws.{IsValid, Contains, contains-find, items-inorder}

module _ {ℓ} {K : Type ℓ} ⦃o : Comparable K⦄ where
  -- A test that does not tell apart items that compare equal.
  abbrev pub Respects : (K → Bool) → Type ℓ
  Respects f = (x y : K) → o.cmp x y ≡ eq → f x ≡ f y

  find-same_key : (k x : K) (xs : List K) → find k xs ≡ some x → o.cmp k x ≡ eq
  find-same_key k x [] e = ground arith
  find-same_key k x (y ∷ xs) e = ground (arith, find-same_key k x xs)

  is_some-if_passes :
      (f : K → Bool) (j : K) (xs : List K)
      → Respects f
      → is_some (if_passes f (find j xs)) ≡ (is_some (find j xs) && f j)
  is_some-if_passes f j xs r = elim (Option-cases (find j xs)) [
    | inl n ↦ rw n refl
    | inr (x, e) ↦ rw (e, r j x (find-same_key j x xs e)) (ground arith)
  ]

  -- `Filter` of a valid set by a test that respects the comparison gives a valid set that contains
  -- just the items of the set that pass.
  pub filter_set-Contains :
      (f : K → Bool) (s : FSharpSet K)
      → Respects f
      → IsValid s
      → Contains (filter_set f s) (λ j. contains j s && f j)
  unfolding filter_set
  filter_set-Contains f s r h =
      let (t, made, ordered, avl, _, _) = build_lem (filter_seq f (items s)) in
      let whole : inorder t ≡ filter_seq f (inorder s.tree) =
        ordered ∙ ap (filter_seq f) (items-inorder s) in
      let out : FSharpSet K = record { tree = t } in
      let valid : IsValid out = record {
        ordered = rw whole (Sorted-filter_seq f (inorder s.tree) h.ordered);
        sized = IsAvl-IsSized t avl;
      } in
      record {
        result = out;
        made = rw made refl;
        valid = valid;
        holds = λ j.
            contains-find j out valid
            ∙ rw (whole, find-filter_seq f j (inorder s.tree) h.ordered, contains-find j s h)
                (is_some-if_passes f j (inorder s.tree) r);
      }

  contains-Respects : (t : FSharpSet K) → IsValid t → Respects (λ v. not (contains v t))
  contains-Respects t h x y e =
      rw (contains-find x t h, contains-find y t h, find-same x y (inorder t.tree) e) refl

  -- The difference of two valid sets is made, is valid, and contains what the first contains and
  -- the second does not.
  pub difference-Contains :
      (s t : FSharpSet K)
      → IsValid s
      → IsValid t
      → Contains (difference s t) (λ j. contains j s && not (contains j t))
  unfolding difference
  difference-Contains s t h g =
      filter_set-Contains (λ v. not (contains v t)) s (contains-Respects t g) h

  All-find :
      (xs : List K) (f : K → Bool) (k x : K)
      → All (λ y. f y ≡ true) xs
      → find k xs ≡ some x
      → f x ≡ true
  All-find [] f k x a e = ground arith
  All-find (y ∷ xs) f k x a e = ground (arith, All-find xs f k x a.1)

  All-of_find :
      (xs : List K) (f : K → Bool)
      → ((k : K) → is_some (find k xs) ≡ true → f k ≡ true)
      → All (λ x. f x ≡ true) xs
  All-of_find [] f h = tt
  All-of_find (x ∷ xs) f h =
      (h x (ground (arith, o.cmp_refl x)), All-of_find xs f (λ k e. h k (ground (arith, e))))

  -- `IsSubsetOf` between two valid sets holds exactly if the second contains each item that the
  -- first contains.
  pub is_subset_of_iff :
      (s t : FSharpSet K)
      → IsValid s
      → IsValid t
      → (is_subset_of s t ≡ true) ↔ ((k : K) → contains k s ≡ true → contains k t ≡ true)
  unfolding is_subset_of
  is_subset_of_iff s t h g =
      let (to, from) = forall_iff (λ a. contains a t) (items s) in
      (
        λ e k c. contained k c (rw (← items-inorder s) (to e)),
        λ all. from (
            rw (items-inorder s) (
              All-of_find (inorder s.tree) (λ a. contains a t)
                (λ k e. all k (contains-find k s h ∙ e)))),
      )
    where
      contained :
          (k : K)
          → contains k s ≡ true
          → All (λ a. contains a t ≡ true) (inorder s.tree)
          → contains k t ≡ true
      contained k c all = elim (Option-cases (find k (inorder s.tree))) [
        | inl n ↦ ground (arith, sym c ∙ contains-find k s h ∙ ap is_some n)
        | inr (x, e) ↦
            contains-find k t g
            ∙ ap is_some (find-same k x (inorder t.tree) (find-same_key k x (inorder s.tree) e))
            ∙ sym (contains-find x t g)
            ∙ All-find (inorder s.tree) (λ a. contains a t) k x all e
      ]
