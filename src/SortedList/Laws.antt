-- ===== src/SortedList/Laws.antt =====
-- Lookups after insertion and deletion in a sorted list, and that both keep it sorted.
use Prim.Native.Nat.{Ordering}
use Prim.Native.Nat.Ordering.{lt, eq, gt}
use odd_job.Prelude.{
  ◌≡◌, refl, ◌∙◌, List, [], ◌∷◌, ◌++◌, arith, Option, none, some, Bool, is_some, if◌then◌else◌,
}
use odd_job.Comparable.{Comparable}
use odd_job.Seq.Slices.{filter_seq}
use odd_job.SortedList.{
  AllAbove, Sorted, find, insert_with, erase, AllAbove-of_lt, AllAbove-of_eq, find-AllAbove,
}

abbrev pub pick {κ} : {A : Type κ} → Ordering → A → A → A
pick d x y = elim d [ eq ↦ x | _ ↦ y ]

module _ {ℓ} {K : Type ℓ} ⦃o : Comparable K⦄ where
  -- The later of two entries with one key.
  abbrev pub latest : K → K → K
  latest _ k = k

  -- `x` where the keys compare equal, else `y`.
  abbrev pub if_same {κ} : {A : Type κ} → K → K → A → A → A
  if_same j k x y = pick (o.cmp j k) x y

  pub find-insert_with :
      (j k : K) (xs : List K) → find j (insert_with latest k xs) ≡ if_same j k (some k) (find j xs)
  find-insert_with j k [] = ground arith
  find-insert_with j k (x ∷ xs) = ground (
    arith,
    find-insert_with j k xs,
    o.eq_trans j x k,
    o.eq_trans j k x,
    o.eq_symm j k,
    o.eq_symm k x,
    o.eq_trans k j x,
  )

  AllAbove-insert_with :
      (j k : K) (xs : List K)
      → o.cmp j k ≡ lt
      → AllAbove j xs
      → AllAbove j (insert_with latest k xs)
  AllAbove-insert_with j k [] h a = (h, tt)
  AllAbove-insert_with j k (x ∷ xs) h a = ground (arith, AllAbove-insert_with j k xs h a.1)

  pub Sorted-insert_with : (k : K) (xs : List K) → Sorted xs → Sorted (insert_with latest k xs)
  Sorted-insert_with k [] s = (tt, tt)
  Sorted-insert_with k (x ∷ xs) s = ground (
    arith,
    Sorted-insert_with k xs s.1,
    AllAbove-insert_with x k xs,
    o.lt_of_gt k x,
    AllAbove-of_lt k x xs,
    AllAbove-of_eq k x xs,
  )

  AllAbove-erase : (j k : K) (xs : List K) → AllAbove j xs → AllAbove j (erase k xs)
  AllAbove-erase j k [] a = tt
  AllAbove-erase j k (x ∷ xs) a = ground (arith, AllAbove-erase j k xs a.1)

  pub Sorted-erase : (k : K) (xs : List K) → Sorted xs → Sorted (erase k xs)
  Sorted-erase k [] s = tt
  Sorted-erase k (x ∷ xs) s = ground (arith, Sorted-erase k xs s.1, AllAbove-erase x k xs s.0)

  pub find-erase :
      (j k : K) (xs : List K) → Sorted xs → find j (erase k xs) ≡ if_same j k none (find j xs)
  find-erase j k [] s = ground arith
  find-erase j k (x ∷ xs) s = ground (
    arith,
    find-erase j k xs s.1,
    o.eq_trans j x k,
    o.eq_trans j k x,
    o.eq_symm j k,
    o.eq_symm k x,
    o.eq_trans k j x,
    find-AllAbove j xs,
    AllAbove-of_eq j x xs,
  )

  -- Keys that compare equal find the same entry.
  pub find-same : (j k : K) (xs : List K) → o.cmp j k ≡ eq → find j xs ≡ find k xs
  find-same j k [] h = refl
  find-same j k (x ∷ xs) h =
      ground (arith, find-same j k xs h, o.eq_trans j k x, o.eq_trans k j x, o.eq_symm j k)

  -- `Array.prototype.sort` with `Unchecked.Compare` on the items and their indices: a stable sort.
  abbrev pub insert_sorted : K → List K → List K
  insert_sorted k [] = k ∷ []
  insert_sorted k (x ∷ xs) = elim (o.cmp k x) [ gt ↦ x ∷ insert_sorted k xs | _ ↦ k ∷ x ∷ xs ]

  unfoldable pub sort : List K → List K
  sort [] = []
  sort (x ∷ xs) = insert_sorted x (sort xs)

  -- `Seq.distinct`: the first of the items that are equal; `seen` is its hash set. The source's set
  -- tests with `Equals` and `Hash`: this takes them to agree with the comparison, so that two keys
  -- are equal just when they compare as equal.
  unfoldable pub distinct_from : List K → List K → List K
  distinct_from seen [] = []
  distinct_from seen (x ∷ xs) =
      let kept = x ∷ distinct_from (x ∷ seen) xs in
      let skipped = distinct_from seen xs in if is_some (find x seen) then skipped else kept

  insert_sorted_new :
      (k : K) (xs : List K) → find k xs ≡ none → insert_sorted k xs ≡ insert_with latest k xs
  insert_sorted_new k [] h = refl
  insert_sorted_new k (x ∷ xs) h = ground (arith, insert_sorted_new k xs)

  -- After the items seen, a distinct list finds only new keys, each in its first entry.
  find-distinct_from :
      (k : K) (seen xs : List K)
      → find k (distinct_from seen xs) ≡ (if is_some (find k seen) then none else find k xs)
  unfolding distinct_from
  find-distinct_from k seen [] = ground arith
  find-distinct_from k seen (x ∷ xs) =
      ground (
        arith,
        find-distinct_from k (x ∷ seen) xs,
        find-distinct_from k seen xs,
        find-same k x seen,
      )

  -- The keys are pairwise different.
  abbrev Distinct : List K → Type ℓ
  Distinct [] = Unit
  Distinct (x ∷ xs) = (find x xs ≡ none) × Distinct xs

  Distinct-distinct_from : (seen xs : List K) → Distinct (distinct_from seen xs)
  unfolding distinct_from
  Distinct-distinct_from seen [] = tt
  Distinct-distinct_from seen (x ∷ xs) = ground (
    arith,
    Distinct-distinct_from seen xs,
    Distinct-distinct_from (x ∷ seen) xs,
    find-distinct_from x (x ∷ seen) xs,
    o.cmp_refl x,
  )

  record IsSortOf (ys xs : List K) : Type ℓ where
    sorted : Sorted ys
    finds : (k : K) → find k ys ≡ find k xs

  sort-IsSortOf : (xs : List K) → Distinct xs → IsSortOf (sort xs) xs
  unfolding sort
  sort-IsSortOf [] d = record { sorted = tt; finds = λ k. refl }
  sort-IsSortOf (x ∷ xs) d =
      let h = sort-IsSortOf xs d.1 in
      let new = insert_sorted_new x (sort xs) (h.finds x ∙ d.0) in
      record {
        sorted = rw new (Sorted-insert_with x (sort xs) h.sorted);
        finds = λ k. rw new (find-insert_with k x (sort xs) ∙ ground (arith, h.finds k));
      }

  -- The sorted distinct items have strictly ascending keys, and find for each key what the
  -- sequence has first.
  pub sort-distinct :
      (xs : List K)
      → Sorted (sort (distinct_from [] xs))
        × ((k : K) → find k (sort (distinct_from [] xs)) ≡ find k xs)
  sort-distinct xs =
      let h = sort-IsSortOf (distinct_from [] xs) (Distinct-distinct_from [] xs) in
      (h.sorted, λ k. h.finds k ∙ find-distinct_from k [] xs)

-- Filtering a sorted list.
module _ {ℓ} {K : Type ℓ} ⦃o : Comparable K⦄ (p : K → Bool) where
  abbrev pub if_passes : Option K → Option K
  if_passes none = none
  if_passes (some x) = if p x then some x else none

  AllAbove-filter_seq : (k : K) (xs : List K) → AllAbove k xs → AllAbove k (filter_seq p xs)
  unfolding filter_seq
  AllAbove-filter_seq k [] a = tt
  AllAbove-filter_seq k (x ∷ xs) a = ground (arith, AllAbove-filter_seq k xs a.1)

  pub Sorted-filter_seq : (xs : List K) → Sorted xs → Sorted (filter_seq p xs)
  unfolding filter_seq
  Sorted-filter_seq [] s = tt
  Sorted-filter_seq (x ∷ xs) s =
      ground (arith, Sorted-filter_seq xs s.1, AllAbove-filter_seq x xs s.0)

  pub find-filter_seq :
      (k : K) (xs : List K) → Sorted xs → find k (filter_seq p xs) ≡ if_passes (find k xs)
  unfolding filter_seq
  find-filter_seq k [] s = refl
  find-filter_seq k (x ∷ xs) s = ground (
    arith,
    find-filter_seq k xs s.1,
    find-AllAbove k (filter_seq p xs),
    AllAbove-filter_seq k xs,
    AllAbove-of_eq k x xs,
  )

module _ {ℓ} {K : Type ℓ} ⦃o : Comparable K⦄ where
  -- The entry of the first list, else of the second.
  abbrev pub first_of : Option K → Option K → Option K
  first_of none y = y
  first_of (some x) _ = some x

  pub find-append : (k : K) (xs ys : List K) → find k (xs ++ ys) ≡ first_of (find k xs) (find k ys)
  find-append k [] ys = refl
  find-append k (x ∷ xs) ys = ground (arith, find-append k xs ys)
