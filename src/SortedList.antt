-- ===== src/SortedList.antt =====
-- Sorted lists without repeated keys: the view under which the trees, maps and sets of
-- WebSharper.Collections.js are specified.
pub mod Laws
use Prim.Native.Nat.Ordering.{lt, eq, gt}
use odd_job.Prelude.{◌≡◌, refl, List, [], ◌∷◌, ◌++◌, arith, Option, none, some}
use odd_job.Comparable.{Comparable}

module _ {ℓ κ} {A : Type ℓ} where
  abbrev pub All : (A → Type κ) → List A → Type κ
  All P [] = Unit
  All P (x ∷ xs) = P x × All P xs

  pub All-append : (P : A → Type κ) (xs ys : List A) → All P xs → All P ys → All P (xs ++ ys)
  All-append P [] ys a b = b
  All-append P (x ∷ xs) ys a b = (a.0, All-append P xs ys a.1 b)

  pub All-split : (P : A → Type κ) (xs ys : List A) → All P (xs ++ ys) → All P xs × All P ys
  All-split P [] ys a = (tt, a)
  All-split P (x ∷ xs) ys a = let (l, r) = All-split P xs ys a.1 in ((a.0, l), r)

  pub All-imp : {P Q : A → Type κ} (f : (x : A) → P x → Q x) (xs : List A) → All P xs → All Q xs
  All-imp f [] a = tt
  All-imp f (x ∷ xs) a = (f x a.0, All-imp f xs a.1)

module _ {ℓ} {K : Type ℓ} ⦃o : Comparable K⦄ where
  abbrev pub AllAbove : K → List K → Type 0
  AllAbove k xs = All (λ x. o.cmp k x ≡ lt) xs

  abbrev pub AllBelow : K → List K → Type 0
  AllBelow k xs = All (λ x. o.cmp k x ≡ gt) xs

  abbrev pub Sorted : List K → Type 0
  Sorted [] = Unit
  Sorted (x ∷ xs) = AllAbove x xs × Sorted xs

  -- The entry whose key compares equal.
  abbrev pub find : K → List K → Option K
  find k [] = none
  find k (x ∷ xs) = elim (o.cmp k x) [ eq ↦ some x | _ ↦ find k xs ]

  -- Puts `k` at its place; an entry with that key is combined with it.
  abbrev pub insert_with : (K → K → K) → K → List K → List K
  insert_with f k [] = k ∷ []
  insert_with f k (x ∷ xs) = elim (o.cmp k x) [
    | lt ↦ k ∷ x ∷ xs
    | eq ↦ f x k ∷ xs
    | gt ↦ x ∷ insert_with f k xs
  ]

  -- Drops the entry with that key.
  abbrev pub erase : K → List K → List K
  erase k [] = []
  erase k (x ∷ xs) = elim (o.cmp k x) [ eq ↦ xs | _ ↦ x ∷ erase k xs ]

  pub AllAbove-of_lt : (j k : K) (xs : List K) → o.cmp j k ≡ lt → AllAbove k xs → AllAbove j xs
  AllAbove-of_lt j k xs h = All-imp (λ x p. o.lt_trans j k x h p) xs

  pub AllAbove-of_eq : (j k : K) (xs : List K) → o.cmp j k ≡ eq → AllAbove k xs → AllAbove j xs
  AllAbove-of_eq j k xs h = All-imp (λ x p. o.eq_lt_trans j k x h p) xs

  -- Splitting and joining a sorted list at an entry.
  pub Sorted-split :
      (xs : List K) (k : K) (ys : List K)
      → Sorted (xs ++ k ∷ ys)
      → AllBelow k xs × AllAbove k ys × Sorted xs × Sorted ys
  Sorted-split [] k ys s = (tt, s.0, tt, s.1)
  Sorted-split (x ∷ xs) k ys s =
      let (below, above, left, right) = Sorted-split xs k ys s.1 in
      let (h, t) = All-split (λ y. o.cmp x y ≡ lt) xs (k ∷ ys) s.0 in
      ((o.gt_of_lt x k t.0, below), above, (h, left), right)

  pub find-AllAbove : (k : K) (xs : List K) → AllAbove k xs → find k xs ≡ none
  find-AllAbove k [] a = refl
  find-AllAbove k (x ∷ xs) a = ground (arith, find-AllAbove k xs)

  pub find-AllBelow : (k : K) (xs ys : List K) → AllBelow k xs → find k (xs ++ ys) ≡ find k ys
  find-AllBelow k [] ys a = refl
  find-AllBelow k (x ∷ xs) ys a = ground (arith, find-AllBelow k xs ys)

  pub insert_with-AllBelow :
      (f : K → K → K) (k : K) (xs ys : List K)
      → AllBelow k xs
      → insert_with f k (xs ++ ys) ≡ xs ++ insert_with f k ys
  insert_with-AllBelow f k [] ys a = refl
  insert_with-AllBelow f k (x ∷ xs) ys a = ground (arith, insert_with-AllBelow f k xs ys)

  pub insert_with-AllAbove :
      (f : K → K → K) (k : K) (xs : List K) → AllAbove k xs → insert_with f k xs ≡ k ∷ xs
  insert_with-AllAbove f k [] a = refl
  insert_with-AllAbove f k (x ∷ xs) a = ground arith

  pub erase-AllBelow :
      (k : K) (xs ys : List K) → AllBelow k xs → erase k (xs ++ ys) ≡ xs ++ erase k ys
  erase-AllBelow k [] ys a = refl
  erase-AllBelow k (x ∷ xs) ys a = ground (arith, erase-AllBelow k xs ys)

  pub erase-AllAbove : (k : K) (xs : List K) → AllAbove k xs → erase k xs ≡ xs
  erase-AllAbove k [] a = refl
  erase-AllAbove k (x ∷ xs) a = ground (arith, erase-AllAbove k xs)
