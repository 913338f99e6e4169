-- ===== src/Seq/Splits.antt =====
-- How the functions of WebSharper.Main.js that cut a sequence divide it.
use odd_job.Prelude.{
  ℕ, zero, suc, ◌+◌, ◌≡◌, refl, ◌∙◌, Bool, true, false, none, some, List, [], ◌∷◌, ◌++◌, arith, min,
  leb, not, if◌then◌else◌, take, drop, length, take-append-drop, length-take, append_assoc,
  append-nil, Bool-cases, inl, inr,
}
use odd_job.SortedList.{All}
use odd_job.Seq.Slices.{
  filter_seq, partition, partition_from, take_seq, take_from, skip_seq, skip_while, take_while,
  truncate, truncate_from,
}

module _ {ℓ} {A : Type ℓ} where
  take_from_lem :
      (o k n : ℕ) (s : List A)
      → n ≡ o + k
      → take_from o n s ≡ (if leb k (length s) then some (take k s) else none)
  unfolding take_from
  take_from_lem o zero n [] e = ground arith
  take_from_lem o (suc k) n [] e = ground arith
  take_from_lem o zero n (x ∷ s) e = ground arith
  take_from_lem o (suc k) n (x ∷ s) e = ground (arith, take_from_lem (o + 1) k n s (omega arith))

  skip_seq-all :
      (n : ℕ) (s : List A) → skip_seq n s ≡ (if leb n (length s) then some (drop n s) else none)
  unfolding skip_seq
  skip_seq-all zero s = ground arith
  skip_seq-all (suc n) [] = ground arith
  skip_seq-all (suc n) (x ∷ s) = ground (arith, skip_seq-all n s)

  truncate_from_lem : (i k n : ℕ) (s : List A) → n ≡ i + k → truncate_from i n s ≡ take k s
  unfolding truncate_from
  truncate_from_lem i zero n [] e = refl
  truncate_from_lem i (suc k) n [] e = refl
  truncate_from_lem i zero n (x ∷ s) e = ground arith
  truncate_from_lem i (suc k) n (x ∷ s) e =
      ground (arith, truncate_from_lem (i + 1) k n s (omega arith))

  -- `take` and `skip` give the first items and the others where the sequence is long enough, and
  -- both throw where it is not; `truncate` gives the first items, and all of them where there are
  -- fewer. The first items and the others join to the sequence.
  pub take-skip_lem :
      (n : ℕ) (s : List A)
      → (take_seq n s ≡ (if leb n (length s) then some (take n s) else none))
        × (skip_seq n s ≡ (if leb n (length s) then some (drop n s) else none))
        × (truncate n s ≡ take n s)
        × (take n s ++ drop n s ≡ s)
        × (length (take n s) ≡ min n (length s))
  unfolding take_seq truncate
  take-skip_lem n s = (
    take_from_lem 0 n n s (omega arith),
    skip_seq-all n s,
    truncate_from_lem 0 n n s (omega arith),
    take-append-drop n s,
    length-take n s,
  )

  abbrev pub StartsFailing : (A → Bool) → List A → Type 0
  StartsFailing f [] = Unit
  StartsFailing f (x ∷ s) = f x ≡ false

  -- `takeWhile` and `skipWhile` cut a sequence in two: the first part holds only items that pass,
  -- and the second is empty or starts with one that fails.
  pub take_while-skip_while :
      (f : A → Bool) (s : List A)
      → (take_while f s ++ skip_while f s ≡ s)
        × All (λ x. f x ≡ true) (take_while f s)
        × StartsFailing f (skip_while f s)
  unfolding take_while skip_while
  take_while-skip_while f [] = (refl, tt, tt)
  take_while-skip_while f (x ∷ s) = ground (arith, take_while-skip_while f s)

  partition_from_lem :
      (f : A → Bool) (l r s : List A)
      → partition_from f l r s ≡ (l ++ filter_seq f s, r ++ filter_seq (λ x. not (f x)) s)
  unfolding partition_from filter_seq
  partition_from_lem f l r [] = rw (append-nil l, append-nil r) refl
  partition_from_lem f l r (x ∷ s) = elim (Bool-cases (f x)) [
    | inl t ↦
        rw (t, partition_from, filter_seq)
          (partition_from_lem f (l ++ x ∷ []) r s
            ∙ rw (append_assoc l (x ∷ []) (filter_seq f s)) refl)
    | inr e ↦
        rw (e, partition_from, filter_seq)
          (partition_from_lem f l (r ++ x ∷ []) s
            ∙ rw (append_assoc r (x ∷ []) (filter_seq (λ y. not (f y)) s)) refl)
  ]

  -- `partition` gives the items that pass and those that fail, each in their order, as two
  -- filters do.
  pub partition_lem :
      (f : A → Bool) (s : List A) → partition f s ≡ (filter_seq f s, filter_seq (λ x. not (f x)) s)
  unfolding partition
  partition_lem f s = partition_from_lem f [] [] s

  pub All-filter_seq : (f : A → Bool) (s : List A) → All (λ x. f x ≡ true) (filter_seq f s)
  unfolding filter_seq
  All-filter_seq f [] = tt
  All-filter_seq f (x ∷ s) = ground (arith, All-filter_seq f s)
