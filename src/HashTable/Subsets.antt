-- ===== src/HashTable/Subsets.antt =====
-- Hash sets made from sequences, and how they compare to sequences (WebSharper.Main.js).
use Prim.Native.Nat.{compare}
use Prim.Native.Nat.Ordering.{eq}
use odd_job.Prelude.{
  ℕ, ◌≡◌, refl, ap, ◌∙◌, Bool, true, false, List, [], ◌∷◌, arith, not, ◌&&◌, ◌||◌,
}
use odd_job.Seq.Loops.{exists, forall}
use odd_job.Seq.Searches.{exists-cons, exists-nil, forall_iff}
use odd_job.HashTable.{
  Hashing, HashSet, bucket, concat, arr_contains, contains, add, remove, except_with, empty,
  union_with, of_seq, is_subset_of, is_superset_of, is_proper_subset_of, set_equals,
}
use odd_job.HashTable.Laws.{IsValid, add-IsValid, remove-IsValid}

or_assoc : (a b d : Bool) → ((a || b) || d) ≡ (a || (b || d))
or_assoc a b d = ground arith

or_none : (a : Bool) → a ≡ (a || false)
or_none a = ground arith

compare_self : (n : ℕ) → compare n n ≡ eq
compare_self n = ground arith

and_true : (a : Bool) → a ≡ (a && not false)
and_true a = ground arith

and_not : (a b d : Bool) → ((a && not b) && not d) ≡ (a && not (b || d))
and_not a b d = ground arith

module _ {ℓ} {A : Type ℓ} ⦃c : Hashing A⦄ where
  pub empty-IsValid : IsValid (empty {A = A})
  unfolding concat
  empty-IsValid = record { distinct = λ h. tt; counted = refl }

  pub contains-empty : (j : A) → contains j empty ≡ false
  unfolding contains
  contains-empty j = refl

  -- `UnionWith` adds the items of a sequence to a valid set, and keeps it valid.
  pub union_with_lem :
      (xs : List A) (s : HashSet A)
      → IsValid s
      → IsValid (union_with xs s)
        × ((j : A) → contains j (union_with xs s) ≡ (contains j s || exists (λ a. c.equals a j) xs))
  unfolding union_with
  union_with_lem [] s v = (v, λ j. rw (exists-nil (λ a. c.equals a j)) (or_none (contains j s)))
  union_with_lem (x ∷ xs) s v =
      let (added, _, _, holds) = add-IsValid x s v in
      let (valid, rest) = union_with_lem xs (add x s).1 added in
      (
        valid,
        λ j.
            rest j
            ∙ rw (holds j, exists-cons (λ a. c.equals a j) x xs)
                (or_assoc (contains j s) (c.equals x j) (exists (λ a. c.equals a j) xs)),
      )

  -- `ExceptWith` removes the items of a sequence.
  pub except_with_lem :
      (xs : List A) (s : HashSet A)
      → IsValid s
      → IsValid (except_with xs s)
        × ((j : A)
            → contains j (except_with xs s) ≡ (contains j s && not (exists (λ a. c.equals a j) xs)))
  unfolding except_with
  except_with_lem [] s v = (v, λ j. rw (exists-nil (λ a. c.equals a j)) (and_true (contains j s)))
  except_with_lem (x ∷ xs) s v =
      let (removed, _, _, holds) = remove-IsValid x s v in
      let (valid, rest) = except_with_lem xs (remove x s).1 removed in
      (
        valid,
        λ j.
            rest j
            ∙ rw (holds j, exists-cons (λ a. c.equals a j) x xs)
                (and_not (contains j s) (c.equals x j) (exists (λ a. c.equals a j) xs)),
      )

  -- A set of a sequence is valid, and contains what some item of the sequence is equal to.
  pub of_seq_lem :
      (xs : List A)
      → IsValid (of_seq xs) × ((j : A) → contains j (of_seq xs) ≡ exists (λ a. c.equals a j) xs)
  unfolding of_seq
  of_seq_lem xs =
      let (valid, holds) = union_with_lem xs empty empty-IsValid in
      (valid, λ j. holds j ∙ rw (contains-empty j) refl)

  abbrev one_of : A → HashSet A
  one_of x = record { data_of = (c.hash x, x ∷ []) ∷ []; count = 1 }

  add-again : (x : A) → add x (one_of x) ≡ (false, one_of x)
  unfolding add arr_contains
  add-again x = rw (compare_self (c.hash x), c.equals_refl x, add, bucket, arr_contains) refl

  of_seq-one : (x : A) → of_seq (x ∷ []) ≡ one_of x
  unfolding of_seq union_with add
  of_seq-one x = refl

  of_seq-two : (x : A) → of_seq (x ∷ x ∷ []) ≡ one_of x
  unfolding of_seq union_with add
  of_seq-two x = ap (λ (p : Bool × HashSet A). p.1) (add-again x)

  contains-one_of : (x : A) → contains x (one_of x) ≡ true
  unfolding contains arr_contains
  contains-one_of x =
      rw (compare_self (c.hash x), c.equals_refl x, contains, bucket, arr_contains) refl

  all_in_one : (x : A) → forall (λ a. contains a (one_of x)) (concat (one_of x).data_of) ≡ true
  unfolding concat
  all_in_one x = (forall_iff (λ a. contains a (one_of x)) (x ∷ [])).1 (contains-one_of x, tt)

  -- Against a sequence that repeats the one item of a set, `IsProperSubsetOf` and `SetEquals` both
  -- hold.
  pub is_proper_subset_of-repeated :
      (x : A)
      → (is_proper_subset_of (x ∷ x ∷ []) (of_seq (x ∷ [])) ≡ true)
        × (set_equals (x ∷ x ∷ []) (of_seq (x ∷ [])) ≡ true)
  unfolding is_proper_subset_of set_equals is_subset_of is_superset_of
  is_proper_subset_of-repeated x = (
    rw (of_seq-one x, of_seq-two x, all_in_one x) refl,
    rw (of_seq-one x, of_seq-two x, all_in_one x) refl,
  )
