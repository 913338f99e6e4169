-- ===== src/Linq/Laws.antt =====
-- What the operators of Linq in WebSharper.Collections.js compute.
use odd_job.Prelude.{
  ◌≡◌, refl, ap, ◌∙◌, Bool, true, Option, none, some, List, [], ◌∷◌, not, ◌&&◌, ◌||◌, ◌>>=◌,
  Bool-cases, inl, inr,
}
use odd_job.Seq.Loops.{exists}
use odd_job.Seq.Slices.{filter_seq}
use odd_job.HashTable
use odd_job.HashTable.{Hashing, HashSet, empty}
use odd_job.HashTable.Laws.{IsValid}
use odd_job.HashTable.Subsets.{of_seq_lem, union_with_lem, except_with_lem}
use odd_job.Linq.{
  sequence_equal, equal_from, single_from, single, single_or_default, or_default, union, except,
}

module _ {ℓ} {A : Type ℓ} where
  equal_from-itself :
      (c_equals : A → A → Bool)
      → ((a : A) → c_equals a a ≡ true)
      → (e : List A) → equal_from c_equals e e ≡ true
  unfolding equal_from
  equal_from-itself c_equals refl_at [] = refl
  equal_from-itself c_equals refl_at (x ∷ e) = rw (refl_at x) (equal_from-itself c_equals refl_at e)

  -- `SequenceEqual` of any two sequences is true, if the comparer takes an item for equal to itself.
  pub sequence_equal-always :
      (s second : List A) (c_equals : A → A → Bool)
      → ((a : A) → c_equals a a ≡ true)
      → sequence_equal s second c_equals ≡ true
  unfolding sequence_equal
  sequence_equal-always s second c_equals refl_at = equal_from-itself c_equals refl_at s

  abbrev pub only_match : List A → Option (Option A)
  only_match [] = some none
  only_match (x ∷ []) = some (some x)
  only_match (x ∷ y ∷ _) = none

  single_from-found :
      (f : A) (s : List A) (predicate : A → Bool)
      → single_from (some f) s predicate ≡ only_match (f ∷ filter_seq predicate s)
  unfolding single_from filter_seq
  single_from-found f [] predicate = refl
  single_from-found f (x ∷ s) predicate = elim (Bool-cases (predicate x)) [
    | inl t ↦ rw (t, single_from, filter_seq) refl
    | inr n ↦ rw (n, single_from, filter_seq) (single_from-found f s predicate)
  ]

  single_from_lem :
      (s : List A) (predicate : A → Bool)
      → single_from none s predicate ≡ only_match (filter_seq predicate s)
  unfolding single_from filter_seq
  single_from_lem [] predicate = refl
  single_from_lem (x ∷ s) predicate = elim (Bool-cases (predicate x)) [
    | inl t ↦ rw (t, single_from, filter_seq) (single_from-found x s predicate)
    | inr n ↦ rw (n, single_from, filter_seq) (single_from_lem s predicate)
  ]

  -- `Single` gives the one item that matches, and throws where none or more than one does;
  -- `SingleOrDefault` gives the default where none does, and throws only where more than one does.
  pub single_lem :
      (s : List A) (predicate : A → Bool) (d : A)
      → (single s predicate ≡ (only_match (filter_seq predicate s) >>= λ found. found))
        × (single_or_default s predicate d
            ≡ (only_match (filter_seq predicate s) >>= λ found. some (or_default d found)))
  unfolding single single_or_default
  single_lem s predicate d = (
    ap (λ m. m >>= λ found. found) (single_from_lem s predicate),
    ap (λ m. m >>= λ found. some (or_default d found)) (single_from_lem s predicate),
  )

module _ {ℓ} {A : Type ℓ} ⦃c : Hashing A⦄ where
  -- Whether some item of a sequence is equal to one.
  abbrev pub has_equal : List A → A → Bool
  has_equal s j = exists (λ a. c.equals a j) s

  -- `Union` and `Except` give valid sets: of the items equal to one of either sequence, and of those
  -- equal to one of the first and to none of the second.
  pub union-except_lem :
      (s second : List A)
      → IsValid (union s second)
        × IsValid (except s second)
        × ((j : A) → HashTable.contains j (union s second) ≡ (has_equal s j || has_equal second j))
        × ((j : A)
            → HashTable.contains j (except s second) ≡ (has_equal s j && not (has_equal second j)))
  unfolding union except
  union-except_lem s second =
      let (made, holds) = of_seq_lem s in
      let (joined, in_union) = union_with_lem second (HashTable.of_seq s) made in
      let (left, in_rest) = except_with_lem second (HashTable.of_seq s) made in
      (joined, left, λ j. in_union j ∙ rw (holds j) refl, λ j. in_rest j ∙ rw (holds j) refl)
