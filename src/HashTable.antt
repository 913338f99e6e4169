-- ===== src/HashTable.antt =====
-- Collections.HashSet of GlutenFree.OddJob.Manager.Presentation.WS/Scripts/WebSharper/WebSharper.Main.js:
-- buckets of items by their hash, and a count. A hash is an array's index; the buckets stand in the
-- order of their indices, as `for(var k in o)` goes through them.
pub mod Buckets
pub mod Laws
pub mod Subsets
mod Examples
use odd_job.Prelude.{
  ℕ, ◌+◌, ◌-◌, Bool, true, false, Option, none, some, List, [], ◌∷◌, ◌++◌, length, ltb, ◌==◌,
  if◌then◌else◌, not, ◌&&◌, ◌≡◌,
}
use Prim.Native.Nat.{compare, Ordering}
use Prim.Native.Nat.Ordering.{lt, eq, gt}
use odd_job.Seq.Loops.{exists, forall}

-- What the set is made with: `DictionaryUtil.equals(comparer)` and `getHashCode`.
pub record Hashing {ℓ} (A : Type ℓ) : Type ℓ where
  pub equals : A → A → Bool
  pub hash : A → ℕ
  pub equals_refl : (a : A) → equals a a ≡ true
  pub equals_symm : (a b : A) → equals a b ≡ true → equals b a ≡ true
  pub equals_trans : (a b c : A) → equals a b ≡ true → equals b c ≡ true → equals a c ≡ true
  pub equals_hash : (a b : A) → equals a b ≡ true → hash a ≡ hash b

pub record HashSet {ℓ} (A : Type ℓ) : Type ℓ where
  pub data_of : List (ℕ × List A)
  pub count : ℕ

module _ {ℓ} {A : Type ℓ} where
  abbrev pub bucket : ℕ → List (ℕ × List A) → Option (List A)
  bucket h [] = none
  bucket h ((k, arr) ∷ rest) = elim (compare h k) [ lt ↦ none | eq ↦ some arr | gt ↦ bucket h rest ]

  abbrev pub set_bucket : ℕ → List A → List (ℕ × List A) → List (ℕ × List A)
  set_bucket h arr [] = (h, arr) ∷ []
  set_bucket h arr ((k, old) ∷ rest) = elim (compare h k) [
    | lt ↦ (h, arr) ∷ (k, old) ∷ rest
    | eq ↦ (k, arr) ∷ rest
    | gt ↦ (k, old) ∷ set_bucket h arr rest
  ]

  -- `HashSetUtil.concat`
  unfoldable pub concat : List (ℕ × List A) → List A
  concat [] = []
  concat ((_, arr) ∷ rest) = arr ++ concat rest

  abbrev pub empty : HashSet A
  empty = record { data_of = []; count = 0 }

module _ {ℓ} {A : Type ℓ} ⦃c : Hashing A⦄ where
  -- `while(c&&i<l)`
  unfoldable pub arr_contains : A → List A → Bool
  arr_contains item [] = false
  arr_contains item (x ∷ arr) =
      let rest = arr_contains item arr in if c.equals x item then true else rest

  -- Whether an item was found, and the array without it.
  unfoldable pub arr_remove : A → List A → Bool × List A
  arr_remove item [] = (false, [])
  arr_remove item (x ∷ arr) =
      let (found, rest) = arr_remove item arr in
      if c.equals x item then (true, arr) else (found, x ∷ rest)

  unfoldable pub contains : A → HashSet A → Bool
  contains item s = elim (bucket (c.hash item) s.data_of) [
    | none ↦ false
    | some arr ↦ arr_contains item arr
  ]

  abbrev pub with_bucket : A → List A → ℕ → HashSet A → HashSet A
  with_bucket item arr n s = record { data_of = set_bucket (c.hash item) arr s.data_of; count = n }

  unfoldable pub add : A → HashSet A → Bool × HashSet A
  add item s = elim (bucket (c.hash item) s.data_of) [
    | none ↦ (true, with_bucket item (item ∷ []) (s.count + 1) s)
    | some arr ↦
        if arr_contains item arr
        then (false, s)
        else (true, with_bucket item (arr ++ item ∷ []) (s.count + 1) s)
  ]

  unfoldable pub remove : A → HashSet A → Bool × HashSet A
  remove item s = elim (bucket (c.hash item) s.data_of) [
    | none ↦ (false, s)
    | some arr ↦
        let (found, rest) = arr_remove item arr in
        if found then (true, with_bucket item rest (s.count - 1) s) else (false, s)
  ]

  unfoldable pub union_with : List A → HashSet A → HashSet A
  union_with [] s = s
  union_with (x ∷ xs) s = union_with xs (add x s).1

  unfoldable pub except_with : List A → HashSet A → HashSet A
  except_with [] s = s
  except_with (x ∷ xs) s = except_with xs (remove x s).1

  unfoldable pub symmetric_except_with : List A → HashSet A → HashSet A
  symmetric_except_with [] s = s
  symmetric_except_with (x ∷ xs) s =
      symmetric_except_with xs (if contains x s then (remove x s).1 else (add x s).1)

  -- `HashSet.New$4`
  unfoldable pub of_seq : List A → HashSet A
  of_seq xs = union_with xs empty

  -- The loop of `RemoveWhere` over the items at its start.
  unfoldable pub remove_where_from : (A → Bool) → ℕ → List A → HashSet A → ℕ × HashSet A
  remove_where_from cond res [] s = (res, s)
  remove_where_from cond res (item ∷ all) s =
      let (found, s') = remove item s in
      remove_where_from cond (if cond item && found then res + 1 else res) all
        (if cond item then s' else s)

  unfoldable pub remove_where : (A → Bool) → HashSet A → ℕ × HashSet A
  remove_where cond s = remove_where_from cond 0 (concat s.data_of) s

  unfoldable pub intersect_with : List A → HashSet A → HashSet A
  intersect_with xs s = except_with_unless (of_seq xs) (concat s.data_of) s
    where
      except_with_unless : HashSet A → List A → HashSet A → HashSet A
      except_with_unless other [] r = r
      except_with_unless other (x ∷ all) r =
          except_with_unless other all (if contains x other then r else (remove x r).1)

  unfoldable pub overlaps : List A → HashSet A → Bool
  overlaps xs s = exists (λ a. contains a s) xs

  unfoldable pub is_superset_of : List A → HashSet A → Bool
  is_superset_of xs s = forall (λ a. contains a s) xs

  unfoldable pub is_subset_of : List A → HashSet A → Bool
  is_subset_of xs s = forall (λ a. contains a (of_seq xs)) (concat s.data_of)

  unfoldable pub is_proper_superset_of : List A → HashSet A → Bool
  is_proper_superset_of xs s = ltb (length xs) s.count && is_superset_of xs s

  unfoldable pub is_proper_subset_of : List A → HashSet A → Bool
  is_proper_subset_of xs s = ltb s.count (length xs) && is_subset_of xs s

  unfoldable pub set_equals : List A → HashSet A → Bool
  set_equals xs s = (s.count == (of_seq xs).count) && is_superset_of (concat (of_seq xs).data_of) s
