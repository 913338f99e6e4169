-- ===== src/Linq.antt =====
-- Linq of GlutenFree.OddJob.Manager.Presentation.WS/Scripts/WebSharper/WebSharper.Collections.js, over
-- the items that a sequence gives. A thrown exception is `none`; a nullable value is an option.
pub mod Laws
mod Examples
use odd_job.Prelude.{
  ℕ, zero, suc, ◌+◌, ◌-◌, Bool, true, false, Option, none, some, List, [], ◌∷◌, ◌++◌, map, ltb,
  ◌==◌, if◌then◌else◌, not, ◌&&◌, ◌>>=◌, is_some,
}
use mathlib.Core.List.{reverse}
use odd_job.Comparable.{Comparable}
use odd_job.Seq.Loops.{fold, nth, try_find, is_empty, sum, max_seq, min_seq}
use odd_job.Seq.Slices.{mapi, collect, concat, choose, init}
use odd_job.HashTable.{Hashing, HashSet, empty}
use odd_job.HashTable

module _ {ℓ} {A : Type ℓ} where
  abbrev pub or_default : A → Option A → A
  or_default d none = d
  or_default d (some x) = x

  unfoldable pub element_at_or_default : List A → ℕ → A → A
  element_at_or_default s index d = or_default d (nth index s)

  unfoldable pub first_or_default : List A → A → A
  first_or_default [] d = d
  first_or_default (x ∷ _) d = x

  unfoldable pub first_or_default_where : List A → (A → Bool) → A → A
  first_or_default_where s predicate d = or_default d (try_find predicate s)

  unfoldable pub last_pred : List A → (A → Bool) → Option A
  last_pred s predicate = fold (λ acc elt. if predicate elt then some elt else acc) none s

  unfoldable pub last : List A → (A → Bool) → Option A
  last s predicate = last_pred s predicate

  unfoldable pub last_or_default : List A → (A → Bool) → A → A
  last_or_default s predicate d = or_default d (last_pred s predicate)

  -- `none` once a second item matches; `some found` otherwise.
  unfoldable pub single_from : Option A → List A → (A → Bool) → Option (Option A)
  single_from found [] predicate = some found
  single_from found (x ∷ s) predicate =
      let matched = single_from (some x) s predicate in
      let passed = single_from found s predicate in
      if predicate x then (if is_some found then none else matched) else passed

  unfoldable pub single_or_default : List A → (A → Bool) → A → Option A
  single_or_default s predicate d =
      single_from none s predicate >>= λ found. some (or_default d found)

  unfoldable pub single : List A → (A → Bool) → Option A
  single s predicate = single_from none s predicate >>= λ found. found

  unfoldable pub where_from : ℕ → List A → (A → ℕ → Bool) → List A
  where_from i [] predicate = []
  where_from i (x ∷ s) predicate =
      let rest = where_from (i + 1) s predicate in if predicate x i then x ∷ rest else rest

  unfoldable pub where_indexed : List A → (A → ℕ → Bool) → List A
  where_indexed s predicate = where_from 0 s predicate

  unfoldable pub take_while : List A → (A → Bool) → List A
  take_while [] predicate = []
  take_while (x ∷ s) predicate =
      let rest = take_while s predicate in if predicate x then x ∷ rest else []

  unfoldable pub take_while_from : ℕ → List A → (A → ℕ → Bool) → List A
  take_while_from i [] predicate = []
  take_while_from i (x ∷ s) predicate =
      let rest = take_while_from (i + 1) s predicate in if predicate x i then x ∷ rest else []

  unfoldable pub take_while_indexed : List A → (A → ℕ → Bool) → List A
  take_while_indexed s predicate = take_while_from 0 s predicate

  unfoldable pub take_from : ℕ → ℕ → List A → List A
  take_from i count [] = []
  take_from i count (x ∷ s) =
      let rest = take_from (i + 1) count s in if ltb i count then x ∷ rest else []

  unfoldable pub take : List A → ℕ → List A
  take s count = take_from 0 count s

  unfoldable pub skip_from : ℕ → ℕ → List A → List A
  skip_from i count [] = []
  skip_from i count (x ∷ s) =
      let rest = skip_from (i + 1) count s in if ltb i count then rest else x ∷ s

  unfoldable pub skip : List A → ℕ → List A
  skip s count = skip_from 0 count s

  unfoldable pub skip_while : List A → (A → Bool) → List A
  skip_while [] predicate = []
  skip_while (x ∷ s) predicate =
      let rest = skip_while s predicate in if predicate x then rest else x ∷ s

  unfoldable pub skip_while_from : ℕ → List A → (A → ℕ → Bool) → List A
  skip_while_from i [] predicate = []
  skip_while_from i (x ∷ s) predicate =
      let rest = skip_while_from (i + 1) s predicate in if predicate x i then rest else x ∷ s

  unfoldable pub skip_while_indexed : List A → (A → ℕ → Bool) → List A
  skip_while_indexed s predicate = skip_while_from 0 s predicate

  -- The loop over the two enumerators.
  unfoldable pub equal_from : (A → A → Bool) → List A → List A → Bool
  equal_from c_equals [] [] = true
  equal_from c_equals [] (_ ∷ _) = false
  equal_from c_equals (x ∷ e1) [] = false
  equal_from c_equals (x ∷ e1) (y ∷ e2) = c_equals x y && equal_from c_equals e1 e2

  -- Both enumerators are of the first sequence.
  unfoldable pub sequence_equal : List A → List A → (A → A → Bool) → Bool
  sequence_equal s second c_equals = equal_from c_equals s s

  unfoldable pub default_if_empty : List A → A → List A
  default_if_empty s d = if is_empty s then d ∷ [] else s

  unfoldable pub repeat : A → ℕ → List A
  repeat element count = init count (λ _. element)

  unfoldable pub reversed : List A → List A
  reversed s = reverse s

  abbrev present : List (Option A) → List A
  present s = choose (λ x. x) s

  unfoldable pub max : ⦃o : Comparable A⦄ → List (Option A) → Option A
  max s = max_seq (present s)

  unfoldable pub min : ⦃o : Comparable A⦄ → List (Option A) → Option A
  min s = min_seq (present s)

unfoldable pub range : ℕ → ℕ → List ℕ
range start count = init count (λ y. start + y)

unfoldable pub sum_present : List (Option ℕ) → Option ℕ
sum_present s =
    let present = choose (λ x. x) s in if is_empty present then none else some (sum present)

module _ {ℓ κ} {A : Type ℓ} {B : Type κ} where
  unfoldable pub select : List A → (A → ℕ → B) → List B
  select s selector = mapi (λ i x. selector x i) s

  unfoldable pub select_many : List A → (A → ℕ → List B) → List B
  select_many s selector = concat (mapi (λ i x. selector x i) s)

  unfoldable pub select_many_pairs {μ} : {C : Type μ} → List A → (A → List B) → (A → B → C) → List C
  select_many_pairs s selector collection_selector =
      collect (λ t. map (λ c. collection_selector t c) (selector t)) s

module _ {ℓ} {A : Type ℓ} ⦃c : Hashing A⦄ where
  unfoldable pub distinct_from : HashSet A → List A → List A
  distinct_from tbl [] = []
  distinct_from tbl (x ∷ s) =
      let rest = distinct_from (HashTable.add x tbl).1 s in
      if (HashTable.add x tbl).0 then x ∷ rest else rest

  unfoldable pub distinct : List A → List A
  distinct s = distinct_from empty s

  unfoldable pub union : List A → List A → HashSet A
  union s second = HashTable.union_with second (HashTable.of_seq s)

  unfoldable pub except : List A → List A → HashSet A
  except s second = HashTable.except_with second (HashTable.of_seq s)

  unfoldable pub intersect_from : HashSet A → HashSet A → List A → List A
  intersect_from t1 t2 [] = []
  intersect_from t1 t2 (x ∷ second) =
      let fresh = (HashTable.add x t2).0 in
      let rest = intersect_from t1 t2 second in
      let marked = intersect_from t1 (HashTable.add x t2).1 second in
      if HashTable.contains x t1 then (if fresh then x ∷ marked else marked) else rest

  unfoldable pub intersect : List A → List A → List A
  intersect s second = intersect_from (HashTable.of_seq s) empty second
