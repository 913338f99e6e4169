-- ===== src/Seq/Loops.antt =====
-- The loops of WebSharper.Main.js that read a sequence down to one value. Each `while` is a function
-- of the variables that it changes.
use odd_job.Prelude.{
  ℕ, ◌+◌, Bool, true, false, Option, none, some, List, [], ◌∷◌, ltb, not, if◌then◌else◌,
}
use Prim.Native.Nat.Ordering.{lt, gt}
use odd_job.Comparable.{Comparable}

module _ {ℓ} {A : Type ℓ} where
  -- `while(!r&&e.MoveNext()) r=p(e.Current())`
  unfoldable pub exists_from : Bool → (A → Bool) → List A → Bool
  exists_from true p s = true
  exists_from false p [] = false
  exists_from false p (x ∷ s) = exists_from (p x) p s

  unfoldable pub exists : (A → Bool) → List A → Bool
  exists p s = exists_from false p s

  unfoldable pub forall : (A → Bool) → List A → Bool
  forall p s = not (exists (λ x. not (p x)) s)

  unfoldable pub fold {κ} : {S : Type κ} → (S → A → S) → S → List A → S
  fold f r [] = r
  fold f r (x ∷ s) = fold f (f r x) s

  unfoldable pub length_from : ℕ → List A → ℕ
  length_from i [] = i
  length_from i (x ∷ s) = length_from (i + 1) s

  unfoldable pub length_seq : List A → ℕ
  length_seq s = length_from 0 s

  unfoldable pub is_empty : List A → Bool
  is_empty [] = true
  is_empty (x ∷ s) = false

  unfoldable pub head : List A → Option A
  head [] = none
  head (x ∷ s) = some x

  unfoldable pub exactly_one : List A → Option A
  exactly_one [] = none
  exactly_one (x ∷ []) = some x
  exactly_one (x ∷ y ∷ s) = none

  unfoldable pub reduce : (A → A → A) → List A → Option A
  reduce f [] = none
  reduce f (x ∷ s) = some (fold f x s)

  -- `pos` is one more than in the source, which starts at -1; `cur` is `e.Current()`.
  unfoldable pub nth_from : ℕ → ℕ → Option A → List A → Option A
  nth_from pos index cur [] = if ltb pos (index + 1) then none else cur
  nth_from pos index cur (x ∷ s) =
      let rest = nth_from (pos + 1) index (some x) s in if ltb pos (index + 1) then rest else cur

  unfoldable pub nth : ℕ → List A → Option A
  nth index s = nth_from 0 index none s

  -- `while(r==null&&e.MoveNext())`
  unfoldable pub try_find_from : Option A → (A → Bool) → List A → Option A
  try_find_from (some r) ok s = some r
  try_find_from none ok [] = none
  try_find_from none ok (x ∷ s) = try_find_from (if ok x then some x else none) ok s

  unfoldable pub try_find : (A → Bool) → List A → Option A
  try_find ok s = try_find_from none ok s

  -- `while(loop&&e.MoveNext())`
  unfoldable pub try_find_index_from : Bool → ℕ → (A → Bool) → List A → Option ℕ
  try_find_index_from false i ok s = some i
  try_find_index_from true i ok [] = none
  try_find_index_from true i ok (x ∷ s) =
      try_find_index_from (not (ok x)) (if ok x then i else i + 1) ok s

  unfoldable pub try_find_index : (A → Bool) → List A → Option ℕ
  try_find_index ok s = try_find_index_from true 0 ok s

  unfoldable pub try_pick_from {κ} : {B : Type κ} → Option B → (A → Option B) → List A → Option B
  try_pick_from (some r) f s = some r
  try_pick_from none f [] = none
  try_pick_from none f (x ∷ s) = try_pick_from (f x) f s

  unfoldable pub try_pick {κ} : {B : Type κ} → (A → Option B) → List A → Option B
  try_pick f s = try_pick_from none f s

  -- `Arrays.tryFindBack`: from the end.
  unfoldable pub last_match : (A → Bool) → Option A → List A → Option A
  last_match ok r [] = r
  last_match ok r (x ∷ s) = last_match ok (if ok x then some x else r) s

module _ {ℓ κ} {A : Type ℓ} {B : Type κ} where
  -- `while(!r&&e1.MoveNext()&&e2.MoveNext())`
  unfoldable pub exists2_from : Bool → (A → B → Bool) → List A → List B → Bool
  exists2_from true p s1 s2 = true
  exists2_from false p [] s2 = false
  exists2_from false p (x ∷ s1) [] = false
  exists2_from false p (x ∷ s1) (y ∷ s2) = exists2_from (p x y) p s1 s2

  unfoldable pub exists2 : (A → B → Bool) → List A → List B → Bool
  exists2 p s1 s2 = exists2_from false p s1 s2

  unfoldable pub forall2 : (A → B → Bool) → List A → List B → Bool
  forall2 p s1 s2 = not (exists2 (λ x y. not (p x y)) s1 s2)

unfoldable pub sum : List ℕ → ℕ
sum s = fold (λ a b. a + b) 0 s

module _ {ℓ} {A : Type ℓ} ⦃o : Comparable A⦄ where
  -- The loops of `max` and `min`: the first of the extreme items stays.
  unfoldable pub max_from : A → List A → A
  max_from m [] = m
  max_from m (x ∷ s) = max_from (elim (o.cmp x m) [ gt ↦ x | _ ↦ m ]) s

  unfoldable pub max_seq : List A → Option A
  max_seq [] = none
  max_seq (x ∷ s) = some (max_from x s)

  unfoldable pub min_from : A → List A → A
  min_from m [] = m
  min_from m (x ∷ s) = min_from (elim (o.cmp x m) [ lt ↦ x | _ ↦ m ]) s

  unfoldable pub min_seq : List A → Option A
  min_seq [] = none
  min_seq (x ∷ s) = some (min_from x s)

module _ {ℓ κ} {A : Type ℓ} {B : Type κ} ⦃o : Comparable B⦄ where
  unfoldable pub max_by_from : (A → B) → A → B → List A → A
  max_by_from f m fm [] = m
  max_by_from f m fm (x ∷ s) =
      max_by_from f (elim (o.cmp (f x) fm) [ gt ↦ x | _ ↦ m ])
        (elim (o.cmp (f x) fm) [ gt ↦ f x | _ ↦ fm ]) s

  unfoldable pub max_by : (A → B) → List A → Option A
  max_by f [] = none
  max_by f (x ∷ s) = some (max_by_from f x (f x) s)

  unfoldable pub min_by_from : (A → B) → A → B → List A → A
  min_by_from f m fm [] = m
  min_by_from f m fm (x ∷ s) =
      min_by_from f (elim (o.cmp (f x) fm) [ lt ↦ x | _ ↦ m ])
        (elim (o.cmp (f x) fm) [ lt ↦ f x | _ ↦ fm ]) s

  unfoldable pub min_by : (A → B) → List A → Option A
  min_by f [] = none
  min_by f (x ∷ s) = some (min_by_from f x (f x) s)
