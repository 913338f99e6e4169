-- ===== src/Grouping.antt =====
-- LINQ's `OrderBy` and `GroupBy` over lists, as the readers of the stores use them.
pub mod Ordered
pub mod Laws
pub mod Queries
use odd_job.Prelude.{ℕ, Bool, true, false, List, [], ◌∷◌, ◌++◌, map, leb, ◌==◌, if◌then◌else◌}

-- `IGrouping`: it has at least one item.
pub record Grouping {ℓ} (A : Type ℓ) : Type ℓ where
  pub key : ℕ
  pub first : A
  pub others : List A

module _ {ℓ} {A : Type ℓ} (key : A → ℕ) where
  abbrev pub insert_by : A → List A → List A
  insert_by x [] = x ∷ []
  insert_by x (y ∷ ys) =
      let rest = insert_by x ys in if leb (key x) (key y) then x ∷ y ∷ ys else y ∷ rest

  -- The order of equal keys is kept.
  unfoldable pub order_by : List A → List A
  order_by [] = []
  order_by (x ∷ xs) = insert_by x (order_by xs)

  abbrev pub add_item : A → List (Grouping A) → List (Grouping A)
  add_item x [] = record { key = key x; first = x; others = [] } ∷ []
  add_item x (g ∷ gs) =
      let rest = add_item x gs in
      if g.key == key x then record g { others = g.others ++ x ∷ [] } ∷ gs else g ∷ rest

  abbrev pub group_onto : List (Grouping A) → List A → List (Grouping A)
  group_onto gs [] = gs
  group_onto gs (x ∷ xs) = group_onto (add_item x gs) xs

  -- The groups come in the order of their first items.
  unfoldable pub group_by : List A → List (Grouping A)
  group_by xs = group_onto [] xs

abbrev pub firsts {ℓ} : {A : Type ℓ} → List (Grouping A) → List A
firsts gs = map (λ g. g.first) gs
