-- ===== src/FSharpMap.antt =====
-- Collections.FSharpMap, Map and MapUtil of
-- GlutenFree.OddJob.Manager.Presentation.WS/Scripts/WebSharper/WebSharper.Collections.js: immutable
-- maps. An entry's value is an option: `Pair.New(k, void 0)`, the probe, has none.
pub mod Laws
use odd_job.Prelude.{
  ℕ, Bool, true, false, Option, none, some, List, [], ◌∷◌, ◌++◌, map, ◌>>=◌, is_some, if◌then◌else◌,
  not, ◌&&◌,
}
use odd_job.Comparable.{Comparable, Pair, pair}
use odd_job.SortedList.Laws.{sort, distinct_from}
use odd_job.Seq.Loops.{fold, forall, exists, try_pick}
use odd_job.Seq.Slices.{filter_seq, partition}
use odd_job.BalancedTree
use odd_job.BalancedTree.{Tree}

abbrev pub Entry {ℓ κ} : Type ℓ → Type κ → Type (ℓ ⊔ κ)
Entry K V = Pair K (Option V)

pub record FSharpMap {ℓ κ} (K : Type ℓ) (V : Type κ) : Type (ℓ ⊔ κ) where
  pub tree : Tree (Entry K V)

module _ {ℓ κ} {K : Type ℓ} {V : Type κ} where
  abbrev pub entry : K → V → Entry K V
  entry k v = record { key = k; value = some v }

  abbrev pub probe : K → Entry K V
  probe k = record { key = k; value = none }

  abbrev pub value_of : Option (Entry K V) → Option V
  value_of none = none
  value_of (some e) = e.value

  unfoldable pub items : FSharpMap K V → List (Entry K V)
  items m = BalancedTree.enumerate false m.tree

  unfoldable pub get_is_empty : FSharpMap K V → Bool
  get_is_empty m = elim m.tree [ BalancedTree.null ↦ true | BalancedTree.new _ _ _ _ _ ↦ false ]

  unfoldable pub get_count : FSharpMap K V → ℕ
  get_count m = BalancedTree.count m.tree

  abbrev pub of_tree : Option (Tree (Entry K V)) → Option (FSharpMap K V)
  of_tree t = t >>= λ tree. some (record { tree = tree })

  -- `Map.Filter` and `Map.Partition`: the trees are built from what is left, in order.
  unfoldable pub filter_map : (K → Option V → Bool) → FSharpMap K V → Option (FSharpMap K V)
  filter_map f m = of_tree (BalancedTree.build (filter_seq (λ e. f e.key e.value) (items m)))

  unfoldable pub partition_map :
      (K → Option V → Bool) → FSharpMap K V → Option (FSharpMap K V × FSharpMap K V)
  partition_map f m = do
    let p = partition (λ (e : Entry K V). f e.key e.value) (items m)
    left ← of_tree (BalancedTree.build p.0)
    right ← of_tree (BalancedTree.build p.1)
    some (left, right)

  unfoldable pub fold_map {μ} : {S : Type μ} → (S → K → Option V → S) → S → FSharpMap K V → S
  fold_map f s m = fold (λ s' e. f s' e.key e.value) s (items m)

  unfoldable pub fold_map_back {μ} : {S : Type μ} → (K → Option V → S → S) → FSharpMap K V → S → S
  fold_map_back f m s = fold (λ s' e. f e.key e.value s') s (BalancedTree.enumerate true m.tree)

  unfoldable pub forall_map : (K → Option V → Bool) → FSharpMap K V → Bool
  forall_map f m = forall (λ (e : Entry K V). f e.key e.value) (items m)

  unfoldable pub exists_map : (K → Option V → Bool) → FSharpMap K V → Bool
  exists_map f m = exists (λ (e : Entry K V). f e.key e.value) (items m)

  unfoldable pub try_pick_map {μ} :
      {B : Type μ} → (K → Option V → Option B) → FSharpMap K V → Option B
  try_pick_map f m = try_pick (λ (e : Entry K V). f e.key e.value) (items m)

  -- `FindKey` is this one; its `none` is the failure "KeyNotFoundException".
  unfoldable pub try_find_key : (K → Option V → Bool) → FSharpMap K V → Option K
  try_find_key f m =
      try_pick (λ (e : Entry K V). if f e.key e.value then some e.key else none) (items m)

module _ {ℓ κ} {K : Type ℓ} {V : Type κ} ⦃o : Comparable K⦄ where
  unfoldable pub try_find : K → FSharpMap K V → Option V
  try_find k m = value_of (BalancedTree.try_find (probe k) m.tree)

  -- `get_Item`; `none` is the failure "The given key was not present in the dictionary."
  unfoldable pub get_item : K → FSharpMap K V → Option V
  get_item k m = try_find k m

  unfoldable pub contains_key : K → FSharpMap K V → Bool
  contains_key k m = BalancedTree.contains (probe k) m.tree

  unfoldable pub add : K → V → FSharpMap K V → FSharpMap K V
  add k v m = record { tree = BalancedTree.add (entry k v) m.tree }

  unfoldable pub remove : K → FSharpMap K V → Option (FSharpMap K V)
  remove k m = of_tree (BalancedTree.remove (probe k) m.tree)

  -- `BalancedTree.OfSeq`, which `Map.OfArray` calls; `MapUtil.fromSeq` does the same by keys.
  unfoldable pub of_seq : List (Entry K V) → Option (FSharpMap K V)
  of_seq data_items = of_tree (BalancedTree.build (sort (distinct_from [] data_items)))

  unfoldable pub map_values : (K → Option V → V) → FSharpMap K V → Option (FSharpMap K V)
  map_values f m = of_seq (map (λ (e : Entry K V). entry e.key (f e.key e.value)) (items m))
