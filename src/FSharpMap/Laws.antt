-- ===== src/FSharpMap/Laws.antt =====
-- The maps of WebSharper.Collections.js as finite functions from keys.
use Prim.Native.Nat.{Ordering}
use Prim.Native.Nat.Ordering.{lt, eq, gt}
use odd_job.Prelude.{
  ◌+◌, ◌≡◌, refl, sym, ap, ◌∙◌, Option, none, some, List, [], ◌∷◌, arith, is_some, inl, inr, length,
  if◌then◌else◌,
}
use odd_job.Comparable.{Comparable, Ordering-cases, pair, compare_keys}
use odd_job.SortedList.{Sorted, find, insert_with, find-AllAbove, AllAbove-of_lt}
use odd_job.SortedList.Laws.{
  latest, pick, if_same, find-insert_with, Sorted-insert_with, Sorted-erase, find-erase, sort,
  distinct_from, sort-distinct, find-same,
}
use odd_job.BalancedTree
use odd_job.BalancedTree.{Tree}
use odd_job.BalancedTree.Inorder.{inorder}
use odd_job.BalancedTree.Shape.{IsSized, IsAvl-IsSized, IsSized-count, put-IsSized}
use odd_job.BalancedTree.Search.{try_find_lem, inorder-put}
use odd_job.BalancedTree.Remove.{remove-Holds}
use odd_job.BalancedTree.Build.{build_lem}
use odd_job.FSharpMap.{
  FSharpMap, Entry, entry, probe, value_of, try_find, contains_key, add, remove, of_seq, get_count,
}

module _ {ℓ κ} {K : Type ℓ} {V : Type κ} ⦃o : Comparable K⦄ where
  -- The entries are sorted by their keys, no key is there twice, and the stored fields are right.
  pub record IsValid (m : FSharpMap K V) : Type (ℓ ⊔ κ) where
    pub ordered : Sorted (inorder m.tree)
    pub sized : IsSized m.tree

  entry-probe : (k : K) (v : V) → pair.cmp (entry k v) (probe k) ≡ eq
  unfolding pair compare_keys
  entry-probe k v = o.cmp_refl k

  value-pick :
      (d : Ordering) (x y : Option (Entry K V))
      → value_of (pick d x y) ≡ pick d (value_of x) (value_of y)
  value-pick lt x y = refl
  value-pick eq x y = refl
  value-pick gt x y = refl

  -- Entries are compared by their keys.
  value-if_same :
      (j : K) (p : Entry K V) (x y : Option (Entry K V))
      → value_of (if_same (probe j) p x y) ≡ if_same j p.key (value_of x) (value_of y)
  unfolding pair compare_keys
  value-if_same j p x y = value-pick (o.cmp j p.key) x y

  try_find-eq-find :
      (k : K) (m : FSharpMap K V)
      → IsValid m
      → try_find k m ≡ value_of (find (probe k) (inorder m.tree))
  unfolding try_find
  try_find-eq-find k m v = ap value_of (try_find_lem (probe k) m.tree v.ordered).0

  inorder-add :
      (k : K) (v : V) (m : FSharpMap K V)
      → IsValid m
      → inorder (add k v m).tree ≡ insert_with latest (entry k v) (inorder m.tree)
  unfolding add BalancedTree.add
  inorder-add k v m h = inorder-put latest (entry k v) m.tree h.ordered

  -- `Add` keeps a map valid, binds the key to the value, also where it was bound before, and
  -- leaves the bindings of all keys that compare different as they were.
  pub add_lem :
      (k : K) (v : V) (m : FSharpMap K V)
      → IsValid m
      → IsValid (add k v m)
        × ((j : K) → try_find j (add k v m) ≡ if_same j k (some v) (try_find j m))
  unfolding add BalancedTree.add
  add_lem k v m h =
      let items = inorder-add k v m h in
      let valid : IsValid (add k v m) = record {
        ordered = rw items (Sorted-insert_with (entry k v) (inorder m.tree) h.ordered);
        sized = put-IsSized latest (entry k v) m.tree h.sized;
      } in
      (
        valid,
        λ j.
            try_find-eq-find j (add k v m) valid
            ∙ rw (items, find-insert_with (probe j) (entry k v) (inorder m.tree))
                (value-if_same j (entry k v) (some (entry k v)) (find (probe j) (inorder m.tree))
                  ∙ ap (if_same j k (some v)) (sym (try_find-eq-find j m h))),
      )

  -- What a map that may not be made looks like if it is: always made, valid, and with these bindings.
  pub record Reads (r : Option (FSharpMap K V)) (g : K → Option V) : Type (ℓ ⊔ κ) where
    pub result : FSharpMap K V
    pub made : r ≡ some result
    pub valid : IsValid result
    pub reads : (j : K) → try_find j result ≡ g j

  -- `Remove` of a valid map gives a valid map in which the key is not bound and every key that
  -- compares different is bound as before.
  pub remove-Reads :
      (k : K) (m : FSharpMap K V)
      → IsValid m
      → Reads (remove k m) (λ j. if_same j k none (try_find j m))
  unfolding remove
  remove-Reads k m h =
      let r = remove-Holds (probe k) m.tree h.ordered h.sized in
      let out : FSharpMap K V = record { tree = r.tree } in
      let valid : IsValid out = record {
        ordered = rw r.ordered (Sorted-erase (probe k) (inorder m.tree) h.ordered);
        sized = r.sized;
      } in
      record {
        result = out;
        made = rw r.made;
        valid = valid;
        reads = λ j.
            try_find-eq-find j out valid
            ∙ rw (r.ordered, find-erase (probe j) (probe k) (inorder m.tree) h.ordered)
                (value-if_same j (probe k) none (find (probe j) (inorder m.tree))
                  ∙ ap (if_same j k none) (sym (try_find-eq-find j m h)));
      }

  -- A map of any sequence of entries is made, is valid, and binds each key to the value that the
  -- sequence gives it first.
  pub of_seq-Reads : (xs : List (Entry K V)) → Reads (of_seq xs) (λ j. value_of (find (probe j) xs))
  unfolding of_seq
  of_seq-Reads xs =
      let (t, made, ordered, avl, _, _) = build_lem (sort (distinct_from [] xs)) in
      let (sorted, finds) = sort-distinct xs in
      let out : FSharpMap K V = record { tree = t } in
      let valid : IsValid out = record {
        ordered = rw ordered sorted;
        sized = IsAvl-IsSized t avl;
      } in
      record {
        result = out;
        made = rw made;
        valid = valid;
        reads = λ j. try_find-eq-find j out valid ∙ rw ordered (ap value_of (finds (probe j)));
      }

  length-insert_with :
      (e : Entry K V) (xs : List (Entry K V))
      → Sorted xs
      → length (insert_with latest e xs) ≡ length xs + (if is_some (find e xs) then 0 else 1)
  length-insert_with e [] s = refl
  length-insert_with e (x ∷ xs) s = elim (Ordering-cases (pair.cmp e x)) [
    | inl l ↦
        rw (l, insert_with, find)
          (rw (find-AllAbove e xs (AllAbove-of_lt e x xs l s.0)) (omega arith))
    | inr (inl q) ↦ rw (q, insert_with, find) (omega arith)
    | inr (inr g) ↦ rw (g, insert_with, find) (omega (arith, length-insert_with e xs s.1))
  ]

  -- `Count` of a valid map is the number of its entries; `Add` of a key that it does not contain
  -- makes it one more, and `Add` of one that it contains leaves it.
  pub get_count_lem :
      (k : K) (v : V) (m : FSharpMap K V)
      → IsValid m
      → (get_count m ≡ length (inorder m.tree))
        × (get_count (add k v m) ≡ get_count m + (if contains_key k m then 0 else 1))
  unfolding get_count contains_key
  get_count_lem k v m h =
      let here = IsSized-count m.tree h.sized in
      let there = IsSized-count (add k v m).tree (add_lem k v m h).0.sized in
      let same = find-same (entry k v) (probe k) (inorder m.tree) (entry-probe k v) in
      (
        here,
        there
            ∙ ap length (inorder-add k v m h)
            ∙ length-insert_with (entry k v) (inorder m.tree) h.ordered
            ∙ rw (same, (try_find_lem (probe k) m.tree h.ordered).1, here),
      )
