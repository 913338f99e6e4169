-- ===== src/BalancedTree/Search.antt =====
-- `Lookup`, `TryFind`, `Contains`, `Put`, `Add` and `Remove` of Collections.BalancedTree in
-- WebSharper.Collections.js against sorted lists.
use Prim.Native.Nat.Ordering.{eq, gt}
use odd_job.Prelude.{
  ℕ, ◌≡◌, refl, sym, ap, ◌∙◌, true, false, List, [], ◌∷◌, ◌++◌, append_assoc, append-nil, subst,
  is_some, inl, inr,
}
use odd_job.Comparable.{Comparable, Ordering-cases}
use odd_job.SortedList.{
  AllAbove, AllBelow, Sorted, find, insert_with, AllAbove-of_lt, AllAbove-of_eq, Sorted-split,
  find-AllAbove, find-AllBelow, insert_with-AllBelow, insert_with-AllAbove, All-append,
}
use odd_job.BalancedTree.{
  Tree, null, new, Spine, branch, lookup_from, lookup, root_of, try_find, contains, put_at, put,
}
use odd_job.BalancedTree.Inorder.{inorder, before, after, plug, inorder-branch, inorder-rebuild}

module _ {ℓ} {K : Type ℓ} ⦃o : Comparable K⦄ where
  -- What holds of the pair that the search for `k` ends in: no item is lost, those before the place
  -- are below `k` and those after it above, and the tree found is null or has a root equal to `k`.
  pub record IsFound (k : K) (items : List K) (t : Tree K) (spine : Spine K) : Type ℓ where
    pub same : plug spine (inorder t) ≡ items
    pub below : AllBelow k (before spine)
    pub above : AllAbove k (after spine)

  abbrev pub AtKey : K → Tree K → Type 0
  AtKey k null = Unit
  AtKey k (new node _ _ _ _) = o.cmp k node ≡ eq

  abbrev pub Found : K → List K → Tree K × Spine K → Type ℓ
  Found k items (t, spine) = IsFound k items t spine × AtKey k t

  Found-of_eq :
      (k : K) {xs ys : List K} (f : Tree K × Spine K) → xs ≡ ys → Found k xs f → Found k ys f
  Found-of_eq k f p h = (record { same = h.0.same ∙ p; below = h.0.below; above = h.0.above }, h.1)

  -- The items around a node of a sorted tree at a spine.
  around :
      (spine : Spine K) (l : List K) (x : K) (r : List K)
      → Sorted (plug spine (l ++ x ∷ r))
      → AllBelow x (before spine ++ l) × AllAbove x (r ++ after spine)
  around spine l x r s =
      let h =
        Sorted-split (before spine ++ l) x (r ++ after spine)
          (subst (λ xs. Sorted xs) (simp append_assoc) s) in
      (h.0, h.1)

  AllBelow-of_gt : (j k : K) (xs : List K) → o.cmp j k ≡ gt → AllBelow k xs → AllBelow j xs
  AllBelow-of_gt j k [] h a = tt
  AllBelow-of_gt j k (x ∷ xs) h a = (
    o.gt_of_lt x j (o.lt_trans x k j (o.lt_of_gt k x a.0) (o.lt_of_gt j k h)),
    AllBelow-of_gt j k xs h a.1,
  )

  AllBelow-of_eq : (j k : K) (xs : List K) → o.cmp j k ≡ eq → AllBelow k xs → AllBelow j xs
  AllBelow-of_eq j k [] h a = tt
  AllBelow-of_eq j k (x ∷ xs) h a = (
    o.gt_of_lt x j (o.lt_eq_trans x k j (o.lt_of_gt k x a.0) (o.eq_symm j k h)),
    AllBelow-of_eq j k xs h a.1,
  )

  pub lookup_from_lem :
      (k : K) (t : Tree K) (spine : Spine K)
      → Sorted (plug spine (inorder t))
      → AllBelow k (before spine)
      → AllAbove k (after spine)
      → Found k (plug spine (inorder t)) (lookup_from k t spine)
  unfolding lookup_from
  lookup_from_lem k null spine s b a = (record { same = refl; below = b; above = a }, tt)
  lookup_from_lem k (new x l r h c) spine s b a = elim (Ordering-cases (o.cmp k x)) [
    | inl e ↦
        let p =
          ap (λ xs. before spine ++ xs) (append_assoc (inorder l) (x ∷ inorder r) (after spine)) in
        let near = around spine (inorder l) x (inorder r) s in
        let rest = AllAbove-of_lt k x (inorder r ++ after spine) e near.1 in
        rw (e, lookup_from)
          (Found-of_eq k _ (sym p)
            (lookup_from_lem k l ((false, x, r) ∷ spine) (subst (λ xs. Sorted xs) p s) b (e, rest)))
    | inr (inl e) ↦ rw (e, lookup_from) (record { same = refl; below = b; above = a }, e)
    | inr (inr e) ↦
        let p : plug spine (inorder l ++ x ∷ inorder r) ≡ plug ((true, x, l) ∷ spine) (inorder r) =
          simp append_assoc in
        let near = around spine (inorder l) x (inorder r) s in
        let low = AllBelow-of_gt k x (before spine ++ inorder l) e near.0 in
        let low' =
          All-append (λ y. o.cmp k y ≡ gt) (before spine ++ inorder l) (x ∷ []) low (e, tt) in
        rw (e, lookup_from)
          (Found-of_eq k _ (sym p) (
            lookup_from_lem k r ((true, x, l) ∷ spine) (subst (λ xs. Sorted xs) p s)
              (subst (λ xs. AllBelow k xs) (append_assoc (before spine) (inorder l) (x ∷ [])) low')
              a))
  ]

  -- The search in a whole tree.
  pub lookup_lem : (k : K) (t : Tree K) → Sorted (inorder t) → Found k (inorder t) (lookup k t)
  unfolding lookup
  lookup_lem k t s =
      let p = append-nil (inorder t) in
      Found-of_eq k _ p (lookup_from_lem k t [] (subst (λ xs. Sorted xs) (sym p) s) tt tt)

  -- A node with the key of the search: what lies before it is below the key, what follows above.
  pub record IsSplit (k : K) (items lo : List K) (x : K) (hi : List K) : Type ℓ where
    pub whole : items ≡ lo ++ x ∷ hi
    pub low : AllBelow k lo
    pub high : AllAbove k hi

  pub IsSplit-at :
      (k : K) (items : List K) (x : K) (l r : Tree K) (h c : ℕ) (spine : Spine K)
      → Found k items (new x l r h c, spine)
      → Sorted items
      → IsSplit k items (before spine ++ inorder l) x (inorder r ++ after spine)
  IsSplit-at k items x l r h c spine (f, a) s =
      let near = around spine (inorder l) x (inorder r) (subst (λ xs. Sorted xs) (sym f.same) s) in
      record {
        whole = sym f.same ∙ simp append_assoc;
        low = AllBelow-of_eq k x _ a near.0;
        high = AllAbove-of_eq k x _ a near.1;
      }

  find_at :
      (k : K) (items : List K) (t : Tree K) (spine : Spine K)
      → Found k items (t, spine)
      → Sorted items
      → find k items ≡ root_of t
  find_at k items null spine (f, a) s =
      rw (← f.same)
        (find-AllBelow k (before spine) (after spine) f.below ∙ find-AllAbove k _ f.above)
  find_at k items (new x l r h c) spine (f, a) s =
      let w = IsSplit-at k items x l r h c spine (f, a) s in
      rw w.whole (find-AllBelow k (before spine ++ inorder l) _ w.low ∙ rw (a, find))

  -- In a tree whose items are sorted, the search finds exactly the entry of the sorted list whose
  -- key compares equal, and `Contains` says whether there is one.
  pub try_find_lem :
      (k : K) (t : Tree K)
      → Sorted (inorder t)
      → (try_find k t ≡ find k (inorder t)) × (contains k t ≡ is_some (find k (inorder t)))
  unfolding try_find contains
  try_find_lem k t s =
      let p = find_at k (inorder t) (lookup k t).0 (lookup k t).1 (lookup_lem k t s) s in
      (sym p, ap is_some (sym p))

  put_at_lem :
      (f : K → K → K) (k : K) (items : List K) (t : Tree K) (spine : Spine K)
      → Found k items (t, spine)
      → Sorted items
      → inorder (put_at f k t spine) ≡ insert_with f k items
  put_at_lem f k items null spine (w, a) s =
      inorder-rebuild spine (branch k null null)
      ∙ (simp inorder-branch (
          sym (
            rw (← w.same) (
              insert_with-AllBelow f k (before spine) (after spine) w.below
              ∙ ap (λ xs. before spine ++ xs) (insert_with-AllAbove f k (after spine) w.above)))))
  put_at_lem f k items (new x l r h c) spine (w, a) s =
      let v = IsSplit-at k items x l r h c spine (w, a) s in
      inorder-rebuild spine (branch (f x k) l r)
      ∙ simp (inorder-branch, append_assoc)
          (sym (
            rw v.whole (
              insert_with-AllBelow f k (before spine ++ inorder l) _ v.low
              ∙ rw (a, insert_with) (append_assoc (before spine) (inorder l) _))))

  -- `Put` in a tree whose items are sorted is the insertion into the sorted list: a new key comes
  -- to its place, and an entry with an equal key is replaced by the combination of the two.
  pub inorder-put :
      (f : K → K → K) (k : K) (t : Tree K)
      → Sorted (inorder t)
      → inorder (put f k t) ≡ insert_with f k (inorder t)
  unfolding put
  inorder-put f k t s =
      put_at_lem f k (inorder t) (lookup k t).0 (lookup k t).1 (lookup_lem k t s) s
