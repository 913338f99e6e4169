-- ===== src/BalancedTree/Shape.antt =====
-- The stored `Height` and `Count` of the trees of WebSharper.Collections.js, and the balance that
-- `Rebuild` works for.
use odd_job.Prelude.{
  inl, inr, ℕ, ◌+◌, ◌≤◌, ◌≡◌, refl, max, true, false, [], ◌∷◌, arith, length, length-append, ltb,
  if◌then◌else◌,
}
use odd_job.Comparable.{Comparable, Ordering-cases}
use odd_job.BalancedTree.{
  lookup_from, lookup, put_at, put, Tree, null, new, Spine, branch, height, count, double_left,
  double_right, rebuild_right, rebuild_left, rebuild,
}
use odd_job.BalancedTree.Inorder.{inorder}

taller : (a b : ℕ) → 1 + (if ltb b a then a else b) ≡ 1 + max a b
taller a b = ground arith

module _ {ℓ} {K : Type ℓ} where
  -- Each node stores the height and the number of nodes of the tree that it heads.
  abbrev pub IsSized : Tree K → Type 0
  IsSized null = Unit
  IsSized (new k l r h c) =
      (h ≡ 1 + max (height l) (height r)) × (c ≡ 1 + count l + count r) × IsSized l × IsSized r

  -- Besides, the heights of its children differ by at most one.
  abbrev pub IsAvl : Tree K → Type 0
  IsAvl null = Unit
  IsAvl (new k l r h c) =
      (h ≡ 1 + max (height l) (height r))
      × (c ≡ 1 + count l + count r)
      × (height l ≤ height r + 1)
      × (height r ≤ height l + 1)
      × IsAvl l
      × IsAvl r

  pub IsAvl-IsSized : (t : Tree K) → IsAvl t → IsSized t
  IsAvl-IsSized null a = tt
  IsAvl-IsSized (new k l r h c) a = (a.0, a.1, IsAvl-IsSized l a.4, IsAvl-IsSized r a.5)

  -- The stored count is the number of items.
  pub IsSized-count : (t : Tree K) → IsSized t → count t ≡ length (inorder t)
  IsSized-count null s = refl
  IsSized-count (new k l r h c) s = omega (
    arith,
    length-append {ℓ} (inorder l) (k ∷ inorder r),
    IsSized-count l s.2,
    IsSized-count r s.3,
  )

  pub branch-height : (k : K) (l r : Tree K) → height (branch k l r) ≡ 1 + max (height l) (height r)
  unfolding branch
  branch-height k l r = taller (height l) (height r)

  pub branch-IsSized : (k : K) (l r : Tree K) → IsSized l → IsSized r → IsSized (branch k l r)
  unfolding branch
  branch-IsSized k l r a b = (taller (height l) (height r), refl, a, b)

  pub branch-IsAvl :
      (k : K) (l r : Tree K)
      → IsAvl l
      → IsAvl r
      → height l ≤ height r + 1
      → height r ≤ height l + 1
      → IsAvl (branch k l r)
  unfolding branch
  branch-IsAvl k l r a b p q = (taller (height l) (height r), refl, p, q, a, b)

  double_left-IsSized :
      (x : K) (l m : Tree K) (k : K) (r : Tree K)
      → IsSized l
      → IsSized m
      → IsSized r
      → IsSized (double_left x l m k r)
  unfolding double_left
  double_left-IsSized x l null k r a b c =
      branch-IsSized k (branch x l null) r (branch-IsSized x l null a tt) c
  double_left-IsSized x l (new n p q _ _) k r a b c =
      branch-IsSized n (branch x l p) (branch k q r) (branch-IsSized x l p a b.2)
        (branch-IsSized k q r b.3 c)

  double_right-IsSized :
      (x : K) (r m : Tree K) (k : K) (l : Tree K)
      → IsSized r
      → IsSized m
      → IsSized l
      → IsSized (double_right x r m k l)
  unfolding double_right
  double_right-IsSized x r null k l a b c =
      branch-IsSized k l (branch x null r) c (branch-IsSized x null r tt a)
  double_right-IsSized x r (new n p q _ _) k l a b c =
      branch-IsSized n (branch k l p) (branch x q r) (branch-IsSized k l p c b.2)
        (branch-IsSized x q r b.3 a)

  rebuild_right-IsSized :
      (x : K) (l t : Tree K) → IsSized l → IsSized t → IsSized (rebuild_right x l t)
  unfolding rebuild_right
  rebuild_right-IsSized x l null a b = branch-IsSized x l null a tt
  rebuild_right-IsSized x l (new k p q h c) a b = ground (
    arith,
    double_left-IsSized x l p k q a b.2 b.3,
    branch-IsSized k (branch x l p) q (branch-IsSized x l p a b.2) b.3,
    branch-IsSized x l (new k p q h c) a b,
  )

  rebuild_left-IsSized :
      (x : K) (r t : Tree K) → IsSized r → IsSized t → IsSized (rebuild_left x r t)
  unfolding rebuild_left
  rebuild_left-IsSized x r null a b = branch-IsSized x null r tt a
  rebuild_left-IsSized x r (new k p q h c) a b = ground (
    arith,
    double_right-IsSized x r q k p a b.3 b.2,
    branch-IsSized k p (branch x q r) b.2 (branch-IsSized x q r b.3 a),
    branch-IsSized x (new k p q h c) r b a,
  )

  abbrev pub AllSized : Spine K → Type 0
  AllSized [] = Unit
  AllSized ((_, _, t) ∷ spine) = IsSized t × AllSized spine

  -- Rebuilding stores the right heights and counts, however unbalanced the parts are.
  pub rebuild-IsSized :
      (spine : Spine K) (t : Tree K) → AllSized spine → IsSized t → IsSized (rebuild spine t)
  unfolding rebuild
  rebuild-IsSized [] t a b = b
  rebuild-IsSized ((true, x, l) ∷ spine) t a b =
      rebuild-IsSized spine (rebuild_right x l t) a.1 (rebuild_right-IsSized x l t a.0 b)
  rebuild-IsSized ((false, x, r) ∷ spine) t a b =
      rebuild-IsSized spine (rebuild_left x r t) a.1 (rebuild_left-IsSized x r t a.0 b)

module _ {ℓ} {K : Type ℓ} ⦃o : Comparable K⦄ where
  abbrev pub SizedFound : Tree K × Spine K → Type 0
  SizedFound (t, spine) = IsSized t × AllSized spine

  pub SizedFound-lookup_from :
      (k : K) (t : Tree K) (spine : Spine K)
      → IsSized t
      → AllSized spine
      → SizedFound (lookup_from k t spine)
  unfolding lookup_from
  SizedFound-lookup_from k null spine a f = (a, f)
  SizedFound-lookup_from k (new x l r h c) spine a f =
      let left = SizedFound-lookup_from k l ((false, x, r) ∷ spine) a.2 (a.3, f) in
      let right = SizedFound-lookup_from k r ((true, x, l) ∷ spine) a.3 (a.2, f) in
      elim (Ordering-cases (o.cmp k x)) [
        | inl e ↦ rw (e, lookup_from) left
        | inr (inl e) ↦ rw (e, lookup_from) (a, f)
        | inr (inr e) ↦ rw (e, lookup_from) right
      ]

  put_at-IsSized :
      (combine : K → K → K) (k : K) (t : Tree K) (spine : Spine K)
      → SizedFound (t, spine)
      → IsSized (put_at combine k t spine)
  put_at-IsSized combine k null spine (a, f) =
      rebuild-IsSized spine (branch k null null) f (branch-IsSized k null null tt tt)
  put_at-IsSized combine k (new x l r h c) spine (a, f) =
      rebuild-IsSized spine (branch (combine x k) l r) f (branch-IsSized (combine x k) l r a.2 a.3)

  -- `Put` stores the right heights and counts also in a tree that is not balanced.
  pub put-IsSized :
      (combine : K → K → K) (k : K) (t : Tree K) → IsSized t → IsSized (put combine k t)
  unfolding put lookup
  put-IsSized combine k t a =
      put_at-IsSized combine k (lookup_from k t []).0 (lookup_from k t []).1
        (SizedFound-lookup_from k t [] a tt)
