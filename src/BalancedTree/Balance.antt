-- ===== src/BalancedTree/Balance.antt =====
-- `Put` of Collections.BalancedTree (WebSharper.Collections.js) keeps the tree balanced.
use odd_job.Prelude.{
  ℕ, suc, ◌+◌, ◌≤◌, ◌≡◌, max, true, false, [], ◌∷◌, arith, ltb, ◌==◌, inl, inr, ◌<◌, ◌≢◌, ltb→lt,
  ltb-false, ==_iff, subst, Bool-cases,
}
use odd_job.Comparable.{Comparable, Ordering-cases}
use odd_job.BalancedTree.{
  Tree, null, new, Spine, branch, height, double_left, double_right, rebuild_right, rebuild_left,
  rebuild, lookup_from, lookup, put_at, put,
}
use odd_job.BalancedTree.Shape.{IsAvl, branch-height, branch-IsAvl}

module _ {ℓ} {K : Type ℓ} where
  -- A balanced tree whose height is `h` or one more.
  abbrev Grown : ℕ → Tree K → Type 0
  Grown h t = IsAvl t × (h ≤ height t) × (height t ≤ suc h)

  double_left-Grown :
      (x : K) (l m : Tree K) (k : K) (r : Tree K)
      → IsAvl l
      → IsAvl m
      → IsAvl r
      → height m ≡ suc (height l)
      → height r ≡ height l
      → IsAvl (double_left x l m k r) × (height (double_left x l m k r) ≡ suc (suc (height l)))
  unfolding double_left
  double_left-Grown x l null k r a b c p q = absurd (omega arith)
  double_left-Grown x l (new n u v h z) k r a b c p q =
      let e = branch-height x l u in
      let f = branch-height k v r in
      (
        branch-IsAvl n (branch x l u) (branch k v r)
            (branch-IsAvl x l u a b.4 (omega arith) (omega arith))
            (branch-IsAvl k v r b.5 c (omega arith) (omega arith)) (omega arith) (omega arith),
        omega (arith, branch-height n (branch x l u) (branch k v r)),
      )

  double_right-Grown :
      (x : K) (r m : Tree K) (k : K) (l : Tree K)
      → IsAvl r
      → IsAvl m
      → IsAvl l
      → height m ≡ suc (height r)
      → height l ≡ height r
      → IsAvl (double_right x r m k l) × (height (double_right x r m k l) ≡ suc (suc (height r)))
  unfolding double_right
  double_right-Grown x r null k l a b c p q = absurd (omega arith)
  double_right-Grown x r (new n u v h z) k l a b c p q =
      let e = branch-height k l u in
      let f = branch-height x v r in
      (
        branch-IsAvl n (branch k l u) (branch x v r)
            (branch-IsAvl k l u c b.4 (omega arith) (omega arith))
            (branch-IsAvl x v r b.5 a (omega arith) (omega arith)) (omega arith) (omega arith),
        omega (arith, branch-height n (branch k l u) (branch x v r)),
      )

  -- One round of `Rebuild` where the child had the height `h`, balanced with its sibling.
  rebuild_right-Grown :
      (x : K) (l t : Tree K) (h : ℕ)
      → IsAvl l
      → h ≤ suc (height l)
      → height l ≤ suc h
      → Grown h t
      → Grown (1 + max h (height l)) (rebuild_right x l t)
  unfolding rebuild_right
  rebuild_right-Grown x l null h a p q (b, u, v) = (
    branch-IsAvl x l null a tt (omega arith) (omega arith),
    omega (arith, branch-height x l null),
    omega (arith, branch-height x l null),
  )
  rebuild_right-Grown x l (new k tl tr th tc) h a p q (b, u, v) =
      let e = branch-height x l tl in
      let f = branch-height k (branch x l tl) tr in
      elim (Bool-cases (ltb (height l + 1) th)) [
        | inl tall ↦
            let far : height l + 1 < th = ltb→lt _ _ tall in
            elim (Bool-cases (height tl == height tr + 1)) [
              | inl twice ↦
                  let same : height tl ≡ height tr + 1 = (==_iff _ _).0 twice in
                  let d = double_left-Grown x l tl k tr a b.4 b.5 (omega arith) (omega arith) in
                  rw (tall, twice) (d.0, omega arith, omega arith)
              | inr once ↦
                  let other : height tl ≢ height tr + 1 = λ w. cc (once, (==_iff _ _).1 w) in
                  rw (tall, once)
                    (
                      branch-IsAvl k (branch x l tl) tr
                          (branch-IsAvl x l tl a b.4 (omega arith) (omega arith)) b.5 (omega arith)
                          (omega arith),
                      omega arith,
                      omega arith,
                    )
            ]
        | inr low ↦
            let near : th ≤ height l + 1 = ltb-false _ _ low in
            rw low (
              branch-IsAvl x l (new k tl tr th tc) a b (omega arith) (omega arith),
              omega (arith, branch-height x l (new k tl tr th tc)),
              omega (arith, branch-height x l (new k tl tr th tc)),
            )
      ]

  rebuild_left-Grown :
      (x : K) (r t : Tree K) (h : ℕ)
      → IsAvl r
      → h ≤ suc (height r)
      → height r ≤ suc h
      → Grown h t
      → Grown (1 + max h (height r)) (rebuild_left x r t)
  unfolding rebuild_left
  rebuild_left-Grown x r null h a p q (b, u, v) = (
    branch-IsAvl x null r tt a (omega arith) (omega arith),
    omega (arith, branch-height x null r),
    omega (arith, branch-height x null r),
  )
  rebuild_left-Grown x r (new k tl tr th tc) h a p q (b, u, v) =
      let e = branch-height x tr r in
      let f = branch-height k tl (branch x tr r) in
      elim (Bool-cases (ltb (height r + 1) th)) [
        | inl tall ↦
            let far : height r + 1 < th = ltb→lt _ _ tall in
            elim (Bool-cases (height tr == height tl + 1)) [
              | inl twice ↦
                  let same : height tr ≡ height tl + 1 = (==_iff _ _).0 twice in
                  let d = double_right-Grown x r tr k tl a b.5 b.4 (omega arith) (omega arith) in
                  rw (tall, twice) (d.0, omega arith, omega arith)
              | inr once ↦
                  let other : height tr ≢ height tl + 1 = λ w. cc (once, (==_iff _ _).1 w) in
                  rw (tall, once)
                    (
                      branch-IsAvl k tl (branch x tr r) b.4
                          (branch-IsAvl x tr r b.5 a (omega arith) (omega arith)) (omega arith)
                          (omega arith),
                      omega arith,
                      omega arith,
                    )
            ]
        | inr low ↦
            let near : th ≤ height r + 1 = ltb-false _ _ low in
            rw low (
              branch-IsAvl x (new k tl tr th tc) r b a (omega arith) (omega arith),
              omega (arith, branch-height x (new k tl tr th tc) r),
              omega (arith, branch-height x (new k tl tr th tc) r),
            )
      ]

  -- The siblings along a spine are balanced with the subtree of height `h` at its end.
  abbrev FitsSpine : Spine K → ℕ → Type 0
  FitsSpine [] h = Unit
  FitsSpine ((_, _, t) ∷ spine) h =
      IsAvl t × (h ≤ suc (height t)) × (height t ≤ suc h) × FitsSpine spine (1 + max h (height t))

  rebuild-IsAvl :
      (spine : Spine K) (t : Tree K) (h : ℕ)
      → FitsSpine spine h
      → Grown h t
      → IsAvl (rebuild spine t)
  unfolding rebuild
  rebuild-IsAvl [] t h f g = g.0
  rebuild-IsAvl ((true, x, l) ∷ spine) t h f g =
      rebuild-IsAvl spine (rebuild_right x l t) (1 + max h (height l)) f.3
        (rebuild_right-Grown x l t h f.0 f.1 f.2 g)
  rebuild-IsAvl ((false, x, r) ∷ spine) t h f g =
      rebuild-IsAvl spine (rebuild_left x r t) (1 + max h (height r)) f.3
        (rebuild_left-Grown x r t h f.0 f.1 f.2 g)

module _ {ℓ} {K : Type ℓ} ⦃o : Comparable K⦄ where
  abbrev FitsFound : Tree K × Spine K → Type 0
  FitsFound (t, spine) = IsAvl t × FitsSpine spine (height t)

  FitsSpine-right :
      (node : K) (l r : Tree K) (h : ℕ) (spine : Spine K)
      → h ≡ 1 + max (height l) (height r)
      → FitsSpine spine h
      → FitsSpine spine (1 + max (height r) (height l))
  FitsSpine-right node l r h spine e f = subst (FitsSpine spine) (omega arith) f

  FitsFound-lookup_from :
      (k : K) (t : Tree K) (spine : Spine K)
      → IsAvl t
      → FitsSpine spine (height t)
      → FitsFound (lookup_from k t spine)
  unfolding lookup_from
  FitsFound-lookup_from k null spine a f = (a, f)
  FitsFound-lookup_from k (new x l r h c) spine a f =
      let f' : FitsSpine spine (1 + max (height l) (height r)) = subst (FitsSpine spine) a.0 f in
      let f'' = FitsSpine-right x l r h spine a.0 f in
      let left =
        FitsFound-lookup_from k l ((false, x, r) ∷ spine) a.4 (a.5, omega arith, omega arith, f') in
      let right =
        FitsFound-lookup_from k r ((true, x, l) ∷ spine) a.5 (a.4, omega arith, omega arith, f'') in
      elim (Ordering-cases (o.cmp k x)) [
        | inl e ↦ rw (e, lookup_from) left
        | inr (inl e) ↦ rw (e, lookup_from) (a, f)
        | inr (inr e) ↦ rw (e, lookup_from) right
      ]

  put_at-IsAvl :
      (combine : K → K → K) (k : K) (t : Tree K) (spine : Spine K)
      → IsAvl t
      → FitsSpine spine (height t)
      → IsAvl (put_at combine k t spine)
  put_at-IsAvl combine k null spine a f = rebuild-IsAvl spine (branch k null null) 0 f (
    branch-IsAvl k null null tt tt (omega arith) (omega arith),
    omega arith,
    omega (arith, branch-height {ℓ} k null null),
  )
  put_at-IsAvl combine k (new x l r h c) spine a f =
      let e = branch-height (combine x k) l r in
      rebuild-IsAvl spine (branch (combine x k) l r) h f
        (branch-IsAvl (combine x k) l r a.4 a.5 a.2 a.3, omega arith, omega arith)

  -- `Put` keeps every node's stored height and count right and its two children within one level
  -- of each other, whether the key is new or not and whatever the order of the keys.
  pub put-IsAvl : (combine : K → K → K) (k : K) (t : Tree K) → IsAvl t → IsAvl (put combine k t)
  unfolding put lookup
  put-IsAvl combine k t a =
      let (b, f) = FitsFound-lookup_from k t [] a tt in
      put_at-IsAvl combine k (lookup_from k t []).0 (lookup_from k t []).1 b f
