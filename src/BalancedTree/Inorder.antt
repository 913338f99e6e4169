-- ===== src/BalancedTree/Inorder.antt =====
-- The items of a tree of WebSharper.Collections.js in order, and what `Rebuild` does to them.
use odd_job.Prelude.{
  ◌+◌, ◌≡◌, refl, sym, ◌∙◌, true, false, List, [], ◌∷◌, ◌++◌, ltb, ◌==◌, Bool-cases, inl, inr,
  append_assoc, append-nil,
}
use odd_job.BalancedTree.{
  Tree, null, new, Spine, branch, height, double_left, double_right, rebuild_right, rebuild_left,
  rebuild,
}

module _ {ℓ} {K : Type ℓ} where
  abbrev pub inorder : Tree K → List K
  inorder null = []
  inorder (new node left right _ _) = inorder left ++ node ∷ inorder right

  -- The items before and after the place that a spine leads to.
  abbrev pub before : Spine K → List K
  before [] = []
  before ((true, x, l) ∷ spine) = before spine ++ (inorder l ++ x ∷ [])
  before ((false, _, _) ∷ spine) = before spine

  abbrev pub after : Spine K → List K
  after [] = []
  after ((true, _, _) ∷ spine) = after spine
  after ((false, x, r) ∷ spine) = (x ∷ inorder r) ++ after spine

  abbrev pub plug : Spine K → List K → List K
  plug spine items = before spine ++ (items ++ after spine)

  pub inorder-branch : (k : K) (l r : Tree K) → inorder (branch k l r) ≡ inorder l ++ k ∷ inorder r
  unfolding branch
  inorder-branch k l r = refl

  inorder-double_left :
      (x : K) (l m : Tree K) (k : K) (r : Tree K)
      → inorder (double_left x l m k r) ≡ inorder l ++ x ∷ (inorder m ++ k ∷ inorder r)
  unfolding double_left
  inorder-double_left x l null k r = simp (inorder-branch, append_assoc)
  inorder-double_left x l (new n a b _ _) k r = simp (inorder-branch, append_assoc)

  inorder-double_right :
      (x : K) (r m : Tree K) (k : K) (l : Tree K)
      → inorder (double_right x r m k l) ≡ inorder l ++ k ∷ (inorder m ++ x ∷ inorder r)
  unfolding double_right
  inorder-double_right x r null k l = simp inorder-branch
  inorder-double_right x r (new n a b _ _) k l = simp (inorder-branch, append_assoc)

  pub inorder-rebuild_right :
      (x : K) (l t : Tree K) → inorder (rebuild_right x l t) ≡ inorder l ++ x ∷ inorder t
  unfolding rebuild_right
  inorder-rebuild_right x l null = inorder-branch x l null
  inorder-rebuild_right x l (new k a b h c) = elim (Bool-cases (ltb (height l + 1) h)) [
    | inl tall ↦ elim (Bool-cases (height a == height b + 1)) [
      | inl twice ↦ rw (tall, twice) (inorder-double_left x l a k b)
      | inr once ↦ rw (tall, once) (simp (inorder-branch, append_assoc))
    ]
    | inr low ↦ rw low (simp inorder-branch)
  ]

  pub inorder-rebuild_left :
      (x : K) (r t : Tree K) → inorder (rebuild_left x r t) ≡ inorder t ++ x ∷ inorder r
  unfolding rebuild_left
  inorder-rebuild_left x r null = inorder-branch x null r
  inorder-rebuild_left x r (new k a b h c) = elim (Bool-cases (ltb (height r + 1) h)) [
    | inl tall ↦ elim (Bool-cases (height b == height a + 1)) [
      | inl twice ↦ rw (tall, twice) (inorder-double_right x r b k a ∙ simp append_assoc)
      | inr once ↦ rw (tall, once) (simp (inorder-branch, append_assoc))
    ]
    | inr low ↦ rw low (simp inorder-branch)
  ]

  -- Whatever the heights that are stored, rebuilding a spine around a tree rotates it and keeps
  -- its items and their order.
  pub inorder-rebuild :
      (spine : Spine K) (t : Tree K) → inorder (rebuild spine t) ≡ plug spine (inorder t)
  unfolding rebuild
  inorder-rebuild [] t = sym (append-nil (inorder t))
  inorder-rebuild ((true, x, l) ∷ spine) t =
      inorder-rebuild spine (rebuild_right x l t) ∙ simp (inorder-rebuild_right, append_assoc)
  inorder-rebuild ((false, x, r) ∷ spine) t =
      inorder-rebuild spine (rebuild_left x r t) ∙ simp (inorder-rebuild_left, append_assoc)
