-- ===== src/BalancedTree.antt =====
-- Collections.BalancedTree of
-- GlutenFree.OddJob.Manager.Presentation.WS/Scripts/WebSharper/WebSharper.Collections.js: the
-- height-balanced search tree under its maps and sets. A tree that is `null` is `null`; a spine
-- holds a triple for each node passed, the last one first.
pub mod Inorder
pub mod Search
pub mod Build
pub mod Balance
pub mod Shape
pub mod Remove
pub mod Enumerate
mod Examples
use Prim.Native.Nat.{Ordering}
use Prim.Native.Nat.Ordering.{lt, eq, gt}
use odd_job.Prelude.{
  ℕ, zero, suc, ◌+◌, ◌-◌, ◌/◌, Bool, true, false, Option, none, some, List, [], ◌∷◌, ◌++◌, ltb, leb,
  ◌==◌, if◌then◌else◌, length, get_elem?, ◌>>=◌, is_some,
}
use odd_job.Comparable.{Comparable}

-- `Tree.New`.
pub data Tree {ℓ} (K : Type ℓ) : Type ℓ where
  null : Tree K
  new : (node : K) → (left right : Tree K) → (height count : ℕ) → Tree K

-- `[went right, the node's value, its other child]`
abbrev pub Spine {ℓ} : Type ℓ → Type ℓ
Spine K = List (Bool × K × Tree K)

module _ {ℓ} {K : Type ℓ} where
  -- `t==null?0:t.Height`, and the same of `Count`.
  abbrev pub height : Tree K → ℕ
  height null = 0
  height (new _ _ _ h _) = h

  abbrev pub count : Tree K → ℕ
  count null = 0
  count (new _ _ _ _ c) = c

  abbrev pub root_of : Tree K → Option K
  root_of null = none
  root_of (new node _ _ _ _) = some node

  unfoldable pub branch : K → Tree K → Tree K → Tree K
  branch node left right =
      let a = height left in
      let b = height right in
      new node left right (1 + (if ltb b a then a else b)) (1 + count left + count right)

  -- The double rotation for `m`, a left child. Its height is at least 1, so it is not null.
  unfoldable pub double_left : K → Tree K → Tree K → K → Tree K → Tree K
  double_left x l null t_node t_right = branch t_node (branch x l null) t_right
  double_left x l (new m_node m_left m_right _ _) t_node t_right =
      branch m_node (branch x l m_left) (branch t_node m_right t_right)

  unfoldable pub double_right : K → Tree K → Tree K → K → Tree K → Tree K
  double_right x r null t_node t_left = branch t_node t_left (branch x null r)
  double_right x r (new m_node m_left m_right _ _) t_node t_left =
      branch m_node (branch t_node t_left m_left) (branch x m_right r)

  -- One round of the loop of `Rebuild`: `t` is the right child beside `l`, or the left beside `r`.
  unfoldable pub rebuild_right : K → Tree K → Tree K → Tree K
  rebuild_right x l null = branch x l null
  rebuild_right x l (new t_node t_left t_right t_height t_count) =
      if ltb (height l + 1) t_height
      then if height t_left == height t_right + 1
        then double_left x l t_left t_node t_right
        else branch t_node (branch x l t_left) t_right
      else branch x l (new t_node t_left t_right t_height t_count)

  unfoldable pub rebuild_left : K → Tree K → Tree K → Tree K
  rebuild_left x r null = branch x null r
  rebuild_left x r (new t_node t_left t_right t_height t_count) =
      if ltb (height r + 1) t_height
      then if height t_right == height t_left + 1
        then double_right x r t_right t_node t_left
        else branch t_node t_left (branch x t_right r)
      else branch x (new t_node t_left t_right t_height t_count) r

  unfoldable pub rebuild : Spine K → Tree K → Tree K
  rebuild [] t = t
  rebuild ((true, x, l) ∷ spine) t = rebuild spine (rebuild_right x l t)
  rebuild ((false, x, r) ∷ spine) t = rebuild spine (rebuild_left x r t)

  -- `Build(data, min, max)` with `stop = max + 1`. `none` is a read outside the array, or no fuel.
  unfoldable pub build_range : ℕ → List K → ℕ → ℕ → Option (Tree K)
  build_range zero items lo stop = none
  build_range (suc fuel) items lo stop =
      let center = (lo + stop - 1) / 2 in
      let rest : Option (Tree K) = do
        left ← build_range fuel items lo center
        right ← build_range fuel items (center + 1) stop
        node ← get_elem? items center
        some (branch node left right)
      in if leb stop lo then some null else rest

  -- `Build(d,0,d.length-1)`, as every caller has it.
  unfoldable pub build : List K → Option (Tree K)
  build items = build_range (suc (length items)) items 0 (length items)

  -- The loop `gen` of `Enumerate`.
  unfoldable pub gen : Bool → Tree K → List (K × Tree K) → Option (K × (Tree K × List (K × Tree K)))
  gen flip null [] = none
  gen flip null ((k, t) ∷ spine) = some (k, (t, spine))
  gen true (new node left right _ _) spine = gen true right ((node, left) ∷ spine)
  gen false (new node left right _ _) spine = gen false left ((node, right) ∷ spine)

  -- `Seq.unfold`, read to its end, at most `fuel` items.
  unfoldable pub unfold_seq {κ} : {S : Type κ} → ℕ → (S → Option (K × S)) → S → List K
  unfold_seq zero f s = []
  unfold_seq (suc fuel) f s = elim (f s) [ none ↦ [] | some (k, s') ↦ k ∷ unfold_seq fuel f s' ]

  abbrev pub nodes : Tree K → ℕ
  nodes null = 0
  nodes (new _ l r _ _) = suc (nodes l + nodes r)

  unfoldable pub enumerate : Bool → Tree K → List K
  enumerate flip t = unfold_seq (nodes t) (λ s. gen flip s.0 s.1) (t, [])

  -- What `Remove` puts in place of a node: a lone child, or a tree built of both children's items.
  abbrev pub join : Tree K → Tree K → Option (Tree K)
  join left null = some left
  join null right = some right
  join left right = build (enumerate false left ++ enumerate false right)

module _ {ℓ} {K : Type ℓ} ⦃o : Comparable K⦄ where
  -- The `while` of `Lookup`.
  unfoldable pub lookup_from : K → Tree K → Spine K → Tree K × Spine K
  lookup_from k null spine = (null, spine)
  lookup_from k (new node left right h c) spine = elim (o.cmp k node) [
    | eq ↦ (new node left right h c, spine)
    | gt ↦ lookup_from k right ((true, node, left) ∷ spine)
    | lt ↦ lookup_from k left ((false, node, right) ∷ spine)
  ]

  unfoldable pub lookup : K → Tree K → Tree K × Spine K
  lookup k t = lookup_from k t []

  unfoldable pub try_find : K → Tree K → Option K
  try_find k t = root_of (lookup k t).0

  unfoldable pub contains : K → Tree K → Bool
  contains k t = is_some (root_of (lookup k t).0)

  abbrev pub put_at : (K → K → K) → K → Tree K → Spine K → Tree K
  put_at combine k null spine = rebuild spine (branch k null null)
  put_at combine k (new node left right _ _) spine =
      rebuild spine (branch (combine node k) left right)

  unfoldable pub put : (K → K → K) → K → Tree K → Tree K
  put combine k t = let (found, spine) = lookup k t in put_at combine k found spine

  unfoldable pub add : K → Tree K → Tree K
  add x t = put (λ _ new_item. new_item) x t

  abbrev pub remove_at : Tree K → Tree K → Spine K → Option (Tree K)
  remove_at src null spine = some src
  remove_at src (new _ left right _ _) spine = join left right >>= λ t. some (rebuild spine t)

  unfoldable pub remove : K → Tree K → Option (Tree K)
  remove k src = let (found, spine) = lookup k src in remove_at src found spine
