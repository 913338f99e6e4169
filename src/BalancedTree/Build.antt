-- ===== src/BalancedTree/Build.antt =====
-- `BalancedTree.Build` of WebSharper.Collections.js: a balanced tree of an array's items.
use native.Mathlib.Nat.{pow-suc, pow-le-pow_right}
use odd_job.Prelude.{
  ℕ, zero, suc, ◌+◌, ◌-◌, ◌*◌, ◌/◌, ◌^◌, ◌≤◌, ◌<◌, ◌≡◌, refl, sym, ap, ◌∙◌, max, Option, some, List,
  ◌∷◌, ◌++◌, arith, length, get_elem?, take, drop, drop-get_elem?, get_elem?-some, drop-drop,
  take-add, take-length, leb, Bool-cases, inl, inr, ◌⊎◌, leb→le, leb-false,
}
use odd_job.BalancedTree.{Tree, null, branch, height, build_range, build}
use odd_job.BalancedTree.Inorder.{inorder, inorder-branch}
use odd_job.BalancedTree.Shape.{IsAvl, branch-height, branch-IsAvl}

-- The height is the least that `n` nodes allow: `n` is below 2 ^ height, and not below half of it.
record IsTight (n h : ℕ) : Type 0 where
  fits : n < 2 ^ h
  least : 2 ^ h ≤ 2 * n + 1

double : (q : ℕ) → 2 ^ suc q ≡ 2 * 2 ^ q
double q = omega (arith, pow-suc 2 q)

double_le : (q p : ℕ) → q < p → 2 * 2 ^ q ≤ 2 ^ p
double_le q p h =
    omega (arith, double q, pow-le-pow_right {n = 2} (omega arith) {i = suc q} {j = p} h)

-- Halves of a range, of which the right one is the larger by at most one.
IsTight-near : (a b p q : ℕ) → a ≤ b → b ≤ suc a → IsTight a p → IsTight b q → (p ≤ q) × (q ≤ suc p)
IsTight-near a b p q h k s t = (
  elim (Bool-cases (leb p q)) [
    | inl y ↦ leb→le p q y
    | inr n ↦ absurd (omega (arith, double_le q p (leb-false p q n)))
  ],
  elim (Bool-cases (leb q (suc p))) [
    | inl y ↦ leb→le q (suc p) y
    | inr n ↦ absurd (omega (arith, double p, double_le (suc p) q (leb-false q (suc p) n)))
  ],
)

odd_power : (b q : ℕ) → IsTight b q → (q ≡ 0) ⊎ (2 ^ q ≤ 2 * b)
odd_power b zero t = inl refl
odd_power b (suc q) t = inr (omega (arith, double q, t.least))

IsTight-join :
    (a b p q : ℕ)
    → a ≤ b
    → b ≤ suc a
    → IsTight a p
    → IsTight b q
    → IsTight (suc (a + b)) (1 + max p q)
IsTight-join a b p q h k s t =
    let near = IsTight-near a b p q h k s t in
    let e : 1 + max p q ≡ suc q = omega arith in
    rw e (elim (odd_power b q t) [
      | inl z ↦
          let one : 2 ^ q ≡ 1 = ap (λ n. 2 ^ n) z in
          record { fits = omega (arith, double q, t.fits); least = omega (arith, double q, t.fits) }
      | inr low ↦ record { fits = omega (arith, double q, t.fits); least = omega (arith, double q) }
    ])

module _ {ℓ} {K : Type ℓ} where
  abbrev slice : List K → ℕ → ℕ → List K
  slice items lo stop = take (stop - lo) (drop lo items)

  slice-split :
      (items : List K) (lo center stop : ℕ) {x : K}
      → lo ≤ center
      → center < stop
      → get_elem? items center ≡ some x
      → slice items lo stop ≡ slice items lo center ++ x ∷ slice items (center + 1) stop
  slice-split items lo center stop {x} p q e =
      let d : drop (center - lo) (drop lo items) ≡ x ∷ drop (suc center) items =
        drop-drop (center - lo) lo items
        ∙ ap (λ k. drop k items) (omega arith)
        ∙ drop-get_elem? items center e in
      ap (λ k. take k (drop lo items)) (omega arith)
      ∙ take-add (center - lo) (suc (stop - (center + 1))) (drop lo items)
      ∙ ap (λ xs. take (center - lo) (drop lo items) ++ xs)
          (ap (λ xs. take (suc (stop - (center + 1))) xs) d
            ∙ ap (λ k. x ∷ take (stop - (center + 1)) (drop k items)) {x = suc center}
                (omega arith))

  -- A tree of `items` between two bounds: their order, balanced, and as low as can be.
  record IsBuilt (items : List K) (lo stop : ℕ) (r : Option (Tree K)) : Type ℓ where
    tree : Tree K
    made : r ≡ some tree
    ordered : inorder tree ≡ slice items lo stop
    balanced : IsAvl tree
    tight : IsTight (stop - lo) (height tree)

  build_range_lem :
      (fuel : ℕ) (items : List K) (lo stop : ℕ)
      → stop ≤ length items
      → lo ≤ stop
      → stop < lo + fuel
      → IsBuilt items lo stop (build_range fuel items lo stop)
  unfolding build_range
  build_range_lem zero items lo stop h o f = absurd (omega arith)
  build_range_lem (suc fuel) items lo stop h o f = elim (Bool-cases (leb stop lo)) [
    | inl empty ↦
        let gap : stop - lo ≡ 0 = let w = leb→le stop lo empty in omega arith in
        record {
          tree = null;
          made = rw empty;
          ordered = sym (ap (λ n. take n (drop lo items)) gap);
          balanced = tt;
          tight = rw gap record { fits = omega arith; least = omega arith };
        }
    | inr more ↦
        let far : lo < stop = leb-false stop lo more in
        let center = (lo + stop - 1) / 2 in
        let L = build_range_lem fuel items lo center (omega arith) (omega arith) (omega arith) in
        let R = build_range_lem fuel items (center + 1) stop h (omega arith) (omega arith) in
        let (x, here) = get_elem?-some items center (omega arith) in
        let near =
          IsTight-near (center - lo) (stop - (center + 1)) (height L.tree) (height R.tree)
            (omega arith) (omega arith) L.tight R.tight in
        let count : stop - lo ≡ suc ((center - lo) + (stop - (center + 1))) = omega arith in
        record {
          tree = branch x L.tree R.tree;
          made = rw (more, L.made, R.made, here);
          ordered =
              inorder-branch x L.tree R.tree
              ∙ rw (L.ordered, R.ordered)
                  (sym (slice-split items lo center stop (omega arith) (omega arith) here));
          balanced = branch-IsAvl x L.tree R.tree L.balanced R.balanced (omega arith) (omega arith);
          tight =
              rw (count, branch-height x L.tree R.tree)
                (IsTight-join (center - lo) (stop - (center + 1)) (height L.tree) (height R.tree)
                  (omega arith) (omega arith) L.tight R.tight);
        }
  ]

  -- `Build` of a whole array always gives a tree (no read leaves the array, and it ends): a balanced
  -- one, with right heights and counts, that holds the array's items in the array's order, and whose
  -- height is the least possible for their number.
  pub build_lem :
      (items : List K)
      → (t : Tree K) × (build items ≡ some t)
        × (inorder t ≡ items)
        × IsAvl t
        × (length items < 2 ^ height t)
        × (2 ^ height t ≤ 2 * length items + 1)
  unfolding build
  build_lem items =
      let b =
        build_range_lem (suc (length items)) items 0 (length items) (omega arith) (omega arith)
          (omega arith) in
      (
        b.tree,
        b.made,
        b.ordered ∙ ap (λ n. take n items) (omega arith) ∙ take-length items,
        b.balanced,
        omega (arith, b.tight),
        omega (arith, b.tight),
      )
