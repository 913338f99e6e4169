-- ===== src/BalancedTree/Enumerate.antt =====
-- `BalancedTree.Enumerate` of WebSharper.Collections.js walks the whole tree in order.
use odd_job.Prelude.{
  ℕ, zero, suc, ◌+◌, ◌≤◌, ◌≡◌, refl, sym, ap, ◌∙◌, Bool, true, false, Option, List, [], ◌∷◌, ◌++◌,
  arith, append_assoc, append-nil,
}
use mathlib.Core.List.{reverse, reverse-append, reverse-cons}
use odd_job.BalancedTree.{Tree, null, new, gen, unfold_seq, nodes, enumerate}
use odd_job.BalancedTree.Inorder.{inorder}

module _ {ℓ} {K : Type ℓ} where
  abbrev step : Bool → Tree K × List (K × Tree K) → Option (K × (Tree K × List (K × Tree K)))
  step flip s = gen flip s.0 s.1

  -- What the walk has still to give: forwards for `false`, backwards for `true`.
  abbrev order : Bool → Tree K → List K
  order false t = inorder t
  order true t = reverse (inorder t)

  abbrev stacked : Bool → List (K × Tree K) → List K
  stacked flip [] = []
  stacked flip ((k, t) ∷ spine) = k ∷ (order flip t ++ stacked flip spine)

  abbrev waiting : List (K × Tree K) → ℕ
  waiting [] = 0
  waiting ((k, t) ∷ spine) = suc (nodes t + waiting spine)

  order-true :
      (k : K) (l r : Tree K) (xs : List K)
      → reverse (inorder l ++ k ∷ inorder r) ++ xs
        ≡ reverse (inorder r) ++ (k ∷ (reverse (inorder l) ++ xs))
  order-true k l r xs = simp (reverse-append, reverse-cons, append_assoc)

  -- With fuel for every node left, the walk gives the rest of the tree and of the stack.
  unfold_seq-gen :
      (flip : Bool) (t : Tree K) (spine : List (K × Tree K)) (fuel : ℕ)
      → nodes t + waiting spine ≤ fuel
      → unfold_seq fuel (step flip) (t, spine) ≡ order flip t ++ stacked flip spine
  unfolding unfold_seq gen
  unfold_seq-gen false null [] zero h = refl
  unfold_seq-gen true null [] zero h = refl
  unfold_seq-gen false null [] (suc f) h = refl
  unfold_seq-gen true null [] (suc f) h = refl
  unfold_seq-gen flip null ((k, t) ∷ spine) zero h = absurd (omega arith)
  unfold_seq-gen false null ((k, t) ∷ spine) (suc f) h =
      ap (λ xs. k ∷ xs) (unfold_seq-gen false t spine f (omega arith))
  unfold_seq-gen true null ((k, t) ∷ spine) (suc f) h =
      ap (λ xs. k ∷ xs) (unfold_seq-gen true t spine f (omega arith))
  unfold_seq-gen flip (new k l r _ _) spine zero h = absurd (omega arith)
  unfold_seq-gen false (new k l r _ _) spine (suc f) h =
      unfold_seq-gen false l ((k, r) ∷ spine) (suc f) (omega arith)
      ∙ sym (append_assoc (inorder l) (k ∷ inorder r) (stacked false spine))
  unfold_seq-gen true (new k l r _ _) spine (suc f) h =
      unfold_seq-gen true r ((k, l) ∷ spine) (suc f) (omega arith)
      ∙ sym (order-true k l r (stacked true spine))

  -- The sequence is all the items of the tree, in order, or in reverse order if `flip` is set.
  pub enumerate_lem :
      (t : Tree K) → (enumerate false t ≡ inorder t) × (enumerate true t ≡ reverse (inorder t))
  unfolding enumerate
  enumerate_lem t = (
    unfold_seq-gen false t [] (nodes t) (omega arith) ∙ append-nil (inorder t),
    unfold_seq-gen true t [] (nodes t) (omega arith) ∙ append-nil (reverse (inorder t)),
  )
