-- ===== src/Seq/Extremes.antt =====
-- The extreme items of a sequence, of WebSharper.Main.js.
use Prim.Native.Nat.Ordering.{gt}
use odd_job.Prelude.{
  ℕ, zero, suc, ◌≡◌, ◌≢◌, refl, none, some, List, [], ◌∷◌, arith, inl, inr, get_elem?,
}
use odd_job.Comparable.{Comparable, Ordering-cases}
use odd_job.SortedList.{All}
use odd_job.Seq.Loops.{max_seq, max_from, min_seq, min_from}

module _ {ℓ} {A : Type ℓ} ⦃o : Comparable A⦄ where
  abbrev pub AtMost : A → A → Type 0
  AtMost x y = o.cmp x y ≢ gt

  AtMost-refl : (x : A) → AtMost x x
  AtMost-refl x h = ground (arith, o.cmp_refl x)

  AtMost-trans : (x y z : A) → AtMost x y → AtMost y z → AtMost x z
  AtMost-trans x y z a b = elim (Ordering-cases (o.cmp x y)) [
    | inl l ↦ elim (Ordering-cases (o.cmp y z)) [
      | inl l' ↦ λ h. ground (arith, o.lt_trans x y z l l')
      | inr (inl e) ↦ λ h. ground (arith, o.lt_eq_trans x y z l e)
      | inr (inr g) ↦ absurd (b g)
    ]
    | inr (inl e) ↦ elim (Ordering-cases (o.cmp y z)) [
      | inl l' ↦ λ h. ground (arith, o.eq_lt_trans x y z e l')
      | inr (inl e') ↦ λ h. ground (arith, o.eq_trans x y z e e')
      | inr (inr g) ↦ absurd (b g)
    ]
    | inr (inr g) ↦ absurd (a g)
  ]

-- An item of the sequence that bounds all of its items, where `R x m` says that `m` bounds `x`.
pub record IsExtreme {ℓ} {A : Type ℓ} (R : A → A → Type 0) (s : List A) (m : A) : Type ℓ where
  pub place : ℕ
  pub member : get_elem? s place ≡ some m
  pub bound : All (λ x. R x m) s

module _ {ℓ} {A : Type ℓ} (R : A → A → Type 0) (R_trans : (x y z : A) → R x y → R y z → R x z)
    (m x r : A) (s : List A) where
  abbrev past : ℕ → ℕ
  past zero = 0
  past (suc i) = suc (suc i)

  past-member : (i : ℕ) → get_elem? (m ∷ s) i ≡ some r → get_elem? (m ∷ x ∷ s) (past i) ≡ some r
  past-member zero e = e
  past-member (suc i) e = e

  -- The item that was kept bounds the one passed over.
  IsExtreme-keep : R x m → IsExtreme R (m ∷ s) r → IsExtreme R (m ∷ x ∷ s) r
  IsExtreme-keep h g = record {
    place = past g.place;
    member = past-member g.place g.member;
    bound = (g.bound.0, (R_trans x m r h g.bound.0, g.bound.1));
  }

  -- The item that was taken bounds the one given up.
  IsExtreme-take : R m x → IsExtreme R (x ∷ s) r → IsExtreme R (m ∷ x ∷ s) r
  IsExtreme-take h g = record {
    place = suc g.place;
    member = g.member;
    bound = (R_trans m x r h g.bound.0, g.bound);
  }

module _ {ℓ} {A : Type ℓ} ⦃o : Comparable A⦄ where
  abbrev pub AtLeast : A → A → Type 0
  AtLeast x m = AtMost m x

  AtLeast-trans : (x y z : A) → AtLeast x y → AtLeast y z → AtLeast x z
  AtLeast-trans x y z a b = AtMost-trans z y x b a

  max_from-IsExtreme : (m : A) (s : List A) → IsExtreme AtMost (m ∷ s) (max_from m s)
  unfolding max_from
  max_from-IsExtreme m [] = record { place = 0; member = refl; bound = (AtMost-refl m, tt) }
  max_from-IsExtreme m (x ∷ s) = elim (Ordering-cases (o.cmp x m)) [
    | inl l ↦
        rw (l, max_from)
          (IsExtreme-keep AtMost AtMost-trans m x (max_from m s) s (λ h. ground (arith, l, h))
            (max_from-IsExtreme m s))
    | inr (inl e) ↦
        rw (e, max_from)
          (IsExtreme-keep AtMost AtMost-trans m x (max_from m s) s (λ h. ground (arith, e, h))
            (max_from-IsExtreme m s))
    | inr (inr g) ↦
        rw (g, max_from)
          (IsExtreme-take AtMost AtMost-trans m x (max_from x s) s
            (λ h. ground (arith, o.lt_of_gt x m g, h)) (max_from-IsExtreme x s))
  ]

  min_from-IsExtreme : (m : A) (s : List A) → IsExtreme AtLeast (m ∷ s) (min_from m s)
  unfolding min_from
  min_from-IsExtreme m [] = record { place = 0; member = refl; bound = (AtMost-refl m, tt) }
  min_from-IsExtreme m (x ∷ s) = elim (Ordering-cases (o.cmp x m)) [
    | inl l ↦
        rw (l, min_from)
          (IsExtreme-take AtLeast AtLeast-trans m x (min_from x s) s (λ h. ground (arith, l, h))
            (min_from-IsExtreme x s))
    | inr (inl e) ↦
        rw (e, min_from)
          (IsExtreme-keep AtLeast AtLeast-trans m x (min_from m s) s
            (λ h. ground (arith, o.eq_symm x m e, h)) (min_from-IsExtreme m s))
    | inr (inr g) ↦
        rw (g, min_from)
          (IsExtreme-keep AtLeast AtLeast-trans m x (min_from m s) s
            (λ h. ground (arith, o.lt_of_gt x m g, h)) (min_from-IsExtreme m s))
  ]

  -- Of an empty sequence `max` and `min` throw; of another, `max` is an item that none exceeds and
  -- `min` one that exceeds none.
  pub max-min_lem :
      (x : A) (s : List A)
      → (max_seq {A = A} [] ≡ none)
        × (min_seq {A = A} [] ≡ none)
        × ((m : A) × (max_seq (x ∷ s) ≡ some m) × IsExtreme AtMost (x ∷ s) m)
        × ((m : A) × (min_seq (x ∷ s) ≡ some m) × IsExtreme AtLeast (x ∷ s) m)
  unfolding max_seq min_seq
  max-min_lem x s = (
    refl,
    refl,
    (max_from x s, refl, max_from-IsExtreme x s),
    (min_from x s, refl, min_from-IsExtreme x s),
  )
