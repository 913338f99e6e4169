-- ===== src/FileStore/Places.antt =====
-- Lists whose items are objects with a place, for OddJob.Storage.FileSystem/FileSystemJobQueueManager.cs,
-- and the first items of an ordered list.
use odd_job.Prelude.{
  ℕ, zero, suc, ◌+◌, ◌≤◌, ◌≡◌, refl, sym, ap, subst, ◌∙◌, ◌⊎◌, inl, inr, List, [], ◌∷◌, map, take,
  arith, length,
}
use mathlib.Core.List.{Memᴰ}
use mathlib.Core.List.Memᴰ
use odd_job.Grouping.Ordered.{Ascending}
use odd_job.FileStore.{placed}

module _ {A : Type 0} where
  pub take-mem : (n : ℕ) (x : A) (xs : List A) → Memᴰ x (take n xs) → Memᴰ x xs
  take-mem zero x xs m = absurd (Memᴰ.not-nil m)
  take-mem (suc n) x [] m = m
  take-mem (suc n) x (y ∷ xs) m = elim (Memᴰ.cases_cons m) [
    | inl e ↦ Memᴰ.head e
    | inr k ↦ Memᴰ.tail (take-mem n x xs k)
  ]

  -- What an ordered list keeps out of its first items comes after them, and they are as many as
  -- they may be.
  pub take-Ascending :
      (key : A → ℕ) (n : ℕ) (x : A) (xs : List A)
      → Ascending key xs
      → Memᴰ x xs
      → Memᴰ x (take n xs)
        ⊎ ((length (take n xs) ≡ n) × ((y : A) → Memᴰ y (take n xs) → key y ≤ key x))
  take-Ascending key zero x xs a m = inr (refl, (λ y k. absurd (Memᴰ.not-nil k)))
  take-Ascending key (suc n) x [] a m = absurd (Memᴰ.not-nil m)
  take-Ascending key (suc n) x (z ∷ xs) a m = elim (Memᴰ.cases_cons m) [
    | inl e ↦ inl (Memᴰ.head e)
    | inr k ↦ elim (take-Ascending key n x xs a.1 k) [
      | inl t ↦ inl (Memᴰ.tail t)
      | inr (full, before) ↦ inr (
        ap suc full,
        λ y l. elim (Memᴰ.cases_cons l) [
          | inl e ↦ subst (λ v. key v ≤ key x) (sym e) (a.0 x k)
          | inr r ↦ before y r
        ],
      )
    ]
  ]

  pub placed-map-placed :
      {B : Type 0} (g : ℕ × A → B) (n i : ℕ) (y : B) (xs : List A)
      → Memᴰ (i, y) (placed n (map g (placed n xs)))
      → (x : A) × Memᴰ (i, x) (placed n xs) × (y ≡ g (i, x))
  placed-map-placed g n i y [] m = absurd (Memᴰ.not-nil m)
  placed-map-placed g n i y (x ∷ xs) m = elim (Memᴰ.cases_cons m) [
    | inl e ↦
        let at = ap (λ p. p.0) e in
        (x, Memᴰ.head (ap (λ k. (k, x)) at), ap (λ p. p.1) e ∙ ap (λ k. g (k, x)) (sym at))
    | inr k ↦ let (w, l, e) = placed-map-placed g (n + 1) i y xs k in (w, Memᴰ.tail l, e)
  ]

  pub mem-placed_map :
      {B : Type 0} (g : ℕ × A → B) (n i : ℕ) (x : A) (xs : List A)
      → Memᴰ (i, x) (placed n xs)
      → Memᴰ (i, g (i, x)) (placed n (map g (placed n xs)))
  mem-placed_map g n i x [] m = absurd (Memᴰ.not-nil m)
  mem-placed_map g n i x (y ∷ xs) m = elim (Memᴰ.cases_cons m) [
    | inl e ↦ Memᴰ.head (ap (λ p. (p.0, g p)) e)
    | inr k ↦ Memᴰ.tail (mem-placed_map g (n + 1) i x xs k)
  ]

  pub placed-map :
      {B : Type 0} (g : A → B) (n i : ℕ) (y : B) (xs : List A)
      → Memᴰ (i, y) (placed n (map g xs))
      → (x : A) × Memᴰ (i, x) (placed n xs) × (y ≡ g x)
  placed-map g n i y [] m = absurd (Memᴰ.not-nil m)
  placed-map g n i y (x ∷ xs) m = elim (Memᴰ.cases_cons m) [
    | inl e ↦ (x, Memᴰ.head (ap (λ p. (p.0, x)) e), ap (λ p. p.1) e)
    | inr k ↦ let (w, l, e) = placed-map g (n + 1) i y xs k in (w, Memᴰ.tail l, e)
  ]

  placed-from : (n i : ℕ) (x : A) (xs : List A) → Memᴰ (i, x) (placed n xs) → n ≤ i
  placed-from n i x [] m = absurd (Memᴰ.not-nil m)
  placed-from n i x (y ∷ xs) m = elim (Memᴰ.cases_cons m) [
    | inl e ↦ let at = ap (λ p. p.0) e in omega arith
    | inr k ↦ let h = placed-from (n + 1) i x xs k in omega arith
  ]

  -- A place has one item.
  pub placed-same :
      (n i : ℕ) (x y : A) (xs : List A)
      → Memᴰ (i, x) (placed n xs)
      → Memᴰ (i, y) (placed n xs)
      → x ≡ y
  placed-same n i x y [] m k = absurd (Memᴰ.not-nil m)
  placed-same n i x y (z ∷ xs) m k = elim (Memᴰ.cases_cons m) [
    | inl e ↦ elim (Memᴰ.cases_cons k) [
      | inl f ↦ ap (λ p. p.1) e ∙ sym (ap (λ p. p.1) f)
      | inr l ↦
          let h = placed-from (n + 1) i y xs l in let at = ap (λ p. p.0) e in absurd (omega arith)
    ]
    | inr l ↦ elim (Memᴰ.cases_cons k) [
      | inl f ↦
          let h = placed-from (n + 1) i x xs l in let at = ap (λ p. p.0) f in absurd (omega arith)
      | inr r ↦ placed-same (n + 1) i x y xs l r
    ]
  ]
