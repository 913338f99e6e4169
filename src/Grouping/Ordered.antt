-- ===== src/Grouping/Ordered.antt =====
-- Lists in the order of a key, for LINQ's `OrderBy` in the readers of the stores.
use odd_job.Prelude.{
  ℕ, ◌≤◌, ◌<◌, ◌≡◌, sym, subst, ◌⊎◌, ◌↔◌, inl, inr, List, [], ◌∷◌, arith, leb, leb→le, leb-false,
  Bool-cases,
}
use mathlib.Core.List.Memᴰ
use mathlib.Core.List.{Memᴰ}
use odd_job.Grouping.{insert_by, order_by}

module _ {ℓ} {A : Type ℓ} (key : A → ℕ) where
  abbrev pub Ascending : List A → Type ℓ
  Ascending [] = Unit
  Ascending (x ∷ xs) = ((y : A) → Memᴰ y xs → key x ≤ key y) × Ascending xs

  abbrev pub Strict : List A → Type ℓ
  Strict [] = Unit
  Strict (x ∷ xs) = ((y : A) → Memᴰ y xs → key x < key y) × Strict xs

  insert_by-mem : (x y : A) (xs : List A) → Memᴰ y (insert_by key x xs) → (y ≡ x) ⊎ Memᴰ y xs
  insert_by-mem x y [] = λ m. inl (Memᴰ.eq_of_singleton m)
  insert_by-mem x y (z ∷ xs) = elim (Bool-cases (leb (key x) (key z))) [
    | inl t ↦ rw t (λ m. Memᴰ.cases_cons m)
    | inr f ↦ rw f (λ m. elim (Memᴰ.cases_cons m) [
      | inl e ↦ inr (Memᴰ.head e)
      | inr u ↦ elim (insert_by-mem x y xs u) [ inl e ↦ inl e | inr v ↦ inr (Memᴰ.tail v) ]
    ])
  ]

  mem-insert_by : (x y : A) (xs : List A) → (y ≡ x) ⊎ Memᴰ y xs → Memᴰ y (insert_by key x xs)
  mem-insert_by x y [] (inl e) = Memᴰ.head e
  mem-insert_by x y [] (inr m) = absurd (Memᴰ.not-nil m)
  mem-insert_by x y (z ∷ xs) d = elim (Bool-cases (leb (key x) (key z))) [
    | inl t ↦ rw t (elim d [ inl e ↦ Memᴰ.head e | inr m ↦ Memᴰ.tail m ])
    | inr f ↦ rw f (elim d [
      | inl e ↦ Memᴰ.tail (mem-insert_by x y xs (inl e))
      | inr m ↦ elim (Memᴰ.cases_cons m) [
        | inl e ↦ Memᴰ.head e
        | inr t ↦ Memᴰ.tail (mem-insert_by x y xs (inr t))
      ]
    ])
  ]

  pub mem-order_by : (y : A) (xs : List A) → Memᴰ y (order_by key xs) ↔ Memᴰ y xs
  unfolding order_by
  mem-order_by y [] = ((λ m. m), (λ m. m))
  mem-order_by y (x ∷ xs) = (
    λ m. elim (insert_by-mem x y (order_by key xs) m) [
      | inl e ↦ Memᴰ.head e
      | inr t ↦ Memᴰ.tail ((mem-order_by y xs).0 t)
    ],
    λ m.
        mem-insert_by x y (order_by key xs)
          (elim (Memᴰ.cases_cons m) [ inl e ↦ inl e | inr t ↦ inr ((mem-order_by y xs).1 t) ]),
  )

  Ascending-insert_by : (x : A) (xs : List A) → Ascending xs → Ascending (insert_by key x xs)
  Ascending-insert_by x [] a = ((λ y m. absurd (Memᴰ.not-nil m)), tt)
  Ascending-insert_by x (z ∷ xs) a = elim (Bool-cases (leb (key x) (key z))) [
    | inl t ↦
        let le = leb→le (key x) (key z) t in
        rw t (
          (λ y m. elim (Memᴰ.cases_cons m) [
            | inl e ↦ subst (λ v. key x ≤ key v) (sym e) le
            | inr u ↦ let h = a.0 y u in omega arith
          ]),
          a,
        )
    | inr f ↦
        let lt = leb-false (key x) (key z) f in
        rw f (
          (λ y m. elim (insert_by-mem x y xs m) [
            | inl e ↦ subst (λ v. key z ≤ key v) (sym e) (omega arith)
            | inr u ↦ a.0 y u
          ]),
          Ascending-insert_by x xs a.1,
        )
  ]

  pub Ascending-order_by : (xs : List A) → Ascending (order_by key xs)
  unfolding order_by
  Ascending-order_by [] = tt
  Ascending-order_by (x ∷ xs) = Ascending-insert_by x (order_by key xs) (Ascending-order_by xs)
