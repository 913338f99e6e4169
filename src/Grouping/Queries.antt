-- ===== src/Grouping/Queries.antt =====
-- Queries that order, select, filter and group, as the reader of the SQL store chains them.
use odd_job.Prelude.{
  ℕ, ◌≤◌, ◌≡◌, refl, sym, ap, ◌∙◌, subst, inl, inr, Bool, true, List, [], ◌∷◌, map, arith,
  Bool-cases,
}
use mathlib.Core.List.{Memᴰ}
use mathlib.Core.List.Memᴰ
use odd_job.Seq.Slices.{filter_seq}
use odd_job.Grouping.{order_by, group_by, firsts}
use odd_job.Grouping.Laws.{firsts-group_by}
use odd_job.Grouping.Ordered.{Ascending, Strict, mem-order_by, Ascending-order_by}

module _ {ℓ} {A : Type ℓ} (ok : A → Bool) where
  pub filter_seq-mem : (y : A) (xs : List A) → Memᴰ y (filter_seq ok xs) → Memᴰ y xs × (ok y ≡ true)
  unfolding filter_seq
  filter_seq-mem y [] = λ m. absurd (Memᴰ.not-nil m)
  filter_seq-mem y (x ∷ xs) = elim (Bool-cases (ok x)) [
    | inl t ↦ rw t (λ m. elim (Memᴰ.cases_cons m) [
      | inl e ↦ (Memᴰ.head e, ap ok e ∙ t)
      | inr u ↦ let (n, h) = filter_seq-mem y xs u in (Memᴰ.tail n, h)
    ])
    | inr f ↦ rw f (λ m. let (n, h) = filter_seq-mem y xs m in (Memᴰ.tail n, h))
  ]

  pub mem-filter_seq : (y : A) (xs : List A) → Memᴰ y xs → ok y ≡ true → Memᴰ y (filter_seq ok xs)
  unfolding filter_seq
  mem-filter_seq y [] m h = absurd (Memᴰ.not-nil m)
  mem-filter_seq y (x ∷ xs) m h = elim (Bool-cases (ok x)) [
    | inl t ↦ rw t (elim (Memᴰ.cases_cons m) [
      | inl e ↦ Memᴰ.head e
      | inr u ↦ Memᴰ.tail (mem-filter_seq y xs u h)
    ])
    | inr f ↦ rw f (elim (Memᴰ.cases_cons m) [
      | inl e ↦ let g = ap ok e in absurd (ground (arith, f, h, g))
      | inr u ↦ mem-filter_seq y xs u h
    ])
  ]

  Ascending-filter_seq :
      (key : A → ℕ) (xs : List A) → Ascending key xs → Ascending key (filter_seq ok xs)
  unfolding filter_seq
  Ascending-filter_seq key [] a = tt
  Ascending-filter_seq key (x ∷ xs) a =
      let rest = Ascending-filter_seq key xs a.1 in
      elim (Bool-cases (ok x)) [
        | inl t ↦ rw t ((λ y m. a.0 y (filter_seq-mem y xs m).0), rest)
        | inr f ↦ rw f rest
      ]

module _ {ℓ κ} {J : Type ℓ} {A : Type κ} (pick : J → A) (key : A → ℕ) (ok : A → Bool) where
  Ascending-map : (xs : List J) → Ascending (λ j. key (pick j)) xs → Ascending key (map pick xs)
  Ascending-map [] a = tt
  Ascending-map (x ∷ xs) a = (
    λ y m. let (j, n, e) = Memᴰ.of_map pick xs m in subst (λ v. key (pick x) ≤ key v) e (a.0 j n),
    Ascending-map xs a.1,
  )

  pub map-filter_seq :
      (xs : List J) → map pick (filter_seq (λ j. ok (pick j)) xs) ≡ filter_seq ok (map pick xs)
  unfolding filter_seq
  map-filter_seq [] = refl
  map-filter_seq (x ∷ xs) = elim (Bool-cases (ok (pick x))) [
    | inl t ↦ rw t (ap (λ r. pick x ∷ r) (map-filter_seq xs))
    | inr f ↦ rw f (map-filter_seq xs)
  ]

  -- Whatever the order and the repetitions of the rows, the query gives back a list in strict order
  -- whose items are what the rows that pass hold.
  pub firsts-of_rows :
      (rows : List J) (ys : List A)
      → Strict key ys
      → ((y : A) → Memᴰ y ys → (ok y ≡ true) × ((j : J) × Memᴰ j rows × (pick j ≡ y)))
      → ((j : J) → Memᴰ j rows → ok (pick j) ≡ true → Memᴰ (pick j) ys)
      → firsts (group_by key (filter_seq ok (map pick (order_by (λ j. key (pick j)) rows)))) ≡ ys
  firsts-of_rows rows ys s covered sound =
      let by : J → ℕ = λ j. key (pick j) in
      firsts-group_by key _ ys
        (Ascending-filter_seq ok key _ (Ascending-map _ (Ascending-order_by by rows))) s
        (λ z. (
          λ m.
              let (n, h) = filter_seq-mem ok z _ m in
              let (j, k, e) = Memᴰ.of_map pick (order_by by rows) n in
              Memᴰ.cast (sym e) (sound j ((mem-order_by by j rows).0 k) (ap ok e ∙ h)),
          λ m.
              let (h, (j, k, e)) = covered z m in
              mem-filter_seq ok z _
                (Memᴰ.cast (sym e) (Memᴰ.map pick ((mem-order_by by j rows).1 k))) h,
        ))
