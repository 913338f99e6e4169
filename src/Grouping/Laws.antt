-- ===== src/Grouping/Laws.antt =====
-- The first items of the groups of an ordered list, for the readers of the stores.
use odd_job.Prelude.{
  ℕ, ◌≤◌, ◌<◌, ◌≡◌, refl, sym, ap, subst, ◌∙◌, ◌⊎◌, ◌↔◌, inl, inr, List, [], ◌∷◌, arith, ◌==◌,
  ==_iff, Bool-cases, if◌then◌else◌,
}
use mathlib.Core.List.Memᴰ
use mathlib.Core.List.{Memᴰ}
use odd_job.Grouping.{Grouping, add_item, group_onto, group_by, firsts}
use odd_job.Grouping.Ordered.{Ascending, Strict}

module _ {ℓ} {A : Type ℓ} (key : A → ℕ) where
  -- What `add_item` does to the first items.
  add_first : A → List A → List A
  add_first x [] = x ∷ []
  add_first x (f ∷ fs) = let rest = add_first x fs in if key f == key x then f ∷ fs else f ∷ rest

  first_onto : List A → List A → List A
  first_onto fs [] = fs
  first_onto fs (x ∷ xs) = first_onto (add_first x fs) xs

  Keyed : List (Grouping A) → Type ℓ
  Keyed [] = Unit
  Keyed (g ∷ gs) = (g.key ≡ key g.first) × Keyed gs

  Keyed-add_item : (x : A) (gs : List (Grouping A)) → Keyed gs → Keyed (add_item key x gs)
  unfolding Keyed
  Keyed-add_item x [] k = (refl, tt)
  Keyed-add_item x (g ∷ gs) k = elim (Bool-cases (g.key == key x)) [
    | inl t ↦ rw t k
    | inr f ↦ rw f (k.0, Keyed-add_item x gs k.1)
  ]

  firsts-add_item :
      (x : A) (gs : List (Grouping A))
      → Keyed gs
      → firsts (add_item key x gs) ≡ add_first x (firsts gs)
  unfolding Keyed add_first
  firsts-add_item x [] k = refl
  firsts-add_item x (g ∷ gs) k = elim (Bool-cases (g.key == key x)) [
    | inl t ↦ rw (t, ap (λ n. n == key x) (sym k.0) ∙ t) refl
    | inr f ↦
        rw (f, ap (λ n. n == key x) (sym k.0) ∙ f)
          (ap (λ r. g.first ∷ r) (firsts-add_item x gs k.1))
  ]

  firsts-group_onto :
      (gs : List (Grouping A)) (xs : List A)
      → Keyed gs
      → firsts (group_onto key gs xs) ≡ first_onto (firsts gs) xs
  unfolding first_onto
  firsts-group_onto gs [] k = refl
  firsts-group_onto gs (x ∷ xs) k =
      firsts-group_onto (add_item key x gs) xs (Keyed-add_item x gs k)
      ∙ ap (λ fs. first_onto fs xs) (firsts-add_item x gs k)

  add_first-mem : (x y : A) (fs : List A) → Memᴰ y (add_first x fs) → Memᴰ y fs ⊎ (y ≡ x)
  unfolding add_first
  add_first-mem x y [] = λ m. inr (Memᴰ.eq_of_singleton m)
  add_first-mem x y (f ∷ fs) = elim (Bool-cases (key f == key x)) [
    | inl t ↦ rw t (λ m. inl m)
    | inr u ↦ rw u (λ m. elim (Memᴰ.cases_cons m) [
      | inl e ↦ inl (Memᴰ.head e)
      | inr v ↦ elim (add_first-mem x y fs v) [ inl w ↦ inl (Memᴰ.tail w) | inr e ↦ inr e ]
    ])
  ]

  mem-add_first : (x y : A) (fs : List A) → Memᴰ y fs → Memᴰ y (add_first x fs)
  unfolding add_first
  mem-add_first x y [] m = absurd (Memᴰ.not-nil m)
  mem-add_first x y (f ∷ fs) m = elim (Bool-cases (key f == key x)) [
    | inl t ↦ rw t m
    | inr u ↦ rw u (elim (Memᴰ.cases_cons m) [
      | inl e ↦ Memᴰ.head e
      | inr v ↦ Memᴰ.tail (mem-add_first x y fs v)
    ])
  ]

  -- Some item of the list has the key.
  HasKey : ℕ → List A → Type ℓ
  HasKey k fs = (f : A) × Memᴰ f fs × (key f ≡ k)

  HasKey-add_first : (x : A) (fs : List A) → HasKey (key x) (add_first x fs)
  unfolding add_first HasKey
  HasKey-add_first x [] = (x, Memᴰ.head refl, refl)
  HasKey-add_first x (f ∷ fs) = elim (Bool-cases (key f == key x)) [
    | inl t ↦ rw t (f, Memᴰ.head refl, (==_iff (key f) (key x)).0 t)
    | inr u ↦ rw u (let (g, m, e) = HasKey-add_first x fs in (g, Memᴰ.tail m, e))
  ]

  Strict-add_first :
      (x : A) (fs : List A)
      → ((y : A) → Memᴰ y fs → key y ≤ key x)
      → Strict key fs
      → Strict key (add_first x fs)
  unfolding add_first
  Strict-add_first x [] below s = ((λ y m. absurd (Memᴰ.not-nil m)), tt)
  Strict-add_first x (f ∷ fs) below s = elim (Bool-cases (key f == key x)) [
    | inl t ↦ rw t s
    | inr u ↦
        let here : key f < key x =
          ground (arith, u, ==_iff (key f) (key x), below f (Memᴰ.head refl)) in
        rw u (
          (λ y m. elim (add_first-mem x y fs m) [
            | inl v ↦ s.0 y v
            | inr e ↦ subst (λ v. key f < key v) (sym e) here
          ]),
          Strict-add_first x fs (λ y m. below y (Memᴰ.tail m)) s.1,
        )
  ]

  first_onto-mem : (y : A) (fs xs : List A) → Memᴰ y (first_onto fs xs) → Memᴰ y fs ⊎ Memᴰ y xs
  unfolding first_onto
  first_onto-mem y fs [] m = inl m
  first_onto-mem y fs (x ∷ xs) m = elim (first_onto-mem y (add_first x fs) xs m) [
    | inl u ↦ elim (add_first-mem x y fs u) [ inl v ↦ inl v | inr e ↦ inr (Memᴰ.head e) ]
    | inr u ↦ inr (Memᴰ.tail u)
  ]

  mem-first_onto : (y : A) (fs xs : List A) → Memᴰ y fs → Memᴰ y (first_onto fs xs)
  unfolding first_onto
  mem-first_onto y fs [] m = m
  mem-first_onto y fs (x ∷ xs) m = mem-first_onto y (add_first x fs) xs (mem-add_first x y fs m)

  HasKey-first_onto : (y : A) (fs xs : List A) → Memᴰ y xs → HasKey (key y) (first_onto fs xs)
  unfolding first_onto HasKey
  HasKey-first_onto y fs [] m = absurd (Memᴰ.not-nil m)
  HasKey-first_onto y fs (x ∷ xs) m = elim (Memᴰ.cases_cons m) [
    | inl e ↦
        let (f, n, same) = HasKey-add_first x fs in
        (f, mem-first_onto f (add_first x fs) xs n, same ∙ ap key (sym e))
    | inr t ↦ HasKey-first_onto y (add_first x fs) xs t
  ]

  Strict-first_onto :
      (fs xs : List A)
      → ((f y : A) → Memᴰ f fs → Memᴰ y xs → key f ≤ key y)
      → Strict key fs
      → Ascending key xs
      → Strict key (first_onto fs xs)
  unfolding first_onto
  Strict-first_onto fs [] below s a = s
  Strict-first_onto fs (x ∷ xs) below s a =
      Strict-first_onto (add_first x fs) xs
        (λ f y m n. elim (add_first-mem x f fs m) [
          | inl v ↦ below f y v (Memᴰ.tail n)
          | inr e ↦ subst (λ v. key v ≤ key y) (sym e) (a.0 y n)
        ])
        (Strict-add_first x fs (λ y m. below y x m (Memᴰ.head refl)) s) a.1

  -- Two lists of the same items in strict order are the same list.
  Strict-unique :
      (xs ys : List A) → Strict key xs → Strict key ys → ((z : A) → Memᴰ z xs ↔ Memᴰ z ys) → xs ≡ ys
  Strict-unique [] [] s t same = refl
  Strict-unique [] (y ∷ ys) s t same = absurd (Memᴰ.not-nil ((same y).1 (Memᴰ.head refl)))
  Strict-unique (x ∷ xs) [] s t same = absurd (Memᴰ.not-nil ((same x).0 (Memᴰ.head refl)))
  Strict-unique (x ∷ xs) (y ∷ ys) s t same =
      let e : x ≡ y = elim (Memᴰ.cases_cons ((same x).0 (Memᴰ.head refl))) [
        | inl e ↦ e
        | inr m ↦ elim (Memᴰ.cases_cons ((same y).1 (Memᴰ.head refl))) [
          | inl e ↦ sym e
          | inr n ↦ let a = t.0 x m in let b = s.0 y n in absurd (omega arith)
        ]
      ] in
      let rest = Strict-unique xs ys s.1 t.1 (λ z. (
        λ m. elim (Memᴰ.cases_cons ((same z).0 (Memᴰ.tail m))) [
          | inl g ↦ let a = s.0 z m in let h = ap key (g ∙ sym e) in absurd (omega arith)
          | inr n ↦ n
        ],
        λ m. elim (Memᴰ.cases_cons ((same z).1 (Memᴰ.tail m))) [
          | inl g ↦ let a = t.0 z m in let h = ap key (g ∙ e) in absurd (omega arith)
          | inr n ↦ n
        ],
      )) in
      ap (λ v. v ∷ xs) e ∙ ap (λ v. y ∷ v) rest

  Strict-same :
      (xs : List A) (x y : A) → Strict key xs → Memᴰ x xs → Memᴰ y xs → key x ≡ key y → x ≡ y
  Strict-same [] x y s m n e = absurd (Memᴰ.not-nil m)
  Strict-same (z ∷ xs) x y s m n e = elim (Memᴰ.cases_cons m) [
    | inl a ↦ elim (Memᴰ.cases_cons n) [
      | inl b ↦ a ∙ sym b
      | inr v ↦ let h = s.0 y v in let g = ap key a in absurd (omega arith)
    ]
    | inr u ↦ elim (Memᴰ.cases_cons n) [
      | inl b ↦ let h = s.0 x u in let g = ap key b in absurd (omega arith)
      | inr v ↦ Strict-same xs x y s.1 u v e
    ]
  ]

  -- Where an ordered list has the items of a list in strict order, each as often as it may, the
  -- first items of its groups are that list.
  pub firsts-group_by :
      (xs ys : List A)
      → Ascending key xs
      → Strict key ys
      → ((z : A) → Memᴰ z xs ↔ Memᴰ z ys)
      → firsts (group_by key xs) ≡ ys
  unfolding group_by HasKey Keyed
  firsts-group_by xs ys a s same =
      firsts-group_onto [] xs tt
      ∙ Strict-unique (first_onto [] xs) ys
          (Strict-first_onto [] xs (λ f y m. absurd (Memᴰ.not-nil m)) tt a) s
          (λ z. (
            λ m. elim (first_onto-mem z [] xs m) [
              | inl n ↦ absurd (Memᴰ.not-nil n)
              | inr n ↦ (same z).0 n
            ],
            λ m.
                let (f, n, e) = HasKey-first_onto z [] xs ((same z).1 m) in
                let g : Memᴰ f ys = elim (first_onto-mem f [] xs n) [
                  | inl v ↦ absurd (Memᴰ.not-nil v)
                  | inr v ↦ (same f).0 v
                ] in
                Memᴰ.cast (Strict-same ys z f s m g (sym e)) n,
          ))
