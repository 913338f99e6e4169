-- ===== src/SqlQueue/Joins.antt =====
-- The rows of the left joins by which BaseSqlJobQueueManager.cs reads a job, and their one group.
use odd_job.Prelude.{
  ℕ, ◌≡◌, refl, sym, ap, subst, ◌∙◌, ◌⊎◌, inl, inr, Option, none, some, List, [], ◌∷◌, ◌++◌, ◌==◌,
  append-nil, append_assoc, ==_iff,
}
use mathlib.Core.List.{Memᴰ}
use mathlib.Core.List.Memᴰ
use odd_job.Seq.Slices.{filter_seq}
use odd_job.Grouping.{Grouping, group_onto, group_by}
use odd_job.SqlStore.{Row, ParamRow}
use odd_job.SqlQueue.{GenericRow}
use odd_job.SqlQueue.Reading.{
  QueueRowSet, or_unmatched, with_generics, with_all, with_params, left_joins,
}

module _ {A : Type 0} where
  pub or_unmatched-mem :
      (o : Option A) (xs : List A)
      → Memᴰ o (or_unmatched xs)
      → (o ≡ none) ⊎ ((x : A) × Memᴰ x xs × (o ≡ some x))
  or_unmatched-mem o [] m = inl (Memᴰ.eq_of_singleton m)
  or_unmatched-mem o (x ∷ xs) m = let (y, n, e) = Memᴰ.of_map some (x ∷ xs) m in inr (y, n, sym e)

  pub mem-or_unmatched : (x : A) (xs : List A) → Memᴰ x xs → Memᴰ (some x) (or_unmatched xs)
  mem-or_unmatched x [] m = absurd (Memᴰ.not-nil m)
  mem-or_unmatched x (y ∷ xs) m = Memᴰ.map some m

  pub some-unmatched : (xs : List A) → (o : Option A) × Memᴰ o (or_unmatched xs)
  some-unmatched [] = (none, Memᴰ.head refl)
  some-unmatched (x ∷ xs) = (some x, Memᴰ.head refl)

  with_all-mem :
      (f : A → List QueueRowSet) (q : QueueRowSet) (xs : List A)
      → Memᴰ q (with_all f xs)
      → (x : A) × Memᴰ x xs × Memᴰ q (f x)
  with_all-mem f q [] m = absurd (Memᴰ.not-nil m)
  with_all-mem f q (x ∷ xs) m = elim (Memᴰ.append_cases (f x) m) [
    | inl n ↦ (x, Memᴰ.head refl, n)
    | inr n ↦ let (y, k, l) = with_all-mem f q xs n in (y, Memᴰ.tail k, l)
  ]

  mem-with_all :
      (f : A → List QueueRowSet) (q : QueueRowSet) (x : A) (xs : List A)
      → Memᴰ x xs
      → Memᴰ q (f x)
      → Memᴰ q (with_all f xs)
  mem-with_all f q x [] m n = absurd (Memᴰ.not-nil m)
  mem-with_all f q x (y ∷ xs) m n = elim (Memᴰ.cases_cons m) [
    | inl e ↦ Memᴰ.append_left (with_all f xs) (subst (λ v. Memᴰ q (f v)) e n)
    | inr k ↦ Memᴰ.append_right (f y) (mem-with_all f q x xs k n)
  ]

-- The rows of a result that a job's row, parameters and types give.
pub record IsJoin (r : Row) (ps : List ParamRow) (gs : List GenericRow) (result : List QueueRowSet)
    : Type 0 where
  pub sound :
      (q : QueueRowSet)
      → Memᴰ q result
      → (q.meta_data ≡ r)
        × (Memᴰ q.param_data (or_unmatched ps) × Memᴰ q.generic_data (or_unmatched gs))
  pub complete :
      (p : Option ParamRow) (g : Option GenericRow)
      → Memᴰ p (or_unmatched ps)
      → Memᴰ g (or_unmatched gs)
      → Memᴰ (record { meta_data = r; param_data = p; generic_data = g }) result

pub left_joins-IsJoin :
    (r : Row) (params ps : List ParamRow) (generics gs : List GenericRow)
    → filter_seq (λ (p : ParamRow). r.job_guid == p.job_guid) params ≡ ps
    → filter_seq (λ (g : GenericRow). r.job_guid == g.job_guid) generics ≡ gs
    → IsJoin r ps gs (left_joins (r ∷ []) params generics)
unfolding left_joins
left_joins-IsJoin r params ps generics gs e f = record {
  sound = λ q m.
      let (r', k, l) = with_all-mem (with_params params generics) q (r ∷ []) m in
      let at = Memᴰ.eq_of_singleton k in
      let (p, a, b) =
        with_all-mem (with_generics r generics) q _
          (subst (λ v. Memᴰ q (with_params params generics v)) at l) in
      let (g, c, same) = Memᴰ.of_map _ _ b in
      (
        ap (λ (v : QueueRowSet). v.meta_data) (sym same),
        (
          subst (λ v. Memᴰ v (or_unmatched ps)) (ap (λ (v : QueueRowSet). v.param_data) same)
              (subst (λ v. Memᴰ p (or_unmatched v)) e a),
          subst (λ v. Memᴰ v (or_unmatched gs)) (ap (λ (v : QueueRowSet). v.generic_data) same)
              (subst (λ v. Memᴰ g (or_unmatched v)) f c),
        ),
      );
  complete = λ p g a b. mem-with_all (with_params params generics) _ r (r ∷ []) (Memᴰ.head refl) (
      mem-with_all (with_generics r generics) _ p _ (subst (λ v. Memᴰ p (or_unmatched v)) (sym e) a)
        (Memᴰ.map (λ v. record { meta_data = r; param_data = p; generic_data = v })
          (subst (λ v. Memᴰ g (or_unmatched v)) (sym f) b)));
}

module _ {A : Type 0} (key : A → ℕ) where
  group_onto-constant :
      (g : Grouping A) (xs : List A)
      → ((x : A) → Memᴰ x xs → g.key ≡ key x)
      → group_onto key (g ∷ []) xs ≡ record g { others = g.others ++ xs } ∷ []
  group_onto-constant g [] same = ap (λ o. record g { others = o } ∷ []) (sym (append-nil g.others))
  group_onto-constant g (x ∷ xs) same =
      let t = (==_iff g.key (key x)).1 (same x (Memᴰ.head refl)) in
      rw t (
        group_onto-constant (record g { others = g.others ++ x ∷ [] }) xs
          (λ y m. same y (Memᴰ.tail m))
        ∙ ap (λ o. record g { others = o } ∷ []) (append_assoc g.others (x ∷ []) xs))

  -- Rows of one key are one group.
  pub group_by-constant :
      (x : A) (xs : List A)
      → ((y : A) → Memᴰ y xs → key x ≡ key y)
      → group_by key (x ∷ xs) ≡ record { key = key x; first = x; others = xs } ∷ []
  unfolding group_by
  group_by-constant x xs same =
      group_onto-constant (record { key = key x; first = x; others = [] }) xs same
