-- ===== src/SqlQueue/Lists.antt =====
-- The arguments and generic types of a job that BaseSqlJobQueueAdder.cs writes, as BaseSqlJobQueueManager.cs
-- reads them.
use odd_job.Prelude.{
  Text, ℕ, ◌+◌, ◌≤◌, ◌<◌, ◌≡◌, ◌≢◌, refl, sym, ap, subst, ◌∙◌, inl, inr, true, false, Option, some,
  List, [], ◌∷◌, map, arith, ◌==◌, ==_iff, is_some,
}
use mathlib.Core.List.{Memᴰ}
use mathlib.Core.List.Memᴰ
use odd_job.Grouping.{order_by, group_by, firsts}
use odd_job.Grouping.Ordered.{Strict}
use odd_job.Grouping.Queries.{firsts-of_rows, map-filter_seq}
use odd_job.JobData.{SerializedParameter, SerializableOddJob}
use odd_job.SqlStore.{Row, ParamRow}
use odd_job.SqlQueue.{
  GenericRow, param_row, param_data_for_job, generics_from, generic_data_for_job,
}
use odd_job.SqlQueue.Reading.{
  QueueRowSet, param_of, generic_of, has_type, has_type_name, parameter_of, read_args,
  read_generics, or_empty_param, or_empty_generic,
}
use odd_job.SqlQueue.Joins.{or_unmatched-mem, mem-or_unmatched, some-unmatched, IsJoin}

-- A job as `SerializableJobCreator` makes them: its arguments in the order of their ordinals, and no
-- type without a name.
pub record IsStorable (job : SerializableOddJob) : Type 0 where
  pub ordered : Strict (λ (q : SerializedParameter). q.ordinal) job.job_args
  pub typed : (q : SerializedParameter) → Memᴰ q job.job_args → is_some q.type_name ≡ true
  pub named : (q : Option Text) → Memᴰ q job.method_generic_types → is_some q ≡ true

pub is_same : (n : ℕ) → (n == n) ≡ true
is_same n = (==_iff n n).1 refl

param_row-Strict :
    (guid : ℕ) (qs : List SerializedParameter)
    → Strict (λ q. q.ordinal) qs
    → Strict (λ (p : ParamRow). p.param_ordinal) (map (param_row guid) qs)
param_row-Strict guid [] s = tt
param_row-Strict guid (q ∷ qs) s = (
  λ y m.
      let (a, n, e) = Memᴰ.of_map (param_row guid) qs m in
      subst (λ (v : ParamRow). q.ordinal < v.param_ordinal) e (s.0 a n),
  param_row-Strict guid qs s.1,
)

pub parameter_of-param_row :
    (guid : ℕ) (qs : List SerializedParameter) → map parameter_of (map (param_row guid) qs) ≡ qs
parameter_of-param_row guid [] = refl
parameter_of-param_row guid (q ∷ qs) = ap (λ r. q ∷ r) (parameter_of-param_row guid qs)

pub generics_from-mem :
    (guid i : ℕ) (qs : List (Option Text)) (g : GenericRow)
    → Memᴰ g (generics_from guid i qs)
    → (i ≤ g.param_order) × ((g.job_guid ≡ guid) × Memᴰ g.param_type_name qs)
generics_from-mem guid i [] g m = absurd (Memᴰ.not-nil m)
generics_from-mem guid i (q ∷ qs) g m = elim (Memᴰ.cases_cons m) [
  | inl e ↦ (
    (let h = ap (λ (v : GenericRow). v.param_order) e in omega arith),
    (
      ap (λ (v : GenericRow). v.job_guid) e,
      Memᴰ.head (ap (λ (v : GenericRow). v.param_type_name) e),
    ),
  )
  | inr n ↦
      let (a, (b, c)) = generics_from-mem guid (i + 1) qs g n in (omega arith, (b, Memᴰ.tail c))
]

generics_from-Strict :
    (guid i : ℕ) (qs : List (Option Text))
    → Strict (λ (g : GenericRow). g.param_order) (generics_from guid i qs)
generics_from-Strict guid i [] = tt
generics_from-Strict guid i (q ∷ qs) = (
  λ g m. let h = (generics_from-mem guid (i + 1) qs g m).0 in omega arith,
  generics_from-Strict guid (i + 1) qs,
)

pub map-generics_from :
    (guid i : ℕ) (qs : List (Option Text))
    → map (λ (g : GenericRow). g.param_type_name) (generics_from guid i qs) ≡ qs
map-generics_from guid i [] = refl
map-generics_from guid i (q ∷ qs) = ap (λ r. q ∷ r) (map-generics_from guid (i + 1) qs)

no_type : false ≢ true
no_type e = ground arith

module _ (job : SerializableOddJob) (ok : IsStorable job) (r : Row) (group : List QueueRowSet)
    (j : IsJoin r (param_data_for_job job) (generic_data_for_job job) group) where
  pub read_args-IsJoin : read_args group ≡ job.job_args
  unfolding read_args param_data_for_job
  read_args-IsJoin =
      let ps = map (param_row job.job_id) job.job_args in
      let same =
        firsts-of_rows param_of (λ (p : ParamRow). p.param_ordinal) has_type group ps
          (param_row-Strict job.job_id job.job_args ok.ordered)
          (λ p m.
            let (q, n, e) = Memᴰ.of_map (param_row job.job_id) job.job_args m in
            let (o, k) = some-unmatched (generic_data_for_job job) in
            (
              ap has_type (sym e) ∙ ok.typed q n,
              (
                record { meta_data = r; param_data = some p; generic_data = o },
                j.complete (some p) o (mem-or_unmatched p ps m) k,
                refl,
              ),
            ))
          (λ q m h. elim (or_unmatched-mem q.param_data ps (j.sound q m).1.0) [
            | inl e ↦ absurd (no_type (sym (ap (λ o. has_type (or_empty_param o)) e) ∙ h))
            | inr (p, n, e) ↦ Memᴰ.cast (ap or_empty_param e) n
          ]) in
      ap (map parameter_of) same ∙ parameter_of-param_row job.job_id job.job_args

  pub read_generics-IsJoin : read_generics group ≡ job.method_generic_types
  unfolding read_generics generic_data_for_job
  read_generics-IsJoin =
      let gs = generics_from job.job_id 0 job.method_generic_types in
      let same =
        firsts-of_rows generic_of (λ (g : GenericRow). g.param_order) has_type_name group gs
          (generics_from-Strict job.job_id 0 job.method_generic_types)
          (λ g m.
            let n = (generics_from-mem job.job_id 0 job.method_generic_types g m).1.1 in
            let (o, k) = some-unmatched (param_data_for_job job) in
            (
              ok.named g.param_type_name n,
              (
                record { meta_data = r; param_data = o; generic_data = some g },
                j.complete o (some g) k (mem-or_unmatched g gs m),
                refl,
              ),
            ))
          (λ q m h. elim (or_unmatched-mem q.generic_data gs (j.sound q m).1.1) [
            | inl e ↦ absurd (no_type (sym (ap (λ o. has_type_name (or_empty_generic o)) e) ∙ h))
            | inr (g, n, e) ↦ Memᴰ.cast (ap or_empty_generic e) n
          ]) in
      let key : GenericRow → ℕ = λ g. g.param_order in
      ap (λ l. map (λ (g : GenericRow). g.param_type_name) (firsts (group_by key l)))
        (map-filter_seq generic_of key has_type_name (order_by (λ q. key (generic_of q)) group))
      ∙ ap (map (λ (g : GenericRow). g.param_type_name)) same
      ∙ map-generics_from job.job_id 0 job.method_generic_types
