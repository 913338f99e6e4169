-- ===== src/SqlQueue/Orphans.antt =====
-- BaseSqlJobQueueAdder.cs keeps each parameter and each generic type with a job.
use odd_job.Prelude.{
  ℕ, ◌≡◌, refl, sym, ap, inl, inr, ◌∙◌, Bool, true, false, List, [], ◌∷◌, ◌++◌, if◌then◌else◌,
}
use mathlib.Core.List.{Memᴰ}
use mathlib.Core.List.Memᴰ
use odd_job.JobData.{SerializableOddJob}
use odd_job.SqlStore.{Row, ParamRow, update}
use odd_job.SqlQueue.{
  Tables, add_job, insert_job, release_job, has_id, as_new, param_data_for_job,
  generic_data_for_job, meta_data_for_job, param_row,
}
use odd_job.SqlQueue.Lists.{generics_from-mem}
use odd_job.SqlQueue.Purges.{HasJobs}

mem-update :
    (p : Row → Bool) (f : Row → Row) (rows : List Row) (guid : ℕ)
    → ((r : Row) → (f r).job_guid ≡ r.job_guid)
    → ((r : Row) × Memᴰ r rows × (r.job_guid ≡ guid))
    → (r : Row) × Memᴰ r (update p f rows) × (r.job_guid ≡ guid)
unfolding update
mem-update p f rows guid keeps (r, m, e) =
    (if p r then f r else r, Memᴰ.map (λ r. if p r then f r else r) m, same_guid (p r) ∙ e)
  where
    same_guid : (b : Bool) → (if b then f r else r).job_guid ≡ r.job_guid
    same_guid true = keeps r
    same_guid false = refl

-- Adding a job keeps each parameter and each generic type with a job.
pub add_job-HasJobs :
    (now inserted_id : ℕ) (job : SerializableOddJob) (t : Tables)
    → HasJobs t
    → HasJobs (add_job now inserted_id job t)
unfolding add_job release_job insert_job meta_data_for_job param_data_for_job generic_data_for_job
add_job-HasJobs now inserted_id job t ok =
    let row = meta_data_for_job now inserted_id job in
    let rows = t.rows ++ row ∷ [] in
    let old : (n : ℕ)
        → ((r : Row) × Memᴰ r t.rows × (r.job_guid ≡ n))
        → (r : Row) × Memᴰ r (update (has_id inserted_id) as_new rows) × (r.job_guid ≡ n) =
      λ n (r, m, e).
        mem-update (has_id inserted_id) as_new rows n (λ r. refl)
          (r, Memᴰ.append_left (row ∷ []) m, e) in
    let added : (n : ℕ)
        → job.job_id ≡ n
        → (r : Row) × Memᴰ r (update (has_id inserted_id) as_new rows) × (r.job_guid ≡ n) =
      λ n e.
        mem-update (has_id inserted_id) as_new rows n (λ r. refl)
          (row, Memᴰ.append_right t.rows (Memᴰ.head refl), e) in
    record {
      params = λ p m. elim (Memᴰ.append_cases t.params m) [
        | inl n ↦ old p.job_guid (ok.params p n)
        | inr n ↦
            let (q, _, e) = Memᴰ.of_map (param_row job.job_id) job.job_args n in
            added p.job_guid (ap (λ (v : ParamRow). v.job_guid) e)
      ];
      generics = λ g m. elim (Memᴰ.append_cases t.generics m) [
        | inl n ↦ old g.job_guid (ok.generics g n)
        | inr n ↦
            added g.job_guid (sym (generics_from-mem job.job_id 0 job.method_generic_types g n).1.0)
      ];
    }
