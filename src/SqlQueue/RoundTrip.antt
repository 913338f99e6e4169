-- ===== src/SqlQueue/RoundTrip.antt =====
-- BaseSqlJobQueueAdder.cs against the reader of BaseSqlJobQueueManager.cs: what is added is read back.
use odd_job.Prelude.{
  Text, ℕ, ◌≡◌, refl, sym, ap, ◌∙◌, ◌↔◌, false, Option, none, some, List, [], ◌∷◌, ◌++◌, ◌==◌,
}
use mathlib.Core.List.{Memᴰ}
use mathlib.Core.List.Memᴰ
use odd_job.Seq.Slices.{filter_seq}
use odd_job.Grouping.{group_by}
use odd_job.JobData.{SerializedParameter, SerializableOddJob}
use odd_job.SqlStore.{Row, ParamRow, has_guid, new, ticks}
use odd_job.SqlQueue.{
  GenericRow, Tables, param_row, param_data_for_job, generic_data_for_job, meta_data_for_job,
  insert_job, has_id, as_new, release_job, add_job, max_retries_of, min_wait_of,
}
use odd_job.SqlQueue.Reading.{
  QueueRowSet, empty_object, Arrangement, read_args, read_generics, throws_on, read_job, read_all,
  serializable_join, get_serializable_jobs_by_criteria, left_joins, job_of,
}
use odd_job.SqlQueue.Filters.{filter_seq-appended, update-appended, exists-none}
use odd_job.SqlQueue.Joins.{some-unmatched, IsJoin, left_joins-IsJoin, group_by-constant}
use odd_job.SqlQueue.Lists.{
  IsStorable, is_same, generics_from-mem, read_args-IsJoin, read_generics-IsJoin,
}

-- No row has the id, and none of the three tables the guid.
pub record IsFresh (inserted_id guid : ℕ) (t : Tables) : Type 0 where
  pub ids : (r : Row) → Memᴰ r t.rows → has_id inserted_id r ≡ false
  pub rows : (r : Row) → Memᴰ r t.rows → has_guid guid r ≡ false
  pub params : (p : ParamRow) → Memᴰ p t.params → (guid == p.job_guid) ≡ false
  pub generics : (g : GenericRow) → Memᴰ g t.generics → (guid == g.job_guid) ≡ false

-- The database gives the rows of a result, in some order.
pub record IsArrangement (d : Arrangement) : Type 0 where
  pub same : (q : QueueRowSet) (rows : List QueueRowSet) → Memᴰ q (d.arrange rows) ↔ Memᴰ q rows

-- The job as it is read: new, and with the retry parameters that its row keeps.
unfoldable pub stored : SerializableOddJob → SerializableOddJob
stored job = record job {
  status = new;
  retry_parameters = some record {
    max_retries = max_retries_of job.retry_parameters;
    min_retry_wait = ticks (min_wait_of job.retry_parameters);
    retry_count = 0;
    last_attempt = none;
  };
}

IsJoin-arrange :
    (d : Arrangement) (r : Row) (ps : List ParamRow) (gs : List GenericRow)
    (rows : List QueueRowSet)
    → IsArrangement d
    → IsJoin r ps gs rows
    → IsJoin r ps gs (d.arrange rows)
IsJoin-arrange d r ps gs rows law j = record {
  sound = λ q m. j.sound q ((law.same q rows).0 m);
  complete = λ p g m n. (law.same _ rows).1 (j.complete p g m n);
}

-- Reading one job's rows.
read_all-IsJoin :
    (job : SerializableOddJob) (inserted_id now : ℕ) (group : List QueueRowSet)
    → IsStorable job
    → IsJoin
        (as_new (meta_data_for_job now inserted_id job))
        (param_data_for_job job)
        (generic_data_for_job job)
        group
    → read_all empty_object (group_by (λ (q : QueueRowSet). q.meta_data.job_guid) group)
      ≡ some (stored job ∷ [])
unfolding read_job stored throws_on meta_data_for_job
read_all-IsJoin job inserted_id now [] ok j =
    let (p, m) = some-unmatched (param_data_for_job job) in
    let (g, n) = some-unmatched (generic_data_for_job job) in
    absurd (Memᴰ.not-nil (j.complete p g m n))
read_all-IsJoin job inserted_id now (q ∷ qs) ok j =
    let guid : QueueRowSet → ℕ = λ q. q.meta_data.job_guid in
    let r = as_new (meta_data_for_job now inserted_id job) in
    let meta : (x : QueueRowSet) → Memᴰ x (q ∷ qs) → x.meta_data ≡ r = λ x m. (j.sound x m).0 in
    let here = meta q (Memᴰ.head refl) in
    let one =
      group_by-constant guid q qs
        (λ y m. ap (λ (v : Row). v.job_guid) (here ∙ sym (meta y (Memᴰ.tail m)))) in
    let none_throws = exists-none (throws_on empty_object) (q ∷ qs) (λ x m. refl) in
    let args = read_args-IsJoin job ok r (q ∷ qs) j in
    let generics = read_generics-IsJoin job ok r (q ∷ qs) j in
    let given : Row
        → List SerializedParameter
        → List (Option Text)
        → Option (List SerializableOddJob) =
      λ m a g. some (job_of m.job_guid m a g ∷ []) in
    let read : read_all empty_object (record { key = guid q; first = q; others = qs } ∷ [])
        ≡ given q.meta_data (read_args (q ∷ qs)) (read_generics (q ∷ qs)) =
      rw none_throws refl in
    ap (read_all empty_object) one
    ∙ read
    ∙ ap (λ m. given m (read_args (q ∷ qs)) (read_generics (q ∷ qs))) here
    ∙ ap (λ a. given r a (read_generics (q ∷ qs))) args
    ∙ ap (given r job.job_args) generics

-- The table of rows after a job with a fresh id is added.
pub rows-add_job :
    (now inserted_id : ℕ) (job : SerializableOddJob) (t : Tables)
    → IsFresh inserted_id job.job_id t
    → (add_job now inserted_id job t).rows
      ≡ t.rows ++ as_new (meta_data_for_job now inserted_id job) ∷ []
unfolding add_job release_job insert_job meta_data_for_job
rows-add_job now inserted_id job t fresh =
    update-appended (has_id inserted_id) as_new t.rows (meta_data_for_job now inserted_id job)
      fresh.ids (is_same inserted_id)

-- A job whose arguments have strictly ascending ordinals, and in which no argument's type and no
-- generic type has a null name, is added under a fresh guid and id. It is then read back alone by its
-- guid, whatever order the database gives the joined rows in, where the mapper gives an object for an
-- unmatched side: its method, type, arguments in their order, generic types, time and queue are the
-- ones given, its status is `New`, and its wait is cut to whole seconds.
pub add_job-read :
    (d : Arrangement) (now inserted_id : ℕ) (job : SerializableOddJob) (t : Tables)
    → IsArrangement d
    → d.unmatched ≡ empty_object
    → IsFresh inserted_id job.job_id t
    → IsStorable job
    → get_serializable_jobs_by_criteria d (has_guid job.job_id) (add_job now inserted_id job t)
      ≡ some (stored job ∷ [])
unfolding get_serializable_jobs_by_criteria serializable_join add_job release_job insert_job
    meta_data_for_job param_data_for_job generic_data_for_job
add_job-read d now inserted_id job t law mapper fresh ok =
    let r = as_new (meta_data_for_job now inserted_id job) in
    let t' = add_job now inserted_id job t in
    let row : filter_seq (has_guid job.job_id) t'.rows ≡ r ∷ [] =
      ap (filter_seq (has_guid job.job_id)) (rows-add_job now inserted_id job t fresh)
      ∙ filter_seq-appended (has_guid job.job_id) t.rows (r ∷ []) fresh.rows
          (λ y m. ap (has_guid job.job_id) (Memᴰ.eq_of_singleton m) ∙ is_same job.job_id) in
    let params =
      filter_seq-appended (λ (p : ParamRow). job.job_id == p.job_guid) t.params
        (param_data_for_job job) fresh.params
        (λ y m.
          let (q, n, e) = Memᴰ.of_map (param_row job.job_id) job.job_args m in
          ap (λ (p : ParamRow). job.job_id == p.job_guid) (sym e) ∙ is_same job.job_id) in
    let generics =
      filter_seq-appended (λ (g : GenericRow). job.job_id == g.job_guid) t.generics
        (generic_data_for_job job) fresh.generics
        (λ y m.
          let e = (generics_from-mem job.job_id 0 job.method_generic_types y m).1.0 in
          ap (λ n. job.job_id == n) e ∙ is_same job.job_id) in
    let j = IsJoin-arrange d r _ _ _ law (
      left_joins-IsJoin r t'.params (param_data_for_job job) t'.generics (generic_data_for_job job)
        params generics) in
    ap (λ rows. serializable_join d rows t') row
    ∙ ap
        (λ u. read_all u (
          group_by (λ (q : QueueRowSet). q.meta_data.job_guid)
            (d.arrange (left_joins (r ∷ []) t'.params t'.generics))))
        mapper
    ∙ read_all-IsJoin job inserted_id now _ ok j
