-- ===== src/SqlQueue/Examples.antt =====
-- Runs of the adder, the purger and the reader on small tables.
use odd_job.Prelude.{
  ℕ, zero, suc, ◌+◌, ◌≡◌, ◌≢◌, refl, ap, inl, inr, true, none, some, [], ◌∷◌, ◌==◌, arith, is_some,
}
use mathlib.Core.List.{Memᴰ}
use mathlib.Core.List.Memᴰ
use odd_job.SortedList.{All}
use odd_job.Seq.Loops.{exists, exists_from}
use odd_job.Seq.Slices.{filter_seq}
use odd_job.JobData.{SerializedParameter, SerializableOddJob}
use odd_job.SqlStore.{
  Row, ParamRow, claim, new, processed, OrderBy, get_jobs, has_guid, is_fetchable, update,
  is_chosen, locking_check, is_due, may_run, is_unclaimed, lock_data,
}
use odd_job.SqlStore.Conditions.{IsOrderBy}
use odd_job.SqlStore.Tables.{UniqueIds}
use odd_job.SqlQueue.{Tables, add_job, insert_job, meta_data_for_job, purge_queue, is_purged}
use odd_job.SqlQueue.Reading.{
  Arrangement, empty_object, null_object, get_serializable_jobs_by_criteria, serializable_join,
  left_joins, read_job, throws_on,
}
use odd_job.Grouping.{group_by}
use odd_job.SqlQueue.RoundTrip.{IsArrangement, IsFresh, stored, add_job-read}
use odd_job.SqlQueue.Lists.{IsStorable}
use odd_job.SqlQueue.Purges.{purge_queue-read}
use odd_job.SqlQueue.Visibility.{insert_job-not_fetched, add_job-is_fetchable}

abbrev old_row : Row
old_row = record {
  id = 1;
  job_guid = 11;
  queue_name = 5;
  type_executed_on = [];
  method_name = 0;
  do_not_execute_before = none;
  status = processed;
  max_retries = 2;
  min_retry_wait = 1;
  retry_count = 0;
  last_attempt = none;
  created_date = some 3;
  lock_guid = none;
  lock_claim_time = none;
}

abbrev old_param : ParamRow
old_param = record {
  job_guid = 11;
  param_ordinal = 0;
  serialized_type = some [];
  serialized_value = 8;
  parameter_name = 9;
}

abbrev tables : Tables
tables = record { rows = old_row ∷ []; params = old_param ∷ []; generics = [] }

abbrev in_order : Arrangement
in_order = record { unmatched = empty_object; arrange = λ rows. rows }

in_order-IsArrangement : IsArrangement in_order
in_order-IsArrangement = record { same = λ q rows. ((λ m. m), (λ m. m)) }

abbrev argument : ℕ → ℕ → SerializedParameter
argument n v = record { ordinal = n; name = n + 40; value = v; type_name = some (65 ∷ []) }

abbrev job : SerializableOddJob
job = record {
  job_id = 20;
  job_args = argument 0 6 ∷ argument 1 7 ∷ [];
  type_executed_on = 66 ∷ [];
  method_name = 3;
  status = new;
  method_generic_types = some (67 ∷ []) ∷ [];
  retry_parameters = none;
  execution_time = some 50;
  queue_name = 5;
}

job-IsStorable : IsStorable job
job-IsStorable = record {
  ordered = (
    λ q m. elim (Memᴰ.cases_cons m) [
      | inl e ↦ let h = ap (λ (v : SerializedParameter). v.ordinal) e in ground (arith, h)
      | inr n ↦ absurd (Memᴰ.not-nil n)
    ],
    ((λ q m. absurd (Memᴰ.not-nil m)), tt),
  );
  typed = λ q m. elim (Memᴰ.cases_cons m) [
    | inl e ↦ ap (λ (v : SerializedParameter). is_some v.type_name) e
    | inr n ↦ ap (λ (v : SerializedParameter). is_some v.type_name) (Memᴰ.eq_of_singleton n)
  ];
  named = λ q m. ap is_some (Memᴰ.eq_of_singleton m);
}

job-IsFresh : IsFresh 2 20 tables
job-IsFresh = record {
  ids = λ r m. ap (λ (v : Row). v.id == 2) (Memᴰ.eq_of_singleton m);
  rows = λ r m. ap (has_guid 20) (Memᴰ.eq_of_singleton m);
  params = λ p m. ap (λ (v : ParamRow). 20 == v.job_guid) (Memᴰ.eq_of_singleton m);
  generics = λ g m. absurd (Memᴰ.not-nil m);
}

add_job-read_example :
    get_serializable_jobs_by_criteria in_order (has_guid 20) (add_job 30 2 job tables)
    ≡ some (stored job ∷ [])
add_job-read_example =
    add_job-read in_order 30 2 job tables in_order-IsArrangement refl job-IsFresh job-IsStorable

-- A mapper that gives null for an unmatched side makes the reader throw on a job without generic
-- types.
null_unmatched :
    get_serializable_jobs_by_criteria
      (record in_order { unmatched = null_object })
      (has_guid 11)
      tables
    ≡ none
unfolding get_serializable_jobs_by_criteria serializable_join left_joins read_job throws_on group_by
    filter_seq exists exists_from
null_unmatched = refl

old_row-purged :
    (r : Row) → Memᴰ r (old_row ∷ []) → has_guid 11 r ≡ true → is_purged 5 processed 4 r ≡ true
unfolding is_purged
old_row-purged r m _ = ap (is_purged 5 processed 4) (Memᴰ.eq_of_singleton m)

purge_queue-read_example :
    get_serializable_jobs_by_criteria in_order (has_guid 11) (purge_queue 5 processed 4 tables)
    ≡ some []
purge_queue-read_example =
    purge_queue-read 5 processed 4 in_order tables 11 true in_order-IsArrangement old_row-purged

abbrev table_order : OrderBy
table_order = record { order = λ xs. xs }

table_order-IsOrderBy : IsOrderBy table_order
table_order-IsOrderBy = record { keeps = λ P xs a. a }

abbrev waiting_row : Row
waiting_row = record old_row { status = new }

abbrev waiting : Tables
waiting = record tables { rows = waiting_row ∷ [] }

waiting-UniqueIds : UniqueIds (waiting_row ∷ [])
waiting-UniqueIds zero zero r s e f same = refl
waiting-UniqueIds zero (suc j) r s e f same = absurd (ground arith)
waiting-UniqueIds (suc i) j r s e f same = absurd (ground arith)

waiting-IsFresh : IsFresh 2 20 waiting
waiting-IsFresh = record {
  ids = λ r m. ap (λ (v : Row). v.id == 2) (Memᴰ.eq_of_singleton m);
  rows = λ r m. ap (has_guid 20) (Memᴰ.eq_of_singleton m);
  params = job-IsFresh.params;
  generics = job-IsFresh.generics;
}

-- The other job is fetched, the one being added is not.
insert_job-not_fetched_example : All (λ (j : Row). j.job_guid ≢ 20) (claim 7 60 waiting_row ∷ [])
unfolding get_jobs insert_job meta_data_for_job filter_seq locking_check is_fetchable is_due may_run
    is_unclaimed is_chosen update exists exists_from lock_data
insert_job-not_fetched_example =
    insert_job-not_fetched table_order 0 (5 ∷ []) 3 7 60 60 30 2 job waiting
      (claim 7 60 waiting_row ∷ []) (claim 7 60 waiting_row ∷ meta_data_for_job 30 2 job ∷ [])
      table_order-IsOrderBy waiting-UniqueIds waiting-IsFresh (refl, (refl, tt)) refl

add_job-is_fetchable_example :
    (r : Row) × Memᴰ r (add_job 30 2 job tables).rows
    × (r.job_guid ≡ 20)
    × (is_fetchable (5 ∷ []) 60 0 r ≡ true)
unfolding exists exists_from
add_job-is_fetchable_example = add_job-is_fetchable (5 ∷ []) 60 0 30 2 job tables job-IsFresh
