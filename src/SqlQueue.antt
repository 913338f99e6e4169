-- ===== src/SqlQueue.antt =====
-- The three tables of a queue together: OddJob.Storage.SQL.Common's BaseSqlJobQueueAdder.cs and
-- BaseSqlJobQueuePurger.cs, and the join by which BaseSqlJobQueueManager.cs reads jobs back.
-- The clock and the identity that the database gives a new row are arguments. The rows of a query
-- come in whatever order the database arranges them.
pub mod Reading
pub mod Filters
pub mod Joins
pub mod Lists
pub mod RoundTrip
pub mod Purges
pub mod Orphans
pub mod Visibility
mod Examples
use odd_job.Prelude.{
  Text, ℕ, ◌+◌, ◌*◌, ◌/◌, ◌^◌, Bool, true, false, Option, none, some, List, [], ◌∷◌, ◌++◌, map, ltb,
  ◌==◌, if◌then◌else◌, not, ◌&&◌, ◌||◌, ◌>>=◌, is_some,
}
use odd_job.Seq.Loops.{exists}
use odd_job.Seq.Slices.{filter_seq}
use odd_job.Grouping.{Grouping, order_by, group_by, firsts}
use odd_job.JobData.{RetryParameters, SerializedParameter, SerializableOddJob}
use odd_job.SqlStore.{
  JobStates, inserting, new, same_state, Row, ParamRow, update, has, has_guid, ticks,
}

-- `SqlDbOddJobMethodGenericInfo`
pub record GenericRow : Type 0 where
  pub job_guid : ℕ
  pub param_order : ℕ
  pub param_type_name : Option Text

pub record Tables : Type 0 where
  pub rows : List Row
  pub params : List ParamRow
  pub generics : List GenericRow

-- A span of ticks in whole seconds.
abbrev pub total_seconds : ℕ → ℕ
total_seconds span = span / 10 ^ 7

abbrev pub max_retries_of : Option RetryParameters → ℕ
max_retries_of none = 0
max_retries_of (some r) = r.max_retries

abbrev pub min_wait_of : Option RetryParameters → ℕ
min_wait_of none = 0
min_wait_of (some r) = total_seconds r.min_retry_wait

-- The row of a new job, and its id.
unfoldable pub meta_data_for_job : ℕ → ℕ → SerializableOddJob → Row
meta_data_for_job now inserted_id job = record {
  id = inserted_id;
  job_guid = job.job_id;
  queue_name = job.queue_name;
  type_executed_on = job.type_executed_on;
  method_name = job.method_name;
  do_not_execute_before = job.execution_time;
  status = inserting;
  max_retries = max_retries_of job.retry_parameters;
  min_retry_wait = min_wait_of job.retry_parameters;
  retry_count = 0;
  last_attempt = none;
  created_date = some now;
  lock_guid = none;
  lock_claim_time = none;
}

abbrev pub param_row : ℕ → SerializedParameter → ParamRow
param_row guid q = record {
  job_guid = guid;
  param_ordinal = q.ordinal;
  serialized_type = q.type_name;
  serialized_value = q.value;
  parameter_name = q.name;
}

unfoldable pub param_data_for_job : SerializableOddJob → List ParamRow
param_data_for_job job = map (param_row job.job_id) job.job_args

abbrev pub generics_from : ℕ → ℕ → List (Option Text) → List GenericRow
generics_from guid i [] = []
generics_from guid i (q ∷ qs) =
    record { job_guid = guid; param_order = i; param_type_name = q } ∷ generics_from guid (i + 1) qs

unfoldable pub generic_data_for_job : SerializableOddJob → List GenericRow
generic_data_for_job job = generics_from job.job_id 0 job.method_generic_types

-- `_addJobImpl` up to its last command: the row, the copies of the parameters and the types. A copy
-- of none is not sent.
unfoldable pub insert_job : ℕ → ℕ → SerializableOddJob → Tables → Tables
insert_job now inserted_id job t = record {
  rows = t.rows ++ meta_data_for_job now inserted_id job ∷ [];
  params = t.params ++ param_data_for_job job;
  generics = t.generics ++ generic_data_for_job job;
}

abbrev pub has_id : ℕ → Row → Bool
has_id inserted_id r = r.id == inserted_id

abbrev pub as_new : Row → Row
as_new r = record r { status = new }

-- Its last command.
unfoldable pub release_job : ℕ → Tables → Tables
release_job inserted_id t = record t { rows = update (has_id inserted_id) as_new t.rows }

unfoldable pub add_job : ℕ → ℕ → SerializableOddJob → Tables → Tables
add_job now inserted_id job t = release_job inserted_id (insert_job now inserted_id job t)

-- Each job with the time and the id that its insert meets.
unfoldable pub add_jobs : List (ℕ × (ℕ × SerializableOddJob)) → Tables → Tables
add_jobs [] t = t
add_jobs ((now, (inserted_id, job)) ∷ rest) t = add_jobs rest (add_job now inserted_id job t)

-- The condition of the three deletions.
unfoldable pub is_purged : ℕ → JobStates → ℕ → Row → Bool
is_purged name state_to_purge older_than r =
    same_state r.status state_to_purge
    && (has (λ c. ltb c older_than) r.created_date && (r.queue_name == name))

abbrev pub purged_guid : ℕ → JobStates → ℕ → List Row → ℕ → Bool
purged_guid name state_to_purge older_than rows guid =
    exists (λ r. is_purged name state_to_purge older_than r && has_guid guid r) rows

unfoldable pub purge_queue : ℕ → JobStates → ℕ → Tables → Tables
purge_queue name state_to_purge older_than t =
    let gone = purged_guid name state_to_purge older_than t.rows in
    record {
      rows = filter_seq (λ r. not (is_purged name state_to_purge older_than r)) t.rows;
      params = filter_seq (λ (p : ParamRow). not (gone p.job_guid)) t.params;
      generics = filter_seq (λ (g : GenericRow). not (gone g.job_guid)) t.generics;
    }
