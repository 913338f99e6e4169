-- ===== src/SqlQueue/Reading.antt =====
-- The join by which OddJob.Storage.SQL.Common/BaseSqlJobQueueManager.cs reads jobs with their parameters and
-- generic types: `ExecuteSerializableJoinQuery`, and a search that gives its result.
use odd_job.Prelude.{
  Text, ℕ, Bool, false, Option, none, some, List, [], ◌∷◌, ◌++◌, map, ◌==◌, if◌then◌else◌, not,
  ◌&&◌, ◌>>=◌, is_some,
}
use odd_job.Seq.Loops.{exists}
use odd_job.Seq.Slices.{filter_seq}
use odd_job.Grouping.{Grouping, order_by, group_by, firsts}
use odd_job.JobData.{RetryParameters, SerializedParameter, SerializableOddJob}
use odd_job.SqlStore.{Row, ParamRow, ticks}
use odd_job.SqlQueue.{GenericRow, Tables}

-- A row of the two left joins.
pub record QueueRowSet : Type 0 where
  pub meta_data : Row
  pub param_data : Option ParamRow
  pub generic_data : Option GenericRow

abbrev pub or_unmatched {ℓ} : {A : Type ℓ} → List A → List (Option A)
or_unmatched [] = none ∷ []
or_unmatched (x ∷ xs) = some x ∷ map some xs

abbrev pub with_generics : Row → List GenericRow → Option ParamRow → List QueueRowSet
with_generics r generics p =
    map (λ g. record { meta_data = r; param_data = p; generic_data = g })
      (or_unmatched (filter_seq (λ (g : GenericRow). r.job_guid == g.job_guid) generics))

abbrev pub with_all {ℓ} : {A : Type ℓ} → (A → List QueueRowSet) → List A → List QueueRowSet
with_all f [] = []
with_all f (x ∷ xs) = f x ++ with_all f xs

abbrev pub with_params : List ParamRow → List GenericRow → Row → List QueueRowSet
with_params params generics r =
    with_all (with_generics r generics)
      (or_unmatched (filter_seq (λ (p : ParamRow). r.job_guid == p.job_guid) params))

unfoldable pub left_joins : List Row → List ParamRow → List GenericRow → List QueueRowSet
left_joins rows params generics = with_all (with_params params generics) rows

-- What the mapper gives for the side of a left join that nothing matched, and how the database
-- arranges the rows of a result.
pub data Unmatched : Type 0 where
  null_object : Unmatched
  empty_object : Unmatched

pub record Arrangement : Type 0 where
  pub unmatched : Unmatched
  pub arrange : List QueueRowSet → List QueueRowSet

abbrev pub or_empty_param : Option ParamRow → ParamRow
or_empty_param (some p) = p
or_empty_param none = record {
  job_guid = 0;
  param_ordinal = 0;
  serialized_type = none;
  serialized_value = 0;
  parameter_name = 0;
}

abbrev pub or_empty_generic : Option GenericRow → GenericRow
or_empty_generic (some g) = g
or_empty_generic none = record { job_guid = 0; param_order = 0; param_type_name = none }

abbrev pub param_of : QueueRowSet → ParamRow
param_of q = or_empty_param q.param_data

abbrev pub generic_of : QueueRowSet → GenericRow
generic_of q = or_empty_generic q.generic_data

abbrev pub has_type : ParamRow → Bool
has_type p = is_some p.serialized_type

abbrev pub has_type_name : GenericRow → Bool
has_type_name g = is_some g.param_type_name

abbrev pub parameter_of : ParamRow → SerializedParameter
parameter_of p = record {
  ordinal = p.param_ordinal;
  name = p.parameter_name;
  value = p.serialized_value;
  type_name = p.serialized_type;
}

unfoldable pub read_args : List QueueRowSet → List SerializedParameter
read_args group =
    let ordered = order_by (λ q. (param_of q).param_ordinal) group in
    let typed = filter_seq has_type (map param_of ordered) in
    map parameter_of (firsts (group_by (λ (p : ParamRow). p.param_ordinal) typed))

unfoldable pub read_generics : List QueueRowSet → List (Option Text)
read_generics group =
    let ordered = order_by (λ q. (generic_of q).param_order) group in
    let named = map generic_of (filter_seq (λ q. has_type_name (generic_of q)) ordered) in
    map (λ (g : GenericRow). g.param_type_name)
      (firsts (group_by (λ (g : GenericRow). g.param_order) named))

abbrev pub read_retry : Row → RetryParameters
read_retry r = record {
  max_retries = r.max_retries;
  min_retry_wait = ticks r.min_retry_wait;
  retry_count = r.retry_count;
  last_attempt = r.last_attempt;
}

-- Ordering asks each row for its ordinal, also one that has no object to ask.
unfoldable pub throws_on : Unmatched → QueueRowSet → Bool
throws_on null_object q = not (is_some q.param_data && is_some q.generic_data)
throws_on empty_object q = false

abbrev pub job_of : ℕ → Row → List SerializedParameter → List (Option Text) → SerializableOddJob
job_of guid meta args generics = record {
  job_id = guid;
  job_args = args;
  type_executed_on = meta.type_executed_on;
  method_name = meta.method_name;
  status = meta.status;
  method_generic_types = generics;
  retry_parameters = some (read_retry meta);
  execution_time = meta.do_not_execute_before;
  queue_name = meta.queue_name;
}

unfoldable pub read_job : Unmatched → Grouping QueueRowSet → Option SerializableOddJob
read_job unmatched group =
    let items = group.first ∷ group.others in
    if exists (throws_on unmatched) items
    then none
    else some (job_of group.key group.first.meta_data (read_args items) (read_generics items))

abbrev pub read_all : Unmatched → List (Grouping QueueRowSet) → Option (List SerializableOddJob)
read_all unmatched [] = some []
read_all unmatched (g ∷ gs) =
    read_job unmatched g >>= λ job. read_all unmatched gs >>= λ jobs. some (job ∷ jobs)

-- `ExecuteSerializableJoinQuery`; `none` is an exception.
unfoldable pub serializable_join :
    Arrangement → List Row → Tables → Option (List SerializableOddJob)
serializable_join d rows t =
    let result_set = d.arrange (left_joins rows t.params t.generics) in
    read_all d.unmatched (group_by (λ (q : QueueRowSet). q.meta_data.job_guid) result_set)

unfoldable pub get_serializable_jobs_by_criteria :
    Arrangement → (Row → Bool) → Tables → Option (List SerializableOddJob)
get_serializable_jobs_by_criteria d criteria t = serializable_join d (filter_seq criteria t.rows) t
