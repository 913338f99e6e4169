-- ===== src/JobReader.antt =====
-- The jobs that OddJob.Storage.SQL.Common/BaseSqlJobQueueManager.cs reads for its callers: the query
-- `ExecuteJoinQuery`, which resolves types and reads values, and the searches that use it.
-- It is `ExecuteSerializableJoinQuery` with each name of a type resolved and each value read, and is
-- so written here.
pub mod Readable
pub mod Created
mod Examples
use odd_job.Prelude.{
  Text, ℕ, Bool, true, false, Option, none, some, List, [], ◌∷◌, map, ◌==◌, ◌&&◌, ◌>>=◌,
  if◌then◌else◌, not,
}
use odd_job.Seq.Loops.{exists}
use odd_job.Seq.Slices.{filter_seq}
use odd_job.SqlStore.{Row, ParamRow, has_guid, update}
use odd_job.SqlStore
use odd_job.SqlQueue.{Tables}
use odd_job.SqlQueue.Reading.{Arrangement, serializable_join}
use odd_job.JobSerializer.{Runtime, OddJobWithMetadata, map_all, resolved_job}

-- The run time, the resolver, and what the database and its mapper do.
pub record Reader : Type 0 where
  pub runtime : Runtime
  pub resolve : Option Text → Option (Option ℕ)
  pub database : Arrangement

unfoldable pub execute_join_query : Reader → List Row → Tables → Option (List OddJobWithMetadata)
execute_join_query d rows t =
    serializable_join d.database rows t >>= λ jobs. map_all (resolved_job d.runtime d.resolve) jobs

unfoldable pub get_jobs_by_criteria :
    Reader → (Row → Bool) → Tables → Option (List OddJobWithMetadata)
get_jobs_by_criteria d criteria t = execute_join_query d (filter_seq criteria t.rows) t

-- `q.JobGuid.In(ParamTable(conn).Where(paramQueryable).Select(r => r.JobGuid))`
abbrev pub has_param : (ParamRow → Bool) → Tables → Row → Bool
has_param param_queryable t r =
    exists (λ p. p.job_guid == r.job_guid) (filter_seq param_queryable t.params)

unfoldable pub get_jobs_by_parameter_and_main_criteria :
    Reader → (Row → Bool) → (ParamRow → Bool) → Tables → Option (List OddJobWithMetadata)
get_jobs_by_parameter_and_main_criteria d job_queryable param_queryable t =
    execute_join_query d
      (filter_seq job_queryable (filter_seq (has_param param_queryable t) t.rows)) t

abbrev pub first_or_null : List OddJobWithMetadata → Option OddJobWithMetadata
first_or_null [] = none
first_or_null (j ∷ _) = some j

-- `GetJob`; the outer `none` is an exception.
unfoldable pub get_job : Reader → ℕ → Tables → Option (Option OddJobWithMetadata)
get_job d guid t =
    execute_join_query d (filter_seq (has_guid guid) t.rows) t >>= λ jobs. some (first_or_null jobs)

-- `Select(selector)`, of the rows that meet the criteria.
unfoldable pub get_job_criteria_by_criteria :
    {A : Type 0} → (Row → Bool) → (Row → A) → Tables → List A
get_job_criteria_by_criteria criteria selector t = map selector (filter_seq criteria t.rows)

abbrev pub is_parameter : ParamRow → ParamRow → Bool
is_parameter meta q = (q.job_guid == meta.job_guid) && (q.param_ordinal == meta.param_ordinal)

abbrev pub with_values : ParamRow → ParamRow → ParamRow
with_values meta q = record q {
  serialized_type = meta.serialized_type;
  serialized_value = meta.serialized_value;
}

-- The result is true whether or not a row was there.
unfoldable pub update_job_parameter_values : List ParamRow → Tables → Bool × Tables
update_job_parameter_values [] t = (true, t)
update_job_parameter_values (meta ∷ metas) t =
    update_job_parameter_values metas
      (record t { params = update (is_parameter meta) (with_values meta) t.params })
