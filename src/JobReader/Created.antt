-- ===== src/JobReader/Created.antt =====
-- A job from GlutenFree.OddJob.Serializable/SerializableJobCreator.cs by way of BaseSqlJobQueueAdder.cs to
-- the reader of BaseSqlJobQueueManager.cs.
use odd_job.Prelude.{ℕ, ◌≡◌, ◌≢◌, refl, sym, ap, subst, ◌∙◌, Option, some, [], ◌∷◌, ◌>>=◌}
use odd_job.JobData.{RetryParameters, SerializableOddJob}
use odd_job.SqlStore.{has_guid}
use odd_job.SqlQueue.{Tables, add_job}
use odd_job.SqlQueue.Reading.{Arrangement, empty_object, get_serializable_jobs_by_criteria}
use odd_job.SqlQueue.RoundTrip.{IsFresh, IsArrangement, stored, add_job-read}
use odd_job.JobSerializer.{
  Runtime, OddJob, map_all, get_core_assembly_name, unversioned_type_name, resolve_or_null,
  create_job_definition, resolved_job,
}
use odd_job.JobReader.{Reader, execute_join_query, get_jobs_by_criteria}
use odd_job.JobReader.Readable.{IsReadable, read_back, job-Defined}

abbrev pub default_reader : Runtime → Arrangement → Reader
default_reader rt database = record {
  runtime = rt;
  resolve = resolve_or_null rt;
  database = database;
}

-- A job whose types the run time finds by name and whose arguments the JSON library reads back can
-- be made ready, and once it is added under a fresh guid and id, whatever order the database gives
-- rows in, the reader gives it alone under its guid: its types and values are those it was made of,
-- and its wait is cut to whole seconds. The mapper gives an object for an unmatched side.
pub create_job_definition-read :
    (rt : Runtime) (database : Arrangement) (now inserted_id : ℕ) (job : OddJob)
    (retry_parameters : Option RetryParameters) (execution_time : Option ℕ) (queue_name : ℕ)
    (t : Tables)
    → get_core_assembly_name rt ≢ []
    → IsArrangement database
    → database.unmatched ≡ empty_object
    → IsReadable rt job
    → IsFresh inserted_id job.job_id t
    → (made : SerializableOddJob) × (create_job_definition rt
          (unversioned_type_name rt)
          job
          retry_parameters
          execution_time
          queue_name
        ≡ some made)
      × (get_jobs_by_criteria
            (default_reader rt database)
            (has_guid job.job_id)
            (add_job now inserted_id made t)
          ≡ some (read_back rt job retry_parameters execution_time queue_name ∷ []))
unfolding get_jobs_by_criteria execute_join_query get_serializable_jobs_by_criteria
create_job_definition-read rt database now inserted_id job retry_parameters execution_time
      queue_name t core law mapper ok fresh =
    let j = job-Defined rt core job retry_parameters execution_time queue_name ok in
    let found =
      add_job-read database now inserted_id j.made t law mapper
        (subst (λ g. IsFresh inserted_id g t) (sym j.same_guid) fresh) j.storable in
    let at_guid =
      ap
        (λ g.
          get_serializable_jobs_by_criteria database (has_guid g)
            (add_job now inserted_id j.made t))
        (sym j.same_guid)
      ∙ found in
    let parts : map_all (resolved_job rt (resolve_or_null rt)) (stored j.made ∷ [])
        ≡ some (read_back rt job retry_parameters execution_time queue_name ∷ []) =
      rw j.read refl in
    (
      j.made,
      j.created,
      ap (λ o. o >>= λ jobs. map_all (resolved_job rt (resolve_or_null rt)) jobs) at_guid ∙ parts,
    )
