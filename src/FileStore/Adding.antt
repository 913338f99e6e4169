-- ===== src/FileStore/Adding.antt =====
-- OddJob.Storage.FileSystem/FileSystemJobQueueAdder.cs: a job is put at the end of the file's list.
use odd_job.Prelude.{
  Text, ℕ, Bool, true, false, Option, none, some, List, [], ◌∷◌, ◌++◌, if◌then◌else◌, ◌>>=◌,
}
use odd_job.JobData.{RetryParameters}
use odd_job.JobSerializer.{OddJob}
use odd_job.SqlStore.{new}
use odd_job.FileStore.{FileJob, Codec, Opening, Result, keep_trying, content_of}

abbrev pub is_blank : Text → Bool
is_blank [] = true
is_blank (_ ∷ _) = false

abbrev pub or_no_retries : Option RetryParameters → RetryParameters
or_no_retries (some p) = p
or_no_retries none = record {
  max_retries = 0;
  min_retry_wait = 0;
  retry_count = 0;
  last_attempt = none;
}

-- The execution time that a caller gives is not kept.
abbrev pub file_job : ℕ → ℕ → OddJob → Option RetryParameters → Option ℕ → ℕ → FileJob
file_job guid now job retry_parameters execution_time queue_name = record {
  job_id = guid;
  job_args = job.job_args;
  type_executed_on = job.type_executed_on;
  method_name = job.method_name;
  method_generic_types = job.method_generic_types;
  retry_parameters = some (or_no_retries retry_parameters);
  queue_name = queue_name;
  created_on = now;
  status = new;
  queue_time = 0;
  failure_time = 0;
  last_attempt_time = 0;
  execution_time = none;
}

module _ (codec : Codec) where
  -- `FileMode.OpenOrCreate`; an empty file is an empty list.
  unfoldable pub write_job_to_queue : FileJob → List Opening → Result Unit
  write_job_to_queue data_ openings =
      keep_trying
        (λ file.
          let content = content_of file in
          let read = codec.deserialize content in
          (if is_blank content then some [] else read) >>= λ jobs.
          some (tt, codec.serialize (jobs ++ data_ ∷ [])))
        openings

  unfoldable pub add_job :
      ℕ → ℕ → OddJob → Option RetryParameters → Option ℕ → ℕ → List Opening → Result Unit
  add_job guid now job retry_parameters execution_time queue_name openings =
      write_job_to_queue (file_job guid now job retry_parameters execution_time queue_name) openings
