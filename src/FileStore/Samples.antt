-- ===== src/FileStore/Samples.antt =====
-- A file with two jobs.
use odd_job.Prelude.{ℕ, ◌≡◌, Option, none, some, List, [], ◌∷◌, Text}
use odd_job.JobData.{RetryParameters}
use odd_job.SqlStore.{new}
use odd_job.FileStore.{FileJob}
use odd_job.FileStore.Coding.{plain, plain-IsCodec}

abbrev pub twice : RetryParameters
twice = record { max_retries = 2; min_retry_wait = 5; retry_count = 0; last_attempt = none }

abbrev pub job : ℕ → ℕ → Option RetryParameters → FileJob
job guid created retry_parameters = record {
  job_id = guid;
  job_args = [];
  type_executed_on = 0;
  method_name = 0;
  method_generic_types = [];
  retry_parameters = retry_parameters;
  queue_name = 5;
  created_on = created;
  status = new;
  queue_time = 0;
  failure_time = 0;
  last_attempt_time = 0;
  execution_time = none;
}

abbrev pub jobs : List FileJob
jobs = job 1 30 none ∷ job 2 20 (some twice) ∷ []

unfoldable pub content : Text
content = plain.serialize jobs

pub content-read : plain.deserialize content ≡ some jobs
unfolding content
content-read = plain-IsCodec.reads jobs
