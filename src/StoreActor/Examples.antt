-- ===== src/StoreActor/Examples.antt =====
-- Runs of the store's actor, and one life of a job.
use odd_job.Prelude.{true, false, none, some, []}
use odd_job.SqlStore
use odd_job.SqlStore.{Row, new, claim, as_in_progress, OrderBy}
use odd_job.Coordinator
use odd_job.Coordinator.{Coordinator, Env, Job, timed_out}
use odd_job.StoreActor.{StoreEnv}
use odd_job.StoreActor.Lifecycle.{fetch}

abbrev stored : Row
stored = record {
  id = 1;
  job_guid = 11;
  queue_name = 5;
  type_executed_on = [];
  method_name = 0;
  do_not_execute_before = none;
  status = new;
  max_retries = 2;
  min_retry_wait = 1;
  retry_count = 0;
  last_attempt = none;
  created_date = some 3;
  lock_guid = none;
  lock_claim_time = none;
}

abbrev store : StoreEnv
store = record {
  now = 70;
  guid = 9;
  timeout = 0;
  order_by = record { order = λ xs. xs };
  throws = false;
}

abbrev quiet : Env
quiet = record {
  now = 60;
  fetch = timed_out;
  spawns = true;
  flushes = true;
  throws = λ _. false;
  custom = λ _. false;
}

abbrev working : Coordinator
working = record Coordinator.new { configured = true; pending_items = 1; worker_count = 1 }

abbrev taken : Row
taken = claim 9 50 stored

abbrev again_taken : Row
again_taken = claim 12 80 taken

abbrev run : Row
run = as_in_progress 70 again_taken

-- The job as it was fetched.
abbrev fetched : Job
fetched = record {
  job_id = 11;
  type_executed_on = some 0;
  retry_parameters = some (record { max_retries = 2; retry_count = 0 });
}
