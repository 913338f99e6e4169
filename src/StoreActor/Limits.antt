-- ===== src/StoreActor/Limits.antt =====
-- The limit on a job's retries, as the coordinator (OddJob.Execution.Akka/JobQueueCoordinator.cs) and the
-- store (OddJob.Storage.SQL.Common/BaseSqlJobQueueManager.cs) read it.
use odd_job.SqlStore.{Row}
use odd_job.Coordinator.{RetryParameters}

-- The retry parameters that a row gives its job.
abbrev pub parameters_of : Row → RetryParameters
parameters_of r = record { max_retries = r.max_retries; retry_count = r.retry_count }
