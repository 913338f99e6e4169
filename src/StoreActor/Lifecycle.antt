-- ===== src/StoreActor/Lifecycle.antt =====
-- The life of one job's row among several workers: fetched, started, and marked as the coordinator
-- decides when a worker reports (OddJob.Execution.Akka/JobQueueCoordinator.cs and JobQueueLayerActor.cs,
-- OddJob.Storage.SQL.Common/BaseSqlJobQueueManager.cs).
use odd_job.Prelude.{none, some, ℕ, suc, ◌+◌, ◌≤◌, ◌≡◌, false, List, [], ◌∷◌}
use odd_job.SqlStore.{Row, claim, new, retry}
use odd_job.SqlStore.Conditions.{MayFetch}
use odd_job.Coordinator.{Job, mark_in_progress, job_succeeded, job_failed}
use odd_job.StoreActor.{StoreEnv, deliver}
use odd_job.StoreActor.Marks.{Handled}

-- The lives of a job. The numbers are how often it was started, how often it was fetched again because
-- a claim had lapsed, how many workers have it and have not started it, and how many run it. Each
-- fetch hands it to a worker; they start and report in any order, also after a later fetch. The mark of
-- a start and that of a report may be lost. A worker reports the job as it was when it was fetched, so
-- nothing but its guid is taken from the row.
pub data Life (queue_names : List ℕ) : ℕ → ℕ → ℕ → ℕ → Row → Type 0 where
  begin :
      (r : Row)
      → r.status ≡ new
      → r.retry_count ≡ 0
      → r.lock_claim_time ≡ none
      → Life queue_names 0 0 0 0 r
  fetch :
      (n l h w : ℕ) (r : Row) (guid time threshold : ℕ)
      → Life queue_names n l h w r
      → MayFetch queue_names time threshold r
      → r.lock_claim_time ≡ none
      → Life queue_names n l (suc h) w (claim guid time r)
  fetch_lapsed :
      (n l h w : ℕ) (r : Row) (guid time threshold claimed : ℕ)
      → Life queue_names n l h w r
      → MayFetch queue_names time threshold r
      → r.lock_claim_time ≡ some claimed
      → Life queue_names n (suc l) (suc h) w (claim guid time r)
  start :
      (n l h w : ℕ) (r r' : Row) (store : StoreEnv)
      → Life queue_names n l (suc h) w r
      → store.throws ≡ false
      → deliver store (mark_in_progress r.job_guid ∷ []) (r ∷ []) ≡ r' ∷ []
      → Life queue_names (suc n) l h (suc w) r'
  start_unmarked :
      (n l h w : ℕ) (r : Row)
      → Life queue_names n l (suc h) w r
      → Life queue_names (suc n) l h (suc w) r
  succeed :
      (n l h w : ℕ) (job : Job) (r r' : Row)
      → Life queue_names n l h (suc w) r
      → job.job_id ≡ r.job_guid
      → Handled (job_succeeded job) r r'
      → Life queue_names n l h w r'
  fail :
      (n l h w : ℕ) (job : Job) (r r' : Row)
      → Life queue_names n l h (suc w) r
      → job.job_id ≡ r.job_guid
      → Handled (job_failed job) r r'
      → Life queue_names n l h w r'
  report_unmarked :
      (n l h w : ℕ) (r : Row) → Life queue_names n l h (suc w) r → Life queue_names n l h w r

-- How often the row was fetched while no claim was on it, and what the row says of that.
record Counts (n l h : ℕ) (r : Row) : Type 0 where
  first : ℕ
  handed : n + h ≡ first + l
  limit : first ≤ r.max_retries + 1
  counted : first ≤ r.retry_count + 1
  fresh : r.lock_claim_time ≡ none → r.status ≡ new → first ≡ 0
  again : r.lock_claim_time ≡ none → r.status ≡ retry → first ≤ r.retry_count
