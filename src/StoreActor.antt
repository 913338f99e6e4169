-- ===== src/StoreActor.antt =====
-- OddJob.Execution.Akka/JobQueueLayerActor.cs over the store of BaseSqlJobQueueManager.cs, and the
-- life of one job between this actor and the coordinator of JobQueueCoordinator.cs.
pub mod Marks
pub mod Lifecycle
pub mod Limits
mod Examples
use odd_job.Prelude.{ℕ, Bool, true, false, Option, none, some, List, [], ◌∷◌, if◌then◌else◌}
use odd_job.SqlStore
use odd_job.SqlStore.{Row, OrderBy}
use odd_job.Coordinator.{
  Effect, ask_get_jobs, ask_store_shut_down, mark_in_progress, mark_success, mark_failed,
  mark_retry_and_increment,
}

pub data Request : Type 0 where
  shut_down_queues : Request
  get_jobs : ℕ → ℕ → Request
  mark_job_in_progress : ℕ → Request
  mark_job_failed : ℕ → Request
  mark_job_success : ℕ → Request
  mark_job_in_retry_and_increment : ℕ → ℕ → Request
  other : Request

pub data Answer : Type 0 where
  queue_shut_down : Answer
  jobs : List Row → Answer

-- What a request meets: the clock, a fresh guid, the claim timeout and the database, which may throw
-- before it changes anything.
pub record StoreEnv : Type 0 where
  pub now : ℕ
  pub guid : ℕ
  pub timeout : ℕ
  pub order_by : OrderBy
  pub throws : Bool

-- What a call of the store leaves: an answer and the table. An exception is logged by
-- `OnQueueFailure`, and the sender gets no answer.
pub record Outcome : Type 0 where
  pub handled : Bool
  pub answer : Option Answer
  pub table : List Row

abbrev quiet : List Row → Outcome
quiet rows = record { handled = true; answer = none; table = rows }

abbrev changed : StoreEnv → List Row → List Row → Outcome
changed env rows rows' = quiet (if env.throws then rows else rows')

abbrev fetched : List Row → Option (List Row × List Row) → Outcome
fetched rows none = quiet rows
fetched rows (some (given, rows')) = record {
  handled = true;
  answer = some (jobs given);
  table = rows';
}

-- `Receive`
unfoldable pub receive : StoreEnv → Request → List Row → Outcome
receive env shut_down_queues rows = record {
  handled = true;
  answer = some queue_shut_down;
  table = rows;
}
receive env (get_jobs queue_name fetch_size) rows =
    let r =
      SqlStore.get_jobs env.order_by env.timeout (queue_name ∷ []) fetch_size env.guid env.now
        env.now rows in
    if env.throws then quiet rows else fetched rows r
receive env (mark_job_in_progress id) rows =
    changed env rows (SqlStore.mark_job_in_progress id env.now rows)
receive env (mark_job_failed id) rows = changed env rows (SqlStore.mark_job_failed id rows)
receive env (mark_job_success id) rows = changed env rows (SqlStore.mark_job_success id rows)
receive env (mark_job_in_retry_and_increment id last) rows =
    changed env rows (SqlStore.mark_job_in_retry_and_increment id last env.now rows)
receive env other rows = record { handled = false; answer = none; table = rows }

-- The request that a call of the coordinator sends, if it sends one.
abbrev pub request_of : Effect → Option Request
request_of (ask_get_jobs queue_name fetch_size) = some (get_jobs queue_name fetch_size)
request_of ask_store_shut_down = some shut_down_queues
request_of (mark_in_progress id) = some (mark_job_in_progress id)
request_of (mark_success id) = some (mark_job_success id)
request_of (mark_failed id) = some (mark_job_failed id)
request_of (mark_retry_and_increment id last) = some (mark_job_in_retry_and_increment id last)
request_of _ = none

-- The table after the requests among some effects, in their order.
unfoldable pub deliver : StoreEnv → List Effect → List Row → List Row
deliver env [] rows = rows
deliver env (e ∷ effects) rows =
    deliver env effects (elim (request_of e) [ none ↦ rows | some q ↦ (receive env q rows).table ])
