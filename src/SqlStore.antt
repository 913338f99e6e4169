-- ===== src/SqlStore.antt =====
-- OddJob.Storage.SQL.Common/BaseSqlJobQueueManager.cs: the queue's table and the operations on it.
-- A table is the list of its rows. `Where(p).Set(f).Update()` is one update of the rows that pass; a
-- comparison with a null is false, as in SQL. A `DateTime` is its number of ticks, 10 ^ 7 a second.
-- The clock and the fresh guid of a call are its arguments.
pub mod Commands
pub mod Tables
pub mod Conditions
pub mod Locks
pub mod Updates
pub mod Guards
pub mod Fetches
pub mod Sizes
mod Examples
use odd_job.Prelude.{
  Text, ℕ, ◌+◌, ◌-◌, ◌*◌, ◌^◌, Bool, true, false, Option, none, some, List, [], ◌∷◌, map, take,
  length, ltb, leb, ◌==◌, if◌then◌else◌, not, ◌&&◌, ◌||◌, ◌>>=◌,
}
use odd_job.Seq.Loops.{exists}
use odd_job.Seq.Slices.{filter_seq}

-- `JobStates`, and any other text in the column.
pub data JobStates : Type 0 where
  processed : JobStates
  new : JobStates
  failed : JobStates
  retry : JobStates
  in_progress : JobStates
  inserting : JobStates
  other : ℕ → JobStates

abbrev pub same_state : JobStates → JobStates → Bool
same_state processed processed = true
same_state new new = true
same_state failed failed = true
same_state retry retry = true
same_state in_progress in_progress = true
same_state inserting inserting = true
same_state (other a) (other b) = a == b
same_state _ _ = false

-- `SqlCommonDbOddJobMetaData`; a text is a number that stands for it.
pub record Row : Type 0 where
  pub id : ℕ
  pub job_guid : ℕ
  pub queue_name : ℕ
  pub type_executed_on : Text
  pub method_name : ℕ
  pub do_not_execute_before : Option ℕ
  pub status : JobStates
  pub max_retries : ℕ
  pub min_retry_wait : ℕ
  pub retry_count : ℕ
  pub last_attempt : Option ℕ
  pub created_date : Option ℕ
  pub lock_guid : Option ℕ
  pub lock_claim_time : Option ℕ

-- `SqlCommonOddJobParamMetaData`
pub record ParamRow : Type 0 where
  pub job_guid : ℕ
  pub param_ordinal : ℕ
  pub serialized_type : Option Text
  pub serialized_value : ℕ
  pub parameter_name : ℕ

-- `JobLockData`, what the order of a fetch may look at.
pub record JobLockData : Type 0 where
  pub job_id : ℕ
  pub most_recent_date : Option ℕ
  pub created_date : Option ℕ
  pub last_attempt : Option ℕ
  pub retries : ℕ
  pub do_not_execute_before : Option ℕ
  pub status : JobStates

unfoldable pub update {ℓ} : {A : Type ℓ} → (A → Bool) → (A → A) → List A → List A
update p f rows = map (λ r. if p r then f r else r) rows

abbrev pub is_null_or {ℓ} : {A : Type ℓ} → (A → Bool) → Option A → Bool
is_null_or p none = true
is_null_or p (some x) = p x

abbrev pub has {ℓ} : {A : Type ℓ} → (A → Bool) → Option A → Bool
has p none = false
has p (some x) = p x

abbrev pub has_guid : ℕ → Row → Bool
has_guid guid r = r.job_guid == guid

-- The `Set`s of the four marks.
abbrev pub as_processed : Row → Row
as_processed r = record r { status = processed; lock_claim_time = none }

abbrev pub as_failed : Row → Row
as_failed r = record r { status = failed; lock_claim_time = none }

abbrev pub as_in_progress : ℕ → Row → Row
as_in_progress now r = record r {
  status = in_progress;
  lock_claim_time = none;
  last_attempt = some now;
}

abbrev pub as_retry : ℕ → Row → Row
as_retry now r = record r {
  retry_count = r.retry_count + 1;
  status = retry;
  last_attempt = some now;
  lock_claim_time = none;
}

unfoldable pub mark_job_success : ℕ → List Row → List Row
mark_job_success guid rows = update (has_guid guid) as_processed rows

unfoldable pub mark_job_failed : ℕ → List Row → List Row
mark_job_failed guid rows = update (has_guid guid) as_failed rows

unfoldable pub mark_job_in_progress : ℕ → ℕ → List Row → List Row
mark_job_in_progress guid now rows = update (has_guid guid) (as_in_progress now) rows

-- The time that the caller gives is not used.
unfoldable pub mark_job_in_retry_and_increment : ℕ → ℕ → ℕ → List Row → List Row
mark_job_in_retry_and_increment guid last_attempt now rows =
    update (has_guid guid) (as_retry now) rows

abbrev pub ticks : ℕ → ℕ
ticks seconds = seconds * 10 ^ 7

-- The `Where` of `lockingCheckQuery`.
unfoldable pub is_due : ℕ → Row → Bool
is_due lock_time r = is_null_or (λ d. leb d lock_time) r.do_not_execute_before

unfoldable pub may_run : ℕ → Row → Bool
may_run lock_time r =
    same_state r.status new
    || (same_state r.status retry
        && (leb r.retry_count r.max_retries
            && has (λ t. leb (t + ticks r.min_retry_wait) lock_time) r.last_attempt))

unfoldable pub is_unclaimed : ℕ → Row → Bool
is_unclaimed threshold r = is_null_or (λ t. ltb t threshold) r.lock_claim_time

unfoldable pub is_fetchable : List ℕ → ℕ → ℕ → Row → Bool
is_fetchable queue_names lock_time threshold r =
    exists (λ n. n == r.queue_name) queue_names
    && (is_due lock_time r && (may_run lock_time r && is_unclaimed threshold r))

abbrev pub or_min_value : Option ℕ → ℕ
or_min_value none = 0
or_min_value (some t) = t

unfoldable pub lock_data : Row → JobLockData
lock_data r = record {
  job_id = r.id;
  most_recent_date =
      if ltb (or_min_value r.last_attempt) (or_min_value r.created_date)
      then r.created_date
      else r.last_attempt;
  created_date = r.created_date;
  last_attempt = r.last_attempt;
  retries = r.retry_count;
  do_not_execute_before = r.do_not_execute_before;
  status = r.status;
}

-- `OrderBy(orderPredicate)` in the database.
pub record OrderBy : Type 0 where
  pub order : List JobLockData → List JobLockData

abbrev pub claim : ℕ → ℕ → Row → Row
claim guid time r = record r { lock_guid = some guid; lock_claim_time = some time }

abbrev pub holds_lock : ℕ → Row → Bool
holds_lock guid r = has (λ g. g == guid) r.lock_guid

-- `lockingCheckQuery`
unfoldable pub locking_check : OrderBy → List ℕ → ℕ → ℕ → ℕ → List Row → List JobLockData
locking_check order_by queue_names fetch_size lock_time threshold rows =
    let candidates = filter_seq (is_fetchable queue_names lock_time threshold) rows in
    take fetch_size (order_by.order (map lock_data candidates))

-- `lockingCheckQuery.Any(r => r.JobId == q.Id)`
unfoldable pub is_chosen : List JobLockData → Row → Bool
is_chosen chosen r = exists (λ (d : JobLockData). d.job_id == r.id) chosen

-- The call reads the clock twice, and throws where the claim timeout is longer than all time before
-- the second reading.
unfoldable pub get_jobs :
    OrderBy → ℕ → List ℕ → ℕ → ℕ → ℕ → ℕ → List Row → Option (List Row × List Row)
get_jobs order_by timeout queue_names fetch_size guid lock_time now rows =
    let threshold = now - ticks timeout in
    let chosen = locking_check order_by queue_names fetch_size lock_time threshold rows in
    let claimed = update (is_chosen chosen) (claim guid lock_time) rows in
    if ltb now (ticks timeout) then none else some (filter_seq (holds_lock guid) claimed, claimed)

unfoldable pub get_job : ℕ → List Row → Option Row
get_job guid rows = elim (filter_seq (has_guid guid) rows) [ [] ↦ none | (r ∷ _) ↦ some r ]
