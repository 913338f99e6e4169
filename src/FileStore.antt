-- ===== src/FileStore.antt =====
-- OddJob.Storage.FileSystem: a queue in one JSON file, in FileSystemJobQueueManager.cs.
-- Opening the file may meet another process; the openings of a call are its argument, each with what
-- the file holds then. The JSON library is a parameter. The clock is read once a call.
pub mod Adding
pub mod Openings
pub mod Places
pub mod Fetches
pub mod Once
pub mod Changes
pub mod Marks
pub mod Retries
pub mod Additions
mod Coding
mod Samples
mod Examples
mod MarkExamples
use odd_job.Prelude.{
  Text, ℕ, ◌+◌, Bool, true, false, Option, none, some, List, [], ◌∷◌, ◌++◌, map, take, ltb, leb,
  ◌==◌, if◌then◌else◌, ◌&&◌, ◌||◌, ◌>>=◌, min,
}
use odd_job.Seq.Loops.{exists}
use odd_job.Seq.Slices.{filter_seq}
use odd_job.Grouping.{order_by}
use odd_job.JobData.{RetryParameters}
use odd_job.JobSerializer.{Parameter, OddJob}
use odd_job.SqlStore.{JobStates, new, retry, failed, processed, other, same_state, is_null_or}

-- `FileSystemJobMetaData`
pub record FileJob : Type 0 where
  pub job_id : ℕ
  pub job_args : List Parameter
  pub type_executed_on : ℕ
  pub method_name : ℕ
  pub method_generic_types : List ℕ
  pub retry_parameters : Option RetryParameters
  pub queue_name : ℕ
  pub created_on : ℕ
  pub status : JobStates
  pub queue_time : ℕ
  pub failure_time : ℕ
  pub last_attempt_time : ℕ
  pub execution_time : Option ℕ

-- The two texts that this store writes besides the names of `JobStates`.
abbrev pub queued : JobStates
queued = other 0

abbrev pub in_progress_text : JobStates
in_progress_text = other 1

-- `SerializeObject` and `DeserializeObject`, with the encoding; `none` is an exception, or the null
-- that an empty text gives and on which each caller throws.
-- A value of no fixed type may be read as another one.
pub record Codec : Type 0 where
  pub read_value : ℕ → ℕ
  pub serialize : List FileJob → Text
  pub deserialize : Text → Option (List FileJob)

-- What `File.Open` meets: a sharing violation, another error, or the file, which may be missing.
pub data Opening : Type 0 where
  busy : Opening
  failing : Opening
  opened : Option Text → Opening

-- What a call comes to: it still tries, it throws, or it gives a result and what the file then holds.
pub data Result (A : Type 0) : Type 0 where
  waiting : Result A
  thrown : Result A
  done : A → Text → Result A

module _ {A : Type 0} where
  abbrev pub finish : Option (A × Text) → Result A
  finish none = thrown
  finish (some (a, t)) = done a t

  -- `while (!written)`
  unfoldable pub keep_trying : (Option Text → Option (A × Text)) → List Opening → Result A
  keep_trying body [] = waiting
  keep_trying body (busy ∷ openings) = keep_trying body openings
  keep_trying body (failing ∷ openings) = thrown
  keep_trying body (opened file ∷ openings) = finish (body file)

-- `DateTime.MaxValue.Ticks`
abbrev pub max_ticks : ℕ
max_ticks = 3155378975999999999

abbrev pub has_waited : ℕ → RetryParameters → Bool
has_waited now p = is_null_or (λ t. ltb (t + p.min_retry_wait) now) p.last_attempt

unfoldable pub may_retry : ℕ → FileJob → Bool
may_retry now q =
    is_null_or (λ p. leb p.retry_count p.max_retries && has_waited now p) q.retry_parameters

unfoldable pub is_fetchable : List ℕ → ℕ → FileJob → Bool
is_fetchable queue_names now q =
    exists (λ n. n == q.queue_name) queue_names
    && ((same_state q.status new || same_state q.status retry)
        && (same_state q.status new || may_retry now q))

abbrev pub or_max : Option ℕ → ℕ
or_max none = max_ticks
or_max (some t) = t

abbrev pub last_attempt_of : Option RetryParameters → Option ℕ
last_attempt_of none = none
last_attempt_of (some p) = p.last_attempt

unfoldable pub fetch_order : FileJob → ℕ
fetch_order q = min q.created_on (or_max (last_attempt_of q.retry_parameters))

-- An item of the list is an object with a place in it: what is done to the object is seen in the list.
abbrev pub placed {ℓ} : {A : Type ℓ} → ℕ → List A → List (ℕ × A)
placed i [] = []
placed i (x ∷ xs) = (i, x) ∷ placed (i + 1) xs

abbrev pub as_queued : ℕ → FileJob → FileJob
as_queued now q = record q { status = queued; queue_time = now }

unfoldable pub chosen : List ℕ → ℕ → ℕ → List FileJob → List (ℕ × FileJob)
chosen queue_names fetch_size now jobs = take fetch_size (
    order_by (λ (p : ℕ × FileJob). fetch_order p.1)
      (filter_seq (λ (p : ℕ × FileJob). is_fetchable queue_names now p.1) (placed 0 jobs)))

abbrev pub is_at : ℕ → ℕ × FileJob → Bool
is_at i p = p.0 == i

abbrev pub queue_chosen : ℕ → List (ℕ × FileJob) → ℕ × FileJob → FileJob
queue_chosen now items p = if exists (is_at p.0) items then as_queued now p.1 else p.1

unfoldable pub fetch : List ℕ → ℕ → ℕ → List FileJob → List FileJob × List FileJob
fetch queue_names fetch_size now jobs =
    let items = chosen queue_names fetch_size now jobs in
    (map (λ p. as_queued now p.1) items, map (queue_chosen now items) (placed 0 jobs))

abbrev pub first_with : ℕ → List FileJob → Option FileJob
first_with guid [] = none
first_with guid (q ∷ jobs) =
    let rest = first_with guid jobs in if q.job_id == guid then some q else rest

abbrev pub content_of : Option Text → Text
content_of none = []
content_of (some content) = content

-- The first item of the guid is changed; the change may throw.
unfoldable pub change_first : ℕ → (FileJob → Option FileJob) → List FileJob → Option (List FileJob)
change_first guid transform [] = some []
change_first guid transform (q ∷ jobs) =
    let here = transform q >>= λ r. some (r ∷ jobs) in
    let later = change_first guid transform jobs >>= λ changed. some (q ∷ changed) in
    if q.job_id == guid then here else later

abbrev pub retried : ℕ → FileJob → Option FileJob
retried last_attempt q = q.retry_parameters >>= λ p. some (record q {
  status = retry;
  retry_parameters =
      some (record p { last_attempt = some last_attempt; retry_count = p.retry_count + 1 });
})

module _ (codec : Codec) where
  -- `FileMode.Open` throws where there is no file.
  abbrev pub read_file : Option Text → Option (List FileJob)
  read_file none = none
  read_file (some content) = codec.deserialize content

  unfoldable pub get_jobs : List ℕ → ℕ → ℕ → List Opening → Result (List FileJob)
  get_jobs queue_names fetch_size now openings =
      keep_trying
        (λ file. read_file file >>= λ jobs.
          let result = fetch queue_names fetch_size now jobs in
          some (result.0, codec.serialize result.1))
        openings

  unfoldable pub get_job : ℕ → List Opening → Result (Option FileJob)
  get_job guid openings =
      keep_trying (λ file. read_file file >>= λ jobs. some (first_with guid jobs, content_of file))
        openings

  unfoldable pub write_job_state : ℕ → (FileJob → Option FileJob) → List Opening → Result Unit
  write_job_state guid transform openings =
      keep_trying
        (λ file. read_file file >>= λ jobs.
          change_first guid transform jobs >>= λ changed. some (tt, codec.serialize changed))
        openings

  unfoldable pub mark_job_failed : ℕ → ℕ → List Opening → Result Unit
  mark_job_failed guid now openings =
      write_job_state guid (λ q. some (record q { status = failed; failure_time = now })) openings

  unfoldable pub mark_job_in_progress : ℕ → ℕ → List Opening → Result Unit
  mark_job_in_progress guid now openings =
      write_job_state guid
        (λ q. some (record q { status = in_progress_text; last_attempt_time = now })) openings

  -- A job without retry parameters is a null reference here.
  unfoldable pub mark_job_in_retry_and_increment : ℕ → ℕ → List Opening → Result Unit
  mark_job_in_retry_and_increment guid last_attempt openings =
      write_job_state guid (retried last_attempt) openings

  unfoldable pub mark_job_success : ℕ → ℕ → List Opening → Result Unit
  mark_job_success guid now openings =
      write_job_state guid (λ q. some (record q { status = processed; last_attempt_time = now }))
        openings
