-- ===== src/FileStore/MarkExamples.antt =====
-- Runs of the file's store on two jobs: marks and additions.
use odd_job.Prelude.{
  ℕ, ◌+◌, ◌≤◌, ◌<◌, ◌≡◌, ◌≢◌, refl, ap, ◌∙◌, Option, none, some, List, [], ◌∷◌, map, arith, ◌>>=◌,
}
use mathlib.Core.List.{Memᴰ}
use mathlib.Core.List.Memᴰ
use odd_job.Seq.Loops.{exists, exists_from}
use odd_job.Seq.Slices.{filter_seq}
use odd_job.Grouping.{order_by}
use odd_job.JobData.{RetryParameters}
use odd_job.JobSerializer.{OddJob}
use odd_job.SqlStore.{retry, processed}
use odd_job.FileStore.{
  FileJob, opened, done, finish, keep_trying, as_queued, fetch, chosen, is_fetchable, may_retry,
  fetch_order, get_jobs, change_first, write_job_state, mark_job_success,
  mark_job_in_retry_and_increment, retried,
}
use odd_job.FileStore.Openings.{reloaded}
use odd_job.FileStore.Fetches.{after, get_jobs-opened}
use odd_job.FileStore.Changes.{AtMostOne}
use odd_job.FileStore.Marks.{mark, success_at, mark-not_given}
use odd_job.FileStore.Retries.{counted, retried-waits_in_file}
use odd_job.FileStore.Coding.{plain, plain-IsCodec}
use odd_job.FileStore.Samples.{twice, job, jobs, content, content-read}

jobs-AtMostOne : (guid : ℕ) → AtMostOne guid jobs
jobs-AtMostOne guid = (
  λ e r m g.
      let same = ap (λ (q : FileJob). q.job_id) (Memᴰ.eq_of_singleton m) in absurd (omega arith),
  ((λ e r m. absurd (Memᴰ.not-nil m)), tt),
)

-- A change that is made is written.
written :
    (guid : ℕ) (f : FileJob → Option FileJob) (changed : List FileJob)
    → change_first guid f jobs ≡ some changed
    → write_job_state plain guid f (opened (some content) ∷ []) ≡ done tt (plain.serialize changed)
unfolding write_job_state keep_trying
written guid f changed e =
    ap
      (λ (read : Option (List FileJob)).
        finish (read >>= λ l. change_first guid f l >>= λ c. some (tt, plain.serialize c)))
      content-read
    ∙ ap (λ (o : Option (List FileJob)). finish (o >>= λ c. some (tt, plain.serialize c))) e

abbrev succeeded : List FileJob
succeeded =
    job 1 30 none
    ∷ record (job 2 20 (some twice)) { status = processed; last_attempt_time = 40 }
    ∷ []

success_marked :
    mark plain (success_at 40) 2 (opened (some content) ∷ []) ≡ done tt (plain.serialize succeeded)
unfolding mark mark_job_success change_first
success_marked = written 2 _ succeeded refl

fetch_of_succeeded :
    get_jobs plain (5 ∷ []) 3 60 (opened (some (plain.serialize succeeded)) ∷ [])
    ≡ done
        (as_queued 60 (job 1 30 none) ∷ [])
        (plain.serialize (after (5 ∷ []) 3 60 (map (reloaded plain.read_value) succeeded)))
unfolding fetch chosen is_fetchable may_retry fetch_order exists exists_from filter_seq order_by
fetch_of_succeeded =
    get_jobs-opened plain (5 ∷ []) 3 60 0 (plain.serialize succeeded) []
      (map (reloaded plain.read_value) succeeded) (plain-IsCodec.reads succeeded)

mark-not_given_example : (as_queued 60 (job 1 30 none)).job_id ≢ 2
mark-not_given_example =
    mark-not_given plain (success_at 40) 2 content (plain.serialize succeeded)
      (plain.serialize (after (5 ∷ []) 3 60 (map (reloaded plain.read_value) succeeded))) jobs
      (as_queued 60 (job 1 30 none) ∷ []) (5 ∷ []) 3 60 plain-IsCodec content-read
      (jobs-AtMostOne 2) success_marked fetch_of_succeeded (as_queued 60 (job 1 30 none))
      (Memᴰ.head refl)

abbrev once_tried : RetryParameters
once_tried = record twice { last_attempt = some 40; retry_count = 1 }

abbrev to_retry : FileJob
to_retry = record (job 2 20 (some once_tried)) { status = retry }

retry_marked :
    mark_job_in_retry_and_increment plain 2 40 (opened (some content) ∷ [])
    ≡ done tt (plain.serialize (job 1 30 none ∷ to_retry ∷ []))
unfolding mark_job_in_retry_and_increment change_first
retry_marked = written 2 (retried 40) (job 1 30 none ∷ to_retry ∷ []) refl

fetch_of_retry :
    get_jobs plain
      (5 ∷ [])
      1
      60
      (opened (some (plain.serialize (job 1 30 none ∷ to_retry ∷ []))) ∷ [])
    ≡ done
        (as_queued 60 to_retry ∷ [])
        (plain.serialize (after (5 ∷ []) 1 60 (job 1 30 none ∷ to_retry ∷ [])))
unfolding fetch chosen is_fetchable may_retry fetch_order exists exists_from filter_seq order_by
fetch_of_retry =
    get_jobs-opened plain (5 ∷ []) 1 60 0 (plain.serialize (job 1 30 none ∷ to_retry ∷ [])) []
      (job 1 30 none ∷ to_retry ∷ []) (plain-IsCodec.reads (job 1 30 none ∷ to_retry ∷ []))

retried-waits_in_file_example :
    (y : FileJob) × (p : RetryParameters) × Memᴰ y jobs
    × (y.job_id ≡ 2)
    × (y.retry_parameters ≡ some p)
    × (p.retry_count + 1 ≤ p.max_retries)
    × (40 + p.min_retry_wait < 60)
    × (some once_tried ≡ some (counted 40 p))
retried-waits_in_file_example =
    retried-waits_in_file plain 2 40 content (plain.serialize (job 1 30 none ∷ to_retry ∷ []))
      (plain.serialize (after (5 ∷ []) 1 60 (job 1 30 none ∷ to_retry ∷ []))) jobs
      (as_queued 60 to_retry ∷ []) (5 ∷ []) 1 60 plain-IsCodec content-read (jobs-AtMostOne 2)
      retry_marked fetch_of_retry (as_queued 60 to_retry) (Memᴰ.head refl) refl

abbrev added : OddJob
added = record {
  job_id = 0;
  job_args = record { name = 8; value = 9; type_name = none } ∷ [];
  type_executed_on = 3;
  method_name = 4;
  method_generic_types = 2 ∷ [];
}
