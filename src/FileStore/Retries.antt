-- ===== src/FileStore/Retries.antt =====
-- `MarkJobInRetryAndIncrement` of OddJob.Storage.FileSystem/FileSystemJobQueueManager.cs.
use odd_job.Prelude.{
  ℕ, ◌+◌, ◌≤◌, ◌<◌, ◌≡◌, refl, sym, ap, ◌∙◌, inl, inr, Bool, true, Option, none, some, List, [],
  ◌∷◌, arith, ltb→lt, leb→le, ◌==◌, Bool-cases, if◌then◌else◌, Text,
}
use mathlib.Core.List.{Memᴰ}
use odd_job.JobData.{RetryParameters}
use odd_job.SqlStore.Conditions.{and_parts}
use odd_job.FileStore.{
  FileJob, Codec, opened, thrown, done, keep_trying, is_fetchable, may_retry, get_jobs, first_with,
  change_first, write_job_state, retried, mark_job_in_retry_and_increment,
}
use odd_job.FileStore.Openings.{reloaded, IsCodec}
use odd_job.FileStore.Changes.{AtMostOne, bind-some}
use odd_job.FileStore.Marks.{given_after}

change_first-thrown :
    (guid last : ℕ) (jobs : List FileJob) (q : FileJob)
    → first_with guid jobs ≡ some q
    → q.retry_parameters ≡ none
    → change_first guid (retried last) jobs ≡ none
unfolding change_first
change_first-thrown guid last [] q e n = absurd (ground arith)
change_first-thrown guid last (r ∷ jobs) q e n = elim (Bool-cases (r.job_id == guid)) [
  | inl t ↦
      let is_q : some r ≡ some q =
        ap (λ b. if b then some r else first_with guid jobs) (sym t) ∙ e in
      let none_there : r.retry_parameters ≡ none = ap (parameters_or r.retry_parameters) is_q ∙ n in
      rw (t, none_there) refl
  | inr f ↦
      let later : first_with guid jobs ≡ some q =
        ap (λ b. if b then some r else first_with guid jobs) (sym f) ∙ e in
      rw (f, change_first-thrown guid last jobs q later n) refl
]
  where
    parameters_or : Option RetryParameters → Option FileJob → Option RetryParameters
    parameters_or d none = d
    parameters_or d (some v) = v.retry_parameters

-- Marking a job for retry throws, and writes nothing, where the job has no retry parameters.
pub mark_job_in_retry_and_increment-thrown :
    (codec : Codec) (guid last : ℕ) (content : Text) (jobs : List FileJob) (q : FileJob)
    → codec.deserialize content ≡ some jobs
    → first_with guid jobs ≡ some q
    → q.retry_parameters ≡ none
    → mark_job_in_retry_and_increment codec guid last (opened (some content) ∷ []) ≡ thrown
unfolding mark_job_in_retry_and_increment write_job_state keep_trying
mark_job_in_retry_and_increment-thrown codec guid last content jobs q e found n =
    rw (e, change_first-thrown guid last jobs q found n) refl

-- The parameters of a job once it is marked for retry.
abbrev pub counted : ℕ → RetryParameters → RetryParameters
counted last p = record p { last_attempt = some last; retry_count = p.retry_count + 1 }

fetchable_retry :
    (read_value : ℕ → ℕ) (queue_names : List ℕ) (now last : ℕ) (y x : FileJob)
    → retried last y ≡ some x
    → is_fetchable queue_names now (reloaded read_value x) ≡ true
    → (p : RetryParameters) × (y.retry_parameters ≡ some p)
      × (p.retry_count + 1 ≤ p.max_retries)
      × (last + p.min_retry_wait < now)
      × (x.retry_parameters ≡ some (counted last p))
unfolding is_fetchable may_retry
fetchable_retry read_value queue_names now last y x e may =
    let (p, has, is_x) = bind-some y.retry_parameters _ x e in
    let at : FileJob → Bool = λ v. is_fetchable queue_names now (reloaded read_value v) in
    let (_, state) = and_parts _ _ (ap (λ o. at (or_else x o)) is_x ∙ may) in
    let (count, waited) = and_parts _ _ state in
    (
      p,
      has,
      leb→le (p.retry_count + 1) p.max_retries count,
      ltb→lt (last + p.min_retry_wait) now waited,
      ap (λ o. (or_else x o).retry_parameters) (sym is_x),
    )
  where
    or_else : FileJob → Option FileJob → FileJob
    or_else d none = d
    or_else d (some v) = v

-- Take a file with a guid once, and mark that guid's job for retry with the time of its last attempt. A
-- fetch from the file as it then is gives a job of the guid only where its count, which is one more,
-- is within its limit, and once its wait since that time is over; and the job that it gives has the
-- parameters of the one in the file, with that time and the count that is one more.
pub retried-waits_in_file :
    (codec : Codec) (guid last : ℕ) (content t t2 : Text) (jobs given : List FileJob)
    (queue_names : List ℕ) (fetch_size now : ℕ)
    → IsCodec codec
    → codec.deserialize content ≡ some jobs
    → AtMostOne guid jobs
    → mark_job_in_retry_and_increment codec guid last (opened (some content) ∷ []) ≡ done tt t
    → get_jobs codec queue_names fetch_size now (opened (some t) ∷ []) ≡ done given t2
    → (j : FileJob) → Memᴰ j given
    → j.job_id ≡ guid
    → (y : FileJob) × (p : RetryParameters) × Memᴰ y jobs
      × (y.job_id ≡ guid)
      × (y.retry_parameters ≡ some p)
      × (p.retry_count + 1 ≤ p.max_retries)
      × (last + p.min_retry_wait < now)
      × (j.retry_parameters ≡ some (counted last p))
unfolding mark_job_in_retry_and_increment
retried-waits_in_file codec guid last content t t2 jobs given queue_names fetch_size now law e one
      made fetched j m same =
    let (y, x, k, mine, e', is_j, may) =
      given_after codec guid (retried last) content t t2 jobs given queue_names fetch_size now law e
        one made fetched j m same in
    let (p, has, count, waited, is_x) =
      fetchable_retry codec.read_value queue_names now last y x e' may in
    (y, p, k, mine, has, count, waited, ap (λ (v : FileJob). v.retry_parameters) is_j ∙ is_x)
