-- ===== src/SqlStore/Fetches.antt =====
-- What later fetches of BaseSqlJobQueueManager.cs give, after a fetch or a mark.
use odd_job.Prelude.{ℕ, ◌+◌, ◌-◌, ◌≤◌, ◌<◌, ◌≡◌, ◌≢◌, sym, ap, ◌∙◌, false, some, List, arith}
use odd_job.SortedList.{All, All-imp}
use odd_job.SqlStore.{Row, OrderBy, holds_lock, ticks, get_jobs, mark_job_in_retry_and_increment}
use odd_job.SqlStore.Conditions.{IsOrderBy}
use odd_job.SqlStore.Tables.{UniqueIds, InTable, same_row}
use odd_job.SqlStore.Locks.{Fetched, get_jobs-made}
use odd_job.SqlStore.Updates.{
  Mark, mark, mark-Settled, mark-UniqueIds, retry-UniqueIds, Settled-given, retried-waits_if,
}

Fetched-disjoint :
    (queue_names1 queue_names2 : List ℕ) (guid1 guid2 time1 time2 threshold1 threshold2 : ℕ)
    (rows jobs1 rows1 jobs2 rows2 : List Row)
    → UniqueIds rows1
    → Fetched queue_names1 guid1 time1 threshold1 rows jobs1 rows1
    → Fetched queue_names2 guid2 time2 threshold2 rows1 jobs2 rows2
    → threshold2 ≤ time1
    → All (λ j. All (λ k. j.id ≢ k.id) jobs2) jobs1
Fetched-disjoint queue_names1 queue_names2 guid1 guid2 time1 time2 threshold1 threshold2 rows jobs1
      rows1 jobs2 rows2 unique first second late =
    All-imp
      (λ j (r, _, _, claimed, there).
        All-imp
          (λ k (r2, there2, may, claimed2, _) same.
            let e : j ≡ r2 =
              same_row rows1 j r2 unique there there2 (same ∙ ap (λ x. x.id) claimed2) in
            let c : r2.lock_claim_time ≡ some time1 =
              ap (λ x. x.lock_claim_time) (sym e ∙ claimed) in
            let l : time1 < threshold2 = may.unclaimed time1 c in absurd (omega arith))
          jobs2 second.given)
      jobs1 first.given

-- Two fetches one after the other, with different fresh guids: where the second takes for dead only
-- claims from before the first, no job is in both results.
pub get_jobs-disjoint :
    (o : OrderBy) (timeout : ℕ) (queue_names1 queue_names2 : List ℕ)
    (size1 size2 guid1 guid2 time1 time2 now1 now2 : ℕ) (rows jobs1 rows1 jobs2 rows2 : List Row)
    → IsOrderBy o
    → UniqueIds rows
    → All (λ r. holds_lock guid1 r ≡ false) rows
    → All (λ r. holds_lock guid2 r ≡ false) rows1
    → get_jobs o timeout queue_names1 size1 guid1 time1 now1 rows ≡ some (jobs1, rows1)
    → get_jobs o timeout queue_names2 size2 guid2 time2 now2 rows1 ≡ some (jobs2, rows2)
    → now2 ≤ time1 + ticks timeout
    → All (λ j. All (λ k. j.id ≢ k.id) jobs2) jobs1
get_jobs-disjoint o timeout queue_names1 queue_names2 size1 size2 guid1 guid2 time1 time2 now1 now2
      rows jobs1 rows1 jobs2 rows2 law unique fresh1 fresh2 made1 made2 soon =
    let (first, unique1) =
      get_jobs-made o timeout queue_names1 size1 guid1 time1 now1 rows law unique fresh1 jobs1 rows1
        made1 in
    let (second, _) =
      get_jobs-made o timeout queue_names2 size2 guid2 time2 now2 rows1 law unique1 fresh2 jobs2
        rows2 made2 in
    Fetched-disjoint queue_names1 queue_names2 guid1 guid2 time1 time2 (now1 - ticks timeout)
      (now2 - ticks timeout) rows jobs1 rows1 jobs2 rows2 unique1 first second (omega arith)

-- Once a job is marked in progress, successful or failed, a fetch from that table does not give it,
-- also after the claim timeout and from any queue.
pub marked-not_fetched :
    (o : OrderBy) (timeout : ℕ) (queue_names : List ℕ) (size lock time now : ℕ) (m : Mark)
    (guid : ℕ) (rows jobs after : List Row)
    → IsOrderBy o
    → UniqueIds rows
    → All (λ r. holds_lock lock r ≡ false) (mark m guid rows)
    → get_jobs o timeout queue_names size lock time now (mark m guid rows) ≡ some (jobs, after)
    → All (λ j. j.job_guid ≢ guid) jobs
marked-not_fetched o timeout queue_names size lock time now m guid rows jobs after law unique fresh
      made =
    let (fetched, _) =
      get_jobs-made o timeout queue_names size lock time now (mark m guid rows) law
        (mark-UniqueIds m guid rows unique) fresh jobs after made in
    Settled-given guid queue_names lock time (now - ticks timeout) (mark m guid rows) jobs after
      (mark-Settled m guid rows) fetched

-- After a job is marked for retry at `then_now`, a fetch at `time` gives it only if its count, which
-- is one more, is within its limit, and once its wait since `then_now` has passed.
pub retried-waits :
    (o : OrderBy) (timeout : ℕ) (queue_names : List ℕ) (size lock time now : ℕ)
    (guid last then_now : ℕ) (rows jobs after : List Row)
    → IsOrderBy o
    → UniqueIds rows
    → All (λ r. holds_lock lock r ≡ false) (mark_job_in_retry_and_increment guid last then_now rows)
    → get_jobs o timeout queue_names size lock time now
        (mark_job_in_retry_and_increment guid last then_now rows)
      ≡ some (jobs, after)
    → All
        (λ j.
          j.job_guid ≡ guid
          → (r : Row) × InTable r rows
            × (r.job_guid ≡ guid)
            × (j.retry_count ≡ r.retry_count + 1)
            × (r.retry_count + 1 ≤ r.max_retries)
            × (then_now + ticks r.min_retry_wait ≤ time))
        jobs
retried-waits o timeout queue_names size lock time now guid last then_now rows jobs after law unique
      fresh made =
    let marked = mark_job_in_retry_and_increment guid last then_now rows in
    let (fetched, _) =
      get_jobs-made o timeout queue_names size lock time now marked law
        (retry-UniqueIds guid last then_now rows unique) fresh jobs after made in
    retried-waits_if guid last then_now queue_names lock time (now - ticks timeout) rows jobs after
      fetched
