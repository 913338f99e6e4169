-- ===== src/SqlStore/Updates.antt =====
-- What the marks and the guarded updates of BaseSqlJobQueueManager.cs do.
use odd_job.Prelude.{
  ℕ, ◌+◌, ◌≤◌, ◌≡◌, ◌≢◌, refl, sym, ap, ◌∙◌, inl, inr, some, List, arith, Bool-cases, get_elem?,
  ==_iff, subst,
}
use odd_job.SortedList.{All, All-imp}
use odd_job.SqlStore.{
  Row, new, retry, processed, failed, in_progress, update, has_guid, mark_job_success,
  mark_job_failed, mark_job_in_progress, mark_job_in_retry_and_increment, as_in_progress,
  as_processed, as_failed, as_retry, ticks,
}
use odd_job.SqlStore.Tables.{UniqueIds, UniqueIds-update, InTable, update-get_elem?, not_both}
use odd_job.SqlStore.Locks.{Fetched}

-- The rows of one guid, all of them.
abbrev pub AllOf : ℕ → (Row → Type 0) → List Row → Type 0
AllOf guid P rows = (i : ℕ) (r : Row) → get_elem? rows i ≡ some r → r.job_guid ≡ guid → P r

-- A row of the guid, after an update of the rows of that guid, comes from a row of the guid.
update-of_guid :
    (guid : ℕ) (f : Row → Row) (rows : List Row) (i : ℕ) (s : Row)
    → ((r : Row) → (f r).job_guid ≡ r.job_guid)
    → get_elem? (update (has_guid guid) f rows) i ≡ some s
    → s.job_guid ≡ guid
    → (r : Row) × InTable r rows × (r.job_guid ≡ guid) × (s ≡ f r)
update-of_guid guid f rows i s keeps e g =
    let (r, e', a) = update-get_elem? (has_guid guid) f rows i s e in
    elim (Bool-cases (has_guid guid r)) [
      | inl t ↦ (r, (i, e'), (==_iff r.job_guid guid).0 t, a ∙ rw t refl)
      | inr n ↦
          let same : s ≡ r = a ∙ rw n refl in
          absurd (
            not_both (has_guid guid r) n
              ((==_iff r.job_guid guid).1 (sym (ap (λ x. x.job_guid) same) ∙ g)))
    ]

-- A row of the guid, after an update of the rows of that guid, is an updated one.
AllOf-update :
    (guid : ℕ) (f : Row → Row) (P : Row → Type 0) (rows : List Row)
    → ((r : Row) → (f r).job_guid ≡ r.job_guid)
    → ((r : Row) → P (f r))
    → AllOf guid P (update (has_guid guid) f rows)
AllOf-update guid f P rows keeps h i s e g =
    let (r, _, _, same) = update-of_guid guid f rows i s keeps e g in subst P (sym same) (h r)

-- No row of the guid is in a state from which a fetch takes jobs.
abbrev pub Settled : ℕ → List Row → Type 0
Settled guid rows = AllOf guid (λ r. (r.status ≢ new) × (r.status ≢ retry)) rows

-- A job that is settled is in no fetch's result, whatever the times and claims.
pub Settled-given :
    (guid : ℕ) (queue_names : List ℕ) (lock time threshold : ℕ) (rows jobs after : List Row)
    → Settled guid rows
    → Fetched queue_names lock time threshold rows jobs after
    → All (λ j. j.job_guid ≢ guid) jobs
Settled-given guid queue_names lock time threshold rows jobs after settled f =
    All-imp
      (λ j (r, (i, e), may, claimed, _) same.
        let s = settled i r e (ap (λ x. x.job_guid) (sym claimed) ∙ same) in
        elim may.state [ inl n ↦ s.0 n | inr n ↦ s.1 n ])
      jobs f.given

in_progress≢new : in_progress ≢ new
in_progress≢new e = ground arith

in_progress≢retry : in_progress ≢ retry
in_progress≢retry e = ground arith

pub processed≢new : processed ≢ new
processed≢new e = ground arith

pub processed≢retry : processed ≢ retry
processed≢retry e = ground arith

pub failed≢new : failed ≢ new
failed≢new e = ground arith

pub failed≢retry : failed ≢ retry
failed≢retry e = ground arith

-- The marks that end a job's turn, or start it.
pub data Mark : Type 0 where
  in_progress_at : ℕ → Mark
  success : Mark
  failure : Mark

unfoldable pub mark : Mark → ℕ → List Row → List Row
mark (in_progress_at now) guid rows = mark_job_in_progress guid now rows
mark success guid rows = mark_job_success guid rows
mark failure guid rows = mark_job_failed guid rows

pub mark-Settled : (m : Mark) (guid : ℕ) (rows : List Row) → Settled guid (mark m guid rows)
unfolding mark mark_job_in_progress mark_job_success mark_job_failed
mark-Settled (in_progress_at now) guid rows =
    AllOf-update guid _ _ rows (λ r. refl) (λ r. (in_progress≢new, in_progress≢retry))
mark-Settled success guid rows =
    AllOf-update guid _ _ rows (λ r. refl) (λ r. (processed≢new, processed≢retry))
mark-Settled failure guid rows =
    AllOf-update guid _ _ rows (λ r. refl) (λ r. (failed≢new, failed≢retry))

pub mark-UniqueIds :
    (m : Mark) (guid : ℕ) (rows : List Row) → UniqueIds rows → UniqueIds (mark m guid rows)
unfolding mark mark_job_in_progress mark_job_success mark_job_failed
mark-UniqueIds (in_progress_at now) guid rows =
    UniqueIds-update (has_guid guid) (as_in_progress now) rows (λ r. refl)
mark-UniqueIds success guid rows = UniqueIds-update (has_guid guid) as_processed rows (λ r. refl)
mark-UniqueIds failure guid rows = UniqueIds-update (has_guid guid) as_failed rows (λ r. refl)

pub retry-UniqueIds :
    (guid last now : ℕ) (rows : List Row)
    → UniqueIds rows
    → UniqueIds (mark_job_in_retry_and_increment guid last now rows)
unfolding mark_job_in_retry_and_increment
retry-UniqueIds guid last now rows =
    UniqueIds-update (has_guid guid) (as_retry now) rows (λ r. refl)

some_value : (a b : ℕ) → some a ≡ some b → a ≡ b
some_value a b e = ground arith

-- A job that a fetch gives after its mark for retry has retries left, and has waited.
pub retried-waits_if :
    (guid last now : ℕ) (queue_names : List ℕ) (lock time threshold : ℕ)
    (rows jobs after : List Row)
    → Fetched queue_names lock time threshold
        (mark_job_in_retry_and_increment guid last now rows)
        jobs
        after
    → All
        (λ j.
          j.job_guid ≡ guid
          → (r : Row) × InTable r rows
            × (r.job_guid ≡ guid)
            × (j.retry_count ≡ r.retry_count + 1)
            × (r.retry_count + 1 ≤ r.max_retries)
            × (now + ticks r.min_retry_wait ≤ time))
        jobs
unfolding mark_job_in_retry_and_increment
retried-waits_if guid last now queue_names lock time threshold rows jobs after f =
    All-imp
      (λ j (r', (i, e), may, claimed, _) same.
        let g = ap (λ x. x.job_guid) (sym claimed) ∙ same in
        let (r, m, mine, made) = update-of_guid guid _ rows i r' (λ x. refl) e g in
        let state : r'.status ≡ retry = ap (λ x. x.status) made in
        let count : r'.retry_count ≡ r.retry_count + 1 = ap (λ x. x.retry_count) made in
        let limit : r'.max_retries ≡ r.max_retries = ap (λ x. x.max_retries) made in
        let wait : r'.min_retry_wait ≡ r.min_retry_wait = ap (λ x. x.min_retry_wait) made in
        let last : r'.last_attempt ≡ some now = ap (λ x. x.last_attempt) made in
        let (t, was, waited) = may.waited state in
        let same_time : t ≡ now = some_value t now (sym was ∙ last) in
        (
          r,
          m,
          mine,
          ap (λ x. x.retry_count) claimed ∙ count,
          omega (arith, may.retries state, count, limit),
          subst (λ n. n + ticks r.min_retry_wait ≤ time) same_time
              (subst (λ n. t + ticks n ≤ time) wait waited),
        ))
      jobs f.given
