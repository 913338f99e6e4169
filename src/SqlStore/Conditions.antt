-- ===== src/SqlStore/Conditions.antt =====
-- When BaseSqlJobQueueManager.cs may fetch a job, and what the parts of its query keep.
use odd_job.Prelude.{
  ℕ, ◌+◌, ◌≤◌, ◌<◌, ◌≡◌, ◌≢◌, refl, sym, ◌∙◌, ◌⊎◌, inl, inr, Bool, true, false, Option, none, some,
  List, arith, ltb, leb, leb→le, ltb→lt, ◌==◌, ◌&&◌,
}
use odd_job.SortedList.{All}
use odd_job.SqlStore.Tables.{or_parts}
use odd_job.Seq.Loops.{exists}
use odd_job.SqlStore.{
  Row, JobStates, new, retry, processed, failed, in_progress, inserting, other, same_state,
  JobLockData, OrderBy, has, is_null_or, is_due, may_run, is_unclaimed, is_fetchable, ticks,
}

-- What the database's order keeps: the items.
pub record IsOrderBy (o : OrderBy) : Type 1 where
  pub keeps : (P : JobLockData → Type 0) (xs : List JobLockData) → All P xs → All P (o.order xs)

-- When a fetch at `time` that takes claims before `threshold` for dead may take a row.
pub record MayFetch (queue_names : List ℕ) (time threshold : ℕ) (r : Row) : Type 0 where
  pub queued : exists (λ n. n == r.queue_name) queue_names ≡ true
  pub due : (t : ℕ) → r.do_not_execute_before ≡ some t → t ≤ time
  pub state : (r.status ≡ new) ⊎ (r.status ≡ retry)
  pub retries : r.status ≡ retry → r.retry_count ≤ r.max_retries
  pub waited :
      r.status ≡ retry → (t : ℕ) × (r.last_attempt ≡ some t) × (t + ticks r.min_retry_wait ≤ time)
  pub unclaimed : (t : ℕ) → r.lock_claim_time ≡ some t → t < threshold

pub and_parts : (a b : Bool) → (a && b) ≡ true → (a ≡ true) × (b ≡ true)
and_parts true b h = (refl, h)
and_parts false b h = absurd (ground arith)

pub is_null_or-some :
    {A : Type 0} (p : A → Bool) (o : Option A) (x : A)
    → is_null_or p o ≡ true
    → o ≡ some x
    → p x ≡ true
is_null_or-some p none x h e = ground arith
is_null_or-some p (some y) x h e = ground arith

pub has-some :
    {A : Type 0} (p : A → Bool) (o : Option A)
    → has p o ≡ true
    → (x : A) × (o ≡ some x) × (p x ≡ true)
has-some p none h = absurd (ground arith)
has-some p (some x) h = (x, refl, h)

same_state-new : (s : JobStates) → same_state s new ≡ true → s ≡ new
same_state-new new h = refl
same_state-new processed h = absurd (ground arith)
same_state-new failed h = absurd (ground arith)
same_state-new retry h = absurd (ground arith)
same_state-new in_progress h = absurd (ground arith)
same_state-new inserting h = absurd (ground arith)
same_state-new (other n) h = absurd (ground arith)

same_state-retry : (s : JobStates) → same_state s retry ≡ true → s ≡ retry
same_state-retry retry h = refl
same_state-retry processed h = absurd (ground arith)
same_state-retry failed h = absurd (ground arith)
same_state-retry new h = absurd (ground arith)
same_state-retry in_progress h = absurd (ground arith)
same_state-retry inserting h = absurd (ground arith)
same_state-retry (other n) h = absurd (ground arith)

pub new≢retry : new ≢ retry
new≢retry e = ground arith

abbrev has_waited : ℕ → Row → Bool
has_waited time r = has (λ t. leb (t + ticks r.min_retry_wait) time) r.last_attempt

retry_parts :
    (time : ℕ) (r : Row)
    → (same_state r.status new ≡ true)
      ⊎ ((same_state r.status retry && (leb r.retry_count r.max_retries && has_waited time r))
          ≡ true)
    → r.status ≡ retry
    → (leb r.retry_count r.max_retries ≡ true) × (has_waited time r ≡ true)
retry_parts time r (inl a) e = absurd (new≢retry (sym (same_state-new r.status a) ∙ e))
retry_parts time r (inr b) e =
    and_parts (leb r.retry_count r.max_retries) _ (and_parts (same_state r.status retry) _ b).1

pub is_fetchable-MayFetch :
    (queue_names : List ℕ) (time threshold : ℕ) (r : Row)
    → is_fetchable queue_names time threshold r ≡ true
    → MayFetch queue_names time threshold r
unfolding is_fetchable is_due may_run is_unclaimed
is_fetchable-MayFetch queue_names time threshold r h =
    let (queued, h1) = and_parts (exists (λ n. n == r.queue_name) queue_names) _ h in
    let (due, h2) = and_parts (is_due time r) _ h1 in
    let (runs, unclaimed) = and_parts (may_run time r) _ h2 in
    let states = or_parts (same_state r.status new) _ runs in
    record {
      queued = queued;
      due =
          λ t e. leb→le t time (is_null_or-some (λ d. leb d time) r.do_not_execute_before t due e);
      state = elim states [
        | inl a ↦ inl (same_state-new r.status a)
        | inr b ↦ inr (same_state-retry r.status (and_parts (same_state r.status retry) _ b).0)
      ];
      retries = λ e. leb→le r.retry_count r.max_retries (retry_parts time r states e).0;
      waited = λ e.
          let (t, last, passed) = has-some _ r.last_attempt (retry_parts time r states e).1 in
          (t, last, leb→le (t + ticks r.min_retry_wait) time passed);
      unclaimed = λ t e.
          ltb→lt t threshold
            (is_null_or-some (λ c. ltb c threshold) r.lock_claim_time t unclaimed e);
    }
