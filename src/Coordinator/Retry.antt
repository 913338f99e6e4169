-- ===== src/Coordinator/Retry.antt =====
-- How JobQueueCoordinator (OddJob.Execution.Akka/JobQueueCoordinator.cs) records the end of a job.
use odd_job.Prelude.{
  ℕ, ◌^◌, ◌<◌, ◌≤◌, ◌≡◌, ◌≢◌, Bool, ap, subst, ◌∙◌, refl, sym, inl, inr, ◌⊎◌, none, false, ltb,
  Bool-cases, if-true, if-false, true, Option, some, List, ◌∷◌, arith, if◌then◌else◌,
}
use odd_job.Coordinator.{
  Job, RetryParameters, Effect, Env, Coordinator, job_succeeded, job_failed, Outcome, mark_failed,
  mark_success, mark_retry_and_increment, on_failed, on_succeeded, receive, gives_up, int_sub,
  call_hook, on_job_failed, on_job_retry, on_job_success, int_lt,
}

-- What the end of a job leads to: the state with one job less, the mark in the store, the hook.
abbrev pub ends : Env → Coordinator → Effect → List Effect → Option Outcome
ends env c mark hook =
    some (record c { pending_items = int_sub c.pending_items 1 }, mark ∷ hook, true)

-- What the handling of a job's end makes, for the coordinator and the store.
pub end_with_gives_up :
    (env : Env) (job : Job) (c : Coordinator)
    → c.configured ≡ true
    → (receive env (job_succeeded job) c
        ≡ ends env c (mark_success job.job_id) (call_hook env (on_job_success job)))
      × (receive env (job_failed job) c ≡ (
          if gives_up job.retry_parameters
          then ends env c (mark_failed job.job_id) (call_hook env (on_job_failed job))
          else ends env c
              (mark_retry_and_increment job.job_id env.now)
              (call_hook env (on_job_retry job))))
unfolding receive on_failed on_succeeded
end_with_gives_up env job c k = ground arith

-- The value of an `int` as a signed number: patterns from 2 ^ 31 are below zero.
pub data SignedLess (a b : ℕ) : Type 0 where
  both_positive : a < b → b < 2 ^ 31 → SignedLess a b
  both_negative : a < b → 2 ^ 31 ≤ a → SignedLess a b
  negative_positive : 2 ^ 31 ≤ a → b < 2 ^ 31 → SignedLess a b

SignedLess-int_lt : (a b : ℕ) → a < 2 ^ 32 → b < 2 ^ 32 → SignedLess a b → int_lt a b ≡ true
SignedLess-int_lt a b h k (both_positive l p) = ground arith
SignedLess-int_lt a b h k (both_negative l p) = ground arith
SignedLess-int_lt a b h k (negative_positive l p) = ground arith

int_lt-SignedLess : (a b : ℕ) → a < 2 ^ 32 → b < 2 ^ 32 → int_lt a b ≡ true → SignedLess a b
int_lt-SignedLess a b h k e = elim (Bool-cases (ltb a (2 ^ 31))) [
  | inl a_positive ↦ elim (Bool-cases (ltb b (2 ^ 31))) [
    | inl b_positive ↦ both_positive (ground arith) (ground arith)
    | inr b_negative ↦ absurd (ground arith)
  ]
  | inr a_negative ↦ elim (Bool-cases (ltb b (2 ^ 31))) [
    | inl b_positive ↦ negative_positive (ground arith) (ground arith)
    | inr b_negative ↦ both_negative (ground arith) (ground arith)
  ]
]

-- A job has retry parameters, and its count, as a signed number, is below its maximum.
pub RetriesLeft : Job → Type 0
RetriesLeft job =
    (r : RetryParameters) × (job.retry_parameters ≡ some r) × SignedLess r.retry_count r.max_retries

-- The numbers in a job's retry parameters are patterns of an `int`.
unfoldable pub IsInts : Option RetryParameters → Type 0
IsInts none = Unit
IsInts (some r) = (r.retry_count < 2 ^ 32) × (r.max_retries < 2 ^ 32)

some-none : {r : RetryParameters} → some r ≢ none
some-none e = ground arith

not_below :
    (r q : RetryParameters)
    → IsInts (some r)
    → int_lt r.retry_count r.max_retries ≡ false
    → some r ≡ some q
    → ¬ SignedLess q.retry_count q.max_retries
unfolding IsInts
not_below r q i f same l =
    let (h, k) = subst IsInts same i in
    let below : Option RetryParameters → Bool =
      λ o. elim o [ none ↦ false | some p ↦ int_lt p.retry_count p.max_retries ] in
    true-false (sym (SignedLess-int_lt q.retry_count q.max_retries h k l) ∙ sym (ap below same) ∙ f)
  where
    true-false : true ≢ false
    true-false e = ground arith

gives_up-cases :
    (job : Job) (o : Option RetryParameters)
    → job.retry_parameters ≡ o
    → IsInts o
    → (RetriesLeft job × (gives_up job.retry_parameters ≡ false))
      ⊎ ((¬ RetriesLeft job) × (gives_up job.retry_parameters ≡ true))
unfolding RetriesLeft IsInts
gives_up-cases job none e i = inr ((λ (r, is, l). some-none (sym is ∙ e)), rw e refl)
gives_up-cases job (some r) e i = elim (Bool-cases (int_lt r.retry_count r.max_retries)) [
  | inl t ↦ inl ((r, e, int_lt-SignedLess r.retry_count r.max_retries i.0 i.1 t), rw (e, t) refl)
  | inr f ↦ inr ((λ (q, is, l). not_below r q i f (sym e ∙ is) l), rw (e, f) refl)
]

-- A configured coordinator answers a failed job, whose retry parameters if any are two `int`s, with
-- exactly one mark in the store, ahead of the hook's call: "retry and increment" with the present
-- time if it has retry parameters and their count is below their maximum, both read as signed
-- numbers, and else "failed". A job that succeeded is marked so. In each case one job less is
-- pending, also where the hook throws.
pub receive-job_end :
    (env : Env) (job : Job) (c : Coordinator)
    → c.configured ≡ true
    → IsInts job.retry_parameters
    → (receive env (job_succeeded job) c
        ≡ ends env c (mark_success job.job_id) (call_hook env (on_job_success job)))
      × ((RetriesLeft job
            × (receive env (job_failed job) c
                ≡ ends env c
                    (mark_retry_and_increment job.job_id env.now)
                    (call_hook env (on_job_retry job))))
          ⊎ ((¬ RetriesLeft job)
              × (receive env (job_failed job) c
                  ≡ ends env c (mark_failed job.job_id) (call_hook env (on_job_failed job)))))
receive-job_end env job c k i =
    let (won, lost) = end_with_gives_up env job c k in
    elim (gives_up-cases job job.retry_parameters refl i) [
      | inl (left, f) ↦ (won, inl (left, lost ∙ if-false _ _ f))
      | inr (none_left, t) ↦ (won, inr (none_left, lost ∙ if-true _ _ t))
    ]
