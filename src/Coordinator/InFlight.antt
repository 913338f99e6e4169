-- ===== src/Coordinator/InFlight.antt =====
-- The backpressure of JobQueueCoordinator (OddJob.Execution.Akka/JobQueueCoordinator.cs; Readme.MD,
-- "Perfect Work Distribution"): how many jobs are with the workers at any time.
use odd_job.Prelude.{
  ℕ, suc, ◌+◌, ◌-◌, ◌*◌, ◌^◌, ◌≤◌, ◌<◌, ◌≡◌, refl, Bool, true, false, some, List, [], ◌∷◌, length,
  arith, Bool-cases, ◌⊎◌, inl, inr,
}
use odd_job.Coordinator.{
  Job, Effect, Env, Coordinator, Fetch, jobs, not_enumerable, Message, set_configuration, job_sweep,
  silent_retry_sweep, Outcome, take_fetch, fetch_sweep, saturated_sweep, handle_sweep, on_sweep,
  on_failed, on_succeeded, on_shut_down, on_queue_shut_down, receive, int_lt, int_mul,
}
use odd_job.Coordinator.Sweep.{executed, runnable, executed-dispatch_jobs}
use odd_job.Coordinator.Traces.{reports, receive-pending_items, handle_sweep-IsPulse}
use odd_job.Coordinator.Shutdown.{IsNotConfiguration}

-- The store answers with at most the number of jobs that it was asked for.
abbrev pub IsWithin : ℕ → Fetch → Type 0
IsWithin limit (jobs js) = length js ≤ limit
IsWithin limit _ = Unit

-- A configured coordinator and the number of jobs handed to workers and not yet reported. The
-- surroundings choose the message: a worker reports only a job that it was given.
pub data Reach (start : Coordinator) : Coordinator → ℕ → Type 0 where
  here : Reach start start 0
  next :
      {c c' : Coordinator} {n : ℕ} {es : List Effect} {r : Bool} (env : Env) (m : Message)
      → Reach start c n
      → IsNotConfiguration m
      → reports m ≤ n
      → IsWithin c.worker_count env.fetch
      → receive env m c ≡ some (c', es, r)
      → Reach start c' (n - reports m + length (executed es))

length-runnable : (js : List Job) → length (runnable js) ≤ length js
length-runnable [] = omega arith
length-runnable (j ∷ js) = ground (arith, length-runnable js)

executed-take_fetch :
    (env : Env) (k : Bool) (f : Fetch) (c : Coordinator) (limit : ℕ)
    → IsWithin limit f
    → length (executed (take_fetch env k f c).1) ≤ limit
unfolding take_fetch
executed-take_fetch env true (jobs js) c limit h =
    rw (executed-dispatch_jobs env js c) (omega (arith, length-runnable js))
executed-take_fetch env true not_enumerable c limit h = omega arith
executed-take_fetch env _ _ c limit h = ground arith

-- A pulse hands out at most as many jobs as there are workers, and none at the limit.
handle_sweep-bounded :
    (env : Env) (silent : Bool) (c : Coordinator)
    → IsWithin c.worker_count env.fetch
    → c.worker_count < 2 ^ 29
    → c.pending_items ≤ 3 * c.worker_count
    → (executed (handle_sweep env silent c).1 ≡ [])
      ⊎ ((length (executed (handle_sweep env silent c).1) ≤ c.worker_count)
          × (c.pending_items < 2 * c.worker_count))
unfolding handle_sweep fetch_sweep saturated_sweep
handle_sweep-bounded env silent c w small p =
    elim (Bool-cases (int_lt c.pending_items (int_mul c.worker_count 2))) [
      | inl below ↦
          rw below (inr (executed-take_fetch env c.configured env.fetch _ _ w, ground arith))
      | inr above ↦ rw above (inl (ground arith))
    ]

-- The pending count is the number in flight, and that stays below three jobs a worker.
pub record IsBounded (workers : ℕ) (c : Coordinator) (n : ℕ) : Type 0 where
  pub workers_kept : c.worker_count ≡ workers
  pub counted : c.pending_items ≡ n
  pub below : suc n ≤ 3 * workers

on_sweep-bounded :
    (env : Env) (m : Message) (silent : Bool) (c : Coordinator) {o : Outcome}
    → IsWithin c.worker_count env.fetch
    → c.worker_count < 2 ^ 29
    → suc c.pending_items ≤ 3 * c.worker_count
    → on_sweep env m silent c ≡ some o
    → (o.0.worker_count ≡ c.worker_count)
      × (suc (c.pending_items + length (executed o.1)) ≤ 3 * c.worker_count)
unfolding on_sweep
on_sweep-bounded env m silent c w small p e =
    ground (arith, handle_sweep-IsPulse env silent c, handle_sweep-bounded env silent c w small)

receive-bounded :
    (env : Env) (m : Message) (c : Coordinator) {o : Outcome}
    → IsNotConfiguration m
    → IsWithin c.worker_count env.fetch
    → c.worker_count < 2 ^ 29
    → suc c.pending_items ≤ 3 * c.worker_count
    → receive env m c ≡ some o
    → (o.0.worker_count ≡ c.worker_count)
      × (suc (c.pending_items + length (executed o.1)) ≤ 3 * c.worker_count)
unfolding receive on_shut_down on_queue_shut_down on_failed on_succeeded
receive-bounded env (set_configuration k) c n w small p e = absurd n
receive-bounded env job_sweep c n w small p e = on_sweep-bounded env job_sweep false c w small p e
receive-bounded env silent_retry_sweep c n w small p e =
    on_sweep-bounded env silent_retry_sweep true c w small p e
receive-bounded env _ c n w small p e = ground arith

-- Take a coordinator with at least one worker, fewer than 2 ^ 29, and nothing pending. Whatever
-- messages arrive, as long as it is not configured again, workers report only jobs that they were
-- given and the store returns at most as many jobs as it is asked for, `PendingItems` is exactly
-- the number of jobs that the workers have and have not reported, and it is at most
-- 3 * workers - 1.
pub Reach-IsBounded :
    {start c : Coordinator} {n : ℕ}
    → 0 < start.worker_count
    → start.worker_count < 2 ^ 29
    → start.pending_items ≡ 0
    → Reach start c n
    → IsBounded start.worker_count c n
Reach-IsBounded pos small zero_pending here = record {
  workers_kept = refl;
  counted = zero_pending;
  below = omega arith;
}
Reach-IsBounded pos small zero_pending
      (next {c = c} {c' = c'} {n = n} {es = es} env m before single own w e) =
    let h = Reach-IsBounded pos small zero_pending before in
    let bound : c.worker_count < 2 ^ 29 = omega arith in
    let room : suc c.pending_items ≤ 3 * c.worker_count = omega arith in
    let kept = receive-bounded env m c single w bound room e in
    let count = receive-pending_items env m c (omega arith) e in
    record { workers_kept = omega arith; counted = omega arith; below = omega arith }
