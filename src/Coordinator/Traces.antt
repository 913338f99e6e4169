-- ===== src/Coordinator/Traces.antt =====
-- The counters of JobQueueCoordinator over any one message and over any sequence of messages.
use odd_job.Prelude.{
  ℕ, suc, ◌+◌, ◌-◌, ◌%◌, ◌^◌, ◌<◌, ◌≡◌, refl, Bool, true, false, none, some, List, [], ◌∷◌, ◌++◌,
  length, arith, Bool-cases, inl, inr,
}
use odd_job.Coordinator.{
  Job, Hook, Effect, jobs, not_enumerable, Fetch, Env, Coordinator, Message, set_configuration,
  shut_down_queues, queue_shut_down, job_sweep, silent_retry_sweep, job_succeeded, job_failed,
  other, Outcome, call_hook, dispatch_jobs, take_fetch, fetch_sweep, saturated_sweep, handle_sweep,
  on_sweep, on_configuration, on_failed, on_succeeded, on_shut_down, on_queue_shut_down, receive,
  tell_requester, on_job_type_missing, int_add, int_lt, int_mul,
}
use odd_job.Coordinator.Sweep.{executed, executed-dispatch_jobs, dispatch_jobs-state}

-- 1 for a message by which a worker reports the end of a job.
abbrev pub reports : Message → ℕ
reports (job_succeeded _) = 1
reports (job_failed _) = 1
reports _ = 0

-- How often the requester of the shutdown is answered.
abbrev pub answers : List Effect → ℕ
answers [] = 0
answers (tell_requester ∷ es) = suc (answers es)
answers (_ ∷ es) = answers es

-- What a pulse leaves alone, and what it does to the pending count.
pub record IsPulse (c c' : Coordinator) (es : List Effect) : Type 0 where
  pub configured : c'.configured ≡ c.configured
  pub queue_name : c'.queue_name ≡ c.queue_name
  pub worker_count : c'.worker_count ≡ c.worker_count
  pub shutting_down : c'.shutting_down ≡ c.shutting_down
  pub shutdown_count : c'.shutdown_count ≡ c.shutdown_count
  pub has_requester : c'.has_requester ≡ c.has_requester
  pub pending_items : c'.pending_items ≡ (c.pending_items + length (executed es)) % 2 ^ 32
  pub unanswered : answers es ≡ 0

answers-hook :
    (env : Env) (h : Hook) (es : List Effect) → answers (call_hook env h ++ es) ≡ answers es
answers-hook env h es = ground arith

answers-dispatch_jobs :
    (env : Env) (js : List Job) (c : Coordinator) → answers (dispatch_jobs env js c).1 ≡ 0
unfolding dispatch_jobs
answers-dispatch_jobs env [] c = refl
answers-dispatch_jobs env (j ∷ js) c = ground (
  arith,
  answers-hook env (on_job_type_missing j) (dispatch_jobs env js c).1,
  answers-dispatch_jobs env js c,
  answers-dispatch_jobs env js (record c { pending_items = int_add c.pending_items 1 }),
)

dispatch_jobs-IsPulse :
    (env : Env) (js : List Job) (c : Coordinator)
    → c.pending_items < 2 ^ 32
    → IsPulse c (dispatch_jobs env js c).0 (dispatch_jobs env js c).1
dispatch_jobs-IsPulse env js c p = rw (dispatch_jobs-state env js c p) record {
  configured = refl;
  queue_name = refl;
  worker_count = refl;
  shutting_down = refl;
  shutdown_count = refl;
  has_requester = refl;
  pending_items = rw (executed-dispatch_jobs env js c);
  unanswered = answers-dispatch_jobs env js c;
}

take_fetch-IsPulse :
    (env : Env) (k : Bool) (f : Fetch) (c : Coordinator)
    → c.pending_items < 2 ^ 32
    → IsPulse c (take_fetch env k f c).0 (take_fetch env k f c).1
unfolding take_fetch
take_fetch-IsPulse env true (jobs js) c p = dispatch_jobs-IsPulse env js c p
take_fetch-IsPulse env true not_enumerable c p = ground arith
take_fetch-IsPulse env _ _ c p = ground arith

fetch_sweep-IsPulse :
    (env : Env) (c : Coordinator)
    → c.pending_items < 2 ^ 32
    → IsPulse c (fetch_sweep env c).0 (fetch_sweep env c).1
unfolding fetch_sweep
fetch_sweep-IsPulse env c p =
    let h =
      take_fetch-IsPulse env c.configured env.fetch
        (record c { saturation_start_time = none; saturation_pulse_count = 0 }) p in
    record {
      configured = h.configured;
      queue_name = h.queue_name;
      worker_count = h.worker_count;
      shutting_down = h.shutting_down;
      shutdown_count = h.shutdown_count;
      has_requester = h.has_requester;
      pending_items = h.pending_items;
      unanswered = h.unanswered;
    }

saturated_sweep-IsPulse :
    (env : Env) (silent : Bool) (c : Coordinator)
    → c.pending_items < 2 ^ 32
    → IsPulse c (saturated_sweep env silent c).0 (saturated_sweep env silent c).1
unfolding saturated_sweep
saturated_sweep-IsPulse env silent c p = ground arith

pub handle_sweep-IsPulse :
    (env : Env) (silent : Bool) (c : Coordinator)
    → c.pending_items < 2 ^ 32
    → IsPulse c (handle_sweep env silent c).0 (handle_sweep env silent c).1
unfolding handle_sweep
handle_sweep-IsPulse env silent c p =
    elim (Bool-cases (int_lt c.pending_items (int_mul c.worker_count 2))) [
      | inl below ↦ rw below (fetch_sweep-IsPulse env c p)
      | inr above ↦ rw above (saturated_sweep-IsPulse env silent c p)
    ]

on_sweep-pending_items :
    (env : Env) (m : Message) (silent : Bool) (c : Coordinator) {o : Outcome}
    → c.pending_items < 2 ^ 32
    → on_sweep env m silent c ≡ some o
    → o.0.pending_items ≡ (c.pending_items + length (executed o.1)) % 2 ^ 32
unfolding on_sweep
on_sweep-pending_items env m silent c p e = ground (arith, handle_sweep-IsPulse env silent c)

-- Whatever the message, the pending count of the next state is the old count plus the jobs just
-- handed to the workers, less one where the message reports the end of a job, modulo 2 ^ 32.
pub receive-pending_items :
    (env : Env) (m : Message) (c : Coordinator) {c' : Coordinator} {es : List Effect} {r : Bool}
    → c.pending_items < 2 ^ 32
    → receive env m c ≡ some (c', es, r)
    → c'.pending_items ≡ (c.pending_items + length (executed es) + 2 ^ 32 - reports m) % 2 ^ 32
unfolding receive
receive-pending_items env (set_configuration k) c p e = unfold on_configuration in ground arith
receive-pending_items env shut_down_queues c p e = unfold on_shut_down in ground arith
receive-pending_items env queue_shut_down c p e = unfold on_queue_shut_down in ground arith
receive-pending_items env job_sweep c p e =
    ground (arith, on_sweep-pending_items env job_sweep false c p e)
receive-pending_items env silent_retry_sweep c p e =
    ground (arith, on_sweep-pending_items env silent_retry_sweep true c p e)
receive-pending_items env (job_succeeded j) c p e = unfold on_succeeded in ground arith
receive-pending_items env (job_failed j) c p e = unfold on_failed in ground arith
receive-pending_items env (other n) c p e = ground arith
