-- ===== src/Coordinator/Sweep.antt =====
-- What one pulse of `HandleSweep` (OddJob.Execution.Akka/JobQueueCoordinator.cs) asks for, hands
-- out and counts.
use odd_job.Prelude.{
  ℕ, suc, ◌+◌, ◌%◌, ◌^◌, ◌<◌, ◌≡◌, refl, ap, Bool, true, false, none, some, List, [], ◌∷◌, ◌++◌,
  map, length, arith, if◌then◌else◌,
}
use odd_job.Coordinator.{
  Job, Hook, on_job_type_missing, on_job_queue_saturated, Effect, execute_job, mark_in_progress,
  mark_failed, call, ask_get_jobs, jobs, Env, Coordinator, call_hook, dispatch_jobs, take_fetch,
  fetch_sweep, saturated_sweep, handle_sweep, int_lt, int_mul, int_add, long_add, or_now,
}

-- The jobs that the effects hand to the workers, in order, and the ids of those marked.
abbrev pub executed : List Effect → List Job
executed [] = []
executed (execute_job j ∷ es) = j ∷ executed es
executed (_ ∷ es) = executed es

abbrev pub started_ids : List Effect → List ℕ
started_ids [] = []
started_ids (mark_in_progress i ∷ es) = i ∷ started_ids es
started_ids (_ ∷ es) = started_ids es

abbrev pub failed_ids : List Effect → List ℕ
failed_ids [] = []
failed_ids (mark_failed i ∷ es) = i ∷ failed_ids es
failed_ids (_ ∷ es) = failed_ids es

-- How often the store was asked for jobs.
abbrev pub fetches : List Effect → ℕ
fetches [] = 0
fetches (ask_get_jobs _ _ ∷ es) = suc (fetches es)
fetches (_ ∷ es) = fetches es

-- The fetched jobs whose type was found, and those whose type is missing.
abbrev pub runnable : List Job → List Job
runnable [] = []
runnable (j ∷ js) = elim j.type_executed_on [ none ↦ runnable js | some _ ↦ j ∷ runnable js ]

abbrev pub untyped_ids : List Job → List ℕ
untyped_ids [] = []
untyped_ids (j ∷ js) = elim j.type_executed_on [
  | none ↦ j.job_id ∷ untyped_ids js
  | some _ ↦ untyped_ids js
]

abbrev pub ids : List Job → List ℕ
ids = map (λ j. j.job_id)

pub executed-hook :
    (env : Env) (h : Hook) (es : List Effect) → executed (call_hook env h ++ es) ≡ executed es
executed-hook env h es = ground arith

started_ids-hook :
    (env : Env) (h : Hook) (es : List Effect) → started_ids (call_hook env h ++ es) ≡ started_ids es
started_ids-hook env h es = ground arith

failed_ids-hook :
    (env : Env) (h : Hook) (es : List Effect) → failed_ids (call_hook env h ++ es) ≡ failed_ids es
failed_ids-hook env h es = ground arith

pub executed-dispatch_jobs :
    (env : Env) (js : List Job) (c : Coordinator)
    → executed (dispatch_jobs env js c).1 ≡ runnable js
unfolding dispatch_jobs
executed-dispatch_jobs env [] c = refl
executed-dispatch_jobs env (j ∷ js) c = ground (
  arith,
  executed-hook env (on_job_type_missing j) (dispatch_jobs env js c).1,
  executed-dispatch_jobs env js c,
  executed-dispatch_jobs env js (record c { pending_items = int_add c.pending_items 1 }),
)

started_ids-dispatch_jobs :
    (env : Env) (js : List Job) (c : Coordinator)
    → started_ids (dispatch_jobs env js c).1 ≡ ids (runnable js)
unfolding dispatch_jobs
started_ids-dispatch_jobs env [] c = refl
started_ids-dispatch_jobs env (j ∷ js) c = ground (
  arith,
  started_ids-hook env (on_job_type_missing j) (dispatch_jobs env js c).1,
  started_ids-dispatch_jobs env js c,
  started_ids-dispatch_jobs env js (record c { pending_items = int_add c.pending_items 1 }),
)

failed_ids-dispatch_jobs :
    (env : Env) (js : List Job) (c : Coordinator)
    → failed_ids (dispatch_jobs env js c).1 ≡ untyped_ids js
unfolding dispatch_jobs
failed_ids-dispatch_jobs env [] c = refl
failed_ids-dispatch_jobs env (j ∷ js) c = ground (
  arith,
  failed_ids-hook env (on_job_type_missing j) (dispatch_jobs env js c).1,
  failed_ids-dispatch_jobs env js c,
  failed_ids-dispatch_jobs env js (record c { pending_items = int_add c.pending_items 1 }),
)

fetches-hook :
    (env : Env) (h : Hook) (es : List Effect) → fetches (call_hook env h ++ es) ≡ fetches es
fetches-hook env h es = ground arith

fetches-dispatch_jobs :
    (env : Env) (js : List Job) (c : Coordinator) → fetches (dispatch_jobs env js c).1 ≡ 0
unfolding dispatch_jobs
fetches-dispatch_jobs env [] c = refl
fetches-dispatch_jobs env (j ∷ js) c = ground (
  arith,
  fetches-hook env (on_job_type_missing j) (dispatch_jobs env js c).1,
  fetches-dispatch_jobs env js c,
  fetches-dispatch_jobs env js (record c { pending_items = int_add c.pending_items 1 }),
)

-- Only the counter changes, by the number of runnable jobs.
pub dispatch_jobs-state :
    (env : Env) (js : List Job) (c : Coordinator)
    → c.pending_items < 2 ^ 32
    → (dispatch_jobs env js c).0
      ≡ record c { pending_items = (c.pending_items + length (runnable js)) % 2 ^ 32 }
unfolding dispatch_jobs
dispatch_jobs-state env [] c h = ground arith
dispatch_jobs-state env (j ∷ js) c h = ground (
  arith,
  dispatch_jobs-state env js c,
  dispatch_jobs-state env js (record c { pending_items = int_add c.pending_items 1 }),
)

-- A pulse below the limit of two jobs a worker, of a configured coordinator whose pending count is an
-- `int`, where the store answers with a list of jobs: the store is asked exactly once, first of all,
-- for as many jobs of the queue as there are workers. The jobs with a type go to the workers in the
-- order fetched and are marked in progress, those without one are marked failed, the pending count
-- grows by the number handed out (modulo 2 ^ 32), and the saturation record is cleared.
pub handle_sweep-fetches :
    (env : Env) (silent : Bool) (c : Coordinator) (js : List Job)
    → c.configured ≡ true
    → c.pending_items < 2 ^ 32
    → int_lt c.pending_items (int_mul c.worker_count 2) ≡ true
    → env.fetch ≡ jobs js
    → let (c', effects) = handle_sweep env silent c in
      ((es : List Effect) × (effects ≡ ask_get_jobs c.queue_name c.worker_count ∷ es))
      × (fetches effects ≡ 1)
      × (executed effects ≡ runnable js)
      × (started_ids effects ≡ ids (runnable js))
      × (failed_ids effects ≡ untyped_ids js)
      × (c' ≡ record c {
        pending_items = (c.pending_items + length (runnable js)) % 2 ^ 32;
        saturation_start_time = none;
        saturation_pulse_count = 0;
      })
unfolding handle_sweep fetch_sweep take_fetch
handle_sweep-fetches env silent c js k p below f =
    rw (below, k, f)
      (
        (_, refl),
        ap suc (fetches-dispatch_jobs env js _),
        executed-dispatch_jobs env js _,
        started_ids-dispatch_jobs env js _,
        failed_ids-dispatch_jobs env js _,
        dispatch_jobs-state env js _ p,
      )

abbrev pub calls : List Effect → List Hook
calls [] = []
calls (call h ∷ es) = h ∷ calls es
calls (_ ∷ es) = calls es

-- A pulse at or above the limit asks the store for nothing and hands out nothing. An audible pulse
-- records the time of the first missed one, counts one more and calls `OnJobQueueSaturated` with
-- the new record; a silent one leaves the state alone and calls nothing.
pub handle_sweep-saturated :
    (env : Env) (silent : Bool) (c : Coordinator)
    → int_lt c.pending_items (int_mul c.worker_count 2) ≡ false
    → let (c', effects) = handle_sweep env silent c in
      let since = or_now c.saturation_start_time env.now in
      let pulses = int_add c.saturation_pulse_count 1 in
      let life = long_add c.queue_life_saturation_pulse_count 1 in
      (executed effects ≡ [])
      × (fetches effects ≡ 0)
      × (calls effects ≡ (if silent then [] else on_job_queue_saturated since pulses life ∷ []))
      × (c' ≡ (
          if silent then c else record c {
            saturation_start_time = some since;
            saturation_pulse_count = pulses;
            queue_life_saturation_pulse_count = life;
          }))
unfolding handle_sweep saturated_sweep
handle_sweep-saturated env silent c above = ground arith
