-- ===== src/ThreadPool.antt =====
-- GlutenFree.OddJob.Execution.ThreadPool/Class1.cs: the engine on the run time's thread pool. Its filler
-- fetches jobs on a timer, its executors take them from a queue, and its coordinator counts them.
-- A field that a constructor leaves null is `false` in its `has_` flag. An exception that nothing in
-- the file catches ends the process.
pub mod Idle
pub mod Drains
mod Examples
use odd_job.Prelude.{
  ℕ, ◌+◌, ◌*◌, Bool, true, false, Option, none, some, List, [], ◌∷◌, ◌++◌, if◌then◌else◌, not,
  length,
}
use odd_job.Coordinator.{
  Job, Effect, Hook, int_add, int_sub, int_mul, int_lt, gives_up, execute_job, mark_success,
  mark_failed, mark_retry_and_increment, ask_get_jobs, call, on_job_success, on_job_failed,
  on_job_retry, on_job_queue_saturated,
}

-- What a step learns: the time, what the store gives (`none` is an exception), which marks throw, and
-- which jobs do.
pub record Env : Type 0 where
  pub now : ℕ
  pub fetch : Option (List Job)
  pub mark_throws : Effect → Bool
  pub job_throws : Job → Bool

-- `ThreadPoolCoordinator`, with the queue and the token source that it makes.
pub record Pool : Type 0 where
  pub queue_name : ℕ
  pub shutting_down : Bool
  pub worker_count : ℕ
  pub pending_items : ℕ
  pub cancelled : Bool
  pub timer_runs : Bool
  pub job_queue : List Job

-- `ThreadPoolQueueFiller`
pub record Filler : Type 0 where
  pub has_queue : Bool
  pub has_coordinator : Bool
  pub queue_name : ℕ
  pub fetch_size : ℕ
  pub saturation_pulse_count : ℕ
  pub saturation_start_time : Option ℕ
  pub queue_life_saturation_pulse_count : ℕ

-- `ThreadPoolExecutor`
pub record Executor : Type 0 where
  pub has_handler : Bool

-- The three constructors. That of the filler does not keep the queue and the coordinator, that of an
-- executor not the handler.
unfoldable pub new_filler : ℕ → ℕ → Filler
new_filler queue_name fetch_size = record {
  has_queue = false;
  has_coordinator = false;
  queue_name = queue_name;
  fetch_size = fetch_size;
  saturation_pulse_count = 0;
  saturation_start_time = none;
  queue_life_saturation_pulse_count = 0;
}

unfoldable pub new_executor : Executor
new_executor = record { has_handler = false }

unfoldable pub new_pool : ℕ → ℕ → Pool
new_pool queue_name worker_count = record {
  queue_name = queue_name;
  shutting_down = false;
  worker_count = worker_count;
  pending_items = 0;
  cancelled = false;
  timer_runs = true;
  job_queue = [];
}

abbrev pub decrease_pending_items : Pool → Pool
decrease_pending_items p = record p { pending_items = int_sub p.pending_items 1 }

abbrev pub increase_pending_items : Pool → Pool
increase_pending_items p = record p { pending_items = int_add p.pending_items 1 }

-- The wait for the last item changes nothing.
unfoldable pub shut_down_queue : Pool → Pool
shut_down_queue p = record p { timer_runs = false }

-- The loop over the jobs; each is a call on the queue and one on the coordinator.
abbrev pub enqueue_all : List Job → Pool → Pool
enqueue_all [] p = p
enqueue_all (job ∷ jobs) p =
    enqueue_all jobs (increase_pending_items (record p { job_queue = p.job_queue ++ job ∷ [] }))

abbrev pub is_none_left : List Job → Bool
is_none_left [] = true
is_none_left (_ ∷ _) = false

abbrev pub or_now : ℕ → Option ℕ → ℕ
or_now now none = now
or_now now (some t) = t

abbrev pub filled : Env → Filler → Pool → Option (List Effect × (Filler × Pool))
filled env f p =
    let fresh = record f { saturation_start_time = none; saturation_pulse_count = 0 } in
    elim env.fetch [
      | none ↦ none
      | some jobs ↦
          if not (is_none_left jobs)
          then (if f.has_queue
              then some (ask_get_jobs f.queue_name f.fetch_size ∷ [], (fresh, enqueue_all jobs p))
              else none)
          else some (ask_get_jobs f.queue_name f.fetch_size ∷ [], (fresh, p))
    ]

abbrev pub saturated : Env → Filler → Filler
saturated env f = record f {
  saturation_start_time = some (or_now env.now f.saturation_start_time);
  saturation_pulse_count = int_add f.saturation_pulse_count 1;
  queue_life_saturation_pulse_count = int_add f.queue_life_saturation_pulse_count 1;
}

-- What the hook throws is caught.
unfoldable pub pulse_queue : Env → Filler → Pool → Option (List Effect × (Filler × Pool))
pulse_queue env f p =
    let g = saturated env f in
    let hook =
      on_job_queue_saturated env.now g.saturation_pulse_count g.queue_life_saturation_pulse_count in
    if p.cancelled
    then some ([], (f, shut_down_queue p))
    else if not f.has_coordinator
    then none
    else if int_lt (int_mul f.fetch_size 2) p.pending_items
    then some (call hook ∷ [], (g, p))
    else filled env f p

-- `ThreadPoolJobStateHandler`: what it does, and whether an exception leaves it. What a hook throws
-- is caught.
unfoldable pub handle_success : Env → Job → List Effect × Bool
handle_success env job =
    let mark = mark_success job.job_id in
    if env.mark_throws mark
    then (mark ∷ [], true)
    else (mark ∷ call (on_job_success job) ∷ [], false)

unfoldable pub handle_failure : Env → Job → List Effect × Bool
handle_failure env job =
    let failed = mark_failed job.job_id in
    let again = mark_retry_and_increment job.job_id env.now in
    if gives_up job.retry_parameters
    then (if env.mark_throws failed
        then (failed ∷ [], true)
        else (failed ∷ call (on_job_failed job) ∷ [], false))
    else (if env.mark_throws again
        then (again ∷ [], true)
        else (again ∷ call (on_job_retry job) ∷ [], false))

-- The `try` of the loop, and its `catch`.
abbrev pub attempt : Env → Executor → Job → List Effect × Bool
attempt env e job =
    let success = handle_success env job in
    if env.job_throws job
    then (execute_job job ∷ [], true)
    else if e.has_handler
    then (execute_job job ∷ success.0, success.1)
    else (execute_job job ∷ [], true)

unfoldable pub run_job : Env → Executor → Job → List Effect × Bool
run_job env e job =
    let tried = attempt env e job in
    let failure = handle_failure env job in
    if not tried.1
    then tried
    else if e.has_handler
    then (tried.0 ++ failure.0, failure.1)
    else tried

-- The loop over the queue; an exception leaves it, with the job taken and still counted.
unfoldable pub drain_from : Env → Executor → List Job → Pool → List Effect × (Pool × Bool)
drain_from env e [] p = ([], (record p { job_queue = [] }, false))
drain_from env e (job ∷ jobs) p =
    let ran = run_job env e job in
    let rest = drain_from env e jobs (decrease_pending_items p) in
    if ran.1 then (ran.0, (record p { job_queue = jobs }, true)) else (ran.0 ++ rest.0, rest.1)

-- One turn of `StartLoop`.
unfoldable pub loop_turn : Env → Executor → Pool → List Effect × (Pool × Bool)
loop_turn env e p =
    let drained = drain_from env e p.job_queue p in
    if p.cancelled then ([], (p, false)) else drained
