-- ===== src/Coordinator.antt =====
-- OddJob.Execution.Akka/JobQueueCoordinator.cs: the actor that fetches jobs from the store's
-- actor, hands them to the workers and records how they end.
-- A C# `int` is its bit pattern below 2 ^ 32, a `long` one below 2 ^ 64. What the actor does to its
-- surroundings is a list of effects; what it learns from them is an `Env`, one for each message.
pub mod Retry
pub mod Sweep
pub mod Shutdown
pub mod Answers
pub mod Traces
pub mod InFlight
mod Examples
use odd_job.Prelude.{
  ℕ, ◌+◌, ◌-◌, ◌*◌, ◌%◌, ◌^◌, ◌≤◌, Bool, true, false, Option, none, some, List, [], ◌∷◌, ◌++◌, ltb,
  ◌==◌, if◌then◌else◌, not, ◌&&◌,
}

-- `int` arithmetic is unchecked: it wraps.
abbrev pub int_add : ℕ → ℕ → ℕ
int_add a b = (a + b) % 2 ^ 32

abbrev pub int_sub : ℕ → ℕ → ℕ
int_sub a b = (a + 2 ^ 32 - b) % 2 ^ 32

abbrev pub int_mul : ℕ → ℕ → ℕ
int_mul a b = (a * b) % 2 ^ 32

-- `<` on signed patterns: flip the sign bit, then compare.
abbrev pub int_lt : ℕ → ℕ → Bool
int_lt a b = ltb ((a + 2 ^ 31) % 2 ^ 32) ((b + 2 ^ 31) % 2 ^ 32)

abbrev pub long_add : ℕ → ℕ → ℕ
long_add a b = (a + b) % 2 ^ 64

-- The two fields of `RetryParameters` that the coordinator reads.
pub record RetryParameters : Type 0 where
  pub max_retries : ℕ
  pub retry_count : ℕ

-- `IOddJobWithMetadata`; a null `TypeExecutedOn` is `none`.
pub record Job : Type 0 where
  pub job_id : ℕ
  pub type_executed_on : Option ℕ
  pub retry_parameters : Option RetryParameters

-- `SetJobQueueConfiguration`, without the two `Props`.
pub record Config : Type 0 where
  pub queue_name : ℕ
  pub num_workers : ℕ
  pub aggressive_sweep : Bool

pub data Message : Type 0 where
  set_configuration : Config → Message
  shut_down_queues : Message
  queue_shut_down : Message
  job_sweep : Message
  silent_retry_sweep : Message
  job_succeeded : Job → Message
  job_failed : Job → Message
  other : ℕ → Message

-- The virtual methods that a subclass may override.
pub data Hook : Type 0 where
  on_job_success : Job → Hook
  on_job_failed : Job → Hook
  on_job_retry : Job → Hook
  on_queue_timeout : Hook
  on_job_type_missing : Job → Hook
  on_job_queue_saturated : ℕ → ℕ → ℕ → Hook

-- Calls out of the actor. The `tell_*` and `mark_*` are messages to the pool and to the store's
-- actor; `log_error` is a caught exception.
pub data Effect : Type 0 where
  reply_configured : Effect
  broadcast_shut_down : Effect
  ask_store_shut_down : Effect
  tell_requester : Effect
  ask_get_jobs : ℕ → ℕ → Effect
  execute_job : Job → Effect
  mark_in_progress : ℕ → Effect
  mark_success : ℕ → Effect
  mark_failed : ℕ → Effect
  mark_retry_and_increment : ℕ → ℕ → Effect
  tell_self_silent_sweep : Effect
  call : Hook → Effect
  log_error : Effect

-- The result of the `Ask` for jobs: an enumerable, another object (`as` gives null), or an exception.
pub data Fetch : Type 0 where
  jobs : List Job → Fetch
  not_enumerable : Fetch
  timed_out : Fetch

-- What one message's handling meets: the clock, the answer to `GetJobs`, whether the two `ActorOf`
-- and the `Ask` for the store's shutdown return, which overrides throw, and `OnCustomMessage`.
pub record Env : Type 0 where
  pub now : ℕ
  pub fetch : Fetch
  pub spawns : Bool
  pub flushes : Bool
  pub throws : Hook → Bool
  pub custom : Message → Bool

pub record Coordinator : Type 0 where
  -- `WorkerRouterRef` and `JobQueueActor` are set
  pub configured : Bool
  pub queue_name : ℕ
  pub shutting_down : Bool
  pub worker_count : ℕ
  pub shutdown_count : ℕ
  pub has_requester : Bool
  pub pending_items : ℕ
  pub saturation_start_time : Option ℕ
  pub saturation_pulse_count : ℕ
  pub queue_life_saturation_pulse_count : ℕ
  pub aggressive_sweep : Bool

-- The constructor.
unfoldable pub new : Coordinator
new = record {
  configured = false;
  queue_name = 0;
  shutting_down = false;
  worker_count = 0;
  shutdown_count = 0;
  has_requester = false;
  pending_items = 0;
  saturation_start_time = none;
  saturation_pulse_count = 0;
  queue_life_saturation_pulse_count = 0;
  aggressive_sweep = false;
}

-- The new state, the effects in order and what `Receive` returns.
abbrev pub Outcome : Type 0
Outcome = Coordinator × List Effect × Bool

-- A hook under its `try`: a throw is logged.
abbrev pub call_hook : Env → Hook → List Effect
call_hook env h = call h ∷ (if env.throws h then log_error ∷ [] else [])

-- The `foreach` over the fetched jobs.
unfoldable pub dispatch_jobs : Env → List Job → Coordinator → Coordinator × List Effect
dispatch_jobs env [] c = (c, [])
dispatch_jobs env (job ∷ rest) c = elim job.type_executed_on [
  | none ↦
      let (c', effects) = dispatch_jobs env rest c in
      (c', mark_failed job.job_id ∷ (call_hook env (on_job_type_missing job) ++ effects))
  | some _ ↦
      let (c', effects) =
        dispatch_jobs env rest (record c { pending_items = int_add c.pending_items 1 }) in
      (c', execute_job job ∷ mark_in_progress job.job_id ∷ effects)
]

-- The answer of the store's actor. With no such actor the `Ask` is a null reference, which the
-- `catch` takes as it takes a timeout; a null result leaves nothing to queue.
unfoldable pub take_fetch : Env → Bool → Fetch → Coordinator → Coordinator × List Effect
unfolding dispatch_jobs
take_fetch env true (jobs js) c = dispatch_jobs env js c
take_fetch env true not_enumerable c = (c, [])
take_fetch env _ _ c = (c, log_error ∷ call_hook env on_queue_timeout)

-- `HandleSweep` below its limit of two jobs a worker.
unfoldable pub fetch_sweep : Env → Coordinator → Coordinator × List Effect
unfolding take_fetch
fetch_sweep env c =
    let c0 = record c { saturation_start_time = none; saturation_pulse_count = 0 } in
    let (c', effects) = take_fetch env c.configured env.fetch c0 in
    (c', ask_get_jobs c.queue_name c.worker_count ∷ effects)

abbrev pub or_now : Option ℕ → ℕ → ℕ
or_now none now = now
or_now (some t) now = t

-- `HandleSweep` at or above it. Only a `JobSweep` counts as a missed pulse.
unfoldable pub saturated_sweep : Env → Bool → Coordinator → Coordinator × List Effect
saturated_sweep env silent c =
    let again = if c.aggressive_sweep then tell_self_silent_sweep ∷ [] else [] in
    let since = or_now c.saturation_start_time env.now in
    let pulses = int_add c.saturation_pulse_count 1 in
    let life = long_add c.queue_life_saturation_pulse_count 1 in
    if silent then (c, again) else (
      record c {
        saturation_start_time = some since;
        saturation_pulse_count = pulses;
        queue_life_saturation_pulse_count = life;
      },
      call_hook env (on_job_queue_saturated since pulses life) ++ again,
    )

unfoldable pub handle_sweep : Env → Bool → Coordinator → Coordinator × List Effect
unfolding fetch_sweep saturated_sweep
handle_sweep env silent c =
    if int_lt c.pending_items (int_mul c.worker_count 2)
    then fetch_sweep env c
    else saturated_sweep env silent c

-- `RetryParameters == null || MaxRetries <= RetryCount`.
abbrev pub gives_up : Option RetryParameters → Bool
gives_up none = true
gives_up (some r) = not (int_lt r.retry_count r.max_retries)

-- The branch of `JobFailed`, and that of `JobSuceeded`. Both use the store's actor.
unfoldable pub on_failed : Env → Job → Coordinator → Option Outcome
on_failed env job c =
    let c' = record c { pending_items = int_sub c.pending_items 1 } in
    if not c.configured
    then none
    else if gives_up job.retry_parameters
    then some (c', mark_failed job.job_id ∷ call_hook env (on_job_failed job), true)
    else some
        (c', mark_retry_and_increment job.job_id env.now ∷ call_hook env (on_job_retry job), true)

unfoldable pub on_succeeded : Env → Job → Coordinator → Option Outcome
on_succeeded env job c =
    let c' = record c { pending_items = int_sub c.pending_items 1 } in
    if c.configured
    then some (c', mark_success job.job_id ∷ call_hook env (on_job_success job), true)
    else none

-- The branch of `QueueShutDown`, a worker's report that its mailbox is empty.
unfoldable pub on_queue_shut_down : Env → Coordinator → Option Outcome
on_queue_shut_down env c =
    let count = int_add c.shutdown_count 1 in
    let c' = record c { shutdown_count = count; saturation_pulse_count = 0 } in
    if count == c.worker_count
    then if c.configured && env.flushes && c.has_requester
      then some (c', ask_store_shut_down ∷ tell_requester ∷ [], true)
      else none
    else some (c', [], true)

-- The branch of `SetJobQueueConfiguration`; `ActorOf` throws when it is given a name twice.
unfoldable pub on_configuration : Env → Config → Coordinator → Option Outcome
on_configuration env config c =
    if env.spawns
    then some (
      record c {
        configured = true;
        worker_count = config.num_workers;
        queue_name = config.queue_name;
        aggressive_sweep = config.aggressive_sweep;
      },
      reply_configured ∷ [],
      true,
    )
    else none

unfoldable pub on_shut_down : Coordinator → Option Outcome
on_shut_down c =
    if c.configured
    then some
        (record c { has_requester = true; shutting_down = true }, broadcast_shut_down ∷ [], true)
    else none

unfoldable pub on_sweep : Env → Message → Bool → Coordinator → Option Outcome
unfolding handle_sweep
on_sweep env message silent c =
    if c.shutting_down
    then some (c, [], env.custom message)
    else let (c', effects) = handle_sweep env silent c in some (c', effects, true)

-- `Receive`. `none` is an exception that leaves the handler: Akka restarts the actor.
unfoldable pub receive : Env → Message → Coordinator → Option Outcome
unfolding on_configuration on_shut_down on_queue_shut_down on_sweep on_succeeded on_failed
receive env (set_configuration config) c = on_configuration env config c
receive env shut_down_queues c = on_shut_down c
receive env queue_shut_down c = on_queue_shut_down env c
receive env job_sweep c = on_sweep env job_sweep false c
receive env silent_retry_sweep c = on_sweep env silent_retry_sweep true c
receive env (job_succeeded job) c = on_succeeded env job c
receive env (job_failed job) c = on_failed env job c
receive env (other n) c = some (c, [], env.custom (other n))
