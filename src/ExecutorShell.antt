-- ===== src/ExecutorShell.antt =====
-- OddJob.Execution.Akka/JobExecutorShell.cs: the shell that starts and shuts down a coordinator for each
-- queue. What the actor system does is a parameter of each call: the actor it makes, the coordinator's
-- replies, and whether the scheduler and the end of the system throw. A queue's name is a number that
-- is not null, and an actor is a number too. The two delays are in seconds and not negative: their
-- conversion to the milliseconds of an `int` is left to the scheduler.
pub mod Dictionaries
pub mod Disposal
pub mod Pools
pub mod Shutdowns
pub mod Starts
pub mod Unanswered
mod Examples
use odd_job.Prelude.{
  ℕ, Bool, true, false, Option, none, some, List, [], ◌∷◌, ◌++◌, ◌==◌, ◌>>=◌, if◌then◌else◌, not,
  is_some, map,
}

-- A `Dictionary`. `Add` of a key that is there throws, and so does reading one that is not.
abbrev pub Dictionary {ℓ} : Type ℓ → Type ℓ
Dictionary V = List (ℕ × V)

unfoldable pub get_value {ℓ} : {V : Type ℓ} → ℕ → Dictionary V → Option V
get_value k [] = none
get_value k ((l, v) ∷ d) = let rest = get_value k d in if k == l then some v else rest

abbrev pub contains_key {ℓ} : {V : Type ℓ} → ℕ → Dictionary V → Bool
contains_key k d = is_some (get_value k d)

unfoldable pub remove {ℓ} : {V : Type ℓ} → ℕ → Dictionary V → Dictionary V
remove k [] = []
remove k ((l, v) ∷ d) = let rest = remove k d in if k == l then rest else (l, v) ∷ rest

unfoldable pub add {ℓ} : {V : Type ℓ} → ℕ → V → Dictionary V → Option (Dictionary V)
add k v d = if contains_key k d then none else some ((k, v) ∷ d)

-- What a queue is started with; a priority is a number, and `none` is null.
pub record Settings : Type 0 where
  pub num_workers : ℕ
  pub pulse_delay_in_seconds : ℕ
  pub first_pulse_delay_in_seconds : ℕ
  pub priority_expression : Option ℕ
  pub aggressive_sweep : Bool

-- `Ask(...).Result`: the coordinator's `Configured`, another reply, or an exception.
pub data Reply : Type 0 where
  configured : Reply
  other_reply : Reply
  ask_throws : Reply

-- What the actor system does in a call: the actor that `ActorOf` gives (`none` is an exception), the
-- reply to the configuration, whether the scheduler throws, whether a coordinator answers its
-- shutdown in time, and whether the end of the system throws.
pub record World : Type 0 where
  pub actor_of : Option ℕ
  pub configuration_reply : Reply
  pub scheduler_throws : Bool
  pub answers : ℕ → Bool
  pub terminate_throws : Bool

-- What a call asks of the actor system.
pub data Request : Type 0 where
  set_job_queue_configuration : ℕ → ℕ → Settings → Request
  schedule_sweeps : ℕ → ℕ → ℕ → Request
  cancel_sweeps : ℕ → Request
  shut_down_queues : ℕ → Request
  poison_pill : ℕ → Request
  terminate : Request

-- A pulse's token says whether its cancellation was requested.
pub record Shell : Type 0 where
  pub coordinator_pool : Dictionary ℕ
  pub cancel_pulse_pool : Dictionary Bool

abbrev pub new_shell : Shell
new_shell = record { coordinator_pool = []; cancel_pulse_pool = [] }

-- How a call ends.
pub record Outcome : Type 0 where
  pub shell : Shell
  pub requests : List Request
  pub throws : Bool

-- `DefaultJobQueueManagerPriority.Expression`
abbrev pub default_priority : ℕ
default_priority = 0

abbrev pub or_default : Option ℕ → Option ℕ
or_default none = some default_priority
or_default (some p) = some p

abbrev pub is_configured : Reply → Bool
is_configured configured = true
is_configured other_reply = false
is_configured ask_throws = false

-- The pulses of a coordinator that is in its pool.
unfoldable pub add_pulses : ℕ → List Request → Shell → Option (Dictionary Bool) → Outcome
add_pulses q asked s none = record { shell = s; requests = asked; throws = true }
add_pulses q asked s (some pulses) = record {
  shell = record s { cancel_pulse_pool = pulses };
  requests = asked;
  throws = false;
}

unfoldable pub start_pulses : World → ℕ → Settings → ℕ → List Request → Shell → Outcome
start_pulses world q settings coordinator asked s =
    let scheduled =
      asked
      ++ (schedule_sweeps coordinator settings.first_pulse_delay_in_seconds
            settings.pulse_delay_in_seconds
          ∷ []) in
    let added = add_pulses q scheduled s (add q false s.cancel_pulse_pool) in
    if world.scheduler_throws
    then record { shell = s; requests = scheduled; throws = true }
    else added

unfoldable pub pool_coordinator :
    World → ℕ → Settings → ℕ → List Request → Shell → Option (Dictionary ℕ) → Outcome
pool_coordinator world q settings coordinator asked s none = record {
  shell = s;
  requests = asked;
  throws = true;
}
pool_coordinator world q settings coordinator asked s (some pool) =
    start_pulses world q settings coordinator asked (record s { coordinator_pool = pool })

unfoldable pub configure : World → ℕ → Settings → Shell → Option ℕ → Outcome
configure world q settings s none = record { shell = s; requests = []; throws = true }
configure world q settings s (some coordinator) =
    let sent = record settings { priority_expression = or_default settings.priority_expression } in
    let asked = set_job_queue_configuration coordinator q sent ∷ [] in
    if is_configured world.configuration_reply
    then pool_coordinator world q settings coordinator asked s
        (add q coordinator s.coordinator_pool)
    else record { shell = s; requests = asked; throws = true }

-- `StartJobQueue`
unfoldable pub start_job_queue : World → ℕ → Settings → Shell → Outcome
start_job_queue world q settings s =
    if contains_key q s.coordinator_pool
    then record { shell = s; requests = []; throws = false }
    else configure world q settings s world.actor_of

-- `ShutDownQueue`: the token's cancellation, the question to the coordinator, and the `finally`.
unfoldable pub cancel_pulses : ℕ → Option Bool → List Request
cancel_pulses q none = []
cancel_pulses q (some true) = []
cancel_pulses q (some false) = cancel_sweeps q ∷ []

unfoldable pub stop_coordinator : World → Option ℕ → List Request × Bool
stop_coordinator world none = ([], true)
stop_coordinator world (some coordinator) =
    if world.answers coordinator
    then (shut_down_queues coordinator ∷ poison_pill coordinator ∷ [], false)
    else (shut_down_queues coordinator ∷ [], true)

unfoldable pub shut_down_queue : World → ℕ → Shell → Outcome
shut_down_queue world q s =
    let stopped = stop_coordinator world (get_value q s.coordinator_pool) in
    record {
      shell = record {
        coordinator_pool = remove q s.coordinator_pool;
        cancel_pulse_pool = remove q s.cancel_pulse_pool;
      };
      requests = cancel_pulses q (get_value q s.cancel_pulse_pool) ++ stopped.0;
      throws = stopped.1;
    }

-- `Dispose`: an exception ends the loop.
unfoldable pub shut_down_each : World → List ℕ → Shell → Outcome
shut_down_each world [] s = record { shell = s; requests = []; throws = false }
shut_down_each world (q ∷ qs) s =
    let first = shut_down_queue world q s in
    let rest = shut_down_each world qs first.shell in
    if first.throws then first else record rest { requests = first.requests ++ rest.requests }

abbrev pub keys {ℓ} : {V : Type ℓ} → Dictionary V → List ℕ
keys d = map (λ e. e.0) d

unfoldable pub dispose : World → Shell → Outcome
dispose world s =
    let each = shut_down_each world (keys s.cancel_pulse_pool) s in
    if each.throws then each else record each {
      requests = each.requests ++ (terminate ∷ []);
      throws = world.terminate_throws;
    }
