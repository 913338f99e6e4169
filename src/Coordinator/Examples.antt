-- ===== src/Coordinator/Examples.antt =====
-- A coordinator with two workers: tests of its handlers, and each theorem at concrete messages.
use odd_job.Prelude.{◌≡◌, ◌⊎◌, refl, true, false, none, some, List, [], ◌∷◌, arith}
use odd_job.Coordinator.{
  Coordinator, Env, Job, Message, Effect, receive, jobs, job_sweep, job_succeeded, job_failed,
  queue_shut_down, handle_sweep, ask_get_jobs, execute_job, mark_in_progress, mark_failed,
  mark_success, mark_retry_and_increment, call, on_job_type_missing, on_job_retry, on_job_success,
  on_job_failed, gives_up, dispatch_jobs, take_fetch, fetch_sweep, on_sweep, on_queue_shut_down,
  tell_requester, ask_store_shut_down, shut_down_queues, broadcast_shut_down, on_shut_down,
}
use odd_job.Coordinator.Sweep.{executed, started_ids, failed_ids, fetches, handle_sweep-fetches}
use odd_job.Coordinator.Shutdown.{run, keep_running, shut_down_queues-quiet}
use odd_job.Coordinator.Answers.{Answered, shut_down_queues-Answered}
use odd_job.Coordinator.InFlight.{Reach, IsBounded, Reach-IsBounded}
use odd_job.Coordinator.Retry.{ends, RetriesLeft, IsInts, receive-job_end}

abbrev two_workers : Coordinator
two_workers = record {
  configured = true;
  queue_name = 7;
  shutting_down = false;
  worker_count = 2;
  shutdown_count = 0;
  has_requester = false;
  pending_items = 0;
  saturation_start_time = none;
  saturation_pulse_count = 0;
  queue_life_saturation_pulse_count = 0;
  aggressive_sweep = false;
}

abbrev typed : Job
typed = record {
  job_id = 10;
  type_executed_on = some 1;
  retry_parameters = some (record { max_retries = 3; retry_count = 1 });
}

abbrev untyped : Job
untyped = record { job_id = 11; type_executed_on = none; retry_parameters = none }

abbrev quiet : Env
quiet = record {
  now = 100;
  fetch = jobs (typed ∷ untyped ∷ []);
  spawns = true;
  flushes = true;
  throws = λ _. false;
  custom = λ _. false;
}

abbrev one_pending : Coordinator
one_pending = record two_workers { pending_items = 1 }

abbrev sweep_effects : List Effect
sweep_effects =
    ask_get_jobs 7 2
    ∷ execute_job typed
    ∷ mark_in_progress 10
    ∷ mark_failed 11
    ∷ call (on_job_type_missing untyped)
    ∷ []

sweep_runs : receive quiet job_sweep two_workers ≡ some (one_pending, sweep_effects, true)
unfolding receive on_sweep handle_sweep fetch_sweep take_fetch dispatch_jobs
sweep_runs = refl

typed-IsInts : IsInts typed.retry_parameters
unfolding IsInts
typed-IsInts = (omega arith, omega arith)

retries : gives_up typed.retry_parameters ≡ false
retries = refl

Reach-IsBounded_example : IsBounded 2 one_pending 1
Reach-IsBounded_example =
    Reach-IsBounded {start = two_workers} (omega arith) (omega arith) refl
      (Reach.next quiet job_sweep Reach.here tt (omega arith) (omega arith) sweep_runs)

handle_sweep-fetches_example :
    let (c', effects) = handle_sweep quiet false two_workers in
    ((es : List Effect) × (effects ≡ ask_get_jobs 7 2 ∷ es))
    × (fetches effects ≡ 1)
    × (executed effects ≡ typed ∷ [])
    × (started_ids effects ≡ 10 ∷ [])
    × (failed_ids effects ≡ 11 ∷ [])
    × (c' ≡ one_pending)
handle_sweep-fetches_example =
    handle_sweep-fetches quiet false two_workers (typed ∷ untyped ∷ []) refl (omega arith) refl refl

abbrev full : Coordinator
full = record two_workers { pending_items = 4; saturation_start_time = some 90 }

receive-job_end_example :
    (receive quiet (job_succeeded typed) one_pending
      ≡ ends quiet one_pending (mark_success 10) (call (on_job_success typed) ∷ []))
    × ((RetriesLeft typed
          × (receive quiet (job_failed typed) one_pending
              ≡ ends quiet one_pending
                  (mark_retry_and_increment 10 100)
                  (call (on_job_retry typed) ∷ [])))
        ⊎ ((¬ RetriesLeft typed)
            × (receive quiet (job_failed typed) one_pending
                ≡ ends quiet one_pending (mark_failed 10) (call (on_job_failed typed) ∷ []))))
receive-job_end_example = receive-job_end quiet typed one_pending refl typed-IsInts

abbrev stopping : Coordinator
stopping = record two_workers { shutting_down = true; has_requester = true }

abbrev last_messages : List (Env × Message)
last_messages = (quiet, job_sweep) ∷ (quiet, queue_shut_down) ∷ (quiet, queue_shut_down) ∷ []

abbrev stopped : Coordinator
stopped = record stopping { shutdown_count = 2 }

stopping_runs :
    run last_messages stopping ≡ some (stopped, ask_store_shut_down ∷ tell_requester ∷ [])
unfolding run receive on_sweep on_queue_shut_down
stopping_runs = refl

two_workers-stopping :
    receive quiet shut_down_queues two_workers ≡ some (stopping, broadcast_shut_down ∷ [], true)
unfolding receive on_shut_down
two_workers-stopping = refl

-- The last report, when the store's actor does not answer.
abbrev lost_messages : List (Env × Message)
lost_messages =
    (quiet, queue_shut_down)
    ∷ (record quiet { flushes = false }, queue_shut_down)
    ∷ (quiet, job_sweep)
    ∷ []

shut_down_queues-quiet_example :
    (executed (ask_store_shut_down ∷ tell_requester ∷ []) ≡ [])
    × (fetches (ask_store_shut_down ∷ tell_requester ∷ []) ≡ 0)
    × (executed (keep_running lost_messages stopping) ≡ [])
    × (fetches (keep_running lost_messages stopping) ≡ 0)
shut_down_queues-quiet_example =
    shut_down_queues-quiet quiet two_workers last_messages lost_messages two_workers-stopping
      stopping_runs (tt, (tt, (tt, tt)))

shut_down_queues-Answered_example :
    Answered (run ((quiet, shut_down_queues) ∷ last_messages) two_workers) 2 0 last_messages
shut_down_queues-Answered_example =
    shut_down_queues-Answered quiet last_messages two_workers refl (tt, (tt, (tt, tt)))
      (omega arith) (omega arith)
