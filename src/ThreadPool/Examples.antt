-- ===== src/ThreadPool/Examples.antt =====
-- Runs of the thread pool's engine.
use odd_job.Prelude.{ℕ, ◌≡◌, refl, true, false, none, some, [], ◌∷◌}
use odd_job.Coordinator
use odd_job.Coordinator.{
  Job, Effect, Coordinator, execute_job, mark_success, mark_failed, mark_retry_and_increment, call,
  on_job_success, on_job_failed, job_succeeded, job_failed, timed_out,
}
use odd_job.ThreadPool.{Env, handle_success, handle_failure}
use odd_job.ThreadPool.Idle.{pulsed, turned, shut_down, new_process, run, run-new_process}
use odd_job.ThreadPool.Drains.{Marked, handle-receive}

abbrev job : ℕ → Job
job n = record { job_id = n; type_executed_on = some 0; retry_parameters = none }

abbrev env : Env
env = record {
  now = 60;
  fetch = some (job 1 ∷ []);
  mark_throws = λ m. false;
  job_throws = λ j. false;
}

run-new_process_example : (run (pulsed env ∷ turned env ∷ shut_down ∷ []) (new_process 5 2)).0 ≡ []
run-new_process_example = run-new_process (pulsed env ∷ turned env ∷ shut_down ∷ []) 5 2

abbrev their_env : Coordinator.Env
their_env = record {
  now = 60;
  fetch = timed_out;
  spawns = true;
  flushes = true;
  throws = λ h. false;
  custom = λ m. false;
}

abbrev working : Coordinator
working = record Coordinator.new { configured = true; pending_items = 1 }

handle-receive_example :
    Marked their_env
      (handle_success env (job 1))
      (Coordinator.receive their_env (job_succeeded (job 1)) working)
      working
    × Marked their_env
        (handle_failure env (job 1))
        (Coordinator.receive their_env (job_failed (job 1)) working)
        working
handle-receive_example = handle-receive env their_env (job 1) working (λ m. refl) refl refl
