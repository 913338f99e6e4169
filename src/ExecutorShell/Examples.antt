-- ===== src/ExecutorShell/Examples.antt =====
-- Runs of the shell.
use odd_job.Prelude.{ℕ, ◌≡◌, refl, true, false, none, some, [], ◌∷◌, ◌==◌, not, if◌then◌else◌}
use odd_job.ExecutorShell.{
  get_value, contains_key, Settings, World, Shell, configured, start_job_queue, dispose, new_shell,
  configure, pool_coordinator, start_pulses, add_pulses, add,
}
use odd_job.ExecutorShell.Pools.{
  IsPooled, start, stop, end_all, apply, apply_all, apply_all-IsPooled,
}
use odd_job.ExecutorShell.Disposal.{dispose-Emptied}
use odd_job.ExecutorShell.Unanswered.{has_terminate, dispose-unanswered}
use odd_job.ExecutorShell.Starts.{Started, start_job_queue-Started}

abbrev settings : Settings
settings = record {
  num_workers = 2;
  pulse_delay_in_seconds = 10;
  first_pulse_delay_in_seconds = 5;
  priority_expression = none;
  aggressive_sweep = false;
}

-- A system in which all goes well, with an actor that it makes next.
abbrev going : ℕ → World
going actor = record {
  actor_of = some actor;
  configuration_reply = configured;
  scheduler_throws = false;
  answers = λ c. true;
  terminate_throws = false;
}

abbrev refusing : World
refusing = record (going 12) { scheduler_throws = true }

abbrev silent : World
silent = record (going 14) { answers = λ c. not (c == 11) }

-- Queues 1 and 3 with pulses, and queue 2 without.
abbrev three_calls : Shell
three_calls =
    apply_all
      (start (going 11) 1 settings ∷ start refusing 2 settings ∷ start (going 13) 3 settings ∷ [])
      new_shell

three_calls-IsPooled : IsPooled three_calls
three_calls-IsPooled =
    apply_all-IsPooled
      (start (going 11) 1 settings ∷ start refusing 2 settings ∷ start (going 13) 3 settings ∷ [])

queue_4-absent : contains_key 4 three_calls.coordinator_pool ≡ false
unfolding apply_all apply start_job_queue configure pool_coordinator start_pulses add_pulses add
    get_value
queue_4-absent = refl

queue_1-pulses : contains_key 1 three_calls.cancel_pulse_pool ≡ true
unfolding apply_all apply start_job_queue configure pool_coordinator start_pulses add_pulses add
    get_value
queue_1-pulses = refl

queue_1-pooled : get_value 1 three_calls.coordinator_pool ≡ some 11
unfolding apply_all apply start_job_queue configure pool_coordinator start_pulses add_pulses add
    get_value
queue_1-pooled = refl

-- Queue 2 has a coordinator and no pulses.
queue_2-quiet :
    (get_value 2 three_calls.coordinator_pool ≡ some 12)
    × (get_value 2 three_calls.cancel_pulse_pool ≡ none)
unfolding apply_all apply start_job_queue configure pool_coordinator start_pulses add_pulses add
    get_value
queue_2-quiet = (refl, refl)

apply_all-IsPooled_example : IsPooled (
    apply_all
      (start (going 11) 1 settings
        ∷ start refusing 2 settings
        ∷ stop silent 1
        ∷ end_all silent
        ∷ [])
      new_shell)
apply_all-IsPooled_example =
    apply_all-IsPooled (
      start (going 11) 1 settings ∷ start refusing 2 settings ∷ stop silent 1 ∷ end_all silent ∷ [])

start_job_queue-Started_example :
    Started refusing (some 12) 4 three_calls (start_job_queue refusing 4 settings three_calls)
start_job_queue-Started_example =
    start_job_queue-Started refusing 4 settings three_calls three_calls-IsPooled queue_4-absent

dispose-Emptied_example :
    ((dispose (going 14) three_calls).throws ≡ false)
    × ((k : ℕ) → get_value k (dispose (going 14) three_calls).shell.cancel_pulse_pool ≡ none)
    × ((k : ℕ)
        → get_value k (dispose (going 14) three_calls).shell.coordinator_pool ≡ (
            if contains_key k three_calls.cancel_pulse_pool
            then none
            else get_value k three_calls.coordinator_pool))
dispose-Emptied_example = dispose-Emptied (going 14) (λ c. refl) three_calls three_calls-IsPooled

dispose-unanswered_example :
    ((dispose silent three_calls).throws ≡ true)
    × (has_terminate (dispose silent three_calls).requests ≡ false)
dispose-unanswered_example =
    dispose-unanswered silent 1 11 refl three_calls queue_1-pulses queue_1-pooled
