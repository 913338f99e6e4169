-- ===== src/WorkerActor/Examples.antt =====
-- A run of a worker.
use odd_job.Prelude.{ℕ, ◌≡◌, none, some, [], ◌∷◌, List, ◌==◌, not}
use odd_job.SortedList.{All}
use odd_job.Coordinator.{Job}
use odd_job.WorkerActor.{Request, Executor, run, execute_job_request, shut_down_queues}
use odd_job.WorkerActor.Reports.{reported, IsTrue, run-reported}

abbrev job : ℕ → Job
job n = record { job_id = n; type_executed_on = some 0; retry_parameters = none }

abbrev fails_at_2 : Executor
fails_at_2 = record { returns = λ j. not (j.job_id == 2) }

abbrev mailbox : List Request
mailbox = execute_job_request (job 1) ∷ execute_job_request (job 2) ∷ shut_down_queues ∷ []

run-reported_example :
    (reported (run fails_at_2 mailbox) ≡ job 1 ∷ job 2 ∷ [])
    × All (IsTrue fails_at_2) (run fails_at_2 mailbox)
run-reported_example = run-reported fails_at_2 mailbox
