-- ===== src/WorkerActor/Reports.antt =====
-- What a worker (OddJob.Execution.Akka/JobWorkerActor.cs) reports of the jobs that it is given.
use odd_job.Prelude.{◌≡◌, refl, ap, true, false, List, [], ◌∷◌, Bool-cases, inl, inr}
use odd_job.Coordinator.{Job, Message, job_succeeded, job_failed}
use odd_job.WorkerActor.{Request, Executor, run_job, receive, run, execute_job_request}
use odd_job.SortedList.{All}
use odd_job.WorkerActor

-- The jobs of the requests, and those of the reports.
abbrev pub given : List Request → List Job
given [] = []
given (execute_job_request job ∷ mailbox) = job ∷ given mailbox
given (WorkerActor.shut_down_queues ∷ mailbox) = given mailbox
given (WorkerActor.other ∷ mailbox) = given mailbox

abbrev pub reported : List Message → List Job
reported [] = []
reported (job_succeeded job ∷ ms) = job ∷ reported ms
reported (job_failed job ∷ ms) = job ∷ reported ms
reported (_ ∷ ms) = reported ms

-- A success is a job whose execution returned, a failure one whose execution threw.
abbrev pub IsTrue : Executor → Message → Type 0
IsTrue executor (job_succeeded job) = executor.returns job ≡ true
IsTrue executor (job_failed job) = executor.returns job ≡ false
IsTrue executor _ = Unit

-- A worker reports each job that it is given, once, in the order given, and no other job; a report of
-- success is of a job whose execution returned, and one of failure of a job whose execution threw.
pub run-reported :
    (executor : Executor) (mailbox : List Request)
    → (reported (run executor mailbox) ≡ given mailbox)
      × All (IsTrue executor) (run executor mailbox)
unfolding run receive run_job
run-reported executor [] = (refl, tt)
run-reported executor (WorkerActor.shut_down_queues ∷ mailbox) =
    let (same, right) = run-reported executor mailbox in (same, (tt, right))
run-reported executor (WorkerActor.other ∷ mailbox) = run-reported executor mailbox
run-reported executor (execute_job_request job ∷ mailbox) =
    let (same, right) = run-reported executor mailbox in
    elim (Bool-cases (executor.returns job)) [
      | inl t ↦ rw (t, run, receive, run_job) (ap (λ r. job ∷ r) same, (t, right))
      | inr f ↦ rw (f, run, receive, run_job) (ap (λ r. job ∷ r) same, (f, right))
    ]
