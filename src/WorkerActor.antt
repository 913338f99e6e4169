-- ===== src/WorkerActor.antt =====
-- OddJob.Execution.Akka/JobWorkerActor.cs: the actor that runs jobs. The executor is its parameter:
-- whether the execution of a job returns or throws.
pub mod Reports
mod Examples
use odd_job.Prelude.{Bool, true, false, List, [], ◌∷◌, ◌++◌, if◌then◌else◌}
use odd_job.Coordinator.{Job, Message, job_succeeded, job_failed, queue_shut_down}

pub data Request : Type 0 where
  shut_down_queues : Request
  execute_job_request : Job → Request
  other : Request

-- `JobExecutor.ExecuteJob`: true if it returns.
pub record Executor : Type 0 where
  pub returns : Job → Bool

-- `RunJob`: what is told to the sender, the coordinator.
unfoldable pub run_job : Executor → Job → List Message
run_job executor job = if executor.returns job then job_succeeded job ∷ [] else job_failed job ∷ []

-- `Receive`: whether the message was handled, and what the sender is told.
unfoldable pub receive : Executor → Request → Bool × List Message
receive executor shut_down_queues = (true, queue_shut_down ∷ [])
receive executor (execute_job_request job) = (true, run_job executor job)
receive executor other = (false, [])

-- The mailbox, one message after the other.
unfoldable pub run : Executor → List Request → List Message
run executor [] = []
run executor (m ∷ mailbox) = (receive executor m).1 ++ run executor mailbox
