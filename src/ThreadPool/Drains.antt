-- ===== src/ThreadPool/Drains.antt =====
-- The loop of an executor of GlutenFree.OddJob.Execution.ThreadPool/Class1.cs, as it is constructed, and
-- the handler of jobs' ends beside the coordinator of OddJob.Execution.Akka.
use odd_job.Prelude.{
  ◌≡◌, refl, ap, ◌∙◌, inl, inr, Bool, true, false, Option, some, List, [], ◌∷◌, Bool-cases,
  if-false,
}
use odd_job.Coordinator
use odd_job.Coordinator.{
  Job, Effect, Hook, Coordinator, gives_up, execute_job, mark_success, mark_failed,
  mark_retry_and_increment, call, call_hook, on_job_success, on_job_failed, on_job_retry, int_sub,
  job_failed, job_succeeded,
}
use odd_job.Coordinator.Retry.{end_with_gives_up}
use odd_job.ThreadPool.{
  Env, Pool, handle_success, handle_failure, run_job, drain_from, loop_turn, new_executor,
}

-- A turn of an executor as it is constructed ends with an exception at the first job of the queue,
-- after that has run, whether or not it succeeded: no mark is made, and the job stays counted as
-- pending.
pub loop_turn-new_executor :
    (env : Env) (p : Pool) (job : Job) (jobs : List Job)
    → p.cancelled ≡ false
    → p.job_queue ≡ job ∷ jobs
    → loop_turn env new_executor p ≡ (execute_job job ∷ [], (record p { job_queue = jobs }, true))
unfolding loop_turn drain_from run_job new_executor
loop_turn-new_executor env p job jobs going queue =
    if-false _ _ going
    ∙ ap (λ l. drain_from env new_executor l p) queue
    ∙ elim (Bool-cases (env.job_throws job)) [ inl t ↦ rw t refl | inr f ↦ rw f refl ]

-- A job that a store marks once, with one hook.
pub record Marked (env : Coordinator.Env) (ours : List Effect × Bool)
    (theirs : Option Coordinator.Outcome) (before : Coordinator) : Type 0 where
  pub the_mark : Effect
  pub the_hook : Hook
  pub ours_is : ours ≡ (the_mark ∷ call the_hook ∷ [], false)
  pub theirs_is :
      theirs
      ≡ some (
        record before { pending_items = int_sub before.pending_items 1 },
        the_mark ∷ call_hook env the_hook,
        true,
      )

-- The handler and a configured coordinator of the actor system treat a job's end alike, where both
-- read the same time and the store takes the mark: they send the same mark and call the same hook.
pub handle-receive :
    (env : Env) (their_env : Coordinator.Env) (job : Job) (before : Coordinator)
    → ((m : Effect) → env.mark_throws m ≡ false)
    → env.now ≡ their_env.now
    → before.configured ≡ true
    → Marked their_env
        (handle_success env job)
        (Coordinator.receive their_env (job_succeeded job) before)
        before
      × Marked their_env
          (handle_failure env job)
          (Coordinator.receive their_env (job_failed job) before)
          before
unfolding handle_success handle_failure
handle-receive env their_env job before store time configured =
    let (won, lost) = end_with_gives_up their_env job before configured in
    (
      record {
        the_mark = mark_success job.job_id;
        the_hook = on_job_success job;
        ours_is = rw (store (mark_success job.job_id)) refl;
        theirs_is = won;
      },
      elim (Bool-cases (gives_up job.retry_parameters)) [
        | inl t ↦ record {
          the_mark = mark_failed job.job_id;
          the_hook = on_job_failed job;
          ours_is = rw (t, store (mark_failed job.job_id)) refl;
          theirs_is = lost ∙ rw t refl;
        }
        | inr f ↦ record {
          the_mark = mark_retry_and_increment job.job_id their_env.now;
          the_hook = on_job_retry job;
          ours_is =
              rw (f, store (mark_retry_and_increment job.job_id env.now))
                (ap
                  (λ n.
                    (mark_retry_and_increment job.job_id n ∷ call (on_job_retry job) ∷ [], false))
                  time);
          theirs_is = lost ∙ rw f refl;
        }
      ],
    )
