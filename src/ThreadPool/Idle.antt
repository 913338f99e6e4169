-- ===== src/ThreadPool/Idle.antt =====
-- The engine of GlutenFree.OddJob.Execution.ThreadPool/Class1.cs as its constructors make it.
use odd_job.Prelude.{
  ℕ, ◌≡◌, refl, sym, ap, ◌∙◌, inl, inr, Bool, true, false, Option, none, some, List, [], ◌∷◌, ◌++◌,
  if◌then◌else◌, not, Bool-cases, if-true, if-false, subst,
}
use odd_job.Coordinator.{Effect}
use odd_job.ThreadPool.{
  Env, Pool, Filler, Executor, new_filler, new_executor, new_pool, shut_down_queue, pulse_queue,
  drain_from, loop_turn,
}

-- What happens to the engine: the timer's pulse, a turn of an executor's loop, and a shutdown.
pub data Event : Type 0 where
  pulsed : Env → Event
  turned : Env → Event
  shut_down : Event

-- The process, which an exception on the timer's or an executor's thread ends.
pub record Process : Type 0 where
  pub pool : Pool
  pub filler : Filler
  pub executor : Executor
  pub crashed : Bool

unfoldable pub new_process : ℕ → ℕ → Process
new_process queue_name worker_count = record {
  pool = new_pool queue_name worker_count;
  filler = new_filler queue_name worker_count;
  executor = new_executor;
  crashed = false;
}

abbrev pub after_pulse : Process → Option (List Effect × (Filler × Pool)) → List Effect × Process
after_pulse s none = ([], record s { crashed = true })
after_pulse s (some (effects, (f, p))) = (effects, record s { filler = f; pool = p })

abbrev pub after_turn : Process → List Effect × (Pool × Bool) → List Effect × Process
after_turn s (effects, (p, throws)) = (effects, record s { pool = p; crashed = throws })

unfoldable pub step : Event → Process → List Effect × Process
step (pulsed env) s =
    if s.pool.timer_runs then after_pulse s (pulse_queue env s.filler s.pool) else ([], s)
step (turned env) s = after_turn s (loop_turn env s.executor s.pool)
step shut_down s = ([], record s { pool = shut_down_queue s.pool })

unfoldable pub run : List Event → Process → List Effect × Process
run [] s = ([], s)
run (event ∷ events) s =
    let now = step event s in
    let later = run events now.1 in if s.crashed then ([], s) else (now.0 ++ later.0, later.1)

-- Nothing to run, and no way to fetch.
record IsIdle (s : Process) : Type 0 where
  empty : s.pool.job_queue ≡ []
  going : s.pool.cancelled ≡ false
  no_coordinator : s.filler.has_coordinator ≡ false

pulse_queue-throws :
    (env : Env) (f : Filler) (p : Pool)
    → p.cancelled ≡ false
    → f.has_coordinator ≡ false
    → pulse_queue env f p ≡ none
unfolding pulse_queue
pulse_queue-throws env f p going no_coordinator =
    if-false _ _ going ∙ if-true _ _ (ap not no_coordinator)

step-IsIdle :
    (event : Event) (s : Process) → IsIdle s → ((step event s).0 ≡ []) × IsIdle (step event s).1
unfolding step loop_turn drain_from shut_down_queue
step-IsIdle (pulsed env) s ok =
    let same : List Effect × Process → Type 0 = λ r. (r.0 ≡ []) × IsIdle r.1 in
    let crash : IsIdle (record s { crashed = true }) = record {
      empty = ok.empty;
      going = ok.going;
      no_coordinator = ok.no_coordinator;
    } in
    elim (Bool-cases s.pool.timer_runs) [
      | inl t ↦
          let e =
            if-true (after_pulse s (pulse_queue env s.filler s.pool)) ([], s) t
            ∙ ap (after_pulse s)
                (pulse_queue-throws env s.filler s.pool ok.going ok.no_coordinator) in
          subst same (sym e) (refl, crash)
      | inr f ↦
          subst same (sym (if-false (after_pulse s (pulse_queue env s.filler s.pool)) ([], s) f))
            (refl, ok)
    ]
step-IsIdle (turned env) s ok =
    let same : List Effect × Process → Type 0 = λ r. (r.0 ≡ []) × IsIdle r.1 in
    let p = s.pool in
    let e =
      if-false ([], (p, false)) (drain_from env s.executor p.job_queue p) ok.going
      ∙ ap (λ jobs. drain_from env s.executor jobs p) ok.empty in
    subst same (sym (ap (after_turn s) e))
      (refl, record { empty = refl; going = ok.going; no_coordinator = ok.no_coordinator })
step-IsIdle shut_down s ok =
    (refl, record { empty = ok.empty; going = ok.going; no_coordinator = ok.no_coordinator })

run-IsIdle : (events : List Event) (s : Process) → IsIdle s → (run events s).0 ≡ []
unfolding run
run-IsIdle [] s ok = refl
run-IsIdle (event ∷ events) s ok =
    let (none_now, kept) = step-IsIdle event s ok in
    let none_later = run-IsIdle events (step event s).1 kept in
    let now = step event s in
    let later = run events now.1 in
    elim (Bool-cases s.crashed) [
      | inl t ↦
          ap (λ (r : List Effect × Process). r.0) (if-true ([], s) (now.0 ++ later.0, later.1) t)
      | inr f ↦
          ap (λ (r : List Effect × Process). r.0) (if-false ([], s) (now.0 ++ later.0, later.1) f)
          ∙ ap (λ l. l ++ later.0) none_now
          ∙ none_later
    ]

-- Whatever happens to an engine from its construction on, it does nothing: it asks the store for no
-- job, runs none and marks none.
pub run-new_process :
    (events : List Event) (queue_name worker_count : ℕ)
    → (run events (new_process queue_name worker_count)).0 ≡ []
unfolding new_process new_pool new_filler
run-new_process events queue_name worker_count =
    run-IsIdle events (new_process queue_name worker_count)
      (record { empty = refl; going = refl; no_coordinator = refl })
