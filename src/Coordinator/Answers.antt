-- ===== src/Coordinator/Answers.antt =====
-- The answer to the shutdown of JobQueueCoordinator (OddJob.Execution.Akka/JobQueueCoordinator.cs):
-- when every worker has reported, the requester is answered, once.
use odd_job.Prelude.{
  ℕ, ◌+◌, ◌^◌, ◌<◌, ◌≡◌, ◌≢◌, ◌⊎◌, refl, subst, Bool, true, false, not, Option, none, some, List,
  [], ◌∷◌, ◌++◌, arith, Option-cases, Bool-cases, if◌then◌else◌, inl, inr, ltb, leb, ◌&&◌, ◌==◌,
}
use odd_job.Coordinator.{
  Effect, Env, Coordinator, Message, set_configuration, queue_shut_down, job_sweep,
  silent_retry_sweep, Outcome, on_sweep, on_failed, on_succeeded, on_shut_down, on_queue_shut_down,
  broadcast_shut_down, receive, shut_down_queues,
}
use odd_job.Coordinator.Traces.{answers, handle_sweep-IsPulse}
use odd_job.Coordinator.Shutdown.{run, answers-append, IsNotConfiguration, NoConfiguration}

abbrev pub is_report : Message → ℕ
is_report queue_shut_down = 1
is_report _ = 0

-- The workers' shutdown reports among the messages.
abbrev pub worker_reports : List (Env × Message) → ℕ
worker_reports [] = 0
worker_reports ((_, m) ∷ ms) = is_report m + worker_reports ms

-- 1 if the count passes the number of workers between two values, else 0.
abbrev pub crossed : ℕ → ℕ → ℕ → ℕ
crossed workers before after = if ltb before workers && leb workers after then 1 else 0

receive-shutdown_count :
    (env : Env) (m : Message) (c : Coordinator) {o : Outcome}
    → IsNotConfiguration m
    → c.pending_items < 2 ^ 32
    → c.shutdown_count + is_report m < 2 ^ 32
    → receive env m c ≡ some o
    → (o.0.shutdown_count ≡ c.shutdown_count + is_report m)
      × (o.0.worker_count ≡ c.worker_count)
      × (o.0.pending_items < 2 ^ 32)
      × (answers o.1 ≡ crossed c.worker_count c.shutdown_count (c.shutdown_count + is_report m))
unfolding receive on_shut_down on_queue_shut_down on_failed on_succeeded on_sweep
receive-shutdown_count env (set_configuration k) c n p b e = absurd n
receive-shutdown_count env job_sweep c n p b e = ground (arith, handle_sweep-IsPulse env false c p)
receive-shutdown_count env silent_retry_sweep c n p b e =
    ground (arith, handle_sweep-IsPulse env true c p)
receive-shutdown_count env _ c n p b e = ground arith

-- Whether the report, if there is one, that takes the count up to the number of workers comes when
-- the store's actor answers its shutdown.
unfoldable pub last_report_flushes : ℕ → ℕ → List (Env × Message) → Bool
last_report_flushes workers count [] = true
last_report_flushes workers count ((env, m) ∷ ms) =
    let rest = last_report_flushes workers (count + is_report m) ms in
    if (is_report m == 1) && ((count + is_report m == workers) && not env.flushes)
    then false
    else rest

-- A coordinator that is shutting down with someone to answer.
pub record IsStopping (c : Coordinator) : Type 0 where
  pub configured : c.configured ≡ true
  pub has_requester : c.has_requester ≡ true

receive-IsStopping :
    (env : Env) (m : Message) (c : Coordinator) {o : Outcome}
    → IsStopping c
    → IsNotConfiguration m
    → c.pending_items < 2 ^ 32
    → receive env m c ≡ some o
    → (o.0.configured ≡ true) × (o.0.has_requester ≡ true)
unfolding receive on_shut_down on_queue_shut_down on_failed on_succeeded on_sweep
receive-IsStopping env (set_configuration k) c s n p e = absurd n
receive-IsStopping env job_sweep c s n p e =
    ground (arith, handle_sweep-IsPulse env false c p, s.configured, s.has_requester)
receive-IsStopping env silent_retry_sweep c s n p e =
    ground (arith, handle_sweep-IsPulse env true c p, s.configured, s.has_requester)
receive-IsStopping env _ c s n p e = ground (arith, s.configured, s.has_requester)

-- The report that takes the count up while the store's actor does not answer.
abbrev is_lost : Env → Message → Coordinator → Bool
is_lost env m c =
    (is_report m == 1) && ((c.shutdown_count + is_report m == c.worker_count) && not env.flushes)

not_thrown :
    (env : Env) (m : Message) (c : Coordinator)
    → IsStopping c
    → IsNotConfiguration m
    → c.shutdown_count + is_report m < 2 ^ 32
    → is_lost env m c ≡ false
    → receive env m c ≢ none
unfolding receive on_shut_down on_queue_shut_down on_failed on_succeeded on_sweep
not_thrown env (set_configuration k) c s n b f e = n
not_thrown env _ c s n b f e = ground (arith, s.configured, s.has_requester)

thrown :
    (env : Env) (m : Message) (c : Coordinator)
    → IsStopping c
    → IsNotConfiguration m
    → c.shutdown_count + is_report m < 2 ^ 32
    → is_lost env m c ≡ true
    → receive env m c ≡ none
unfolding receive on_shut_down on_queue_shut_down
thrown env queue_shut_down c s n b f = ground (arith, s.configured, s.has_requester)
thrown env (set_configuration k) c s n b f = absurd n
thrown env _ c s n b f = absurd (ground arith)

run-thrown :
    (env : Env) (m : Message) (ms : List (Env × Message)) (c : Coordinator)
    → receive env m c ≡ none
    → run ((env, m) ∷ ms) c ≡ none
unfolding run
run-thrown env m ms c e = rw (run, e) refl

run-goes_on :
    (env : Env) (m : Message) (ms : List (Env × Message)) (c : Coordinator) (o : Outcome)
    → receive env m c ≡ some o
    → (run ms o.0 ≡ none → run ((env, m) ∷ ms) c ≡ none)
      × ((c2 : Coordinator) (es : List Effect)
          → run ms o.0 ≡ some (c2, es)
          → run ((env, m) ∷ ms) c ≡ some (c2, o.1 ++ es))
unfolding run
run-goes_on env m ms c o e = ((λ n. rw (run, e, n) refl), (λ c2 es r. rw (run, e, r) refl))

-- The two ways in which messages end: all handled, with the answer if the reports take the count up
-- to the number of workers, or an exception where the store's actor does not answer that report.
abbrev pub Answered : Option (Coordinator × List Effect) → ℕ → ℕ → List (Env × Message) → Type 0
Answered after workers count ms =
    ((last_report_flushes workers count ms ≡ true)
      × (c2 : Coordinator) × (es : List Effect) × (after ≡ some (c2, es))
      × (c2.shutdown_count ≡ count + worker_reports ms)
      × (answers es ≡ crossed workers count (count + worker_reports ms)))
    ⊎ ((last_report_flushes workers count ms ≡ false) × (after ≡ none))

run-Answered :
    (ms : List (Env × Message)) (c : Coordinator)
    → IsStopping c
    → NoConfiguration ms
    → c.pending_items < 2 ^ 32
    → c.shutdown_count + worker_reports ms < 2 ^ 32
    → Answered (run ms c) c.worker_count c.shutdown_count ms
unfolding run last_report_flushes
run-Answered [] c s n p b = inl (refl, c, [], refl, omega arith, ground arith)
run-Answered ((env, m) ∷ ms) c s n p b = elim (Bool-cases (is_lost env m c)) [
  | inl t ↦ inr (
    rw (last_report_flushes, t) refl,
    run-thrown env m ms c (thrown env m c s n.0 (omega arith) t),
  )
  | inr f ↦ elim (Option-cases (receive env m c)) [
    | inl e ↦ absurd (not_thrown env m c s n.0 (omega arith) f e)
    | inr (o, e) ↦
        let (k1, w1, p1, a1) = receive-shutdown_count env m c n.0 p (omega arith) e in
        let (on, asked) = receive-IsStopping env m c s n.0 p e in
        let later =
          run-Answered ms o.0 (record { configured = on; has_requester = asked }) n.1 p1
            (omega arith) in
        let (stops, goes) = run-goes_on env m ms c o e in
        elim (subst (λ w. Answered (run ms o.0) w (c.shutdown_count + is_report m) ms) w1
          (subst (λ k. Answered (run ms o.0) o.0.worker_count k ms) k1 later)) [
            | inl (fl, c2, es, r, k2, a2) ↦ inl (
              rw (last_report_flushes, f) fl,
              c2,
              o.1 ++ es,
              goes c2 es r,
              omega arith,
              ground (arith, answers-append o.1 es),
            )
            | inr (fl, r) ↦ inr (rw (last_report_flushes, f) fl, stops r)
          ]
  ]
]

shut_down_queues-handled :
    (env : Env) (c : Coordinator)
    → c.configured ≡ true
    → receive env shut_down_queues c
      ≡ some
          (record c { has_requester = true; shutting_down = true }, broadcast_shut_down ∷ [], true)
unfolding receive on_shut_down
shut_down_queues-handled env c k = rw k refl

-- A configured coordinator, whose pending count is an `int`, is told to shut down, and further messages
-- follow, in any order, that bring no configuration and do not overflow the counter of reports.
-- Unless the store's actor fails to answer at the report that takes the count up to the number of
-- workers, every message is handled, the count grows by the reports, and the requester is answered
-- exactly once if the reports take the count up to the number of workers, and otherwise not at all.
-- If it fails to answer there, an exception ends the run.
pub shut_down_queues-Answered :
    (env : Env) (ms : List (Env × Message)) (c : Coordinator)
    → c.configured ≡ true
    → NoConfiguration ms
    → c.pending_items < 2 ^ 32
    → c.shutdown_count + worker_reports ms < 2 ^ 32
    → Answered (run ((env, shut_down_queues) ∷ ms) c) c.worker_count c.shutdown_count ms
shut_down_queues-Answered env ms c k n p b =
    let s : Coordinator = record c { has_requester = true; shutting_down = true } in
    let (stops, goes) =
      run-goes_on env shut_down_queues ms c (s, _, true) (shut_down_queues-handled env c k) in
    elim (run-Answered ms s (record { configured = k; has_requester = refl }) n p b) [
      | inl (fl, c2, es, r, k2, a2) ↦ inl (fl, c2, broadcast_shut_down ∷ es, goes c2 es r, k2, a2)
      | inr (fl, r) ↦ inr (fl, stops r)
    ]
