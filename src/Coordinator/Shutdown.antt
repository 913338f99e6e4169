-- ===== src/Coordinator/Shutdown.antt =====
-- The shutdown of JobQueueCoordinator (OddJob.Execution.Akka/JobQueueCoordinator.cs): no work is
-- taken on after it, and the requester is answered once, when every worker has reported.
use odd_job.Prelude.{
  ◌+◌, ◌≡◌, ◌⊎◌, refl, sym, subst, ap, true, false, Option, none, some, List, [], ◌∷◌, ◌++◌, arith,
  ◌∙◌, Option-cases, inl, inr,
}
use odd_job.Coordinator.{
  Effect, Env, Coordinator, Message, set_configuration, Outcome, on_sweep, on_configuration,
  on_failed, on_succeeded, on_shut_down, on_queue_shut_down, receive, tell_requester, new,
  handle_sweep, saturated_sweep, shut_down_queues,
}
use odd_job.Coordinator.Sweep.{executed, fetches}
use odd_job.Coordinator.Traces.{answers}

-- Messages in the order of the mailbox, each with what its handling meets. `none` is a restart.
unfoldable pub run : List (Env × Message) → Coordinator → Option (Coordinator × List Effect)
run [] c = some (c, [])
run ((env, m) ∷ ms) c = elim (receive env m c) [
  | none ↦ none
  | some (c1, es, _) ↦ elim (run ms c1) [ none ↦ none | some (c2, es') ↦ some (c2, es ++ es') ]
]

-- Takes a run of a first message and the rest apart.
pub run-cons :
    (env : Env) (m : Message) (ms : List (Env × Message)) (c : Coordinator) {c2 : Coordinator}
    {all : List Effect}
    → run ((env, m) ∷ ms) c ≡ some (c2, all)
    → (o : Outcome) × (rest : List Effect) × (receive env m c ≡ some o)
      × (run ms o.0 ≡ some (c2, rest))
      × (all ≡ o.1 ++ rest)
unfolding run
run-cons env m ms c e = elim (Option-cases (receive env m c)) [
  | inl h ↦ absurd (ground arith)
  | inr (o, h) ↦ elim (Option-cases (run ms o.0)) [
    | inl k ↦ absurd (ground arith)
    | inr ((c3, rest), k) ↦ (o, rest, h, ground arith, ground arith)
  ]
]

executed-append : (xs ys : List Effect) → executed (xs ++ ys) ≡ executed xs ++ executed ys
executed-append [] ys = refl
executed-append (Effect.execute_job j ∷ xs) ys = ap (λ r. j ∷ r) (executed-append xs ys)
executed-append (_ ∷ xs) ys = executed-append xs ys

fetches-append : (xs ys : List Effect) → fetches (xs ++ ys) ≡ fetches xs + fetches ys
fetches-append [] ys = omega arith
fetches-append (Effect.ask_get_jobs q n ∷ xs) ys = omega (arith, fetches-append xs ys)
fetches-append (_ ∷ xs) ys = fetches-append xs ys

pub answers-append : (xs ys : List Effect) → answers (xs ++ ys) ≡ answers xs + answers ys
answers-append [] ys = omega arith
answers-append (tell_requester ∷ xs) ys = omega (arith, answers-append xs ys)
answers-append (_ ∷ xs) ys = answers-append xs ys

-- While shutting down, a message neither ends that state nor takes work on.
receive-shutting_down :
    (env : Env) (m : Message) (c : Coordinator) {o : Outcome}
    → c.shutting_down ≡ true
    → receive env m c ≡ some o
    → (o.0.shutting_down ≡ true) × (executed o.1 ≡ []) × (fetches o.1 ≡ 0)
unfolding receive on_configuration on_shut_down on_queue_shut_down on_failed on_succeeded on_sweep
receive-shutting_down env (set_configuration k) c s e = ground arith
receive-shutting_down env _ c s e = ground arith

run-quiet :
    (ms : List (Env × Message)) (c : Coordinator) {c2 : Coordinator} {es : List Effect}
    → c.shutting_down ≡ true
    → run ms c ≡ some (c2, es)
    → (executed es ≡ []) × (fetches es ≡ 0)
run-quiet [] c s e = unfold run in ground arith
run-quiet ((env, m) ∷ ms) c s e =
    let (o, rest, first, then_run, joined) = run-cons env m ms c e in
    let (s1, x1, f1) = receive-shutting_down env m c s first in
    let (x2, f2) = run-quiet ms o.0 s1 then_run in
    (
      rw joined (rw (executed-append o.1 rest, x1, x2)),
      rw joined (omega (arith, fetches-append o.1 rest)),
    )

abbrev pub IsNotConfiguration : Message → Type 0
IsNotConfiguration (set_configuration _) = ⊥
IsNotConfiguration _ = Unit

abbrev pub NoConfiguration : List (Env × Message) → Type 0
NoConfiguration [] = Unit
NoConfiguration ((_, m) ∷ ms) = IsNotConfiguration m × NoConfiguration ms

-- Messages where an exception restarts the actor: a new one takes the rest of the mailbox. What a
-- handler did before its exception is left out: it is at most the question to the store at the end.
unfoldable pub keep_running : List (Env × Message) → Coordinator → List Effect
keep_running [] c = []
keep_running ((env, m) ∷ ms) c =
    let restarted = keep_running ms new in
    elim (receive env m c) [ none ↦ restarted | some (c1, es, _) ↦ es ++ keep_running ms c1 ]

-- The actor is shutting down, or it was restarted and has no workers.
record IsOff (c : Coordinator) : Type 0 where
  pub off :
      (c.shutting_down ≡ true)
      ⊎ ((c.configured ≡ false) × (c.worker_count ≡ 0) × (c.pending_items ≡ 0))

receive-unconfigured :
    (env : Env) (m : Message) (c : Coordinator) {o : Outcome}
    → IsNotConfiguration m
    → c.configured ≡ false
    → c.worker_count ≡ 0
    → c.pending_items ≡ 0
    → receive env m c ≡ some o
    → (o.0.configured ≡ false)
      × (o.0.worker_count ≡ 0)
      × (o.0.pending_items ≡ 0)
      × (executed o.1 ≡ [])
      × (fetches o.1 ≡ 0)
unfolding receive on_configuration on_shut_down on_queue_shut_down on_failed on_succeeded on_sweep
    handle_sweep saturated_sweep
receive-unconfigured env (set_configuration k) c n k0 w p e = absurd n
receive-unconfigured env _ c n k w p e = ground arith

IsQuiet : List Effect → Type 0
IsQuiet es = (executed es ≡ []) × (fetches es ≡ 0)

-- Whatever comes while it is off, it stays off.
receive-IsOff :
    (env : Env) (m : Message) (c : Coordinator) {o : Outcome}
    → IsNotConfiguration m
    → IsOff c
    → receive env m c ≡ some o
    → IsOff o.0 × IsQuiet o.1
unfolding IsQuiet
receive-IsOff env m c n h e = elim h.off [
  | inl s ↦ let (s1, x, f) = receive-shutting_down env m c s e in (record { off = inl s1 }, (x, f))
  | inr (k, w, p) ↦
      let (k1, w1, p1, x, f) = receive-unconfigured env m c n k w p e in
      (record { off = inr (k1, w1, p1) }, (x, f))
]

new-IsOff : IsOff new
unfolding new
new-IsOff = record { off = inr (refl, refl, refl) }

keep_running-thrown :
    (env : Env) (m : Message) (ms : List (Env × Message)) (c : Coordinator)
    → receive env m c ≡ none
    → keep_running ((env, m) ∷ ms) c ≡ keep_running ms new
unfolding keep_running
keep_running-thrown env m ms c e = rw (keep_running, e) refl

keep_running-handled :
    (env : Env) (m : Message) (ms : List (Env × Message)) (c : Coordinator) (o : Outcome)
    → receive env m c ≡ some o
    → keep_running ((env, m) ∷ ms) c ≡ o.1 ++ keep_running ms o.0
unfolding keep_running
keep_running-handled env m ms c o e = rw (keep_running, e) refl

IsQuiet-append : (xs ys : List Effect) → IsQuiet xs → IsQuiet ys → IsQuiet (xs ++ ys)
unfolding IsQuiet
IsQuiet-append xs ys h k = (
  executed-append xs ys ∙ ap (λ l. l ++ executed ys) h.0 ∙ k.0,
  omega (arith, fetches-append xs ys, h.1, k.1),
)

keep_running-IsQuiet :
    (ms : List (Env × Message)) (c : Coordinator)
    → NoConfiguration ms
    → IsOff c
    → IsQuiet (keep_running ms c)
unfolding IsQuiet
keep_running-IsQuiet [] c n h = unfold keep_running in (refl, refl)
keep_running-IsQuiet ((env, m) ∷ ms) c n h = elim (Option-cases (receive env m c)) [
  | inl e ↦
      subst IsQuiet (sym (keep_running-thrown env m ms c e))
        (keep_running-IsQuiet ms new n.1 new-IsOff)
  | inr (o, e) ↦
      let (off, quiet) = receive-IsOff env m c n.0 h e in
      subst IsQuiet (sym (keep_running-handled env m ms c o e))
        (IsQuiet-append o.1 (keep_running ms o.0) quiet (keep_running-IsQuiet ms o.0 n.1 off))
]

on_shut_down-shutting_down :
    (env : Env) (c : Coordinator) {o : Outcome}
    → receive env shut_down_queues c ≡ some o
    → o.0.shutting_down ≡ true
unfolding receive on_shut_down
on_shut_down-shutting_down env c e = ground arith

-- Once the coordinator has handled `ShutDownQueues`, no worker is given a job and the store is not
-- asked for jobs. This holds for messages `ms` that no handler throws on, also where they configure
-- it again; and for messages `others` on which handlers may throw, each time with a new coordinator
-- in its place, as long as they bring no configuration.
pub shut_down_queues-quiet :
    (env : Env) (c : Coordinator) {o : Outcome} (ms others : List (Env × Message))
    {c2 : Coordinator} {es : List Effect}
    → receive env shut_down_queues c ≡ some o
    → run ms o.0 ≡ some (c2, es)
    → NoConfiguration others
    → (executed es ≡ [])
      × (fetches es ≡ 0)
      × (executed (keep_running others o.0) ≡ [])
      × (fetches (keep_running others o.0) ≡ 0)
unfolding IsQuiet
shut_down_queues-quiet env c ms others e r n =
    let off = on_shut_down-shutting_down env c e in
    let (x, f) = run-quiet ms _ off r in
    let (y, g) = keep_running-IsQuiet others _ n (record { off = inl off }) in (x, f, y, g)
