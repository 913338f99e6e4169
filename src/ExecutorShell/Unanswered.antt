-- ===== src/ExecutorShell/Unanswered.antt =====
-- `Dispose` of OddJob.Execution.Akka/JobExecutorShell.cs, where a coordinator does not answer.
use odd_job.Prelude.{
  ℕ, ◌≡◌, refl, sym, ap, ◌∙◌, inl, inr, Bool, true, false, not, ◌||◌, Option, none, some, List, [],
  ◌∷◌, ◌++◌, ◌==◌, ==_iff, Bool-cases, arith, subst,
}
use odd_job.ExecutorShell.{
  Dictionary, get_value, contains_key, World, Request, Shell, stop_coordinator, shut_down_queue,
  shut_down_each, dispose, keys, poison_pill, cancel_pulses, shut_down_queues, cancel_sweeps,
  terminate, set_job_queue_configuration, schedule_sweeps,
}
use odd_job.ExecutorShell.Dictionaries.{true-false, get_value-remove_other, contains_key-cons}
use odd_job.ExecutorShell.Shutdowns.{is_stopped, shut_down_queue-forgets}

unfoldable pub has_terminate : List Request → Bool
has_terminate [] = false
has_terminate (terminate ∷ rs) = true
has_terminate (_ ∷ rs) = has_terminate rs

has_terminate-append :
    (rs qs : List Request)
    → has_terminate rs ≡ false
    → has_terminate qs ≡ false
    → has_terminate (rs ++ qs) ≡ false
unfolding has_terminate
has_terminate-append [] qs h e = e
has_terminate-append (terminate ∷ rs) qs h e = h
has_terminate-append (set_job_queue_configuration _ _ _ ∷ rs) qs h e =
    has_terminate-append rs qs h e
has_terminate-append (schedule_sweeps _ _ _ ∷ rs) qs h e = has_terminate-append rs qs h e
has_terminate-append (cancel_sweeps _ ∷ rs) qs h e = has_terminate-append rs qs h e
has_terminate-append (shut_down_queues _ ∷ rs) qs h e = has_terminate-append rs qs h e
has_terminate-append (poison_pill _ ∷ rs) qs h e = has_terminate-append rs qs h e

cancel_pulses-goes_on : (q : ℕ) (o : Option Bool) → has_terminate (cancel_pulses q o) ≡ false
unfolding has_terminate cancel_pulses
cancel_pulses-goes_on q none = refl
cancel_pulses-goes_on q (some true) = refl
cancel_pulses-goes_on q (some false) = refl

stop_coordinator-goes_on :
    (world : World) (o : Option ℕ) → has_terminate (stop_coordinator world o).0 ≡ false
unfolding has_terminate stop_coordinator
stop_coordinator-goes_on world none = refl
stop_coordinator-goes_on world (some c) = elim (Bool-cases (world.answers c)) [
  | inl t ↦ rw t refl
  | inr f ↦ rw f refl
]

shut_down_queue-goes_on :
    (world : World) (q : ℕ) (s : Shell) → has_terminate (shut_down_queue world q s).requests ≡ false
unfolding shut_down_queue
shut_down_queue-goes_on world q s =
    has_terminate-append (cancel_pulses q (get_value q s.cancel_pulse_pool)) _
      (cancel_pulses-goes_on q (get_value q s.cancel_pulse_pool))
      (stop_coordinator-goes_on world (get_value q s.coordinator_pool))

shut_down_each-goes_on :
    (world : World) (qs : List ℕ) (s : Shell)
    → has_terminate (shut_down_each world qs s).requests ≡ false
unfolding shut_down_each has_terminate
shut_down_each-goes_on world [] s = refl
shut_down_each-goes_on world (q ∷ qs) s =
    let here = shut_down_queue-goes_on world q s in
    elim (Bool-cases (shut_down_queue world q s).throws) [
      | inl t ↦ rw t here
      | inr f ↦ rw f (
          has_terminate-append (shut_down_queue world q s).requests _ here
            (shut_down_each-goes_on world qs (shut_down_queue world q s).shell))
    ]

module _ (world : World) (k c : ℕ) (silent : world.answers c ≡ false) where
  not_stopped : (o : Option ℕ) → o ≡ some c → not (is_stopped world o) ≡ true
  unfolding is_stopped
  not_stopped o e = rw e (ap not silent)

  shut_down_queue-silent :
      (s : Shell)
      → get_value k s.coordinator_pool ≡ some c
      → (shut_down_queue world k s).throws ≡ true
  shut_down_queue-silent s e =
      let (_, _, _, throws, _) = shut_down_queue-forgets world k s in
      throws ∙ not_stopped (get_value k s.coordinator_pool) e

  shut_down_queue-keeps :
      (q : ℕ) (s : Shell)
      → (k == q) ≡ false
      → get_value k s.coordinator_pool ≡ some c
      → get_value k (shut_down_queue world q s).shell.coordinator_pool ≡ some c
  unfolding shut_down_queue
  shut_down_queue-keeps q s f e = get_value-remove_other k q s.coordinator_pool f ∙ e

  shut_down_each-silent :
      (d : Dictionary Bool) (s : Shell)
      → contains_key k d ≡ true
      → get_value k s.coordinator_pool ≡ some c
      → (shut_down_each world (keys d) s).throws ≡ true
  unfolding shut_down_each get_value
  shut_down_each-silent [] s h e = absurd (ground arith)
  shut_down_each-silent ((q, b) ∷ d) s h e = elim (Bool-cases (shut_down_queue world q s).throws) [
    | inl t ↦ rw t refl
    | inr f ↦ elim (Bool-cases (k == q)) [
      | inl same ↦ absurd (
          true-false (
            sym (
              subst (λ n. (shut_down_queue world n s).throws ≡ true) ((==_iff k q).0 same)
                (shut_down_queue-silent s e))
            ∙ f))
      | inr other ↦ rw f (
          shut_down_each-silent d (shut_down_queue world q s).shell
            (sym (contains_key-cons k q b d ∙ ap (λ x. x || contains_key k d) other) ∙ h)
            (shut_down_queue-keeps q s other e))
    ]
  ]

  -- `Dispose`, where one queue that has pulses has a coordinator that does not answer in time: it
  -- throws, and the actor system is not told to end, whichever queues come before it.
  pub dispose-unanswered :
      (s : Shell)
      → contains_key k s.cancel_pulse_pool ≡ true
      → get_value k s.coordinator_pool ≡ some c
      → ((dispose world s).throws ≡ true) × (has_terminate (dispose world s).requests ≡ false)
  unfolding dispose
  dispose-unanswered s h e =
      let throws = shut_down_each-silent s.cancel_pulse_pool s h e in
      rw throws (refl, shut_down_each-goes_on world (keys s.cancel_pulse_pool) s)
