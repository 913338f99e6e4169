-- ===== src/ExecutorShell/Starts.antt =====
-- `StartJobQueue` of OddJob.Execution.Akka/JobExecutorShell.cs.
use odd_job.Prelude.{
  ◌≢◌, ℕ, ◌≡◌, ◌≢◌, refl, sym, ap, ◌∙◌, inl, inr, Bool, true, false, not, ◌&&◌, ◌||◌, Option, none,
  some, ◌∷◌, ==_iff, Bool-cases, is_some,
}
use odd_job.ExecutorShell.{
  Dictionary, get_value, contains_key, add, Settings, World, Shell, Outcome, is_configured,
  add_pulses, start_pulses, pool_coordinator, configure, start_job_queue,
}
use odd_job.ExecutorShell.Dictionaries.{true-false, differs, contains_key-cons}
use odd_job.ExecutorShell.Pools.{IsPooled}

-- Whether the actor system does all that a start needs.
unfoldable pub is_pooled : World → Option ℕ → Bool
is_pooled world o = is_some o && is_configured world.configuration_reply

unfoldable pub is_started : World → Option ℕ → Bool
is_started world o = is_pooled world o && not world.scheduler_throws

-- How `StartJobQueue` leaves a queue that was not there.
pub record Started (world : World) (o : Option ℕ) (q : ℕ) (s : Shell) (after : Outcome)
    : Type 0 where
  pub ends : after.throws ≡ not (is_started world o)
  pub pulses : contains_key q after.shell.cancel_pulse_pool ≡ is_started world o
  pub pooled : contains_key q after.shell.coordinator_pool ≡ is_pooled world o
  pub others :
      (k : ℕ)
      → k ≢ q
      → (get_value k after.shell.coordinator_pool ≡ get_value k s.coordinator_pool)
        × (get_value k after.shell.cancel_pulse_pool ≡ get_value k s.cancel_pulse_pool)

get_value-other {ℓ} :
    {V : Type ℓ} (k q : ℕ) (v : V) (d : Dictionary V)
    → k ≢ q
    → get_value k ((q, v) ∷ d) ≡ get_value k d
unfolding get_value
get_value-other k q v d h = rw (differs k q h) refl

has_key {ℓ} : {V : Type ℓ} (q : ℕ) (v : V) (d : Dictionary V) → contains_key q ((q, v) ∷ d) ≡ true
has_key q v d = contains_key-cons q q v d ∙ ap (λ b. b || contains_key q d) ((==_iff q q).1 refl)

configure-Started :
    (world : World) (q : ℕ) (settings : Settings) (s : Shell) (o : Option ℕ)
    → contains_key q s.coordinator_pool ≡ false
    → contains_key q s.cancel_pulse_pool ≡ false
    → Started world o q s (configure world q settings s o)
unfolding configure pool_coordinator add start_pulses add_pulses is_started is_pooled
configure-Started world q settings s none e n = record {
  ends = refl;
  pulses = n;
  pooled = e;
  others = λ k h. (refl, refl);
}
configure-Started world q settings s (some c) e n =
    elim (Bool-cases (is_configured world.configuration_reply)) [
      | inl t ↦ elim (Bool-cases world.scheduler_throws) [
        | inl u ↦
            rw (t, e, u)
              record {
                ends = rw t refl;
                pulses = rw t n;
                pooled = rw t (has_key q c s.coordinator_pool);
                others = λ k h. (get_value-other k q c s.coordinator_pool h, refl);
              }
        | inr u ↦
            rw (t, e, u, n)
              record {
                ends = rw t refl;
                pulses = rw t (has_key q false s.cancel_pulse_pool);
                pooled = rw t (has_key q c s.coordinator_pool);
                others = λ k h. (
                  get_value-other k q c s.coordinator_pool h,
                  get_value-other k q false s.cancel_pulse_pool h,
                );
              }
      ]
      | inr f ↦ rw f record {
        ends = rw f refl;
        pulses = rw f n;
        pooled = rw f e;
        others = λ k h. (refl, refl);
      }
    ]

no_pulses :
    (q : ℕ) (s : Shell)
    → IsPooled s
    → contains_key q s.coordinator_pool ≡ false
    → contains_key q s.cancel_pulse_pool ≡ false
no_pulses q s h e = elim (Bool-cases (contains_key q s.cancel_pulse_pool)) [
  | inl t ↦ absurd (true-false (sym (h.pooled q t) ∙ e))
  | inr f ↦ f
]

-- `StartJobQueue` of a queue that is not in the pool, where each pulse is that of a coordinator in the
-- pool: its coordinator is in the pool afterwards just when the actor system made it and it answered
-- that it is configured, it has pulses just when the scheduler also took them, and otherwise the call
-- throws. The other queues stay as they were.
pub start_job_queue-Started :
    (world : World) (q : ℕ) (settings : Settings) (s : Shell)
    → IsPooled s
    → contains_key q s.coordinator_pool ≡ false
    → Started world world.actor_of q s (start_job_queue world q settings s)
unfolding start_job_queue
start_job_queue-Started world q settings s h e =
    rw e (configure-Started world q settings s world.actor_of e (no_pulses q s h e))
