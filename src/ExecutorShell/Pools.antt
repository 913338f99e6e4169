-- ===== src/ExecutorShell/Pools.antt =====
-- The two pools of OddJob.Execution.Akka/JobExecutorShell.cs, over any calls.
use odd_job.Prelude.{
  ℕ, ◌≡◌, refl, sym, ap, ◌∙◌, inl, inr, Bool, true, false, ◌||◌, Option, none, some, List, [], ◌∷◌,
  ◌==◌, ==_iff, Bool-cases, Option-cases, is_some, arith, subst,
}
use odd_job.ExecutorShell.{
  Dictionary, get_value, contains_key, add, Settings, World, Request, Shell, Outcome, is_configured,
  add_pulses, start_pulses, pool_coordinator, configure, start_job_queue, shut_down_queue,
  shut_down_each, dispose, new_shell, keys,
}
use odd_job.ExecutorShell.Dictionaries.{
  get_value-remove_other, IsDictionary, remove-IsDictionary, contains_key-remove, contains_key-cons,
}

-- The pulses are of different queues, and each is that of a coordinator in the pool.
pub record IsPooled (s : Shell) : Type 0 where
  pub pulses : IsDictionary s.cancel_pulse_pool
  pub pooled :
      (q : ℕ) → contains_key q s.cancel_pulse_pool ≡ true → contains_key q s.coordinator_pool ≡ true

shut_down_queue-IsPooled :
    (world : World) (q : ℕ) (s : Shell) → IsPooled s → IsPooled (shut_down_queue world q s).shell
unfolding shut_down_queue
shut_down_queue-IsPooled world q s h = record {
  pulses = remove-IsDictionary q s.cancel_pulse_pool h.pulses;
  pooled = λ k e.
      let (f, there) = contains_key-remove k q s.cancel_pulse_pool e in
      ap is_some (get_value-remove_other k q s.coordinator_pool f) ∙ h.pooled k there;
}

shut_down_each-IsPooled :
    (world : World) (qs : List ℕ) (s : Shell)
    → IsPooled s
    → IsPooled (shut_down_each world qs s).shell
unfolding shut_down_each
shut_down_each-IsPooled world [] s h = h
shut_down_each-IsPooled world (q ∷ qs) s h =
    let first = shut_down_queue-IsPooled world q s h in
    elim (Bool-cases (shut_down_queue world q s).throws) [
      | inl t ↦ rw t first
      | inr f ↦ rw f (shut_down_each-IsPooled world qs (shut_down_queue world q s).shell first)
    ]

dispose-IsPooled : (world : World) (s : Shell) → IsPooled s → IsPooled (dispose world s).shell
unfolding dispose
dispose-IsPooled world s h =
    let each = shut_down_each-IsPooled world (keys s.cancel_pulse_pool) s h in
    elim (Bool-cases (shut_down_each world (keys s.cancel_pulse_pool) s).throws) [
      | inl t ↦ rw t each
      | inr f ↦ rw f each
    ]

-- A pulse is added to a pool that has its coordinator.
add_pulses-IsPooled :
    (q : ℕ) (asked : List Request) (s : Shell)
    → IsPooled s
    → contains_key q s.coordinator_pool ≡ true
    → IsPooled (add_pulses q asked s (add q false s.cancel_pulse_pool)).shell
unfolding add_pulses add IsDictionary
add_pulses-IsPooled q asked s h e = elim (Option-cases (get_value q s.cancel_pulse_pool)) [
  | inl n ↦ rw n record {
    pulses = (n, h.pulses);
    pooled = λ k there. elim (Bool-cases (k == q)) [
      | inl t ↦ subst (λ n. contains_key n s.coordinator_pool ≡ true) (sym ((==_iff k q).0 t)) e
      | inr f ↦ h.pooled k (
          sym (ap (λ b. b || contains_key k s.cancel_pulse_pool) f)
          ∙ sym (contains_key-cons k q false s.cancel_pulse_pool)
          ∙ there)
    ];
  }
  | inr (v, n) ↦ rw n h
]

or_true : (b : Bool) → (b || true) ≡ true
or_true true = refl
or_true false = refl

start_pulses-IsPooled :
    (world : World) (q : ℕ) (settings : Settings) (coordinator : ℕ) (asked : List Request)
    (s : Shell)
    → IsPooled s
    → contains_key q s.coordinator_pool ≡ true
    → IsPooled (start_pulses world q settings coordinator asked s).shell
unfolding start_pulses
start_pulses-IsPooled world q settings coordinator asked s h e =
    elim (Bool-cases world.scheduler_throws) [
      | inl t ↦ rw t h
      | inr f ↦ rw f (add_pulses-IsPooled q _ s h e)
    ]

abbrev with_coordinator : ℕ → ℕ → Shell → Shell
with_coordinator q c s = record s { coordinator_pool = (q, c) ∷ s.coordinator_pool }

with_coordinator-has : (q c : ℕ) (d : Dictionary ℕ) → contains_key q ((q, c) ∷ d) ≡ true
with_coordinator-has q c d =
    contains_key-cons q q c d ∙ ap (λ b. b || contains_key q d) ((==_iff q q).1 refl)

with_coordinator-IsPooled : (q c : ℕ) (s : Shell) → IsPooled s → IsPooled (with_coordinator q c s)
with_coordinator-IsPooled q c s h = record {
  pulses = h.pulses;
  pooled = λ k e.
      contains_key-cons k q c s.coordinator_pool
      ∙ ap (λ b. (k == q) || b) (h.pooled k e)
      ∙ or_true (k == q);
}

configure-IsPooled :
    (world : World) (q : ℕ) (settings : Settings) (s : Shell) (o : Option ℕ)
    → IsPooled s
    → contains_key q s.coordinator_pool ≡ false
    → IsPooled (configure world q settings s o).shell
unfolding configure pool_coordinator add
configure-IsPooled world q settings s none h e = h
configure-IsPooled world q settings s (some c) h e =
    elim (Bool-cases (is_configured world.configuration_reply)) [
      | inl t ↦
          rw (t, e)
            (start_pulses-IsPooled world q settings c _ (with_coordinator q c s)
              (with_coordinator-IsPooled q c s h) (with_coordinator-has q c s.coordinator_pool))
      | inr f ↦ rw f h
    ]

-- A call to the shell: a start, a shutdown of one queue, or `Dispose`.
pub data Call : Type 0 where
  start : World → ℕ → Settings → Call
  stop : World → ℕ → Call
  end_all : World → Call

unfoldable pub apply : Call → Shell → Outcome
apply (start world q settings) s = start_job_queue world q settings s
apply (stop world q) s = shut_down_queue world q s
apply (end_all world) s = dispose world s

-- Calls one after the other; a caller may go on after an exception.
unfoldable pub apply_all : List Call → Shell → Shell
apply_all [] s = s
apply_all (c ∷ cs) s = apply_all cs (apply c s).shell

apply-IsPooled : (c : Call) (s : Shell) → IsPooled s → IsPooled (apply c s).shell
unfolding apply start_job_queue
apply-IsPooled (start world q settings) s h =
    elim (Bool-cases (contains_key q s.coordinator_pool)) [
      | inl t ↦ rw t h
      | inr f ↦ rw f (configure-IsPooled world q settings s world.actor_of h f)
    ]
apply-IsPooled (stop world q) s h = shut_down_queue-IsPooled world q s h
apply-IsPooled (end_all world) s h = dispose-IsPooled world s h

apply_all-from : (cs : List Call) (s : Shell) → IsPooled s → IsPooled (apply_all cs s)
unfolding apply_all
apply_all-from [] s h = h
apply_all-from (c ∷ cs) s h = apply_all-from cs (apply c s).shell (apply-IsPooled c s h)

-- Whatever calls are made on a new shell, also after exceptions, its pulses are of different queues,
-- and each is that of a coordinator in the pool.
pub apply_all-IsPooled : (cs : List Call) → IsPooled (apply_all cs new_shell)
unfolding IsDictionary get_value
apply_all-IsPooled cs =
    apply_all-from cs new_shell record { pulses = tt; pooled = λ q e. absurd (ground arith) }
