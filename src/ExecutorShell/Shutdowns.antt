-- ===== src/ExecutorShell/Shutdowns.antt =====
-- `ShutDownQueue` and `Dispose` of OddJob.Execution.Akka/JobExecutorShell.cs.
use odd_job.Prelude.{
  ℕ, ◌≡◌, ◌≢◌, refl, ap, inl, inr, Bool, true, false, not, Option, none, some, List, [], ◌∷◌, ◌++◌,
  Bool-cases, is_some, arith,
}
use odd_job.ExecutorShell.{
  get_value, contains_key, World, Request, Shell, stop_coordinator, shut_down_queue, poison_pill,
  cancel_pulses,
}
use odd_job.ExecutorShell.Dictionaries.{get_value-remove, differs, get_value-remove_other}

-- A queue's shutdown ends without an exception.
unfoldable pub is_stopped : World → Option ℕ → Bool
is_stopped world none = false
is_stopped world (some coordinator) = world.answers coordinator

unfoldable pub has_poison_pill : List Request → Bool
has_poison_pill [] = false
has_poison_pill (poison_pill _ ∷ rs) = true
has_poison_pill (_ ∷ rs) = has_poison_pill rs

stop_coordinator-throws :
    (world : World) (o : Option ℕ) → (stop_coordinator world o).1 ≡ not (is_stopped world o)
unfolding stop_coordinator is_stopped
stop_coordinator-throws world none = refl
stop_coordinator-throws world (some c) = ground arith

stop_coordinator-pills :
    (world : World) (o : Option ℕ)
    → has_poison_pill (stop_coordinator world o).0 ≡ is_stopped world o
unfolding stop_coordinator is_stopped has_poison_pill
stop_coordinator-pills world none = refl
stop_coordinator-pills world (some c) = elim (Bool-cases (world.answers c)) [
  | inl t ↦ rw t refl
  | inr f ↦ rw f refl
]

pills :
    (world : World) (q : ℕ) (p : Option Bool) (o : Option ℕ)
    → has_poison_pill (cancel_pulses q p ++ (stop_coordinator world o).0) ≡ is_stopped world o
unfolding has_poison_pill cancel_pulses
pills world q none o = stop_coordinator-pills world o
pills world q (some true) o = stop_coordinator-pills world o
pills world q (some false) o = stop_coordinator-pills world o

-- Whatever the coordinator answers, `ShutDownQueue` leaves the queue in neither pool and the other
-- queues as they were. It throws, and sends the coordinator no poison pill, unless the coordinator
-- is in the pool and answers in time.
pub shut_down_queue-forgets :
    (world : World) (q : ℕ) (s : Shell)
    → let after = shut_down_queue world q s in
      (contains_key q after.shell.coordinator_pool ≡ false)
      × (contains_key q after.shell.cancel_pulse_pool ≡ false)
      × ((k : ℕ)
          → k ≢ q
          → (get_value k after.shell.coordinator_pool ≡ get_value k s.coordinator_pool)
            × (get_value k after.shell.cancel_pulse_pool ≡ get_value k s.cancel_pulse_pool))
      × (after.throws ≡ not (is_stopped world (get_value q s.coordinator_pool)))
      × (has_poison_pill after.requests ≡ is_stopped world (get_value q s.coordinator_pool))
unfolding shut_down_queue
shut_down_queue-forgets world q s = (
  ap is_some (get_value-remove q s.coordinator_pool),
  ap is_some (get_value-remove q s.cancel_pulse_pool),
  λ k h. (
    get_value-remove_other k q s.coordinator_pool (differs k q h),
    get_value-remove_other k q s.cancel_pulse_pool (differs k q h),
  ),
  stop_coordinator-throws world (get_value q s.coordinator_pool),
  pills world q (get_value q s.cancel_pulse_pool) (get_value q s.coordinator_pool),
)
