-- ===== src/ExecutorShell/Disposal.antt =====
-- `Dispose` of OddJob.Execution.Akka/JobExecutorShell.cs.
use odd_job.Prelude.{
  ℕ, ◌≡◌, refl, sym, ap, ◌∙◌, inl, inr, Bool, true, false, not, ◌||◌, Option, none, some, [], ◌∷◌,
  ◌==◌, ==_iff, if◌then◌else◌, Bool-cases, Option-cases, is_some, if-true, subst,
}
use odd_job.ExecutorShell.{
  Dictionary, get_value, contains_key, remove, World, Shell, Outcome, shut_down_queue,
  shut_down_each, dispose, keys,
}
use odd_job.ExecutorShell.Dictionaries.{
  get_value-remove, get_value-remove_other, IsDictionary, contains_key-cons, absent-present,
}
use odd_job.ExecutorShell.Pools.{IsPooled}
use odd_job.ExecutorShell.Shutdowns.{is_stopped, shut_down_queue-forgets}

-- What the shutdown of each queue of `d` leaves of a pool.
abbrev left_of {ℓ} : {V : Type ℓ} → Dictionary Bool → Dictionary V → ℕ → Option V
left_of d pool k = if contains_key k d then none else get_value k pool

record Emptied (d : Dictionary Bool) (s : Shell) (after : Outcome) : Type 0 where
  ends : after.throws ≡ false
  pulses : (k : ℕ) → get_value k after.shell.cancel_pulse_pool ≡ left_of d s.cancel_pulse_pool k
  coordinators : (k : ℕ) → get_value k after.shell.coordinator_pool ≡ left_of d s.coordinator_pool k

same_either_way {ℓ} : {A : Type ℓ} (b : Bool) (x : A) → (if b then x else x) ≡ x
same_either_way true x = refl
same_either_way false x = refl

nothing_left {ℓ} :
    {V : Type ℓ} (d : Dictionary V) (k : ℕ)
    → (if contains_key k d then none else get_value k d) ≡ none
nothing_left d k = elim (Option-cases (get_value k d)) [
  | inl n ↦ rw n refl
  | inr (v, e) ↦ rw e refl
]

has_key : (q : ℕ) (b : Bool) (d : Dictionary Bool) → contains_key q ((q, b) ∷ d) ≡ true
has_key q b d = contains_key-cons q q b d ∙ ap (λ c. c || contains_key q d) ((==_iff q q).1 refl)

contains_key-other :
    (k q : ℕ) (b : Bool) (d : Dictionary Bool)
    → (k == q) ≡ false
    → contains_key k ((q, b) ∷ d) ≡ contains_key k d
contains_key-other k q b d f = contains_key-cons k q b d ∙ ap (λ c. c || contains_key k d) f

left_of-cons {ℓ} :
    {V : Type ℓ} (q : ℕ) (b : Bool) (d : Dictionary Bool) (pool : Dictionary V) (k : ℕ)
    → left_of d (remove q pool) k ≡ left_of ((q, b) ∷ d) pool k
left_of-cons q b d pool k = elim (Bool-cases (k == q)) [
  | inl t ↦
      let gone =
        subst (λ n. get_value n (remove q pool) ≡ none) (sym ((==_iff k q).0 t))
          (get_value-remove q pool) in
      let there =
        subst (λ n. contains_key n ((q, b) ∷ d) ≡ true) (sym ((==_iff k q).0 t)) (has_key q b d) in
      ap (λ o. if contains_key k d then none else o) gone
      ∙ same_either_way (contains_key k d) none
      ∙ sym (if-true none (get_value k pool) there)
  | inr f ↦
      ap (λ o. if contains_key k d then none else o) (get_value-remove_other k q pool f)
      ∙ sym (ap (λ c. if c then none else get_value k pool) (contains_key-other k q b d f))
]

not_first :
    (k q : ℕ) (d : Dictionary Bool)
    → get_value q d ≡ none
    → contains_key k d ≡ true
    → (k == q) ≡ false
not_first k q d n e = elim (Bool-cases (k == q)) [
  | inl t ↦ absent-present q d n (subst (λ m. contains_key m d ≡ true) ((==_iff k q).0 t) e)
  | inr f ↦ f
]

after_shut_down-other :
    (world : World) (k q : ℕ) (s : Shell)
    → (k == q) ≡ false
    → contains_key k (shut_down_queue world q s).shell.coordinator_pool
      ≡ contains_key k s.coordinator_pool
unfolding shut_down_queue
after_shut_down-other world k q s f = ap is_some (get_value-remove_other k q s.coordinator_pool f)

left_pulses :
    (world : World) (q : ℕ) (b : Bool) (d : Dictionary Bool) (s : Shell) (k : ℕ)
    → left_of d (shut_down_queue world q s).shell.cancel_pulse_pool k
      ≡ left_of ((q, b) ∷ d) s.cancel_pulse_pool k
unfolding shut_down_queue
left_pulses world q b d s k = left_of-cons q b d s.cancel_pulse_pool k

left_coordinators :
    (world : World) (q : ℕ) (b : Bool) (d : Dictionary Bool) (s : Shell) (k : ℕ)
    → left_of d (shut_down_queue world q s).shell.coordinator_pool k
      ≡ left_of ((q, b) ∷ d) s.coordinator_pool k
unfolding shut_down_queue
left_coordinators world q b d s k = left_of-cons q b d s.coordinator_pool k

module _ (world : World) (answers : (c : ℕ) → world.answers c ≡ true) where
  stopped : (o : Option ℕ) → is_some o ≡ true → is_stopped world o ≡ true
  unfolding is_stopped
  stopped none e = e
  stopped (some c) e = answers c

  shut_down_queue-returns :
      (q : ℕ) (s : Shell)
      → contains_key q s.coordinator_pool ≡ true
      → (shut_down_queue world q s).throws ≡ false
  shut_down_queue-returns q s e =
      let (a, b, c, throws, d) = shut_down_queue-forgets world q s in
      throws ∙ ap not (stopped (get_value q s.coordinator_pool) e)

  shut_down_each-Emptied :
      (d : Dictionary Bool) (s : Shell)
      → IsDictionary d
      → ((k : ℕ) → contains_key k d ≡ true → contains_key k s.coordinator_pool ≡ true)
      → Emptied d s (shut_down_each world (keys d) s)
  unfolding shut_down_each IsDictionary get_value
  shut_down_each-Emptied [] s h e = record {
    ends = refl;
    pulses = λ k. refl;
    coordinators = λ k. refl;
  }
  shut_down_each-Emptied ((q, b) ∷ d) s h e =
      let first = shut_down_queue world q s in
      let returns = shut_down_queue-returns q s (e q (has_key q b d)) in
      let rest = shut_down_each-Emptied d first.shell h.1 (λ k there.
        let f = not_first k q d h.0 there in
        after_shut_down-other world k q s f ∙ e k (contains_key-other k q b d f ∙ there)) in
      rw returns record {
        ends = rest.ends;
        pulses = λ k. rest.pulses k ∙ left_pulses world q b d s k;
        coordinators = λ k. rest.coordinators k ∙ left_coordinators world q b d s k;
      }

  -- `Dispose`, where the pools are as any calls leave them and every coordinator answers in time:
  -- it throws only if the end of the system does, and no queue has pulses afterwards. It forgets just
  -- the coordinators that had pulses: one whose pulses the scheduler refused stays in the pool.
  pub dispose-Emptied :
      (s : Shell)
      → IsPooled s
      → ((dispose world s).throws ≡ world.terminate_throws)
        × ((k : ℕ) → get_value k (dispose world s).shell.cancel_pulse_pool ≡ none)
        × ((k : ℕ)
            → get_value k (dispose world s).shell.coordinator_pool ≡ (
                if contains_key k s.cancel_pulse_pool
                then none
                else get_value k s.coordinator_pool))
  unfolding dispose
  dispose-Emptied s h =
      let each = shut_down_each-Emptied s.cancel_pulse_pool s h.pulses h.pooled in
      rw each.ends
        (refl, λ k. each.pulses k ∙ nothing_left s.cancel_pulse_pool k, λ k. each.coordinators k)
