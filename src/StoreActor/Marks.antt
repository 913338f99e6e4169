-- ===== src/StoreActor/Marks.antt =====
-- What the coordinator's handling of a report (OddJob.Execution.Akka/JobQueueCoordinator.cs) makes of
-- the job's row, by way of JobQueueLayerActor.cs and OddJob.Storage.SQL.Common/BaseSqlJobQueueManager.cs.
use odd_job.Prelude.{
  ℕ, ◌≡◌, refl, sym, ap, subst, ◌∙◌, ◌⊎◌, inl, inr, Bool, true, false, Option, none, some, List, [],
  ◌∷◌, ◌==◌, Bool-cases, if-true, if-false, ==_iff,
}
use odd_job.SqlStore
use odd_job.SqlStore.{
  Row, update, has_guid, claim, new, retry, failed, processed, as_processed, as_failed,
  as_in_progress, as_retry,
}
use odd_job.Coordinator
use odd_job.Coordinator.{
  Job, Env, Coordinator, Effect, Hook, call_hook, mark_in_progress, mark_success, mark_failed,
  mark_retry_and_increment, job_succeeded, job_failed, gives_up, on_job_failed, on_job_retry,
  on_job_success,
}
use odd_job.Coordinator.Retry.{end_with_gives_up}
use odd_job.StoreActor.{StoreEnv, receive, deliver}

-- What becomes of a table with the one row when the coordinator handles a message about its job and
-- a working store the requests that follow.
pub record Handled (message : Coordinator.Message) (r r' : Row) : Type 0 where
  pub env : Env
  pub store : StoreEnv
  pub works : store.throws ≡ false
  pub before : Coordinator
  pub configured : before.configured ≡ true
  pub after : Coordinator
  pub effects : List Effect
  pub result : Bool
  pub handled : Coordinator.receive env message before ≡ some (after, effects, result)
  pub stored : deliver store effects (r ∷ []) ≡ r' ∷ []

update-only : (r : Row) (f : Row → Row) → update (has_guid r.job_guid) f (r ∷ []) ≡ f r ∷ []
unfolding update
update-only r f =
    let e : (r.job_guid == r.job_guid) ≡ true = (==_iff r.job_guid r.job_guid).1 refl in rw e refl

first : (r s : Row) → r ∷ [] ≡ s ∷ [] → r ≡ s
first r s e = ap (or_head r) e
  where
    or_head : Row → List Row → Row
    or_head d [] = d
    or_head d (x ∷ _) = x

deliver-call_hook :
    (env : Env) (store : StoreEnv) (h : Hook) (rows : List Row)
    → deliver store (call_hook env h) rows ≡ rows
unfolding deliver
deliver-call_hook env store h rows = elim (Bool-cases (env.throws h)) [
  | inl t ↦ rw (t, deliver) refl
  | inr f ↦ rw (f, deliver) refl
]

pub in_progress_row :
    (store : StoreEnv) (r r' : Row)
    → store.throws ≡ false
    → deliver store (mark_in_progress r.job_guid ∷ []) (r ∷ []) ≡ r' ∷ []
    → as_in_progress store.now r ≡ r'
unfolding deliver receive SqlStore.mark_job_in_progress
in_progress_row store r r' works e =
    first (as_in_progress store.now r) r'
      (sym (rw works (update-only r (as_in_progress store.now))) ∙ e)

-- The mark that the coordinator sends first, and then its hook, leave what the mark makes.
marked_row :
    (store : StoreEnv) (r r' : Row) (env : Env) (m : Effect) (h : Hook) (f : Row → Row)
    → deliver store (m ∷ []) (r ∷ []) ≡ f r ∷ []
    → deliver store (m ∷ call_hook env h) (r ∷ []) ≡ r' ∷ []
    → f r ≡ r'
unfolding deliver
marked_row store r r' env m h f e d =
    first (f r) r' (sym e ∙ sym (deliver-call_hook env store h _) ∙ d)

success_row :
    (store : StoreEnv) (r : Row)
    → store.throws ≡ false
    → deliver store (mark_success r.job_guid ∷ []) (r ∷ []) ≡ as_processed r ∷ []
unfolding deliver receive SqlStore.mark_job_success
success_row store r works = rw works (update-only r as_processed)

failed_row :
    (store : StoreEnv) (r : Row)
    → store.throws ≡ false
    → deliver store (mark_failed r.job_guid ∷ []) (r ∷ []) ≡ as_failed r ∷ []
unfolding deliver receive SqlStore.mark_job_failed
failed_row store r works = rw works (update-only r as_failed)

retry_row :
    (store : StoreEnv) (r : Row) (time : ℕ)
    → store.throws ≡ false
    → deliver store (mark_retry_and_increment r.job_guid time ∷ []) (r ∷ [])
      ≡ as_retry store.now r ∷ []
unfolding deliver receive SqlStore.mark_job_in_retry_and_increment
retry_row store r time works = rw works (update-only r (as_retry store.now))

abbrev effects_of : Option Coordinator.Outcome → List Effect
effects_of none = []
effects_of (some (_, effects, _)) = effects

pub Handled-succeeded :
    (job : Job) (r r' : Row)
    → job.job_id ≡ r.job_guid
    → Handled (job_succeeded job) r r'
    → as_processed r ≡ r'
Handled-succeeded job r r' same h =
    let told = (end_with_gives_up h.env job h.before h.configured).0 in
    let hook = call_hook h.env (on_job_success job) in
    let e : h.effects ≡ mark_success r.job_guid ∷ hook =
      ap effects_of (sym h.handled ∙ told) ∙ ap (λ g. mark_success g ∷ hook) same in
    marked_row h.store r r' h.env (mark_success r.job_guid) (on_job_success job) as_processed
      (success_row h.store r h.works) (subst (λ l. deliver h.store l (r ∷ []) ≡ r' ∷ []) e h.stored)

pub Handled-failed :
    (job : Job) (r r' : Row)
    → job.job_id ≡ r.job_guid
    → Handled (job_failed job) r r'
    → ((as_failed r ≡ r') × (gives_up job.retry_parameters ≡ true))
      ⊎ ((now : ℕ) × (as_retry now r ≡ r') × (gives_up job.retry_parameters ≡ false))
Handled-failed job r r' same h =
    let told = (end_with_gives_up h.env job h.before h.configured).1 in
    let mark : List Effect → Type 0 = λ l. deliver h.store l (r ∷ []) ≡ r' ∷ [] in
    elim (Bool-cases (gives_up job.retry_parameters)) [
      | inl t ↦
          let hook = call_hook h.env (on_job_failed job) in
          let e : h.effects ≡ mark_failed r.job_guid ∷ hook =
            ap effects_of (sym h.handled ∙ told ∙ if-true _ _ t)
            ∙ ap (λ g. mark_failed g ∷ hook) same in
          inl (
            marked_row h.store r r' h.env (mark_failed r.job_guid) (on_job_failed job) as_failed
                (failed_row h.store r h.works) (subst mark e h.stored),
            t,
          )
      | inr f ↦
          let hook = call_hook h.env (on_job_retry job) in
          let e : h.effects ≡ mark_retry_and_increment r.job_guid h.env.now ∷ hook =
            ap effects_of (sym h.handled ∙ told ∙ if-false _ _ f)
            ∙ ap (λ g. mark_retry_and_increment g h.env.now ∷ hook) same in
          inr (
            h.store.now,
            marked_row h.store r r' h.env (mark_retry_and_increment r.job_guid h.env.now)
                (on_job_retry job) (as_retry h.store.now) (retry_row h.store r h.env.now h.works)
                (subst mark e h.stored),
            f,
          )
    ]
