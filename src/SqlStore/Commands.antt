-- ===== src/SqlStore/Commands.antt =====
-- The updates of BaseSqlJobQueueManager.cs on a caller's command: setters for a job's row and its
-- parameters, and the old status that the row must have.
use odd_job.Prelude.{ℕ, Bool, true, false, Option, List, [], ◌∷◌, ◌==◌, if◌then◌else◌, ◌&&◌}
use odd_job.Seq.Loops.{exists}
use odd_job.SqlStore.{JobStates, same_state, Row, ParamRow, update, is_null_or, has_guid}

-- `JobUpdateCommand`; its setters are applied in their order. `old_status` is none where the text is
-- null or blank.
pub record JobUpdateCommand : Type 0 where
  pub job_guid : ℕ
  pub old_status : Option JobStates
  pub set_job_metadata : List (Row → Row)
  pub set_job_parameters : List (ℕ × List (ParamRow → ParamRow))

abbrev pub apply_all {ℓ} : {A : Type ℓ} → List (A → A) → A → A
apply_all [] x = x
apply_all (f ∷ fs) x = apply_all fs (f x)

abbrev pub is_empty {ℓ} : {A : Type ℓ} → List A → Bool
is_empty [] = true
is_empty (_ ∷ _) = false

abbrev pub is_updatable : ℕ → Option JobStates → Row → Bool
is_updatable guid old_status r =
    has_guid guid r && is_null_or (λ s. same_state r.status s) old_status

abbrev pub is_param : ℕ → ℕ → ParamRow → Bool
is_param guid ordinal p = (p.job_guid == guid) && (p.param_ordinal == ordinal)

-- The loop over the parameters: it returns at the first that has no row.
unfoldable pub set_parameters :
    ℕ → List (ℕ × List (ParamRow → ParamRow)) → List ParamRow → Bool × List ParamRow
set_parameters guid [] params = (true, params)
set_parameters guid ((ordinal, setters) ∷ rest) params =
    let found = exists (is_param guid ordinal) params in
    let written = update (is_param guid ordinal) (apply_all setters) params in
    let after_skip = set_parameters guid rest params in
    let after_write = set_parameters guid rest written in
    if is_empty setters then after_skip else if found then after_write else (false, params)

unfoldable pub update_job_metadata_and_parameters :
    JobUpdateCommand → List Row → List ParamRow → Bool × (List Row × List ParamRow)
update_job_metadata_and_parameters c rows params =
    let able = exists (is_updatable c.job_guid c.old_status) rows in
    let written =
      update (is_updatable c.job_guid c.old_status) (apply_all c.set_job_metadata) rows in
    let rows' = if is_empty c.set_job_metadata then rows else written in
    let (done, params') = set_parameters c.job_guid c.set_job_parameters params in
    if able then (done, (rows', params')) else (false, (rows', params))

-- The row's new values are those of `meta`, but for its id, queue, guid and dates.
abbrev pub overwrite : Row → Row → Row
overwrite meta r = record r {
  status = meta.status;
  do_not_execute_before = meta.do_not_execute_before;
  lock_guid = meta.lock_guid;
  lock_claim_time = meta.lock_claim_time;
  min_retry_wait = meta.min_retry_wait;
  method_name = meta.method_name;
  type_executed_on = meta.type_executed_on;
  retry_count = meta.retry_count;
  max_retries = meta.max_retries;
}

unfoldable pub update_job_metadata_full : Row → Option JobStates → List Row → Bool × List Row
update_job_metadata_full meta old_status rows =
    (true, update (is_updatable meta.job_guid old_status) (overwrite meta) rows)

unfoldable pub update_job_metadata_values :
    List (Row → Row) → ℕ → Option JobStates → List Row → Bool × List Row
update_job_metadata_values setters guid old_status rows =
    let written = update (is_updatable guid old_status) (apply_all setters) rows in
    if is_empty setters
    then (false, rows)
    else (exists (is_updatable guid old_status) rows, written)
